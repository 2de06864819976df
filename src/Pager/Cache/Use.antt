-- ===== src/Pager/Cache/Use.antt =====
-- The order of use of a cache shard (src/pager/cache.rs) as a plain list.
use nanostore.Prelude.{
  ℕ, ◌≡◌, refl, ap, List, [], ◌∷◌, ◌++◌, ◌==◌, ℕ_discrete, inl, inr, arith, length, leb,
  if◌then◌else◌,
}
use nanostore.Prelude.Members.{In, member}

-- A list of identifiers, the last used first: without one of them, and without the last.
unfoldable pub without : ℕ → List ℕ → List ℕ
without p [] = []
without p (i ∷ is) = if i == p then is else i ∷ without p is

unfoldable pub all_but_last : List ℕ → List ℕ
all_but_last [] = []
all_but_last (i ∷ []) = []
all_but_last (i ∷ j ∷ is) = i ∷ all_but_last (j ∷ is)

-- What the order becomes when a page is read, and when one is put into a shard.
unfoldable pub order_read : ℕ → List ℕ → List ℕ
unfolding without
order_read p is = if member p is then p ∷ without p is else is

unfoldable pub order_put : (capacity p : ℕ) → List ℕ → List ℕ
unfolding without all_but_last
order_put capacity p is =
    if member p is
    then p ∷ without p is
    else p ∷ (if leb capacity (length is) then all_but_last is else is)

pub split_at :
    (p : ℕ) (is : List ℕ)
    → In p is
    → (us : List ℕ) × (vs : List ℕ) × (is ≡ us ++ (p ∷ vs)) × (without p is ≡ us ++ vs)
unfolding without
split_at p [] h = absurd h
split_at p (i ∷ is) h = elim (ℕ_discrete i p) [
  | yes e ↦ ([], is, ap (λ x. x ∷ is) e, ground (arith, e))
  | no n ↦
      let (us, vs, e, w) = split_at p is (elim h [ inl q ↦ absurd (n q) | inr m ↦ m ]) in
      (i ∷ us, vs, ap (◌∷◌ i) e, ground (arith, w, n))
]

pub split_last :
    (i : ℕ) (is : List ℕ)
    → (us : List ℕ) × (p : ℕ) × (i ∷ is ≡ us ++ (p ∷ [])) × (all_but_last (i ∷ is) ≡ us)
unfolding all_but_last
split_last i [] = ([], i, refl, refl)
split_last i (j ∷ is) =
    let (us, p, e, w) = split_last j is in (i ∷ us, p, ap (◌∷◌ i) e, ap (◌∷◌ i) w)

pub In-all_but_last : (p : ℕ) (is : List ℕ) → In p (all_but_last is) → In p is
unfolding all_but_last
In-all_but_last p [] h = h
In-all_but_last p (i ∷ []) h = absurd h
In-all_but_last p (i ∷ j ∷ is) (inl e) = inl e
In-all_but_last p (i ∷ j ∷ is) (inr h) = inr (In-all_but_last p (j ∷ is) h)
