-- ===== src/Txn/Deadlock/Walk.antt =====
-- Walks and cycles of the wait-for graph (src/txn/conflict.rs).
use mathlib.Core.Logic.{if_neg, if_pos}
use mathlib.Core.Path.{subst}
use nanostore.Prelude.{
  ℕ, suc, ◌≡◌, refl, ap, sym, some, List, [], ◌∷◌, ◌++◌, inl, inr, ℕ_discrete, drop, arith,
}
use nanostore.Prelude.Members.{In, In-append_left, In-append_right}
use nanostore.Prelude.Maps.{get}
use nanostore.Txn.Deadlock.{Graph, neighbors, position, waiters, nodes, pop}

-- `t` waits for `u`.
abbrev pub Waits : Graph → ℕ → ℕ → Type 0
Waits g t u = In u (neighbors g t)

-- Each transaction of the list waits for the next.
abbrev pub Linked : Graph → List ℕ → Type 0
Linked g [] = Unit
Linked g (t ∷ []) = Unit
Linked g (t ∷ u ∷ us) = Waits g t u × Linked g (u ∷ us)

-- Each waits for the next, and the last for the first.
abbrev pub IsCycle : Graph → List ℕ → Type 0
IsCycle g [] = ⊥
IsCycle g (t ∷ ts) = Linked g ((t ∷ ts) ++ (t ∷ []))

pub Linked-suffix : (g : Graph) (us vs : List ℕ) → Linked g (us ++ vs) → Linked g vs
Linked-suffix g [] vs h = h
Linked-suffix g (t ∷ []) [] h = tt
Linked-suffix g (t ∷ []) (v ∷ vs) h = h.1
Linked-suffix g (t ∷ u ∷ us) vs h = Linked-suffix g (u ∷ us) vs h.1

pub Linked-snoc :
    (g : Graph) (us : List ℕ) (t u : ℕ)
    → Linked g (us ++ (t ∷ []))
    → Waits g t u
    → Linked g ((us ++ (t ∷ [])) ++ (u ∷ []))
Linked-snoc g [] t u h w = (w, tt)
Linked-snoc g (v ∷ []) t u h w = (h.0, (w, tt))
Linked-snoc g (v ∷ x ∷ us) t u h w = (h.0, Linked-snoc g (x ∷ us) t u h.1 w)

-- Where an element stands, and what `position` and the slice from it on find.
pub record Split (t : ℕ) (us : List ℕ) : Type 0 where
  pub before : List ℕ
  pub index : ℕ
  pub rest : List ℕ
  pub whole : us ≡ before ++ (t ∷ rest)
  pub at : position t us ≡ some index
  pub from : drop index us ≡ t ∷ rest

pub split : (t : ℕ) (us : List ℕ) → In t us → Split t us
unfolding position
split t [] h = absurd h
split t (u ∷ us) h = elim (ℕ_discrete u t) [
  | yes p ↦ record {
    before = [];
    index = 0;
    rest = us;
    whole = ap (λ x. x ∷ us) p;
    at = ground arith;
    from = ap (λ x. x ∷ us) p;
  }
  | no n ↦
      let s = split t us (in_tail h n) in
      record {
        before = u ∷ s.before;
        index = suc s.index;
        rest = s.rest;
        whole = ap (◌∷◌ u) s.whole;
        at = ground (arith, s.at);
        from = s.from;
      }
]
  where
    in_tail : In t (u ∷ us) → ¬ (u ≡ t) → In t us
    in_tail (inl p) n = absurd (n p)
    in_tail (inr h) n = h

pub pop-snoc : (us : List ℕ) (t : ℕ) → pop (us ++ (t ∷ [])) ≡ us
unfolding pop
pop-snoc [] t = refl
pop-snoc (u ∷ []) t = refl
pop-snoc (u ∷ v ∷ us) t = ap (◌∷◌ u) (pop-snoc (v ∷ us) t)

-- One that waits for another has an entry.
pub Waits-waiter : (g : Graph) (t u : ℕ) → Waits g t u → In t (waiters g)
unfolding waiters get
Waits-waiter [] t u h = absurd h
Waits-waiter ((v, ns) ∷ g) t u h = elim (ℕ_discrete v t) [
  | yes p ↦ inl p
  | no n ↦ inr (Waits-waiter g t u (rw (if_neg (ℕ_discrete v t) n) at h))
]

pub Waits-node : (g : Graph) (t u : ℕ) → Waits g t u → In u (nodes g)
unfolding nodes get
Waits-node [] t u h = absurd h
Waits-node ((v, ns) ∷ g) t u h = elim (ℕ_discrete v t) [
  | yes p ↦ inr (In-append_left u ns (nodes g) (rw (if_pos (ℕ_discrete v t) p) at h))
  | no n ↦
      inr (In-append_right u ns (nodes g) (Waits-node g t u (rw (if_neg (ℕ_discrete v t) n) at h)))
]

pub waiter-node : (g : Graph) (t : ℕ) → In t (waiters g) → In t (nodes g)
unfolding nodes waiters
waiter-node [] t h = h
waiter-node ((v, ns) ∷ g) t (inl p) = inl p
waiter-node ((v, ns) ∷ g) t (inr h) = inr (In-append_right t ns (nodes g) (waiter-node g t h))

-- Finished transactions, the latest first: each waits for earlier ones only.
abbrev pub Finished : Graph → List ℕ → Type 0
Finished g [] = Unit
Finished g (t ∷ ts) = ((u : ℕ) → Waits g t u → In u ts) × Finished g ts

Waits-Finished :
    (g : Graph) (ts : List ℕ) (t u : ℕ) → Finished g ts → In t ts → Waits g t u → In u ts
Waits-Finished g [] t u f h w = absurd h
Waits-Finished g (s ∷ ts) t u f (inl p) w = inr (f.0 u (rw (← p) at w))
Waits-Finished g (s ∷ ts) t u f (inr h) w = inr (Waits-Finished g ts t u f.1 h w)

walk-Finished :
    (g : Graph) (ts us : List ℕ) (t u : ℕ)
    → Finished g ts
    → In t ts
    → Linked g (t ∷ (us ++ (u ∷ [])))
    → In u ts
walk-Finished g ts [] t u f h l = Waits-Finished g ts t u f h l.0
walk-Finished g ts (v ∷ us) t u f h l =
    walk-Finished g ts us v u f (Waits-Finished g ts t v f h l.0) l.1

-- No cycle starts at a finished transaction.
pub Finished-acyclic :
    (g : Graph) (ts us : List ℕ) (t : ℕ) → Finished g ts → In t ts → ¬ IsCycle g (t ∷ us)
Finished-acyclic g [] us t f h c = h
Finished-acyclic g (s ∷ ts) us t f (inr h) c = Finished-acyclic g ts us t f.1 h c
Finished-acyclic g (s ∷ ts) [] t f (inl p) c =
    Finished-acyclic g ts [] t f.1 (f.0 t (subst (λ x. Waits g x t) (sym p) c.0)) c
Finished-acyclic g (s ∷ ts) (u ∷ us) t f (inl p) c =
    let h : In u ts = f.0 u (subst (λ x. Waits g x u) (sym p) c.0) in
    Finished-acyclic g ts (u ∷ us) t f.1 (walk-Finished g ts us u t f.1 h c.1) c
