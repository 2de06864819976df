-- ===== src/Txn/Deadlock/Dfs/Parts.antt =====
-- What entering a transaction, skipping a neighbor and cutting a cycle out of the path keep of the
-- search in src/txn/conflict.rs.
use mathlib.Core.List.{append_assoc}
use mathlib.Core.Path.{subst}
use nanostore.Prelude.{
  ℕ, ◌≡◌, refl, ap, sym, ◌∙◌, true, false, List, [], ◌∷◌, ◌++◌, ◌⊎◌, inl, inr, drop, arith,
}
use nanostore.Prelude.Members.{
  member, In, In-of_member, member_of_In, In-append, In-append_left, In-append_right,
}
use nanostore.Txn.Deadlock.{Graph, Frame, Search, found, finished, panic, stuck, enter, cut_cycle}
use nanostore.Txn.Deadlock.Walk.{Waits, Linked, Linked-suffix, Linked-snoc, IsCycle, split}
use nanostore.Txn.Deadlock.Dfs.{Within, Inv, Returns, Good}

pub enter-Inv :
    (g : Graph) (s : Frame) (left : List ℕ) (t : ℕ) → Inv g s left → Inv g (enter t s) left
unfolding enter
enter-Inv g s left t i = record {
  known = known;
  path_visited = λ u h. elim (In-append u s.path (t ∷ []) h) [
    | inl a ↦ inr (i.path_visited u a)
    | inr (inl p) ↦ inl p
    | inr (inr b) ↦ absurd b
  ];
  left_visited = λ u h. inr (i.left_visited u h);
  stack_path = stack_path;
  path_stack = λ u h. elim (In-append u s.path (t ∷ []) h) [
    | inl a ↦ inr (i.path_stack u a)
    | inr (inl p) ↦ inl p
    | inr (inr b) ↦ absurd b
  ];
  acyclic = i.acyclic;
}
  where
    known : (u : ℕ) → In u (t ∷ s.visited) → In u (s.path ++ (t ∷ [])) ⊎ In u left
    known u (inl p) = inl (In-append_right u s.path (t ∷ []) (inl p))
    known u (inr h) = elim (i.known u h) [
      | inl a ↦ inl (In-append_left u s.path (t ∷ []) a)
      | inr b ↦ inr b
    ]

    stack_path : (u : ℕ) → In u (t ∷ s.rec_stack) → In u (s.path ++ (t ∷ []))
    stack_path u (inl p) = In-append_right u s.path (t ∷ []) (inl p)
    stack_path u (inr h) = In-append_left u s.path (t ∷ []) (i.stack_path u h)

-- The slice of the path from a back edge on is a cycle.
pub cut_cycle-IsCycle :
    (g : Graph) (before path : List ℕ) (t n : ℕ)
    → path ≡ before ++ (t ∷ [])
    → Linked g path
    → Waits g t n
    → In n path
    → (c : List ℕ) × ((cut_cycle n path ≡ found c) × IsCycle g c)
unfolding cut_cycle
cut_cycle-IsCycle g before path t n e l w h =
    let k = split n path h in
    let long : Linked g (path ++ (n ∷ [])) =
      subst (λ x. Linked g (x ++ (n ∷ []))) (sym e)
        (Linked-snoc g before t n (subst (Linked g) e l) w) in
    let short : Linked g ((n ∷ k.rest) ++ (n ∷ [])) =
      Linked-suffix g k.before ((n ∷ k.rest) ++ (n ∷ [])) (
        subst (Linked g)
          (ap (λ x. x ++ (n ∷ [])) k.whole ∙ append_assoc k.before (n ∷ k.rest) (n ∷ [])) long) in
    (drop k.index path, (ground (arith, k.at), subst (IsCycle g) (sym k.from) short))

-- A cycle stays one when the search returns it, and a search that goes on reaches more.
pub Good-cons :
    (g : Graph) (s s' : Frame) (left ns : List ℕ) (n : ℕ) (k : Returns g s left (n ∷ []) s')
    (r : Search)
    → Good g s' (k.now_left) ns r
    → Good g s left (n ∷ ns) r
Good-cons g s s' left ns n k (found c) h = h
Good-cons g s s' left ns n k panic h = h
Good-cons g s s' left ns n k stuck h = h
Good-cons g s s' left ns n k (finished s'') h = record {
  now_left = h.now_left;
  same_path = h.same_path ∙ k.same_path;
  inv = h.inv;
  grows = λ t m. h.grows t (k.grows t m);
  reached = reached;
}
  where
    reached : (t : ℕ) → In t (n ∷ ns) → In t h.now_left
    reached t (inl p) = h.grows t (k.reached t (inl p))
    reached t (inr m) = h.reached t m

-- A neighbor that the search skips was left before.
pub skipped-Returns :
    (g : Graph) (s : Frame) (left : List ℕ) (n : ℕ)
    → Inv g s left
    → member n s.visited ≡ true
    → member n s.rec_stack ≡ false
    → Returns g s left (n ∷ []) s
skipped-Returns g s left n i p q = record {
  now_left = left;
  same_path = refl;
  inv = i;
  grows = λ t m. m;
  reached = reached;
}
  where
    n_left : In n left
    n_left = elim (i.known n (In-of_member n s.visited p)) [
      | inl a ↦ absurd (ground (arith, member_of_In n s.rec_stack (i.path_stack n a)))
      | inr b ↦ b
    ]

    reached : (t : ℕ) → In t (n ∷ []) → In t left
    reached t (inl e) = subst (λ x. In x left) e n_left
    reached t (inr m) = absurd m

-- What a search has visited stays visited.
pub visited-grows :
    (g : Graph) (s s' : Frame) (left ts : List ℕ)
    → Inv g s left
    → Returns g s left ts s'
    → Within s.visited s'.visited
visited-grows g s s' left ts i k t h = elim (i.known t h) [
  | inl a ↦ k.inv.path_visited t (subst (In t) (sym k.same_path) a)
  | inr b ↦ k.inv.left_visited t (k.grows t b)
]
