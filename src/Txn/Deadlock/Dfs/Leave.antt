-- ===== src/Txn/Deadlock/Dfs/Leave.antt =====
-- The backtrack of `dfs_detect_cycle` (src/txn/conflict.rs).
use mathlib.Core.Path.{subst}
use nanostore.Prelude.{ℕ, ◌≡◌, ◌≢◌, ap, sym, ◌∙◌, List, [], ◌∷◌, ◌⊎◌, inl, inr, ℕ_discrete, arith}
use nanostore.Prelude.Members.{In, member_of_In, In-append, In-append_left, In-append_right}
use nanostore.Txn.Deadlock.{Graph, Frame, neighbors, enter, leave, pop, remove_from}
use nanostore.Txn.Deadlock.Walk.{pop-snoc}
use nanostore.Txn.Deadlock.Dfs.{Returns, Ready}

In-remove_from : (u t : ℕ) (us : List ℕ) → In u (remove_from t us) → In u us × (u ≢ t)
unfolding remove_from
In-remove_from u t [] h = absurd h
In-remove_from u t (v ∷ us) h =
    let again = In-remove_from u t us in
    elim (ℕ_discrete v t) [
      | yes p ↦ let k = again (ground arith) in (inr k.0, k.1)
      | no n ↦ keep again n (ground arith)
    ]
  where
    keep :
        (In u (remove_from t us) → In u us × (u ≢ t))
        → v ≢ t
        → In u (v ∷ remove_from t us)
        → In u (v ∷ us) × (u ≢ t)
    keep again n (inl p) = (inl p, λ e. n (p ∙ e))
    keep again n (inr m) = let k = again m in (inr k.0, k.1)

remove_from-In : (u t : ℕ) (us : List ℕ) → In u us → u ≢ t → In u (remove_from t us)
unfolding remove_from
remove_from-In u t [] h n = absurd h
remove_from-In u t (v ∷ us) (inl p) n = ground (arith, p)
remove_from-In u t (v ∷ us) (inr h) n =
    let k = remove_from-In u t us h n in
    elim (ℕ_discrete v t) [ yes p ↦ ground (arith, k) | no m ↦ ground (arith, k) ]

-- The backtrack: `t` is left, and what it waits for was.
pub leave-Returns :
    (g : Graph) (fuel t : ℕ) (s s' : Frame) (left : List ℕ)
    → Ready g fuel t s left
    → Returns g (enter t s) left (neighbors g t) s'
    → Returns g s left (t ∷ []) (leave t s')
unfolding leave enter
leave-Returns g fuel t s s' left r k = record {
  now_left = t ∷ k.now_left;
  same_path = path_back;
  inv = record {
    known = known;
    path_visited = λ u h. k.inv.path_visited u (on_path u (subst (In u) path_back h));
    left_visited = left_visited;
    stack_path = stack_path;
    path_stack = path_stack;
    acyclic = (k.reached, k.inv.acyclic);
  };
  grows = λ u h. inr (k.grows u h);
  reached = λ u h. elim h [ inl p ↦ inl p | inr m ↦ absurd m ];
}
  where
    path_back : pop s'.path ≡ s.path
    path_back = ap pop k.same_path ∙ pop-snoc s.path t

    on_path : (u : ℕ) → In u s.path → In u s'.path
    on_path u h = subst (In u) (sym k.same_path) (In-append_left u s.path (t ∷ []) h)

    of_path : (u : ℕ) → In u s'.path → In u s.path ⊎ (u ≡ t)
    of_path u h = elim (In-append u s.path (t ∷ []) (subst (In u) k.same_path h)) [
      | inl a ↦ inl a
      | inr (inl p) ↦ inr (sym p)
      | inr (inr b) ↦ absurd b
    ]

    known : (u : ℕ) → In u s'.visited → In u (pop s'.path) ⊎ In u (t ∷ k.now_left)
    known u h = elim (k.inv.known u h) [
      | inl a ↦ elim (of_path u a) [
        | inl b ↦ inl (subst (In u) (sym path_back) b)
        | inr p ↦ inr (inl (sym p))
      ]
      | inr b ↦ inr (inr b)
    ]

    left_visited : (u : ℕ) → In u (t ∷ k.now_left) → In u s'.visited
    left_visited u (inl p) =
        k.inv.path_visited u
          (subst (In u) (sym k.same_path) (In-append_right u s.path (t ∷ []) (inl p)))
    left_visited u (inr h) = k.inv.left_visited u h

    stack_path : (u : ℕ) → In u (remove_from t s'.rec_stack) → In u (pop s'.path)
    stack_path u h =
        let m = In-remove_from u t s'.rec_stack h in
        elim (of_path u (k.inv.stack_path u m.0)) [
          | inl a ↦ subst (In u) (sym path_back) a
          | inr p ↦ absurd (m.1 p)
        ]

    t_off : (u : ℕ) → In u s.path → u ≢ t
    t_off u h p = absurd (
        ground (
          arith,
          r.fresh,
          member_of_In t s.visited (subst (λ x. In x s.visited) p (r.inv.path_visited u h)),
        ))

    path_stack : (u : ℕ) → In u (pop s'.path) → In u (remove_from t s'.rec_stack)
    path_stack u h =
        let m = subst (In u) path_back h in
        remove_from-In u t s'.rec_stack (k.inv.path_stack u (on_path u m)) (t_off u m)
