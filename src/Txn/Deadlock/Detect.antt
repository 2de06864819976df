-- ===== src/Txn/Deadlock/Detect.antt =====
-- `detect_cycle` (src/txn/conflict.rs) finds a cycle exactly where the wait-for graph has one.
use mathlib.Core.Path.{subst}
use nanostore.Prelude.{
  ℕ, suc, ◌≡◌, ◌≤◌, refl, ◌∙◌, true, List, [], ◌∷◌, inl, inr, length, Bool-cases, arith,
}
use nanostore.Prelude.Members.{member, In, In-of_member}
use nanostore.Txn.Deadlock.{
  Graph, Frame, Search, found, finished, panic, stuck, nodes, waiters, start, dfs_detect_cycle,
  detect_from, detect_cycle,
}
use nanostore.Txn.Deadlock.Walk.{IsCycle, Finished-acyclic, Waits-waiter, waiter-node}
use nanostore.Txn.Deadlock.Dfs.{Within, Inv, Returns, Good, unseen, unseen-length, unseen_mono}
use nanostore.Txn.Deadlock.Dfs.Parts.{Good-cons, visited-grows}
use nanostore.Txn.Deadlock.Dfs.Step.{dfs_detect_cycle-Good}

-- Between two searches the path is empty: the visited transactions are those left.
visited_left :
    (g : Graph) (s : Frame) (left : List ℕ) (t : ℕ)
    → Inv g s left
    → s.path ≡ []
    → member t s.visited ≡ true
    → Returns g s left (t ∷ []) s
visited_left g s left t i e p = record {
  now_left = left;
  same_path = refl;
  inv = i;
  grows = λ u m. m;
  reached = reached;
}
  where
    t_left : In t left
    t_left = elim (i.known t (In-of_member t s.visited p)) [
      | inl a ↦ absurd (subst (In t) e a)
      | inr b ↦ b
    ]

    reached : (u : ℕ) → In u (t ∷ []) → In u left
    reached u (inl q) = subst (λ x. In x left) q t_left
    reached u (inr m) = absurd m

detect_from-Good :
    (g : Graph) (fuel : ℕ) (ts : List ℕ) (s : Frame) (left : List ℕ)
    → Within ts (nodes g)
    → Inv g s left
    → s.path ≡ []
    → unseen (nodes g) s.visited ≤ fuel
    → Good g s left ts (detect_from g fuel ts s)
unfolding detect_from
detect_from-Good g fuel [] s left w i e u = record {
  now_left = left;
  same_path = refl;
  inv = i;
  grows = λ v h. h;
  reached = λ v h. absurd h;
}
detect_from-Good g fuel (t ∷ ts) s left w i e u =
    let again : (s' : Frame) (k : Returns g s left (t ∷ []) s')
        → Good g s' k.now_left ts (detect_from g fuel ts s') =
      λ s' k.
        detect_from-Good g fuel ts s' k.now_left (λ m h. w m (inr h)) k.inv (k.same_path ∙ e)
          (ground (
            arith,
            u,
            unseen_mono (nodes g) s.visited s'.visited (visited-grows g s s' left (t ∷ []) i k),
          )) in
    elim (Bool-cases (member t s.visited)) [
      | inl p ↦
          let k = visited_left g s left t i e p in
          rw p (Good-cons g s s left ts t k (detect_from g fuel ts s) (again s k))
      | inr p ↦ rw p (
          next again (dfs_detect_cycle g fuel t s) (
            dfs_detect_cycle-Good g fuel t s left
              (record { inv = i; linked = rw e tt; fresh = p; node = w t (inl refl); enough = u })))
    ]
  where
    next :
        ((s' : Frame) (k : Returns g s left (t ∷ []) s')
          → Good g s' k.now_left ts (detect_from g fuel ts s'))
        → (r : Search) → Good g s left (t ∷ []) r
        → Good g s left (t ∷ ts) (elim r [
          | found c ↦ found c
          | finished s' ↦ detect_from g fuel ts s'
          | panic ↦ panic
          | stuck ↦ stuck
        ])
    next again (found c) h = h
    next again panic h = h
    next again stuck h = h
    next again (finished s') k =
        Good-cons g s s' left ts t k (detect_from g fuel ts s') (again s' k)

detect_cycle-Good : (g : Graph) → Good g start [] (waiters g) (detect_cycle g)
unfolding detect_cycle
detect_cycle-Good g =
    detect_from-Good g (suc (length (nodes g))) (waiters g) start [] (waiter-node g)
      (record {
        known = λ t h. absurd h;
        path_visited = λ t h. h;
        left_visited = λ t h. h;
        stack_path = λ t h. h;
        path_stack = λ t h. h;
        acyclic = tt;
      })
      refl (ground (arith, unseen-length (nodes g) []))

-- A search with no cycle to find has left every transaction that waits.
Returns-acyclic :
    (g : Graph) (s : Frame) (us : List ℕ) → Returns g start [] (waiters g) s → ¬ IsCycle g us
Returns-acyclic g s [] k c = c
Returns-acyclic g s (t ∷ us) k c =
    Finished-acyclic g k.now_left us t k.inv.acyclic (k.reached t (starts us c)) c
  where
    starts : (us : List ℕ) → IsCycle g (t ∷ us) → In t (waiters g)
    starts [] c = Waits-waiter g t t c.0
    starts (u ∷ us) c = Waits-waiter g t u c.0

-- What `detect_cycle` says is so: the list it returns is a cycle of waits, and where it returns none
-- no list of transactions is one.
abbrev pub IsRight : Graph → Search → Type 0
IsRight g (found c) = IsCycle g c
IsRight g (finished s) = (us : List ℕ) → ¬ IsCycle g us
IsRight g panic = ⊥
IsRight g stuck = ⊥

-- On every wait-for graph `detect_cycle` ends without a panic and within the fuel: it returns a
-- cycle of transactions that each wait for the next, and returns none only where there is no
-- such cycle.
pub detect_cycle_lem : (g : Graph) → IsRight g (detect_cycle g)
detect_cycle_lem g = right (detect_cycle g) (detect_cycle-Good g)
  where
    right : (r : Search) → Good g start [] (waiters g) r → IsRight g r
    right (found c) h = h
    right panic h = h
    right stuck h = h
    right (finished s) k = λ us. Returns-acyclic g s us k
