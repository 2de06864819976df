-- ===== src/Txn/Deadlock/Dfs/Step.antt =====
-- `dfs_detect_cycle` (src/txn/conflict.rs) keeps its invariant, and finds cycles only.
use mathlib.Core.Path.{subst}
use nanostore.Prelude.{
  ℕ, zero, suc, ◌≡◌, ◌≤◌, refl, sym, ◌∙◌, false, List, [], ◌∷◌, ◌++◌, inl, inr, Bool-cases, arith,
}
use nanostore.Prelude.Members.{member, In, In-of_member}
use nanostore.Txn.Deadlock.{
  Graph, Frame, Search, found, finished, panic, stuck, nodes, neighbors, enter, leave, visit_all,
  dfs_detect_cycle,
}
use nanostore.Txn.Deadlock.Walk.{Waits, Linked, Linked-snoc, Waits-node}
use nanostore.Txn.Deadlock.Dfs.{Inv, Returns, Good, unseen, unseen_mono, unseen_visit, Ready}
use nanostore.Txn.Deadlock.Dfs.Parts.{
  enter-Inv, cut_cycle-IsCycle, Good-cons, skipped-Returns, visited-grows,
}
use nanostore.Txn.Deadlock.Dfs.Leave.{leave-Returns}

-- The loop over the neighbors of the last transaction of the path.
visit_all-Good :
    (g : Graph) (fuel t : ℕ) (before ns : List ℕ) (visit : ℕ → Frame → Search)
    → ((n : ℕ) (s : Frame) (left : List ℕ)
        → Ready g fuel n s left
        → Good g s left (n ∷ []) (visit n s))
    → ((n : ℕ) → In n ns → Waits g t n)
    → (s : Frame) (left : List ℕ) → Inv g s left
    → s.path ≡ before ++ (t ∷ [])
    → Linked g s.path
    → unseen (nodes g) s.visited ≤ fuel
    → Good g s left ns (visit_all visit ns s)
unfolding visit_all
visit_all-Good g fuel t before [] visit good waits s left i e l u = record {
  now_left = left;
  same_path = refl;
  inv = i;
  grows = λ v h. h;
  reached = λ v h. absurd h;
}
visit_all-Good g fuel t before (n ∷ ns) visit good waits s left i e l u =
    let again : (s' : Frame) (k : Returns g s left (n ∷ []) s')
        → Good g s' k.now_left ns (visit_all visit ns s') =
      λ s' k.
        visit_all-Good g fuel t before ns visit good (λ m h. waits m (inr h)) s' k.now_left k.inv
          (k.same_path ∙ e) (subst (Linked g) (sym k.same_path) l)
          (ground (
            arith,
            u,
            unseen_mono (nodes g) s.visited s'.visited (visited-grows g s s' left (n ∷ []) i k),
          )) in
    elim (Bool-cases (member n s.visited)) [
      | inl p ↦ rw p (elim (Bool-cases (member n s.rec_stack)) [
        | inl q ↦
            let c =
              cut_cycle-IsCycle g before s.path t n e l (waits n (inl refl))
                (i.stack_path n (In-of_member n s.rec_stack q)) in
            rw (q, c.1.0) c.1.1
        | inr q ↦
            let k = skipped-Returns g s left n i p q in
            rw q (Good-cons g s s left ns n k (visit_all visit ns s) (again s k))
      ])
      | inr p ↦ rw p (next again (visit n s) (good n s left (ready p)))
    ]
  where
    ready : member n s.visited ≡ false → Ready g fuel n s left
    ready p = record {
      inv = i;
      linked =
          subst (λ x. Linked g (x ++ (n ∷ []))) (sym e)
            (Linked-snoc g before t n (subst (Linked g) e l) (waits n (inl refl)));
      fresh = p;
      node = Waits-node g t n (waits n (inl refl));
      enough = u;
    }

    next :
        ((s' : Frame) (k : Returns g s left (n ∷ []) s')
          → Good g s' k.now_left ns (visit_all visit ns s'))
        → (r : Search) → Good g s left (n ∷ []) r
        → Good g s left (n ∷ ns) (elim r [
          | found c ↦ found c
          | finished s' ↦ visit_all visit ns s'
          | panic ↦ panic
          | stuck ↦ stuck
        ])
    next again (found c) h = h
    next again panic h = h
    next again stuck h = h
    next again (finished s') k = Good-cons g s s' left ns n k (visit_all visit ns s') (again s' k)

pub dfs_detect_cycle-Good :
    (g : Graph) (fuel t : ℕ) (s : Frame) (left : List ℕ)
    → Ready g fuel t s left
    → Good g s left (t ∷ []) (dfs_detect_cycle g fuel t s)
unfolding dfs_detect_cycle enter
dfs_detect_cycle-Good g zero t s left r =
    absurd (ground (arith, r.enough, unseen_visit (nodes g) s.visited t r.node r.fresh))
dfs_detect_cycle-Good g (suc fuel) t s left r =
    next (visit_all (dfs_detect_cycle g fuel) (neighbors g t) (enter t s)) (
      visit_all-Good g fuel t s.path (neighbors g t) (dfs_detect_cycle g fuel)
        (dfs_detect_cycle-Good g fuel) (λ n h. h) (enter t s) left (enter-Inv g s left t r.inv) refl
        r.linked (ground (arith, r.enough, unseen_visit (nodes g) s.visited t r.node r.fresh)))
  where
    next :
        (o : Search)
        → Good g (enter t s) left (neighbors g t) o
        → Good g s left (t ∷ []) (elim o [
          | found c ↦ found c
          | finished s' ↦ finished (leave t s')
          | panic ↦ panic
          | stuck ↦ stuck
        ])
    next (found c) h = h
    next panic h = h
    next stuck h = h
    next (finished s') k = leave-Returns g (suc fuel) t s s' left r k
