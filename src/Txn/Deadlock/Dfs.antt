-- ===== src/Txn/Deadlock/Dfs.antt =====
-- The invariant of the depth-first search of `dfs_detect_cycle` (src/txn/conflict.rs).
pub mod Parts
pub mod Leave
pub mod Step
use mathlib.Core.Path.{subst}
use nanostore.Prelude.{
  ℕ, zero, suc, ◌≡◌, ◌≤◌, ◌<◌, ◌+◌, refl, ap, sym, ◌∙◌, Bool, true, false, not, Option, none, some,
  List, [], ◌∷◌, ◌++◌, ◌==◌, ◌⊎◌, inl, inr, if◌then◌else◌, ℕ_discrete, length, Bool-cases, arith,
}
use nanostore.Prelude.Members.{
  member, In, In-of_member, member_of_In, In-append, In-append_left, In-append_right,
}
use nanostore.Txn.Deadlock.{Graph, Frame, Search, nodes}
use nanostore.Txn.Deadlock.Walk.{Waits, Linked, IsCycle, Finished}

-- Every element of the one is an element of the other.
abbrev pub Within : List ℕ → List ℕ → Type 0
Within us vs = (t : ℕ) → In t us → In t vs

-- How the sets of the search relate to the path and to the transactions it has left.
pub record Inv (g : Graph) (s : Frame) (left : List ℕ) : Type 0 where
  pub known : (t : ℕ) → In t s.visited → In t s.path ⊎ In t left
  pub path_visited : Within s.path s.visited
  pub left_visited : Within left s.visited
  pub stack_path : Within s.rec_stack s.path
  pub path_stack : Within s.path s.rec_stack
  pub acyclic : Finished g left

-- A search that goes on has the same path, and has left at least the transactions `ts`.
pub record Returns (g : Graph) (s : Frame) (left ts : List ℕ) (s' : Frame) : Type 0 where
  pub now_left : List ℕ
  pub same_path : s'.path ≡ s.path
  pub inv : Inv g s' now_left
  pub grows : Within left now_left
  pub reached : Within ts now_left

-- What a search promises: a cycle where it finds one, and no panic.
abbrev pub Good : Graph → Frame → (left ts : List ℕ) → Search → Type 0
Good g s left ts (Search.found c) = IsCycle g c
Good g s left ts (Search.finished s') = Returns g s left ts s'
Good g s left ts Search.panic = ⊥
Good g s left ts Search.stuck = ⊥

-- How many of the transactions are not visited: the bound on the depth of the search.
pub unseen : List ℕ → List ℕ → ℕ
unseen [] visited = 0
unseen (t ∷ ts) visited = if member t visited then unseen ts visited else suc (unseen ts visited)

pub unseen_mono : (ts us vs : List ℕ) → Within us vs → unseen ts vs ≤ unseen ts us
unfolding unseen
unseen_mono [] us vs h = ground arith
unseen_mono (t ∷ ts) us vs h = elim (Bool-cases (member t us)) [
  | inl e ↦ ground (arith, unseen_mono ts us vs h, member_of_In t vs (h t (In-of_member t us e)))
  | inr e ↦ elim (Bool-cases (member t vs)) [
    | inl e' ↦ ground (arith, unseen_mono ts us vs h)
    | inr e' ↦ ground (arith, unseen_mono ts us vs h)
  ]
]

pub unseen_visit :
    (ts us : List ℕ) (t : ℕ) → In t ts → member t us ≡ false → unseen ts (t ∷ us) < unseen ts us
unfolding unseen
unseen_visit [] us t h e = absurd h
unseen_visit (u ∷ ts) us t (inl p) e = ground (arith, unseen_mono ts us (t ∷ us) (λ v h. inr h))
unseen_visit (u ∷ ts) us t (inr h) e = ground (arith, unseen_visit ts us t h e)

pub unseen-length : (ts us : List ℕ) → unseen ts us ≤ length ts
unfolding unseen
unseen-length [] us = ground arith
unseen-length (t ∷ ts) us = ground (arith, unseen-length ts us)

-- What a search at `t` starts from: `t` is not visited, and extends the path.
pub record Ready (g : Graph) (fuel t : ℕ) (s : Frame) (left : List ℕ) : Type 0 where
  pub inv : Inv g s left
  pub linked : Linked g (s.path ++ (t ∷ []))
  pub fresh : member t s.visited ≡ false
  pub node : In t (nodes g)
  pub enough : unseen (nodes g) s.visited ≤ fuel
