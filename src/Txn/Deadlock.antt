-- ===== src/Txn/Deadlock.antt =====
-- `DeadlockDetector` of src/txn/conflict.rs: the wait-for graph and its depth-first search.
pub mod Walk
pub mod Dfs
pub mod Detect
use nanostore.Prelude.{
  ℕ, zero, suc, ◌≡◌, Bool, true, false, not, Option, none, some, List, [], ◌∷◌, ◌++◌, ◌==◌,
  if◌then◌else◌, ℕ_discrete, length, drop,
}
use nanostore.Prelude.Maps.{get, insert, remove}
use nanostore.Prelude.Members.{member}

-- Each waiting transaction, with those that it waits for.
abbrev pub Graph : Type 0
Graph = List (ℕ × List ℕ)

abbrev pub new : Graph
new = []

abbrev pub or_default : Option (List ℕ) → List ℕ
or_default none = []
or_default (some l) = l

-- The neighbors that the search visits: none where the transaction has no entry.
abbrev pub neighbors : Graph → ℕ → List ℕ
neighbors g t = or_default (get ℕ_discrete t g)

unfoldable pub add_wait : Graph → (waiter holder : ℕ) → Graph
add_wait g waiter holder = insert ℕ_discrete waiter (neighbors g waiter ++ (holder ∷ [])) g

unfoldable pub remove_wait : Graph → (waiter : ℕ) → Graph
remove_wait g waiter = remove ℕ_discrete waiter g

-- The arguments that the search mutates; the two sets are lists of their elements.
pub record Frame : Type 0 where
  pub visited : List ℕ
  pub rec_stack : List ℕ
  pub path : List ℕ

-- A search returns a cycle, or none and its sets. It panics where `position` finds nothing, and is
-- `stuck` where the model's fuel runs out.
pub data Search : Type 0 where
  found : List ℕ → Search
  finished : Frame → Search
  panic stuck : Search

-- `rec_stack.remove(&current)`
unfoldable pub remove_from : ℕ → List ℕ → List ℕ
remove_from t [] = []
remove_from t (u ∷ us) = if u == t then remove_from t us else u ∷ remove_from t us

-- `path.pop()`
unfoldable pub pop : List ℕ → List ℕ
pop [] = []
pop (t ∷ []) = []
pop (t ∷ u ∷ ts) = t ∷ pop (u ∷ ts)

-- `path.iter().position(|&id| id == t)`
unfoldable pub position : ℕ → List ℕ → Option ℕ
position t [] = none
position t (u ∷ us) =
    if u == t then some 0 else elim (position t us) [ none ↦ none | some i ↦ some (suc i) ]

-- the cycle at the back edge to `t`
unfoldable pub cut_cycle : ℕ → List ℕ → Search
unfolding position
cut_cycle t path = elim (position t path) [ none ↦ panic | some i ↦ found (drop i path) ]

unfoldable pub enter : ℕ → Frame → Frame
enter t s = record {
  visited = t ∷ s.visited;
  rec_stack = t ∷ s.rec_stack;
  path = s.path ++ (t ∷ []);
}

unfoldable pub leave : ℕ → Frame → Frame
unfolding remove_from pop
leave t s = record s { rec_stack = remove_from t s.rec_stack; path = pop s.path }

-- the loop over the neighbors, with the recursive call as `visit`
unfoldable pub visit_all : (ℕ → Frame → Search) → List ℕ → Frame → Search
unfolding cut_cycle
visit_all visit [] s = finished s
visit_all visit (n ∷ ns) s =
    let skip = visit_all visit ns s in
    if not (member n s.visited)
    then elim (visit n s) [
      | found c ↦ found c
      | finished s' ↦ visit_all visit ns s'
      | panic ↦ panic
      | stuck ↦ stuck
    ]
    else if member n s.rec_stack
    then cut_cycle n s.path
    else skip

unfoldable pub dfs_detect_cycle : Graph → ℕ → ℕ → Frame → Search
unfolding visit_all enter leave
dfs_detect_cycle g zero t s = stuck
dfs_detect_cycle g (suc fuel) t s =
    elim (visit_all (dfs_detect_cycle g fuel) (neighbors g t) (enter t s)) [
      | found c ↦ found c
      | finished s' ↦ finished (leave t s')
      | panic ↦ panic
      | stuck ↦ stuck
    ]

-- the loop of `detect_cycle` over the keys of the graph, in any order
unfoldable pub detect_from : Graph → ℕ → List ℕ → Frame → Search
unfolding dfs_detect_cycle
detect_from g fuel [] s = finished s
detect_from g fuel (t ∷ ts) s =
    let skip = detect_from g fuel ts s in
    if not (member t s.visited)
    then elim (dfs_detect_cycle g fuel t s) [
      | found c ↦ found c
      | finished s' ↦ detect_from g fuel ts s'
      | panic ↦ panic
      | stuck ↦ stuck
    ]
    else skip

unfoldable pub waiters : Graph → List ℕ
waiters [] = []
waiters ((t, ns) ∷ g) = t ∷ waiters g

-- The transactions of the graph, those waited for too: more than the search can nest.
unfoldable pub nodes : Graph → List ℕ
nodes [] = []
nodes ((t, ns) ∷ g) = t ∷ (ns ++ nodes g)

abbrev pub start : Frame
start = record { visited = []; rec_stack = []; path = [] }

-- `detect_cycle`: `found` is `Some`, and `finished` is `None`.
unfoldable pub detect_cycle : Graph → Search
unfolding detect_from waiters nodes
detect_cycle g = detect_from g (suc (length (nodes g))) (waiters g) start
