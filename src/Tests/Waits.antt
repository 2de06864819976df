-- ===== src/Tests/Waits.antt =====
-- Wait-for graphs of the deadlock detector (src/txn/conflict.rs).
use nanostore.Prelude.{ℕ_discrete, ◌≡◌, refl, [], ◌∷◌}
use nanostore.Prelude.Maps.{get, insert}
use nanostore.Txn.Deadlock.{Graph, found, new, add_wait, detect_cycle}
use nanostore.Txn.Deadlock.Detect.{IsRight, detect_cycle_lem}

-- 1 waits for 2, 2 for 3 and 4, and 3 for 2.
abbrev knot : Graph
knot = add_wait (add_wait (add_wait (add_wait new 1 2) 2 4) 2 3) 3 2

detect_knot : detect_cycle knot ≡ found (2 ∷ 3 ∷ [])
unfolding detect_cycle add_wait get insert ℕ_discrete
detect_knot = refl

detect_cycle_lem_example : IsRight knot (detect_cycle knot)
detect_cycle_lem_example = detect_cycle_lem knot
