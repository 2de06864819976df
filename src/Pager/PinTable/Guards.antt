-- ===== src/Pager/PinTable/Guards.antt =====
-- The pin table of src/pager/pin_table.rs counts the guards that are alive.
use nanostore.Prelude.{
  ℕ, suc, ◌+◌, ◌-◌, ◌≡◌, refl, List, [], ◌∷◌, ltb, ◌==◌, if◌then◌else◌, ℕ_discrete, arith,
  Option-cases, inl, inr,
}
use nanostore.Prelude.Maps.{get, get-insert, get-remove}
use nanostore.Pager.PinTable.{PinTable, new, ref_count, is_pinned, guard, drop_guard, or_zero}

-- What threads do with guards.
pub data Event : Type 0 where
  take_guard leave_guard : (page_id : ℕ) → Event

unfoldable pub after_all : PinTable → List Event → PinTable
unfolding guard drop_guard
after_all t [] = t
after_all t (take_guard p ∷ es) = after_all (guard t p) es
after_all t (leave_guard p ∷ es) = after_all (drop_guard t p) es

-- The guards that are alive, by their pages.
unfoldable pub remove_one : ℕ → List ℕ → List ℕ
remove_one p [] = []
remove_one p (q ∷ qs) = if q == p then qs else q ∷ remove_one p qs

unfoldable pub alive : List ℕ → List Event → List ℕ
unfolding remove_one
alive ps [] = ps
alive ps (take_guard p ∷ es) = alive (p ∷ ps) es
alive ps (leave_guard p ∷ es) = alive (remove_one p ps) es

unfoldable pub count : ℕ → List ℕ → ℕ
count p [] = 0
count p (q ∷ qs) = if q == p then suc (count p qs) else count p qs

ref_count-guard :
    (t : PinTable) (p q : ℕ)
    → ref_count (guard t p) q ≡ (if p == q then suc (ref_count t q) else ref_count t q)
unfolding ref_count guard
ref_count-guard t p q =
    ground (arith, get-insert ℕ_discrete q p (or_zero (get ℕ_discrete p t.pins) + 1) t.pins)

ref_count-drop_guard :
    (t : PinTable) (p q : ℕ)
    → ref_count (drop_guard t p) q ≡ (if p == q then ref_count t q - 1 else ref_count t q)
unfolding ref_count drop_guard
ref_count-drop_guard t p q = elim (Option-cases (get ℕ_discrete p t.pins)) [
  | inl e ↦ ground arith
  | inr (c, e) ↦
      ground (arith, get-remove ℕ_discrete q p t.pins, get-insert ℕ_discrete q p (c - 1) t.pins)
]

count-remove_one :
    (p q : ℕ) (ps : List ℕ)
    → count q (remove_one p ps) ≡ (if p == q then count q ps - 1 else count q ps)
unfolding count remove_one
count-remove_one p q [] = ground arith
count-remove_one p q (r ∷ ps) = ground (arith, count-remove_one p q ps)

after_all-alive :
    (es : List Event) (t : PinTable) (ps : List ℕ) (q : ℕ)
    → ((p : ℕ) → ref_count t p ≡ count p ps)
    → ref_count (after_all t es) q ≡ count q (alive ps es)
unfolding after_all alive count
after_all-alive [] t ps q h = h q
after_all-alive (take_guard p ∷ es) t ps q h =
    after_all-alive es (guard t p) (p ∷ ps) q (λ r. ground (arith, ref_count-guard t p r, h r))
after_all-alive (leave_guard p ∷ es) t ps q h =
    after_all-alive es (drop_guard t p) (remove_one p ps) q
      (λ r. ground (arith, ref_count-drop_guard t p r, count-remove_one p r ps, h r))

new-count : (p : ℕ) → ref_count new p ≡ count p []
unfolding ref_count get count
new-count p = refl

-- Whatever guards threads take and leave, in any interleaving, the count of a page is the number of
-- its guards that are alive, and the page is pinned exactly when it has one.
pub guards_lem :
    (es : List Event) (p : ℕ)
    → let t = after_all new es in
      (ref_count t p ≡ count p (alive [] es)) × (is_pinned t p ≡ ltb 0 (count p (alive [] es)))
unfolding is_pinned ref_count
guards_lem es p = let h = after_all-alive es new [] p new-count in (h, ground (arith, h))
