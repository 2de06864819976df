-- ===== src/Tests/Pages.antt =====
-- Guards (src/pager/pin_table.rs) and free pages (src/pager/freelist.rs).
use nanostore.Prelude.{
  ℕ, ◌≡◌, ◌≤◌, refl, Option, none, some, List, [], ◌∷◌, ◌++◌, arith, ltb, length, ℕ_discrete,
  replicate,
}
use nanostore.Prelude.Maps.{get, insert, remove}
use nanostore.Pager.PinTable
use nanostore.Pager.PinTable.{ref_count, is_pinned}
use nanostore.Pager.PinTable.Guards.{
  Event, take_guard, leave_guard, after_all, alive, count, guards_lem,
}
use nanostore.Pager.FreeList.{
  FreeListPage, ok, add_page, pop_entry, to_bytes, from_bytes, SegQueue, IsFifo, new,
}
use nanostore.Pager.FreeList.Page.{from_bytes-to_bytes_page, add_page_lem}
use nanostore.Pager.FreeList.Queue.{
  Call, push, pop, replace, snapshot, given_all, Fits, call_all, call_all-new, held_after,
}

-- Two threads share page 5, and one of them has left it.
abbrev shared : List Event
shared = take_guard 5 ∷ take_guard 6 ∷ take_guard 5 ∷ leave_guard 5 ∷ leave_guard 6 ∷ []

guards_lem_example :
    (ref_count (after_all PinTable.new shared) 5 ≡ count 5 (alive [] shared))
    × (is_pinned (after_all PinTable.new shared) 5 ≡ ltb 0 (count 5 (alive [] shared)))
guards_lem_example = guards_lem shared 5

shared_once : ref_count (after_all PinTable.new shared) 5 ≡ 1
unfolding ref_count after_all get insert remove ℕ_discrete
shared_once = refl

abbrev two_pages : FreeListPage
two_pages = record { next_page = 9; free_pages = 300 ∷ 70000 ∷ [] }

from_bytes-to_bytes_page_example : from_bytes (to_bytes two_pages ++ replicate 8 0) ≡ ok two_pages
from_bytes-to_bytes_page_example =
    from_bytes-to_bytes_page two_pages (replicate 8 0) (ground arith)
      (ground arith, (ground arith, tt)) (ground arith)

abbrev three_pages : FreeListPage
three_pages = record { next_page = 9; free_pages = 300 ∷ 70000 ∷ 12 ∷ [] }

added : add_page two_pages 12 40 ≡ ok three_pages
unfolding add_page
added = refl

add_page_lem_example :
    (length (to_bytes three_pages) ≤ 40) × (pop_entry three_pages ≡ (some 12, two_pages))
add_page_lem_example = add_page_lem two_pages three_pages 12 40 (ground arith) added

-- A queue as a list, with the oldest page first.
abbrev list_pop : List ℕ → Option ℕ × List ℕ
list_pop [] = (none, [])
list_pop (p ∷ ps) = (some p, ps)

abbrev list_queue : SegQueue (List ℕ)
list_queue = record { empty = []; push = λ q p. q ++ (p ∷ []); pop = list_pop; contents = λ q. q }

pop-some :
    (q : List ℕ) (p : ℕ) (ps : List ℕ)
    → q ≡ p ∷ ps
    → ((list_pop q).0 ≡ some p) × ((list_pop q).1 ≡ ps)
pop-some q p ps h = rw h (refl, refl)

pop-none : (q : List ℕ) → q ≡ [] → list_pop q ≡ (none, q)
pop-none [] h = refl
pop-none (p ∷ q) h = absurd (ground arith)

list_queue-IsFifo : IsFifo list_queue
list_queue-IsFifo = record {
  contents-empty = refl;
  contents-push = λ q p. refl;
  pop-none = pop-none;
  pop-some = pop-some;
}

abbrev free_calls : List Call
free_calls = push 5 ∷ push 3 ∷ pop ∷ replace (8 ∷ 2 ∷ []) ∷ snapshot ∷ pop ∷ []

free_calls-Fits : Fits [] free_calls
unfolding held_after
free_calls-Fits = (
  ground arith,
  (ground arith, (ground arith, (ground arith, (ground arith, (ground arith, tt))))),
)

call_all-new_example : call_all list_queue (new list_queue) free_calls ≡ given_all [] free_calls
call_all-new_example = call_all-new list_queue list_queue-IsFifo free_calls free_calls-Fits

-- After a listing the page that was last in the queue is popped first.
listed : given_all [] free_calls ≡ [] ∷ [] ∷ (5 ∷ []) ∷ [] ∷ (2 ∷ 8 ∷ []) ∷ (8 ∷ []) ∷ []
unfolding given_all
listed = refl
