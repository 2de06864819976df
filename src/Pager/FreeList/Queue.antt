-- ===== src/Pager/FreeList/Queue.antt =====
-- The list of free pages in memory (src/pager/freelist.rs), over any first-in first-out queue.
use mathlib.Core.List.{append_assoc, append-nil}
use nanostore.Prelude.{
  ℕ, zero, suc, ◌^◌, ◌<◌, ◌≡◌, refl, ap, sym, ◌∙◌, none, some, List, [], ◌∷◌, ◌++◌, length, arith,
  length-append,
}
use nanostore.Pager.FreeList.{
  SegQueue, IsFifo, FreeList, new, push_page, pop_page, drain, push_all, enough, sort, insert_page,
  rev, set_free_pages, snapshot_free_pages,
}

length-insert_page : (p : ℕ) (ps : List ℕ) → length (insert_page p ps) ≡ suc (length ps)
unfolding insert_page
length-insert_page p [] = refl
length-insert_page p (q ∷ qs) = ground (arith, length-insert_page p qs)

length-sort : (ps : List ℕ) → length (sort ps) ≡ length ps
unfolding sort
length-sort [] = refl
length-sort (p ∷ ps) = ground (arith, length-insert_page p (sort ps), length-sort ps)

module _ {Q : Type 0} (queue : SegQueue Q) (fifo : IsFifo queue) where
  contents-push_all :
      (q : Q) (ps : List ℕ) → queue.contents (push_all queue q ps) ≡ queue.contents q ++ ps
  unfolding push_all
  contents-push_all q [] = sym (append-nil (queue.contents q))
  contents-push_all q (p ∷ ps) =
      contents-push_all (queue.push q p) ps
      ∙ ap (λ c. c ++ ps) (fifo.contents-push q p)
      ∙ append_assoc (queue.contents q) (p ∷ []) ps

  -- With one round more than pages, the loop takes every page and leaves the queue empty.
  drain_lem :
      (fuel : ℕ) (q : Q) (ps : List ℕ)
      → queue.contents q ≡ ps
      → length ps < fuel
      → ((drain queue fuel q).0 ≡ ps) × (queue.contents (drain queue fuel q).1 ≡ [])
  unfolding drain
  drain_lem zero q ps e h = absurd (omega (arith, h))
  drain_lem (suc fuel) q [] e h = ground (arith, fifo.pop-none q e, e)
  drain_lem (suc fuel) q (p ∷ ps) e h =
      let (front, back) = fifo.pop-some q p ps e in
      let again = drain_lem fuel (queue.pop q).1 ps back (omega (arith, h)) in
      ground (arith, front, again)

  drain_enough :
      (q : Q)
      → ((drain queue (enough queue q) q).0 ≡ queue.contents q)
        × (queue.contents (drain queue (enough queue q) q).1 ≡ [])
  drain_enough q = drain_lem (enough queue q) q (queue.contents q) refl (omega arith)

  -- The list holds the pages `ps` in this order, and counts them.
  abbrev pub Holds : FreeList Q → List ℕ → Type 0
  Holds l ps = (queue.contents l.free_pages ≡ ps) × (l.total_free ≡ length ps)

  -- `snapshot_free_pages` returns the pages in the queue's order, and leaves the queue in the reverse
  -- of that order.
  snapshot_free_pages_lem :
      (l : FreeList Q)
      → let r = snapshot_free_pages queue l in
        (r.0 ≡ queue.contents l.free_pages)
        × (queue.contents r.1.free_pages ≡ rev (queue.contents l.free_pages))
        × (r.1.total_free ≡ l.total_free)
  unfolding snapshot_free_pages
  snapshot_free_pages_lem l =
      let (pages, emptied) = drain_enough l.free_pages in
      let r = drain queue (enough queue l.free_pages) l.free_pages in
      (
        pages,
        contents-push_all r.1 (rev r.0) ∙ (ap (λ c. c ++ rev r.0) emptied ∙ ap rev pages),
        refl,
      )

-- A call on the list, and on the pages that it holds: `push_page`, `pop_page`, `set_free_pages` and
-- `snapshot_free_pages`.
pub data Call : Type 0 where
  push : ℕ → Call
  pop : Call
  replace : List ℕ → Call
  snapshot : Call

abbrev pub front : List ℕ → List ℕ
front [] = []
front (p ∷ ps) = p ∷ []

abbrev pub others : List ℕ → List ℕ
others [] = []
others (p ∷ ps) = ps

unfoldable pub held_after : List ℕ → Call → List ℕ
unfolding sort rev
held_after ps (push p) = ps ++ (p ∷ [])
held_after ps pop = others ps
held_after ps (replace qs) = sort qs
held_after ps snapshot = rev ps

-- The pages that a call returns.
unfoldable pub given : List ℕ → Call → List ℕ
given ps (push p) = []
given ps pop = front ps
given ps (replace qs) = []
given ps snapshot = ps

unfoldable pub given_all : List ℕ → List Call → List (List ℕ)
unfolding given held_after
given_all ps [] = []
given_all ps (c ∷ cs) = given ps c ∷ given_all (held_after ps c) cs

-- There are never 2^64 pages.
abbrev pub Fits : List ℕ → List Call → Type 0
Fits ps [] = Unit
Fits ps (c ∷ cs) = (length (held_after ps c) < 2 ^ 64) × Fits (held_after ps c) cs

module _ {Q : Type 0} (queue : SegQueue Q) where
  unfoldable pub call : FreeList Q → Call → List ℕ × FreeList Q
  unfolding push_page pop_page set_free_pages snapshot_free_pages
  call l (push p) = ([], push_page queue l p)
  call l pop = let r = pop_page queue l in (elim r.0 [ none ↦ [] | some p ↦ p ∷ [] ], r.1)
  call l (replace ps) = ([], set_free_pages queue l ps)
  call l snapshot = snapshot_free_pages queue l

  unfoldable pub call_all : FreeList Q → List Call → List (List ℕ)
  unfolding call
  call_all l [] = []
  call_all l (c ∷ cs) = let r = call l c in r.0 ∷ call_all r.1 cs

module _ {Q : Type 0} (queue : SegQueue Q) (fifo : IsFifo queue) where
  length-rev : (ps : List ℕ) → length (rev ps) ≡ length ps
  unfolding rev
  length-rev [] = refl
  length-rev (p ∷ ps) = ground (arith, length-append (rev ps) (p ∷ []), length-rev ps)

  -- One call, on the list and on the pages that it holds.
  call-Holds :
      (l : FreeList Q) (ps : List ℕ) (c : Call)
      → Holds queue fifo l ps
      → length ps < 2 ^ 64
      → length (held_after ps c) < 2 ^ 64
      → ((call queue l c).0 ≡ given ps c) × Holds queue fifo (call queue l c).1 (held_after ps c)
  unfolding call held_after given
  call-Holds l ps (push p) h before fits = (
    refl,
    (
      fifo.contents-push l.free_pages p ∙ ap (λ x. x ++ (p ∷ [])) h.0,
      ground (arith, h.1, length-append ps (p ∷ []), fits),
    ),
  )
  call-Holds l [] pop h before fits = ground (arith, fifo.pop-none l.free_pages h.0, h.0, h.1)
  call-Holds l (p ∷ ps) pop h before fits =
      let (popped, back) = fifo.pop-some l.free_pages p ps h.0 in
      ground (arith, popped, back, h.1, before)
  call-Holds l ps (replace qs) h before fits =
      let (pages, emptied) = drain_enough queue fifo l.free_pages in
      let filled =
        contents-push_all queue fifo (drain queue (enough queue l.free_pages) l.free_pages).1
          (sort qs) in
      ground (arith, filled, emptied, length-sort qs, fits)
  call-Holds l ps snapshot h before fits =
      let r = snapshot_free_pages_lem queue fifo l in
      (r.0 ∙ h.0, (r.1 ∙ ap rev h.0, r.2 ∙ (h.1 ∙ sym (length-rev ps))))

  call_all-given :
      (cs : List Call) (l : FreeList Q) (ps : List ℕ)
      → Holds queue fifo l ps
      → length ps < 2 ^ 64
      → Fits ps cs
      → call_all queue l cs ≡ given_all ps cs
  unfolding call_all given_all
  call_all-given [] l ps h before fits = refl
  call_all-given (c ∷ cs) l ps h before fits =
      let (answer, held) = call-Holds l ps c h before fits.0 in
      ap (λ x. x ∷ call_all queue (call queue l c).1 cs) answer
      ∙ ap (◌∷◌ (given ps c))
          (call_all-given cs (call queue l c).1 (held_after ps c) held fits.0 fits.1)

  -- On a new free list over a first-in first-out queue, whatever pages are pushed, popped, replaced
  -- and listed, every call returns what the same call returns on a plain list of pages: pops take
  -- the page that was pushed first, replacing sorts, and listing reverses what is held.
  pub call_all-new : (cs : List Call) → Fits [] cs → call_all queue (new queue) cs ≡ given_all [] cs
  unfolding new
  call_all-new cs fits =
      call_all-given cs (new queue) [] (fifo.contents-empty, refl) (omega arith) fits
