-- ===== src/Pager/FreeList.antt =====
-- src/pager/freelist.rs: the page that stores free page identifiers, and the list in memory. Of the
-- lock-free `SegQueue` the operations are parameters.
pub mod Page
pub mod Queue
use nanostore.Prelude.{
  ℕ, zero, suc, ◌+◌, ◌-◌, ◌*◌, ◌/◌, ◌%◌, ◌^◌, ◌≡◌, Bool, true, false, Option, none, some, List, [],
  ◌∷◌, ◌++◌, ltb, leb, ◌==◌, if◌then◌else◌, length, inl, inr,
}
use nanostore.Prelude.Bytes.{Bytes, to_le, from_le, bytes_at}

-- src/pager/error.rs: the two errors of the free list page
pub data PagerError : Type 0 where
  insufficient_buffer : (expected actual : ℕ) → PagerError
  free_list_full : PagerError

pub data PagerResult (A : Type 0) : Type 0 where
  ok : A → PagerResult A
  err : PagerError → PagerResult A

-- `?`
infixl 5 ◌>>=◌
abbrev pub ◌>>=◌ : {S T : Type 0} → PagerResult S → (S → PagerResult T) → PagerResult T
err returned >>= rest = err returned
ok value >>= rest = rest value

pub record FreeListPage : Type 0 where
  pub next_page : ℕ
  pub free_pages : List ℕ

abbrev pub header_size : ℕ
header_size = 16

-- The subtraction of the source panics below the header's size, where this one is 0.
unfoldable pub max_entries : ℕ → ℕ
max_entries page_data_size = (page_data_size - header_size) / 8

unfoldable pub is_full : FreeListPage → ℕ → Bool
unfolding max_entries
is_full p page_data_size = leb (max_entries page_data_size) (length p.free_pages)

unfoldable pub add_page : FreeListPage → ℕ → ℕ → PagerResult FreeListPage
unfolding is_full
add_page p page_id page_data_size =
    if is_full p page_data_size
    then err free_list_full
    else ok (record p { free_pages = p.free_pages ++ (page_id ∷ []) })

-- `Vec::pop`
unfoldable pub pop_last : List ℕ → Option ℕ × List ℕ
pop_last [] = (none, [])
pop_last (p ∷ []) = (some p, [])
pop_last (p ∷ q ∷ ps) = let r = pop_last (q ∷ ps) in (r.0, p ∷ r.1)

unfoldable pub pop_entry : FreeListPage → Option ℕ × FreeListPage
unfolding pop_last
pop_entry p = let r = pop_last p.free_pages in (r.0, record p { free_pages = r.1 })

-- the loop over `free_pages`
unfoldable pub entries_to_bytes : List ℕ → Bytes
entries_to_bytes [] = []
entries_to_bytes (p ∷ ps) = to_le 8 p ++ entries_to_bytes ps

unfoldable pub to_bytes : FreeListPage → Bytes
unfolding entries_to_bytes
to_bytes p = to_le 8 p.next_page ++ (to_le 8 (length p.free_pages) ++ entries_to_bytes p.free_pages)

-- the loop over the entries: `count` rounds from `offset` on
unfoldable pub entries_from_bytes : ℕ → ℕ → Bytes → PagerResult (List ℕ)
entries_from_bytes zero offset bytes = ok []
entries_from_bytes (suc count) offset bytes =
    let rest = entries_from_bytes count (offset + 8) bytes in
    if ltb (length bytes) (offset + 8)
    then err (insufficient_buffer (offset + 8) (length bytes))
    else (do ps ← rest; ok (from_le (bytes_at offset 8 bytes) ∷ ps))

unfoldable pub from_bytes : Bytes → PagerResult FreeListPage
unfolding entries_from_bytes
from_bytes bytes =
    if ltb (length bytes) header_size
    then err (insufficient_buffer header_size (length bytes))
    else (do
      let next_page = from_le (bytes_at 0 8 bytes)
      free_pages ← entries_from_bytes (from_le (bytes_at 8 8 bytes)) header_size bytes
      ok (record { next_page = next_page; free_pages = free_pages }))

-- `crossbeam::queue::SegQueue`: a queue, first in, first out.
pub record SegQueue (Q : Type 0) : Type 0 where
  pub empty : Q
  pub push : Q → ℕ → Q
  pub pop : Q → Option ℕ × Q
  pub contents : Q → List ℕ

-- What its documentation states: `push` adds at the back, and `pop` takes from the front.
pub record IsFifo {Q : Type 0} (queue : SegQueue Q) : Type 0 where
  pub contents-empty : queue.contents queue.empty ≡ []
  pub contents-push :
      (q : Q) (p : ℕ) → queue.contents (queue.push q p) ≡ queue.contents q ++ (p ∷ [])
  pub pop-none : (q : Q) → queue.contents q ≡ [] → queue.pop q ≡ (none, q)
  pub pop-some :
      (q : Q) (p : ℕ) (ps : List ℕ)
      → queue.contents q ≡ p ∷ ps
      → ((queue.pop q).0 ≡ some p) × (queue.contents (queue.pop q).1 ≡ ps)

pub record FreeList (Q : Type 0) : Type 0 where
  pub first_page : ℕ
  pub last_page : ℕ
  pub total_free : ℕ
  pub free_pages : Q

-- `fetch_add(1)` and `fetch_sub(1)` of an `AtomicU64`
abbrev pub add_one : ℕ → ℕ
add_one n = (n + 1) % 2 ^ 64

abbrev pub sub_one : ℕ → ℕ
sub_one n = (n + 2 ^ 64 - 1) % 2 ^ 64

module _ {Q : Type 0} (queue : SegQueue Q) where
  unfoldable pub new : FreeList Q
  new = record { first_page = 0; last_page = 0; total_free = 0; free_pages = queue.empty }

  unfoldable pub from_state : ℕ → ℕ → ℕ → FreeList Q
  from_state first_page last_page total_free = record {
    first_page = first_page;
    last_page = last_page;
    total_free = total_free;
    free_pages = queue.empty;
  }

  unfoldable pub is_empty : FreeList Q → Bool
  is_empty l = l.total_free == 0

  unfoldable pub set_first_page : FreeList Q → ℕ → FreeList Q
  set_first_page l page_id = record l {
    first_page = page_id;
    last_page = if l.last_page == 0 then page_id else l.last_page;
  }

  unfoldable pub set_last_page : FreeList Q → ℕ → FreeList Q
  set_last_page l page_id = record l {
    last_page = page_id;
    first_page = if l.first_page == 0 then page_id else l.first_page;
  }

  unfoldable pub push_page : FreeList Q → ℕ → FreeList Q
  push_page l page_id = record l {
    free_pages = queue.push l.free_pages page_id;
    total_free = add_one l.total_free;
  }

  unfoldable pub decrement_free : FreeList Q → FreeList Q
  decrement_free l =
      let l₁ = record l { total_free = sub_one l.total_free } in
      if l.total_free == 1 then record l₁ { first_page = 0; last_page = 0 } else l₁

  unfoldable pub increment_free : FreeList Q → FreeList Q
  increment_free l = record l { total_free = add_one l.total_free }

  -- After a page is popped, the count and the pointers change as in `decrement_free`.
  unfoldable pub pop_page : FreeList Q → Option ℕ × FreeList Q
  unfolding decrement_free
  pop_page l =
      let r = queue.pop l.free_pages in
      let l₁ = record l { free_pages = r.1 } in
      elim r.0 [ none ↦ (none, l₁) | some page_id ↦ (some page_id, decrement_free l₁) ]

  -- `while let Some(page_id) = self.free_pages.pop()`, on fuel: the pages, and the queue
  unfoldable pub drain : ℕ → Q → List ℕ × Q
  drain zero q = ([], q)
  drain (suc fuel) q =
      let r = queue.pop q in
      let rest = drain fuel r.1 in
      elim r.0 [ none ↦ ([], r.1) | some page_id ↦ (page_id ∷ rest.0, rest.1) ]

  unfoldable pub push_all : Q → List ℕ → Q
  push_all q [] = q
  push_all q (p ∷ ps) = push_all (queue.push q p) ps

-- `sort_unstable`
unfoldable pub insert_page : ℕ → List ℕ → List ℕ
insert_page p [] = p ∷ []
insert_page p (q ∷ qs) = if leb p q then p ∷ q ∷ qs else q ∷ insert_page p qs

unfoldable pub sort : List ℕ → List ℕ
unfolding insert_page
sort [] = []
sort (p ∷ ps) = insert_page p (sort ps)

unfoldable pub rev : List ℕ → List ℕ
rev [] = []
rev (p ∷ ps) = rev ps ++ (p ∷ [])

module _ {Q : Type 0} (queue : SegQueue Q) where
  -- One round more than there are pages drains the queue.
  abbrev pub enough : Q → ℕ
  enough q = suc (length (queue.contents q))

  unfoldable pub set_free_pages : FreeList Q → List ℕ → FreeList Q
  unfolding drain push_all sort
  set_free_pages l free_pages =
      let sorted = sort free_pages in
      let count = length sorted in
      let drained = (drain queue (enough l.free_pages) l.free_pages).1 in
      let l₁ = record l { free_pages = push_all queue drained sorted; total_free = count } in
      if count == 0 then record l₁ { first_page = 0; last_page = 0 } else l₁

  unfoldable pub snapshot_free_pages : FreeList Q → List ℕ × FreeList Q
  unfolding drain push_all rev
  snapshot_free_pages l =
      let r = drain queue (enough l.free_pages) l.free_pages in
      (r.0, record l { free_pages = push_all queue r.1 (rev r.0) })
