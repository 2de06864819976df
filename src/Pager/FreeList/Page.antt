-- ===== src/Pager/FreeList/Page.antt =====
-- The stored page of the free list (src/pager/freelist.rs): its bytes, and its capacity.
use mathlib.Core.List.{append_assoc}
use mathlib.Core.Path.{subst}
use nanostore.Prelude.{
  ℕ, ◌+◌, ◌*◌, ◌^◌, ◌≤◌, ◌<◌, ◌≡◌, refl, some, List, [], ◌∷◌, ◌++◌, length, arith, length-append,
  inl, inr, Bool-cases, false,
}
use nanostore.Prelude.Bytes.{Bytes, to_le, length-to_le}
use nanostore.Prelude.Cursor.{At, At-start, At-step, le-At, AllU64}
use nanostore.Pager.FreeList.{
  ok, FreeListPage, header_size, add_page, is_full, pop_entry, pop_last, entries_to_bytes, to_bytes,
  entries_from_bytes, from_bytes,
}

entries_from_bytes-At :
    (ps : List ℕ) (offset : ℕ) (bytes rest : Bytes)
    → AllU64 ps
    → At offset bytes (entries_to_bytes ps ++ rest)
    → entries_from_bytes (length ps) offset bytes ≡ ok ps
unfolding entries_from_bytes entries_to_bytes
entries_from_bytes-At [] offset bytes rest h a = refl
entries_from_bytes-At (p ∷ ps) offset bytes rest h a =
    let a₁ : At offset bytes (to_le 8 p ++ (entries_to_bytes ps ++ rest)) =
      rw (← append_assoc (to_le 8 p) (entries_to_bytes ps) rest) a in
    let (value, room) =
      le-At 8 offset p bytes (entries_to_bytes ps ++ rest) (omega (arith, h.0)) a₁ in
    let again =
      entries_from_bytes-At ps (offset + 8) bytes rest h.1
        (At-step 8 offset bytes (to_le 8 p) _ (length-to_le 8 p) a₁) in
    ground (arith, value, room, again)

-- A page whose identifiers and whose number of entries fit 64 bits is read back from its bytes,
-- whatever bytes follow them on the page.
pub from_bytes-to_bytes_page :
    (p : FreeListPage) (rest : Bytes)
    → p.next_page < 2 ^ 64
    → AllU64 p.free_pages
    → length p.free_pages < 2 ^ 64
    → from_bytes (to_bytes p ++ rest) ≡ ok p
unfolding from_bytes to_bytes
from_bytes-to_bytes_page p rest n all fits =
    let bytes = to_bytes p ++ rest in
    let tail = entries_to_bytes p.free_pages ++ rest in
    let a : At 0 bytes (to_le 8 p.next_page ++ (to_le 8 (length p.free_pages) ++ tail)) =
      rw
        (
          ← append_assoc (to_le 8 (length p.free_pages)) (entries_to_bytes p.free_pages) rest,
          ← append_assoc (to_le 8 p.next_page) _ rest,
        )
        (At-start bytes) in
    let a₁ = At-step 8 0 bytes (to_le 8 p.next_page) _ (length-to_le 8 p.next_page) a in
    let a₂ = At-step 8 8 bytes (to_le 8 (length p.free_pages)) _ (length-to_le 8 _) a₁ in
    let (next, room) = le-At 8 0 p.next_page bytes _ (omega (arith, n)) a in
    let (count, room₁) = le-At 8 8 (length p.free_pages) bytes _ (omega (arith, fits)) a₁ in
    ground (arith, next, count, room₁, entries_from_bytes-At p.free_pages 16 bytes rest all a₂)

length-entries_to_bytes : (ps : List ℕ) → length (entries_to_bytes ps) ≡ 8 * length ps
unfolding entries_to_bytes
length-entries_to_bytes [] = refl
length-entries_to_bytes (p ∷ ps) = ground (
  arith,
  length-append (to_le 8 p) (entries_to_bytes ps),
  length-to_le 8 p,
  length-entries_to_bytes ps,
)

length-to_bytes : (p : FreeListPage) → length (to_bytes p) ≡ 16 + 8 * length p.free_pages
unfolding to_bytes
length-to_bytes p = ground (
  arith,
  length-append (to_le 8 p.next_page)
      (to_le 8 (length p.free_pages) ++ entries_to_bytes p.free_pages),
  length-append (to_le 8 (length p.free_pages)) (entries_to_bytes p.free_pages),
  length-to_le 8 p.next_page,
  length-to_le 8 (length p.free_pages),
  length-entries_to_bytes p.free_pages,
)

pop_last-snoc : (ps : List ℕ) (p : ℕ) → pop_last (ps ++ (p ∷ [])) ≡ (some p, ps)
unfolding pop_last
pop_last-snoc [] p = refl
pop_last-snoc (q ∷ []) p = refl
pop_last-snoc (q ∷ r ∷ ps) p = rw (pop_last-snoc (r ∷ ps) p)

add_page-room :
    (p : FreeListPage) (page_id size : ℕ)
    → header_size ≤ size
    → is_full p size ≡ false
    → let q = record p { free_pages = p.free_pages ++ (page_id ∷ []) } in
      (length (to_bytes q) ≤ size) × (pop_entry q ≡ (some page_id, p))
unfolding is_full pop_entry
add_page-room p page_id size room h = (
  ground (
    arith,
    h,
    length-to_bytes (record p { free_pages = p.free_pages ++ (page_id ∷ []) }),
    length-append p.free_pages (page_id ∷ []),
  ),
  rw (pop_last-snoc p.free_pages page_id) refl,
)

-- A page that `add_page` returns fits the page's data, which has room for the header at least, and
-- popping it returns the added identifier and the page as it was.
pub add_page_lem :
    (p q : FreeListPage) (page_id page_data_size : ℕ)
    → header_size ≤ page_data_size
    → add_page p page_id page_data_size ≡ ok q
    → (length (to_bytes q) ≤ page_data_size) × (pop_entry q ≡ (some page_id, p))
unfolding add_page
add_page_lem p q page_id page_data_size room h = elim (Bool-cases (is_full p page_data_size)) [
  | inl full ↦ absurd (ground arith)
  | inr free ↦
      subst (λ r. (length (to_bytes r) ≤ page_data_size) × (pop_entry r ≡ (some page_id, p)))
        (ground arith) (add_page-room p page_id page_data_size room free)
]
