-- ===== src/Wal/Reader/Termination.antt =====
-- The loops of the reader (src/wal/reader.rs) end.
use nanostore.Prelude.{
  ℕ, zero, suc, ◌+◌, ◌-◌, ◌<◌, ◌≡◌, refl, Option, none, some, List, [], length, ltb, leb, arith,
  Bool-cases, inl, inr, ◌==◌, ◌⊎◌,
}
use nanostore.Prelude.Bytes.{Bytes, bytes_at, bytes_eq, from_le}
use nanostore.Vfs.{FileOps}
use nanostore.Wal.Error.{WalError, WalResult, ok, err, WalResult-cases}
use nanostore.Wal.Record.Frame.{Crates, WalRecord, magic, from_bytes}
use nanostore.Wal.Reader.{
  WalReader, parse_record, parse_header, read_record, read_next, after_next, read_all, seek_after,
  seek_loop, seek_to_lsn, reset,
}

-- The reader moved on inside the file.
record Moved {ops : FileOps} (r r' : WalReader ops) : Type 0 where
  same_size : r'.file_size ≡ r.file_size
  inside : r.offset < r.file_size
  forward : r.offset < r'.offset

-- A run that did not use up its fuel.
abbrev Ends : {A : Type 0} → Option A → Type 0
Ends {A} o = (result : A) × (o ≡ some result)

from_bytes-cases :
    (lib : Crates) (b : Bytes) (key : Option Bytes)
    → ((e : WalError) × (from_bytes lib b key ≡ err e))
      ⊎ ((r : WalRecord) × (from_bytes lib b key ≡ ok r))
from_bytes-cases lib b key = WalResult-cases (from_bytes lib b key)

-- A record that was read moved the reader on.
abbrev Progress :
    {ops : FileOps} → WalReader ops → WalResult (Option WalRecord × WalReader ops) → Type 0
Progress r (err e) = Unit
Progress r (ok (none, r')) = Unit
Progress r (ok (some found, r')) = Moved r r'

module _ {ops : FileOps} (lib : Crates) where
  parse_record-Progress :
      (r : WalReader ops) (n : ℕ) (o : Option Bytes)
      → r.offset < r.file_size
      → 0 < n
      → Progress r (parse_record lib r n o)
  parse_record-Progress r n none inside positive = tt
  parse_record-Progress r n (some buf) inside positive = elim (Bool-cases (ltb (length buf) n)) [
    | inl short ↦ rw short tt
    | inr whole ↦ elim (from_bytes-cases lib buf r.encryption_key) [
      | inl (e, failed) ↦ rw (whole, failed) tt
      | inr (found, read) ↦
          rw (whole, read)
            (record { same_size = refl; inside = inside; forward = omega (arith, positive) })
    ]
  ]

  parse_header-Progress :
      (r : WalReader ops) (o : Option Bytes)
      → r.offset < r.file_size
      → Progress r (parse_header lib r o)
  unfolding parse_header read_record
  parse_header-Progress r none inside = tt
  parse_header-Progress r (some buf) inside = elim (Bool-cases (ltb (length buf) 31)) [
    | inl short ↦ rw short tt
    | inr whole ↦ elim (Bool-cases (bytes_eq (bytes_at 0 4 buf) magic)) [
      | inl marked ↦
          rw (whole, marked)
            (parse_record-Progress r (31 + from_le (bytes_at 27 4 buf) + 32)
              (ops.read_at_offset r.file r.offset (31 + from_le (bytes_at 27 4 buf) + 32)) inside
              (omega arith))
      | inr unmarked ↦ rw (whole, unmarked) tt
    ]
  ]

  read_next-Progress : (r : WalReader ops) → Progress r (read_next lib r)
  unfolding read_next
  read_next-Progress r = elim (Bool-cases (leb r.file_size r.offset)) [
    | inl past ↦ rw past tt
    | inr inside ↦
        rw inside (parse_header-Progress r (ops.read_at_offset r.file r.offset 31) (ground arith))
  ]

  after_next-Ends :
      (again : WalReader ops → Option (WalResult (List WalRecord))) (r : WalReader ops)
      (next : WalResult (Option WalRecord × WalReader ops))
      → Progress r next
      → ((r' : WalReader ops) → Moved r r' → Ends (again r'))
      → Ends (after_next again next)
  after_next-Ends again r (err e) p ends = (err e, refl)
  after_next-Ends again r (ok (none, r')) p ends = (ok [], refl)
  after_next-Ends again r (ok (some found, r')) p ends =
      let (result, e) = ends r' p in rw (after_next, e) (_, refl)

  read_all-ends :
      (fuel : ℕ) (r : WalReader ops)
      → r.file_size - r.offset < fuel
      → (result : WalResult (List WalRecord)) × (read_all lib fuel r ≡ some result)
  unfolding read_all
  read_all-ends zero r h = absurd (omega arith)
  read_all-ends (suc fuel) r h =
      after_next-Ends (read_all lib fuel) r (read_next lib r) (read_next-Progress r)
        λ r' m. read_all-ends fuel r' (omega (arith, m.same_size, m.inside, m.forward))

  seek_after-Ends :
      (target : ℕ) (nonce : Bytes) (again : WalReader ops → Option (WalResult (WalReader ops)))
      (r : WalReader ops) (next : WalResult (Option WalRecord × WalReader ops))
      → Progress r next
      → ((r' : WalReader ops) → Moved r r' → Ends (again r'))
      → Ends (seek_after lib target nonce again next)
  seek_after-Ends target nonce again r (err e) p ends = (err e, refl)
  seek_after-Ends target nonce again r (ok (none, r')) p ends = (_, refl)
  seek_after-Ends target nonce again r (ok (some found, r')) p ends =
      elim (Bool-cases (found.lsn == target)) [
        | inl here ↦ rw here (_, refl)
        | inr later ↦ let (result, e) = ends r' p in rw (later, e) (_, refl)
      ]

  seek_loop-Ends :
      (target : ℕ) (nonce : Bytes) (fuel : ℕ) (r : WalReader ops)
      → r.file_size - r.offset < fuel
      → Ends (seek_loop lib target nonce fuel r)
  unfolding seek_loop
  seek_loop-Ends target nonce zero r h = absurd (omega arith)
  seek_loop-Ends target nonce (suc fuel) r h =
      seek_after-Ends target nonce (seek_loop lib target nonce fuel) r (read_next lib r)
        (read_next-Progress r)
        λ r' m.
          seek_loop-Ends target nonce fuel r' (omega (arith, m.same_size, m.inside, m.forward))

  -- Fuel above the size of the file is enough for the loops of the reader, whatever the file holds and
  -- whichever of its reads fail: `read_all` ends with records or an error, and `seek_to_lsn` ends with
  -- a reader or an error, where the step back over the record that was found wraps around.
  pub reader_loops-end :
      (r : WalReader ops) (target : ℕ) (nonce : Bytes) (fuel : ℕ)
      → r.file_size < fuel
      → ((result : WalResult (List WalRecord)) × (read_all lib fuel r ≡ some result))
        × ((result : WalResult (WalReader ops)) × (seek_to_lsn lib target nonce fuel r
              ≡ some result))
  unfolding seek_to_lsn
  reader_loops-end r target nonce fuel h =
      (read_all-ends fuel r (omega arith), seek_loop-Ends target nonce fuel (reset r) (omega arith))
