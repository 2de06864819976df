-- ===== src/Wal/Record/Frame/Torn.antt =====
-- A record that was cut off while it was written is refused (src/wal/record.rs).
use mathlib.Core.List.{append_assoc}
use nanostore.Prelude.{
  ℕ, zero, suc, ◌+◌, ◌-◌, ◌^◌, ◌<◌, ◌≤◌, ◌≡◌, ap, ◌∙◌, List, [], ◌∷◌, ◌++◌, length, take, Option,
  ltb, if◌then◌else◌, arith, length-append, length-take, Bool-cases, inl, inr,
}
use nanostore.Prelude.Bytes.{Bytes}
use nanostore.Pager.Config.{compression_from_u8-to_u8, encryption_from_u8-to_u8}
use nanostore.Wal.Error.{err, ok, invalid_record}
use nanostore.Wal.Record.{record_type, serialize_data}
use nanostore.Wal.Record.Frame.{Crates, IsSound, WalRecord, min_size, to_bytes, checked, from_bytes}
use nanostore.Wal.Record.Frame.RoundTrip.{
  header, length-header, written, length-Written, read_length, read_magic, read_lsn, read_codes,
  read_stored_size, type_from_u8-to_u8,
}

take-append_past {ℓ} :
    {A : Type ℓ} (xs ys : List A) (n : ℕ)
    → length xs ≤ n
    → take n (xs ++ ys) ≡ xs ++ take (n - length xs) ys
take-append_past [] ys n h = ap (λ k. take k ys) (omega arith)
take-append_past (x ∷ xs) ys zero h = absurd (omega arith)
take-append_past (x ∷ xs) ys (suc n) h =
    ap (◌∷◌ x) (take-append_past xs ys n (omega arith) ∙ ap (λ k. xs ++ take k ys) (omega arith))

checked_short :
    (lib : Crates) (lsn stored_size : ℕ) (bytes : Bytes)
    → length bytes < 31 + stored_size + 32
    → checked lib lsn stored_size bytes ≡ err (invalid_record lsn)
unfolding checked
checked_short lib lsn stored_size bytes h = ground arith

from_bytes_short :
    (lib : Crates) (bytes : Bytes) (key : Option Bytes)
    → length bytes < min_size
    → from_bytes lib bytes key ≡ err (invalid_record 0)
unfolding from_bytes
from_bytes_short lib bytes key h = ground arith

from_bytes_incomplete :
    (lib : Crates) (r : WalRecord) (key : Option Bytes) (u s : ℕ) (tail : Bytes)
    → r.lsn < 2 ^ 64
    → s < 2 ^ 32
    → 36 ≤ length tail
    → length tail < s + 32
    → from_bytes lib (header r u s ++ tail) key ≡ err (invalid_record r.lsn)
unfolding from_bytes
from_bytes_incomplete lib r key u s tail l f long short =
    let (kind, comp, enc) = read_codes r u s tail in
    rw (
      read_length r u s tail long,
      read_magic r u s tail,
      read_lsn r u s tail l,
      kind,
      comp,
      enc,
      type_from_u8-to_u8 (record_type r.content),
      compression_from_u8-to_u8 r.compression,
      encryption_from_u8-to_u8 r.encryption,
      read_stored_size r u s tail f,
      checked_short lib r.lsn s (header r u s ++ tail)
          (omega (arith, length-append (header r u s) tail, length-header r u s)),
    )

from_bytes_cut :
    (lib : Crates) (r : WalRecord) (key : Option Bytes) (u s n : ℕ) (tail : Bytes)
    → r.lsn < 2 ^ 64
    → s < 2 ^ 32
    → length tail ≡ s + 32
    → min_size ≤ n
    → n < 31 + length tail
    → from_bytes lib (take n (header r u s ++ tail)) key ≡ err (invalid_record r.lsn)
from_bytes_cut lib r key u s n tail l f size long shorter =
    let e : length (take (n - 31) tail) ≡ n - 31 = omega (arith, length-take (n - 31) tail) in
    let past = take-append_past (header r u s) tail n (omega (arith, length-header r u s)) in
    rw (past, length-header r u s)
      (from_bytes_incomplete lib r key u s (take (n - 31) tail) l f (omega arith) (omega arith))

-- Of a framed record of fewer than 2^32 bytes, no proper prefix is read as a record: a prefix of
-- fewer than 67 bytes is an invalid record at LSN 0, a longer one at the record's own LSN.
pub from_bytes-take :
    (lib : Crates) (r : WalRecord) (key : Option Bytes) (nonce bytes : Bytes) (n : ℕ)
    → IsSound lib
    → r.lsn < 2 ^ 64
    → length bytes < 2 ^ 32
    → to_bytes lib r key nonce ≡ ok bytes
    → n < length bytes
    → from_bytes lib (take n bytes) key ≡ err (invalid_record (if ltb n min_size then 0 else r.lsn))
from_bytes-take lib r key nonce bytes n sound l fits h shorter =
    let size : length (take n bytes) ≡ n = omega (arith, length-take n bytes) in
    let w = written lib r key nonce bytes h in
    let u = length (serialize_data r.content) in
    let s = length w.final in
    let sum = lib.sha256 (header r u s ++ w.final) in
    let sizes = length-Written lib sound r key nonce bytes w in
    let tail : length (w.final ++ sum) ≡ s + 32 =
      omega (arith, length-append w.final sum, sound.length-sha256 (header r u s ++ w.final)) in
    let whole : bytes ≡ header r u s ++ (w.final ++ sum) =
      w.whole ∙ append_assoc (header r u s) w.final sum in
    elim (Bool-cases (ltb n min_size)) [
      | inl short ↦ rw short (from_bytes_short lib (take n bytes) key (ground arith))
      | inr long ↦ rw long (
          ap (λ b. from_bytes lib (take n b) key) whole
          ∙ from_bytes_cut lib r key u s n (w.final ++ sum) l (omega arith) tail (ground arith)
              (omega arith))
    ]
