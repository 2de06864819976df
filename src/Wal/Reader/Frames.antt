-- ===== src/Wal/Reader/Frames.antt =====
-- The reader (src/wal/reader.rs) on a file that holds framed records.
use mathlib.Core.List.{append_assoc, append-nil}
use mathlib.Core.Path.{subst}
use native.Mathlib.Nat.{suc-add, zero-add}
use nanostore.Prelude.{
  ℕ, ◌+◌, ◌^◌, ◌<◌, ◌≤◌, ◌≡◌, refl, ap, ◌∙◌, sym, Option, none, some, List, [], ◌∷◌, ◌++◌, length,
  take, ltb, leb, arith, length-append, take-append, true, false, length-take,
}
use nanostore.Prelude.Bytes.{Bytes, from_le, bytes_at, bytes_eq}
use nanostore.Prelude.Cursor.{At, At-step}
use nanostore.Vfs.{FileOps, IsFile}
use nanostore.Wal.Error.{WalResult, ok, err}
use nanostore.Wal.Record.{serialize_data}
use nanostore.Wal.Record.Data.{InRange}
use nanostore.Wal.Record.Frame.{Crates, IsSound, WalRecord, min_size, magic, to_bytes, from_bytes}
use nanostore.Wal.Record.Frame.RoundTrip.{
  header, length-header, read_magic, read_stored_size, written, length-Written, from_bytes-to_bytes,
}
use nanostore.Wal.Reader.{WalReader, parse_header, read_record, read_next, after_next, read_all}

-- The bytes are those of the record, whose fields fit.
pub record IsFramed (lib : Crates) (key : Option Bytes) (r : WalRecord) (bytes : Bytes)
    : Type 0 where
  pub nonce : Bytes
  pub encoded : to_bytes lib r key nonce ≡ ok bytes
  pub lsn_fits : r.lsn < 2 ^ 64
  pub timestamp_fits : r.timestamp < 2 ^ 64
  pub content_fits : InRange r.content
  pub length-nonce : length nonce ≡ 12
  pub long : min_size ≤ length bytes
  pub short : length bytes < 2 ^ 32

-- One framed record after the other.
pub data Frames (lib : Crates) (key : Option Bytes) : List WalRecord → Bytes → Type 0 where
  nothing : Frames lib key [] []
  framed :
      {r : WalRecord} {rs : List WalRecord} {b bs : Bytes}
      → IsFramed lib key r b
      → Frames lib key rs bs
      → Frames lib key (r ∷ rs) (b ++ bs)

module _ (lib : Crates) (sound : IsSound lib) where
  -- What the reader sees of a record in its first 31 bytes.
  pub header_of :
      (key : Option Bytes) (r : WalRecord) (b rest : Bytes)
      → IsFramed lib key r b
      → (bytes_eq (bytes_at 0 4 (take 31 (b ++ rest))) magic ≡ true)
        × (31 + from_le (bytes_at 27 4 (take 31 (b ++ rest))) + 32 ≡ length b)
  header_of key r b rest f =
      let w = written lib r key f.nonce b f.encoded in
      let u = length (serialize_data r.content) in
      let s = length w.final in
      let sum = lib.sha256 (header r u s ++ w.final) in
      let sizes = length-Written lib sound r key f.nonce b w in
      let split : b ++ rest ≡ header r u s ++ (w.final ++ (sum ++ rest)) =
        ap (λ x. x ++ rest) w.whole
        ∙ append_assoc (header r u s ++ w.final) sum rest
        ∙ append_assoc (header r u s) w.final (sum ++ rest) in
      let first : take 31 (b ++ rest) ≡ header r u s ++ [] =
        ap (take 31) split
        ∙ take-append 31 (header r u s) (w.final ++ (sum ++ rest)) (length-header r u s)
        ∙ sym (append-nil (header r u s)) in
      rw first (
        read_magic r u s [],
        omega (arith, read_stored_size r u s [] (omega (arith, sizes, f.short)), sizes),
      )

-- The reader is where the content of its file goes on with `rest`.
abbrev pub Reads : {ops : FileOps} → IsFile ops → WalReader ops → Bytes → Type 0
Reads file r rest =
    At r.offset (file.content r.file) rest × (r.file_size ≡ length (file.content r.file))

module _ (lib : Crates) (sound : IsSound lib) {ops : FileOps} (file : IsFile ops) where
  -- A read of `n` bytes sees the front of what follows.
  pub sees :
      (r : WalReader ops) (rest : Bytes) (n : ℕ)
      → Reads file r rest
      → ops.read_at_offset r.file r.offset n ≡ some (take n rest)
  sees r rest n reads =
      file.read_at_offset_lem r.file r.offset n ∙ ap (λ b. some (take n b)) reads.0.here

  -- Past the test of the size, and past the header if it is whole.
  pub read_next-header :
      (r : WalReader ops) (rest : Bytes) (n : ℕ)
      → Reads file r rest
      → 31 ≤ length rest
      → bytes_eq (bytes_at 0 4 (take 31 rest)) magic ≡ true
      → 31 + from_le (bytes_at 27 4 (take 31 rest)) + 32 ≡ n
      → read_next lib r ≡ read_record lib r n
  unfolding read_next parse_header
  read_next-header r rest n reads long marked size =
      let inside : leb r.file_size r.offset ≡ false = ground (arith, reads.1, reads.0.room) in
      let whole : ltb (length (take 31 rest)) 31 ≡ false =
        ground (arith, length-take 31 rest, long) in
      rw (inside, sees r rest 31 reads, whole, marked, size)

  read_next-framed :
      (r : WalReader ops) (found : WalRecord) (b rest : Bytes)
      → IsFramed lib r.encryption_key found b
      → Reads file r (b ++ rest)
      → read_next lib r ≡ ok (some found, record r { offset = r.offset + length b })
  unfolding read_record
  read_next-framed r found b rest f reads =
      let (marked, size) = header_of lib sound r.encryption_key found b rest f in
      let n = length b in
      let exact : take n (b ++ rest) ≡ b = take-append n b rest refl in
      let parsed : from_bytes lib b r.encryption_key ≡ ok found =
        ap (λ x. from_bytes lib x r.encryption_key) (sym (append-nil b))
        ∙ from_bytes-to_bytes lib sound found r.encryption_key f.nonce b [] f.lsn_fits
            f.timestamp_fits f.content_fits f.length-nonce f.long f.short f.encoded in
      let whole : ltb n n ≡ false = ground arith in
      rw (
        read_next-header r (b ++ rest) n reads (omega (arith, length-append b rest, f.long)) marked
            size,
        sees r (b ++ rest) n reads,
        exact,
        whole,
        parsed,
      )

-- What a run returns when these records were read before it.
abbrev pub prepend :
    List WalRecord → Option (WalResult (List WalRecord)) → Option (WalResult (List WalRecord))
prepend rs none = none
prepend rs (some (err e)) = some (err e)
prepend rs (some (ok more)) = some (ok (rs ++ more))

prepend-cons :
    (r : WalRecord) (rs : List WalRecord) (o : Option (WalResult (List WalRecord)))
    → prepend (r ∷ []) (prepend rs o) ≡ prepend (r ∷ rs) o
prepend-cons r rs none = refl
prepend-cons r rs (some (err e)) = refl
prepend-cons r rs (some (ok more)) = refl

prepend-nil : (o : Option (WalResult (List WalRecord))) → prepend [] o ≡ o
prepend-nil none = refl
prepend-nil (some (err e)) = refl
prepend-nil (some (ok more)) = refl

after_next-prepend :
    {ops : FileOps} (again : WalReader ops → Option (WalResult (List WalRecord)))
    (found : WalRecord) (r : WalReader ops)
    → after_next again (ok (some found, r)) ≡ prepend (found ∷ []) (again r)
after_next-prepend again found r = ground arith

-- The reader `n` bytes further on.
abbrev pub moved : {ops : FileOps} → WalReader ops → ℕ → WalReader ops
moved r n = record r { offset = r.offset + n }

module _ (lib : Crates) (sound : IsSound lib) {ops : FileOps} (file : IsFile ops) where
  -- The loop reads the framed records and goes on behind them.
  pub read_all-Frames :
      (key : Option Bytes) {rs : List WalRecord} {bs : Bytes} (fuel : ℕ) (r : WalReader ops)
      (rest : Bytes)
      → r.encryption_key ≡ key
      → Frames lib key rs bs
      → Reads file r (bs ++ rest)
      → read_all lib (length rs + fuel) r ≡ prepend rs (read_all lib fuel (moved r (length bs)))
  unfolding read_all
  read_all-Frames key fuel r rest k nothing reads =
      let still : moved r 0 ≡ r = ap (λ n. record r { offset = n }) (omega arith) in
      rw zero-add (sym (prepend-nil (read_all lib fuel (moved r 0)) ∙ ap (read_all lib fuel) still))
  read_all-Frames key fuel r rest k (framed {r = found} {rs} {b} {bs} f fs) reads =
      let here : Reads file r (b ++ (bs ++ rest)) =
        subst (Reads file r) (append_assoc b bs rest) reads in
      let there : Reads file (moved r (length b)) (bs ++ rest) =
        (At-step (length b) r.offset _ b (bs ++ rest) refl here.0, here.1) in
      let f' : IsFramed lib r.encryption_key found b =
        subst (λ x. IsFramed lib x found b) (sym k) f in
      let far : moved (moved r (length b)) (length bs) ≡ moved r (length (b ++ bs)) =
        ap (λ n. record r { offset = n }) (omega (arith, length-append b bs)) in
      rw (suc-add, read_next-framed lib sound file r found b (bs ++ rest) f' here)
        (after_next-prepend (read_all lib (length rs + fuel)) found (moved r (length b))
          ∙ ap (prepend (found ∷ [])) (
              read_all-Frames key fuel (moved r (length b)) rest k fs there
              ∙ ap (λ q. prepend rs (read_all lib fuel q)) far)
          ∙ prepend-cons found rs (read_all lib fuel (moved r (length (b ++ bs)))))
