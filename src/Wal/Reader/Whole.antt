-- ===== src/Wal/Reader/Whole.antt =====
-- What the reader (src/wal/reader.rs) returns of a whole log, and of a log whose last record was cut
-- off.
use mathlib.Core.Path.{subst}
use mathlib.Core.List.{append-nil}
use nanostore.Prelude.{
  ℕ, zero, suc, ◌+◌, ◌-◌, ◌<◌, ◌≤◌, ◌≡◌, refl, ap, ◌∙◌, sym, Option, some, List, [], ◌∷◌, ◌++◌,
  length, take, ltb, leb, arith, length-append, length-take, if◌then◌else◌, Bool-cases, inl, inr,
  true,
}
use nanostore.Prelude.Bytes.{Bytes, bytes_eq, bytes_at, from_le}
use nanostore.Prelude.Cursor.{At, At-start, At-step}
use nanostore.Vfs.{FileOps, IsFile}
use nanostore.Wal.Error.{ok, err, corrupted_wal, incomplete_record}
use nanostore.Wal.Record.Frame.{Crates, IsSound, WalRecord, magic}
use nanostore.Wal.Reader.{
  WalReader, read_record, read_next, read_all, open_reader, reader_of, read_file, read_opened,
  after_next, parse_header,
}
use nanostore.Wal.Reader.Frames.{
  IsFramed, Frames, nothing, framed, header_of, Reads, sees, read_next-header, moved, prepend,
  read_all-Frames,
}

-- Each record takes at least one byte.
count-Frames :
    {lib : Crates} {key : Option Bytes} {rs : List WalRecord} {bs : Bytes}
    → Frames lib key rs bs
    → length rs ≤ length bs
count-Frames nothing = omega arith
count-Frames (framed {b} {bs} f fs) = omega (arith, count-Frames fs, f.long, length-append b bs)

take-take : (m n : ℕ) (b : Bytes) → m ≤ n → take m (take n b) ≡ take m b
take-take zero n b h = refl
take-take (suc m) zero b h = absurd (omega arith)
take-take (suc m) (suc n) [] h = refl
take-take (suc m) (suc n) (x ∷ b) h = ap (◌∷◌ x) (take-take m n b (omega arith))

module _ (lib : Crates) (sound : IsSound lib) {ops : FileOps} (file : IsFile ops) where
  open_reader_lem :
      (h : ops.Handle) (key : Option Bytes)
      → open_reader ops h key ≡ ok (reader_of ops h key (length (file.content h)))
  open_reader_lem h key = rw (open_reader, file.get_size_lem h) refl

  -- The loop of `read_all` on a file that holds framed records and then `rest`.
  read_all-rest :
      (h : ops.Handle) (key : Option Bytes) (rs : List WalRecord) (bs rest : Bytes)
      → Frames lib key rs bs
      → file.content h ≡ bs ++ rest
      → let r = reader_of ops h key (length (file.content h)) in
        (fuel : ℕ) × (read_file ops lib h key
          ≡ prepend rs (read_all lib (suc fuel) (moved r (length bs))))
        × Reads file (moved r (length bs)) rest
  unfolding read_file read_opened
  read_all-rest h key rs bs rest fs e =
      let size = length (file.content h) in
      let r : WalReader ops = reader_of ops h key size in
      let start : Reads file r (bs ++ rest) =
        (subst (At 0 (file.content h)) e (At-start (file.content h)), refl) in
      let fuel = size - length rs in
      let enough : suc size ≡ length rs + suc fuel =
        omega (arith, ap length e, length-append bs rest, count-Frames fs) in
      (
        fuel,
        ap (read_opened lib) (open_reader_lem h key)
            ∙ ap (λ n. read_all lib n r) enough
            ∙ read_all-Frames lib sound file key (suc fuel) r rest refl fs start,
        (At-step (length bs) 0 (file.content h) bs rest refl start.0, refl),
      )

  -- At fewer bytes than a header the loop ends.
  read_all-end :
      (r : WalReader ops) (rest : Bytes) (fuel : ℕ)
      → Reads file r rest
      → length rest < 31
      → read_all lib (suc fuel) r ≡ some (ok [])
  unfolding read_all read_next parse_header
  read_all-end r rest fuel reads h = elim (Bool-cases (leb r.file_size r.offset)) [
    | inl past ↦ rw (past, after_next) refl
    | inr inside ↦
        let short : ltb (length (take 31 rest)) 31 ≡ true =
          ground (arith, length-take 31 rest, h) in
        rw (inside, sees lib sound file r rest 31 reads, short, after_next) refl
  ]

  -- At a record that was cut off behind its header the loop fails.
  read_all-cut :
      (r : WalReader ops) (found : WalRecord) (b : Bytes) (n fuel : ℕ)
      → IsFramed lib r.encryption_key found b
      → Reads file r (take n b)
      → 31 ≤ n
      → n < length b
      → read_all lib (suc fuel) r ≡ some (err (corrupted_wal r.offset incomplete_record))
  unfolding read_all read_record
  read_all-cut r found b n fuel f reads long cut =
      let (marked, size) = header_of lib sound r.encryption_key found b [] f in
      let whole : take 31 (b ++ []) ≡ take 31 (take n b) =
        ap (take 31) (append-nil b) ∙ sym (take-take 31 n b long) in
      let m : bytes_eq (bytes_at 0 4 (take 31 (take n b))) magic ≡ true =
        subst (λ x. bytes_eq (bytes_at 0 4 x) magic ≡ true) whole marked in
      let s : 31 + from_le (bytes_at 27 4 (take 31 (take n b))) + 32 ≡ length b =
        subst (λ x. 31 + from_le (bytes_at 27 4 x) + 32 ≡ length b) whole size in
      let short : ltb (length (take (length b) (take n b))) (length b) ≡ true =
        ground (arith, length-take (length b) (take n b), length-take n b) in
      rw
        (
          read_next-header lib sound file r (take n b) (length b) reads
              (omega (arith, length-take n b)) m s,
          sees lib sound file r (take n b) (length b) reads,
          short,
        )
        refl

  -- A file that holds framed records, one after the other, is read back as these records.
  pub read_all-whole :
      (h : ops.Handle) (key : Option Bytes) (rs : List WalRecord)
      → Frames lib key rs (file.content h)
      → read_file ops lib h key ≡ some (ok rs)
  read_all-whole h key rs fs =
      let (fuel, e, reads) =
        read_all-rest h key rs (file.content h) [] fs (sym (append-nil (file.content h))) in
      e
      ∙ ap (prepend rs) (
          read_all-end
            (moved (reader_of ops h key (length (file.content h))) (length (file.content h))) []
            fuel reads (omega arith))
      ∙ ap (λ xs. some (ok xs)) (append-nil rs)

  -- A file that holds framed records and then the first bytes of one more, cut off inside it: with
  -- fewer than 31 bytes of it the records before it are read, and with more the whole read fails with
  -- an incomplete record at the offset where it begins.
  pub read_all-torn :
      (h : ops.Handle) (key : Option Bytes) (rs : List WalRecord) (bs : Bytes) (last : WalRecord)
      (b : Bytes) (n : ℕ)
      → Frames lib key rs bs
      → IsFramed lib key last b
      → n < length b
      → file.content h ≡ bs ++ take n b
      → read_file ops lib h key
        ≡ some (if ltb n 31 then ok rs else err (corrupted_wal (length bs) incomplete_record))
  read_all-torn h key rs bs last b n fs f cut e =
      let (fuel, e', reads) = read_all-rest h key rs bs (take n b) fs e in
      let r : WalReader ops = moved (reader_of ops h key (length (file.content h))) (length bs) in
      elim (Bool-cases (ltb n 31)) [
        | inl short ↦ rw short (
            e'
            ∙ ap (prepend rs)
                (read_all-end r (take n b) fuel reads (ground (arith, length-take n b)))
            ∙ ap (λ xs. some (ok xs)) (append-nil rs))
        | inr long ↦ rw long (
            e'
            ∙ ap (prepend rs) (read_all-cut r last b n fuel f reads (ground arith) cut)
            ∙ ap (λ o. some (err (corrupted_wal o incomplete_record))) (omega arith))
      ]
