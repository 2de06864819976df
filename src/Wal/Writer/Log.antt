-- ===== src/Wal/Writer/Log.antt =====
-- The log that the writer (src/wal/writer.rs) keeps over any sequence of calls, and what the reader
-- (src/wal/reader.rs) and a scan of the file see of it.
use mathlib.Core.List.{append_assoc, append-nil}
use mathlib.Core.Path.{subst}
use nanostore.Prelude.{
  ℕ, suc, ◌+◌, ◌^◌, ◌<◌, ◌≤◌, ◌≡◌, ◌≢◌, refl, sym, ap, ◌∙◌, Option, ◌⊎◌, inl, inr, List, [], ◌∷◌,
  ◌++◌, length, arith, length-append,
}
use nanostore.Prelude.Bytes.{Bytes}
use nanostore.Prelude.Members.{member}
use nanostore.Vfs.{FileOps, IsFile}
use nanostore.Wal.Error.{WalError, ok, err, io_error}
use nanostore.Wal.Record.{RecordData}
use nanostore.Wal.Record.Data.{InRange}
use nanostore.Wal.Record.Frame.{Crates, WalRecord, min_size, to_bytes}
use nanostore.Wal.Reader.{scan}
use nanostore.Wal.Reader.Frames.{IsFramed, Frames, nothing, framed}
use nanostore.Wal.Writer.{WalWriterConfig, WalWriter, Draw, create, new_record, flush}
use nanostore.Wal.Writer.Steps.{image, Flushes, Kept, flush-Flushes}
use nanostore.Wal.Writer.Active.{Same, track-Same, scan-append}
use nanostore.Wal.Writer.Calls.{Call, content_of, call, Added, Adds, call-Adds}

-- The fields of a record fit their places, and so does its size.
pub record Fits (lib : Crates) (config : WalWriterConfig) (r : WalRecord) (draw : Draw)
    : Type 0 where
  pub lsn_fits : r.lsn < 2 ^ 64
  pub timestamp_fits : r.timestamp < 2 ^ 64
  pub content_fits : InRange r.content
  pub length-nonce : length draw.nonce ≡ 12
  pub sized :
      (bytes : Bytes)
      → to_bytes lib r config.encryption_key draw.nonce ≡ ok bytes
      → (min_size ≤ length bytes) × (length bytes < 2 ^ 32)

module _ {ops : FileOps} (file : IsFile ops) (lib : Crates) (config : WalWriterConfig) where
  -- The writers that calls and flushes lead to, on a file that was empty, with the records of the
  -- calls that returned an LSN. A call may be refused; no operation on the file fails.
  pub data Written : WalWriter ops → List WalRecord → Type 0 where
    created : (h : ops.Handle) → file.content h ≡ [] → file.AtEnd h → Written (create h) []
    accepted :
        {w w' : WalWriter ops} {rs : List WalRecord} (c : Call) (draw : Draw) (lsn : ℕ)
        → Written w rs
        → Fits lib config (new_record config w (content_of w c) draw) draw
        → call lib config w c draw ≡ (ok lsn, w')
        → Written w' (rs ++ (new_record config w (content_of w c) draw ∷ []))
    refused :
        {w w' : WalWriter ops} {rs : List WalRecord} (c : Call) (draw : Draw) (e : WalError)
        → Written w rs
        → call lib config w c draw ≡ (err e, w')
        → e ≢ io_error
        → Written w' rs
    flushed :
        {w w' : WalWriter ops} {rs : List WalRecord}
        → Written w rs
        → flush config w ≡ (ok tt, w')
        → Written w' rs

-- The LSNs count from `n`.
abbrev pub Numbered : ℕ → List WalRecord → Type 0
Numbered n [] = Unit
Numbered n (r ∷ rs) = (r.lsn ≡ n) × Numbered (suc n) rs

Numbered-append :
    (n m : ℕ) (rs : List WalRecord) (r : WalRecord)
    → Numbered n rs
    → m ≡ n + length rs
    → r.lsn ≡ m
    → Numbered n (rs ++ (r ∷ []))
Numbered-append n m [] r h e l = (omega (arith, l, e), tt)
Numbered-append n m (r' ∷ rs) r h e l =
    (h.0, Numbered-append (suc n) m rs r h.1 (omega (arith, e)) l)

Frames-append :
    {lib : Crates} {key : Option Bytes} {rs : List WalRecord} {bs : Bytes} (r : WalRecord)
    (b : Bytes)
    → Frames lib key rs bs
    → IsFramed lib key r b
    → Frames lib key (rs ++ (r ∷ [])) (bs ++ b)
Frames-append {lib} {key} r b nothing f =
    subst (Frames lib key (r ∷ [])) (append-nil b) (framed f nothing)
Frames-append {lib} {key} r b (framed {r = r'} {rs} {b = b'} {bs} f' fs) f =
    subst (Frames lib key (r' ∷ (rs ++ (r ∷ [])))) (sym (append_assoc b' bs b))
      (framed f' (Frames-append r b fs f))

module _ {ops : FileOps} (file : IsFile ops) (lib : Crates) (config : WalWriterConfig) where
  -- The state of the writer agrees with the records `rs`: the file and the buffer hold them framed,
  -- they are numbered from 1, the next LSN and the offset follow them, and the active transactions
  -- are those that a scan of them finds.
  pub record IsLog (w : WalWriter ops) (rs : List WalRecord) : Type 0 where
    pub frames : Frames lib config.encryption_key rs (image file w)
    pub at_end : file.AtEnd w.file
    pub numbered : Numbered 1 rs
    pub next_lsn : w.current_lsn ≡ suc (length rs)
    pub last_lsn : (scan (0, []) rs).0 ≡ length rs
    pub offset : w.current_offset ≡ length (image file w)
    pub active : Same w.active_txns (scan (0, []) rs).1

  create-IsLog : (h : ops.Handle) → file.content h ≡ [] → file.AtEnd h → IsLog (create h) []
  unfolding scan
  create-IsLog h e end =
      let empty : image file (create h) ≡ [] = append-nil (file.content h) ∙ e in
      record {
        frames = subst (Frames lib config.encryption_key []) (sym empty) nothing;
        at_end = end;
        numbered = tt;
        next_lsn = refl;
        last_lsn = refl;
        offset = ap length (sym empty);
        active = λ t. refl;
      }

  Added-IsLog :
      (w w' : WalWriter ops) (rs : List WalRecord) (content : RecordData) (draw : Draw)
      → IsLog w rs
      → Fits lib config (new_record config w content draw) draw
      → Added file lib config w w' content draw
      → IsLog w' (rs ++ (new_record config w content draw ∷ []))
  Added-IsLog w w' rs content draw l fits a =
      let r = new_record config w content draw in
      let (long, short) = fits.sized a.bytes a.encoded in
      let f : IsFramed lib config.encryption_key r a.bytes = record {
        nonce = draw.nonce;
        encoded = a.encoded;
        lsn_fits = fits.lsn_fits;
        timestamp_fits = fits.timestamp_fits;
        content_fits = fits.content_fits;
        length-nonce = fits.length-nonce;
        long = long;
        short = short;
      } in
      let scanned = scan-append (0, []) rs r in
      let size : length (rs ++ (r ∷ [])) ≡ length rs + 1 = length-append rs (r ∷ []) in
      record {
        frames =
            subst (Frames lib config.encryption_key (rs ++ (r ∷ []))) (sym a.longer)
              (Frames-append r a.bytes l.frames f);
        at_end = a.at_end;
        numbered = Numbered-append 1 w.current_lsn rs r l.numbered (omega (arith, l.next_lsn)) refl;
        next_lsn = omega (arith, a.next_lsn, l.next_lsn, size);
        last_lsn = ap (λ st. st.0) scanned ∙ omega (arith, l.next_lsn, size);
        offset = omega (
          arith,
          a.next_offset,
          l.offset,
          ap length a.longer,
          length-append (image file w) a.bytes,
        );
        active = λ t.
            a.tracked t
            ∙ track-Same content w.active_txns (scan (0, []) rs).1 l.active t
            ∙ ap (λ st. member t st.1) (sym scanned);
      }

  Kept-IsLog :
      (w w' : WalWriter ops) (rs : List WalRecord) → IsLog w rs → Kept file w w' → IsLog w' rs
  Kept-IsLog w w' rs l k = record {
    frames = subst (Frames lib config.encryption_key rs) (sym k.same_image) l.frames;
    at_end = k.at_end;
    numbered = l.numbered;
    next_lsn = k.same_lsn ∙ l.next_lsn;
    last_lsn = l.last_lsn;
    offset = k.same_offset ∙ l.offset ∙ ap length (sym k.same_image);
    active = λ t. ap (member t) k.same_active ∙ l.active t;
  }

  pub flush-Kept :
      (w w' : WalWriter ops)
      → file.AtEnd w.file
      → flush config w ≡ (ok tt, w')
      → Kept file w w' × (w'.buffer ≡ [])
  flush-Kept w w' end e = subst (Flushes file w) e (flush-Flushes file config w end)

  unchanged :
      (w w' : WalWriter ops) (rs : List WalRecord) (e : WalError)
      → IsLog w rs
      → e ≢ io_error
      → (e ≡ io_error) ⊎ (w' ≡ w)
      → IsLog w' rs
  unchanged w w' rs e l other (inl io) = absurd (other io)
  unchanged w w' rs e l other (inr same) = subst (λ v. IsLog v rs) (sym same) l

  -- After any sequence of calls and flushes from an empty file, where no operation on the file fails
  -- and the fields of the written records fit, the writer agrees with the records of the calls that
  -- succeeded: the file and the buffer hold them framed one after the other, their LSNs count from 1,
  -- the next LSN and the offset follow them, and the active transactions are those that a scan of
  -- these records finds.
  pub Written-IsLog :
      (w : WalWriter ops) (rs : List WalRecord) → Written file lib config w rs → IsLog w rs
  Written-IsLog w rs (created h e end) = create-IsLog h e end
  Written-IsLog w rs (accepted {w = w₀} {rs = rs₀} c draw lsn before fits e) =
      let l = Written-IsLog w₀ rs₀ before in
      let (_, a) =
        subst (Adds file lib config w₀ (content_of w₀ c) draw) e
          (call-Adds file lib config w₀ c draw l.at_end) in
      Added-IsLog w₀ w rs₀ (content_of w₀ c) draw l fits a
  Written-IsLog w rs (refused {w = w₀} c draw failure before e other) =
      let l = Written-IsLog w₀ rs before in
      unchanged w₀ w rs failure l other (
        subst (Adds file lib config w₀ (content_of w₀ c) draw) e
          (call-Adds file lib config w₀ c draw l.at_end))
  Written-IsLog w rs (flushed {w = w₀} before e) =
      let l = Written-IsLog w₀ rs before in Kept-IsLog w₀ w rs l (flush-Kept w₀ w l.at_end e).0
