-- ===== src/Wal/Writer/Steps.antt =====
-- What one write or flush does to the bytes that the writer (src/wal/writer.rs) holds: those of the
-- file and then those of the buffer.
use mathlib.Core.List.{append_assoc, append-nil}
use nanostore.Prelude.{
  ◌+◌, ◌≡◌, refl, sym, ◌∙◌, Bool, true, false, ◌⊎◌, inl, inr, [], ◌++◌, length, length-zero, ltb,
  leb, arith, Bool-cases, not, ◌&&◌, if◌then◌else◌,
}
use nanostore.Prelude.Bytes.{Bytes}
use nanostore.Vfs.{FileOps, IsFile, IoResult, done, failed}
use nanostore.Wal.Error.{WalResult, ok, err, io_error}
use nanostore.Wal.Record.{RecordData}
use nanostore.Wal.Record.Frame.{Crates, to_bytes}
use nanostore.Wal.Writer.{
  WalWriterConfig, WalWriter, Status, Draw, flushed, synced, write_and_sync, flush, flush_batch,
  should_flush, append_bytes, append_encoded, new_record, write_record, advance, commit_flush,
}

module _ {ops : FileOps} (file : IsFile ops) where
  abbrev pub image : WalWriter ops → Bytes
  image w = file.content w.file ++ w.buffer

  -- The bytes are the same, and so is the rest of the state.
  pub record Kept (w w' : WalWriter ops) : Type 0 where
    pub same_image : image w' ≡ image w
    pub at_end : file.AtEnd w'.file
    pub same_lsn : w'.current_lsn ≡ w.current_lsn
    pub same_offset : w'.current_offset ≡ w.current_offset
    pub same_active : w'.active_txns ≡ w.active_txns

  -- A flush succeeds with an empty buffer, or fails in the file.
  abbrev pub Flushes : WalWriter ops → Status × WalWriter ops → Type 0
  Flushes w (err e, w') = e ≡ io_error
  Flushes w (ok u, w') = Kept w w' × (w'.buffer ≡ [])

  kept_lem :
      (w : WalWriter ops) (h : ops.Handle) (buffer : Bytes)
      → file.content h ++ buffer ≡ image w
      → file.AtEnd h
      → Kept w (record w { buffer = buffer; file = h })
  kept_lem w h buffer e end = record {
    same_image = e;
    at_end = end;
    same_lsn = refl;
    same_offset = refl;
    same_active = refl;
  }

  end-Flushes :
      (q : IoResult × ops.Handle) (w : WalWriter ops)
      → ((h : ops.Handle) → q ≡ (done, h) → (file.content h ≡ image w) × file.AtEnd h)
      → Flushes w (flushed q w)
  end-Flushes (failed, h) w kept = refl
  end-Flushes (done, h) w kept =
      let (e, end) = kept h refl in (kept_lem w h [] (append-nil (file.content h) ∙ e) end, refl)

  synced-Flushes :
      (sync : Bool) (p : IoResult × ops.Handle) (w : WalWriter ops)
      → ((h : ops.Handle) → p ≡ (done, h) → (file.content h ≡ image w) × file.AtEnd h)
      → Flushes w (synced sync p w)
  synced-Flushes sync (failed, h) w appended = refl
  synced-Flushes false (done, h) w appended =
      let (e, end) = appended h refl in
      (kept_lem w h [] (append-nil (file.content h) ∙ e) end, refl)
  synced-Flushes true (done, h) w appended =
      let (e, end) = appended h refl in
      end-Flushes (ops.sync_data h) w
        λ h' e'. let (same, end') = file.sync_data_lem h h' end e' in (same ∙ e, end')

  write_and_sync-Flushes :
      (sync : Bool) (w : WalWriter ops) → file.AtEnd w.file → Flushes w (write_and_sync sync w)
  unfolding write_and_sync
  write_and_sync-Flushes sync w end =
      synced-Flushes sync (ops.write_all w.file w.buffer) w
        λ h e. file.write_all_lem w.file h w.buffer end e

  flush_pending-Flushes :
      (sync : Bool) (w : WalWriter ops)
      → file.AtEnd w.file
      → Flushes w (if leb (length w.buffer) 0 then (ok tt, w) else write_and_sync sync w)
  flush_pending-Flushes sync w end = elim (Bool-cases (leb (length w.buffer) 0)) [
    | inl empty ↦
        rw empty (kept_lem w w.file w.buffer refl end, length-zero w.buffer (ground arith))
    | inr pending ↦ rw pending (write_and_sync-Flushes sync w end)
  ]

  pub flush-Flushes :
      (config : WalWriterConfig) (w : WalWriter ops)
      → file.AtEnd w.file
      → Flushes w (flush config w)
  unfolding flush
  flush-Flushes config w end =
      flush_pending-Flushes (config.sync_on_write && not config.group_commit) w end

  flush_batch-Flushes : (w : WalWriter ops) → file.AtEnd w.file → Flushes w (flush_batch w)
  unfolding flush_batch
  flush_batch-Flushes w end = flush_pending-Flushes w.batch_syncs w end

  -- A step that keeps the bytes, or fails in the file.
  abbrev pub Keeps : WalWriter ops → Status × WalWriter ops → Type 0
  Keeps w (err e, w') = e ≡ io_error
  Keeps w (ok u, w') = Kept w w'

  pub Keeps-of_Flushes : (w : WalWriter ops) (r : Status × WalWriter ops) → Flushes w r → Keeps w r
  Keeps-of_Flushes w (err e, w') f = f
  Keeps-of_Flushes w (ok u, w') f = f.0

  flush_if-Keeps :
      (group sync : Bool) (w : WalWriter ops) (batch alone : Status × WalWriter ops)
      → Keeps w batch
      → Keeps w alone
      → Kept w w
      → Keeps w (if group then batch else if sync then alone else (ok tt, w))
  flush_if-Keeps true sync w batch alone b a k = b
  flush_if-Keeps false true w batch alone b a k = a
  flush_if-Keeps false false w batch alone b a k = k

  pub commit_flush-Keeps :
      (lib : Crates) (config : WalWriterConfig) (w : WalWriter ops)
      → file.AtEnd w.file
      → Keeps w (commit_flush lib config w)
  unfolding commit_flush
  commit_flush-Keeps lib config w end =
      flush_if-Keeps config.group_commit config.sync_on_write w (flush_batch w) (flush config w)
        (Keeps-of_Flushes w (flush_batch w) (flush_batch-Flushes w end))
        (Keeps-of_Flushes w (flush config w) (flush-Flushes config w end))
        (kept_lem w w.file w.buffer refl end)

  -- One record more.
  pub record Grown (w w' : WalWriter ops) (bytes : Bytes) : Type 0 where
    pub longer : image w' ≡ image w ++ bytes
    pub at_end : file.AtEnd w'.file
    pub next_lsn : w'.current_lsn ≡ w.current_lsn + 1
    pub next_offset : w'.current_offset ≡ w.current_offset + length bytes
    pub same_active : w'.active_txns ≡ w.active_txns

  -- A record is added like this; or the file fails; or nothing has changed.
  abbrev Grows : WalWriter ops → Bytes → Status × WalWriter ops → Type 0
  Grows w bytes (err e, w') = (e ≡ io_error) ⊎ (w' ≡ w)
  Grows w bytes (ok u, w') = Grown w w' bytes

  -- Behind the test of the size.
  advance-Grows :
      (w : WalWriter ops) (bytes : Bytes) (r : Status × WalWriter ops)
      → Keeps (record w { buffer = w.buffer ++ bytes }) r
      → Grows w bytes (advance (length bytes) r)
  advance-Grows w bytes (err e, w') k = inl k
  advance-Grows w bytes (ok u, w') k = record {
    longer = k.same_image ∙ sym (append_assoc (file.content w.file) w.buffer bytes);
    at_end = k.at_end;
    next_lsn = omega (arith, k.same_lsn);
    next_offset = omega (arith, k.same_offset);
    same_active = k.same_active;
  }

  append_bytes-Grows :
      (config : WalWriterConfig) (w : WalWriter ops) (bytes : Bytes)
      → file.AtEnd w.file
      → Grows w bytes (append_bytes config w bytes)
  unfolding append_bytes
  append_bytes-Grows config w bytes end =
      let buffered : WalWriter ops = record w { buffer = w.buffer ++ bytes } in
      elim (Bool-cases (ltb config.max_wal_size (w.current_offset + length bytes))) [
        | inl full ↦ rw full (inr refl)
        | inr room ↦ elim (Bool-cases (should_flush config buffered.buffer)) [
          | inl due ↦
              rw (room, due)
                (advance-Grows w bytes (flush config buffered) (
                  Keeps-of_Flushes buffered (flush config buffered)
                    (flush-Flushes config buffered end)))
          | inr later ↦
              rw (room, later)
                (advance-Grows w bytes (ok tt, buffered)
                  (kept_lem buffered w.file buffered.buffer refl end))
        ]
      ]

  -- `write_record` adds the bytes of the record, fails in the file, or changes nothing.
  abbrev pub Writes :
      Crates → WalWriterConfig → WalWriter ops → RecordData → Draw → Status × WalWriter ops → Type 0
  Writes lib config w content draw (err e, w') = (e ≡ io_error) ⊎ (w' ≡ w)
  Writes lib config w content draw (ok u, w') =
      (bytes : Bytes) × (to_bytes lib (new_record config w content draw) config.encryption_key
          draw.nonce
        ≡ ok bytes)
      × Grown w w' bytes

  Writes-of_Grows :
      (lib : Crates) (config : WalWriterConfig) (w : WalWriter ops) (content : RecordData)
      (draw : Draw) (bytes : Bytes) (r : Status × WalWriter ops)
      → to_bytes lib (new_record config w content draw) config.encryption_key draw.nonce ≡ ok bytes
      → Grows w bytes r
      → Writes lib config w content draw r
  Writes-of_Grows lib config w content draw bytes (err e, w') b g = g
  Writes-of_Grows lib config w content draw bytes (ok u, w') b g = (bytes, b, g)

  append_encoded-Writes :
      (lib : Crates) (config : WalWriterConfig) (w : WalWriter ops) (content : RecordData)
      (draw : Draw) (encoded : WalResult Bytes)
      → file.AtEnd w.file
      → to_bytes lib (new_record config w content draw) config.encryption_key draw.nonce ≡ encoded
      → Writes lib config w content draw (append_encoded config w encoded)
  unfolding append_encoded
  append_encoded-Writes lib config w content draw (err e) end b = inr refl
  append_encoded-Writes lib config w content draw (ok bytes) end b =
      Writes-of_Grows lib config w content draw bytes (append_bytes config w bytes) b
        (append_bytes-Grows config w bytes end)

  pub write_record-Writes :
      (lib : Crates) (config : WalWriterConfig) (w : WalWriter ops) (content : RecordData)
      (draw : Draw)
      → file.AtEnd w.file
      → Writes lib config w content draw (write_record lib config w content draw)
  unfolding write_record
  write_record-Writes lib config w content draw end =
      append_encoded-Writes lib config w content draw
        (to_bytes lib (new_record config w content draw) config.encryption_key draw.nonce) end refl
