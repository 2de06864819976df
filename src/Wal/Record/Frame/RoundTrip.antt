-- ===== src/Wal/Record/Frame/RoundTrip.antt =====
-- A framed record is read back, with whatever follows it (src/wal/record.rs).
use mathlib.Core.List.{append_assoc}
use nanostore.Prelude.{
  ℕ, ◌+◌, ◌%◌, ◌^◌, ◌<◌, ◌≤◌, ◌≡◌, refl, ap, ◌∙◌, Option, none, some, ◌∷◌, ◌++◌, length, ltb,
  get_or, arith, length-append, drop-append, take-append, false, true, Option-cases, inl, inr,
}
use nanostore.Prelude.Bytes.{
  Bytes, to_le, from_le, bytes_at, bytes_eq, bytes_eq_refl, from_le-to_le,
}
use nanostore.Pager.Config.{
  CompressionType, uncompressed, lz4, zstd, EncryptionType, unencrypted, aes256_gcm,
  compression_to_u8, encryption_to_u8, compression_from_u8-to_u8, encryption_from_u8-to_u8,
}
use nanostore.Wal.Error.{ok, >>=-eq-ok}
use nanostore.Wal.Record.{
  RecordType, record_type, type_to_u8, type_from_u8, serialize_data, deserialize_data,
}
use nanostore.Wal.Record.Data.{InRange, deserialize-serialize}
use nanostore.Wal.Record.Frame.{
  Crates, IsSound, WalRecord, magic, min_size, compress, encrypt, frame, to_bytes, decrypt,
  decompress, checked, from_bytes,
}

pub type_from_u8-to_u8 : (t : RecordType) → type_from_u8 (type_to_u8 t) ≡ ok t
unfolding type_from_u8 type_to_u8
type_from_u8-to_u8 RecordType.begin = refl
type_from_u8-to_u8 _ = refl

-- The 31 bytes in front of what is stored.
pub header : WalRecord → (uncompressed_size stored_size : ℕ) → Bytes
header r uncompressed_size stored_size =
    magic
    ++ (to_le 8 r.lsn
        ++ (to_le 8 r.timestamp
            ++ (type_to_u8 (record_type r.content)
                ∷ compression_to_u8 r.compression
                ∷ encryption_to_u8 r.encryption
                ∷ (to_le 4 (uncompressed_size % 2 ^ 32) ++ to_le 4 (stored_size % 2 ^ 32)))))

pub length-header : (r : WalRecord) (u s : ℕ) → length (header r u s) ≡ 31
unfolding header to_le
length-header r u s = refl

frame-header :
    (lib : Crates) (r : WalRecord) (u : ℕ) (final : Bytes)
    → frame lib r u final ≡ header r u (length final) ++ final
unfolding frame header to_le
frame-header lib r u final = refl

-- How `to_bytes` came to its result.
pub record Written (lib : Crates) (r : WalRecord) (key : Option Bytes) (nonce bytes : Bytes)
    : Type 0 where
  pub compressed : Bytes
  pub final : Bytes
  pub deflated : compress lib r.compression r.lsn (serialize_data r.content) ≡ ok compressed
  pub encrypted : encrypt lib r.encryption r.lsn key nonce compressed ≡ ok final
  pub whole :
      bytes
      ≡ (header r (length (serialize_data r.content)) (length final) ++ final)
        ++ lib.sha256 (header r (length (serialize_data r.content)) (length final) ++ final)

pub written :
    (lib : Crates) (r : WalRecord) (key : Option Bytes) (nonce bytes : Bytes)
    → to_bytes lib r key nonce ≡ ok bytes
    → Written lib r key nonce bytes
unfolding to_bytes
written lib r key nonce bytes h =
    let serialized = serialize_data r.content in
    let (compressed, c, h₁) = >>=-eq-ok (compress lib r.compression r.lsn serialized) _ h in
    let (final, e, h₂) = >>=-eq-ok (encrypt lib r.encryption r.lsn key nonce compressed) _ h₁ in
    record {
      compressed = compressed;
      final = final;
      deflated = c;
      encrypted = e;
      whole = ground (arith, frame-header lib r (length serialized) final);
    }

pub length-Written :
    (lib : Crates) (sound : IsSound lib) (r : WalRecord) (key : Option Bytes) (nonce bytes : Bytes)
    (w : Written lib r key nonce bytes)
    → length bytes ≡ 63 + length w.final
length-Written lib sound r key nonce bytes w =
    let head = header r (length (serialize_data r.content)) (length w.final) in
    omega (
      arith,
      ap length w.whole,
      length-append (head ++ w.final) (lib.sha256 (head ++ w.final)),
      length-append head w.final,
      length-header r (length (serialize_data r.content)) (length w.final),
      sound.length-sha256 (head ++ w.final),
    )

long_tail :
    (final sum rest : Bytes)
    → 4 ≤ length final
    → length sum ≡ 32
    → 36 ≤ length (final ++ (sum ++ rest))
long_tail final sum rest h e =
    omega (arith, length-append final (sum ++ rest), length-append sum rest)

-- What `from_bytes` reads out of a header.
module _ (r : WalRecord) (u s : ℕ) (tail : Bytes) where
  abbrev pub framed : Bytes
  framed = header r u s ++ tail

  pub read_length : 36 ≤ length tail → ltb (length framed) min_size ≡ false
  read_length h = ground (arith, length-append (header r u s) tail, length-header r u s)

  pub read_magic : bytes_eq (bytes_at 0 4 framed) magic ≡ true
  unfolding header to_le bytes_eq
  read_magic = refl

  pub read_lsn : r.lsn < 2 ^ 64 → from_le (bytes_at 4 8 framed) ≡ r.lsn
  unfolding header to_le
  read_lsn h = from_le-to_le 8 r.lsn (omega (arith, h))

  read_timestamp : r.timestamp < 2 ^ 64 → from_le (bytes_at 12 8 framed) ≡ r.timestamp
  unfolding header to_le
  read_timestamp h = from_le-to_le 8 r.timestamp (omega (arith, h))

  pub read_codes :
      (get_or framed 20 0 ≡ type_to_u8 (record_type r.content))
      × (get_or framed 21 0 ≡ compression_to_u8 r.compression)
      × (get_or framed 22 0 ≡ encryption_to_u8 r.encryption)
  unfolding header to_le
  read_codes = (refl, refl, refl)

  pub read_stored_size : s < 2 ^ 32 → from_le (bytes_at 27 4 framed) ≡ s
  unfolding header to_le
  read_stored_size h =
      let e : s % 2 ^ 32 ≡ s = omega (arith, h) in from_le-to_le 4 (s % 2 ^ 32) (omega arith) ∙ e

module _ (lib : Crates) (sound : IsSound lib) where
  -- The body of a frame: what is stored, its checksum and what follows.
  checked_lem :
      (lsn stored_size : ℕ) (header final rest : Bytes)
      → length header ≡ 31
      → length final ≡ stored_size
      → checked lib lsn stored_size (header ++ (final ++ (lib.sha256 (header ++ final) ++ rest)))
        ≡ ok final
  unfolding checked
  checked_lem lsn stored_size header final rest h e =
      let body = header ++ final in
      let sum = lib.sha256 body in
      let size : length body ≡ 31 + stored_size = omega (arith, length-append header final) in
      ground (
        arith,
        append_assoc header final (sum ++ rest),
        size,
        sound.length-sha256 body,
        length-append body (sum ++ rest),
        length-append sum rest,
        take-append (31 + stored_size) body (sum ++ rest) size,
        drop-append (31 + stored_size) body (sum ++ rest) size,
        take-append 32 sum rest (sound.length-sha256 body),
        bytes_eq_refl sum,
        drop-append 31 header (final ++ (sum ++ rest)) h,
        take-append stored_size final (sum ++ rest) e,
      )

  decompress-compress :
      (c : CompressionType) (lsn : ℕ) (b x : Bytes)
      → compress lib c lsn b ≡ ok x
      → decompress lib c x ≡ ok b
  unfolding compress decompress
  decompress-compress uncompressed lsn b x h = ground arith
  decompress-compress lz4 lsn b x h = ground (arith, sound.lz4_lem b)
  decompress-compress zstd lsn b x h = ground (arith, sound.zstd_lem b x)

  decrypt-encrypt :
      (e : EncryptionType) (lsn : ℕ) (key : Option Bytes) (nonce b x : Bytes)
      → length nonce ≡ 12
      → encrypt lib e lsn key nonce b ≡ ok x
      → decrypt lib e key x ≡ ok b
  unfolding encrypt decrypt
  decrypt-encrypt unencrypted lsn key nonce b x n h = ground arith
  decrypt-encrypt aes256_gcm lsn none nonce b x n h = absurd (ground arith)
  decrypt-encrypt aes256_gcm lsn (some key) nonce b x n h =
      elim (Option-cases (lib.aes_encrypt key nonce b)) [
        | inl failed ↦ absurd (ground arith)
        | inr (c, encrypted) ↦
            let p : x ≡ nonce ++ c = ground arith in
            rw p (
              ground (
                arith,
                length-append nonce c,
                take-append 12 nonce c n,
                drop-append 12 nonce c n,
                sound.aes_lem key nonce b c encrypted,
              ))
      ]

  -- Reading goes through the header, then the body, then the data.
  from_bytes-header :
      (r : WalRecord) (key : Option Bytes) (u s : ℕ) (tail final compressed serialized : Bytes)
      → r.lsn < 2 ^ 64
      → r.timestamp < 2 ^ 64
      → s < 2 ^ 32
      → 36 ≤ length tail
      → checked lib r.lsn s (header r u s ++ tail) ≡ ok final
      → decrypt lib r.encryption key final ≡ ok compressed
      → decompress lib r.compression compressed ≡ ok serialized
      → deserialize_data (record_type r.content) serialized ≡ ok r.content
      → from_bytes lib (header r u s ++ tail) key ≡ ok r
  unfolding from_bytes
  from_bytes-header r key u s tail final compressed serialized l t f long b dec inf des =
      let (kind, comp, enc) = read_codes r u s tail in
      rw (
        read_length r u s tail long,
        read_magic r u s tail,
        read_lsn r u s tail l,
        read_timestamp r u s tail t,
        kind,
        comp,
        enc,
        type_from_u8-to_u8 (record_type r.content),
        compression_from_u8-to_u8 r.compression,
        encryption_from_u8-to_u8 r.encryption,
        read_stored_size r u s tail f,
        b,
        dec,
        inf,
        des,
      )

  -- A record whose fields fit, framed with a nonce of 12 bytes into at least 67 and fewer than 2^32
  -- bytes, is read back with the same key, whatever bytes follow it.
  pub from_bytes-to_bytes :
      (r : WalRecord) (key : Option Bytes) (nonce bytes rest : Bytes)
      → r.lsn < 2 ^ 64
      → r.timestamp < 2 ^ 64
      → InRange r.content
      → length nonce ≡ 12
      → min_size ≤ length bytes
      → length bytes < 2 ^ 32
      → to_bytes lib r key nonce ≡ ok bytes
      → from_bytes lib (bytes ++ rest) key ≡ ok r
  from_bytes-to_bytes r key nonce bytes rest l t d n long fits h =
      let w = written lib r key nonce bytes h in
      let head = header r (length (serialize_data r.content)) (length w.final) in
      let sum = lib.sha256 (head ++ w.final) in
      let sizes = length-Written lib sound r key nonce bytes w in
      let split : bytes ++ rest ≡ head ++ (w.final ++ (sum ++ rest)) =
        ap (λ b. b ++ rest) w.whole
        ∙ append_assoc (head ++ w.final) sum rest
        ∙ append_assoc head w.final (sum ++ rest) in
      rw split (
        from_bytes-header r key (length (serialize_data r.content)) (length w.final)
          (w.final ++ (sum ++ rest)) w.final w.compressed (serialize_data r.content) l t
          (omega (arith, sizes))
          (long_tail w.final sum rest (omega arith) (sound.length-sha256 (head ++ w.final)))
          (checked_lem r.lsn (length w.final) head w.final rest (length-header r _ _) refl)
          (decrypt-encrypt r.encryption r.lsn key nonce w.compressed w.final n w.encrypted)
          (decompress-compress r.compression r.lsn (serialize_data r.content) w.compressed
            w.deflated)
          (deserialize-serialize r.content d))
