-- ===== src/Wal/Record/Frame.antt =====
-- `WalRecord` of src/wal/record.rs: the frame around a record's data, with compression, encryption
-- and the checksum. SHA-256, LZ4, Zstd and AES-256-GCM are parameters; the nonce that the source
-- draws at random is an argument.
pub mod RoundTrip
pub mod Torn
use nanostore.Prelude.{
  ℕ, ◌+◌, ◌%◌, ◌^◌, ◌<◌, ◌≡◌, Option, none, some, List, [], ◌∷◌, ◌++◌, length, take, drop, ltb,
  get_or, if◌then◌else◌, not,
}
use nanostore.Prelude.Bytes.{Bytes, to_le, from_le, bytes_at, bytes_eq}
use nanostore.Pager.Config.{
  CompressionType, uncompressed, lz4, zstd, EncryptionType, unencrypted, aes256_gcm,
  compression_from_u8, compression_to_u8, encryption_from_u8, encryption_to_u8,
}
use nanostore.Wal.Error.{
  WalResult, ok, err, invalid_record, deserialization_error, serialization_error, checksum_mismatch,
  missing_encryption_key, encryption_error, decryption_error, ◌>>=◌, ok_or,
}
use nanostore.Wal.Record.{
  RecordData, record_type, type_to_u8, type_from_u8, serialize_data, deserialize_data,
}

-- The crates that the record format calls.
pub record Crates : Type 0 where
  pub sha256 : Bytes → Bytes
  pub lz4_compress : Bytes → Bytes
  pub lz4_decompress : Bytes → Option Bytes
  pub zstd_encode : Bytes → Option Bytes
  pub zstd_decode : Bytes → Option Bytes
  pub aes_encrypt : (key nonce plaintext : Bytes) → Option Bytes
  pub aes_decrypt : (key nonce ciphertext : Bytes) → Option Bytes

-- What the code relies on: a digest has 32 bytes, and what was compressed or encrypted comes back.
pub record IsSound (lib : Crates) : Type 0 where
  pub length-sha256 : (b : Bytes) → length (lib.sha256 b) ≡ 32
  pub lz4_lem : (b : Bytes) → lib.lz4_decompress (lib.lz4_compress b) ≡ some b
  pub zstd_lem : (b c : Bytes) → lib.zstd_encode b ≡ some c → lib.zstd_decode c ≡ some b
  pub aes_lem :
      (key nonce b c : Bytes)
      → lib.aes_encrypt key nonce b ≡ some c
      → lib.aes_decrypt key nonce c ≡ some b

pub record WalRecord : Type 0 where
  pub lsn : ℕ
  pub timestamp : ℕ
  pub content : RecordData
  pub compression : CompressionType
  pub encryption : EncryptionType

-- "WALR"
abbrev pub magic : Bytes
magic = 0x57 ∷ 0x41 ∷ 0x4C ∷ 0x52 ∷ []

-- the minimum size of a record
abbrev pub min_size : ℕ
min_size = 67

module _ (lib : Crates) where
  -- `match self.compression` of `to_bytes`
  unfoldable pub compress : CompressionType → ℕ → Bytes → WalResult Bytes
  compress uncompressed lsn bytes = ok bytes
  compress lz4 lsn bytes = ok (lib.lz4_compress bytes)
  compress zstd lsn bytes = ok_or (lib.zstd_encode bytes) (serialization_error lsn)

  -- `match self.encryption` of `to_bytes`
  unfoldable pub encrypt :
      EncryptionType → ℕ → Option Bytes → (nonce : Bytes) → Bytes → WalResult Bytes
  encrypt unencrypted lsn encryption_key nonce bytes = ok bytes
  encrypt aes256_gcm lsn encryption_key nonce bytes = do
    key ← ok_or encryption_key missing_encryption_key
    encrypted ← ok_or (lib.aes_encrypt key nonce bytes) (encryption_error lsn)
    ok (nonce ++ encrypted)

  -- the buffer before the checksum is appended
  unfoldable pub frame : WalRecord → (uncompressed_size : ℕ) → Bytes → Bytes
  unfolding type_to_u8 record_type compression_to_u8 encryption_to_u8
  frame r uncompressed_size final_data =
      magic
      ++ (to_le 8 r.lsn
          ++ (to_le 8 r.timestamp
              ++ (type_to_u8 (record_type r.content)
                  ∷ compression_to_u8 r.compression
                  ∷ encryption_to_u8 r.encryption
                  ∷ (to_le 4 (uncompressed_size % 2 ^ 32)
                      ++ (to_le 4 (length final_data % 2 ^ 32) ++ final_data)))))

  unfoldable pub to_bytes : WalRecord → Option Bytes → (nonce : Bytes) → WalResult Bytes
  unfolding compress encrypt frame serialize_data
  to_bytes r encryption_key nonce = do
    let data_bytes = serialize_data r.content
    compressed_data ← compress r.compression r.lsn data_bytes
    final_data ← encrypt r.encryption r.lsn encryption_key nonce compressed_data
    let buffer = frame r (length data_bytes) final_data
    ok (buffer ++ lib.sha256 buffer)

  -- `match encryption` of `from_bytes`, where the cursor is at 31
  unfoldable pub decrypt : EncryptionType → Option Bytes → Bytes → WalResult Bytes
  decrypt unencrypted encryption_key stored_data = ok stored_data
  decrypt aes256_gcm encryption_key stored_data = do
    key ← ok_or encryption_key missing_encryption_key
    if ltb (length stored_data) 12
        then err (decryption_error 31)
        else ok_or (lib.aes_decrypt key (take 12 stored_data) (drop 12 stored_data))
            (decryption_error 31)

  -- `match compression` of `from_bytes`
  unfoldable pub decompress : CompressionType → Bytes → WalResult Bytes
  decompress uncompressed bytes = ok bytes
  decompress lz4 bytes = ok_or (lib.lz4_decompress bytes) (deserialization_error 31)
  decompress zstd bytes = ok_or (lib.zstd_decode bytes) (deserialization_error 31)

  -- `from_bytes` from the test for an incomplete record to the stored data, the cursor at 31
  unfoldable pub checked : ℕ → ℕ → Bytes → WalResult Bytes
  checked lsn stored_size bytes =
      if ltb (length bytes) (31 + stored_size + 32)
      then err (invalid_record lsn)
      else (let data_end = 31 + stored_size in
          let expected_checksum = bytes_at data_end 32 bytes in
          let actual_checksum = lib.sha256 (take data_end bytes) in
          if not (bytes_eq expected_checksum actual_checksum)
          then err (
              checksum_mismatch lsn 0 (from_le (take 4 expected_checksum))
                (from_le (take 4 actual_checksum)))
          else ok (bytes_at 31 stored_size bytes))

  unfoldable pub from_bytes : Bytes → Option Bytes → WalResult WalRecord
  from_bytes bytes encryption_key =
      if ltb (length bytes) min_size
      then err (invalid_record 0)
      else if not (bytes_eq (bytes_at 0 4 bytes) magic)
      then err (invalid_record 0)
      else (do
        let lsn = from_le (bytes_at 4 8 bytes)
        let timestamp = from_le (bytes_at 12 8 bytes)
        kind ← type_from_u8 (get_or bytes 20 0)
        compression ← ok_or (compression_from_u8 (get_or bytes 21 0)) (deserialization_error 21)
        encryption ← ok_or (encryption_from_u8 (get_or bytes 22 0)) (deserialization_error 22)
        let stored_size = from_le (bytes_at 27 4 bytes)
        stored_data ← checked lsn stored_size bytes
        compressed_data ← decrypt encryption encryption_key stored_data
        data_bytes ← decompress compression compressed_data
        content ← deserialize_data kind data_bytes
        ok (record {
          lsn = lsn;
          timestamp = timestamp;
          content = content;
          compression = compression;
          encryption = encryption;
        }))
