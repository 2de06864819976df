-- ===== src/Tests/Records.antt =====
-- Records and their bytes (src/wal/record.rs), over plain stand-ins for the crates.
use nanostore.Prelude.{
  ◌≡◌, ◌≤◌, ◌<◌, ◌^◌, refl, some, [], ◌∷◌, ◌++◌, arith, length, take, replicate, ltb, if◌then◌else◌,
}
use nanostore.Prelude.Bytes.{Bytes, to_le}
use nanostore.Pager.Config.{lz4, aes256_gcm}
use nanostore.Wal.Error.{ok, err, invalid_record}
use nanostore.Wal.Record.{RecordData, write, put, serialize_data}
use nanostore.Wal.Record.Data.{InRange}
use nanostore.Wal.Record.Frame.{Crates, IsSound, WalRecord, min_size, frame, to_bytes, from_bytes}
use nanostore.Wal.Record.Frame.RoundTrip.{from_bytes-to_bytes}
use nanostore.Wal.Record.Frame.Torn.{from_bytes-take}

-- A digest of zeros, and codecs that leave the bytes as they are.
abbrev pub plain : Crates
plain = record {
  sha256 = λ b. replicate 32 0;
  lz4_compress = λ b. b;
  lz4_decompress = λ b. some b;
  zstd_encode = λ b. some b;
  zstd_decode = λ b. some b;
  aes_encrypt = λ key nonce b. some b;
  aes_decrypt = λ key nonce b. some b;
}

pub plain-IsSound : IsSound plain
plain-IsSound = record {
  length-sha256 = λ b. refl;
  lz4_lem = λ b. refl;
  zstd_lem = λ b c h. ground arith;
  aes_lem = λ key nonce b c h. ground arith;
}

abbrev content : RecordData
content = write 5 1 put (0x61 ∷ []) (7 ∷ 8 ∷ [])

content-InRange : InRange content
content-InRange = ground arith

abbrev sealed : WalRecord
sealed = record {
  lsn = 258;
  timestamp = 1700000000;
  content = content;
  compression = lz4;
  encryption = aes256_gcm;
}

abbrev nonce : Bytes
nonce = replicate 12 9

abbrev key : Bytes
key = replicate 32 1

abbrev sealed_bytes : Bytes
sealed_bytes =
    frame plain sealed (length (serialize_data content)) (nonce ++ serialize_data content)
    ++ replicate 32 0

sealed_lem : to_bytes plain sealed (some key) nonce ≡ ok sealed_bytes
unfolding to_bytes
sealed_lem = refl

sealed_long : min_size ≤ length sealed_bytes
unfolding frame serialize_data to_le
sealed_long = ground arith

sealed_short : length sealed_bytes < 2 ^ 32
unfolding frame serialize_data to_le
sealed_short = ground arith

from_bytes-to_bytes_example : from_bytes plain (sealed_bytes ++ (1 ∷ 2 ∷ [])) (some key) ≡ ok sealed
from_bytes-to_bytes_example =
    from_bytes-to_bytes plain plain-IsSound sealed (some key) nonce sealed_bytes (1 ∷ 2 ∷ [])
      (ground arith) (ground arith) content-InRange refl sealed_long sealed_short sealed_lem

sealed_cut : 100 < length sealed_bytes
unfolding frame serialize_data to_le
sealed_cut = ground arith

from_bytes-take_example :
    from_bytes plain (take 100 sealed_bytes) (some key)
    ≡ err (invalid_record (if ltb 100 min_size then 0 else 258))
from_bytes-take_example =
    from_bytes-take plain sealed (some key) nonce sealed_bytes 100 plain-IsSound (ground arith)
      sealed_short sealed_lem sealed_cut
