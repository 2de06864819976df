-- ===== src/Pager/Config.antt =====
-- src/pager/config.rs: compression, encryption and page sizes.
use nanostore.Prelude.{ℕ, ◌-◌, Option, none, some, ◌==◌, if◌then◌else◌, ◌≡◌, refl}

pub data CompressionType : Type 0 where
  uncompressed lz4 zstd : CompressionType

pub data EncryptionType : Type 0 where
  unencrypted aes256_gcm : EncryptionType

pub data PageSize : Type 0 where
  size_4kb size_8kb size_16kb size_32kb size_64kb : PageSize

-- `CompressionType::from_u8`
unfoldable pub compression_from_u8 : ℕ → Option CompressionType
compression_from_u8 value =
    if value == 0
    then some uncompressed
    else if value == 1
    then some lz4
    else if value == 2
    then some zstd
    else none

unfoldable pub compression_to_u8 : CompressionType → ℕ
compression_to_u8 uncompressed = 0
compression_to_u8 lz4 = 1
compression_to_u8 zstd = 2

-- `EncryptionType::from_u8`
unfoldable pub encryption_from_u8 : ℕ → Option EncryptionType
encryption_from_u8 value =
    if value == 0 then some unencrypted else if value == 1 then some aes256_gcm else none

unfoldable pub encryption_to_u8 : EncryptionType → ℕ
encryption_to_u8 unencrypted = 0
encryption_to_u8 aes256_gcm = 1

-- `PageSize::from_u32`
unfoldable pub page_size_from_u32 : ℕ → Option PageSize
page_size_from_u32 value =
    if value == 4096
    then some size_4kb
    else if value == 8192
    then some size_8kb
    else if value == 16384
    then some size_16kb
    else if value == 32768
    then some size_32kb
    else if value == 65536
    then some size_64kb
    else none

unfoldable pub page_size_to_u32 : PageSize → ℕ
page_size_to_u32 size_4kb = 4096
page_size_to_u32 size_8kb = 8192
page_size_to_u32 size_16kb = 16384
page_size_to_u32 size_32kb = 32768
page_size_to_u32 size_64kb = 65536

abbrev pub header_size : ℕ
header_size = 32

abbrev pub checksum_size : ℕ
checksum_size = 32

unfoldable pub data_size : PageSize → ℕ
unfolding page_size_to_u32
data_size p = page_size_to_u32 p - header_size - checksum_size

pub compression_from_u8-to_u8 :
    (c : CompressionType) → compression_from_u8 (compression_to_u8 c) ≡ some c
unfolding compression_from_u8 compression_to_u8
compression_from_u8-to_u8 uncompressed = refl
compression_from_u8-to_u8 _ = refl

pub encryption_from_u8-to_u8 :
    (e : EncryptionType) → encryption_from_u8 (encryption_to_u8 e) ≡ some e
unfolding encryption_from_u8 encryption_to_u8
encryption_from_u8-to_u8 unencrypted = refl
encryption_from_u8-to_u8 _ = refl

pub page_size_from_u32-to_u32 : (p : PageSize) → page_size_from_u32 (page_size_to_u32 p) ≡ some p
unfolding page_size_from_u32 page_size_to_u32
page_size_from_u32-to_u32 size_4kb = refl
page_size_from_u32-to_u32 _ = refl
