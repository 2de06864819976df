-- ===== src/Types.antt =====
-- src/types.rs: references to values that live in overflow pages, and their byte encoding.
pub mod RoundTrip
use nanostore.Prelude.{
  ℕ, ◌+◌, ◌<◌, ◌^◌, Bool, true, false, Option, none, some, List, [], ◌∷◌, ◌++◌, length, take, drop,
  ◌==◌, if◌then◌else◌,
}
use nanostore.Prelude.Bytes.{Bytes, to_le, from_le, slice}

pub data ValueRef : Type 0 where
  inline : ValueRef
  single_page : (page_id offset length : ℕ) → ValueRef
  overflow_chain : (first_page_id total_length page_count : ℕ) → ValueRef

unfoldable pub is_inline : ValueRef → Bool
is_inline inline = true
is_inline _ = false

unfoldable pub size_hint : ValueRef → Option ℕ
size_hint inline = none
size_hint (single_page page_id offset length) = some length
size_hint (overflow_chain first_page_id total_length page_count) = some total_length

unfoldable pub requires_overflow : ValueRef → Bool
requires_overflow inline = false
requires_overflow _ = true

pub data ValueRefDecodeError : Type 0 where
  insufficient_bytes : (expected actual : ℕ) → ValueRefDecodeError
  invalid_length : (variant expected actual : ℕ) → ValueRefDecodeError
  unknown_type : ℕ → ValueRefDecodeError

pub data DecodeResult : Type 0 where
  ok : ValueRef → DecodeResult
  err : ValueRefDecodeError → DecodeResult

abbrev pub type_inline : ℕ
type_inline = 0

abbrev pub type_single_page : ℕ
type_single_page = 1

abbrev pub type_overflow_chain : ℕ
type_overflow_chain = 2

unfoldable pub encode : ValueRef → Bytes
encode inline = type_inline ∷ []
encode (single_page page_id offset length) =
    type_single_page ∷ (to_le 4 page_id ++ (to_le 2 offset ++ to_le 4 length))
encode (overflow_chain first_page_id total_length page_count) =
    type_overflow_chain ∷ (to_le 4 first_page_id ++ (to_le 8 total_length ++ to_le 4 page_count))

-- The arms of `match bytes[0]`. A variant is named in an error by its type byte.
unfoldable pub decode_typed : ℕ → Bytes → DecodeResult
decode_typed type_byte bytes =
    if type_byte == type_inline
    then (if length bytes == 1
        then ok inline
        else err (invalid_length type_inline 1 (length bytes)))
    else if type_byte == type_single_page
    then (if length bytes == 11
        then ok (
            single_page (from_le (slice 1 5 bytes)) (from_le (slice 5 7 bytes))
              (from_le (slice 7 11 bytes)))
        else err (invalid_length type_single_page 11 (length bytes)))
    else if type_byte == type_overflow_chain
    then (if length bytes == 17
        then ok (
            overflow_chain (from_le (slice 1 5 bytes)) (from_le (slice 5 13 bytes))
              (from_le (slice 13 17 bytes)))
        else err (invalid_length type_overflow_chain 17 (length bytes)))
    else err (unknown_type type_byte)

unfoldable pub decode : Bytes → DecodeResult
unfolding decode_typed
decode [] = err (insufficient_bytes 1 0)
decode (type_byte ∷ rest) = decode_typed type_byte (type_byte ∷ rest)

-- The widths of the fields: `u32`, `u16` and `u64`.
abbrev pub InRange : ValueRef → Type 0
InRange inline = Unit
InRange (single_page page_id offset length) =
    (page_id < 2 ^ 32) × (offset < 2 ^ 16) × (length < 2 ^ 32)
InRange (overflow_chain first_page_id total_length page_count) =
    (first_page_id < 2 ^ 32) × (total_length < 2 ^ 64) × (page_count < 2 ^ 32)
