-- ===== src/Types/RoundTrip.antt =====
-- Encoding and decoding of `ValueRef` (src/types.rs).
use nanostore.Prelude.{◌≡◌, refl, arith}
use nanostore.Prelude.Bytes.{to_le, from_le-to_le}
use nanostore.Types.{ValueRef, inline, single_page, overflow_chain, InRange, ok, encode, decode}

-- A reference whose fields fit their widths is decoded from its encoding.
pub decode-encode : (r : ValueRef) → InRange r → decode (encode r) ≡ ok r
unfolding decode encode to_le
decode-encode inline h = refl
decode-encode (single_page p o l) h = rw (
  from_le-to_le 4 p (omega arith),
  from_le-to_le 2 o (omega arith),
  from_le-to_le 4 l (omega arith),
)
decode-encode (overflow_chain p t c) h = rw (
  from_le-to_le 4 p (omega arith),
  from_le-to_le 8 t (omega arith),
  from_le-to_le 4 c (omega arith),
)
