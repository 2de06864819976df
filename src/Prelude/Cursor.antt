-- ===== src/Prelude/Cursor.antt =====
-- Reading bytes at a cursor: what lies there, and an integer that was written there.
use mathlib.Core.Path.{◌≡◌, refl}
use mathlib.Core.List.{List, [], ◌∷◌, ◌++◌}
use Prim.Native.Nat.{ℕ, ◌+◌, ◌<◌, ◌^◌}
use native.Mathlib.Omega.{arith}
use nanostore.Prelude.Lists.{length, drop, length-append, drop-append, take-append, drop-add}
use nanostore.Prelude.Bytes.{Bytes, bytes_at, to_le, from_le, from_le-to_le, length-to_le}

abbrev pub AllU64 : List ℕ → Type 0
AllU64 [] = Unit
AllU64 (t ∷ ts) = (t < 2 ^ 64) × AllU64 ts

-- At `cursor` the bytes go on with `rest`.
pub record At (cursor : ℕ) (bytes rest : Bytes) : Type 0 where
  pub here : drop cursor bytes ≡ rest
  pub room : cursor + length rest ≡ length bytes

pub At-start : (bytes : Bytes) → At 0 bytes bytes
At-start bytes = record { here = refl; room = omega arith }

pub At-step :
    (n cursor : ℕ) (bytes field rest : Bytes)
    → length field ≡ n
    → At cursor bytes (field ++ rest)
    → At (cursor + n) bytes rest
At-step n cursor bytes field rest e a = record {
  here = rw (drop-add cursor n bytes, a.here) (drop-append n field rest e);
  room = omega (arith, a.room, length-append field rest);
}

pub le-At :
    (n cursor x : ℕ) (bytes rest : Bytes)
    → x < 256 ^ n
    → At cursor bytes (to_le n x ++ rest)
    → (from_le (bytes_at cursor n bytes) ≡ x) × (cursor + n + length rest ≡ length bytes)
le-At n cursor x bytes rest h a = ground (
  arith,
  a.here,
  a.room,
  length-append (to_le n x) rest,
  length-to_le n x,
  take-append n (to_le n x) rest (length-to_le n x),
  from_le-to_le n x h,
)
