-- ===== src/Prelude/Bytes.antt =====
-- Bytes as numbers below 256, `&bytes[i..j]`, and the little-endian integers of `to_le_bytes` and
-- `from_le_bytes`.
use Prim.Native.Nat.{ℕ, zero, suc, ◌+◌, ◌-◌, ◌*◌, ◌/◌, ◌%◌, ◌^◌, ◌<◌}
use mathlib.Core.Path.{◌≡◌, refl, ap}
use mathlib.Core.Bool.{Bool, true, false, ◌&&◌}
use mathlib.Core.List.{List, [], ◌∷◌}
use native.Mathlib.Omega.{arith}
use native.Mathlib.Nat.{pow-suc}
use nanostore.Prelude.Tests.{◌==◌}
use nanostore.Prelude.Lists.{length, take, drop}

abbrev pub Bytes : Type 0
Bytes = List ℕ

abbrev pub AllBytes : Bytes → Type 0
AllBytes [] = Unit
AllBytes (b ∷ bs) = (b < 256) × AllBytes bs

-- `&bytes[i..j]` where `i <= j <= bytes.len()`
abbrev pub slice : ℕ → ℕ → Bytes → Bytes
slice i j bytes = take (j - i) (drop i bytes)

-- `&bytes[cursor..cursor + n]` where `cursor + n <= bytes.len()`
abbrev pub bytes_at : ℕ → ℕ → Bytes → Bytes
bytes_at cursor n bytes = take n (drop cursor bytes)

-- `x.to_le_bytes()` of an integer of `n` bytes
unfoldable pub to_le : ℕ → ℕ → Bytes
to_le zero x = []
to_le (suc n) x = (x % 256) ∷ to_le n (x / 256)

-- `from_le_bytes`
unfoldable pub from_le : Bytes → ℕ
from_le [] = 0
from_le (b ∷ bs) = b + 256 * from_le bs

pub length-to_le : (n x : ℕ) → length (to_le n x) ≡ n
unfolding to_le
length-to_le zero x = refl
length-to_le (suc n) x = ap suc (length-to_le n (x / 256))

-- An integer of `n` bytes comes back.
pub from_le-to_le : (n x : ℕ) → x < 256 ^ n → from_le (to_le n x) ≡ x
unfolding to_le from_le
from_le-to_le zero x h = omega arith
from_le-to_le (suc n) x h =
    let h' : x < 256 ^ n * 256 = rw pow-suc at h in
    omega (arith, from_le-to_le n (x / 256) (omega arith))

low : (b r : ℕ) → b < 256 → (b + 256 * r) % 256 ≡ b
low b r h = omega arith

high : (b r : ℕ) → b < 256 → (b + 256 * r) / 256 ≡ r
high b r h = omega arith

-- `==` on byte slices
unfoldable pub bytes_eq : Bytes → Bytes → Bool
bytes_eq [] [] = true
bytes_eq [] (y ∷ ys) = false
bytes_eq (x ∷ xs) [] = false
bytes_eq (x ∷ xs) (y ∷ ys) = (x == y) && bytes_eq xs ys

pub bytes_eq_refl : (xs : Bytes) → bytes_eq xs xs ≡ true
unfolding bytes_eq
bytes_eq_refl [] = refl
bytes_eq_refl (x ∷ xs) = ground (arith, bytes_eq_refl xs)

pub bytes_eq_sound : (xs ys : Bytes) → bytes_eq xs ys ≡ true → xs ≡ ys
unfolding bytes_eq
bytes_eq_sound [] [] h = refl
bytes_eq_sound [] (y ∷ ys) h = cc
bytes_eq_sound (x ∷ xs) [] h = cc
bytes_eq_sound (x ∷ xs) (y ∷ ys) h = ground (arith, bytes_eq_sound xs ys)
