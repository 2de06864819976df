-- ===== src/Table/Bloom/Bits.antt =====
-- The bits of a byte under `|` and `&` (src/table/bloom/memory.rs).
use Prim.Native.Nat.{bit_and, bit_and-bitwise, bit_or, bit_or-bitwise, digits, min, max}
use native.Mathlib.Nat.{pow-suc}
use nanostore.Prelude.{
  ℕ, zero, suc, ◌+◌, ◌*◌, ◌/◌, ◌%◌, ◌^◌, ◌≤◌, ◌<◌, ◌≡◌, ◌≢◌, refl, ap, ◌∙◌, not, ◌==◌, arith,
}

-- The bit `i` of a number, 0 or 1.
abbrev pub bit : ℕ → ℕ → ℕ
bit zero a = a % 2
bit (suc i) a = bit i (a / 2)

bit-zero : (i : ℕ) → bit i 0 ≡ 0
bit-zero zero = omega arith
bit-zero (suc i) = bit-zero i

half : (x d : ℕ) → d ≤ 1 → (x * 2 + d) / 2 ≡ x
half x d h = omega arith

half-pow : (i : ℕ) → 2 ^ suc i / 2 ≡ 2 ^ i
half-pow i = rw pow-suc (omega arith)

pub bit-pow : (i : ℕ) → bit i (2 ^ i) ≡ 1
bit-pow zero = omega arith
bit-pow (suc i) = ap (bit i) (half-pow i) ∙ bit-pow i

pub bit_le : (i a : ℕ) → bit i a ≤ 1
bit_le zero a = omega arith
bit_le (suc i) a = bit_le i (a / 2)

or_digits : (i n a b : ℕ) → a ≤ n → bit i (digits (λ b. b) max n a b) ≡ max (bit i a) (bit i b)
or_digits i zero zero b h = omega (arith, bit-zero i)
or_digits i (suc n) zero b h = omega (arith, bit-zero i)
or_digits i zero (suc a) b h = absurd (omega arith)
or_digits zero (suc n) (suc a) b h = omega arith
or_digits (suc i) (suc n) (suc a) b h =
    ap (bit i) (half _ _ (omega arith)) ∙ or_digits i n (suc a / 2) (b / 2) (omega arith)

and_zero : (n a : ℕ) → digits (λ b. 0) min n a 0 ≡ 0
and_zero zero zero = refl
and_zero (suc n) zero = refl
and_zero zero (suc a) = refl
and_zero (suc n) (suc a) = omega (arith, and_zero n (suc a / 2))

and_digits : (i n a : ℕ) → a ≤ n → digits (λ b. 0) min n a (2 ^ i) ≡ bit i a * 2 ^ i
and_digits i zero zero h = rw bit-zero (omega arith)
and_digits i (suc n) zero h = rw bit-zero (omega arith)
and_digits i zero (suc a) h = absurd (omega arith)
and_digits zero (suc n) (suc a) h = omega (arith, and_zero n (suc a / 2))
and_digits (suc i) (suc n) (suc a) h =
    rw (half-pow i, and_digits i n (suc a / 2) (omega arith), pow-suc) (omega arith)

pub bit_or_lem : (i a b : ℕ) → bit i (bit_or a b) ≡ max (bit i a) (bit i b)
bit_or_lem i a b = ap (bit i) (bit_or-bitwise a b) ∙ or_digits i a a b (omega arith)

pub bit-pow_other : (i j : ℕ) → i ≢ j → bit i (2 ^ j) ≡ 0
bit-pow_other zero zero n = absurd (n refl)
bit-pow_other zero (suc j) n = rw pow-suc (omega arith)
bit-pow_other (suc i) zero n = bit-zero i
bit-pow_other (suc i) (suc j) n = ap (bit i) (half-pow j) ∙ bit-pow_other i j (λ e. n (ap suc e))

pow_pos : (i : ℕ) → 0 < 2 ^ i
pow_pos zero = omega arith
pow_pos (suc i) = rw pow-suc (omega (arith, pow_pos i))

tested : (b p : ℕ) → b ≤ 1 → 0 < p → not (b * p == 0) ≡ (b == 1)
tested zero p h h₁ = ground arith
tested (suc zero) p h h₁ = ground arith
tested (suc (suc b)) p h h₁ = absurd (omega arith)

-- `byte & (1 << i) != 0`
pub bit_and_lem : (i a : ℕ) → not (bit_and a (2 ^ i) == 0) ≡ (bit i a == 1)
bit_and_lem i a =
    ap (λ b. not (b == 0)) (bit_and-bitwise a (2 ^ i) ∙ and_digits i a a (omega arith))
    ∙ tested _ _ (bit_le i a) (pow_pos i)
