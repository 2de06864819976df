-- ===== src/Table/Bloom/Members.antt =====
-- What a Bloom filter holds (src/table/bloom/memory.rs): the positions of a key, and the bits that
-- insertions set.
use Prim.Native.Nat.{bit_or}
use mathlib.Core.Path.{subst}
use native.Mathlib.Nat.{mod-lt}
use nanostore.Prelude.{
  ℕ, zero, suc, ◌+◌, ◌*◌, ◌/◌, ◌%◌, ◌^◌, ◌≤◌, ◌<◌, ◌≡◌, refl, ap, sym, ◌∙◌, Bool, true, ◌&&◌, ◌||◌,
  some, List, [], ◌∷◌, ◌++◌, length, get_elem?, get_or, set, ◌==◌, if◌then◌else◌, arith, ℕ_discrete,
}
use nanostore.Prelude.Bytes.{Bytes}
use nanostore.Prelude.Members.{member}
use nanostore.Table.Bloom.{
  BloomFilter, hash_key, get_bit_position, set_bit, get_bit, set_bits, get_bits,
}
use nanostore.Table.Bloom.Bits.{bit, bit_le, bit-pow, bit-pow_other, bit_or_lem, bit_and_lem}

-- A filter that has bits, and bytes for all of them.
abbrev pub IsSized : BloomFilter → Type 0
IsSized f = (0 < f.num_bits) × (f.num_bits ≤ length f.bits * 8)

-- The bit at a position, 0 or 1.
abbrev pub bit_of : BloomFilter → ℕ → ℕ
bit_of f pos = bit (pos % 8) (get_or f.bits (pos / 8) 0)

-- The position of the round `i` in a filter of `m` bits, and the positions of `n` rounds from `i` on.
abbrev pub position : ℕ → ℕ × ℕ → ℕ → ℕ
position m h i = ((h.0 + (i * h.1) % 2 ^ 64) % 2 ^ 64) % m

abbrev pub rounds : ℕ → ℕ → ℕ × ℕ → ℕ → List ℕ
rounds zero i h m = []
rounds (suc n) i h m = position m h i ∷ rounds n (suc i) h m

abbrev pub positions : BloomFilter → Bytes → List ℕ
positions f key = rounds f.num_hash_functions 0 (hash_key key) f.num_bits

-- Whether every position is set in `f` or in `us`.
abbrev pub all_covered : BloomFilter → List ℕ → List ℕ → Bool
all_covered f us [] = true
all_covered f us (p ∷ ps) = ((bit_of f p == 1) || member p us) && all_covered f us ps

some_elem : (xs : Bytes) (i : ℕ) → i < length xs → get_elem? xs i ≡ some (get_or xs i 0)
some_elem [] i h = absurd (omega arith)
some_elem (x ∷ xs) zero h = refl
some_elem (x ∷ xs) (suc i) h = some_elem xs i (omega arith)

get_or-set :
    (xs : Bytes) (i j v : ℕ)
    → i < length xs
    → get_or (set xs i v) j 0 ≡ (if j == i then v else get_or xs j 0)
get_or-set [] i j v h = absurd (omega arith)
get_or-set (x ∷ xs) zero zero v h = ground arith
get_or-set (x ∷ xs) zero (suc j) v h = ground arith
get_or-set (x ∷ xs) (suc i) zero v h = ground arith
get_or-set (x ∷ xs) (suc i) (suc j) v h = ground (arith, get_or-set xs i j v (omega arith))

length-set : (xs : Bytes) (i v : ℕ) → length (set xs i v) ≡ length xs
length-set [] i v = refl
length-set (x ∷ xs) zero v = refl
length-set (x ∷ xs) (suc i) v = ap suc (length-set xs i v)

-- `g` is `f` with the bits at `us` set, and `n` more items counted.
pub record Sets (f g : BloomFilter) (n : ℕ) (us : List ℕ) : Type 0 where
  pub counted : g.num_items ≡ f.num_items + n
  pub length_kept : length g.bits ≡ length f.bits
  pub num_bits_kept : g.num_bits ≡ f.num_bits
  pub hashes_kept : g.num_hash_functions ≡ f.num_hash_functions
  pub set_at : (p : ℕ) → bit_of g p ≡ (if member p us then 1 else bit_of f p)

get_bit_lem :
    (f : BloomFilter) (pos : ℕ) → pos < length f.bits * 8 → get_bit f pos ≡ some (bit_of f pos == 1)
unfolding get_bit
get_bit_lem f pos h =
    rw (some_elem f.bits (pos / 8) (omega arith)) (ap some (bit_and_lem (pos % 8) _))

or_pow : (i j a : ℕ) → bit i (bit_or a (2 ^ j)) ≡ (if i == j then 1 else bit i a)
or_pow i j a = rw bit_or_lem (elim (ℕ_discrete i j) [
  | yes e ↦ ground (arith, bit_le i a, ap (λ k. bit i (2 ^ k)) (sym e) ∙ bit-pow i)
  | no n ↦ ground (arith, bit-pow_other i j n)
])

split_at : (p pos : ℕ) → p / 8 ≡ pos / 8 → p % 8 ≡ pos % 8 → pos ≡ p
split_at p pos h h₁ = omega arith

same_byte : (p pos : ℕ) → pos ≡ p → p / 8 ≡ pos / 8
same_byte p pos e = ap (λ k. k / 8) (sym e)

same_bit : (p pos : ℕ) → pos ≡ p → p % 8 ≡ pos % 8
same_bit p pos e = ap (λ k. k % 8) (sym e)

set_at_lem :
    (bits : Bytes) (pos p : ℕ)
    → pos < length bits * 8
    → bit
        (p % 8)
        (get_or (set bits (pos / 8) (bit_or (get_or bits (pos / 8) 0) (2 ^ (pos % 8)))) (p / 8) 0)
      ≡ (if pos == p then 1 else bit (p % 8) (get_or bits (p / 8) 0))
set_at_lem bits pos p h =
    rw (get_or-set bits (pos / 8) (p / 8) _ (omega arith)) (elim (ℕ_discrete (p / 8) (pos / 8)) [
      | yes e ↦ ground (
        arith,
        or_pow (p % 8) (pos % 8) (get_or bits (pos / 8) 0),
        split_at p pos e,
        same_bit p pos,
        ap (λ k. get_or bits k 0) e,
      )
      | no n ↦ ground (arith, n, same_byte p pos)
    ])

set_bit_lem :
    (f : BloomFilter) (pos : ℕ)
    → pos < length f.bits * 8
    → (g : BloomFilter) × (set_bit f pos ≡ some g) × Sets f g 0 (pos ∷ [])
unfolding set_bit
set_bit_lem f pos h =
    let byte = get_or f.bits (pos / 8) 0 in
    let g : BloomFilter = record f { bits = set f.bits (pos / 8) (bit_or byte (2 ^ (pos % 8))) } in
    (
      g,
      rw (some_elem f.bits (pos / 8) (omega arith)) refl,
      record {
        counted = omega arith;
        length_kept = length-set f.bits (pos / 8) _;
        num_bits_kept = refl;
        hashes_kept = refl;
        set_at = λ p. ground (arith, set_at_lem f.bits pos p h);
      },
    )

pub Sets-refl : (f : BloomFilter) → Sets f f 0 []
Sets-refl f = record {
  counted = omega arith;
  length_kept = refl;
  num_bits_kept = refl;
  hashes_kept = refl;
  set_at = λ p. refl;
}

pub member-append : (p : ℕ) (us vs : List ℕ) → member p (us ++ vs) ≡ (member p us || member p vs)
member-append p [] vs = refl
member-append p (u ∷ us) vs = ground (arith, member-append p us vs)

pub Sets-append :
    (f g h : BloomFilter) (m n : ℕ) (us vs : List ℕ)
    → Sets f g m us
    → Sets g h n vs
    → Sets f h (m + n) (us ++ vs)
Sets-append f g h m n us vs a b = record {
  counted = omega (arith, a.counted, b.counted);
  length_kept = b.length_kept ∙ a.length_kept;
  num_bits_kept = b.num_bits_kept ∙ a.num_bits_kept;
  hashes_kept = b.hashes_kept ∙ a.hashes_kept;
  set_at = λ p. ground (arith, member-append p us vs, a.set_at p, b.set_at p);
}

pub IsSized-Sets : (f g : BloomFilter) (n : ℕ) (us : List ℕ) → Sets f g n us → IsSized f → IsSized g
IsSized-Sets f g n us a s =
    (omega (arith, a.num_bits_kept, s.0), omega (arith, a.num_bits_kept, a.length_kept, s.1))

position_lt : (m : ℕ) (h : ℕ × ℕ) (i : ℕ) → 0 < m → position m h i < m
position_lt m h i p = mod-lt _ p

get_bit_position_lem :
    (f : BloomFilter) (h : ℕ × ℕ) (i : ℕ)
    → 0 < f.num_bits
    → get_bit_position f h i ≡ some (position f.num_bits h i)
unfolding get_bit_position
get_bit_position_lem f h i p = ground arith

pub set_bits-Sets :
    (n i : ℕ) (h : ℕ × ℕ) (f : BloomFilter)
    → IsSized f
    → (g : BloomFilter) × (set_bits n i h f ≡ some g) × Sets f g 0 (rounds n i h f.num_bits)
unfolding set_bits
set_bits-Sets zero i h f s = (f, refl, Sets-refl f)
set_bits-Sets (suc n) i h f s =
    let pos = position f.num_bits h i in
    let (g, e, a) = set_bit_lem f pos (omega (arith, position_lt f.num_bits h i s.0, s.1)) in
    let (k, e₁, b) = set_bits-Sets n (suc i) h g (IsSized-Sets f g 0 _ a s) in
    (
      k,
      rw (get_bit_position_lem f h i s.0, e) e₁,
      Sets-append f g k 0 0 (pos ∷ []) _ a
          (subst (λ m. Sets g k 0 (rounds n (suc i) h m)) a.num_bits_kept b),
    )

pub get_bits_lem :
    (n i : ℕ) (h : ℕ × ℕ) (f : BloomFilter)
    → IsSized f
    → get_bits n i h f ≡ some (all_covered f [] (rounds n i h f.num_bits))
unfolding get_bits
get_bits_lem zero i h f s = refl
get_bits_lem (suc n) i h f s =
    let pos = position f.num_bits h i in
    let bit = get_bit_lem f pos (omega (arith, position_lt f.num_bits h i s.0, s.1)) in
    rw (get_bit_position_lem f h i s.0, bit) (ground (arith, get_bits_lem n (suc i) h f s))
