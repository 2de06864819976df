-- ===== src/Table/Bloom.antt =====
-- src/table/bloom/memory.rs: the Bloom filter. A panic (the remainder by zero of a filter without
-- bits, an index out of range) is `none`. The children treat the bits, the members, and the tombstones of src/table/bloom/tombstone.rs.
mod Bits
pub mod Members
pub mod Contains
pub mod Tombstones
use Prim.Native.Nat.{bit_and, bit_or, bit_xor}
use nanostore.Prelude.{
  ℕ, zero, suc, ◌+◌, ◌*◌, ◌/◌, ◌%◌, ◌^◌, Bool, true, false, not, Option, none, some, List, [], ◌∷◌,
  length, get_elem?, set, replicate, ◌==◌, if◌then◌else◌,
}
use nanostore.Prelude.Bytes.{Bytes}

-- `?` and a panic alike
infixl 5 ◌>>=◌
abbrev pub ◌>>=◌ {κ ℓ} : {A : Type κ} {B : Type ℓ} → Option A → (A → Option B) → Option B
none >>= rest = none
some a >>= rest = rest a

pub record BloomFilter : Type 0 where
  pub bits : Bytes
  pub num_bits : ℕ
  pub num_hash_functions : ℕ
  pub num_items : ℕ

-- `num_bits.div_ceil(8)`
abbrev pub div_ceil : ℕ → ℕ
div_ceil n = (n + 7) / 8

-- `new`, where the product of two `usize` wraps around, as a build without overflow checks computes
-- it: `optimal` is the number of hash functions that the floating-point formula yields for the
-- bits per key.
unfoldable pub new : (ℕ → ℕ) → ℕ → ℕ → Option ℕ → BloomFilter
new optimal num_items bits_per_key num_hash_functions =
    let num_bits = (num_items * bits_per_key) % 2 ^ 64 in
    record {
      bits = replicate (div_ceil num_bits) 0;
      num_bits = num_bits;
      num_hash_functions = elim num_hash_functions [ none ↦ optimal bits_per_key | some k ↦ k ];
      num_items = 0;
    }

unfoldable pub from_bytes : Bytes → ℕ → BloomFilter
from_bytes bits num_hash_functions = record {
  bits = bits;
  num_bits = length bits * 8;
  num_hash_functions = num_hash_functions;
  num_items = 0;
}

unfoldable pub from_bytes_with_size : Bytes → ℕ → ℕ → BloomFilter
from_bytes_with_size bits num_bits num_hash_functions = record {
  bits = bits;
  num_bits = num_bits;
  num_hash_functions = num_hash_functions;
  num_items = 0;
}

-- The two hashes of `hash_key`, as its two loops compute them.
unfoldable pub fnv_1a : ℕ → Bytes → ℕ
fnv_1a h [] = h
fnv_1a h (byte ∷ bytes) = fnv_1a ((bit_xor h byte * 0x100000001b3) % 2 ^ 64) bytes

unfoldable pub multiplicative : ℕ → Bytes → ℕ
multiplicative h [] = h
multiplicative h (byte ∷ bytes) = multiplicative (((h * 31) % 2 ^ 64 + byte) % 2 ^ 64) bytes

unfoldable pub hash_key : Bytes → ℕ × ℕ
hash_key key = (fnv_1a 0xcbf29ce484222325 key, multiplicative 0 key)

unfoldable pub get_bit_position : BloomFilter → ℕ × ℕ → ℕ → Option ℕ
get_bit_position f h i =
    let hash = (h.0 + (i * h.1) % 2 ^ 64) % 2 ^ 64 in
    if f.num_bits == 0 then none else some (hash % f.num_bits)

unfoldable pub set_bit : BloomFilter → ℕ → Option BloomFilter
set_bit f pos = do
  byte ← get_elem? f.bits (pos / 8)
  some (record f { bits = set f.bits (pos / 8) (bit_or byte (2 ^ (pos % 8))) })

unfoldable pub get_bit : BloomFilter → ℕ → Option Bool
get_bit f pos = do byte ← get_elem? f.bits (pos / 8); some (not (bit_and byte (2 ^ (pos % 8)) == 0))

-- `for i in 0..k` of `insert`, with `n` rounds left from `i` on
unfoldable pub set_bits : ℕ → ℕ → ℕ × ℕ → BloomFilter → Option BloomFilter
set_bits zero i h f = some f
set_bits (suc n) i h f = do pos ← get_bit_position f h i; g ← set_bit f pos; set_bits n (suc i) h g

unfoldable pub insert : BloomFilter → Bytes → Option BloomFilter
insert f key = do
  g ← set_bits f.num_hash_functions 0 (hash_key key) f
  some (record g { num_items = suc g.num_items })

-- `for i in 0..k` of `contains`, with its early return
unfoldable pub get_bits : ℕ → ℕ → ℕ × ℕ → BloomFilter → Option Bool
get_bits zero i h f = some true
get_bits (suc n) i h f = do
  pos ← get_bit_position f h i
  bit ← get_bit f pos
  if bit then get_bits n (suc i) h f else some false

unfoldable pub contains : BloomFilter → Bytes → Option Bool
contains f key = get_bits f.num_hash_functions 0 (hash_key key) f

-- `bits.fill(0)`
unfoldable pub clear : BloomFilter → BloomFilter
clear f = record f { bits = replicate (length f.bits) 0; num_items = 0 }

-- The error of `verify`, with the expected and the actual number of bytes; its warning, which needs
-- floating-point numbers, is left out.
unfoldable pub size_mismatch : BloomFilter → Option (ℕ × ℕ)
size_mismatch f =
    let expected_bytes = div_ceil f.num_bits in
    if length f.bits == expected_bytes then none else some (expected_bytes, length f.bits)

pub record BloomFilterBuilder : Type 0 where
  pub num_items : ℕ
  pub bits_per_key : ℕ
  pub num_hash_functions : Option ℕ

-- `BloomFilterBuilder::new` and its setters
unfoldable pub builder : ℕ → BloomFilterBuilder
builder num_items = record { num_items = num_items; bits_per_key = 10; num_hash_functions = none }

unfoldable pub with_bits_per_key : BloomFilterBuilder → ℕ → BloomFilterBuilder
with_bits_per_key b bits = record b { bits_per_key = bits }

unfoldable pub with_hash_functions : BloomFilterBuilder → ℕ → BloomFilterBuilder
with_hash_functions b num = record b { num_hash_functions = some num }

unfoldable pub build : (ℕ → ℕ) → BloomFilterBuilder → BloomFilter
build optimal b = new optimal b.num_items b.bits_per_key b.num_hash_functions

-- The keys of a sequence of insertions.
unfoldable pub insert_all : BloomFilter → List Bytes → Option BloomFilter
insert_all f [] = some f
insert_all f (key ∷ keys) = do g ← insert f key; insert_all g keys
