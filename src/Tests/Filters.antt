-- ===== src/Tests/Filters.antt =====
-- Runs of the Bloom filter and its tombstones (src/table/bloom).
use nanostore.Prelude.{
  ◌+◌, ◌≡◌, refl, Bool, true, false, ◌||◌, ◌&&◌, Option, none, some, [], ◌∷◌, ◌++◌, length, arith,
  leb,
}
use nanostore.Prelude.Bytes.{Bytes, bytes_eq}
use nanostore.Snap.{Snapshot}
use nanostore.Table.Bloom.{
  size_mismatch, build, with_bits_per_key, builder, from_bytes, from_bytes_with_size, clear,
  BloomFilter, insert, contains, insert_all, hash_key, fnv_1a, multiplicative, get_bit_position,
  set_bit, get_bit, set_bits, get_bits,
}
use nanostore.Table.Bloom.Members.{IsSized, positions, all_covered}
use nanostore.Table.Bloom.Contains.{all_positions, contains_lem, inserted_found}
use nanostore.Table.Bloom.Tombstones.{
  BloomTombstoneSet, add, is_tombstoned, vacuum, commit_tombstones, insert_tombstone, has,
  commit_all, commit_if, is_visible, tombstone_eq,
}
use nanostore.Table.Bloom.Tombstones.Hidden.{pending, commit_tombstones_lem, vacuum_reveals}

abbrev cat : Bytes
cat = 0x63 ∷ 0x61 ∷ 0x74 ∷ []

abbrev dog : Bytes
dog = 0x64 ∷ 0x6f ∷ 0x67 ∷ []

abbrev cow : Bytes
cow = 0x63 ∷ 0x6f ∷ 0x77 ∷ []

-- Three bits for each of ten keys, and two hash functions.
abbrev small : BloomFilter
small = record { bits = 0 ∷ 0 ∷ 0 ∷ 0 ∷ []; num_bits = 30; num_hash_functions = 2; num_items = 0 }

small-IsSized : IsSized small
small-IsSized = (ground arith, ground arith)

abbrev found : Option BloomFilter → Bytes → Option Bool
found none key = none
found (some f) key = contains f key

sees_cat : found (insert_all small (cat ∷ dog ∷ [])) cat ≡ some true
unfolding insert_all insert contains hash_key fnv_1a multiplicative get_bit_position set_bit get_bit
    set_bits get_bits
sees_cat = refl

misses_cow : found (insert_all small (cat ∷ dog ∷ [])) cow ≡ some false
unfolding insert_all insert contains hash_key fnv_1a multiplicative get_bit_position set_bit get_bit
    set_bits get_bits
misses_cow = refl

no_bits : insert (record small { num_bits = 0 }) cat ≡ none
unfolding insert set_bits get_bit_position
no_bits = refl

contains_lem_example :
    (g : BloomFilter) × (insert_all small (cat ∷ dog ∷ []) ≡ some g)
    × (contains g cow
        ≡ some (all_covered small (all_positions small (cat ∷ dog ∷ [])) (positions small cow)))
    × (g.num_items ≡ small.num_items + length (cat ∷ dog ∷ []))
    × (size_mismatch g ≡ size_mismatch small)
contains_lem_example = contains_lem small (cat ∷ dog ∷ []) cow small-IsSized

inserted_found_example :
    (g : BloomFilter) × (insert_all
        (build (λ _. 7) (with_bits_per_key (builder 10) 9))
        ((cat ∷ []) ++ dog ∷ cow ∷ [])
      ≡ some g)
    × (contains g dog ≡ some true)
    × (contains (from_bytes_with_size g.bits g.num_bits g.num_hash_functions) dog ≡ some true)
    × (size_mismatch g ≡ none)
inserted_found_example =
    inserted_found (λ _. 7) 10 9 (cat ∷ []) dog (cow ∷ []) (ground arith) (ground arith)

cleared : clear (from_bytes (255 ∷ 1 ∷ []) 3) ≡ from_bytes (0 ∷ 0 ∷ []) 3
unfolding clear from_bytes
cleared = refl

mismatched : size_mismatch (from_bytes_with_size (0 ∷ 0 ∷ []) 17 3) ≡ some (3, 2)
unfolding size_mismatch from_bytes_with_size
mismatched = refl

abbrev at_100 : Snapshot
at_100 = record {
  id = 1;
  name = [];
  lsn = 100;
  created_at = 0;
  size_bytes = 0;
  min_active_txn = 0;
  active_txns = [];
}

abbrev rolled_back : BloomTombstoneSet
rolled_back =
    record { key = cat; tombstone_tx_id = 5; tombstone_lsn = none }
    ∷ record { key = dog; tombstone_tx_id = 4; tombstone_lsn = some 60 }
    ∷ []

adds :
    add (add rolled_back cat 5) dog 5
    ≡ record { key = dog; tombstone_tx_id = 5; tombstone_lsn = none } ∷ rolled_back
unfolding add insert_tombstone has tombstone_eq bytes_eq
adds = refl

hides_cat : is_tombstoned (commit_tombstones rolled_back 5 80) cat at_100 ≡ true
unfolding commit_tombstones commit_all commit_if insert_tombstone has tombstone_eq bytes_eq
    is_tombstoned is_visible
hides_cat = refl

commit_tombstones_lem_example :
    is_tombstoned (commit_tombstones rolled_back 5 80) cat at_100
    ≡ (is_tombstoned rolled_back cat at_100 || (pending rolled_back 5 cat && leb 80 at_100.lsn))
commit_tombstones_lem_example = commit_tombstones_lem rolled_back 5 80 cat at_100

vacuum_reveals_example :
    ((vacuum rolled_back 100).0 + length (vacuum rolled_back 100).1 ≡ length rolled_back)
    × (is_tombstoned (vacuum rolled_back 100).1 dog at_100 ≡ false)
vacuum_reveals_example = vacuum_reveals 100 rolled_back dog at_100 (ground arith)
