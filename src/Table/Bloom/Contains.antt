-- ===== src/Table/Bloom/Contains.antt =====
-- Membership in a Bloom filter after insertions (src/table/bloom/memory.rs).
use mathlib.Core.Path.{subst}
use native.Mathlib.Nat.{mod-eq_of_lt}
use nanostore.Prelude.{
  ℕ, zero, suc, ◌+◌, ◌*◌, ◌/◌, ◌%◌, ◌^◌, sym, ◌≤◌, ◌<◌, ◌≡◌, refl, ap, ◌∙◌, Bool, true, false, ◌||◌,
  Option, none, some, List, [], ◌∷◌, ◌++◌, length, inl, inr, replicate, ◌==◌, if◌then◌else◌, arith,
}
use nanostore.Prelude.Bytes.{Bytes}
use nanostore.Prelude.Members.{member_of_In, In, In-append_left, In-append_right}
use nanostore.Table.Bloom.{
  ◌>>=◌, BloomFilter, get_bits, get_bit, get_bit_position, hash_key, new, from_bytes_with_size,
  insert, contains, insert_all, size_mismatch, builder, with_bits_per_key, build,
}
use nanostore.Table.Bloom.Members.{
  IsSized, Sets-refl, Sets, Sets-append, IsSized-Sets, positions, bit_of, all_covered,
  set_bits-Sets, get_bits_lem,
}

abbrev pub all_positions : BloomFilter → List Bytes → List ℕ
all_positions f [] = []
all_positions f (key ∷ keys) = positions f key ++ all_positions f keys

positions-Sets :
    (f g : BloomFilter) (n : ℕ) (us : List ℕ) (key : Bytes)
    → Sets f g n us
    → positions g key ≡ positions f key
positions-Sets f g n us key a = rw (a.num_bits_kept, a.hashes_kept) refl

all_positions-Sets :
    (f g : BloomFilter) (n : ℕ) (us : List ℕ) (keys : List Bytes)
    → Sets f g n us
    → all_positions g keys ≡ all_positions f keys
all_positions-Sets f g n us [] a = refl
all_positions-Sets f g n us (key ∷ keys) a =
    rw (positions-Sets f g n us key a, all_positions-Sets f g n us keys a) refl

insert-Sets :
    (f : BloomFilter) (key : Bytes)
    → IsSized f
    → (g : BloomFilter) × (insert f key ≡ some g) × Sets f g 1 (positions f key)
unfolding insert
insert-Sets f key s =
    let (g, e, a) = set_bits-Sets f.num_hash_functions 0 (hash_key key) f s in
    (
      record g { num_items = suc g.num_items },
      rw e refl,
      record {
        counted = omega (arith, a.counted);
        length_kept = a.length_kept;
        num_bits_kept = a.num_bits_kept;
        hashes_kept = a.hashes_kept;
        set_at = a.set_at;
      },
    )

insert_all-Sets :
    (f : BloomFilter) (keys : List Bytes)
    → IsSized f
    → (g : BloomFilter) × (insert_all f keys ≡ some g)
      × Sets f g (length keys) (all_positions f keys)
unfolding insert_all
insert_all-Sets f [] s = (f, refl, Sets-refl f)
insert_all-Sets f (key ∷ keys) s =
    let (g, e, a) = insert-Sets f key s in
    let (k, e₁, b) = insert_all-Sets g keys (IsSized-Sets f g 1 _ a s) in
    (
      k,
      rw e e₁,
      subst (λ n. Sets f k n (all_positions f (key ∷ keys))) (omega arith)
          (Sets-append f g k 1 (length keys) _ _ a
            (subst (λ us. Sets g k (length keys) us) (all_positions-Sets f g 1 _ keys a) b)),
    )

all_covered-Sets :
    (f g : BloomFilter) (n : ℕ) (us ps : List ℕ)
    → Sets f g n us
    → all_covered g [] ps ≡ all_covered f us ps
all_covered-Sets f g n us [] a = refl
all_covered-Sets f g n us (p ∷ ps) a = ground (arith, a.set_at p, all_covered-Sets f g n us ps a)

-- Inserting `keys` into a filter that has bits, and bytes for all of them, panics nowhere. Then `contains` answers true for a
-- key exactly if each of its positions was set before or is a position of an inserted key; the insertions are
-- counted, and `verify` reports the same error, if any, as before.
pub contains_lem :
    (f : BloomFilter) (keys : List Bytes) (key : Bytes)
    → IsSized f
    → (g : BloomFilter) × (insert_all f keys ≡ some g)
      × (contains g key ≡ some (all_covered f (all_positions f keys) (positions f key)))
      × (g.num_items ≡ f.num_items + length keys)
      × (size_mismatch g ≡ size_mismatch f)
unfolding contains size_mismatch
contains_lem f keys key s =
    let (g, e, a) = insert_all-Sets f keys s in
    (
      g,
      e,
      get_bits_lem g.num_hash_functions 0 (hash_key key) g (IsSized-Sets f g _ _ a s)
          ∙ ap some (
              all_covered-Sets f g _ _ (positions g key) a
              ∙ ap (all_covered f (all_positions f keys)) (positions-Sets f g _ _ key a)),
      a.counted,
      rw (a.num_bits_kept, a.length_kept) refl,
    )

length-replicate : (n b : ℕ) → length (replicate n b) ≡ n
length-replicate zero b = refl
length-replicate (suc n) b = ap suc (length-replicate n b)

room : (n : ℕ) → n ≤ (n + 7) / 8 * 8
room n = omega arith

get_bits-stored :
    (n i : ℕ) (h : ℕ × ℕ) (g : BloomFilter)
    → get_bits n i h (from_bytes_with_size g.bits g.num_bits g.num_hash_functions)
      ≡ get_bits n i h g
unfolding get_bits get_bit get_bit_position from_bytes_with_size
get_bits-stored zero i h g = refl
get_bits-stored (suc n) i h g =
    ap
      (λ rest. do
        pos ← get_bit_position g h i
        bit ← get_bit g pos
        if bit then rest else some false)
      (get_bits-stored n (suc i) h g)

contains-stored :
    (g : BloomFilter) (key : Bytes)
    → contains (from_bytes_with_size g.bits g.num_bits g.num_hash_functions) key ≡ contains g key
unfolding contains from_bytes_with_size
contains-stored g key = get_bits-stored g.num_hash_functions 0 (hash_key key) g

or_true : (b : Bool) → (b || true) ≡ true
or_true true = refl
or_true false = refl

new-IsSized :
    (optimal : ℕ → ℕ) (num_items bits_per_key : ℕ) (hashes : Option ℕ)
    → 0 < num_items * bits_per_key
    → num_items * bits_per_key < 2 ^ 64
    → IsSized (new optimal num_items bits_per_key hashes)
unfolding new
new-IsSized optimal num_items bits_per_key hashes h fits = (
  subst (λ n. 0 < n) (sym (mod-eq_of_lt fits)) h,
  rw length-replicate (room ((num_items * bits_per_key) % 2 ^ 64)),
)

new-matches :
    (optimal : ℕ → ℕ) (num_items bits_per_key : ℕ) (hashes : Option ℕ)
    → size_mismatch (new optimal num_items bits_per_key hashes) ≡ none
unfolding new size_mismatch
new-matches optimal num_items bits_per_key hashes = rw length-replicate (ground arith)

all_covered-In :
    (f : BloomFilter) (us ps : List ℕ) → ((p : ℕ) → In p ps → In p us) → all_covered f us ps ≡ true
all_covered-In f us [] h = refl
all_covered-In f us (p ∷ ps) h = ground (
  arith,
  member_of_In p us (h p (inl refl)),
  all_covered-In f us ps (λ q i. h q (inr i)),
  or_true (bit_of f p == 1),
)

all_positions-In :
    (f : BloomFilter) (before after : List Bytes) (key : Bytes) (p : ℕ)
    → In p (positions f key)
    → In p (all_positions f (before ++ key ∷ after))
all_positions-In f [] after key p i = In-append_left p _ _ i
all_positions-In f (other ∷ before) after key p i =
    In-append_right p (positions f other) _ (all_positions-In f before after key p i)

-- There are no false negatives: any keys can be inserted into a filter that `build` returns for at
-- least one key and one bit for each key, where their product fits 64 bits, and `contains` then
-- answers true for each of them, also on the filter that is read back from the stored bits, number of
-- bits and number of hash functions; and `verify` reports no error on it.
pub inserted_found :
    (optimal : ℕ → ℕ) (num_items bits : ℕ) (before : List Bytes) (key : Bytes) (after : List Bytes)
    → 0 < num_items * bits
    → num_items * bits < 2 ^ 64
    → (g : BloomFilter) × (insert_all
          (build optimal (with_bits_per_key (builder num_items) bits))
          (before ++ key ∷ after)
        ≡ some g)
      × (contains g key ≡ some true)
      × (contains (from_bytes_with_size g.bits g.num_bits g.num_hash_functions) key ≡ some true)
      × (size_mismatch g ≡ none)
unfolding build builder with_bits_per_key
inserted_found optimal num_items bits before key after h fits =
    let f = new optimal num_items bits none in
    let (g, e, found, n, sized) =
      contains_lem f (before ++ key ∷ after) key (new-IsSized optimal num_items bits none h fits) in
    let all = found ∙ ap some (all_covered-In f _ _ (all_positions-In f before after key)) in
    (g, e, all, contains-stored g key ∙ all, sized ∙ new-matches optimal num_items bits none)
