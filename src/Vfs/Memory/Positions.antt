-- ===== src/Vfs/Memory/Positions.antt =====
-- The bytes of the file in memory (src/vfs/memory.rs) at every position, after a resize and a copy.
use native.Mathlib.Nat.{suc-add, zero-add}
use nanostore.Prelude.{
  ℕ, zero, suc, ◌+◌, ◌-◌, ◌≤◌, ◌≡◌, refl, [], ◌∷◌, ◌++◌, length, take, drop, get_or, ltb,
  if◌then◌else◌, arith, length-append, length-take, length-drop, take-append, drop-append,
  Bool-cases, inl, inr,
}
use nanostore.Prelude.Bytes.{Bytes}
use nanostore.Vfs.Memory.{MemoryFileHandle, zeros, resize, overwrite, put_bytes, read_at_offset}

-- The byte at a position, 0 past the end.
get-append :
    (i : ℕ) (xs ys : Bytes)
    → get_or (xs ++ ys) i 0
      ≡ (if ltb i (length xs) then get_or xs i 0 else get_or ys (i - length xs) 0)
get-append i [] ys = ground arith
get-append zero (x ∷ xs) ys = ground arith
get-append (suc i) (x ∷ xs) ys = ground (arith, get-append i xs ys)

get-take : (i n : ℕ) (xs : Bytes) → get_or (take n xs) i 0 ≡ (if ltb i n then get_or xs i 0 else 0)
get-take i zero xs = ground arith
get-take i (suc n) [] = ground arith
get-take zero (suc n) (x ∷ xs) = ground arith
get-take (suc i) (suc n) (x ∷ xs) = ground (arith, get-take i n xs)

get-drop : (i n : ℕ) (xs : Bytes) → get_or (drop n xs) i 0 ≡ get_or xs (n + i) 0
get-drop i zero xs = rw zero-add
get-drop i (suc n) [] = refl
get-drop i (suc n) (x ∷ xs) = rw suc-add (get-drop i n xs)

get-zeros : (i n : ℕ) → get_or (zeros n) i 0 ≡ 0
get-zeros i zero = refl
get-zeros zero (suc n) = refl
get-zeros (suc i) (suc n) = get-zeros i n

pub length-zeros : (n : ℕ) → length (zeros n) ≡ n
length-zeros zero = refl
length-zeros (suc n) = omega (arith, length-zeros n)

past : (i : ℕ) (xs : Bytes) → length xs ≤ i → get_or xs i 0 ≡ 0
past i [] h = refl
past zero (x ∷ xs) h = absurd (omega arith)
past (suc i) (x ∷ xs) h = past i xs (omega arith)

get-resize : (i n : ℕ) (xs : Bytes) → length xs ≤ n → get_or (resize n xs) i 0 ≡ get_or xs i 0
unfolding resize
get-resize i n xs h = ground (
  arith,
  get-append i (take n xs) (zeros (n - length xs)),
  length-take n xs,
  get-take i n xs,
  get-zeros (i - length (take n xs)) (n - length xs),
  past i xs,
)

pub length-resize : (n : ℕ) (xs : Bytes) → length (resize n xs) ≡ n
unfolding resize
length-resize n xs = omega (
  arith,
  length-append (take n xs) (zeros (n - length xs)),
  length-take n xs,
  length-zeros (n - length xs),
)

-- The byte at `i` after `buf` was copied over at `off`.
abbrev pub written : ℕ → Bytes → Bytes → ℕ → ℕ
written off buf bytes i =
    if ltb i off
    then get_or bytes i 0
    else if ltb i (off + length buf)
    then get_or buf (i - off) 0
    else get_or bytes i 0

get-overwrite :
    (i off : ℕ) (buf bytes : Bytes)
    → off ≤ length bytes
    → get_or (overwrite off buf bytes) i 0 ≡ written off buf bytes i
unfolding overwrite
get-overwrite i off buf bytes h = ground (
  arith,
  get-append i (take off bytes) (buf ++ drop (off + length buf) bytes),
  get-append (i - length (take off bytes)) buf (drop (off + length buf) bytes),
  get-drop (i - off - length buf) (off + length buf) bytes,
  length-take off bytes,
  get-take i off bytes,
)

length-overwrite :
    (off : ℕ) (buf bytes : Bytes)
    → off + length buf ≤ length bytes
    → length (overwrite off buf bytes) ≡ length bytes
unfolding overwrite
length-overwrite off buf bytes h = omega (
  arith,
  length-append (take off bytes) (buf ++ drop (off + length buf) bytes),
  length-append buf (drop (off + length buf) bytes),
  length-drop (off + length buf) bytes,
  length-take off bytes,
)

pub get-put_bytes :
    (i off : ℕ) (buf bytes : Bytes) → get_or (put_bytes off buf bytes) i 0 ≡ written off buf bytes i
unfolding put_bytes
get-put_bytes i off buf bytes = elim (Bool-cases (ltb (length bytes) (off + length buf))) [
  | inl grown ↦
      let n = off + length buf in
      rw grown (
        ground (
          arith,
          get-overwrite i off buf (resize n bytes),
          length-resize n bytes,
          get-resize i n bytes,
        ))
  | inr within ↦ rw within (get-overwrite i off buf bytes (ground arith))
]

-- Copying to `off` where the bytes reach.
grown_bytes : ℕ → Bytes → Bytes → Bytes
grown_bytes off buf bytes =
    if ltb (length bytes) (off + length buf) then resize (off + length buf) bytes else bytes

length-grown_bytes :
    (off : ℕ) (buf bytes : Bytes)
    → length (grown_bytes off buf bytes)
      ≡ (if ltb (length bytes) (off + length buf) then off + length buf else length bytes)
unfolding grown_bytes
length-grown_bytes off buf bytes = ground (arith, length-resize (off + length buf) bytes)

pub length-put_bytes :
    (off : ℕ) (buf bytes : Bytes)
    → length (put_bytes off buf bytes)
      ≡ (if ltb (length bytes) (off + length buf) then off + length buf else length bytes)
unfolding put_bytes grown_bytes
length-put_bytes off buf bytes =
    ground (
      arith,
      length-overwrite off buf (grown_bytes off buf bytes),
      length-grown_bytes off buf bytes,
    )

pub no_bytes : (n : ℕ) (xs : Bytes) → length xs ≤ n → drop n xs ≡ []
no_bytes zero [] h = refl
no_bytes zero (x ∷ xs) h = absurd (omega arith)
no_bytes (suc n) [] h = refl
no_bytes (suc n) (x ∷ xs) h = no_bytes n xs (omega arith)

pub read_at-take :
    (h : MemoryFileHandle) (pos n : ℕ) → read_at_offset h pos n ≡ take n (drop pos h.buffer)
unfolding read_at_offset
read_at-take h pos zero = ground arith
read_at-take h pos (suc n) = ground (arith, no_bytes pos h.buffer)

pub read-put_bytes :
    (off : ℕ) (buf bytes : Bytes) → take (length buf) (drop off (put_bytes off buf bytes)) ≡ buf
unfolding put_bytes overwrite grown_bytes
read-put_bytes off buf bytes = ground (
  arith,
  length-grown_bytes off buf bytes,
  length-take off (grown_bytes off buf bytes),
  drop-append off (take off (grown_bytes off buf bytes))
      (buf ++ drop (off + length buf) (grown_bytes off buf bytes)),
  take-append (length buf) buf (drop (off + length buf) (grown_bytes off buf bytes)),
)
