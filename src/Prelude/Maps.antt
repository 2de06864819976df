-- ===== src/Prelude/Maps.antt =====
-- Finite maps as association lists: `HashMap` (whose order of iteration is not specified: the order
-- of the list stands for any) and `BTreeMap` over numbers (in the order of the keys).
use Prim.Native.Nat.{ℕ, suc, ◌≤◌}
use mathlib.Core.Path.{◌≡◌, refl, subst}
use mathlib.Core.Bool.{Bool}
use mathlib.Core.List.{List, [], ◌∷◌}
use mathlib.Core.Logic.{ite, if_pos, if_neg, inl, inr}
use mathlib.Core.Option.{Option, none, some}
use native.Mathlib.Omega.{arith}
use native.Mathlib.Decide.{ℕ_discrete}
use nanostore.Prelude.Tests.{ltb, if◌then◌else◌, Bool-cases}

module _ {ℓ} {K V : Type ℓ} (dec : Discrete K) where
  -- `map.get(&key)`
  unfoldable pub get : K → List (K × V) → Option V
  get k [] = none
  get k ((j, v) ∷ m) = ite (dec j k) (some v) (get k m)

  -- `map.insert(key, value)`
  unfoldable pub insert : K → V → List (K × V) → List (K × V)
  insert k v [] = (k, v) ∷ []
  insert k v ((j, w) ∷ m) = ite (dec j k) ((k, v) ∷ m) ((j, w) ∷ insert k v m)

  -- `map.remove(&key)`
  unfoldable pub remove : K → List (K × V) → List (K × V)
  remove k [] = []
  remove k ((j, w) ∷ m) = ite (dec j k) (remove k m) ((j, w) ∷ remove k m)

  pub get-insert :
      (j k : K) (v : V) (m : List (K × V)) → get j (insert k v m) ≡ ite (dec k j) (some v) (get j m)
  unfolding get insert
  get-insert j k v [] = refl
  get-insert j k v ((i, w) ∷ m) = ground (arith, get-insert j k v m)

  pub get-remove : (j k : K) (m : List (K × V)) → get j (remove k m) ≡ ite (dec k j) none (get j m)
  unfolding get remove
  get-remove j k [] = ground arith
  get-remove j k ((i, w) ∷ m) = ground (arith, get-remove j k m)

module _ {ℓ} {K V : Type ℓ} (dec : Discrete K) where
  -- No key stands twice.
  abbrev pub IsMap : List (K × V) → Type ℓ
  IsMap [] = Unit
  IsMap ((k, v) ∷ m) = (get dec k m ≡ none) × IsMap m

  pub insert-IsMap : (k : K) (v : V) (m : List (K × V)) → IsMap m → IsMap (insert dec k v m)
  unfolding get insert
  insert-IsMap k v [] h = (refl, tt)
  insert-IsMap k v ((j, w) ∷ m) h = elim (dec j k) [
    | yes p ↦ rw (if_pos _ p) (subst (λ i. get dec i m ≡ none) p h.0, h.1)
    | no n ↦ rw (if_neg _ n) (ground (arith, get-insert dec j k v m, h.0), insert-IsMap k v m h.1)
  ]

  -- `map.retain(|_, v| keep(v))`
  unfoldable pub retain : (V → Bool) → List (K × V) → List (K × V)
  retain keep [] = []
  retain keep ((k, v) ∷ m) = if keep v then (k, v) ∷ retain keep m else retain keep m

  get-retain-none :
      (keep : V → Bool) (k : K) (m : List (K × V))
      → get dec k m ≡ none
      → get dec k (retain keep m) ≡ none
  unfolding get retain
  get-retain-none keep k [] h = refl
  get-retain-none keep k ((j, w) ∷ m) h = ground (arith, get-retain-none keep k m)

  pub get-retain :
      (keep : V → Bool) (k : K) (m : List (K × V))
      → IsMap m
      → get dec k (retain keep m)
        ≡ elim (get dec k m) [ none ↦ none | some v ↦ if keep v then some v else none ]
  unfolding get retain
  get-retain keep k [] h = refl
  get-retain keep k ((j, w) ∷ m) h = ground (arith, get-retain keep k m, get-retain-none keep k m)

  pub retain-IsMap : (keep : V → Bool) (m : List (K × V)) → IsMap m → IsMap (retain keep m)
  unfolding retain
  retain-IsMap keep [] h = tt
  retain-IsMap keep ((k, v) ∷ m) h = elim (Bool-cases (keep v)) [
    | inl kept ↦ rw kept (get-retain-none keep k m h.0, retain-IsMap keep m h.1)
    | inr dropped ↦ rw dropped (retain-IsMap keep m h.1)
  ]

module _ {V : Type 0} where
  -- `BTreeMap::insert`, which keeps the order of the keys
  unfoldable pub insert_sorted : ℕ → V → List (ℕ × V) → List (ℕ × V)
  insert_sorted k v [] = (k, v) ∷ []
  insert_sorted k v ((j, w) ∷ m) =
      if ltb k j
      then (k, v) ∷ (j, w) ∷ m
      else ite (ℕ_discrete j k) ((k, v) ∷ m) ((j, w) ∷ insert_sorted k v m)

  pub get-insert_sorted :
      (j k : ℕ) (v : V) (m : List (ℕ × V))
      → get ℕ_discrete j (insert_sorted k v m) ≡ ite (ℕ_discrete k j) (some v) (get ℕ_discrete j m)
  unfolding get insert_sorted
  get-insert_sorted j k v [] = refl
  get-insert_sorted j k v ((i, w) ∷ m) = ground (arith, get-insert_sorted j k v m)

  -- Every key is above `k`, and they ascend.
  abbrev pub Ascends : ℕ → List (ℕ × V) → Type 0
  Ascends k [] = Unit
  Ascends k ((j, w) ∷ m) = (k ≤ j) × Ascends (suc j) m

  pub insert_sorted-Ascends :
      (b k : ℕ) (v : V) (m : List (ℕ × V)) → b ≤ k → Ascends b m → Ascends b (insert_sorted k v m)
  unfolding insert_sorted
  insert_sorted-Ascends b k v [] h a = (h, tt)
  insert_sorted-Ascends b k v ((j, w) ∷ m) h a = ground (arith, insert_sorted-Ascends (suc j) k v m)
