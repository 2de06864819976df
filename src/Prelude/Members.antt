-- ===== src/Prelude/Members.antt =====
-- Sets of identifiers as lists: the membership test of `HashSet`, and membership as a statement.
use Prim.Native.Nat.{ℕ}
use mathlib.Core.Path.{◌≡◌}
use mathlib.Core.Bool.{Bool, true, false}
use mathlib.Core.List.{List, [], ◌∷◌, ◌++◌}
use mathlib.Core.Logic.{◌⊎◌, inl, inr}
use native.Mathlib.Omega.{arith}
use native.Mathlib.Decide.{ℕ_discrete}
use nanostore.Prelude.Tests.{◌==◌, if◌then◌else◌}

-- `set.contains(&t)`
abbrev pub member : ℕ → List ℕ → Bool
member t [] = false
member t (u ∷ us) = if u == t then true else member t us

abbrev pub In : ℕ → List ℕ → Type 0
In t [] = ⊥
In t (u ∷ us) = (u ≡ t) ⊎ In t us

pub In-of_member : (t : ℕ) (us : List ℕ) → member t us ≡ true → In t us
In-of_member t [] h = absurd (ground arith)
In-of_member t (u ∷ us) h = elim (ℕ_discrete u t) [
  | yes p ↦ inl p
  | no n ↦ inr (In-of_member t us (ground arith))
]

pub member_of_In : (t : ℕ) (us : List ℕ) → In t us → member t us ≡ true
member_of_In t [] h = absurd h
member_of_In t (u ∷ us) (inl p) = ground arith
member_of_In t (u ∷ us) (inr h) = ground (arith, member_of_In t us h)

pub In-append_left : (t : ℕ) (us vs : List ℕ) → In t us → In t (us ++ vs)
In-append_left t [] vs h = absurd h
In-append_left t (u ∷ us) vs (inl p) = inl p
In-append_left t (u ∷ us) vs (inr h) = inr (In-append_left t us vs h)

pub In-append_right : (t : ℕ) (us vs : List ℕ) → In t vs → In t (us ++ vs)
In-append_right t [] vs h = h
In-append_right t (u ∷ us) vs h = inr (In-append_right t us vs h)

pub In-append : (t : ℕ) (us vs : List ℕ) → In t (us ++ vs) → In t us ⊎ In t vs
In-append t [] vs h = inr h
In-append t (u ∷ us) vs (inl p) = inl (inl p)
In-append t (u ∷ us) vs (inr h) = elim (In-append t us vs h) [ inl a ↦ inl (inr a) | inr b ↦ inr b ]
