-- ===== src/Wal/Error.antt =====
-- src/wal/error.rs: the errors that the modelled code returns, without their messages, and
-- `WalResult`.
use nanostore.Prelude.{ℕ, Option, none, some, ◌≡◌, refl, ◌⊎◌, inl, inr}

-- The operation that a recovery error names.
pub data Operation : Type 0 where
  write commit rollback : Operation

-- The `corruption_type` of a corrupted log.
pub data Corruption : Type 0 where
  invalid_magic incomplete_record : Corruption

pub data WalError : Type 0 where
  invalid_record : (lsn : ℕ) → WalError
  deserialization_error : (offset : ℕ) → WalError
  serialization_error : (lsn : ℕ) → WalError
  checksum_mismatch : (lsn offset expected found : ℕ) → WalError
  missing_encryption_key : WalError
  encryption_error : (lsn : ℕ) → WalError
  decryption_error : (offset : ℕ) → WalError
  io_error : WalError
  corrupted_wal : (offset : ℕ) → Corruption → WalError
  transaction_not_found : (txn_id : ℕ) → WalError
  transaction_already_exists : (txn_id : ℕ) → WalError
  wal_full : (current_size max_size : ℕ) → WalError
  recovery_error : (lsn : ℕ) → Operation → WalError

pub data WalResult {ℓ} (A : Type ℓ) : Type ℓ where
  ok : A → WalResult A
  err : WalError → WalResult A

-- `?`: an error is returned at once.
infixl 5 ◌>>=◌
abbrev pub ◌>>=◌ {κ ℓ} : {S : Type κ} → {T : Type ℓ} → WalResult S → (S → WalResult T) → WalResult T
err returned >>= rest = err returned
ok value >>= rest = rest value

-- `ok_or`, and `map_err` on the result of a library call
abbrev pub ok_or {ℓ} : {A : Type ℓ} → Option A → WalError → WalResult A
ok_or none e = err e
ok_or (some a) e = ok a

-- A bind that returns a value went through its first part.
pub >>=-eq-ok {κ ℓ} :
    {S : Type κ} {T : Type ℓ} (first : WalResult S) (rest : S → WalResult T) {result : T}
    → (first >>= rest) ≡ ok result
    → (value : S) × (first ≡ ok value) × (rest value ≡ ok result)
>>=-eq-ok (err returned) rest through = cc
>>=-eq-ok (ok value) rest through = (value, refl, through)

-- To split on a computed result and keep the equation.
pub WalResult-cases :
    {A : Type 0} (r : WalResult A) → ((e : WalError) × (r ≡ err e)) ⊎ ((a : A) × (r ≡ ok a))
WalResult-cases (err e) = inl (e, refl)
WalResult-cases (ok a) = inr (a, refl)

pub ok-injective : {A : Type 0} {a b : A} → WalResult.ok a ≡ ok b → a ≡ b
ok-injective h = cc
