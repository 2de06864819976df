-- ===== src/Tests/Locks.antt =====
-- Calls on the conflict detector (src/txn/conflict.rs).
use nanostore.Prelude.{◌≡◌, refl, List, [], ◌∷◌, arith}
use nanostore.Prelude.Maps.{get}
use nanostore.Txn.Conflict.{
  LockKey, ConflictDetector, ok, err, write_write_conflict, new, lock_for_write,
}
use nanostore.Txn.Conflict.Locks.{
  Call, lock, release, IsValid, after, after_all, AllByOther, after-IsValid, lock_exclusive,
}

abbrev row : LockKey
row = (1, 0x61 ∷ [])

abbrev other_row : LockKey
other_row = (1, 0x62 ∷ [])

new-IsValid : IsValid new
new-IsValid = tt

-- Transaction 7 holds one row.
abbrev locked : ConflictDetector
locked = after new (lock row 7)

locked-IsValid : IsValid locked
locked-IsValid = after-IsValid new (lock row 7) new-IsValid

locks : (lock_for_write new row 7).0 ≡ ok
unfolding lock_for_write get
locks = refl

abbrev calls : List Call
calls = lock other_row 8 ∷ release 8 ∷ lock row 9 ∷ release 9 ∷ []

seven_stays : AllByOther 7 calls
seven_stays = (tt, ((λ h. ground arith), (tt, ((λ h. ground arith), tt))))

lock_exclusive_example :
    let e = after_all locked calls in
    lock_for_write e row 8 ≡ (err (write_write_conflict 1 (0x61 ∷ []) 7 8), e)
lock_exclusive_example =
    lock_exclusive new row 7 8 calls new-IsValid locks seven_stays (λ h. ground arith)
