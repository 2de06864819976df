-- ===== src/Tests/Recovery.antt =====
-- Logs that recovery (src/wal/recovery.rs) processes.
use nanostore.Prelude.{
  ℕ, ◌≡◌, ◌≢◌, ◌⊎◌, refl, none, some, List, [], ◌∷◌, ◌++◌, arith, ℕ_discrete, map,
}
use nanostore.Prelude.Maps.{get, insert_sorted}
use nanostore.Prelude.Members.{In}
use nanostore.Wal.Record.{RecordData, begin, write, commit, rollback, checkpoint, prepare, put}
use nanostore.Wal.Recovery.{
  WalRecovery, RecoveredWrite, RecoveryResult, ok, panic, new, active, committed, process_record,
  process_all, recover, state_of, writes_of,
}
use nanostore.Wal.Recovery.View.{unknown, running, Shows, view, process_all-view}
use nanostore.Wal.Recovery.Result.{kept_of, running_of, IsAscending, recover-views}
use nanostore.Wal.Recovery.Commit.{own, write_record, committed_writes_lem, prepared_writes_lost}
use nanostore.Wal.Recovery.Panics.{kind, verdict, process_record-verdict, write-rollback_panics}

abbrev put_a : RecoveredWrite
put_a = record { table_id = 1; op_type = put; key = 0x61 ∷ []; value = 7 ∷ [] }

abbrev put_b : RecoveredWrite
put_b = record { table_id = 1; op_type = put; key = 0x62 ∷ []; value = 8 ∷ [] }

-- Two transactions whose records lie between each other; the second is still running.
abbrev mixed_log : List RecordData
mixed_log =
    begin 1
    ∷ begin 2
    ∷ write_record 1 put_a
    ∷ write_record 2 put_b
    ∷ checkpoint 9 (1 ∷ 2 ∷ [])
    ∷ write_record 1 put_b
    ∷ commit 1
    ∷ []

abbrev after_mixed : WalRecovery
after_mixed = record {
  transactions = (1, committed) ∷ (2, active) ∷ [];
  transaction_writes = (1, put_a ∷ put_b ∷ []) ∷ (2, put_b ∷ []) ∷ [];
  last_checkpoint_lsn = some 9;
  checkpoint_active_txns = some (1 ∷ 2 ∷ []);
  records_processed = 7;
}

mixed_runs : process_all new mixed_log ≡ ok after_mixed
unfolding process_all get insert_sorted ℕ_discrete
mixed_runs = refl

abbrev mixed_result : RecoveryResult
mixed_result = record {
  last_checkpoint_lsn = some 9;
  committed_writes = put_a ∷ put_b ∷ [];
  active_transactions = 2 ∷ [];
  records_processed = 7;
}

mixed_recovers : recover mixed_log ≡ ok mixed_result
unfolding recover get insert_sorted ℕ_discrete
mixed_recovers = refl

process_all-view_example : Shows 1 after_mixed (view 1 unknown mixed_log)
process_all-view_example = process_all-view 1 mixed_log after_mixed mixed_runs

recover-views_example :
    (ids : List ℕ) × IsAscending 0 ids
    × ((t : ℕ) → (view t unknown mixed_log ≡ unknown) ⊎ In t ids)
    × (mixed_result.committed_writes ≡ kept_of (λ t. view t unknown mixed_log) ids)
    × (mixed_result.active_transactions ≡ running_of (λ t. view t unknown mixed_log) ids)
recover-views_example = recover-views mixed_log mixed_result mixed_recovers

own_mixed :
    own 1 mixed_log ≡ begin 1 ∷ (map (write_record 1) (put_a ∷ put_b ∷ []) ++ (commit 1 ∷ []))
unfolding own ℕ_discrete
own_mixed = refl

committed_writes_lem_example :
    (state_of 1 after_mixed ≡ some committed)
    × (writes_of 1 after_mixed ≡ some (put_a ∷ put_b ∷ []))
committed_writes_lem_example =
    committed_writes_lem 1 (put_a ∷ put_b ∷ []) mixed_log after_mixed mixed_runs own_mixed

-- The records of a commit of transaction 1, with the prepare record that the engine writes.
abbrev prepared_log : List RecordData
prepared_log = begin 1 ∷ write_record 1 put_a ∷ prepare 1 ∷ commit 1 ∷ []

abbrev after_prepared : WalRecovery
after_prepared = record {
  transactions = (1, committed) ∷ [];
  transaction_writes = (1, []) ∷ [];
  last_checkpoint_lsn = none;
  checkpoint_active_txns = none;
  records_processed = 4;
}

prepared_runs : process_all new prepared_log ≡ ok after_prepared
unfolding process_all get insert_sorted ℕ_discrete
prepared_runs = refl

own_prepared :
    own 1 prepared_log
    ≡ begin 1 ∷ (map (write_record 1) (put_a ∷ []) ++ (prepare 1 ∷ commit 1 ∷ []))
unfolding own ℕ_discrete
own_prepared = refl

prepared_writes_lost_example :
    (state_of 1 after_prepared ≡ some committed) × (writes_of 1 after_prepared ≡ some [])
prepared_writes_lost_example =
    prepared_writes_lost 1 (put_a ∷ []) prepared_log after_prepared prepared_runs own_prepared

view_mixed : Shows 2 after_mixed (running (put_b ∷ []))
unfolding get ℕ_discrete
view_mixed = (refl, refl)

process_record-verdict_example :
    kind (process_record after_mixed (commit 2)) ≡ verdict (commit 2) (running (put_b ∷ []))
process_record-verdict_example =
    process_record-verdict after_mixed (commit 2) (running (put_b ∷ [])) view_mixed

known_mixed : view 2 unknown mixed_log ≢ unknown
unfolding view
known_mixed h = ground arith

write-rollback_panics_example :
    process_all new (mixed_log ++ (rollback 2 ∷ write 2 1 put [] [] ∷ [])) ≡ panic
write-rollback_panics_example =
    write-rollback_panics 2 1 put [] [] mixed_log [] after_mixed mixed_runs known_mixed
