-- ===== src/Wal/Record.antt =====
-- src/wal/record.rs: the records of the log, and the bytes of their data.
pub mod Data
pub mod Frame
use nanostore.Prelude.{
  ℕ, zero, suc, ◌+◌, ◌%◌, ◌^◌, ◌<◌, Option, none, some, List, [], ◌∷◌, ◌++◌, length, take, drop,
  ltb, ◌==◌, if◌then◌else◌, get_or,
}
use nanostore.Prelude.Bytes.{Bytes, to_le, from_le, bytes_at}
use nanostore.Wal.Error.{WalResult, ok, err, invalid_record, deserialization_error, ◌>>=◌}

pub data RecordType : Type 0 where
  begin write commit rollback checkpoint prepare : RecordType

pub data WriteOpType : Type 0 where
  put delete bloom_insert graph_add_edge graph_remove_edge : WriteOpType
  time_series_insert time_series_delete vector_insert vector_delete : WriteOpType
  geo_insert geo_delete full_text_index full_text_update full_text_delete : WriteOpType

pub data RecordData : Type 0 where
  begin : (txn_id : ℕ) → RecordData
  write : (txn_id table_id : ℕ) → WriteOpType → (key value : Bytes) → RecordData
  commit : (txn_id : ℕ) → RecordData
  rollback : (txn_id : ℕ) → RecordData
  checkpoint : (lsn : ℕ) (active_txns : List ℕ) → RecordData
  prepare : (txn_id : ℕ) → RecordData

-- `RecordData::record_type`
unfoldable pub record_type : RecordData → RecordType
record_type (begin txn_id) = RecordType.begin
record_type (write txn_id table_id op key value) = RecordType.write
record_type (commit txn_id) = RecordType.commit
record_type (rollback txn_id) = RecordType.rollback
record_type (checkpoint lsn active) = RecordType.checkpoint
record_type (prepare txn_id) = RecordType.prepare

-- `RecordData::txn_id`
unfoldable pub txn_id_of : RecordData → Option ℕ
txn_id_of (begin txn_id) = some txn_id
txn_id_of (write txn_id table_id op key value) = some txn_id
txn_id_of (commit txn_id) = some txn_id
txn_id_of (rollback txn_id) = some txn_id
txn_id_of (checkpoint lsn active) = none
txn_id_of (prepare txn_id) = some txn_id

-- `RecordType::to_u8`
unfoldable pub type_to_u8 : RecordType → ℕ
type_to_u8 RecordType.begin = 1
type_to_u8 RecordType.write = 2
type_to_u8 RecordType.commit = 3
type_to_u8 RecordType.rollback = 4
type_to_u8 RecordType.checkpoint = 5
type_to_u8 RecordType.prepare = 6

-- `RecordType::from_u8`
unfoldable pub type_from_u8 : ℕ → WalResult RecordType
type_from_u8 b =
    if b == 1
    then ok RecordType.begin
    else if b == 2
    then ok RecordType.write
    else if b == 3
    then ok RecordType.commit
    else if b == 4
    then ok RecordType.rollback
    else if b == 5
    then ok RecordType.checkpoint
    else if b == 6
    then ok RecordType.prepare
    else err (invalid_record 0)

-- `WriteOpType::to_u8`
unfoldable pub op_to_u8 : WriteOpType → ℕ
op_to_u8 put = 1
op_to_u8 delete = 2
op_to_u8 bloom_insert = 3
op_to_u8 graph_add_edge = 4
op_to_u8 graph_remove_edge = 5
op_to_u8 time_series_insert = 6
op_to_u8 time_series_delete = 7
op_to_u8 vector_insert = 8
op_to_u8 vector_delete = 9
op_to_u8 geo_insert = 10
op_to_u8 geo_delete = 11
op_to_u8 full_text_index = 12
op_to_u8 full_text_update = 13
op_to_u8 full_text_delete = 14

-- `WriteOpType::from_u8`
unfoldable pub op_from_u8 : ℕ → WalResult WriteOpType
op_from_u8 b =
    if b == 1
    then ok put
    else if b == 2
    then ok delete
    else if b == 3
    then ok bloom_insert
    else if b == 4
    then ok graph_add_edge
    else if b == 5
    then ok graph_remove_edge
    else if b == 6
    then ok time_series_insert
    else if b == 7
    then ok time_series_delete
    else if b == 8
    then ok vector_insert
    else if b == 9
    then ok vector_delete
    else if b == 10
    then ok geo_insert
    else if b == 11
    then ok geo_delete
    else if b == 12
    then ok full_text_index
    else if b == 13
    then ok full_text_update
    else if b == 14
    then ok full_text_delete
    else err (invalid_record 0)

-- the loop over `active_txns`
unfoldable pub serialize_txns : List ℕ → Bytes
serialize_txns [] = []
serialize_txns (t ∷ ts) = to_le 8 t ++ serialize_txns ts

-- `serialize_data`; writing to a `Vec` does not fail. `len() as u32` wraps.
unfoldable pub serialize_data : RecordData → Bytes
unfolding serialize_txns op_to_u8
serialize_data (begin txn_id) = to_le 8 txn_id
serialize_data (write txn_id table_id op key value) =
    to_le 8 txn_id
    ++ (to_le 8 table_id
        ++ (op_to_u8 op
            ∷ (to_le 4 (length key % 2 ^ 32)
                ++ (key ++ (to_le 4 (length value % 2 ^ 32) ++ value)))))
serialize_data (commit txn_id) = to_le 8 txn_id
serialize_data (rollback txn_id) = to_le 8 txn_id
serialize_data (checkpoint lsn active) =
    to_le 8 lsn ++ (to_le 4 (length active % 2 ^ 32) ++ serialize_txns active)
serialize_data (prepare txn_id) = to_le 8 txn_id

-- `u64::from_le_bytes(bytes[cursor..cursor + 8])`, after the test of the length
abbrev pub read_le : ℕ → ℕ → Bytes → WalResult ℕ
read_le n cursor bytes =
    if ltb (length bytes) (cursor + n)
    then err (deserialization_error cursor)
    else ok (from_le (bytes_at cursor n bytes))

-- `bytes[cursor..cursor + n].to_vec()`, after the test of the length
abbrev pub read_bytes : ℕ → ℕ → Bytes → WalResult Bytes
read_bytes n cursor bytes =
    if ltb (length bytes) (cursor + n)
    then err (deserialization_error cursor)
    else ok (bytes_at cursor n bytes)

-- the loop over the transactions of a checkpoint: `num_txns` rounds from `cursor` on
unfoldable pub deserialize_txns : ℕ → ℕ → Bytes → WalResult (List ℕ)
deserialize_txns zero cursor bytes = ok []
deserialize_txns (suc n) cursor bytes = do
  t ← read_le 8 cursor bytes
  ts ← deserialize_txns n (cursor + 8) bytes
  ok (t ∷ ts)

-- the arm of `deserialize_data` for a write
unfoldable pub deserialize_write : Bytes → WalResult RecordData
unfolding op_from_u8
deserialize_write bytes = do
  txn_id ← read_le 8 0 bytes
  table_id ← read_le 8 8 bytes
  code ← read_le 1 16 bytes
  op ← op_from_u8 code
  key_len ← read_le 4 17 bytes
  key ← read_bytes key_len 21 bytes
  value_len ← read_le 4 (21 + key_len) bytes
  value ← read_bytes value_len (21 + key_len + 4) bytes
  ok (write txn_id table_id op key value)

-- the arm of `deserialize_data` for a checkpoint
unfoldable pub deserialize_checkpoint : Bytes → WalResult RecordData
unfolding deserialize_txns
deserialize_checkpoint bytes = do
  lsn ← read_le 8 0 bytes
  num_txns ← read_le 4 8 bytes
  active ← deserialize_txns num_txns 12 bytes
  ok (checkpoint lsn active)

unfoldable pub deserialize_data : RecordType → Bytes → WalResult RecordData
unfolding deserialize_write deserialize_checkpoint
deserialize_data RecordType.begin bytes = do txn_id ← read_le 8 0 bytes; ok (begin txn_id)
deserialize_data RecordType.write bytes = deserialize_write bytes
deserialize_data RecordType.commit bytes = do txn_id ← read_le 8 0 bytes; ok (commit txn_id)
deserialize_data RecordType.rollback bytes = do txn_id ← read_le 8 0 bytes; ok (rollback txn_id)
deserialize_data RecordType.checkpoint bytes = deserialize_checkpoint bytes
deserialize_data RecordType.prepare bytes = do txn_id ← read_le 8 0 bytes; ok (prepare txn_id)
