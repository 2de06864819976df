-- ===== src/Wal/Record/Data.antt =====
-- The data of a log record survives serialization (src/wal/record.rs).
use mathlib.Core.List.{append-nil}
use nanostore.Prelude.{
  ℕ, ◌+◌, ◌%◌, ◌^◌, ◌<◌, ◌≡◌, refl, sym, List, [], ◌∷◌, ◌++◌, length, arith, length-append,
  take-append,
}
use nanostore.Prelude.Bytes.{Bytes, to_le, from_le, from_le-to_le, length-to_le}
use nanostore.Prelude.Cursor.{At, At-start, At-step, AllU64}
use nanostore.Wal.Error.{WalResult, ok, ◌>>=◌}
use nanostore.Wal.Record.{
  WriteOpType, put, RecordData, begin, write, commit, rollback, checkpoint, prepare, record_type,
  op_to_u8, op_from_u8, serialize_txns, serialize_data, read_le, read_bytes, deserialize_txns,
  deserialize_write, deserialize_checkpoint, deserialize_data,
}

-- The integers fit their fields, and so do the lengths.
abbrev pub InRange : RecordData → Type 0
InRange (begin txn_id) = txn_id < 2 ^ 64
InRange (write txn_id table_id op key value) =
    (txn_id < 2 ^ 64) × (table_id < 2 ^ 64) × (length key < 2 ^ 32) × (length value < 2 ^ 32)
InRange (commit txn_id) = txn_id < 2 ^ 64
InRange (rollback txn_id) = txn_id < 2 ^ 64
InRange (checkpoint lsn active) = (lsn < 2 ^ 64) × (length active < 2 ^ 32) × AllU64 active
InRange (prepare txn_id) = txn_id < 2 ^ 64

read_bytes-At :
    (n cursor : ℕ) (bytes field rest : Bytes)
    → length field ≡ n
    → At cursor bytes (field ++ rest)
    → read_bytes n cursor bytes ≡ ok field
read_bytes-At n cursor bytes field rest e a =
    ground (arith, a.here, a.room, length-append field rest, take-append n field rest e)

read_le-At :
    (n cursor x : ℕ) (bytes rest : Bytes)
    → x < 256 ^ n
    → At cursor bytes (to_le n x ++ rest)
    → read_le n cursor bytes ≡ ok x
read_le-At n cursor x bytes rest h a = ground (
  arith,
  a.here,
  a.room,
  length-append (to_le n x) rest,
  length-to_le n x,
  take-append n (to_le n x) rest (length-to_le n x),
  from_le-to_le n x h,
)

read_u8-At :
    (cursor b : ℕ) (bytes rest : Bytes) → At cursor bytes (b ∷ rest) → read_le 1 cursor bytes ≡ ok b
unfolding from_le
read_u8-At cursor b bytes rest a = ground (arith, a.here, a.room)

txns-At :
    (ts : List ℕ) (cursor : ℕ) (bytes : Bytes)
    → AllU64 ts
    → At cursor bytes (serialize_txns ts)
    → deserialize_txns (length ts) cursor bytes ≡ ok ts
unfolding serialize_txns deserialize_txns
txns-At [] cursor bytes h a = refl
txns-At (t ∷ ts) cursor bytes h a = rw (
  read_le-At 8 cursor t bytes (serialize_txns ts) (omega (arith, h.0)) a,
  txns-At ts (cursor + 8) bytes h.1
      (At-step 8 cursor bytes (to_le 8 t) (serialize_txns ts) (length-to_le 8 t) a),
)

op_from_u8-op_to_u8 : (op : WriteOpType) → op_from_u8 (op_to_u8 op) ≡ ok op
unfolding op_from_u8 op_to_u8
op_from_u8-op_to_u8 put = refl
op_from_u8-op_to_u8 _ = refl

-- Each record that carries only a transaction's identifier.
deserialize_txn_id :
    (txn_id : ℕ) (f : ℕ → WalResult RecordData)
    → txn_id < 2 ^ 64
    → (read_le 8 0 (to_le 8 txn_id) >>= f) ≡ f txn_id
deserialize_txn_id txn_id f h =
    rw (read_le-At 8 0 txn_id (to_le 8 txn_id) [] (omega (arith, h)) (rw append-nil (At-start _)))

-- The reads of `deserialize_write`, one after the other.
deserialize_write-At :
    (txn_id table_id key_len value_len : ℕ) (op : WriteOpType) (key value bytes rest : Bytes)
    → InRange (write txn_id table_id op key value)
    → length key ≡ key_len
    → length value ≡ value_len
    → At 0 bytes (
        to_le 8 txn_id
        ++ (to_le 8 table_id
            ++ (op_to_u8 op
                ∷ (to_le 4 key_len ++ (key ++ (to_le 4 value_len ++ (value ++ rest)))))))
    → deserialize_write bytes ≡ ok (write txn_id table_id op key value)
unfolding deserialize_write
deserialize_write-At txn_id table_id key_len value_len op key value bytes rest h k v a =
    let a₁ = At-step 8 0 bytes (to_le 8 txn_id) _ (length-to_le 8 txn_id) a in
    let a₂ = At-step 8 8 bytes (to_le 8 table_id) _ (length-to_le 8 table_id) a₁ in
    let a₃ = At-step 1 16 bytes (op_to_u8 op ∷ []) _ refl a₂ in
    let a₄ = At-step 4 17 bytes (to_le 4 key_len) _ (length-to_le 4 key_len) a₃ in
    let a₅ = At-step key_len 21 bytes key _ k a₄ in
    let a₆ = At-step 4 (21 + key_len) bytes (to_le 4 value_len) _ (length-to_le 4 value_len) a₅ in
    rw (
      read_le-At 8 0 txn_id bytes _ (omega (arith, h.0)) a,
      read_le-At 8 8 table_id bytes _ (omega (arith, h.1)) a₁,
      read_u8-At 16 (op_to_u8 op) bytes _ a₂,
      op_from_u8-op_to_u8 op,
      read_le-At 4 17 key_len bytes _ (omega (arith, h.2, k)) a₃,
      read_bytes-At key_len 21 bytes key _ k a₄,
      read_le-At 4 (21 + key_len) value_len bytes _ (omega (arith, h.3, v)) a₅,
      read_bytes-At value_len (21 + key_len + 4) bytes value rest v a₆,
    )

small : (n : ℕ) → n < 2 ^ 32 → n % 2 ^ 32 ≡ n
small n h = omega arith

deserialize_checkpoint-At :
    (lsn n : ℕ) (active : List ℕ) (bytes : Bytes)
    → InRange (checkpoint lsn active)
    → length active ≡ n
    → At 0 bytes (to_le 8 lsn ++ (to_le 4 n ++ serialize_txns active))
    → deserialize_checkpoint bytes ≡ ok (checkpoint lsn active)
unfolding deserialize_checkpoint
deserialize_checkpoint-At lsn n active bytes h e a =
    let a₁ = At-step 8 0 bytes (to_le 8 lsn) _ (length-to_le 8 lsn) a in
    let a₂ = At-step 4 8 bytes (to_le 4 n) _ (length-to_le 4 n) a₁ in
    rw (
      read_le-At 8 0 lsn bytes _ (omega (arith, h.0)) a,
      read_le-At 4 8 n bytes _ (omega (arith, h.1, e)) a₁,
      ← e,
      txns-At active 12 bytes h.2 a₂,
    )

-- A record whose integers fit their fields, and whose key, value and list of transactions are
-- shorter than 2^32, is read back from its serialized data under its own record type.
pub deserialize-serialize :
    (d : RecordData) → InRange d → deserialize_data (record_type d) (serialize_data d) ≡ ok d
unfolding serialize_data deserialize_data record_type
deserialize-serialize (begin txn_id) h = deserialize_txn_id txn_id (λ t. ok (begin t)) h
deserialize-serialize (commit txn_id) h = deserialize_txn_id txn_id (λ t. ok (commit t)) h
deserialize-serialize (rollback txn_id) h = deserialize_txn_id txn_id (λ t. ok (rollback t)) h
deserialize-serialize (prepare txn_id) h = deserialize_txn_id txn_id (λ t. ok (prepare t)) h
deserialize-serialize (checkpoint lsn active) h =
    deserialize_checkpoint-At lsn (length active % 2 ^ 32) active _ h
      (sym (small (length active) h.1)) (At-start _)
deserialize-serialize (write txn_id table_id op key value) h =
    deserialize_write-At txn_id table_id (length key % 2 ^ 32) (length value % 2 ^ 32) op key value
      (serialize_data (write txn_id table_id op key value)) [] h (sym (small (length key) h.2))
      (sym (small (length value) h.3)) (rw append-nil (At-start _))
