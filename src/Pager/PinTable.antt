-- ===== src/Pager/PinTable.antt =====
-- src/pager/pin_table.rs: reference counts of the pages in use. Each call holds the table's lock, so
-- any interleaving of threads is a sequence of calls.
pub mod Guards
use nanostore.Prelude.{
  ℕ, ◌+◌, ◌-◌, Bool, true, false, Option, none, some, List, [], ◌∷◌, ltb, ◌==◌, if◌then◌else◌,
  ℕ_discrete, length,
}
use nanostore.Prelude.Maps.{get, insert, remove}

pub record PinTable : Type 0 where
  pub pins : List (ℕ × ℕ)

abbrev pub new : PinTable
new = record { pins = [] }

-- `copied().unwrap_or(0)`
abbrev pub or_zero : Option ℕ → ℕ
or_zero none = 0
or_zero (some count) = count

unfoldable pub ref_count : PinTable → ℕ → ℕ
ref_count t page_id = or_zero (get ℕ_discrete page_id t.pins)

-- `entry(page_id).or_insert(0)`, and `+= 1`
unfoldable pub pin : PinTable → ℕ → ℕ × PinTable
pin t page_id =
    let count = or_zero (get ℕ_discrete page_id t.pins) + 1 in
    (count, record { pins = insert ℕ_discrete page_id count t.pins })

unfoldable pub unpin : PinTable → ℕ → Option ℕ × PinTable
unpin t page_id = elim (get ℕ_discrete page_id t.pins) [
  | none ↦ (none, t)
  | some count ↦
      if ltb 0 count
      then (
        some (count - 1),
        record {
          pins =
              if count - 1 == 0
              then remove ℕ_discrete page_id t.pins
              else insert ℕ_discrete page_id (count - 1) t.pins;
        },
      )
      else (none, t)
]

unfoldable pub is_pinned : PinTable → ℕ → Bool
is_pinned t page_id = elim (get ℕ_discrete page_id t.pins) [
  | none ↦ false
  | some count ↦ ltb 0 count
]

unfoldable pub pinned_count : PinTable → ℕ
pinned_count t = length t.pins

-- `PinGuard::new` and its `drop`
unfoldable pub guard : PinTable → ℕ → PinTable
unfolding pin
guard t page_id = (pin t page_id).1

unfoldable pub drop_guard : PinTable → ℕ → PinTable
unfolding unpin
drop_guard t page_id = (unpin t page_id).1
