-- ===== src/Tests/Storage.antt =====
-- A storage of three rows.
use view_server_smart.Shared.{ℕ, ◌≡◌, refl, Option, some, none, [], ◌∷◌, ℕ_discrete}
use view_server_smart.Engine.Journal.{new_journal}
use view_server_smart.Engine.Storage.{
  RowStorage, PreparedTopicRow, from_row, from_patch, row_for_key, set_prepared, set_prepared_many,
  delete_row,
}
use view_server_smart.Engine.Storage.Slots.{IsIndexed, append-IsIndexed}
use view_server_smart.Shared.KeyIndexes.{set_index}
use view_server_smart.Engine.Storage.Rows.{IsStored, IsUpdated, kept_row, set_prepared-row_for_key}
use view_server_smart.Engine.Storage.Deletion.{number_deleted, delete_row-row_for_key}
use view_server_smart.Engine.Storage.Batch.{written_all, set_prepared_many-row_for_key}
use view_server_smart.Tests.{same_row}

abbrev no_slots : ℕ → Option ℕ
no_slots k = none

abbrev one_slot_map : ℕ → Option ℕ
one_slot_map = set_index ℕ_discrete no_slots 5 0

abbrev two_slot_map : ℕ → Option ℕ
two_slot_map = set_index ℕ_discrete one_slot_map 6 1

abbrev three_rows : RowStorage ℕ ℕ ℕ
three_rows = record {
  slots = (5, 50) ∷ (6, 60) ∷ (7, 70) ∷ [];
  key_to_slot = set_index ℕ_discrete two_slot_map 7 2;
  row_change_journal = new_journal none none;
  version_value = 3;
}

no_rows-IsIndexed : IsIndexed {K = ℕ} {R = ℕ} no_slots []
no_rows-IsIndexed = record { sound = λ k i h. cc; complete = λ i k r h. cc }

three_rows-IsStored : IsStored three_rows
unfolding ℕ_discrete
three_rows-IsStored =
    let one = append-IsIndexed ℕ_discrete no_slots [] no_rows-IsIndexed 5 50 refl in
    let two = append-IsIndexed ℕ_discrete one_slot_map ((5, 50) ∷ []) one 6 60 refl in
    append-IsIndexed ℕ_discrete two_slot_map ((5, 50) ∷ (6, 60) ∷ []) two 7 70 refl

abbrev no_fields : ℕ → ℕ → Option ℕ
no_fields a b = none

abbrev patched : PreparedTopicRow ℕ ℕ
patched = record { key = 6; row = 61; source = from_patch }

abbrev fourth_row : PreparedTopicRow ℕ ℕ
fourth_row = record { key = 8; row = 80; source = from_row }

set_prepared-row_for_key_example :
    (changed : ℕ) × (after : RowStorage ℕ ℕ ℕ) × (set_prepared ℕ_discrete same_row no_fields patched
        three_rows
      ≡ some (changed, after))
    × IsUpdated ℕ_discrete three_rows 6
        (some (kept_row same_row patched (row_for_key three_rows 6)))
        after
set_prepared-row_for_key_example =
    set_prepared-row_for_key ℕ_discrete same_row no_fields patched three_rows three_rows-IsStored

set_prepared_many-row_for_key_example :
    (changed : ℕ) × (after : RowStorage ℕ ℕ ℕ) × (set_prepared_many ℕ_discrete same_row no_fields
        (patched ∷ fourth_row ∷ patched ∷ [])
        three_rows
      ≡ some (changed, after))
    × IsStored after
    × ((k : ℕ)
        → row_for_key after k
          ≡ written_all ℕ_discrete same_row
              (patched ∷ fourth_row ∷ patched ∷ [])
              (row_for_key three_rows)
              k)
set_prepared_many-row_for_key_example =
    set_prepared_many-row_for_key ℕ_discrete same_row no_fields
      (patched ∷ fourth_row ∷ patched ∷ []) three_rows three_rows-IsStored

delete_row-row_for_key_example :
    (after : RowStorage ℕ ℕ ℕ) × (delete_row ℕ_discrete 5 three_rows
      ≡ some (number_deleted (row_for_key three_rows 5), after))
    × IsUpdated ℕ_discrete three_rows 5 none after
delete_row-row_for_key_example = delete_row-row_for_key ℕ_discrete 5 three_rows three_rows-IsStored
