-- ===== src/Engine/Storage.antt =====
-- The rows of a topic (`TopicRowStorage` in
-- packages/column-live-view-engine/src/topic-row-storage.ts): the slots, the map from keys to slots,
-- the journal and the version. The columns and the indexes, which are derived from the slots, are not
-- modelled. `rowsEqual` and `topicRowChangedFieldsFromRows` are parameters. Where the source reads a
-- slot that is not there and throws, the result is `none`.
use view_server_smart.Shared.{
  ℕ, ◌+◌, ◌-◌, Bool, true, false, Option, none, some, List, [], ◌∷◌, ◌++◌, length, get_elem?, set,
  ◌==◌, if◌then◌else◌,
}
use view_server_smart.Shared.KeyIndexes.{KeyIndexes, set_index, delete_index}
use view_server_smart.Engine.Journal.{
  Journal, record_change, clear, commit, retain, release, changes_since, ChangeBatch,
}
pub mod Elements
pub mod Slots
pub mod Swap
pub mod Rows
pub mod Deletion
pub mod Batch

pub record TopicRowChange (K R F : Type 0) : Type 0 where
  pub changed_fields : Option F
  pub key : K
  pub next : Option R
  pub previous : Option R

pub data PreparedSource : Type 0 where
  from_patch : PreparedSource
  from_row : PreparedSource

pub record PreparedTopicRow (K R : Type 0) : Type 0 where
  pub key : K
  pub row : R
  pub source : PreparedSource

pub record RowStorage (K R F : Type 0) : Type 0 where
  pub slots : List (K × R)
  pub key_to_slot : KeyIndexes K
  pub row_change_journal : Journal (TopicRowChange K R F)
  pub version_value : ℕ

-- `Array.pop`.
abbrev pub pop {ℓ} : {A : Type ℓ} → List A → List A
pop [] = []
pop (x ∷ []) = []
pop (x ∷ y ∷ ys) = x ∷ pop (y ∷ ys)

module _ {K R F : Type 0} where
  unfoldable pub record_row_change : TopicRowChange K R F → RowStorage K R F → RowStorage K R F
  record_row_change change storage = record storage {
    row_change_journal = record_change change storage.version_value storage.row_change_journal;
  }

  unfoldable pub advance : RowStorage K R F → RowStorage K R F
  advance storage = record storage {
    version_value = storage.version_value + 1;
    row_change_journal = commit storage.row_change_journal (storage.version_value + 1);
  }

  unfoldable pub clear_rows : RowStorage K R F → RowStorage K R F
  clear_rows storage = record {
    slots = [];
    key_to_slot = λ k. none;
    row_change_journal = clear storage.row_change_journal storage.version_value;
    version_value = 0;
  }

  unfoldable pub row_for_key : RowStorage K R F → K → Option R
  row_for_key storage key = elim (storage.key_to_slot key) [
    | none ↦ none
    | some slot ↦ elim (get_elem? storage.slots slot) [ none ↦ none | some entry ↦ some entry.1 ]
  ]

  unfoldable pub key_at_slot : RowStorage K R F → ℕ → Option K
  key_at_slot storage slot = elim (get_elem? storage.slots slot) [
    | none ↦ none
    | some entry ↦ some entry.0
  ]

module _ {K R F : Type 0} (dec : Discrete K) (rows_equal : R → R → Bool)
    (changed_fields_from_rows : R → R → Option F) where
  -- `none` where the row is equal to the one that is there, else the changed fields.
  unfoldable pub prepared_replacement : PreparedTopicRow K R → R → Option (Option F)
  prepared_replacement prepared previous =
      if rows_equal previous prepared.row then none else elim prepared.source [
        | from_row ↦ some none
        | from_patch ↦ some (changed_fields_from_rows previous prepared.row)
      ]

  unfoldable pub append_row : PreparedTopicRow K R → RowStorage K R F → RowStorage K R F
  append_row prepared storage =
      record_row_change
        (record {
          changed_fields = none;
          key = prepared.key;
          next = some prepared.row;
          previous = none;
        })
        (record storage {
          slots = storage.slots ++ (prepared.key, prepared.row) ∷ [];
          key_to_slot = set_index dec storage.key_to_slot prepared.key (length storage.slots);
        })

  unfoldable pub replace_row :
      ℕ → R → Option F → PreparedTopicRow K R → RowStorage K R F → RowStorage K R F
  replace_row slot previous changed prepared storage =
      record_row_change
        (record {
          changed_fields = changed;
          key = prepared.key;
          next = some prepared.row;
          previous = some previous;
        })
        (record storage { slots = set storage.slots slot (prepared.key, prepared.row) })

  -- The number of changed rows, and the storage.
  unfoldable pub set_prepared :
      PreparedTopicRow K R → RowStorage K R F → Option (ℕ × RowStorage K R F)
  set_prepared prepared storage = elim (storage.key_to_slot prepared.key) [
    | none ↦ some (1, append_row prepared storage)
    | some slot ↦ elim (get_elem? storage.slots slot) [
      | none ↦ none
      | some entry ↦ elim (prepared_replacement prepared entry.1) [
        | none ↦ some (0, storage)
        | some changed ↦ some (1, replace_row slot entry.1 changed prepared storage)
      ]
    ]
  ]

  -- `setPreparedMany`: its two loops do the same to what is modelled.
  unfoldable pub set_prepared_many :
      List (PreparedTopicRow K R) → RowStorage K R F → Option (ℕ × RowStorage K R F)
  set_prepared_many [] storage = some (0, storage)
  set_prepared_many (prepared ∷ rest) storage = elim (set_prepared prepared storage) [
    | none ↦ none
    | some changed ↦ elim (set_prepared_many rest changed.1) [
      | none ↦ none
      | some all ↦ some (changed.0 + all.0, all.1)
    ]
  ]

module _ {K R F : Type 0} (dec : Discrete K) where
  -- The last entry takes the place of the deleted one.
  unfoldable pub swap_last : ℕ → ℕ → K × R → K → RowStorage K R F → RowStorage K R F
  swap_last slot last_slot last_entry key storage =
      let unmapped = delete_index dec storage.key_to_slot key in
      if slot == last_slot
      then record storage { key_to_slot = unmapped; slots = pop storage.slots }
      else record storage {
        key_to_slot = set_index dec unmapped last_entry.0 slot;
        slots = pop (set storage.slots slot last_entry);
      }

  unfoldable pub delete_row : K → RowStorage K R F → Option (ℕ × RowStorage K R F)
  delete_row key storage = elim (storage.key_to_slot key) [
    | none ↦ some (0, storage)
    | some slot ↦
        let last_slot = length storage.slots - 1 in
        elim (get_elem? storage.slots last_slot) [
          | none ↦ none
          | some last_entry ↦ elim (get_elem? storage.slots slot) [
            | none ↦ none
            | some entry ↦ some (
              1,
              record_row_change
                  (record {
                    changed_fields = none;
                    key = key;
                    next = none;
                    previous = some entry.1;
                  })
                  (swap_last slot last_slot last_entry key storage),
            )
          ]
        ]
  ]
