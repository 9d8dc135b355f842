-- ===== src/Engine/Index.antt =====
-- The ordered index of a topic's slots: packages/column-live-view-engine/src/topic-raw-ordered-window-index.ts. The
-- comparison of a column and the key of a slot are arguments; `compare_keys` compares two strings.
use view_server_smart.Shared.{
  ℕ, zero, suc, Bool, true, false, Option, none, some, List, [], ◌∷◌, ◌==◌, if◌then◌else◌,
}
use view_server_smart.Shared.Splice.{splice_in, splice_out}
use view_server_smart.Shared.Order.{Comparison, directed}
use view_server_smart.Shared.Order.Sorting.{sort_by}
use view_server_smart.Engine.Search.{ordered_slot_index_insertion_point}
use view_server_smart.Engine.Scan.{upto}
pub mod Kept

pub record RawStorageOrderColumn : Type 0 where
  pub compare_column_slots : ℕ → ℕ → Comparison
  pub ascending : Bool

module _ {K : Type 0} (compare_keys : K → K → Comparison) (key_at : ℕ → K) where
  abbrev pub compare_slots_by_storage_order : List RawStorageOrderColumn → ℕ → ℕ → Comparison
  compare_slots_by_storage_order [] left right = compare_keys (key_at left) (key_at right)
  compare_slots_by_storage_order (order ∷ orders) left right =
      let next = compare_slots_by_storage_order orders left right in
      directed order.ascending (order.compare_column_slots left right) next

  module _ (order_columns : List RawStorageOrderColumn) where
    abbrev pub insert_slot_into_raw_window_index : List ℕ → ℕ → List ℕ
    insert_slot_into_raw_window_index slots slot =
        splice_in slots
          (ordered_slot_index_insertion_point slots slot
            (compare_slots_by_storage_order order_columns))
          slot

    -- The slots of a new index.
    abbrev pub sorted_slots : ℕ → List ℕ
    sorted_slots slot_count =
        sort_by (compare_slots_by_storage_order order_columns) (upto slot_count)

-- `slots.indexOf(slot)`, which is -1 for none.
abbrev pub index_of : List ℕ → ℕ → Option ℕ
index_of [] slot = none
index_of (x ∷ xs) slot =
    let rest = index_of xs slot in
    if x == slot then some 0 else elim rest [ none ↦ none | some i ↦ some (suc i) ]

abbrev pub remove_slot_from_raw_window_index : List ℕ → ℕ → List ℕ
remove_slot_from_raw_window_index slots slot = elim (index_of slots slot) [
  | none ↦ slots
  | some i ↦ splice_out slots i
]

pub data IndexStep : Type 0 where
  slot_inserted : ℕ → IndexStep
  slot_removed : ℕ → IndexStep
