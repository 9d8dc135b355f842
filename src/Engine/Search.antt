-- ===== src/Engine/Search.antt =====
-- The binary searches of packages/column-live-view-engine/src/topic-ordered-window.ts. Both loops go
-- right or left at the middle until the range is empty; `fuel` bounds the number of rounds.
use view_server_smart.Shared.{
  ℕ, zero, suc, ◌+◌, ◌/◌, Bool, true, false, not, Option, none, some, List, length, get_elem?, ltb,
}
use view_server_smart.Shared.Order.{Comparison, is_more}
pub mod Loop
pub mod Insertion

-- The range that is left to search.
pub record SearchRange : Type 0 where
  pub low : ℕ
  pub high : ℕ

-- The range when the loop ends by its test, or when the fuel runs out.
unfoldable pub search_range : (ℕ → Bool) → ℕ → ℕ → ℕ → SearchRange
search_range goes_right zero low high = record { low = low; high = high }
search_range goes_right (suc fuel) low high = elim (ltb low high) [
  | false ↦ record { low = low; high = high }
  | true ↦ elim (goes_right ((low + high) / 2)) [
    | true ↦ search_range goes_right fuel ((low + high) / 2 + 1) high
    | false ↦ search_range goes_right fuel low ((low + high) / 2)
  ]
]

abbrev pub search_loop : (ℕ → Bool) → ℕ → ℕ → ℕ → ℕ
search_loop goes_right fuel low high = (search_range goes_right fuel low high).low

module _ {A : Type 0} where
  -- `compareSlots(slots[middle]!, slot) <= 0`.
  abbrev pub not_above : (A → A → Comparison) → List A → A → ℕ → Bool
  not_above compare slots slot middle = elim (get_elem? slots middle) [
    | none ↦ false
    | some other ↦ not (is_more (compare other slot))
  ]

  unfoldable pub ordered_slot_index_insertion_point : List A → A → (A → A → Comparison) → ℕ
  ordered_slot_index_insertion_point slots slot compare =
      search_loop (not_above compare slots slot) (length slots) 0 (length slots)

  -- Where `predicate` does not hold of `compareOrderedSlotRangeValue(column, slots[middle]!, value)`.
  abbrev pub before_bound : (A → Comparison) → (Comparison → Bool) → List A → ℕ → Bool
  before_bound compare_to_value predicate slots middle = elim (get_elem? slots middle) [
    | none ↦ false
    | some slot ↦ not (predicate (compare_to_value slot))
  ]

  unfoldable pub ordered_slot_bound_index : List A → (A → Comparison) → (Comparison → Bool) → ℕ
  ordered_slot_bound_index slots compare_to_value predicate =
      search_loop (before_bound compare_to_value predicate slots) (length slots) 0 (length slots)
