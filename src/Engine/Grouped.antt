-- ===== src/Engine/Grouped.antt =====
-- The window of a grouped query: packages/column-live-view-engine/src/grouped-window-evaluation.ts. A group has a key
-- and finalizes to a row; `compare_values` is `compareQueryValue`, `compare_keys` compares two strings.
use view_server_smart.Shared.{
  ℕ, ◌+◌, Bool, true, false, Option, none, some, List, [], ◌∷◌, map, length, take, drop, leb,
  if◌then◌else◌,
}
use view_server_smart.Shared.Arrays.{keys_of, rows_of}
use view_server_smart.Shared.Order.{
  Comparison, less, same, more, reverse, is_less, is_more, directed,
}
use view_server_smart.Shared.Order.Sorting.{sort_by}
use view_server_smart.Engine.Evaluation.{QueryEvaluation}
use view_server_smart.Engine.Heap.{retain_bounded}
use view_server_smart.Engine.Scan.{WindowPlan, max_safe_integer}
pub mod Keys
pub mod Bounded

-- `order.direction`, with what the order reads of a group and of the finalized row.
pub record CompiledGroupedOrderBy (G V K R : Type 0) : Type 0 where
  pub ascending : Bool
  pub group_value : G → V
  pub row_value : K × R → V

pub record BoundedGroupEntry (G V : Type 0) : Type 0 where
  pub group : G
  pub order_values : List V

abbrev pub max_bounded_grouped_window_end : ℕ
max_bounded_grouped_window_end = 1024

abbrev pub grouped_window_end : WindowPlan → Option ℕ
grouped_window_end plan = elim plan.limit [
  | none ↦ none
  | some limit ↦
      if leb (plan.offset + limit) max_safe_integer
      then (if leb (plan.offset + limit) max_bounded_grouped_window_end
          then some (plan.offset + limit)
          else none)
      else none
]

-- `ordered.slice(offset, limit === undefined ? undefined : offset + limit)`.
abbrev pub slice_rows : {A : Type 0} → WindowPlan → List A → List A
slice_rows plan rows = elim plan.limit [
  | none ↦ drop plan.offset rows
  | some limit ↦ drop plan.offset (take (plan.offset + limit) rows)
]

module _ {G V K R : Type 0} (key_of : G → K) (finalize_row : G → R)
    (compare_values : V → V → Comparison) (compare_keys : K → K → Comparison)
    (order_by : List (CompiledGroupedOrderBy G V K R)) where
  abbrev pub finalize_group : G → K × R
  finalize_group group = (key_of group, finalize_row group)

  abbrev pub compare_row_values : List (CompiledGroupedOrderBy G V K R) → K × R → K × R → Comparison
  compare_row_values [] left right = compare_keys left.0 right.0
  compare_row_values (order ∷ orders) left right =
      let next = compare_row_values orders left right in
      directed order.ascending (compare_values (order.row_value left) (order.row_value right)) next

  abbrev pub compare_grouped_rows : K × R → K × R → Comparison
  compare_grouped_rows left right = compare_row_values order_by left right

  abbrev pub group_order_values : List (CompiledGroupedOrderBy G V K R) → G → List V
  group_order_values [] group = []
  group_order_values (order ∷ orders) group =
      order.group_value group ∷ group_order_values orders group

  abbrev pub new_bounded_group_entry : G → BoundedGroupEntry G V
  new_bounded_group_entry group = record {
    group = group;
    order_values = group_order_values order_by group;
  }

  -- The order values of the two stand index by index; both have one for each order.
  abbrev pub compare_order_values :
      List (CompiledGroupedOrderBy G V K R) → List V → List V → Comparison → Comparison
  compare_order_values [] left right keys = keys
  compare_order_values (order ∷ orders) [] right keys = keys
  compare_order_values (order ∷ orders) (l ∷ left) [] keys = keys
  compare_order_values (order ∷ orders) (l ∷ left) (r ∷ right) keys =
      let next = compare_order_values orders left right keys in
      directed order.ascending (compare_values l r) next

  abbrev pub compare_bounded_group_entries :
      BoundedGroupEntry G V → BoundedGroupEntry G V → Comparison
  compare_bounded_group_entries left right =
      compare_order_values order_by left.order_values right.order_values
        (compare_keys (key_of left.group) (key_of right.group))

  abbrev pub bounded_group_entry_is_worse : BoundedGroupEntry G V → BoundedGroupEntry G V → Bool
  bounded_group_entry_is_worse left right = is_more (compare_bounded_group_entries left right)

  -- The new entry is compared before it takes the place of the worst.
  abbrev pub retain_bounded_group :
      ℕ → List (BoundedGroupEntry G V) → G → List (BoundedGroupEntry G V)
  retain_bounded_group window_end groups group =
      retain_bounded bounded_group_entry_is_worse bounded_group_entry_is_worse
        (λ entry worst. is_less (compare_bounded_group_entries entry worst)) window_end groups
        (new_bounded_group_entry group)

  unfoldable pub retain_groups :
      ℕ → List (BoundedGroupEntry G V) → List G → List (BoundedGroupEntry G V)
  retain_groups window_end retained [] = retained
  retain_groups window_end retained (group ∷ groups) =
      retain_groups window_end (retain_bounded_group window_end retained group) groups

  abbrev pub evaluation_of_window : List (K × R) → ℕ → ℕ → QueryEvaluation K R
  evaluation_of_window window total version = record {
    rows = rows_of window;
    keys = keys_of window;
    window = window;
    total_rows = total;
    version = version;
  }

  abbrev pub group_of_entry : BoundedGroupEntry G V → G
  group_of_entry entry = entry.group

  unfoldable pub bounded_grouped_evaluation_from_groups :
      List G → WindowPlan → ℕ → ℕ → QueryEvaluation K R
  bounded_grouped_evaluation_from_groups groups plan version window_end =
      let retained = sort_by compare_bounded_group_entries (retain_groups window_end [] groups) in
      evaluation_of_window
        (map (λ entry. finalize_group (group_of_entry entry)) (drop plan.offset retained))
        (length groups) version

  unfoldable pub grouped_evaluation_from_entries :
      List (K × R) → WindowPlan → ℕ → QueryEvaluation K R
  grouped_evaluation_from_entries entries plan version =
      let ordered = sort_by compare_grouped_rows entries in
      evaluation_of_window (slice_rows plan ordered) (length ordered) version

  unfoldable pub grouped_evaluation_from_groups : List G → WindowPlan → ℕ → QueryEvaluation K R
  grouped_evaluation_from_groups groups plan version = elim (grouped_window_end plan) [
    | none ↦ grouped_evaluation_from_entries (map finalize_group groups) plan version
    | some window_end ↦ bounded_grouped_evaluation_from_groups groups plan version window_end
  ]
