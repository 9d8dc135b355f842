-- ===== src/Engine/Aggregates.antt =====
-- The state of one aggregate of a group, kept under additions and removals of rows:
-- packages/column-live-view-engine/src/grouped-aggregate-state.ts. A row comes as the value of the aggregate's field.
-- `stable_string` is `stableQueryValueString`, `compare_values` is `compareQueryValue`, `to_decimal` is
-- `runtimeValueToDecimal`; the decimals are the Effect library's. Values are immutable here, so `cloneUnknown` is left
-- out.
use view_server_smart.Shared.{
  ℕ, ◌+◌, ◌-◌, Bool, true, false, ◌&&◌, Option, none, some, List, [], ◌∷◌, ite, leb, ◌==◌,
  if◌then◌else◌,
}
use view_server_smart.Shared.Int.{ℤ, pos, ◌+ℤ◌, ◌-ℤ◌}
use view_server_smart.Shared.Assoc.{get_entry, set_entry, delete_entry}
use view_server_smart.Shared.Order.{Comparison, is_less, is_more}
pub mod Batch
pub mod Members
pub mod Extremes
pub mod Reversible
pub mod Sums
pub mod Retained
pub mod Dropped
pub mod Steps
pub mod Run

pub data RuntimeGroupedAggregate : Type 0 where
  count : RuntimeGroupedAggregate
  count_distinct : RuntimeGroupedAggregate
  minimum : RuntimeGroupedAggregate
  maximum : RuntimeGroupedAggregate
  average : RuntimeGroupedAggregate
  sum_bigint : RuntimeGroupedAggregate
  sum_big_decimal : RuntimeGroupedAggregate

pub record MinMaxAggregateValueState (V : Type 0) : Type 0 where
  pub entry_count : ℕ
  pub entry_value : V

-- The last but one has no map of values: it cannot take a removal back. `none` is `hasValue: false`.
pub data AggregateState (V S D : Type 0) : Type 0 where
  counting : ℤ → AggregateState V S D
  counting_distinct : List (S × ℕ) → ℤ → AggregateState V S D
  summing_bigint : ℤ → AggregateState V S D
  summing_decimal : D → AggregateState V S D
  averaging : ℤ → D → AggregateState V S D
  base_extreme : Bool → Option V → AggregateState V S D
  retained_extreme : Bool → List (S × MinMaxAggregateValueState V) → Option V → AggregateState V S D

module _ {V S D : Type 0} (dec : Discrete S) (stable_string : V → S)
    (compare_values : V → V → Comparison) (as_bigint : V → Option ℤ) (to_decimal : V → Option D)
    (sum subtract : D → D → D) (zero_decimal : D) where
  abbrev pub empty_aggregate_state : RuntimeGroupedAggregate → AggregateState V S D
  empty_aggregate_state count = counting (pos 0)
  empty_aggregate_state count_distinct = counting_distinct [] (pos 0)
  empty_aggregate_state minimum = base_extreme true none
  empty_aggregate_state maximum = base_extreme false none
  empty_aggregate_state average = averaging (pos 0) zero_decimal
  empty_aggregate_state sum_bigint = summing_bigint (pos 0)
  empty_aggregate_state sum_big_decimal = summing_decimal zero_decimal

  abbrev pub empty_reversible_aggregate_state : RuntimeGroupedAggregate → AggregateState V S D
  empty_reversible_aggregate_state count = counting (pos 0)
  empty_reversible_aggregate_state count_distinct = counting_distinct [] (pos 0)
  empty_reversible_aggregate_state minimum = retained_extreme true [] none
  empty_reversible_aggregate_state maximum = retained_extreme false [] none
  empty_reversible_aggregate_state average = averaging (pos 0) zero_decimal
  empty_reversible_aggregate_state sum_bigint = summing_bigint (pos 0)
  empty_reversible_aggregate_state sum_big_decimal = summing_decimal zero_decimal

  abbrev pub is_better_value : Bool → Comparison → Bool
  is_better_value is_min comparison = if is_min then is_less comparison else is_more comparison

  abbrev pub better_of : Bool → Option V → V → Option V
  better_of is_min none value = some value
  better_of is_min (some current) value =
      if is_better_value is_min (compare_values value current) then some value else some current

  abbrev pub add_distinct : V → List (S × ℕ) → ℤ → AggregateState V S D
  add_distinct value values total = elim (get_entry dec (stable_string value) values) [
    | none ↦ counting_distinct (set_entry dec (stable_string value) 1 values) (total +ℤ pos 1)
    | some n ↦ counting_distinct (set_entry dec (stable_string value) (n + 1) values) total
  ]

  abbrev pub add_retained :
      V → List (S × MinMaxAggregateValueState V) → List (S × MinMaxAggregateValueState V)
  add_retained value values = elim (get_entry dec (stable_string value) values) [
    | none ↦
        set_entry dec (stable_string value) (record { entry_count = 1; entry_value = value }) values
    | some entry ↦
        set_entry dec (stable_string value)
          (record { entry_count = entry.entry_count + 1; entry_value = entry.entry_value }) values
  ]

  abbrev pub add_bigint : ℤ → Option ℤ → ℤ
  add_bigint total none = total
  add_bigint total (some n) = total +ℤ n

  abbrev pub add_decimal : D → Option D → D
  add_decimal total none = total
  add_decimal total (some decimal) = sum total decimal

  abbrev pub add_average : ℤ → D → Option D → AggregateState V S D
  add_average n total none = averaging n total
  add_average n total (some decimal) = averaging (n +ℤ pos 1) (sum total decimal)

  unfoldable pub update_aggregate_state : AggregateState V S D → V → AggregateState V S D
  update_aggregate_state (counting n) value = counting (n +ℤ pos 1)
  update_aggregate_state (counting_distinct values n) value = add_distinct value values n
  update_aggregate_state (summing_bigint total) value =
      summing_bigint (add_bigint total (as_bigint value))
  update_aggregate_state (summing_decimal total) value =
      summing_decimal (add_decimal total (to_decimal value))
  update_aggregate_state (averaging n total) value = add_average n total (to_decimal value)
  update_aggregate_state (base_extreme is_min best) value =
      base_extreme is_min (better_of is_min best value)
  update_aggregate_state (retained_extreme is_min values best) value =
      retained_extreme is_min (add_retained value values) (better_of is_min best value)

  abbrev pub best_of : Bool → Option V → List (S × MinMaxAggregateValueState V) → Option V
  best_of is_min best [] = best
  best_of is_min best ((key, entry) ∷ entries) =
      best_of is_min (better_of is_min best entry.entry_value) entries

  unfoldable pub recompute_min_max_aggregate_state : AggregateState V S D → AggregateState V S D
  recompute_min_max_aggregate_state (retained_extreme is_min values best) =
      retained_extreme is_min values (best_of is_min none values)
  recompute_min_max_aggregate_state (counting n) = counting n
  recompute_min_max_aggregate_state (counting_distinct values n) = counting_distinct values n
  recompute_min_max_aggregate_state (summing_bigint total) = summing_bigint total
  recompute_min_max_aggregate_state (summing_decimal total) = summing_decimal total
  recompute_min_max_aggregate_state (averaging n total) = averaging n total
  recompute_min_max_aggregate_state (base_extreme is_min best) = base_extreme is_min best

  -- A value that was not added has no entry; the code reads one all the same, and nothing removes such a value.
  abbrev pub remove_distinct : V → List (S × ℕ) → ℤ → AggregateState V S D
  remove_distinct value values total = elim (get_entry dec (stable_string value) values) [
    | none ↦ counting_distinct values total
    | some n ↦
        if n == 1
        then counting_distinct (delete_entry dec (stable_string value) values) (total -ℤ pos 1)
        else counting_distinct (set_entry dec (stable_string value) (n - 1) values) total
  ]

  abbrev pub subtract_bigint : ℤ → Option ℤ → ℤ
  subtract_bigint total none = total
  subtract_bigint total (some n) = total -ℤ n

  abbrev pub subtract_decimal : D → Option D → D
  subtract_decimal total none = total
  subtract_decimal total (some decimal) = subtract total decimal

  abbrev pub subtract_average : ℤ → D → Option D → AggregateState V S D
  subtract_average n total none = averaging n total
  subtract_average n total (some decimal) = averaging (n -ℤ pos 1) (subtract total decimal)

  abbrev pub is_value_of : S → Option V → Bool
  is_value_of key none = false
  is_value_of key (some value) = ite (dec (stable_string value) key) true false

  -- With whether the extreme value is to be computed anew.
  abbrev pub remove_retained :
      Bool → V → List (S × MinMaxAggregateValueState V) → Option V → AggregateState V S D × Bool
  remove_retained is_min value values best = elim (get_entry dec (stable_string value) values) [
    | none ↦ (retained_extreme is_min values best, false)
    | some entry ↦
        if leb entry.entry_count 1
        then (
          retained_extreme is_min (delete_entry dec (stable_string value) values) best,
          is_value_of (stable_string value) best,
        )
        else (
          retained_extreme is_min
              (set_entry dec (stable_string value)
                (record { entry_count = entry.entry_count - 1; entry_value = entry.entry_value })
                values)
              best,
          false,
        )
  ]

  unfoldable pub remove_aggregate_state : AggregateState V S D → V → AggregateState V S D × Bool
  remove_aggregate_state (counting n) value = (counting (n -ℤ pos 1), false)
  remove_aggregate_state (counting_distinct values n) value =
      (remove_distinct value values n, false)
  remove_aggregate_state (summing_bigint total) value =
      (summing_bigint (subtract_bigint total (as_bigint value)), false)
  remove_aggregate_state (summing_decimal total) value =
      (summing_decimal (subtract_decimal total (to_decimal value)), false)
  remove_aggregate_state (averaging n total) value =
      (subtract_average n total (to_decimal value), false)
  remove_aggregate_state (base_extreme is_min best) value = (base_extreme is_min best, false)
  remove_aggregate_state (retained_extreme is_min values best) value =
      remove_retained is_min value values best
