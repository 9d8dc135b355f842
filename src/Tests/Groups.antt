-- ===== src/Tests/Groups.antt =====
-- Groups of numbers: their windows, and the aggregates of their members.
use view_server_smart.Shared.{
  ℕ, ◌*◌, ◌%◌, ◌≤◌, ◌≡◌, refl, true, false, Option, some, List, [], ◌∷◌, map, arith, ℕ_discrete,
  All,
}
use view_server_smart.Shared.Int.{ℤ, pos, ◌+ℤ◌, ◌-ℤ◌}
use view_server_smart.Shared.Order.{same, compare_numbers, compare_numbers-IsLinear}
use view_server_smart.Engine.Scan.{WindowPlan}
use view_server_smart.Engine.Grouped.{
  CompiledGroupedOrderBy, finalize_group, grouped_evaluation_from_groups,
  grouped_evaluation_from_entries,
}
use view_server_smart.Engine.Grouped.Bounded.{grouped_evaluation_from_groups-entries}
use view_server_smart.Engine.Aggregates.{
  minimum, retained_extreme, MinMaxAggregateValueState, update_aggregate_state,
  remove_aggregate_state, recompute_min_max_aggregate_state,
}
use view_server_smart.Engine.Aggregates.Batch.{
  update_materialized_aggregate_state, remove_materialized_aggregate_state,
  replace_materialized_aggregate_state, recompute_dirty_aggregate_states,
}
use view_server_smart.Engine.Aggregates.Members.{here, there, occurrences}
use view_server_smart.Engine.Aggregates.Extremes.{better}
use view_server_smart.Engine.Aggregates.Sums.{bigint-DecimalLaws}
use view_server_smart.Engine.Aggregates.Retained.{TellsOf}
use view_server_smart.Engine.Aggregates.Run.{
  Run, start, add, take_out, replace, end_batch, Run-TellsOf, Run-extreme,
}

abbrev key_of : ℕ × ℕ → ℕ
key_of group = group.0

abbrev row_of : ℕ × ℕ → ℕ
row_of group = group.1

abbrev group_of : ℕ → ℕ × ℕ
group_of key = (key, (key * 7) % 5)

-- By the row, the largest first.
abbrev by_row : CompiledGroupedOrderBy (ℕ × ℕ) ℕ ℕ ℕ
by_row = record { ascending = false; group_value = λ group. group.1; row_value = λ entry. entry.1 }

abbrev two_from_one : WindowPlan
two_from_one = record { offset = 1; limit = some 2 }

abbrev five_keys : List ℕ
five_keys = 1 ∷ 2 ∷ 3 ∷ 4 ∷ 6 ∷ []

grouped_evaluation_from_groups-entries_example :
    grouped_evaluation_from_groups key_of row_of compare_numbers compare_numbers
      (by_row ∷ [])
      (map group_of five_keys)
      two_from_one
      9
    ≡ grouped_evaluation_from_entries key_of row_of compare_numbers compare_numbers
        (by_row ∷ [])
        (map
          (finalize_group key_of row_of compare_numbers compare_numbers (by_row ∷ []))
          (map group_of five_keys))
        two_from_one
        9
grouped_evaluation_from_groups-entries_example =
    grouped_evaluation_from_groups-entries key_of row_of compare_numbers-IsLinear.preorder
      compare_numbers-IsLinear (by_row ∷ []) ((λ group. refl), tt) group_of (λ key. refl)
      two_from_one 9 five_keys (λ l h. omega arith)

abbrev itself : ℕ → ℕ
itself n = n

abbrev number_of : ℕ → Option ℤ
number_of n = some (pos n)

same_number : (a b : ℕ) → itself a ≡ itself b → compare_numbers a b ≡ same
same_number a b h = ground (arith, h)

abbrev fives : List (ℕ × MinMaxAggregateValueState ℕ)
fives = (5, record { entry_count = 2; entry_value = 5 }) ∷ []

-- 5, 3 and 7 come in one batch. In the next, 3 goes and a 7 becomes a 5 while the minimum is still 3; at its end the
-- minimum is computed anew.
minimum_run :
    Run ℕ_discrete itself compare_numbers number_of number_of ◌+ℤ◌ ◌-ℤ◌
      (pos 0)
      compare_numbers-IsLinear.preorder
      same_number
      bigint-DecimalLaws
      minimum
      (retained_extreme true fives (some 5), false)
      (5 ∷ 5 ∷ [])
unfolding update_aggregate_state remove_aggregate_state recompute_min_max_aggregate_state ℕ_discrete
    update_materialized_aggregate_state remove_materialized_aggregate_state
    replace_materialized_aggregate_state recompute_dirty_aggregate_states
minimum_run =
    end_batch (replace 7 5 (take_out 3 (end_batch (add 7 (add 3 (add 5 start)))) (there here)) here)

Run-TellsOf_example :
    TellsOf ℕ_discrete itself compare_numbers number_of number_of ◌+ℤ◌ ◌-ℤ◌
      (pos 0)
      compare_numbers-IsLinear.preorder
      same_number
      bigint-DecimalLaws
      (retained_extreme true fives (some 5))
      false
      (5 ∷ 5 ∷ [])
Run-TellsOf_example =
    Run-TellsOf ℕ_discrete itself compare_numbers number_of number_of ◌+ℤ◌ ◌-ℤ◌ (pos 0)
      compare_numbers-IsLinear.preorder same_number bigint-DecimalLaws minimum
      (retained_extreme true fives (some 5), false) (5 ∷ 5 ∷ []) minimum_run

Run-extreme_example :
    All
      (λ x.
        better ℕ_discrete itself compare_numbers number_of number_of ◌+ℤ◌ ◌-ℤ◌
          (pos 0)
          compare_numbers-IsLinear.preorder
          same_number
          true
          x
          5
        ≡ false)
      (5 ∷ 5 ∷ [])
    × (1 ≤ occurrences ℕ_discrete itself 5 (5 ∷ 5 ∷ []))
Run-extreme_example =
    Run-extreme ℕ_discrete itself compare_numbers number_of number_of ◌+ℤ◌ ◌-ℤ◌ (pos 0)
      compare_numbers-IsLinear.preorder same_number bigint-DecimalLaws minimum true fives 5
      (5 ∷ 5 ∷ []) minimum_run
