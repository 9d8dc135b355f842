-- ===== src/Engine/Aggregates/Batch.antt =====
-- One aggregate of a group while a batch of changes is applied:
-- packages/column-live-view-engine/src/grouped-incremental-execution.ts. A state goes with whether
-- `DirtyAggregateRecomputes` has it: a removal puts it there when the extreme value is gone, the changes after that
-- go on with the old extreme value, and the end of the batch computes it anew.
use view_server_smart.Shared.{Bool, true, false, Option}
use view_server_smart.Shared.Int.{ℤ}
use view_server_smart.Shared.Order.{Comparison}
use view_server_smart.Engine.Aggregates.{
  AggregateState, update_aggregate_state, remove_aggregate_state, recompute_min_max_aggregate_state,
}

-- The set has the state afterwards; `returned` is whether the removal returned the state.
abbrev pub mark_dirty_aggregate_recompute : Bool → Bool → Bool
mark_dirty_aggregate_recompute true returned = true
mark_dirty_aggregate_recompute false returned = returned

module _ {V S D : Type 0} (dec : Discrete S) (stable_string : V → S)
    (compare_values : V → V → Comparison) (as_bigint : V → Option ℤ) (to_decimal : V → Option D)
    (sum subtract : D → D → D) (zero_decimal : D) where
  abbrev pub marked : Bool → AggregateState V S D × Bool → AggregateState V S D × Bool
  marked dirty (state, returned) = (state, mark_dirty_aggregate_recompute dirty returned)

  unfoldable pub remove_materialized_aggregate_state :
      AggregateState V S D × Bool → V → AggregateState V S D × Bool
  remove_materialized_aggregate_state (state, dirty) value = marked dirty (
      remove_aggregate_state dec stable_string compare_values as_bigint to_decimal sum subtract
        zero_decimal state value)

  unfoldable pub update_materialized_aggregate_state :
      AggregateState V S D × Bool → V → AggregateState V S D × Bool
  update_materialized_aggregate_state (state, dirty) value = (
    update_aggregate_state dec stable_string compare_values as_bigint to_decimal sum subtract
        zero_decimal state value,
    dirty,
  )

  -- A member's row is replaced and the value of the aggregate's field changes.
  unfoldable pub replace_materialized_aggregate_state :
      AggregateState V S D × Bool → V → V → AggregateState V S D × Bool
  replace_materialized_aggregate_state state previous next =
      update_materialized_aggregate_state (remove_materialized_aggregate_state state previous) next

  -- The state after the loop over the set, which is not used again.
  unfoldable pub recompute_dirty_aggregate_states :
      AggregateState V S D × Bool → AggregateState V S D
  recompute_dirty_aggregate_states (state, false) = state
  recompute_dirty_aggregate_states (state, true) =
      recompute_min_max_aggregate_state dec stable_string compare_values as_bigint to_decimal sum
        subtract zero_decimal state
