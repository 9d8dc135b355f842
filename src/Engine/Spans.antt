-- ===== src/Engine/Spans.antt =====
-- The span of an ordered index that range bounds select: `orderedSlotIndexBounds` of
-- packages/column-live-view-engine/src/topic-raw-ordered-window-index.ts. `value_at` reads the ordered column, whose
-- values `compareOrderedSlotRangeValue` compares as `compare_values` does.
use view_server_smart.Shared.{
  ℕ, ◌≤◌, ◌<◌, Bool, true, false, not, Option, none, some, List, length, max, if◌then◌else◌,
}
use view_server_smart.Shared.Order.{Comparison, is_less, is_more}
use view_server_smart.Engine.Search.{ordered_slot_bound_index}
use view_server_smart.Engine.Ranges.{OrderedRangeBound, OrderedRangeBounds}
use view_server_smart.Engine.Scan.{OrderedRawWindowSpan}
pub mod Selected

-- `comparison > 0`, `>= 0`, `< 0` and `<= 0`.
abbrev pub not_less : Comparison → Bool
not_less c = not (is_less c)

abbrev pub not_more : Comparison → Bool
not_more c = not (is_more c)

module _ {V : Type 0} (compare_values : V → V → Comparison) (value_at : ℕ → V)
    (slots : List ℕ) where
  abbrev pub bound_index : V → (Comparison → Bool) → ℕ
  bound_index value predicate =
      ordered_slot_bound_index slots (λ slot. compare_values (value_at slot) value) predicate

  abbrev pub start_of : (Comparison → Bool) → (Comparison → Bool) → Option (OrderedRangeBound V) → ℕ
  start_of exclusive inclusive none = 0
  start_of exclusive inclusive (some bound) =
      bound_index bound.value (if bound.exclusive then exclusive else inclusive)

  abbrev pub end_of : (Comparison → Bool) → (Comparison → Bool) → Option (OrderedRangeBound V) → ℕ
  end_of exclusive inclusive none = length slots
  end_of exclusive inclusive (some bound) =
      bound_index bound.value (if bound.exclusive then exclusive else inclusive)

  abbrev pub span_between : ℕ → ℕ → OrderedRawWindowSpan
  span_between start_index end_index = record {
    start_index = start_index;
    end_index = max start_index end_index;
  }

  abbrev pub ordered_slot_index_bounds : Bool → OrderedRangeBounds V → OrderedRawWindowSpan
  ordered_slot_index_bounds true bounds =
      span_between (start_of is_more not_less bounds.lower) (end_of not_less is_more bounds.upper)
  ordered_slot_index_bounds false bounds =
      span_between (start_of is_less not_more bounds.upper) (end_of not_more is_less bounds.lower)
