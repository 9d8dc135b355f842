-- ===== src/Tests/Ranges.antt =====
-- Filters on one field of numbers, and a field that is another.
use view_server_smart.Shared.{
  ℕ, ◌≡◌, refl, Bool, true, false, ◌&&◌, none, some, List, [], ◌∷◌, ltb, ℕ_discrete,
}
use view_server_smart.Shared.Order.{compare_numbers, compare_numbers-IsLinear}
use view_server_smart.Engine.Ranges.{
  FilterOperator, lte, eq, gt, gte, lt, in_values, TopicRawPredicateFilterPlan, OrderedRangeBounds,
  equality_value_satisfies_range_bounds, intersect_ordered_equality_values,
  ordered_equality_values_for_field, ordered_range_bounds_for_field, range_bounds_from, seek_from,
  distinct_after, distinct_ordered_equality_values, skip_below, intersect_sorted,
}
use view_server_smart.Engine.Ranges.Bounds.{
  passes_all, ordered_range_bounds_for_field-passes, range_bounds_are_empty-satisfies,
}
use view_server_smart.Engine.Ranges.Failure.{
  is_none, any_unusable, ordered_range_bounds_for_field-unusable,
}
use view_server_smart.Engine.Ranges.Common.{has_value, intersect_ordered_equality_values-has_value}
use view_server_smart.Engine.Ranges.Equality.{equals_all, ordered_equality_values_for_field-equals}
use view_server_smart.Shared.Order.Sorting.{insert_sorted, sort_onto, sort_by}

abbrev on_field : ℕ → FilterOperator ℕ ℕ → TopicRawPredicateFilterPlan ℕ ℕ ℕ
on_field field operator = record { field = field; operator = operator }

abbrev four_filters : List (TopicRawPredicateFilterPlan ℕ ℕ ℕ)
four_filters = on_field 1 (gt 3) ∷ on_field 2 (gt 100) ∷ on_field 1 (gte 5) ∷ on_field 1 (lt 9) ∷ []

abbrev from_five : OrderedRangeBounds ℕ
from_five = record {
  lower = some (record { exclusive = false; value = 5 });
  upper = some (record { exclusive = true; value = 9 });
}

abbrev no_numbers : OrderedRangeBounds ℕ
no_numbers = record {
  lower = some (record { exclusive = false; value = 5 });
  upper = some (record { exclusive = true; value = 5 });
}

abbrev is_small : ℕ → Bool
is_small n = ltb n 1000

bounds_of_four :
    ordered_range_bounds_for_field ℕ_discrete compare_numbers is_small four_filters 1
    ≡ some from_five
unfolding ordered_range_bounds_for_field range_bounds_from ℕ_discrete
bounds_of_four = refl

ordered_range_bounds_for_field-passes_example :
    equality_value_satisfies_range_bounds compare_numbers 7 from_five
    ≡ passes_all ℕ_discrete compare_numbers-IsLinear.preorder 7 1 four_filters
ordered_range_bounds_for_field-passes_example =
    ordered_range_bounds_for_field-passes ℕ_discrete compare_numbers-IsLinear.preorder is_small 7 1
      from_five four_filters bounds_of_four

range_bounds_are_empty-satisfies_example :
    equality_value_satisfies_range_bounds compare_numbers 5 no_numbers ≡ false
range_bounds_are_empty-satisfies_example =
    range_bounds_are_empty-satisfies compare_numbers-IsLinear.preorder 5 no_numbers refl

intersect_ordered_equality_values-has_value_example :
    has_value compare_numbers 4
      (intersect_ordered_equality_values compare_numbers (6 ∷ 4 ∷ 4 ∷ 1 ∷ []) (2 ∷ 4 ∷ 6 ∷ []))
    ≡ has_value compare_numbers 4 (6 ∷ 4 ∷ 4 ∷ 1 ∷ [])
      && has_value compare_numbers 4 (2 ∷ 4 ∷ 6 ∷ [])
intersect_ordered_equality_values-has_value_example =
    intersect_ordered_equality_values-has_value compare_numbers-IsLinear.preorder 4
      (6 ∷ 4 ∷ 4 ∷ 1 ∷ []) (2 ∷ 4 ∷ 6 ∷ [])

abbrev two_equalities : List (TopicRawPredicateFilterPlan ℕ ℕ ℕ)
two_equalities =
    on_field 1 (in_values (6 ∷ 4 ∷ 1 ∷ []) none) ∷ on_field 2 (eq 1) ∷ on_field 1 (eq 4) ∷ []

abbrev itself : ℕ → ℕ
itself n = n

values_of_two :
    ordered_equality_values_for_field ℕ_discrete ℕ_discrete compare_numbers is_small itself
      two_equalities 1
    ≡ some (4 ∷ [])
unfolding ordered_equality_values_for_field seek_from intersect_ordered_equality_values
    intersect_sorted distinct_ordered_equality_values distinct_after skip_below sort_by sort_onto
    insert_sorted ℕ_discrete
values_of_two = refl

ordered_equality_values_for_field-equals_example :
    has_value compare_numbers 4 (4 ∷ [])
    ≡ equals_all ℕ_discrete compare_numbers-IsLinear.preorder 4 1 two_equalities
ordered_equality_values_for_field-equals_example =
    ordered_equality_values_for_field-equals ℕ_discrete ℕ_discrete compare_numbers-IsLinear.preorder
      is_small itself 4 two_equalities 1 (4 ∷ []) values_of_two

abbrev with_an_unusable : List (TopicRawPredicateFilterPlan ℕ ℕ ℕ)
with_an_unusable = on_field 1 (gt 3) ∷ on_field 1 (lte 2000) ∷ []

ordered_range_bounds_for_field-unusable_example :
    is_none (ordered_range_bounds_for_field ℕ_discrete compare_numbers is_small with_an_unusable 1)
    ≡ any_unusable ℕ_discrete compare_numbers is_small 1 with_an_unusable
ordered_range_bounds_for_field-unusable_example =
    ordered_range_bounds_for_field-unusable ℕ_discrete compare_numbers is_small 1 with_an_unusable
