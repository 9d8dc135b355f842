-- ===== src/Engine/Ranges.antt =====
-- What the filters on the field of an ordered index say of its values:
-- packages/column-live-view-engine/src/topic-ordered-window.ts. `compare_values` is `compareOrderedRangeValue`,
-- `is_range_value` and `is_seek_value` are `isRangePlanValue` and `isEqualitySeekPlanValue` for the field.
use view_server_smart.Shared.{
  ℕ, Bool, true, false, ◌&&◌, ◌||◌, ◌==◌, not, map, length, contains, Option, none, some, List, [],
  ◌∷◌, ite, if◌then◌else◌,
}
use view_server_smart.Shared.Order.{Comparison, is_less, is_more, is_same}
use view_server_smart.Shared.Order.Sorting.{sort_by}
pub mod Bounds
pub mod Failure
pub mod Common
pub mod Equality

-- `in` may come with the set of the keys of its values.
pub data FilterOperator (V S : Type 0) : Type 0 where
  eq : V → FilterOperator V S
  neq : V → FilterOperator V S
  gt : V → FilterOperator V S
  gte : V → FilterOperator V S
  lt : V → FilterOperator V S
  lte : V → FilterOperator V S
  starts_with : V → FilterOperator V S
  in_values : List V → Option (List S) → FilterOperator V S

pub record TopicRawPredicateFilterPlan (F V S : Type 0) : Type 0 where
  pub field : F
  pub operator : FilterOperator V S

pub record OrderedRangeBound (V : Type 0) : Type 0 where
  pub exclusive : Bool
  pub value : V

pub record OrderedRangeBounds (V : Type 0) : Type 0 where
  pub lower : Option (OrderedRangeBound V)
  pub upper : Option (OrderedRangeBound V)

abbrev pub no_ordered_range_bounds : {V : Type 0} → OrderedRangeBounds V
no_ordered_range_bounds = record { lower = none; upper = none }

abbrev pub is_equality_filter_plan : {V S : Type 0} → FilterOperator V S → Bool
is_equality_filter_plan (eq v) = true
is_equality_filter_plan (in_values vs keys) = true
is_equality_filter_plan (neq v) = false
is_equality_filter_plan (gt v) = false
is_equality_filter_plan (gte v) = false
is_equality_filter_plan (lt v) = false
is_equality_filter_plan (lte v) = false
is_equality_filter_plan (starts_with v) = false

abbrev pub is_range_filter_plan : {V S : Type 0} → FilterOperator V S → Bool
is_range_filter_plan (gt v) = true
is_range_filter_plan (gte v) = true
is_range_filter_plan (lt v) = true
is_range_filter_plan (lte v) = true
is_range_filter_plan (eq v) = false
is_range_filter_plan (neq v) = false
is_range_filter_plan (starts_with v) = false
is_range_filter_plan (in_values vs keys) = false

module _ {V : Type 0} (compare_values : V → V → Comparison) where
  abbrev pub stronger_lower_bound :
      Option (OrderedRangeBound V) → OrderedRangeBound V → OrderedRangeBound V
  stronger_lower_bound none candidate = candidate
  stronger_lower_bound (some current) candidate =
      let comparison = compare_values candidate.value current.value in
      if is_more comparison
      then candidate
      else (if is_same comparison && (candidate.exclusive && not current.exclusive)
          then candidate
          else current)

  abbrev pub stronger_upper_bound :
      Option (OrderedRangeBound V) → OrderedRangeBound V → OrderedRangeBound V
  stronger_upper_bound none candidate = candidate
  stronger_upper_bound (some current) candidate =
      let comparison = compare_values candidate.value current.value in
      if is_less comparison
      then candidate
      else (if is_same comparison && (candidate.exclusive && not current.exclusive)
          then candidate
          else current)

  abbrev pub with_lower : OrderedRangeBounds V → OrderedRangeBound V → OrderedRangeBounds V
  with_lower bounds candidate = record {
    lower = some (stronger_lower_bound bounds.lower candidate);
    upper = bounds.upper;
  }

  abbrev pub with_upper : OrderedRangeBounds V → OrderedRangeBound V → OrderedRangeBounds V
  with_upper bounds candidate = record {
    lower = bounds.lower;
    upper = some (stronger_upper_bound bounds.upper candidate);
  }

  abbrev pub both_bounds_are_empty : OrderedRangeBound V → OrderedRangeBound V → Bool
  both_bounds_are_empty lower upper =
      let comparison = compare_values lower.value upper.value in
      is_more comparison || (is_same comparison && (lower.exclusive || upper.exclusive))

  abbrev pub range_bounds_are_empty : OrderedRangeBounds V → Bool
  range_bounds_are_empty bounds = elim bounds.lower [
    | none ↦ false
    | some lower ↦ elim bounds.upper [
      | none ↦ false
      | some upper ↦ both_bounds_are_empty lower upper
    ]
  ]

  abbrev pub satisfies_lower : V → Option (OrderedRangeBound V) → Bool
  satisfies_lower value none = true
  satisfies_lower value (some bound) =
      let comparison = compare_values value bound.value in
      not (is_less comparison || (is_same comparison && bound.exclusive))

  abbrev pub satisfies_upper : V → Option (OrderedRangeBound V) → Bool
  satisfies_upper value none = true
  satisfies_upper value (some bound) =
      let comparison = compare_values value bound.value in
      not (is_more comparison || (is_same comparison && bound.exclusive))

  abbrev pub equality_value_satisfies_range_bounds : V → OrderedRangeBounds V → Bool
  equality_value_satisfies_range_bounds value bounds =
      satisfies_lower value bounds.lower && satisfies_upper value bounds.upper

module _ {F V S : Type 0} (dec : Discrete F) (compare_values : V → V → Comparison) where
  abbrev pub predicate_filters_are_ordered_index_admissible :
      List (TopicRawPredicateFilterPlan F V S) → F → Bool
  predicate_filters_are_ordered_index_admissible [] order_field = true
  predicate_filters_are_ordered_index_admissible (filter ∷ filters) order_field =
      let rest = predicate_filters_are_ordered_index_admissible filters order_field in
      if is_equality_filter_plan filter.operator
      then rest
      else (if is_range_filter_plan filter.operator && ite (dec filter.field order_field) true false
          then rest
          else false)

  -- The bounds after one range filter; `none` where its value cannot bound a range.
  abbrev pub bounded_by :
      (V → Bool) → OrderedRangeBounds V → FilterOperator V S → Option (OrderedRangeBounds V)
  bounded_by is_range_value bounds (gt v) =
      if is_range_value v
      then some (with_lower compare_values bounds (record { exclusive = true; value = v }))
      else none
  bounded_by is_range_value bounds (gte v) =
      if is_range_value v
      then some (with_lower compare_values bounds (record { exclusive = false; value = v }))
      else none
  bounded_by is_range_value bounds (lt v) =
      if is_range_value v
      then some (with_upper compare_values bounds (record { exclusive = true; value = v }))
      else none
  bounded_by is_range_value bounds (lte v) =
      if is_range_value v
      then some (with_upper compare_values bounds (record { exclusive = false; value = v }))
      else none
  bounded_by is_range_value bounds (eq v) = some bounds
  bounded_by is_range_value bounds (neq v) = some bounds
  bounded_by is_range_value bounds (starts_with v) = some bounds
  bounded_by is_range_value bounds (in_values vs keys) = some bounds

  unfoldable pub range_bounds_from :
      (V → Bool)
      → F
      → OrderedRangeBounds V
      → List (TopicRawPredicateFilterPlan F V S)
      → Option (OrderedRangeBounds V)
  range_bounds_from is_range_value field bounds [] = some bounds
  range_bounds_from is_range_value field bounds (filter ∷ filters) =
      elim (ite (dec filter.field field) (bounded_by is_range_value bounds filter.operator)
        (some bounds)) [
          | none ↦ none
          | some next ↦ range_bounds_from is_range_value field next filters
        ]

  unfoldable pub ordered_range_bounds_for_field :
      (V → Bool) → List (TopicRawPredicateFilterPlan F V S) → F → Option (OrderedRangeBounds V)
  ordered_range_bounds_for_field is_range_value filters field =
      range_bounds_from is_range_value field no_ordered_range_bounds filters

module _ {V : Type 0} (compare_values : V → V → Comparison) where
  -- A value is dropped that compares the same as the one pushed last.
  unfoldable pub distinct_after : Option V → List V → List V
  distinct_after previous [] = []
  distinct_after none (value ∷ values) = value ∷ distinct_after (some value) values
  distinct_after (some previous) (value ∷ values) = elim (is_same (compare_values previous value)) [
    | true ↦ distinct_after (some previous) values
    | false ↦ value ∷ distinct_after (some value) values
  ]

  unfoldable pub distinct_ordered_equality_values : List V → List V
  distinct_ordered_equality_values values = distinct_after none (sort_by compare_values values)

  -- `while (rightIndex < right.length && compare(right[rightIndex], leftValue) < 0)`; the list is what is left of `right`.
  unfoldable pub skip_below : V → List V → List V
  skip_below value [] = []
  skip_below value (r ∷ right) = elim (is_less (compare_values r value)) [
    | true ↦ skip_below value right
    | false ↦ r ∷ right
  ]

  abbrev pub starts_same : V → List V → Bool
  starts_same value [] = false
  starts_same value (r ∷ right) = is_same (compare_values r value)

  unfoldable pub intersect_sorted : List V → List V → List V
  intersect_sorted [] right = []
  intersect_sorted (value ∷ left) right =
      let remaining = skip_below value right in
      let rest = intersect_sorted left remaining in
      if starts_same value remaining then value ∷ rest else rest

  unfoldable pub intersect_ordered_equality_values : List V → List V → List V
  intersect_ordered_equality_values left right =
      intersect_sorted (distinct_ordered_equality_values left)
        (distinct_ordered_equality_values right)

-- What the loop over the equality filters of a field keeps.
pub record EqualitySeek (V : Type 0) : Type 0 where
  pub values : List V
  pub has_equality_filter : Bool
  pub has_safe_equality_filter : Bool
  pub has_unsafe_equality_filter : Bool
  pub has_empty_in_filter : Bool

abbrev pub all_of : {A : Type 0} → (A → Bool) → List A → Bool
all_of p [] = true
all_of p (x ∷ xs) = p x && all_of p xs

-- The elements of the set of a list, each once.
abbrev pub elements_of : {S : Type 0} → Discrete S → List S → List S
elements_of dec [] = []
elements_of dec (x ∷ xs) =
    let rest = elements_of dec xs in if contains dec x xs then rest else x ∷ rest

module _ {F V S : Type 0} (dec : Discrete F) (dec_key : Discrete S)
    (compare_values : V → V → Comparison) (is_seek_value : V → Bool)
    (scalar_equality_key : V → S) where
  abbrev pub keys_agree : List V → List S → Bool
  keys_agree values keys =
      let own = map scalar_equality_key values in
      length (elements_of dec_key own) == length keys
      && all_of (λ key. contains dec_key key own) keys

  abbrev pub ordered_in_seek_values : List V → Option (List S) → Option (List V)
  ordered_in_seek_values values keys =
      if all_of is_seek_value values
      then elim keys [
        | none ↦ some values
        | some keys ↦ if keys_agree values keys then some values else none
      ]
      else none

  abbrev pub add_seek_values : EqualitySeek V → List V → EqualitySeek V
  add_seek_values seek next = record {
    values =
        if seek.has_safe_equality_filter
        then intersect_ordered_equality_values compare_values seek.values next
        else next;
    has_equality_filter = true;
    has_safe_equality_filter = true;
    has_unsafe_equality_filter = seek.has_unsafe_equality_filter;
    has_empty_in_filter = seek.has_empty_in_filter;
  }

  abbrev pub unsafe_seek : EqualitySeek V → EqualitySeek V
  unsafe_seek seek = record seek { has_equality_filter = true; has_unsafe_equality_filter = true }

  abbrev pub empty_seek : EqualitySeek V → EqualitySeek V
  empty_seek seek = record seek { has_equality_filter = true; has_empty_in_filter = true }

  abbrev pub in_seek : EqualitySeek V → Option (List V) → EqualitySeek V
  in_seek seek none = unsafe_seek seek
  in_seek seek (some []) = empty_seek seek
  in_seek seek (some (v ∷ values)) = add_seek_values seek (v ∷ values)

  abbrev pub seek_step : EqualitySeek V → FilterOperator V S → EqualitySeek V
  seek_step seek (eq v) =
      if is_seek_value v then add_seek_values seek (v ∷ []) else unsafe_seek seek
  seek_step seek (in_values values keys) = in_seek seek (ordered_in_seek_values values keys)
  seek_step seek (neq v) = seek
  seek_step seek (gt v) = seek
  seek_step seek (gte v) = seek
  seek_step seek (lt v) = seek
  seek_step seek (lte v) = seek
  seek_step seek (starts_with v) = seek

  abbrev pub seek_result : EqualitySeek V → Option (List V)
  seek_result seek =
      if seek.has_empty_in_filter
      then some []
      else (if seek.has_unsafe_equality_filter || not seek.has_equality_filter
          then none
          else some seek.values)

  unfoldable pub seek_from :
      F → EqualitySeek V → List (TopicRawPredicateFilterPlan F V S) → EqualitySeek V
  seek_from field seek [] = seek
  seek_from field seek (filter ∷ filters) =
      seek_from field (ite (dec filter.field field) (seek_step seek filter.operator) seek) filters

  unfoldable pub ordered_equality_values_for_field :
      List (TopicRawPredicateFilterPlan F V S) → F → Option (List V)
  ordered_equality_values_for_field filters field = seek_result (
      seek_from field
        (record {
          values = [];
          has_equality_filter = false;
          has_safe_equality_filter = false;
          has_unsafe_equality_filter = false;
          has_empty_in_filter = false;
        })
        filters)
