-- ===== src/Engine/Ranges/Failure.antt =====
-- When the range filters on a field do not fold into bounds.
use view_server_smart.Shared.{
  ◌≡◌, refl, ap, ◌∙◌, Bool, true, false, ◌||◌, not, Option, none, some, List, [], ◌∷◌, ite, arith,
}
use view_server_smart.Shared.Order.{Comparison}
use view_server_smart.Engine.Ranges.{
  FilterOperator, eq, neq, gt, gte, lt, lte, starts_with, in_values, TopicRawPredicateFilterPlan,
  OrderedRangeBounds, no_ordered_range_bounds, bounded_by, range_bounds_from,
  ordered_range_bounds_for_field,
}

abbrev pub is_none : {A : Type 0} → Option A → Bool
is_none none = true
is_none (some a) = false

module _ {V S : Type 0} (is_range_value : V → Bool) where
  -- A range operator whose value cannot bound a range.
  abbrev pub is_unusable : FilterOperator V S → Bool
  is_unusable (gt v) = not (is_range_value v)
  is_unusable (gte v) = not (is_range_value v)
  is_unusable (lt v) = not (is_range_value v)
  is_unusable (lte v) = not (is_range_value v)
  is_unusable (eq v) = false
  is_unusable (neq v) = false
  is_unusable (starts_with v) = false
  is_unusable (in_values vs keys) = false

module _ {F V S : Type 0} (dec : Discrete F) (compare_values : V → V → Comparison)
    (is_range_value : V → Bool) (field : F) where
  abbrev pub any_unusable : List (TopicRawPredicateFilterPlan F V S) → Bool
  any_unusable [] = false
  any_unusable (filter ∷ filters) =
      ite (dec filter.field field) (is_unusable is_range_value filter.operator) false
      || any_unusable filters

  bounded_by-unusable :
      (bounds : OrderedRangeBounds V) (operator : FilterOperator V S)
      → is_none (bounded_by dec compare_values is_range_value bounds operator)
        ≡ is_unusable is_range_value operator
  bounded_by-unusable bounds (gt v) = ground arith
  bounded_by-unusable bounds (gte v) = ground arith
  bounded_by-unusable bounds (lt v) = ground arith
  bounded_by-unusable bounds (lte v) = ground arith
  bounded_by-unusable bounds (eq v) = refl
  bounded_by-unusable bounds (neq v) = refl
  bounded_by-unusable bounds (starts_with v) = refl
  bounded_by-unusable bounds (in_values vs keys) = refl

  range_bounds_from-unusable :
      (bounds : OrderedRangeBounds V) (filters : List (TopicRawPredicateFilterPlan F V S))
      → is_none (range_bounds_from dec compare_values is_range_value field bounds filters)
        ≡ any_unusable filters
  unfolding range_bounds_from
  range_bounds_from-unusable bounds [] = refl
  range_bounds_from-unusable bounds (filter ∷ filters) =
      go (λ next. range_bounds_from-unusable next filters) (dec filter.field field)
    where
      after :
          ((next : OrderedRangeBounds V)
            → is_none (range_bounds_from dec compare_values is_range_value field next filters)
              ≡ any_unusable filters)
          → (found : Option (OrderedRangeBounds V)) (unusable : Bool) → is_none found ≡ unusable
          → is_none (elim found [
            | none ↦ none
            | some next ↦ range_bounds_from dec compare_values is_range_value field next filters
          ])
            ≡ unusable || any_unusable filters
      after later none unusable h = ap (λ (b : Bool). b || any_unusable filters) h
      after later (some next) unusable h =
          later next ∙ ap (λ (b : Bool). b || any_unusable filters) h

      go :
          ((next : OrderedRangeBounds V)
            → is_none (range_bounds_from dec compare_values is_range_value field next filters)
              ≡ any_unusable filters)
          → (d : Dec (filter.field ≡ field))
          → is_none
              (elim (ite d
                (bounded_by dec compare_values is_range_value bounds filter.operator)
                (some bounds)) [
                  | none ↦ none
                  | some next ↦
                      range_bounds_from dec compare_values is_range_value field next filters
                ])
            ≡ ite d (is_unusable is_range_value filter.operator) false || any_unusable filters
      go later (yes e) = after later _ _ (bounded_by-unusable bounds filter.operator)
      go later (no n) = later bounds

  -- The range filters on a field fold into no bounds exactly when the value of one of them cannot bound a range.
  pub ordered_range_bounds_for_field-unusable :
      (filters : List (TopicRawPredicateFilterPlan F V S))
      → is_none (ordered_range_bounds_for_field dec compare_values is_range_value filters field)
        ≡ any_unusable filters
  unfolding ordered_range_bounds_for_field
  ordered_range_bounds_for_field-unusable filters =
      range_bounds_from-unusable no_ordered_range_bounds filters
