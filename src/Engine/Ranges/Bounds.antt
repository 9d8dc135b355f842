-- ===== src/Engine/Ranges/Bounds.antt =====
-- Folding range filters into two bounds: a value is within the bounds if it passes every filter.
use view_server_smart.Shared.{
  ◌≡◌, refl, sym, ap, ◌∙◌, Bool, true, false, ◌&&◌, not, Option, none, some, List, [], ◌∷◌, ite,
  arith, if◌then◌else◌,
}
use view_server_smart.Shared.Order.{Comparison, is_less, is_more, IsPreorder}
use view_server_smart.Engine.Ranges.{
  FilterOperator, eq, neq, gt, gte, lt, lte, starts_with, in_values, TopicRawPredicateFilterPlan,
  OrderedRangeBound, OrderedRangeBounds, no_ordered_range_bounds, stronger_lower_bound,
  stronger_upper_bound, with_lower, with_upper, bounded_by, range_bounds_from,
  ordered_range_bounds_for_field, range_bounds_are_empty, satisfies_lower, satisfies_upper,
  equality_value_satisfies_range_bounds,
}

module _ {V : Type 0} {compare_values : V → V → Comparison} (o : IsPreorder compare_values) where
  lower_and :
      (value : V) (current : Option (OrderedRangeBound V)) (candidate : OrderedRangeBound V)
      → satisfies_lower compare_values value
          (some (stronger_lower_bound compare_values current candidate))
        ≡ satisfies_lower compare_values value current
          && satisfies_lower compare_values value (some candidate)
  lower_and value none candidate = refl
  lower_and value (some current) candidate =
      let a = value in
      let b = candidate.value in
      let c = current.value in
      ground (
        arith,
        o.swap a b,
        o.swap a c,
        o.swap b c,
        o.trans a b c,
        o.trans a c b,
        o.trans b a c,
        o.trans b c a,
        o.trans c a b,
        o.trans c b a,
      )

  upper_and :
      (value : V) (current : Option (OrderedRangeBound V)) (candidate : OrderedRangeBound V)
      → satisfies_upper compare_values value
          (some (stronger_upper_bound compare_values current candidate))
        ≡ satisfies_upper compare_values value current
          && satisfies_upper compare_values value (some candidate)
  upper_and value none candidate = refl
  upper_and value (some current) candidate =
      let a = value in
      let b = candidate.value in
      let c = current.value in
      ground (
        arith,
        o.swap a b,
        o.swap a c,
        o.swap b c,
        o.trans a b c,
        o.trans a c b,
        o.trans b a c,
        o.trans b c a,
        o.trans c a b,
        o.trans c b a,
      )

  -- Let values be compared in a total and transitive order. No value satisfies bounds that are empty.
  pub range_bounds_are_empty-satisfies :
      (value : V) (bounds : OrderedRangeBounds V)
      → range_bounds_are_empty compare_values bounds ≡ true
      → equality_value_satisfies_range_bounds compare_values value bounds ≡ false
  range_bounds_are_empty-satisfies value bounds h = go bounds.lower bounds.upper h
    where
      go :
          (lower upper : Option (OrderedRangeBound V))
          → range_bounds_are_empty compare_values (record { lower = lower; upper = upper }) ≡ true
          → satisfies_lower compare_values value lower && satisfies_upper compare_values value upper
            ≡ false
      go none upper h = absurd (cc h)
      go (some lower) none h = absurd (cc h)
      go (some lower) (some upper) h =
          let a = value in
          let b = lower.value in
          let c = upper.value in
          ground (
            arith,
            h,
            o.swap a b,
            o.swap a c,
            o.swap b c,
            o.trans a b c,
            o.trans a c b,
            o.trans b a c,
            o.trans b c a,
            o.trans c a b,
            o.trans c b a,
          )

  abbrev within : V → OrderedRangeBounds V → Bool
  within value bounds = equality_value_satisfies_range_bounds compare_values value bounds

some_if : {A : Type 0} (b : Bool) (x y : A) → (if b then some x else none) ≡ some y → x ≡ y
some_if true x y h = cc h
some_if false x y h = absurd (cc h)

and_swap : (a b c : Bool) → (a && b) && c ≡ (a && c) && b
and_swap a b c = ground arith

and_right : (a b c : Bool) → a && (b && c) ≡ (a && b) && c
and_right a b c = ground arith

module _ {V : Type 0} {compare_values : V → V → Comparison} (o : IsPreorder compare_values)
    (value : V) (bounds : OrderedRangeBounds V) (candidate : OrderedRangeBound V) where
  with_lower-within :
      within o value (with_lower compare_values bounds candidate)
      ≡ within o value bounds && satisfies_lower compare_values value (some candidate)
  with_lower-within =
      ap (λ (b : Bool). b && satisfies_upper compare_values value bounds.upper)
        (lower_and o value bounds.lower candidate)
      ∙ and_swap (satisfies_lower compare_values value bounds.lower)
          (satisfies_lower compare_values value (some candidate))
          (satisfies_upper compare_values value bounds.upper)

  with_upper-within :
      within o value (with_upper compare_values bounds candidate)
      ≡ within o value bounds && satisfies_upper compare_values value (some candidate)
  with_upper-within =
      ap (λ (b : Bool). satisfies_lower compare_values value bounds.lower && b)
        (upper_and o value bounds.upper candidate)
      ∙ and_right (satisfies_lower compare_values value bounds.lower)
          (satisfies_upper compare_values value bounds.upper)
          (satisfies_upper compare_values value (some candidate))

module _ {F V S : Type 0} (dec : Discrete F) {compare_values : V → V → Comparison}
    (o : IsPreorder compare_values) where
  -- What the range operators ask of a value; the others ask for nothing here.
  abbrev pub passes : V → FilterOperator V S → Bool
  passes value (gt v) = is_more (compare_values value v)
  passes value (gte v) = not (is_less (compare_values value v))
  passes value (lt v) = is_less (compare_values value v)
  passes value (lte v) = not (is_more (compare_values value v))
  passes value (eq v) = true
  passes value (neq v) = true
  passes value (starts_with v) = true
  passes value (in_values vs keys) = true

  abbrev pub passes_all : V → F → List (TopicRawPredicateFilterPlan F V S) → Bool
  passes_all value field [] = true
  passes_all value field (filter ∷ filters) =
      ite (dec filter.field field) (passes value filter.operator) true
      && passes_all value field filters

  bounded_by-within :
      (is_range_value : V → Bool) (value : V) (bounds next : OrderedRangeBounds V)
      (operator : FilterOperator V S)
      → bounded_by dec compare_values is_range_value bounds operator ≡ some next
      → within o value next ≡ within o value bounds && passes value operator
  bounded_by-within r value bounds next (gt v) h =
      let candidate : OrderedRangeBound V = record { exclusive = true; value = v } in
      let e : with_lower compare_values bounds candidate ≡ next = some_if (r v) _ next h in
      let last : satisfies_lower compare_values value (some candidate) ≡ passes value (gt v) =
        ground arith in
      ap (within o value) (sym e)
      ∙ with_lower-within o value bounds candidate
      ∙ ap (λ (b : Bool). within o value bounds && b) last
  bounded_by-within r value bounds next (gte v) h =
      let candidate : OrderedRangeBound V = record { exclusive = false; value = v } in
      let e : with_lower compare_values bounds candidate ≡ next = some_if (r v) _ next h in
      let last : satisfies_lower compare_values value (some candidate) ≡ passes value (gte v) =
        ground arith in
      ap (within o value) (sym e)
      ∙ with_lower-within o value bounds candidate
      ∙ ap (λ (b : Bool). within o value bounds && b) last
  bounded_by-within r value bounds next (lt v) h =
      let candidate : OrderedRangeBound V = record { exclusive = true; value = v } in
      let e : with_upper compare_values bounds candidate ≡ next = some_if (r v) _ next h in
      let last : satisfies_upper compare_values value (some candidate) ≡ passes value (lt v) =
        ground arith in
      ap (within o value) (sym e)
      ∙ with_upper-within o value bounds candidate
      ∙ ap (λ (b : Bool). within o value bounds && b) last
  bounded_by-within r value bounds next (lte v) h =
      let candidate : OrderedRangeBound V = record { exclusive = false; value = v } in
      let e : with_upper compare_values bounds candidate ≡ next = some_if (r v) _ next h in
      let last : satisfies_upper compare_values value (some candidate) ≡ passes value (lte v) =
        ground arith in
      ap (within o value) (sym e)
      ∙ with_upper-within o value bounds candidate
      ∙ ap (λ (b : Bool). within o value bounds && b) last
  bounded_by-within r value bounds next (eq v) h = ground (arith, h)
  bounded_by-within r value bounds next (neq v) h = ground (arith, h)
  bounded_by-within r value bounds next (starts_with v) h = ground (arith, h)
  bounded_by-within r value bounds next (in_values vs keys) h = ground (arith, h)

  range_bounds_from-within :
      (is_range_value : V → Bool) (value : V) (field : F) (bounds result : OrderedRangeBounds V)
      (filters : List (TopicRawPredicateFilterPlan F V S))
      → range_bounds_from dec compare_values is_range_value field bounds filters ≡ some result
      → within o value result ≡ within o value bounds && passes_all value field filters
  unfolding range_bounds_from
  range_bounds_from-within r value field bounds result [] h = ground (arith, h)
  range_bounds_from-within r value field bounds result (filter ∷ filters) h =
      go (λ next k. range_bounds_from-within r value field next result filters k)
        (dec filter.field field) h
    where
      after :
          ((next : OrderedRangeBounds V)
            → range_bounds_from dec compare_values r field next filters ≡ some result
            → within o value result ≡ within o value next && passes_all value field filters)
          → (found : Option (OrderedRangeBounds V))
          → bounded_by dec compare_values r bounds filter.operator ≡ found
          → elim found [
            | none ↦ none
            | some next ↦ range_bounds_from dec compare_values r field next filters
          ]
            ≡ some result
          → within o value result
            ≡ within o value bounds
              && (passes value filter.operator && passes_all value field filters)
      after later none b h = absurd (cc h)
      after later (some next) b h =
          later next h
          ∙ ap (λ (b : Bool). b && passes_all value field filters)
              (bounded_by-within r value bounds next filter.operator b)
          ∙ sym (
              and_right (within o value bounds) (passes value filter.operator)
                (passes_all value field filters))

      go :
          ((next : OrderedRangeBounds V)
            → range_bounds_from dec compare_values r field next filters ≡ some result
            → within o value result ≡ within o value next && passes_all value field filters)
          → (d : Dec (filter.field ≡ field))
          → elim (ite d (bounded_by dec compare_values r bounds filter.operator) (some bounds)) [
            | none ↦ none
            | some next ↦ range_bounds_from dec compare_values r field next filters
          ]
            ≡ some result
          → within o value result
            ≡ within o value bounds
              && (ite d (passes value filter.operator) true && passes_all value field filters)
      go later (no n) h = later bounds h
      go later (yes e) h = after later _ refl h

  -- Let values be compared in a total and transitive order. A value satisfies the bounds that the range filters on a
  -- field fold into, when they do, exactly if it passes every one of these filters.
  pub ordered_range_bounds_for_field-passes :
      (is_range_value : V → Bool) (value : V) (field : F) (bounds : OrderedRangeBounds V)
      (filters : List (TopicRawPredicateFilterPlan F V S))
      → ordered_range_bounds_for_field dec compare_values is_range_value filters field ≡ some bounds
      → equality_value_satisfies_range_bounds compare_values value bounds
        ≡ passes_all value field filters
  unfolding ordered_range_bounds_for_field
  ordered_range_bounds_for_field-passes r value field bounds filters h =
      range_bounds_from-within r value field no_ordered_range_bounds bounds filters h
