-- ===== src/Engine/Ranges/Equality.antt =====
-- The values that the equality filters on a field leave: exactly those that pass every one of them.
use view_server_smart.Shared.{
  ◌≡◌, refl, sym, ap, subst, ◌∙◌, inl, inr, Bool, true, false, ◌&&◌, Option, none, some, List, [],
  ◌∷◌, ite, arith, if◌then◌else◌, Bool-cases,
}
use view_server_smart.Shared.Order.{Comparison, is_same, IsPreorder}
use view_server_smart.Engine.Ranges.{
  FilterOperator, eq, neq, gt, gte, lt, lte, starts_with, in_values, TopicRawPredicateFilterPlan,
  EqualitySeek, ordered_in_seek_values, add_seek_values, unsafe_seek, empty_seek, in_seek,
  seek_step, seek_result, seek_from, ordered_equality_values_for_field,
}
use view_server_smart.Engine.Ranges.Common.{has_value, intersect_ordered_equality_values-has_value}

module _ {V S : Type 0} {compare_values : V → V → Comparison} (o : IsPreorder compare_values)
    (v : V) where
  -- What the equality operators ask of a value; the others ask for nothing here.
  abbrev pub equals : FilterOperator V S → Bool
  equals (eq w) = is_same (compare_values v w)
  equals (in_values values keys) = has_value compare_values v values
  equals (neq w) = true
  equals (gt w) = true
  equals (gte w) = true
  equals (lt w) = true
  equals (lte w) = true
  equals (starts_with w) = true

module _ {F V S : Type 0} (dec : Discrete F) {compare_values : V → V → Comparison}
    (o : IsPreorder compare_values) (v : V) where
  abbrev pub equals_all : F → List (TopicRawPredicateFilterPlan F V S) → Bool
  equals_all field [] = true
  equals_all field (filter ∷ filters) =
      ite (dec filter.field field) (equals o v filter.operator) true && equals_all field filters

module _ {V : Type 0} (compare_values : V → V → Comparison) (v : V) where
  -- What the loop keeps, when `passed` tells whether the value has passed all filters so far.
  pub record KeepsPassed (seek : EqualitySeek V) (passed : Bool) : Type 0 where
    pub safe :
        seek.has_unsafe_equality_filter ≡ false
        → seek.has_empty_in_filter ≡ false
        → passed
          ≡ (if seek.has_safe_equality_filter then has_value compare_values v seek.values else true)
    pub empty : seek.has_empty_in_filter ≡ true → passed ≡ false
    pub any :
        seek.has_unsafe_equality_filter ≡ false
        → seek.has_empty_in_filter ≡ false
        → seek.has_equality_filter ≡ seek.has_safe_equality_filter

module _ {F V S : Type 0} (dec : Discrete F) (dec_key : Discrete S)
    {compare_values : V → V → Comparison} (o : IsPreorder compare_values) (is_seek_value : V → Bool)
    (scalar_equality_key : V → S) (v : V) where
  add-KeepsPassed :
      (seek : EqualitySeek V) (passed : Bool) (next : List V)
      → KeepsPassed compare_values v seek passed
      → KeepsPassed compare_values v
          (add_seek_values dec dec_key compare_values is_seek_value scalar_equality_key seek next)
          (passed && has_value compare_values v next)
  add-KeepsPassed seek passed next k = record {
    safe = λ u e. elim (Bool-cases seek.has_safe_equality_filter) [
      | inl s ↦
          let old : passed ≡ has_value compare_values v seek.values =
            ground (arith, k.safe u e, s) in
          rw (s, old) (sym (intersect_ordered_equality_values-has_value o v seek.values next))
      | inr s ↦ let old : passed ≡ true = ground (arith, k.safe u e, s) in rw (s, old) refl
    ];
    empty = λ e. ground (arith, k.empty e);
    any = λ u e. refl;
  }

  unsafe-KeepsPassed :
      (seek : EqualitySeek V) (passed more : Bool)
      → KeepsPassed compare_values v seek passed
      → KeepsPassed compare_values v
          (unsafe_seek dec dec_key compare_values is_seek_value scalar_equality_key seek)
          (passed && more)
  unsafe-KeepsPassed seek passed more k = record {
    safe = λ u e. absurd (cc u);
    empty = λ e. ground (arith, k.empty e);
    any = λ u e. absurd (cc u);
  }

  empty-KeepsPassed :
      (seek : EqualitySeek V) (passed : Bool)
      → KeepsPassed compare_values v seek passed
      → KeepsPassed compare_values v
          (empty_seek dec dec_key compare_values is_seek_value scalar_equality_key seek)
          (passed && false)
  empty-KeepsPassed seek passed k = record {
    safe = λ u e. absurd (cc e);
    empty = λ e. ground arith;
    any = λ u e. absurd (cc e);
  }

  same-KeepsPassed :
      (seek : EqualitySeek V) (passed : Bool)
      → KeepsPassed compare_values v seek passed
      → KeepsPassed compare_values v seek (passed && true)
  same-KeepsPassed seek passed k = let e : passed && true ≡ passed = ground arith in rw e k

  seek_values-eq :
      (values found : List V) (keys : Option (List S))
      → ordered_in_seek_values dec dec_key compare_values is_seek_value scalar_equality_key values
          keys
        ≡ some found
      → values ≡ found
  seek_values-eq values found keys h = ground (arith, h)

  in-KeepsPassed :
      (seek : EqualitySeek V) (passed : Bool) (values : List V) (found : Option (List V))
      → ((vs : List V) → found ≡ some vs → values ≡ vs)
      → KeepsPassed compare_values v seek passed
      → KeepsPassed compare_values v
          (in_seek dec dec_key compare_values is_seek_value scalar_equality_key seek found)
          (passed && has_value compare_values v values)
  in-KeepsPassed seek passed values none f k =
      unsafe-KeepsPassed seek passed (has_value compare_values v values) k
  in-KeepsPassed seek passed values (some []) f k =
      let e = f [] refl in rw e (empty-KeepsPassed seek passed k)
  in-KeepsPassed seek passed values (some (w ∷ ws)) f k =
      let e = f (w ∷ ws) refl in rw e (add-KeepsPassed seek passed (w ∷ ws) k)

  step-KeepsPassed :
      (seek : EqualitySeek V) (passed : Bool) (operator : FilterOperator V S)
      → KeepsPassed compare_values v seek passed
      → KeepsPassed compare_values v
          (seek_step dec dec_key compare_values is_seek_value scalar_equality_key seek operator)
          (passed && equals o v operator)
  step-KeepsPassed seek passed (eq w) k = elim (Bool-cases (is_seek_value w)) [
    | inl s ↦
        let one : has_value compare_values v (w ∷ []) ≡ is_same (compare_values v w) =
          ground arith in
        rw (s, seek_step)
          (subst
            (λ (b : Bool).
              KeepsPassed compare_values v
                (add_seek_values dec dec_key compare_values is_seek_value scalar_equality_key seek
                  (w ∷ []))
                (passed && b))
            one (add-KeepsPassed seek passed (w ∷ []) k))
    | inr s ↦ rw (s, seek_step) (unsafe-KeepsPassed seek passed (is_same (compare_values v w)) k)
  ]
  step-KeepsPassed seek passed (in_values values keys) k =
      in-KeepsPassed seek passed values _ (λ vs h. seek_values-eq values vs keys h) k
  step-KeepsPassed seek passed (neq w) k = same-KeepsPassed seek passed k
  step-KeepsPassed seek passed (gt w) k = same-KeepsPassed seek passed k
  step-KeepsPassed seek passed (gte w) k = same-KeepsPassed seek passed k
  step-KeepsPassed seek passed (lt w) k = same-KeepsPassed seek passed k
  step-KeepsPassed seek passed (lte w) k = same-KeepsPassed seek passed k
  step-KeepsPassed seek passed (starts_with w) k = same-KeepsPassed seek passed k

  seek_from-KeepsPassed :
      (field : F) (seek : EqualitySeek V) (passed : Bool)
      (filters : List (TopicRawPredicateFilterPlan F V S))
      → KeepsPassed compare_values v seek passed
      → KeepsPassed compare_values v
          (seek_from dec dec_key compare_values is_seek_value scalar_equality_key field seek
            filters)
          (passed && equals_all dec o v field filters)
  unfolding seek_from
  seek_from-KeepsPassed field seek passed [] k = same-KeepsPassed seek passed k
  seek_from-KeepsPassed field seek passed (filter ∷ filters) k =
      go (λ s p kept. seek_from-KeepsPassed field s p filters kept) (dec filter.field field)
    where
      go :
          ((s : EqualitySeek V) (p : Bool)
            → KeepsPassed compare_values v s p
            → KeepsPassed compare_values v
                (seek_from dec dec_key compare_values is_seek_value scalar_equality_key field s
                  filters)
                (p && equals_all dec o v field filters))
          → (d : Dec (filter.field ≡ field))
          → KeepsPassed compare_values v
              (seek_from dec dec_key compare_values is_seek_value scalar_equality_key field
                (ite d
                  (seek_step dec dec_key compare_values is_seek_value scalar_equality_key seek
                    filter.operator)
                  seek)
                filters)
              (passed
                && (ite d (equals o v filter.operator) true && equals_all dec o v field filters))
      go later (no n) = later seek passed k
      go later (yes e) =
          let grouped : (passed && equals o v filter.operator) && equals_all dec o v field filters
              ≡ passed && (equals o v filter.operator && equals_all dec o v field filters) =
            ground arith in
          subst
            (λ (b : Bool).
              KeepsPassed compare_values v
                (seek_from dec dec_key compare_values is_seek_value scalar_equality_key field
                  (seek_step dec dec_key compare_values is_seek_value scalar_equality_key seek
                    filter.operator)
                  filters)
                b)
            grouped (later _ _ (step-KeepsPassed seek passed filter.operator k))

  result_of :
      (seek : EqualitySeek V) (passed : Bool) (values : List V)
      → KeepsPassed compare_values v seek passed
      → seek_result dec dec_key compare_values is_seek_value scalar_equality_key seek ≡ some values
      → has_value compare_values v values ≡ passed
  result_of seek passed values k h = elim (Bool-cases seek.has_empty_in_filter) [
    | inl e ↦
        let nil : [] ≡ values = ground (arith, h, e) in
        ap (has_value compare_values v) (sym nil) ∙ sym (k.empty e)
    | inr e ↦
        let unsafe : seek.has_unsafe_equality_filter ≡ false = ground (arith, h, e) in
        let any : seek.has_equality_filter ≡ true = ground (arith, h, e) in
        let own : seek.values ≡ values = ground (arith, h, e) in
        let kept : seek.has_safe_equality_filter ≡ true = sym (k.any unsafe e) ∙ any in
        ap (has_value compare_values v) (sym own) ∙ sym (rw kept at (k.safe unsafe e))
  ]

  -- Let values be compared in a total and transitive order. When the equality filters on a field give values to seek, a
  -- value compares the same as one of them exactly if it passes every one of these filters.
  pub ordered_equality_values_for_field-equals :
      (filters : List (TopicRawPredicateFilterPlan F V S)) (field : F) (values : List V)
      → ordered_equality_values_for_field dec dec_key compare_values is_seek_value
          scalar_equality_key filters field
        ≡ some values
      → has_value compare_values v values ≡ equals_all dec o v field filters
  unfolding ordered_equality_values_for_field
  ordered_equality_values_for_field-equals filters field values h =
      result_of _ _ values
        (seek_from-KeepsPassed field _ true filters
          (record { safe = λ u e. refl; empty = λ e. absurd (cc e); any = λ u e. refl }))
        h
