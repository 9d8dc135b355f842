-- ===== src/Engine/Spans/Selected.antt =====
-- The span holds exactly the slots whose values satisfy the bounds.
use view_server_smart.Shared.{
  ℕ, zero, suc, ◌≤◌, ◌<◌, ◌≡◌, refl, sym, ap, subst, ◌∙◌, inl, inr, Bool, true, false, ◌&&◌, ◌||◌,
  not, Option, none, some, List, [], ◌∷◌, length, get_elem?, take, drop, max, ltb, leb,
  if◌then◌else◌, arith, Bool-cases, get_elem?-lt, lt-get_elem?,
}
use view_server_smart.Shared.Order.{
  Comparison, is_less, is_more, is_same, AtMost, IsPreorder, AtMost-self,
}
use view_server_smart.Shared.Order.Sorting.{IsSorted}
use view_server_smart.Engine.Search.{ordered_slot_bound_index, before_bound}
use view_server_smart.Engine.Search.Loop.{search_loop-Turns}
use view_server_smart.Engine.Search.Insertion.{All-get_elem?}
use view_server_smart.Engine.Ranges.{
  OrderedRangeBound, OrderedRangeBounds, satisfies_lower, satisfies_upper,
  equality_value_satisfies_range_bounds,
}
use view_server_smart.Engine.Scan.{filter, span_slots}
use view_server_smart.Engine.Spans.{ordered_slot_index_bounds, start_of, end_of, not_less, not_more}

module _ {A : Type 0} where
  take-nil : (n : ℕ) → take {A = A} n [] ≡ []
  take-nil zero = refl
  take-nil (suc n) = refl

  drop-nil : (n : ℕ) → drop {A = A} n [] ≡ []
  drop-nil zero = refl
  drop-nil (suc n) = refl

  -- A test that holds from one index to another keeps what stands between.
  filter-span :
      (p : A → Bool) (xs : List A) (s e : ℕ)
      → ((i : ℕ) (x : A) → get_elem? xs i ≡ some x → p x ≡ leb s i && ltb i e)
      → filter p xs ≡ drop s (take e xs)
  filter-span p [] s e h = sym (ap (drop s) (take-nil e) ∙ drop-nil s)
  filter-span p (x ∷ xs) zero zero h =
      let first : p x ≡ false = ground (arith, h 0 x refl) in
      rw (first, filter) (filter-span p xs zero zero (λ i y at. h (suc i) y at ∙ ground arith))
  filter-span p (x ∷ xs) zero (suc e) h =
      let first : p x ≡ true = ground (arith, h 0 x refl) in
      rw (first, filter)
        (ap (λ (ys : List A). x ∷ ys)
          (filter-span p xs zero e (λ i y at. h (suc i) y at ∙ ground arith)))
  filter-span p (x ∷ xs) (suc s) zero h =
      let first : p x ≡ false = ground (arith, h 0 x refl) in
      rw (first, filter)
        (filter-span p xs s zero (λ i y at. h (suc i) y at ∙ ground arith) ∙ drop-nil s)
  filter-span p (x ∷ xs) (suc s) (suc e) h =
      let first : p x ≡ false = ground (arith, h 0 x refl) in
      rw (first, filter) (filter-span p xs s e (λ i y at. h (suc i) y at ∙ ground arith))

module _ {A : Type 0} (slots : List A) (compare_to : A → Comparison) (predicate : Comparison → Bool)
    (turning : (i j : ℕ) (a b : A)
      → i ≤ j
      → get_elem? slots i ≡ some a
      → get_elem? slots j ≡ some b
      → predicate (compare_to a) ≡ true
      → predicate (compare_to b) ≡ true) where
  -- From the index of a bound on, and only there, the predicate holds.
  bound_index-predicate :
      (i : ℕ) (x : A)
      → get_elem? slots i ≡ some x
      → predicate (compare_to x) ≡ leb (ordered_slot_bound_index slots compare_to predicate) i
  unfolding ordered_slot_bound_index
  bound_index-predicate i x at =
      let t =
        search_loop-Turns (before_bound compare_to predicate slots) (length slots) downward
          (length slots) 0 (length slots) (omega arith) (omega arith) (omega arith)
          (λ i h. absurd (omega (arith, h))) (λ i h k. absurd (omega (arith, h, k))) in
      let r = ordered_slot_bound_index slots compare_to predicate in
      elim (Bool-cases (ltb i r)) [
        | inl e ↦
            let right : not (predicate (compare_to x)) ≡ true =
              rw (at, before_bound) at (t.below i (ground (arith, e))) in
            ground (arith, right, e)
        | inr e ↦
            let left : not (predicate (compare_to x)) ≡ false =
              rw (at, before_bound) at
                (t.above i (ground (arith, e)) (lt-get_elem? slots i x at)) in
            ground (arith, left, e)
      ]
    where
      downward :
          (i j : ℕ)
          → i ≤ j
          → j < length slots
          → before_bound compare_to predicate slots j ≡ true
          → before_bound compare_to predicate slots i ≡ true
      downward i j le lt h =
          let (b, at_j) = get_elem?-lt slots j lt in
          let (a, at_i) = get_elem?-lt slots i (omega (arith, le, lt)) in
          let last : not (predicate (compare_to b)) ≡ true = rw (at_j, before_bound) at h in
          rw (at_i, before_bound)
            (elim (Bool-cases (predicate (compare_to a))) [
              | inl up ↦ absurd (ground (arith, last, turning i j a b le at_i at_j up))
              | inr down ↦ rw down refl
            ])

-- In a sorted list what stands later is at least what stands before.
sorted_pair :
    {A : Type 0} {compare : A → A → Comparison} (o : IsPreorder compare) (xs : List A)
    → IsSorted compare xs
    → (i j : ℕ) (a b : A) → i ≤ j
    → get_elem? xs i ≡ some a
    → get_elem? xs j ≡ some b
    → AtMost compare a b
sorted_pair o [] s i j a b le at_i at_j = cc at_i
sorted_pair o (x ∷ xs) s zero zero a b le at_i at_j =
    let e : a ≡ b = cc (at_i, at_j) in rw e (AtMost-self o b)
sorted_pair {compare = compare} o (x ∷ xs) s zero (suc j) a b le at_i at_j =
    let e : x ≡ a = cc at_i in
    subst (λ (y : _). AtMost compare y b) e (All-get_elem? (AtMost compare x) xs j b s.0 at_j)
sorted_pair o (x ∷ xs) s (suc i) zero a b le at_i at_j = absurd (omega (arith, le))
sorted_pair o (x ∷ xs) s (suc i) (suc j) a b le at_i at_j =
    sorted_pair o xs s.1 i j a b (omega (arith, le)) at_i at_j

module _ {V : Type 0} {compare_values : V → V → Comparison} (o : IsPreorder compare_values)
    (value_at : ℕ → V) (slots : List ℕ) where
  reversed : IsPreorder (λ (a b : ℕ). compare_values (value_at b) (value_at a))
  reversed = record {
    swap = λ a b. o.swap (value_at b) (value_at a);
    trans = λ a b c h k. o.trans (value_at c) (value_at b) (value_at a) k h;
  }

  by_value : IsPreorder (λ (a b : ℕ). compare_values (value_at a) (value_at b))
  by_value = record {
    swap = λ a b. o.swap (value_at a) (value_at b);
    trans = λ a b c h k. o.trans (value_at a) (value_at b) (value_at c) h k;
  }

  -- `comparison > 0` and `>= 0` pass on to larger values, `< 0` and `<= 0` to smaller ones.
  above_later :
      (exclusive : Bool) (a b v : V)
      → AtMost compare_values a b
      → (if exclusive then is_more else not_less) (compare_values a v) ≡ true
      → (if exclusive then is_more else not_less) (compare_values b v) ≡ true
  above_later true a b v h k = ground (
    arith,
    h,
    k,
    o.swap v a,
    o.swap v b,
    o.swap a b,
    o.trans a b v,
    o.trans v a b,
    o.trans b a v,
    o.trans v b a,
    o.trans b v a,
    o.trans a v b,
  )
  above_later false a b v h k = ground (
    arith,
    h,
    k,
    o.swap v a,
    o.swap v b,
    o.swap a b,
    o.trans a b v,
    o.trans v a b,
    o.trans b a v,
    o.trans v b a,
    o.trans b v a,
    o.trans a v b,
  )

  below_later :
      (exclusive : Bool) (a b v : V)
      → AtMost compare_values b a
      → (if exclusive then is_less else not_more) (compare_values a v) ≡ true
      → (if exclusive then is_less else not_more) (compare_values b v) ≡ true
  below_later true a b v h k = ground (
    arith,
    h,
    k,
    o.swap v a,
    o.swap v b,
    o.swap a b,
    o.trans a b v,
    o.trans v a b,
    o.trans b a v,
    o.trans v b a,
    o.trans b v a,
    o.trans a v b,
  )
  below_later false a b v h k = ground (
    arith,
    h,
    k,
    o.swap v a,
    o.swap v b,
    o.swap a b,
    o.trans a b v,
    o.trans v a b,
    o.trans b a v,
    o.trans v b a,
    o.trans b v a,
    o.trans a v b,
  )

  above_later_swapped :
      (exclusive : Bool) (a b v : V)
      → AtMost compare_values a b
      → (if exclusive then not_less else is_more) (compare_values a v) ≡ true
      → (if exclusive then not_less else is_more) (compare_values b v) ≡ true
  above_later_swapped true a b v h k = above_later false a b v h k
  above_later_swapped false a b v h k = above_later true a b v h k

  below_later_swapped :
      (exclusive : Bool) (a b v : V)
      → AtMost compare_values b a
      → (if exclusive then not_more else is_less) (compare_values a v) ≡ true
      → (if exclusive then not_more else is_less) (compare_values b v) ≡ true
  below_later_swapped true a b v h k = below_later false a b v h k
  below_later_swapped false a b v h k = below_later true a b v h k

  module _ (s : IsSorted (λ (a b : ℕ). compare_values (value_at a) (value_at b)) slots) (i x : ℕ)
      (at : get_elem? slots i ≡ some x) where
    start_of-lower :
        (lower : Option (OrderedRangeBound V))
        → satisfies_lower compare_values (value_at x) lower
          ≡ leb (start_of compare_values value_at slots is_more not_less lower) i
    start_of-lower none = ground arith
    start_of-lower (some bound) =
        let found =
          bound_index-predicate slots (λ slot. compare_values (value_at slot) bound.value)
            (if bound.exclusive then is_more else not_less)
            (λ i j a b le at_i at_j h.
              above_later bound.exclusive (value_at a) (value_at b) bound.value
                (sorted_pair by_value slots s i j a b le at_i at_j) h)
            i x at in
        let own : satisfies_lower compare_values (value_at x) (some bound)
            ≡ (if bound.exclusive then is_more else not_less)
                (compare_values (value_at x) bound.value) =
          lower_test bound.exclusive (compare_values (value_at x) bound.value) in
        own ∙ found
      where
        lower_test :
            (exclusive : Bool) (c : Comparison)
            → not (is_less c || (is_same c && exclusive))
              ≡ (if exclusive then is_more else not_less) c
        lower_test true c = ground arith
        lower_test false c = ground arith

    end_of-upper :
        (upper : Option (OrderedRangeBound V))
        → satisfies_upper compare_values (value_at x) upper
          ≡ ltb i (end_of compare_values value_at slots not_less is_more upper)
    end_of-upper none = ground (arith, lt-get_elem? slots i x at)
    end_of-upper (some bound) =
        let found =
          bound_index-predicate slots (λ slot. compare_values (value_at slot) bound.value)
            (if bound.exclusive then not_less else is_more)
            (λ i j a b le at_i at_j h.
              above_later_swapped bound.exclusive (value_at a) (value_at b) bound.value
                (sorted_pair by_value slots s i j a b le at_i at_j) h)
            i x at in
        own bound.exclusive (compare_values (value_at x) bound.value) ∙ ap not found ∙ ground arith
      where
        own :
            (exclusive : Bool) (c : Comparison)
            → not (is_more c || (is_same c && exclusive))
              ≡ not ((if exclusive then not_less else is_more) c)
        own true c = ground arith
        own false c = ground arith

  module _ (s : IsSorted (λ (a b : ℕ). compare_values (value_at b) (value_at a)) slots) (i x : ℕ)
      (at : get_elem? slots i ≡ some x) where
    start_of-upper :
        (upper : Option (OrderedRangeBound V))
        → satisfies_upper compare_values (value_at x) upper
          ≡ leb (start_of compare_values value_at slots is_less not_more upper) i
    start_of-upper none = ground arith
    start_of-upper (some bound) =
        let found =
          bound_index-predicate slots (λ slot. compare_values (value_at slot) bound.value)
            (if bound.exclusive then is_less else not_more)
            (λ i j a b le at_i at_j h.
              below_later bound.exclusive (value_at a) (value_at b) bound.value
                (sorted_pair reversed slots s i j a b le at_i at_j) h)
            i x at in
        own bound.exclusive (compare_values (value_at x) bound.value) ∙ found
      where
        own :
            (exclusive : Bool) (c : Comparison)
            → not (is_more c || (is_same c && exclusive))
              ≡ (if exclusive then is_less else not_more) c
        own true c = ground arith
        own false c = ground arith

    end_of-lower :
        (lower : Option (OrderedRangeBound V))
        → satisfies_lower compare_values (value_at x) lower
          ≡ ltb i (end_of compare_values value_at slots not_more is_less lower)
    end_of-lower none = ground (arith, lt-get_elem? slots i x at)
    end_of-lower (some bound) =
        let found =
          bound_index-predicate slots (λ slot. compare_values (value_at slot) bound.value)
            (if bound.exclusive then not_more else is_less)
            (λ i j a b le at_i at_j h.
              below_later_swapped bound.exclusive (value_at a) (value_at b) bound.value
                (sorted_pair reversed slots s i j a b le at_i at_j) h)
            i x at in
        own bound.exclusive (compare_values (value_at x) bound.value) ∙ ap not found ∙ ground arith
      where
        own :
            (exclusive : Bool) (c : Comparison)
            → not (is_less c || (is_same c && exclusive))
              ≡ not ((if exclusive then not_more else is_less) c)
        own true c = ground arith
        own false c = ground arith

  abbrev pub in_direction : Bool → ℕ → ℕ → Comparison
  in_direction true a b = compare_values (value_at a) (value_at b)
  in_direction false a b = compare_values (value_at b) (value_at a)

  span_max : (i from end : ℕ) → leb from i && ltb i end ≡ leb from i && ltb i (max from end)
  span_max i from end = ground arith

  and_comm : (a b : Bool) → a && b ≡ b && a
  and_comm a b = ground arith

  -- Let values be compared in a total and transitive order, and let the slots of an index be sorted by their values,
  -- upwards or downwards. The span that range bounds select in it holds exactly the slots whose values satisfy the
  -- bounds.
  pub ordered_slot_index_bounds-satisfies :
      (ascending : Bool) (bounds : OrderedRangeBounds V)
      → IsSorted (in_direction ascending) slots
      → filter
          (λ slot. equality_value_satisfies_range_bounds compare_values (value_at slot) bounds)
          slots
        ≡ span_slots slots
            (ordered_slot_index_bounds compare_values value_at slots ascending bounds)
  ordered_slot_index_bounds-satisfies true bounds s =
      let from = start_of compare_values value_at slots is_more not_less bounds.lower in
      let end = end_of compare_values value_at slots not_less is_more bounds.upper in
      filter-span
        (λ slot. equality_value_satisfies_range_bounds compare_values (value_at slot) bounds) slots
        from (max from end)
        (λ i x at.
          ap (λ (b : Bool). b && satisfies_upper compare_values (value_at x) bounds.upper)
            (start_of-lower s i x at bounds.lower)
          ∙ ap (λ (b : Bool). leb from i && b) (end_of-upper s i x at bounds.upper)
          ∙ span_max i from end)
  ordered_slot_index_bounds-satisfies false bounds s =
      let from = start_of compare_values value_at slots is_less not_more bounds.upper in
      let end = end_of compare_values value_at slots not_more is_less bounds.lower in
      filter-span
        (λ slot. equality_value_satisfies_range_bounds compare_values (value_at slot) bounds) slots
        from (max from end)
        (λ i x at.
          and_comm (satisfies_lower compare_values (value_at x) bounds.lower)
            (satisfies_upper compare_values (value_at x) bounds.upper)
          ∙ ap (λ (b : Bool). b && satisfies_lower compare_values (value_at x) bounds.lower)
              (start_of-upper s i x at bounds.upper)
          ∙ ap (λ (b : Bool). leb from i && b) (end_of-lower s i x at bounds.lower)
          ∙ span_max i from end)
