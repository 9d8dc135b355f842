-- ===== src/Engine/Aggregates/Run.antt =====
-- Batches of additions, removals and replacements in any order: the state always tells of the members that are left.
use view_server_smart.Shared.{
  ◌≤◌, ◌≡◌, refl, sym, inl, inr, Bool, true, false, Option, some, List, [], ◌∷◌, arith,
  Option-cases, All,
}
use view_server_smart.Shared.Int.{ℤ}
use view_server_smart.Shared.Assoc.{get_entry}
use view_server_smart.Shared.Order.{Comparison, same, IsPreorder}
use view_server_smart.Engine.Aggregates.{
  AggregateState, RuntimeGroupedAggregate, counting, counting_distinct, summing_bigint,
  summing_decimal, averaging, base_extreme, retained_extreme, MinMaxAggregateValueState,
  empty_reversible_aggregate_state, recompute_min_max_aggregate_state,
}
use view_server_smart.Engine.Aggregates.Batch.{
  update_materialized_aggregate_state, remove_materialized_aggregate_state,
  replace_materialized_aggregate_state, recompute_dirty_aggregate_states,
}
use view_server_smart.Engine.Aggregates.Members.{Removes, weight_at, occurrences, occurs}
use view_server_smart.Engine.Aggregates.Extremes.{
  best-Extreme, better, better-same, not_better_trans,
}
use view_server_smart.Engine.Aggregates.Sums.{DecimalLaws}
use view_server_smart.Engine.Aggregates.Steps.{added-Tells, remove_aggregate_state-Tells}
use view_server_smart.Engine.Aggregates.Retained.{TellsOf, Retained, empty-TellsOf}

module _ {V S D : Type 0} (dec : Discrete S) (stable_string : V → S)
    (compare_values : V → V → Comparison) (as_bigint : V → Option ℤ) (to_decimal : V → Option D)
    (sum subtract : D → D → D) (zero_decimal : D) (o : IsPreorder compare_values)
    (same_string : (a b : V) → stable_string a ≡ stable_string b → compare_values a b ≡ same)
    (l : DecimalLaws sum subtract) where
  abbrev Tells : AggregateState V S D → Bool → List V → Type 0
  Tells state dirty xs =
      TellsOf dec stable_string compare_values as_bigint to_decimal sum subtract zero_decimal o
        same_string l state dirty xs

  -- The states that batches of changes reach, with whether they are dirty and with the members that are left.
  pub data Run (aggregate : RuntimeGroupedAggregate)
      : AggregateState V S D × Bool → List V → Type 0 where
    start :
        Run aggregate
          (
            empty_reversible_aggregate_state dec stable_string compare_values as_bigint to_decimal
                sum subtract zero_decimal aggregate,
            false,
          )
          []
    add :
        {state : AggregateState V S D × Bool} {xs : List V} (v : V)
        → Run aggregate state xs
        → Run aggregate
            (update_materialized_aggregate_state dec stable_string compare_values as_bigint
              to_decimal sum subtract zero_decimal state v)
            (v ∷ xs)
    take_out :
        {state : AggregateState V S D × Bool} {xs ys : List V} (v : V)
        → Run aggregate state xs
        → Removes v xs ys
        → Run aggregate
            (remove_materialized_aggregate_state dec stable_string compare_values as_bigint
              to_decimal sum subtract zero_decimal state v)
            ys
    replace :
        {state : AggregateState V S D × Bool} {xs ys : List V} (v w : V)
        → Run aggregate state xs
        → Removes v xs ys
        → Run aggregate
            (replace_materialized_aggregate_state dec stable_string compare_values as_bigint
              to_decimal sum subtract zero_decimal state v w)
            (w ∷ ys)
    end_batch :
        {state : AggregateState V S D × Bool} {xs : List V}
        → Run aggregate state xs
        → Run aggregate
            (
              recompute_dirty_aggregate_states dec stable_string compare_values as_bigint to_decimal
                  sum subtract zero_decimal state,
              false,
            )
            xs

  -- The end of a batch makes every state clean.
  recomputed-Tells :
      (state : AggregateState V S D) (xs : List V)
      → Tells state true xs
      → Tells
          (recompute_min_max_aggregate_state dec stable_string compare_values as_bigint to_decimal
            sum subtract zero_decimal state)
          false
          xs
  unfolding recompute_min_max_aggregate_state
  recomputed-Tells (counting n) xs t = t
  recomputed-Tells (counting_distinct m n) xs t = t
  recomputed-Tells (summing_bigint total) xs t = t
  recomputed-Tells (summing_decimal total) xs t = t
  recomputed-Tells (averaging n total) xs t = t
  recomputed-Tells (base_extreme is_min best) xs t = t
  recomputed-Tells (retained_extreme is_min m best) xs t = record {
    tracks = t.tracks;
    keyed = t.keyed;
    extreme =
        best-Extreme dec stable_string compare_values as_bigint to_decimal sum subtract zero_decimal
          o same_string is_min m t.tracks.unique t.keyed;
  }

  ended-Tells :
      (state : AggregateState V S D) (dirty : Bool) (xs : List V)
      → Tells state dirty xs
      → Tells
          (recompute_dirty_aggregate_states dec stable_string compare_values as_bigint to_decimal
            sum subtract zero_decimal
            (state, dirty))
          false
          xs
  unfolding recompute_dirty_aggregate_states
  ended-Tells state false xs t = t
  ended-Tells state true xs t = recomputed-Tells state xs t

  taken_out-Tells :
      (state : AggregateState V S D × Bool) (xs ys : List V) (v : V)
      → Removes v xs ys
      → Tells state.0 state.1 xs
      → let after =
          remove_materialized_aggregate_state dec stable_string compare_values as_bigint to_decimal
            sum subtract zero_decimal state v in
        Tells after.0 after.1 ys
  unfolding remove_materialized_aggregate_state
  taken_out-Tells (state, dirty) xs ys v r t =
      remove_aggregate_state-Tells dec stable_string compare_values as_bigint to_decimal sum
        subtract zero_decimal o same_string l dirty xs ys v r state t

  -- Let values that print the same compare the same in a total and transitive order, and let decimals be added and
  -- subtracted as numbers. After any batches of additions, removals and replacements of values that are there, and at
  -- any point within a batch, the state tells of the members that are left: their number; how often each value occurs,
  -- and how many values occur; their sum; the number and the sum of those that are decimals; or how often each value
  -- occurs and, where no new computation of it is due, an extreme one among them. At the end of a batch none is due.
  pub Run-TellsOf :
      (aggregate : RuntimeGroupedAggregate) (state : AggregateState V S D × Bool) (xs : List V)
      → Run aggregate state xs
      → TellsOf dec stable_string compare_values as_bigint to_decimal sum subtract zero_decimal o
          same_string l state.0 state.1 xs
  unfolding update_materialized_aggregate_state replace_materialized_aggregate_state
  Run-TellsOf aggregate state xs start =
      empty-TellsOf dec stable_string compare_values as_bigint to_decimal sum subtract zero_decimal
        o same_string l aggregate
  Run-TellsOf aggregate state xs (add {state = s} {xs = zs} v run) =
      added-Tells dec stable_string compare_values as_bigint to_decimal sum subtract zero_decimal o
        same_string l s.0 s.1 zs v (Run-TellsOf aggregate s zs run)
  Run-TellsOf aggregate state xs (take_out {state = s} {xs = zs} v run r) =
      taken_out-Tells s zs xs v r (Run-TellsOf aggregate s zs run)
  Run-TellsOf aggregate state xs (replace {state = s} {xs = zs} {ys = ys} v w run r) =
      added-Tells dec stable_string compare_values as_bigint to_decimal sum subtract zero_decimal o
        same_string l _ _ ys w (taken_out-Tells s zs ys v r (Run-TellsOf aggregate s zs run))
  Run-TellsOf aggregate state xs (end_batch {state = s} run) =
      ended-Tells s.0 s.1 xs (Run-TellsOf aggregate s xs run)

  -- The members whose values the map counts are not better than its extreme value.
  bounded_members :
      (is_min : Bool) (m : List (S × MinMaxAggregateValueState V)) (b : V) (xs zs : List V)
      → Retained dec stable_string compare_values as_bigint to_decimal sum subtract zero_decimal o
          same_string l is_min m
          (some b)
          false
          xs
      → ((key : S) → occurrences dec stable_string key zs ≤ occurrences dec stable_string key xs)
      → All
          (λ x.
            better dec stable_string compare_values as_bigint to_decimal sum subtract zero_decimal o
              same_string is_min x b
            ≡ false)
          zs
  bounded_members is_min m b xs [] r h = tt
  bounded_members is_min m b xs (z ∷ zs) r h =
      let self : occurs dec stable_string (stable_string z) z ≡ 1 = ground arith in
      (
        elim (Option-cases (get_entry dec (stable_string z) m)) [
          | inl e ↦
              let no_weight : weight_at dec stable_string
                    (λ (e : MinMaxAggregateValueState V). e.entry_count)
                    (get_entry dec (stable_string z) m)
                  ≡ 0 =
                rw (e, weight_at) refl in
              absurd (
                omega
                  (arith, no_weight, r.tracks.counts (stable_string z), h (stable_string z), self))
          | inr (e, at_z) ↦
              not_better_trans dec stable_string compare_values as_bigint to_decimal sum subtract
                zero_decimal o same_string is_min z e.entry_value b
                (better-same dec stable_string compare_values as_bigint to_decimal sum subtract
                  zero_decimal o same_string is_min z e.entry_value
                  (sym (r.keyed (stable_string z) e at_z)))
                (r.extreme.bound (stable_string z) e at_z)
        ],
        bounded_members is_min m b xs zs r (λ key. omega (arith, h key)),
      )

  -- Let values that print the same compare the same in a total and transitive order, and let decimals be added and
  -- subtracted as numbers. When batches of additions, removals and replacements have led to a minimum or maximum of
  -- which no new computation is due, as at the end of every batch, no member that is left is better, and a member that
  -- is left prints the same.
  pub Run-extreme :
      (aggregate : RuntimeGroupedAggregate) (is_min : Bool)
      (m : List (S × MinMaxAggregateValueState V)) (b : V) (xs : List V)
      → Run aggregate (retained_extreme is_min m (some b), false) xs
      → All
          (λ x.
            better dec stable_string compare_values as_bigint to_decimal sum subtract zero_decimal o
              same_string is_min x b
            ≡ false)
          xs
        × (1 ≤ occurrences dec stable_string (stable_string b) xs)
  Run-extreme aggregate is_min m b xs run =
      let r = Run-TellsOf aggregate (retained_extreme is_min m (some b), false) xs run in
      let x = r.extreme in
      let weight : weight_at dec stable_string (λ (e : MinMaxAggregateValueState V). e.entry_count)
            (get_entry dec (stable_string b) m)
          ≡ x.entry.entry_count =
        let at_b = x.there in rw (at_b, weight_at) refl in
      (
        bounded_members is_min m b xs xs r (λ key. omega arith),
        omega (
          arith,
          weight,
          r.tracks.counts (stable_string b),
          r.tracks.positive (stable_string b) x.entry x.there,
        ),
      )
