-- ===== src/Engine/Aggregates/Retained.antt =====
-- What a state tells of the members of a group; a retained minimum or maximum under an addition.
use view_server_smart.Shared.{
  ℕ, ◌+◌, ◌≡◌, refl, sym, ap, ◌∙◌, inl, inr, Bool, true, false, Option, some, List, [], ◌∷◌, length,
  Option-cases,
}
use view_server_smart.Shared.Int.{ℤ, pos, ◌+ℤ◌, pos_suc}
use view_server_smart.Shared.Assoc.{
  get_entry, set_entry, get_set_same, get_set_other, length-set_entry-new, length-set_entry-old,
}
use view_server_smart.Shared.Order.{Comparison, same, IsPreorder}
use view_server_smart.Engine.Aggregates.{
  AggregateState, RuntimeGroupedAggregate, count, count_distinct, minimum, maximum, average,
  sum_bigint, sum_big_decimal, counting, counting_distinct, summing_bigint, summing_decimal,
  averaging, base_extreme, retained_extreme, MinMaxAggregateValueState,
  empty_reversible_aggregate_state, update_aggregate_state, add_distinct, add_retained, better_of,
}
use view_server_smart.Engine.Aggregates.Batch.{mark_dirty_aggregate_recompute}
use view_server_smart.Engine.Aggregates.Members.{Tracks, weight_at}
use view_server_smart.Engine.Aggregates.Extremes.{Extreme, IsKeyed, choose-Extreme}
use view_server_smart.Engine.Aggregates.Reversible.{add-Tracks}
use view_server_smart.Engine.Aggregates.Sums.{DecimalLaws, sum_of, count_of}

-- What is known where the state is not dirty.
abbrev pub WhenClean : Bool → Type 0 → Type 0
WhenClean false A = A
WhenClean true A = Unit

pub clean_map : {A B : Type 0} (dirty : Bool) → (A → B) → WhenClean dirty A → WhenClean dirty B
clean_map false f a = f a
clean_map true f a = tt

module _ {V S D : Type 0} (dec : Discrete S) (stable_string : V → S)
    (compare_values : V → V → Comparison) (as_bigint : V → Option ℤ) (to_decimal : V → Option D)
    (sum subtract : D → D → D) (zero_decimal : D) (o : IsPreorder compare_values)
    (same_string : (a b : V) → stable_string a ≡ stable_string b → compare_values a b ≡ same)
    (l : DecimalLaws sum subtract) where
  -- The map counts the members, and where the state is not dirty the value is an extreme one.
  pub record Retained (is_min : Bool) (m : List (S × MinMaxAggregateValueState V)) (best : Option V)
      (dirty : Bool) (xs : List V) : Type 0 where
    pub tracks : Tracks dec stable_string (λ (e : MinMaxAggregateValueState V). e.entry_count) m xs
    pub keyed :
        IsKeyed dec stable_string compare_values as_bigint to_decimal sum subtract zero_decimal o
          same_string m
    pub extreme : WhenClean dirty (
        Extreme dec stable_string compare_values as_bigint to_decimal sum subtract zero_decimal o
          same_string is_min m best)

  -- The state tells of the members `xs`, an extreme value only where it is not dirty. A minimum or maximum without a
  -- map is not kept under removals.
  abbrev pub TellsOf : AggregateState V S D → Bool → List V → Type 0
  TellsOf (counting n) dirty xs = n ≡ pos (length xs)
  TellsOf (counting_distinct m n) dirty xs =
      (n ≡ pos (length m)) × Tracks dec stable_string (λ (n : ℕ). n) m xs
  TellsOf (summing_bigint total) dirty xs = total ≡ sum_of as_bigint ◌+ℤ◌ (pos 0) xs
  TellsOf (summing_decimal total) dirty xs = total ≡ sum_of to_decimal sum zero_decimal xs
  TellsOf (averaging n total) dirty xs =
      (n ≡ pos (count_of to_decimal xs)) × (total ≡ sum_of to_decimal sum zero_decimal xs)
  TellsOf (base_extreme is_min best) dirty xs = ⊥
  TellsOf (retained_extreme is_min m best) dirty xs = Retained is_min m best dirty xs

  abbrev pub update : AggregateState V S D → V → AggregateState V S D
  update state v =
      update_aggregate_state dec stable_string compare_values as_bigint to_decimal sum subtract
        zero_decimal state v

  -- A removal from a state that may be dirty.
  abbrev pub Removed : Bool → AggregateState V S D × Bool → List V → Type 0
  Removed dirty (state, returned) xs =
      TellsOf state (mark_dirty_aggregate_recompute dirty returned) xs

  pub empty-TellsOf :
      (a : RuntimeGroupedAggregate)
      → TellsOf
          (empty_reversible_aggregate_state dec stable_string compare_values as_bigint to_decimal
            sum subtract zero_decimal a)
          false
          []
  empty-TellsOf count = refl
  empty-TellsOf count_distinct =
      (refl, record { unique = tt; counts = λ key. refl; positive = λ key a h. absurd (cc h) })
  empty-TellsOf minimum = record {
    tracks = record { unique = tt; counts = λ key. refl; positive = λ key a h. absurd (cc h) };
    keyed = λ key e h. absurd (cc h);
    extreme = refl;
  }
  empty-TellsOf maximum = record {
    tracks = record { unique = tt; counts = λ key. refl; positive = λ key a h. absurd (cc h) };
    keyed = λ key e h. absurd (cc h);
    extreme = refl;
  }
  empty-TellsOf average = (refl, refl)
  empty-TellsOf sum_bigint = refl
  empty-TellsOf sum_big_decimal = refl

  pub update_distinct :
      (dirty : Bool) (m : List (S × ℕ)) (n : ℤ) (xs : List V) (v : V)
      → TellsOf (counting_distinct m n) dirty xs
      → TellsOf (update (counting_distinct m n) v) dirty (v ∷ xs)
  unfolding update_aggregate_state
  update_distinct dirty m n xs v (total, t) =
      elim (Option-cases (get_entry dec (stable_string v) m)) [
        | inl e ↦
            let w = add-Tracks dec stable_string (λ (n : ℕ). n) m xs v 1 t (rw e refl) in
            rw (e, add_distinct)
              (
                ap (λ (z : ℤ). z +ℤ pos 1) total
                    ∙ pos_suc (length m)
                    ∙ ap pos (sym (length-set_entry-new dec (stable_string v) 1 m e)),
                w,
              )
        | inr (k, e) ↦
            let w = add-Tracks dec stable_string (λ (n : ℕ). n) m xs v (k + 1) t (rw e refl) in
            rw (e, add_distinct)
              (total ∙ ap pos (sym (length-set_entry-old dec (stable_string v) (k + 1) k m e)), w)
      ]

  module _ (is_min : Bool) (m : List (S × MinMaxAggregateValueState V)) (best : Option V)
      (dirty : Bool) (xs : List V) (v : V) (r : Retained is_min m best dirty xs) where
    pub set-IsKeyed :
        (e_v : MinMaxAggregateValueState V)
        → stable_string e_v.entry_value ≡ stable_string v
        → IsKeyed dec stable_string compare_values as_bigint to_decimal sum subtract zero_decimal o
            same_string
            (set_entry dec (stable_string v) e_v m)
    set-IsKeyed e_v valued key e h = elim (dec (stable_string v) key) [
      | yes s ↦
          let at_v : get_entry dec (stable_string v) (set_entry dec (stable_string v) e_v m)
              ≡ some e =
            rw (sym s) at h in
          let both : some e_v ≡ some e = sym (get_set_same dec (stable_string v) e_v m) ∙ at_v in
          let e' : e_v ≡ e = cc both in
          ap (λ (x : MinMaxAggregateValueState V). stable_string x.entry_value) (sym e')
          ∙ valued
          ∙ s
      | no n ↦ r.keyed key e (sym (get_set_other dec (stable_string v) key e_v m n) ∙ h)
    ]

    placed :
        (e_v : MinMaxAggregateValueState V)
        → stable_string e_v.entry_value ≡ stable_string v
        → e_v.entry_count
          ≡ weight_at dec stable_string
              (λ (e : MinMaxAggregateValueState V). e.entry_count)
              (get_entry dec (stable_string v) m)
            + 1
        → Retained is_min
            (set_entry dec (stable_string v) e_v m)
            (better_of dec stable_string compare_values as_bigint to_decimal sum subtract
              zero_decimal is_min best v)
            dirty
            (v ∷ xs)
    placed e_v valued w =
        let keyed = set-IsKeyed e_v valued in
        record {
          tracks =
              add-Tracks dec stable_string (λ (e : MinMaxAggregateValueState V). e.entry_count) m xs
                v e_v r.tracks w;
          keyed = keyed;
          extreme =
              clean_map dirty
                (choose-Extreme dec stable_string compare_values as_bigint to_decimal sum subtract
                  zero_decimal o same_string is_min v m (set_entry dec (stable_string v) e_v m)
                  keyed e_v (get_set_same dec (stable_string v) e_v m)
                  (λ key n. get_set_other dec (stable_string v) key e_v m n) best)
                r.extreme;
        }

    pub update_retained : TellsOf (update (retained_extreme is_min m best) v) dirty (v ∷ xs)
    unfolding update_aggregate_state
    update_retained = elim (Option-cases (get_entry dec (stable_string v) m)) [
      | inl e ↦
          rw (e, add_retained)
            (placed (record { entry_count = 1; entry_value = v }) refl (rw (e, weight_at) refl))
      | inr (x, e) ↦
          rw (e, add_retained)
            (placed (record { entry_count = x.entry_count + 1; entry_value = x.entry_value })
              (r.keyed (stable_string v) x e) (rw (e, weight_at) refl))
    ]
