-- ===== src/Engine/Aggregates/Steps.antt =====
-- One addition or removal: the state tells of the members after it.
use view_server_smart.Shared.{
  ℕ, suc, ◌+◌, ◌-◌, ◌≡◌, ◌≢◌, refl, sym, ap, ◌∙◌, inl, inr, Bool, false, Option, none, some, List,
  ◌∷◌, arith, length, ◌==◌, Bool-cases, Option-cases, ==→≡, ==→≢,
}
use view_server_smart.Shared.Int.{ℤ, pos, ◌+ℤ◌, ◌-ℤ◌, pos_suc, pos_pred}
use view_server_smart.Shared.Assoc.{
  get_entry, delete_entry, length-set_entry-old, length-delete_entry,
}
use view_server_smart.Shared.Order.{Comparison, same, IsPreorder}
use view_server_smart.Engine.Aggregates.{
  AggregateState, counting, counting_distinct, summing_bigint, summing_decimal, averaging,
  base_extreme, retained_extreme, MinMaxAggregateValueState, update_aggregate_state,
  remove_aggregate_state, add_bigint, subtract_bigint, add_decimal, subtract_decimal,
  remove_distinct, add_average, subtract_average,
}
use view_server_smart.Engine.Aggregates.Batch.{mark_dirty_aggregate_recompute}
use view_server_smart.Engine.Aggregates.Members.{Removes, weight_at}
use view_server_smart.Engine.Aggregates.Reversible.{
  lower-Tracks, drop-Tracks, present, length-Removes,
}
use view_server_smart.Engine.Aggregates.Sums.{
  DecimalLaws, bigint-DecimalLaws, sum_of, count_of, count_of-Removes, subtract-Removes,
  with_number, number_count,
}
use view_server_smart.Engine.Aggregates.Dropped.{remove_retained-Retained}
use view_server_smart.Engine.Aggregates.Retained.{
  TellsOf, Removed, update, update_distinct, update_retained,
}

module _ {V S D : Type 0} (dec : Discrete S) (stable_string : V → S)
    (compare_values : V → V → Comparison) (as_bigint : V → Option ℤ) (to_decimal : V → Option D)
    (sum subtract : D → D → D) (zero_decimal : D) (o : IsPreorder compare_values)
    (same_string : (a b : V) → stable_string a ≡ stable_string b → compare_values a b ≡ same)
    (l : DecimalLaws sum subtract) where
  abbrev Tells : AggregateState V S D → Bool → List V → Type 0
  Tells state dirty xs =
      TellsOf dec stable_string compare_values as_bigint to_decimal sum subtract zero_decimal o
        same_string l state dirty xs

  abbrev pub added : AggregateState V S D → V → AggregateState V S D
  added state v =
      update dec stable_string compare_values as_bigint to_decimal sum subtract zero_decimal o
        same_string l state v

  average_update :
      (dirty : Bool) (n : ℤ) (total : D) (xs : List V) (v : V) (d : Option D)
      → to_decimal v ≡ d
      → Tells (averaging n total) dirty xs
      → Tells
          (add_average dec stable_string compare_values as_bigint to_decimal sum subtract
            zero_decimal n total d)
          dirty
          (v ∷ xs)
  average_update dirty n total xs v none e (c, t) =
      let none_more : number_count (to_decimal v) ≡ 0 = ap (λ (d : Option D). number_count d) e in
      let same_count : count_of to_decimal xs
          ≡ number_count (to_decimal v) + count_of to_decimal xs =
        omega (arith, none_more) in
      (
        c ∙ ap pos same_count,
        t ∙ ap (with_number sum (sum_of to_decimal sum zero_decimal xs)) (sym e),
      )
  average_update dirty n total xs v (some d) e (c, t) =
      let one_more : number_count (to_decimal v) ≡ 1 = ap (λ (d : Option D). number_count d) e in
      let next_count : suc (count_of to_decimal xs)
          ≡ number_count (to_decimal v) + count_of to_decimal xs =
        omega (arith, one_more) in
      (
        ap (λ (z : ℤ). z +ℤ pos 1) c ∙ pos_suc (count_of to_decimal xs) ∙ ap pos next_count,
        ap (λ (t : D). sum t d) t
            ∙ ap (with_number sum (sum_of to_decimal sum zero_decimal xs)) (sym e),
      )

  add_bigint-with_number :
      (t : ℤ) (d : Option ℤ)
      → add_bigint dec stable_string compare_values as_bigint to_decimal sum subtract zero_decimal t
          d
        ≡ with_number ◌+ℤ◌ t d
  add_bigint-with_number t none = refl
  add_bigint-with_number t (some d) = refl

  add_decimal-with_number :
      (t : D) (d : Option D)
      → add_decimal dec stable_string compare_values as_bigint to_decimal sum subtract zero_decimal
          t d
        ≡ with_number sum t d
  add_decimal-with_number t none = refl
  add_decimal-with_number t (some d) = refl

  subtract_bigint-with_number :
      (t : ℤ) (d : Option ℤ)
      → subtract_bigint dec stable_string compare_values as_bigint to_decimal sum subtract
          zero_decimal t d
        ≡ with_number ◌-ℤ◌ t d
  subtract_bigint-with_number t none = refl
  subtract_bigint-with_number t (some d) = refl

  subtract_decimal-with_number :
      (t : D) (d : Option D)
      → subtract_decimal dec stable_string compare_values as_bigint to_decimal sum subtract
          zero_decimal t d
        ≡ with_number subtract t d
  subtract_decimal-with_number t none = refl
  subtract_decimal-with_number t (some d) = refl

  -- An addition.
  pub added-Tells :
      (state : AggregateState V S D) (dirty : Bool) (xs : List V) (v : V)
      → Tells state dirty xs
      → Tells (added state v) dirty (v ∷ xs)
  unfolding update_aggregate_state
  added-Tells (counting n) dirty xs v t = ap (λ (z : ℤ). z +ℤ pos 1) t ∙ pos_suc (length xs)
  added-Tells (counting_distinct m n) dirty xs v t =
      update_distinct dec stable_string compare_values as_bigint to_decimal sum subtract
        zero_decimal o same_string l dirty m n xs v t
  added-Tells (summing_bigint total) dirty xs v t =
      add_bigint-with_number total (as_bigint v)
      ∙ ap (λ (t : ℤ). with_number ◌+ℤ◌ t (as_bigint v)) t
  added-Tells (summing_decimal total) dirty xs v t =
      add_decimal-with_number total (to_decimal v)
      ∙ ap (λ (t : D). with_number sum t (to_decimal v)) t
  added-Tells (averaging n total) dirty xs v t =
      average_update dirty n total xs v (to_decimal v) refl t
  added-Tells (base_extreme is_min best) dirty xs v t = absurd t
  added-Tells (retained_extreme is_min m best) dirty xs v t =
      update_retained dec stable_string compare_values as_bigint to_decimal sum subtract
        zero_decimal o same_string l is_min m best dirty xs v t

  module _ (dirty : Bool) (xs ys : List V) (v : V) (r : Removes v xs ys) where
    average_remove :
        (n : ℤ) (total : D) (d : Option D)
        → to_decimal v ≡ d
        → Tells (averaging n total) dirty xs
        → Tells
            (subtract_average dec stable_string compare_values as_bigint to_decimal sum subtract
              zero_decimal n total d)
            (mark_dirty_aggregate_recompute dirty false)
            ys
    average_remove n total none e (c, t) =
        let none_less : number_count (to_decimal v) ≡ 0 = ap (λ (d : Option D). number_count d) e in
        let same_count : count_of to_decimal xs ≡ count_of to_decimal ys =
          omega (arith, none_less, count_of-Removes to_decimal v xs ys r) in
        (
          c ∙ ap pos same_count,
          t
              ∙ ap (with_number subtract (sum_of to_decimal sum zero_decimal xs)) (sym e)
              ∙ subtract-Removes to_decimal zero_decimal l v xs ys r,
        )
    average_remove n total (some d) e (c, t) =
        let one_less : number_count (to_decimal v) ≡ 1 = ap (λ (d : Option D). number_count d) e in
        let next_count : count_of to_decimal xs ≡ suc (count_of to_decimal ys) =
          omega (arith, one_less, count_of-Removes to_decimal v xs ys r) in
        (
          ap (λ (z : ℤ). z -ℤ pos 1) (c ∙ ap pos next_count) ∙ pos_pred (count_of to_decimal ys),
          ap (λ (t : D). subtract t d) t
              ∙ ap (with_number subtract (sum_of to_decimal sum zero_decimal xs)) (sym e)
              ∙ subtract-Removes to_decimal zero_decimal l v xs ys r,
        )

    remove_distinct-Tells :
        (m : List (S × ℕ)) (n : ℤ)
        → Tells (counting_distinct m n) dirty xs
        → Tells
            (remove_distinct dec stable_string compare_values as_bigint to_decimal sum subtract
              zero_decimal v m n)
            (mark_dirty_aggregate_recompute dirty false)
            ys
    remove_distinct-Tells m n (total, t) = elim (Option-cases (get_entry dec (stable_string v) m)) [
      | inl e ↦ absurd (present dec stable_string (λ (n : ℕ). n) m xs ys v r t e)
      | inr (k, e) ↦ elim (Bool-cases (k == 1)) [
        | inl c ↦
            let one : k ≡ 1 = ==→≡ k 1 c in
            rw (e, c, remove_distinct)
              (
                ap (λ (z : ℤ). z -ℤ pos 1)
                      (total ∙ ap pos (length-delete_entry dec (stable_string v) k m e))
                    ∙ pos_pred (length (delete_entry dec (stable_string v) m)),
                drop-Tracks dec stable_string (λ (n : ℕ). n) m xs ys v r t (rw (e, weight_at) one),
              )
        | inr c ↦
            let many : k ≢ 1 = ==→≢ k 1 c in
            let positive = t.positive (stable_string v) k e in
            let lower : k ≡ k - 1 + 1 = omega (arith, positive) in
            rw (e, c, remove_distinct)
              (
                total ∙ ap pos (sym (length-set_entry-old dec (stable_string v) (k - 1) k m e)),
                lower-Tracks dec stable_string (λ (n : ℕ). n) m xs ys v r t (k - 1)
                    (omega (arith, positive, many)) (rw (e, weight_at) lower),
              )
      ]
    ]

    -- A removal.
    pub remove_aggregate_state-Tells :
        (state : AggregateState V S D)
        → Tells state dirty xs
        → Removed dec stable_string compare_values as_bigint to_decimal sum subtract zero_decimal o
            same_string l dirty
            (remove_aggregate_state dec stable_string compare_values as_bigint to_decimal sum
              subtract zero_decimal state v)
            ys
    unfolding remove_aggregate_state
    remove_aggregate_state-Tells (counting n) t =
        ap (λ (z : ℤ). z -ℤ pos 1) (t ∙ ap pos (length-Removes v xs ys r)) ∙ pos_pred (length ys)
    remove_aggregate_state-Tells (counting_distinct m n) t = remove_distinct-Tells m n t
    remove_aggregate_state-Tells (summing_bigint total) t =
        subtract_bigint-with_number total (as_bigint v)
        ∙ ap (λ (t : ℤ). with_number ◌-ℤ◌ t (as_bigint v)) t
        ∙ subtract-Removes as_bigint (pos 0) bigint-DecimalLaws v xs ys r
    remove_aggregate_state-Tells (summing_decimal total) t =
        subtract_decimal-with_number total (to_decimal v)
        ∙ ap (λ (t : D). with_number subtract t (to_decimal v)) t
        ∙ subtract-Removes to_decimal zero_decimal l v xs ys r
    remove_aggregate_state-Tells (averaging n total) t =
        average_remove n total (to_decimal v) refl t
    remove_aggregate_state-Tells (base_extreme is_min best) t = absurd t
    remove_aggregate_state-Tells (retained_extreme is_min m best) t =
        elim (Option-cases (get_entry dec (stable_string v) m)) [
          | inl e ↦ absurd (
              present dec stable_string (λ (e : MinMaxAggregateValueState V). e.entry_count) m xs ys
                v r t.tracks e)
          | inr (x, e) ↦
              remove_retained-Retained dec stable_string compare_values as_bigint to_decimal sum
                subtract zero_decimal o same_string l is_min m best dirty xs v t ys r x e
        ]
