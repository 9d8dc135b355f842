-- ===== src/Engine/Aggregates/Dropped.antt =====
-- A retained minimum or maximum under a removal: it may become dirty.
use view_server_smart.Shared.{
  ◌+◌, ◌-◌, ◌<◌, ◌≡◌, refl, sym, ap, subst, ◌∙◌, inl, inr, Bool, true, false, Option, none, some,
  List, [], ite, arith, leb, Bool-cases,
}
use view_server_smart.Shared.Int.{ℤ}
use view_server_smart.Shared.Assoc.{
  get_entry, set_entry, delete_entry, get_set_same, get_set_other, get_delete_same,
  get_delete_other,
}
use view_server_smart.Shared.Order.{Comparison, same, IsPreorder}
use view_server_smart.Engine.Aggregates.{
  AggregateState, retained_extreme, MinMaxAggregateValueState, remove_aggregate_state,
  remove_retained, is_value_of,
}
use view_server_smart.Engine.Aggregates.Batch.{mark_dirty_aggregate_recompute}
use view_server_smart.Engine.Aggregates.Members.{Removes, Tracks, weight_at}
use view_server_smart.Engine.Aggregates.Extremes.{Extreme, IsKeyed, fewer-Extreme}
use view_server_smart.Engine.Aggregates.Reversible.{lower-Tracks, drop-Tracks}
use view_server_smart.Engine.Aggregates.Sums.{DecimalLaws}
use view_server_smart.Engine.Aggregates.Retained.{
  WhenClean, clean_map, Retained, Removed, set-IsKeyed,
}

module _ {V S D : Type 0} (dec : Discrete S) (stable_string : V → S)
    (compare_values : V → V → Comparison) (as_bigint : V → Option ℤ) (to_decimal : V → Option D)
    (sum subtract : D → D → D) (zero_decimal : D) (o : IsPreorder compare_values)
    (same_string : (a b : V) → stable_string a ≡ stable_string b → compare_values a b ≡ same)
    (l : DecimalLaws sum subtract) where
  abbrev Kept : Bool → List (S × MinMaxAggregateValueState V) → Option V → Bool → List V → Type 0
  Kept is_min m best dirty xs =
      Retained dec stable_string compare_values as_bigint to_decimal sum subtract zero_decimal o
        same_string l is_min m best dirty xs

  abbrev After : Bool → AggregateState V S D × Bool → List V → Type 0
  After dirty state xs =
      Removed dec stable_string compare_values as_bigint to_decimal sum subtract zero_decimal o
        same_string l dirty state xs

  module _ (is_min : Bool) (m : List (S × MinMaxAggregateValueState V)) (best : Option V)
      (dirty : Bool) (xs : List V) (v : V) (r : Kept is_min m best dirty xs) where
    module _ (ys : List V) (removed : Removes v xs ys) (x : MinMaxAggregateValueState V)
        (there_x : get_entry dec (stable_string v) m ≡ some x) where
      lowered-Extreme :
          (e_v : MinMaxAggregateValueState V)
          → e_v.entry_value ≡ x.entry_value
          → (start : Option V)
          → Extreme dec stable_string compare_values as_bigint to_decimal sum subtract zero_decimal
              o same_string is_min m start
          → Extreme dec stable_string compare_values as_bigint to_decimal sum subtract zero_decimal
              o same_string is_min
              (set_entry dec (stable_string v) e_v m)
              start
      lowered-Extreme e_v same_value none empty = absurd (
          let at_nil : get_entry dec (stable_string v) [] ≡ some x = rw empty at there_x in
          cc at_nil)
      lowered-Extreme e_v same_value (some b) old =
          let (e, there_e) = entry_of_best (dec (stable_string v) (stable_string b)) in
          fewer-Extreme dec stable_string compare_values as_bigint to_decimal sum subtract
            zero_decimal o same_string is_min m (set_entry dec (stable_string v) e_v m) b kept e
            there_e old
        where
          entry_of_best :
              Dec (stable_string v ≡ stable_string b)
              → (e : MinMaxAggregateValueState V) × (get_entry dec
                    (stable_string b)
                    (set_entry dec (stable_string v) e_v m)
                  ≡ some e)
          entry_of_best (yes s) = (
            e_v,
            ap (λ (key : S). get_entry dec key (set_entry dec (stable_string v) e_v m)) (sym s)
                ∙ get_set_same dec (stable_string v) e_v m,
          )
          entry_of_best (no n) =
              (old.entry, get_set_other dec (stable_string v) (stable_string b) e_v m n ∙ old.there)

          kept :
              (key : S) (e : MinMaxAggregateValueState V)
              → get_entry dec key (set_entry dec (stable_string v) e_v m) ≡ some e
              → (w : MinMaxAggregateValueState V) × (get_entry dec key m ≡ some w)
                × (w.entry_value ≡ e.entry_value)
          kept key e h = elim (dec (stable_string v) key) [
            | yes s ↦
                let at_v : get_entry dec (stable_string v) (set_entry dec (stable_string v) e_v m)
                    ≡ some e =
                  rw (sym s) at h in
                let both : some e_v ≡ some e =
                  sym (get_set_same dec (stable_string v) e_v m) ∙ at_v in
                let e' : e_v ≡ e = cc both in
                (
                  x,
                  ap (λ (key : S). get_entry dec key m) (sym s) ∙ there_x,
                  sym same_value ∙ ap (λ (y : MinMaxAggregateValueState V). y.entry_value) e',
                )
            | no n ↦ (e, sym (get_set_other dec (stable_string v) key e_v m n) ∙ h, refl)
          ]

      lowered :
          (e_v : MinMaxAggregateValueState V)
          → e_v.entry_value ≡ x.entry_value
          → 0 < e_v.entry_count
          → x.entry_count ≡ e_v.entry_count + 1
          → Kept is_min (set_entry dec (stable_string v) e_v m) best dirty ys
      lowered e_v same_value p w = record {
        tracks =
            lower-Tracks dec stable_string (λ (e : MinMaxAggregateValueState V). e.entry_count) m xs
              ys v removed r.tracks e_v p (rw (there_x, weight_at) w);
        keyed =
            set-IsKeyed dec stable_string compare_values as_bigint to_decimal sum subtract
              zero_decimal o same_string l is_min m best dirty xs v r e_v
              (ap stable_string same_value ∙ r.keyed (stable_string v) x there_x);
        extreme = clean_map dirty (lowered-Extreme e_v same_value best) r.extreme;
      }

      delete-IsKeyed :
          IsKeyed dec stable_string compare_values as_bigint to_decimal sum subtract zero_decimal o
            same_string
            (delete_entry dec (stable_string v) m)
      delete-IsKeyed key e h = elim (dec (stable_string v) key) [
        | yes s ↦
            let at_v : get_entry dec (stable_string v) (delete_entry dec (stable_string v) m)
                ≡ some e =
              rw (sym s) at h in
            absurd (cc (at_v, get_delete_same dec (stable_string v) m r.tracks.unique))
        | no n ↦ r.keyed key e (sym (get_delete_other dec (stable_string v) key m n) ∙ h)
      ]

      dropped-Tracks :
          x.entry_count ≡ 1
          → Tracks dec stable_string
              (λ (e : MinMaxAggregateValueState V). e.entry_count)
              (delete_entry dec (stable_string v) m)
              ys
      dropped-Tracks w =
          drop-Tracks dec stable_string (λ (e : MinMaxAggregateValueState V). e.entry_count) m xs ys
            v removed r.tracks (rw (there_x, weight_at) w)

      -- Where the extreme value goes, the state is dirty; where another goes, it stays an extreme one.
      still-Extreme :
          (b : V) (d : Dec (stable_string b ≡ stable_string v))
          → Extreme dec stable_string compare_values as_bigint to_decimal sum subtract zero_decimal
              o same_string is_min m
              (some b)
          → WhenClean (ite d true false) (
              Extreme dec stable_string compare_values as_bigint to_decimal sum subtract
                zero_decimal o same_string is_min
                (delete_entry dec (stable_string v) m)
                (some b))
      still-Extreme b (yes s) old = tt
      still-Extreme b (no n) old =
          fewer-Extreme dec stable_string compare_values as_bigint to_decimal sum subtract
            zero_decimal o same_string is_min m (delete_entry dec (stable_string v) m) b
            (λ key e h. elim (dec (stable_string v) key) [
              | yes s ↦
                  let at_v : get_entry dec (stable_string v) (delete_entry dec (stable_string v) m)
                      ≡ some e =
                    rw (sym s) at h in
                  absurd (cc (at_v, get_delete_same dec (stable_string v) m r.tracks.unique))
              | no k ↦ (e, sym (get_delete_other dec (stable_string v) key m k) ∙ h, refl)
            ])
            old.entry
            (get_delete_other dec (stable_string v) (stable_string b) m (λ e. n (sym e))
              ∙ old.there)
            old

      after_drop :
          (dirty : Bool) (start : Option V)
          → WhenClean dirty (
              Extreme dec stable_string compare_values as_bigint to_decimal sum subtract
                zero_decimal o same_string is_min m start)
          → WhenClean
              (mark_dirty_aggregate_recompute dirty (
                is_value_of dec stable_string compare_values as_bigint to_decimal sum subtract
                  zero_decimal
                  (stable_string v)
                  start))
              (Extreme dec stable_string compare_values as_bigint to_decimal sum subtract
                zero_decimal o same_string is_min
                (delete_entry dec (stable_string v) m)
                start)
      after_drop true start old = tt
      after_drop false none empty = absurd (
          let at_nil : get_entry dec (stable_string v) [] ≡ some x = rw empty at there_x in
          cc at_nil)
      after_drop false (some b) old = still-Extreme b (dec (stable_string b) (stable_string v)) old

      dropped :
          x.entry_count ≡ 1
          → After dirty
              (
                retained_extreme is_min (delete_entry dec (stable_string v) m) best,
                is_value_of dec stable_string compare_values as_bigint to_decimal sum subtract
                    zero_decimal
                    (stable_string v)
                    best,
              )
              ys
      dropped w = record {
        tracks = dropped-Tracks w;
        keyed = delete-IsKeyed;
        extreme = after_drop dirty best r.extreme;
      }

      marked_clean : (dirty : Bool) → mark_dirty_aggregate_recompute dirty false ≡ dirty
      marked_clean true = refl
      marked_clean false = refl

      lowered-Removed :
          (e_v : MinMaxAggregateValueState V)
          → e_v.entry_value ≡ x.entry_value
          → 0 < e_v.entry_count
          → x.entry_count ≡ e_v.entry_count + 1
          → After dirty
              (retained_extreme is_min (set_entry dec (stable_string v) e_v m) best, false)
              ys
      lowered-Removed e_v same_value p w =
          subst (λ (d : Bool). Kept is_min (set_entry dec (stable_string v) e_v m) best d ys)
            (sym (marked_clean dirty)) (lowered e_v same_value p w)

      pub remove_retained-Retained :
          After dirty
            (remove_aggregate_state dec stable_string compare_values as_bigint to_decimal sum
              subtract zero_decimal
              (retained_extreme is_min m best)
              v)
            ys
      unfolding remove_aggregate_state
      remove_retained-Retained = elim (Bool-cases (leb x.entry_count 1)) [
        | inl c ↦
            let one : x.entry_count ≡ 1 =
              ground (arith, c, r.tracks.positive (stable_string v) x there_x) in
            rw (there_x, c, remove_retained) (dropped one)
        | inr c ↦
            rw (there_x, c, remove_retained)
              (lowered-Removed
                (record { entry_count = x.entry_count - 1; entry_value = x.entry_value }) refl
                (ground (arith, c)) (ground (arith, c)))
      ]
