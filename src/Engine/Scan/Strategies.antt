-- ===== src/Engine/Scan/Strategies.antt =====
-- Every way to scan gives the same window: the slice of the sort of the matching slots.
use view_server_smart.Shared.{
  ℕ, zero, suc, ◌+◌, ◌≤◌, ◌<◌, ◌≡◌, refl, sym, ap, ◌∙◌, inl, inr, Bool, Option, none, some, List,
  [], ◌∷◌, ◌++◌, length, take, drop, arith, Bool-cases, All,
}
use view_server_smart.Shared.Order.{
  Comparison, same, is_less, is_more, AtMost, IsPreorder, IsLinear,
}
use view_server_smart.Shared.Order.Sorting.{
  insert_sorted, sort_onto, sort_by, IsSorted, sort_onto-IsSorted, All-insert_sorted,
  insert_sorted-IsSorted,
}
use view_server_smart.Engine.Heap.Front.{Tests, retain_bounded-Holds, sort_by-Holds}
use view_server_smart.Engine.Heap.Bounded.{Holds}
use view_server_smart.Engine.Scan.{
  filter, upto, count_up, Scanned, WindowPlan, BoundedRawWindowStrategy,
  bounded_raw_window_strategy, heap, sorted, slice_window, with_slots, keep_sorted,
  stable_raw_window_slot_comparator, retain_bounded_raw_window_slot, rises, larger,
  scan_bounded_sorted, scan_bounded_heap, scan_full, scan_raw_window_candidate_slots,
  scan_raw_window_slots, scan_with,
}
use view_server_smart.Engine.Scan.Loops.{
  fold_matches, scanned, for_each_match-start, fold_matches-collect,
}
use view_server_smart.Engine.Scan.Windows.{fold_matches-take, take-IsSorted}

module _ {compare : ℕ → ℕ → Comparison} (o : IsPreorder compare) where
  pub stable-IsLinear : IsLinear (stable_raw_window_slot_comparator compare)
  stable-IsLinear = record {
    preorder = record {
      swap = λ a b. ground (arith, o.swap a b);
      trans = λ a b c h k.
          let ab : AtMost compare a b = ground (arith, h) in
          let bc : AtMost compare b c = ground (arith, k) in
          elim (Bool-cases (is_more (compare c a))) [
            | inl e ↦ ground (arith, o.swap c a, e)
            | inr ca ↦ ground (
              arith,
              h,
              k,
              o.trans a b c ab bc,
              o.trans b c a bc ca,
              o.trans c a b ca ab,
              o.swap a b,
              o.swap b c,
              o.swap a c,
            )
          ];
    };
    antisym = λ a b h. ground arith;
  }

module _ (compare : ℕ → ℕ → Comparison) where
  -- Slots that compare the same stand in the order of their numbers.
  abbrev pub Tie : ℕ → ℕ → Type 0
  Tie x y = compare x y ≡ same → x ≤ y

  abbrev pub TiesInOrder : List ℕ → Type 0
  TiesInOrder [] = Unit
  TiesInOrder (x ∷ xs) = All (Tie x) xs × TiesInOrder xs

  insert_sorted-stable :
      (x : ℕ) (done : List ℕ)
      → All (λ y. Tie y x) done
      → insert_sorted compare x done
        ≡ insert_sorted (stable_raw_window_slot_comparator compare) x done
  unfolding insert_sorted
  insert_sorted-stable x [] t = refl
  insert_sorted-stable x (y ∷ ys) t =
      let e : is_more (compare y x) ≡ is_more (stable_raw_window_slot_comparator compare y x) =
        ground (arith, t.0) in
      rw (insert_sorted-stable x ys t.1, e) refl

  heads :
      (x : ℕ) (xs done : List ℕ)
      → All (λ y. All (Tie y) (x ∷ xs)) done
      → All (λ y. Tie y x) done × All (λ y. All (Tie y) xs) done
  heads x xs [] all = (tt, tt)
  heads x xs (y ∷ ys) all = let rest = heads x xs ys all.1 in ((all.0.0, rest.0), (all.0.1, rest.1))

  pub sort_onto-stable :
      (done xs : List ℕ)
      → All (λ y. All (Tie y) xs) done
      → TiesInOrder xs
      → sort_onto compare done xs ≡ sort_onto (stable_raw_window_slot_comparator compare) done xs
  unfolding sort_onto
  sort_onto-stable done [] all t = refl
  sort_onto-stable done (x ∷ xs) all t =
      let split = heads x xs done all in
      sort_onto-stable (insert_sorted compare x done) xs
        (All-insert_sorted compare (λ y. All (Tie y) xs) x done t.0 split.1) t.1
      ∙ ap (λ (d : List ℕ). sort_onto (stable_raw_window_slot_comparator compare) d xs)
          (insert_sorted-stable x done split.0)

  All-later : (m : ℕ → Bool) (x i n : ℕ) → x ≤ i → All (Tie x) (filter m (count_up i n))
  All-later m x i zero h = tt
  All-later m x i (suc n) h = elim (Bool-cases (m i)) [
    | inl e ↦ rw (e, filter) ((λ s. h), All-later m x (suc i) n (omega (arith, h)))
    | inr e ↦ rw (e, filter) (All-later m x (suc i) n (omega (arith, h)))
  ]

  pub upto-TiesInOrder : (m : ℕ → Bool) (i n : ℕ) → TiesInOrder (filter m (count_up i n))
  upto-TiesInOrder m i zero = tt
  upto-TiesInOrder m i (suc n) = elim (Bool-cases (m i)) [
    | inl e ↦ rw (e, filter) (All-later m i (suc i) n (omega arith), upto-TiesInOrder m (suc i) n)
    | inr e ↦ rw (e, filter) (upto-TiesInOrder m (suc i) n)
  ]

abbrev strategy_end : BoundedRawWindowStrategy → ℕ
strategy_end (heap window_end) = window_end
strategy_end (sorted window_end) = window_end

-- A strategy is chosen only for a limit that is not 0, and ends where the window ends.
strategy-end :
    (offset : ℕ) (limit : Option ℕ) (n : ℕ) (s : BoundedRawWindowStrategy)
    → bounded_raw_window_strategy (record { offset = offset; limit = limit }) n ≡ some s
    → (l : ℕ) × (limit ≡ some l) × (strategy_end s ≡ offset + l) × (0 < l)
strategy-end offset none n s h = absurd (cc h)
strategy-end offset (some l) n (heap e) h = (l, refl, ground arith, ground arith)
strategy-end offset (some l) n (sorted e) h = (l, refl, ground arith, ground arith)

module _ {compare : ℕ → ℕ → Comparison} (o : IsPreorder compare) where
  pub stable-Tests :
      Tests 0
        (stable-IsLinear o)
        (rises compare (stable_raw_window_slot_comparator compare))
        (larger compare (stable_raw_window_slot_comparator compare))
        (λ slot root. is_less (stable_raw_window_slot_comparator compare slot root))
  stable-Tests =
      let l = (stable-IsLinear o).preorder in
      record {
        rises-true = λ c p h. ground (arith, h);
        rises-false = λ c p h. ground (arith, h, l.swap p c);
        larger-true = λ a b h. ground (arith, h, l.swap a b);
        larger-false = λ a b h. h;
        better-less = λ x root. refl;
      }

  fold_matches-Holds :
      (m total : ℕ) (kept done xs : List ℕ)
      → IsSorted (stable_raw_window_slot_comparator compare) done
      → Holds 0 (stable-IsLinear o) kept (take (suc m) done)
      → Holds 0
          (stable-IsLinear o)
          (fold_matches (retain_bounded_raw_window_slot compare (suc m)) total kept xs)
          (take (suc m) (sort_onto (stable_raw_window_slot_comparator compare) done xs))
  unfolding fold_matches sort_onto
  fold_matches-Holds m total kept done [] s h = h
  fold_matches-Holds m total kept done (x ∷ xs) s h =
      fold_matches-Holds m (total + 1) (retain_bounded_raw_window_slot compare (suc m) total kept x)
        (insert_sorted (stable_raw_window_slot_comparator compare) x done) xs
        (insert_sorted-IsSorted (stable-IsLinear o).preorder x done s)
        (retain_bounded-Holds 0 (stable-IsLinear o) _ _ _ stable-Tests done s m kept h x)

  -- What the heap keeps, sorted, is the front of the sort.
  heap-front :
      (m : ℕ) (xs : List ℕ)
      → TiesInOrder compare xs
      → sort_by
          (stable_raw_window_slot_comparator compare)
          (fold_matches (retain_bounded_raw_window_slot compare (suc m)) 0 [] xs)
        ≡ take (suc m) (sort_by compare xs)
  unfolding sort_by
  heap-front m xs t =
      let l = stable-IsLinear o in
      let sorted_all = sort_onto-IsSorted l.preorder [] xs tt in
      sort_by-Holds 0 l _
        (take (suc m) (sort_onto (stable_raw_window_slot_comparator compare) [] xs))
        (take-IsSorted (stable_raw_window_slot_comparator compare) (suc m) _ sorted_all)
        (fold_matches-Holds m 0 [] [] xs tt (record {
          same_length = refl;
          same_count = λ a. refl;
          in_order = λ i hi hs. absurd (omega (arith, hs));
        }))
      ∙ ap (take (suc m)) (sym (sort_onto-stable compare [] xs tt t))

  sorted-front :
      (m : ℕ) (xs : List ℕ)
      → fold_matches (keep_sorted compare (suc m)) 0 [] xs ≡ take (suc m) (sort_by compare xs)
  unfolding sort_by
  sorted-front m xs = fold_matches-take o m 0 [] xs tt

  module _ (plan : WindowPlan) (m : ℕ → Bool) where
    -- The result every scan should give for the slots it is offered.
    abbrev pub window_of : List ℕ → Scanned
    window_of slots =
        scanned (length (filter m slots)) (slice_window plan (sort_by compare (filter m slots)))

    scan_full-window_of : (slots : List ℕ) → scan_full compare plan m slots ≡ window_of slots
    unfolding scan_full
    scan_full-window_of slots = ap (with_slots (λ kept. slice_window plan (sort_by compare kept))) (
        for_each_match-start m (λ total kept slot. kept ++ slot ∷ []) slots
        ∙ ap (scanned (length (filter m slots))) (fold_matches-collect 0 [] (filter m slots)))

    bounded-window :
        (slots xs kept : List ℕ) (l e : ℕ)
        → plan.limit ≡ some l
        → e ≡ plan.offset + l
        → kept ≡ take e xs
        → scanned (length (filter m slots)) (drop plan.offset kept)
          ≡ scanned (length (filter m slots)) (slice_window plan xs)
    bounded-window slots xs kept l e limit at_end front =
        rw (limit, front, at_end, slice_window) refl

    scan_bounded_sorted-window_of :
        (slots : List ℕ) (l e : ℕ)
        → plan.limit ≡ some l
        → e ≡ plan.offset + l
        → 0 < e
        → scan_bounded_sorted compare plan m e slots ≡ window_of slots
    unfolding scan_bounded_sorted
    scan_bounded_sorted-window_of slots l zero limit at_end pos = absurd (omega (arith, pos))
    scan_bounded_sorted-window_of slots l (suc e) limit at_end pos =
        ap (with_slots (drop plan.offset))
          (for_each_match-start m (keep_sorted compare (suc e)) slots)
        ∙ bounded-window slots (sort_by compare (filter m slots)) _ l (suc e) limit at_end
            (sorted-front e (filter m slots))

    scan_bounded_heap-window_of :
        (slots : List ℕ) (l e : ℕ)
        → TiesInOrder compare (filter m slots)
        → plan.limit ≡ some l
        → e ≡ plan.offset + l
        → 0 < e
        → scan_bounded_heap compare plan m e slots ≡ window_of slots
    unfolding scan_bounded_heap
    scan_bounded_heap-window_of slots l zero t limit at_end pos = absurd (omega (arith, pos))
    scan_bounded_heap-window_of slots l (suc e) t limit at_end pos =
        ap
          (with_slots
            (λ kept. drop plan.offset (sort_by (stable_raw_window_slot_comparator compare) kept)))
          (for_each_match-start m (retain_bounded_raw_window_slot compare (suc e)) slots)
        ∙ bounded-window slots (sort_by compare (filter m slots)) _ l (suc e) limit at_end
            (heap-front e (filter m slots) t)

    scan_with-window_of :
        (slots : List ℕ) (n : ℕ) (strategy : Option BoundedRawWindowStrategy)
        → TiesInOrder compare (filter m slots)
        → bounded_raw_window_strategy plan n ≡ strategy
        → scan_with compare plan m slots strategy ≡ window_of slots
    scan_with-window_of slots n none t h = scan_full-window_of slots
    scan_with-window_of slots n (some (sorted e)) t h =
        let (l, limit, at_end, pos) = strategy-end plan.offset plan.limit n (sorted e) h in
        scan_bounded_sorted-window_of slots l e limit at_end (omega (arith, at_end, pos))
    scan_with-window_of slots n (some (heap e)) t h =
        let (l, limit, at_end, pos) = strategy-end plan.offset plan.limit n (heap e) h in
        scan_bounded_heap-window_of slots l e t limit at_end (omega (arith, at_end, pos))

    -- For candidates of which those that compare the same stand in the order of their slots, the scan counts the
    -- matches and returns the slice of their stable sort that the plan asks for, whichever of the sorted window, the
    -- heap and the full sort it uses.
    pub scan_raw_window_candidate_slots-window_of :
        (candidates : List ℕ)
        → TiesInOrder compare (filter m candidates)
        → scan_raw_window_candidate_slots compare plan m candidates ≡ window_of candidates
    scan_raw_window_candidate_slots-window_of candidates t =
        scan_with-window_of candidates (length candidates)
          (bounded_raw_window_strategy plan (length candidates)) t refl

    -- Let the comparator of slots be total and transitive. The scan of all slots counts the matches and returns the slice of their stable sort that the plan asks for.
    pub scan_raw_window_slots-window_of :
        (slot_count : ℕ)
        → scan_raw_window_slots compare plan m slot_count ≡ window_of (upto slot_count)
    scan_raw_window_slots-window_of slot_count =
        scan_with-window_of (upto slot_count) slot_count
          (bounded_raw_window_strategy plan slot_count) (upto-TiesInOrder compare m 0 slot_count)
          refl
