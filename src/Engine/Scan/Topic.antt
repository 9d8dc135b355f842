-- ===== src/Engine/Scan/Topic.antt =====
-- `scanTopicRawWindow` chooses among counting, the ordered index, candidates and all slots: the answer is the same.
use view_server_smart.Shared.{
  ℕ, zero, suc, ◌+◌, ◌≡◌, refl, sym, ap, ◌∙◌, inl, inr, Bool, true, Option, none, some, List, [],
  ◌∷◌, length, take, drop, ◌==◌, ltb, arith, Bool-cases, All, ==→≡, Option-cases,
}
use view_server_smart.Shared.Order.{Comparison, is_same, AtMost, IsPreorder, compare_numbers}
use view_server_smart.Shared.Order.Sorting.{
  sort_by, sort_onto, IsSorted, count, sort_onto-IsSorted, count-sort_onto, length-sort_onto,
}
use view_server_smart.Shared.Order.Unique.{IsSorted-unique, sort_by_unique, same_self}
use view_server_smart.Engine.Scan.{
  filter, upto, WindowPlan, OrderedRawWindow, spans_slots, stable_raw_window_slot_comparator,
  scan_topic_raw_window, scan_raw_window_ordered_slots, ordered_raw_window_slot_count,
  is_zero_limit, slice_window, scan_raw_window_candidate_slots, count_raw_window_slots,
  count_raw_window_candidate_slots,
}
use view_server_smart.Engine.Scan.Loops.{
  scanned, scan_raw_window_ordered_slots-slice, for_each_match-start, fold_matches,
}
use view_server_smart.Engine.Scan.Strategies.{
  TiesInOrder, Tie, stable-IsLinear, sort_onto-stable, window_of,
  scan_raw_window_candidate_slots-window_of, scan_raw_window_slots-window_of, upto-TiesInOrder,
}

module _ {compare : ℕ → ℕ → Comparison} (o : IsPreorder compare) where
  is_same-stable :
      (a x : ℕ)
      → is_same (stable_raw_window_slot_comparator compare a x) ≡ is_same (compare_numbers a x)
  is_same-stable a x = elim (Bool-cases (a == x)) [
    | inr e ↦ ground (arith, e)
    | inl e ↦
        let e : a ≡ x = ==→≡ a x e in
        let self : is_same (compare_numbers x x) ≡ true = ground arith in
        rw (e, same_self (stable-IsLinear o) x, self) refl
  ]

  count-stable :
      (a : ℕ) (xs : List ℕ)
      → count (stable_raw_window_slot_comparator compare) a xs ≡ count compare_numbers a xs
  count-stable a [] = refl
  count-stable a (x ∷ xs) = rw (is_same-stable a x, count-stable a xs) refl

  stable-IsSorted :
      (xs : List ℕ)
      → IsSorted compare xs
      → TiesInOrder compare xs
      → IsSorted (stable_raw_window_slot_comparator compare) xs
  stable-IsSorted [] s t = tt
  stable-IsSorted (x ∷ xs) s t = (each xs s.0 t.0, stable-IsSorted xs s.1 t.1)
    where
      each :
          (ys : List ℕ)
          → All (AtMost compare x) ys
          → All (Tie compare x) ys
          → All (AtMost (stable_raw_window_slot_comparator compare) x) ys
      each [] s t = tt
      each (y ∷ ys) s t = (ground (arith, s.0, t.0), each ys s.1 t.1)

  sort_by-same :
      (xs ys : List ℕ)
      → TiesInOrder compare xs
      → TiesInOrder compare ys
      → ((a : ℕ) → count compare_numbers a xs ≡ count compare_numbers a ys)
      → sort_by compare xs ≡ sort_by compare ys
  unfolding sort_by
  sort_by-same xs ys t u c =
      let l = stable-IsLinear o in
      sort_onto-stable compare [] xs tt t
      ∙ IsSorted-unique l _ _ (sort_onto-IsSorted l.preorder [] xs tt)
          (sort_onto-IsSorted l.preorder [] ys tt)
          (λ a. omega (
            arith,
            count-sort_onto (stable_raw_window_slot_comparator compare) a [] xs,
            count-sort_onto (stable_raw_window_slot_comparator compare) a [] ys,
            count-stable a xs,
            count-stable a ys,
            c a,
          ))
      ∙ sym (sort_onto-stable compare [] ys tt u)

  sort_by-sorted :
      (xs : List ℕ) → IsSorted compare xs → TiesInOrder compare xs → sort_by compare xs ≡ xs
  unfolding sort_by
  sort_by-sorted xs s t =
      sort_onto-stable compare [] xs tt t
      ∙ sort_by_unique (stable-IsLinear o) xs xs (stable-IsSorted xs s t) (λ a. refl)

  module _ (plan : WindowPlan) (m : ℕ → Bool) (slot_count : ℕ) where
    -- `slots` has the same matches as all slots have, those that compare the same in the order of their slots.
    pub record HasMatches (slots : List ℕ) : Type 0 where
      pub same_count :
          (a : ℕ)
          → count compare_numbers a (filter m slots)
            ≡ count compare_numbers a (filter m (upto slot_count))
      pub ties : TiesInOrder compare (filter m slots)

    pub record IsOrdered (w : OrderedRawWindow) : Type 0 where
      pub plan_limit : plan.limit ≡ some w.limit
      pub sorted : IsSorted compare (filter m (spans_slots w.slots w.spans))
      pub matches : HasMatches (spans_slots w.slots w.spans)

    sort_by-HasMatches :
        (slots : List ℕ)
        → HasMatches slots
        → sort_by compare (filter m slots) ≡ sort_by compare (filter m (upto slot_count))
    sort_by-HasMatches slots h =
        sort_by-same _ _ h.ties (upto-TiesInOrder compare m 0 slot_count) h.same_count

    length-HasMatches :
        (slots : List ℕ)
        → HasMatches slots
        → length (filter m slots) ≡ length (filter m (upto slot_count))
    unfolding sort_by
    length-HasMatches slots h =
        let both : length (sort_onto compare [] (filter m slots))
            ≡ length (sort_onto compare [] (filter m (upto slot_count))) =
          ap length (sort_by-HasMatches slots h) in
        omega (
          arith,
          both,
          length-sort_onto compare [] (filter m slots),
          length-sort_onto compare [] (filter m (upto slot_count)),
        )

    window_of-HasMatches :
        (slots : List ℕ)
        → HasMatches slots
        → window_of o plan m slots ≡ window_of o plan m (upto slot_count)
    window_of-HasMatches slots h =
        ap (λ (n : ℕ). scanned n (slice_window plan (sort_by compare (filter m slots))))
          (length-HasMatches slots h)
        ∙ ap (λ (xs : List ℕ). scanned (length (filter m (upto slot_count))) (slice_window plan xs))
            (sort_by-HasMatches slots h)

    candidates-window_of :
        (slots : List ℕ)
        → HasMatches slots
        → scan_raw_window_candidate_slots compare plan m slots
          ≡ window_of o plan m (upto slot_count)
    candidates-window_of slots h =
        scan_raw_window_candidate_slots-window_of o plan m slots h.ties
        ∙ window_of-HasMatches slots h

    ordered-window_of :
        (w : OrderedRawWindow)
        → IsOrdered w
        → scan_raw_window_ordered_slots plan.offset w.limit m w.slots w.spans
          ≡ window_of o plan m (upto slot_count)
    ordered-window_of w h =
        let found = filter m (spans_slots w.slots w.spans) in
        let in_place = sort_by-sorted found h.sorted h.matches.ties in
        scan_raw_window_ordered_slots-slice plan.offset w.limit m w.slots w.spans
        ∙ rw (h.plan_limit, in_place, window_of, slice_window) refl
        ∙ window_of-HasMatches (spans_slots w.slots w.spans) h.matches

    kept_none :
        (total : ℕ) (slots : List ℕ) → fold_matches (λ total kept slot. kept) total [] slots ≡ []
    unfolding fold_matches
    kept_none total [] = refl
    kept_none total (slot ∷ slots) = kept_none (total + 1) slots

    drop-take-nil : (n : ℕ) (xs : List ℕ) → drop n (take n xs) ≡ []
    drop-take-nil zero xs = refl
    drop-take-nil (suc n) [] = refl
    drop-take-nil (suc n) (x ∷ xs) = drop-take-nil n xs

    count-window_of :
        (slots : List ℕ)
        → plan.limit ≡ some 0
        → count_raw_window_candidate_slots m slots ≡ window_of o plan m slots
    count-window_of slots limit =
        let all = plan.offset + 0 in
        let front : drop plan.offset (take (plan.offset + 0) (sort_by compare (filter m slots)))
            ≡ [] =
          let e : plan.offset + 0 ≡ plan.offset = omega arith in
          rw e (drop-take-nil plan.offset (sort_by compare (filter m slots))) in
        for_each_match-start m (λ total kept slot. kept) slots
        ∙ ap (scanned (length (filter m slots))) (kept_none 0 (filter m slots))
        ∙ rw (limit, front, window_of, slice_window) refl

    module _ (ordered : Option OrderedRawWindow) (ordered_candidates candidates : Option (List ℕ))
        (is_ordered : (w : OrderedRawWindow) → ordered ≡ some w → IsOrdered w)
        (matches_ordered : (slots : List ℕ) → ordered_candidates ≡ some slots → HasMatches slots)
        (matches : (slots : List ℕ) → candidates ≡ some slots → HasMatches slots) where
      counted :
          plan.limit ≡ some 0
          → count_raw_window_slots slot_count m candidates ≡ window_of o plan m (upto slot_count)
      counted limit = elim (Option-cases candidates) [
        | inl e ↦ rw (e, count_raw_window_slots) (count-window_of (upto slot_count) limit)
        | inr (slots, e) ↦
            rw (e, count_raw_window_slots)
              (count-window_of slots limit ∙ window_of-HasMatches slots (matches slots e))
      ]

      zero-limit : is_zero_limit plan.limit ≡ true → plan.limit ≡ some 0
      zero-limit h = elim (Option-cases plan.limit) [
        | inl e ↦ absurd (let f : is_zero_limit none ≡ true = rw e at h in cc f)
        | inr (l, e) ↦
            let f : (l == 0) ≡ true = rw (e, is_zero_limit) at h in
            e ∙ ap (λ (n : ℕ). some n) (==→≡ l 0 f)
      ]

      -- Let the comparator of slots be total and transitive. Let the window of the ordered index, if there is one, have
      -- the plan's limit, its slots be sorted, and both it and the candidates, if there are any, have the same matches
      -- as all slots, those that compare the same in the order of their slots. Then the scan of a topic counts the
      -- matches and returns the slice of their stable sort that the plan asks for, whichever way it goes.
      pub scan_topic_raw_window-window_of :
          scan_topic_raw_window compare plan m slot_count ordered ordered_candidates candidates
          ≡ window_of o plan m (upto slot_count)
      unfolding scan_topic_raw_window
      scan_topic_raw_window-window_of = elim (Bool-cases (is_zero_limit plan.limit)) [
        | inl z ↦ rw (z, scan_topic_raw_window) (counted (zero-limit z))
        | inr z ↦ elim (Option-cases ordered) [
          | inl e ↦ elim (Option-cases candidates) [
            | inl c ↦
                rw (z, e, c, scan_topic_raw_window)
                  (scan_raw_window_slots-window_of o plan m slot_count)
            | inr (slots, c) ↦
                rw (z, e, c, scan_topic_raw_window) (candidates-window_of slots (matches slots c))
          ]
          | inr (w, e) ↦ elim (Option-cases ordered_candidates) [
            | inl c ↦ rw (z, e, c, scan_topic_raw_window) (ordered-window_of w (is_ordered w e))
            | inr (slots, c) ↦
                elim (Bool-cases (ltb (length slots) (ordered_raw_window_slot_count w))) [
                  | inl f ↦
                      rw (z, e, c, f, scan_topic_raw_window)
                        (candidates-window_of slots (matches_ordered slots c))
                  | inr f ↦
                      rw (z, e, c, f, scan_topic_raw_window) (ordered-window_of w (is_ordered w e))
                ]
          ]
        ]
      ]
