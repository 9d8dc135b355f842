-- ===== src/Tests/Scan.antt =====
-- A column of six values, of which two are the same, ordered, searched and scanned.
use view_server_smart.Shared.{
  ℕ, ◌≡◌, refl, subst, Bool, true, false, not, Option, none, some, List, [], ◌∷◌, length, take,
  get_elem?, arith, ◌==◌, ltb,
}
use view_server_smart.Shared.Splice.{splice_in}
use view_server_smart.Shared.Order.{
  Comparison, compare_numbers, AtMost, IsPreorder, IsLinear, compare_numbers-IsLinear,
}
use view_server_smart.Shared.Order.Sorting.{insert_sorted, sort_by, IsSorted}
use view_server_smart.Engine.Search.{search_range, ordered_slot_index_insertion_point}
use view_server_smart.Engine.Search.Loop.{search_range-Ended, Ended}
use view_server_smart.Engine.Search.Insertion.{insertion_point-insert_sorted}
use view_server_smart.Engine.Heap.Bounded.{Holds}
use view_server_smart.Engine.Heap.Reads.{at}
use view_server_smart.Engine.Heap.Order.{parent}
use view_server_smart.Engine.Heap.Front.{retain_bounded-Holds}
use view_server_smart.Engine.Scan.{
  WindowPlan, OrderedRawWindow, spans_slots, scan_topic_raw_window, scan_raw_window_ordered_slots,
  scan_raw_window_slots, retain_bounded_raw_window_slot, stable_raw_window_slot_comparator,
}
use view_server_smart.Engine.Scan.Loops.{scanned, scan_raw_window_ordered_slots-slice}
use view_server_smart.Engine.Scan.Strategies.{
  stable-IsLinear, stable-Tests, scan_raw_window_slots-window_of,
}
use view_server_smart.Engine.Scan.Topic.{HasMatches, IsOrdered, scan_topic_raw_window-window_of}

abbrev column : List ℕ
column = 30 ∷ 10 ∷ 20 ∷ 10 ∷ 40 ∷ 5 ∷ []

abbrev value_at : ℕ → ℕ
value_at slot = elim (get_elem? column slot) [ none ↦ 0 | some value ↦ value ]

abbrev compare_values : ℕ → ℕ → Comparison
compare_values left right = compare_numbers (value_at left) (value_at right)

compare_values-IsPreorder : IsPreorder compare_values
compare_values-IsPreorder =
    let o = compare_numbers-IsLinear.preorder in
    record {
      swap = λ a b. o.swap (value_at a) (value_at b);
      trans = λ a b c h k. o.trans (value_at a) (value_at b) (value_at c) h k;
    }

abbrev not_four : ℕ → Bool
not_four slot = not (slot == 4)

abbrev second_and_third : WindowPlan
second_and_third = record { offset = 1; limit = some 2 }

abbrev in_order : List ℕ
in_order = 5 ∷ 1 ∷ 3 ∷ 2 ∷ 0 ∷ 4 ∷ []

abbrev whole_index : OrderedRawWindow
whole_index = record {
  limit = 2;
  slots = in_order;
  spans = record { start_index = 0; end_index = 6 } ∷ [];
}

abbrev five_candidates : List ℕ
five_candidates = 0 ∷ 1 ∷ 2 ∷ 3 ∷ 5 ∷ []

below_three : ℕ → Bool
below_three i = ltb i 3

search_range-Ended_example : Ended 0 7 (search_range below_three 7 0 7)
search_range-Ended_example = search_range-Ended below_three 7 0 7 (omega arith) (omega arith)

in_order-IsSorted : IsSorted compare_values in_order
in_order-IsSorted = (
  (refl, (refl, (refl, (refl, (refl, tt))))),
  (
    (refl, (refl, (refl, (refl, tt)))),
    ((refl, (refl, (refl, tt))), ((refl, (refl, tt)), ((refl, tt), (tt, tt)))),
  ),
)

insertion_point-insert_sorted_example :
    splice_in in_order (ordered_slot_index_insertion_point in_order 3 compare_values) 3
    ≡ insert_sorted compare_values 3 in_order
insertion_point-insert_sorted_example =
    insertion_point-insert_sorted compare_values-IsPreorder 3 in_order in_order-IsSorted

scan_raw_window_ordered_slots-slice_example :
    scan_raw_window_ordered_slots 1 2 not_four in_order whole_index.spans ≡ scanned 5 (1 ∷ 3 ∷ [])
scan_raw_window_ordered_slots-slice_example =
    scan_raw_window_ordered_slots-slice 1 2 not_four in_order whole_index.spans

scan_raw_window_slots-window_of_example :
    scan_raw_window_slots compare_values second_and_third not_four 6 ≡ scanned 5 (1 ∷ 3 ∷ [])
unfolding sort_by insert_sorted view_server_smart.Shared.Order.Sorting.sort_onto
scan_raw_window_slots-window_of_example =
    scan_raw_window_slots-window_of compare_values-IsPreorder second_and_third not_four 6

five_candidates-HasMatches :
    HasMatches compare_values-IsPreorder second_and_third not_four 6 five_candidates
five_candidates-HasMatches = record {
  same_count = λ a. refl;
  ties = (
    (λ e. omega arith, (λ e. omega arith, (λ e. omega arith, (λ e. omega arith, tt)))),
    (
      (λ e. omega arith, (λ e. omega arith, (λ e. omega arith, tt))),
      ((λ e. omega arith, (λ e. omega arith, tt)), ((λ e. omega arith, tt), (tt, tt))),
    ),
  );
}

in_order-HasMatches :
    HasMatches compare_values-IsPreorder second_and_third not_four 6
      (spans_slots in_order whole_index.spans)
in_order-HasMatches = record {
  same_count = λ a. omega arith;
  ties = (
    (
      λ e. absurd (ground arith),
      (λ e. absurd (ground arith), (λ e. absurd (ground arith), (λ e. absurd (ground arith), tt))),
    ),
    (
      (λ e. omega arith, (λ e. omega arith, (λ e. absurd (ground arith), tt))),
      (
        (λ e. absurd (ground arith), (λ e. absurd (ground arith), tt)),
        ((λ e. absurd (ground arith), tt), (tt, tt)),
      ),
    ),
  );
}

whole_index-IsOrdered : IsOrdered compare_values-IsPreorder second_and_third not_four 6 whole_index
whole_index-IsOrdered = record {
  plan_limit = refl;
  sorted = (
    (refl, (refl, (refl, (refl, tt)))),
    ((refl, (refl, (refl, tt))), ((refl, (refl, tt)), ((refl, tt), (tt, tt)))),
  );
  matches = in_order-HasMatches;
}

some-injective : {A : Type 0} (a b : A) → some a ≡ some b → a ≡ b
some-injective a b h = cc h

scan_topic_raw_window-window_of_example :
    scan_topic_raw_window compare_values second_and_third not_four 6
      (some whole_index)
      (some five_candidates)
      none
    ≡ scanned 5 (1 ∷ 3 ∷ [])
unfolding sort_by insert_sorted view_server_smart.Shared.Order.Sorting.sort_onto
scan_topic_raw_window-window_of_example =
    scan_topic_raw_window-window_of compare_values-IsPreorder second_and_third not_four 6
      (some whole_index) (some five_candidates) none
      (λ w h.
        subst (IsOrdered compare_values-IsPreorder second_and_third not_four 6)
          (some-injective whole_index w h) whole_index-IsOrdered)
      (λ slots h.
        subst (HasMatches compare_values-IsPreorder second_and_third not_four 6)
          (some-injective five_candidates slots h) five_candidates-HasMatches)
      (λ slots h. absurd (cc h))

-- A full heap of the two slots 0 and 1, the worse at the root; slot 2 is better and takes the root's place.
abbrev sorted_pair : List ℕ
sorted_pair = 1 ∷ 0 ∷ []

abbrev heap_pair : List ℕ
heap_pair = 0 ∷ 1 ∷ []

heap_pair-Holds : Holds 0 (stable-IsLinear compare_values-IsPreorder) heap_pair (take 2 sorted_pair)
heap_pair-Holds = record {
  same_length = refl;
  same_count = λ a. omega arith;
  in_order = λ i hi hs.
      let e : 1 ≡ i = omega (arith, hi, hs) in
      subst
        (λ (j : ℕ).
          AtMost (stable_raw_window_slot_comparator compare_values) (at 0 heap_pair j)
            (at 0 heap_pair (parent j)))
        e refl;
}

retain_bounded-Holds_example :
    Holds 0
      (stable-IsLinear compare_values-IsPreorder)
      (retain_bounded_raw_window_slot compare_values 2 2 heap_pair 2)
      (take 2 (insert_sorted (stable_raw_window_slot_comparator compare_values) 2 sorted_pair))
retain_bounded-Holds_example =
    retain_bounded-Holds 0 (stable-IsLinear compare_values-IsPreorder) _ _ _
      (stable-Tests compare_values-IsPreorder) sorted_pair ((refl, tt), (tt, tt)) 1 heap_pair
      heap_pair-Holds 2
