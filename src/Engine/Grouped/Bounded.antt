-- ===== src/Engine/Grouped/Bounded.antt =====
-- The bounded window of a grouped query against the sort of all its groups.
use view_server_smart.Shared.{
  ℕ, zero, suc, ◌+◌, ◌<◌, ◌≡◌, refl, sym, ap, ◌∙◌, inl, inr, Option, none, some, List, [], ◌∷◌, map,
  length, take, drop, arith, Option-cases, All, length-map,
}
use view_server_smart.Shared.Order.{Comparison, is_more, is_less, IsPreorder, IsLinear}
use view_server_smart.Shared.Order.Sorting.{
  sort_by, sort_onto, insert_sorted, IsSorted, sort_onto-IsSorted, insert_sorted-IsSorted,
  length-sort_onto,
}
use view_server_smart.Shared.Order.Images.{sort_by-map}
use view_server_smart.Engine.Evaluation.{QueryEvaluation}
use view_server_smart.Engine.Heap.{retain_bounded}
use view_server_smart.Engine.Heap.Maps.{retain_bounded-map}
use view_server_smart.Engine.Heap.Bounded.{Holds}
use view_server_smart.Engine.Heap.Front.{Tests, retain_bounded-Holds, sort_by-Holds}
use view_server_smart.Engine.Scan.{WindowPlan}
use view_server_smart.Engine.Scan.Windows.{take-IsSorted}
use view_server_smart.Engine.Grouped.{
  CompiledGroupedOrderBy, BoundedGroupEntry, grouped_window_end, slice_rows, finalize_group,
  compare_grouped_rows, new_bounded_group_entry, compare_bounded_group_entries,
  bounded_group_entry_is_worse, retain_groups, evaluation_of_window,
  bounded_grouped_evaluation_from_groups, grouped_evaluation_from_entries,
  grouped_evaluation_from_groups,
}
use view_server_smart.Engine.Grouped.Keys.{
  ReadsRows, compare_groups, compare_groups-IsLinear, compare_order_values-groups,
  compare_row_values-groups,
}

module _ {A : Type 0} (compare : A → A → Comparison) where
  abbrev keep_best : ℕ → List A → A → List A
  keep_best end kept x =
      retain_bounded (λ a b. is_more (compare a b)) (λ a b. is_more (compare a b))
        (λ a b. is_less (compare a b)) end kept x

  unfoldable keep_all : ℕ → List A → List A → List A
  keep_all end kept [] = kept
  keep_all end kept (x ∷ xs) = keep_all end (keep_best end kept x) xs

module _ {A : Type 0} {compare : A → A → Comparison} (o : IsLinear compare) where
  linear-Tests :
      (d : A)
      → Tests d o
          (λ a b. is_more (compare a b))
          (λ a b. is_more (compare a b))
          (λ a b. is_less (compare a b))
  linear-Tests d = record {
    rises-true = λ c p h. ground (arith, h, o.preorder.swap c p);
    rises-false = λ c p h. h;
    larger-true = λ a b h. ground (arith, h, o.preorder.swap a b);
    larger-false = λ a b h. h;
    better-less = λ x root. refl;
  }

  keep_all-Holds :
      (d : A) (m : ℕ) (kept done xs : List A)
      → IsSorted compare done
      → Holds d o kept (take (suc m) done)
      → Holds d o (keep_all compare (suc m) kept xs) (take (suc m) (sort_onto compare done xs))
  unfolding keep_all sort_onto
  keep_all-Holds d m kept done [] s h = h
  keep_all-Holds d m kept done (x ∷ xs) s h =
      keep_all-Holds d m (keep_best compare (suc m) kept x) (insert_sorted compare x done) xs
        (insert_sorted-IsSorted o.preorder x done s)
        (retain_bounded-Holds d o _ _ _ (linear-Tests d) done s m kept h x)

  -- What is retained, sorted, is the front of the sort.
  keep_all-front :
      (m : ℕ) (xs : List A)
      → sort_by compare (keep_all compare (suc m) [] xs) ≡ take (suc m) (sort_by compare xs)
  unfolding sort_by keep_all sort_onto
  keep_all-front m [] = refl
  keep_all-front m (d ∷ xs) =
      let all = d ∷ xs in
      let sorted_all = sort_onto-IsSorted o.preorder [] all tt in
      sort_by-Holds d o (keep_all compare (suc m) [] all) (take (suc m) (sort_onto compare [] all))
        (take-IsSorted compare (suc m) (sort_onto compare [] all) sorted_all)
        (keep_all-Holds d m [] [] all tt (record {
          same_length = refl;
          same_count = λ a. refl;
          in_order = λ i hi hs. absurd (omega (arith, hs));
        }))

module _ {A B : Type 0} (f : A → B) where
  map-take : (n : ℕ) (xs : List A) → take n (map f xs) ≡ map f (take n xs)
  map-take zero xs = refl
  map-take (suc n) [] = refl
  map-take (suc n) (x ∷ xs) = ap (λ (ys : List B). f x ∷ ys) (map-take n xs)

  map-drop : (n : ℕ) (xs : List A) → drop n (map f xs) ≡ map f (drop n xs)
  map-drop zero xs = refl
  map-drop (suc n) [] = refl
  map-drop (suc n) (x ∷ xs) = map-drop n xs

  slice_rows-map :
      (plan : WindowPlan) (xs : List A) → slice_rows plan (map f xs) ≡ map f (slice_rows plan xs)
  slice_rows-map plan xs = elim (Option-cases plan.limit) [
    | inl e ↦ rw (e, slice_rows) (map-drop plan.offset xs)
    | inr (l, e) ↦
        rw (e, slice_rows)
          (ap (drop plan.offset) (map-take (plan.offset + l) xs)
            ∙ map-drop plan.offset (take (plan.offset + l) xs))
  ]

map-map :
    {A B C : Type 0} (g : B → C) (f : A → B) (xs : List A)
    → map g (map f xs) ≡ map (λ x. g (f x)) xs
map-map g f [] = refl
map-map {C = C} g f (x ∷ xs) = ap (λ (ys : List C). g (f x) ∷ ys) (map-map g f xs)

length-sort_by :
    {A : Type 0} (compare : A → A → Comparison) (xs : List A)
    → length (sort_by compare xs) ≡ length xs
unfolding sort_by
length-sort_by compare xs = omega (arith, length-sort_onto compare [] xs)

-- The bounded window ends where the plan's window ends.
grouped_window_end-limit :
    (offset : ℕ) (limit : Option ℕ) (e : ℕ)
    → grouped_window_end (record { offset = offset; limit = limit }) ≡ some e
    → (l : ℕ) × (limit ≡ some l) × (e ≡ offset + l)
grouped_window_end-limit offset none e h = absurd (cc h)
grouped_window_end-limit offset (some l) e h = (l, refl, ground arith)

module _ {G V K R : Type 0} (key_of : G → K) (finalize_row : G → R)
    {compare_values : V → V → Comparison} (v : IsPreorder compare_values)
    {compare_keys : K → K → Comparison} (k : IsLinear compare_keys)
    (order_by : List (CompiledGroupedOrderBy G V K R))
    (reads : All (ReadsRows key_of finalize_row compare_values compare_keys) order_by)
    (group_of : K → G) (keyed : (key : K) → key_of (group_of key) ≡ key) where
  abbrev by_key : K → K → Comparison
  by_key = compare_groups key_of finalize_row compare_values compare_keys group_of keyed order_by

  abbrev entry_of : K → BoundedGroupEntry G V
  entry_of key =
      new_bounded_group_entry key_of finalize_row compare_values compare_keys order_by
        (group_of key)

  abbrev row_of : K → K × R
  row_of key = (key_of (group_of key), finalize_row (group_of key))

  abbrev shown : List (K × R) → ℕ → ℕ → QueryEvaluation K R
  shown window total version =
      evaluation_of_window key_of finalize_row compare_values compare_keys order_by window total
        version

  by_key-IsLinear : IsLinear by_key
  by_key-IsLinear =
      compare_groups-IsLinear key_of finalize_row compare_values compare_keys group_of keyed v k
        order_by

  entries-by_key :
      (a b : K)
      → compare_bounded_group_entries key_of finalize_row compare_values compare_keys order_by
          (entry_of a)
          (entry_of b)
        ≡ by_key a b
  entries-by_key a b =
      compare_order_values-groups key_of finalize_row compare_values compare_keys group_of keyed
        order_by order_by a b

  rows-by_key :
      (a b : K)
      → compare_grouped_rows key_of finalize_row compare_values compare_keys order_by
          (row_of a)
          (row_of b)
        ≡ by_key a b
  rows-by_key a b =
      compare_row_values-groups key_of finalize_row compare_values compare_keys group_of keyed
        order_by order_by a b reads

  retain_groups-map :
      (end : ℕ) (kept keys : List K)
      → retain_groups key_of finalize_row compare_values compare_keys order_by end
          (map entry_of kept)
          (map group_of keys)
        ≡ map entry_of (keep_all by_key end kept keys)
  unfolding retain_groups keep_all
  retain_groups-map end kept [] = refl
  retain_groups-map end kept (key ∷ keys) =
      ap
        (λ (r : List (BoundedGroupEntry G V)).
          retain_groups key_of finalize_row compare_values compare_keys order_by end r
            (map group_of keys))
        (retain_bounded-map entry_of _ _ _
          (bounded_group_entry_is_worse key_of finalize_row compare_values compare_keys order_by)
          (bounded_group_entry_is_worse key_of finalize_row compare_values compare_keys order_by)
          (λ entry worst. is_less (
            compare_bounded_group_entries key_of finalize_row compare_values compare_keys order_by
              entry worst))
          (λ a b. ap is_more (entries-by_key a b)) (λ a b. ap is_more (entries-by_key a b))
          (λ a b. ap is_less (entries-by_key a b)) end kept key)
      ∙ retain_groups-map end (keep_best by_key end kept key) keys

  full-rows :
      (plan : WindowPlan) (version : ℕ) (keys : List K)
      → grouped_evaluation_from_entries key_of finalize_row compare_values compare_keys order_by
          (map
            (finalize_group key_of finalize_row compare_values compare_keys order_by)
            (map group_of keys))
          plan
          version
        ≡ evaluation_of_window key_of finalize_row compare_values compare_keys order_by
            (map row_of (slice_rows plan (sort_by by_key keys)))
            (length keys)
            version
  unfolding grouped_evaluation_from_entries
  full-rows plan version keys =
      let sorted = sort_by by_key keys in
      let rows = compare_grouped_rows key_of finalize_row compare_values compare_keys order_by in
      let ordered : sort_by rows (
            map (finalize_group key_of finalize_row compare_values compare_keys order_by)
              (map group_of keys))
          ≡ map row_of sorted =
        ap (sort_by rows) (
          map-map (finalize_group key_of finalize_row compare_values compare_keys order_by) group_of
            keys)
        ∙ sort_by-map row_of by_key rows rows-by_key keys in
      let total : length (map row_of sorted) ≡ length keys =
        length-map row_of sorted ∙ length-sort_by by_key keys in
      ap (λ (o : List (K × R)). shown (slice_rows plan o) (length o) version) ordered
      ∙ ap (λ (w : List (K × R)). shown w (length (map row_of sorted)) version)
          (slice_rows-map row_of plan sorted)
      ∙ ap (λ (n : ℕ). shown (map row_of (slice_rows plan sorted)) n version) total

  bounded-rows :
      (plan : WindowPlan) (version : ℕ) (keys : List K) (l m : ℕ)
      → plan.limit ≡ some l
      → suc m ≡ plan.offset + l
      → bounded_grouped_evaluation_from_groups key_of finalize_row compare_values compare_keys
          order_by
          (map group_of keys)
          plan
          version
          (suc m)
        ≡ evaluation_of_window key_of finalize_row compare_values compare_keys order_by
            (map row_of (slice_rows plan (sort_by by_key keys)))
            (length keys)
            version
  unfolding bounded_grouped_evaluation_from_groups
  bounded-rows plan version keys l m limit at_end =
      let entries =
        compare_bounded_group_entries key_of finalize_row compare_values compare_keys order_by in
      let front = take (suc m) (sort_by by_key keys) in
      let finalized : BoundedGroupEntry G V → K × R =
        λ entry. (key_of entry.group, finalize_row entry.group) in
      let retained : sort_by entries (
            retain_groups key_of finalize_row compare_values compare_keys order_by (suc m) []
              (map group_of keys))
          ≡ map entry_of front =
        ap (sort_by entries) (retain_groups-map (suc m) [] keys)
        ∙ sort_by-map entry_of by_key entries entries-by_key (keep_all by_key (suc m) [] keys)
        ∙ ap (map entry_of) (keep_all-front by_key-IsLinear m keys) in
      let slice : drop plan.offset front ≡ slice_rows plan (sort_by by_key keys) =
        ap (λ (n : ℕ). drop plan.offset (take n (sort_by by_key keys))) at_end
        ∙ rw (limit, slice_rows) refl in
      let window : map finalized (drop plan.offset (map entry_of front))
          ≡ map row_of (slice_rows plan (sort_by by_key keys)) =
        ap (map finalized) (map-drop entry_of plan.offset front)
        ∙ map-map finalized entry_of (drop plan.offset front)
        ∙ ap (map row_of) slice in
      ap
        (λ (r : List (BoundedGroupEntry G V)).
          shown (map finalized (drop plan.offset r)) (length (map group_of keys)) version)
        retained
      ∙ ap (λ (w : List (K × R)). shown w (length (map group_of keys)) version) window
      ∙ ap (λ (n : ℕ). shown (map row_of (slice_rows plan (sort_by by_key keys))) n version)
          (length-map group_of keys)

  by_window_end :
      (plan : WindowPlan) (version : ℕ) (keys : List K) (end : Option ℕ)
      → ((l : ℕ) → plan.limit ≡ some l → 0 < plan.offset + l)
      → grouped_window_end plan ≡ end
      → grouped_evaluation_from_groups key_of finalize_row compare_values compare_keys order_by
          (map group_of keys)
          plan
          version
        ≡ grouped_evaluation_from_entries key_of finalize_row compare_values compare_keys order_by
            (map
              (finalize_group key_of finalize_row compare_values compare_keys order_by)
              (map group_of keys))
            plan
            version
  unfolding grouped_evaluation_from_groups
  by_window_end plan version keys none h e = rw (e, grouped_evaluation_from_groups) refl
  by_window_end plan version keys (some zero) h e =
      let (l, limit, at_end) = grouped_window_end-limit plan.offset plan.limit zero e in
      absurd (omega (arith, h l limit, at_end))
  by_window_end plan version keys (some (suc m)) h e =
      let (l, limit, at_end) = grouped_window_end-limit plan.offset plan.limit (suc m) e in
      rw (e, grouped_evaluation_from_groups)
        (bounded-rows plan version keys l m limit at_end ∙ sym (full-rows plan version keys))

  -- Let values be compared in a total and transitive order and keys in one that tells them apart, let every order
  -- read of a finalized row what it reads of the group, let the groups be known by their keys, and let the window not
  -- end at 0. Then the evaluation of groups, which keeps a bounded heap when the window is small, is the evaluation of
  -- all finalized groups, which are sorted and sliced.
  pub grouped_evaluation_from_groups-entries :
      (plan : WindowPlan) (version : ℕ) (keys : List K)
      → ((l : ℕ) → plan.limit ≡ some l → 0 < plan.offset + l)
      → grouped_evaluation_from_groups key_of finalize_row compare_values compare_keys order_by
          (map group_of keys)
          plan
          version
        ≡ grouped_evaluation_from_entries key_of finalize_row compare_values compare_keys order_by
            (map
              (finalize_group key_of finalize_row compare_values compare_keys order_by)
              (map group_of keys))
            plan
            version
  grouped_evaluation_from_groups-entries plan version keys h =
      by_window_end plan version keys (grouped_window_end plan) h refl
