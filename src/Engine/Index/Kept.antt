-- ===== src/Engine/Index/Kept.antt =====
-- The index stays sorted, with the slots that were inserted and not removed.
use view_server_smart.Shared.{
  ℕ, ◌+◌, ◌-◌, ◌≤◌, ◌≡◌, refl, sym, ap, subst, ◌∙◌, inl, inr, true, List, [], ◌∷◌, ◌==◌,
  if◌then◌else◌, arith, Bool-cases, Option-cases, All,
}
use view_server_smart.Shared.Splice.{splice_out}
use view_server_smart.Shared.Order.{
  Comparison, is_same, is_more, AtMost, IsPreorder, compare_numbers,
}
use view_server_smart.Shared.Order.Lexicographic.{then_by-IsPreorder}
use view_server_smart.Shared.Order.Sorting.{
  insert_sorted, sort_onto, sort_by, IsSorted, count, insert_sorted-IsSorted, sort_onto-IsSorted,
}
use view_server_smart.Engine.Search.Insertion.{insertion_point-insert_sorted}
use view_server_smart.Engine.Scan.{upto}
use view_server_smart.Engine.Index.{
  RawStorageOrderColumn, compare_slots_by_storage_order, insert_slot_into_raw_window_index,
  sorted_slots, index_of, remove_slot_from_raw_window_index, IndexStep, slot_inserted, slot_removed,
}

-- Without one of a slot, if it is there.
abbrev pub without : ℕ → List ℕ → List ℕ
without slot [] = []
without slot (x ∷ xs) = let rest = without slot xs in if x == slot then xs else x ∷ rest

abbrev pub members_after : List ℕ → List IndexStep → List ℕ
members_after members [] = members
members_after members (slot_inserted slot ∷ steps) = members_after (slot ∷ members) steps
members_after members (slot_removed slot ∷ steps) = members_after (without slot members) steps

remove-without :
    (xs : List ℕ) (slot : ℕ) → remove_slot_from_raw_window_index xs slot ≡ without slot xs
remove-without [] slot = refl
remove-without (x ∷ xs) slot = elim (Bool-cases (x == slot)) [
  | inl e ↦ rw (e, remove_slot_from_raw_window_index, index_of, without) refl
  | inr e ↦
      let ih = remove-without xs slot in
      elim (Option-cases (index_of xs slot)) [
        | inl none_found ↦
            let same : xs ≡ without slot xs =
              rw (none_found, remove_slot_from_raw_window_index) at ih in
            rw (e, none_found, remove_slot_from_raw_window_index, index_of, without)
              (ap (λ (ys : List ℕ). x ∷ ys) same)
        | inr (i, found) ↦
            let same : splice_out xs i ≡ without slot xs =
              rw (found, remove_slot_from_raw_window_index) at ih in
            rw (e, found, remove_slot_from_raw_window_index, index_of, without)
              (ap (λ (ys : List ℕ). x ∷ ys) same)
      ]
]

abbrev once_number : ℕ → ℕ → ℕ
once_number a x = if is_same (compare_numbers a x) then 1 else 0

absent-count : (a slot x : ℕ) → (x == slot) ≡ true → once_number a x ≡ once_number a slot
absent-count a slot x h = ground (arith, h)

count-without :
    (a slot : ℕ) (xs : List ℕ)
    → count compare_numbers a (without slot xs) ≡ count compare_numbers a xs - once_number a slot
count-without a slot [] = omega arith
count-without a slot (x ∷ xs) = elim (Bool-cases (x == slot)) [
  | inl e ↦ rw (e, without) (omega (arith, absent-count a slot x e))
  | inr e ↦
      let apart : once_number a x + once_number a slot ≤ 1 = ground (arith, e) in
      rw (e, without) (omega (arith, count-without a slot xs, apart))
]

-- Inserting and sorting by any comparator keep how often a number is there.
module _ (compare : ℕ → ℕ → Comparison) (a : ℕ) where
  count-insert :
      (x : ℕ) (xs : List ℕ)
      → count compare_numbers a (insert_sorted compare x xs)
        ≡ once_number a x + count compare_numbers a xs
  unfolding insert_sorted
  count-insert x [] = omega arith
  count-insert x (y ∷ ys) = elim (Bool-cases (is_more (compare y x))) [
    | inl e ↦ rw (e, insert_sorted) refl
    | inr e ↦ rw (e, insert_sorted) (omega (arith, count-insert x ys))
  ]

  count-sort :
      (done xs : List ℕ)
      → count compare_numbers a (sort_onto compare done xs)
        ≡ count compare_numbers a done + count compare_numbers a xs
  unfolding sort_onto
  count-sort done [] = omega arith
  count-sort done (x ∷ xs) =
      omega (arith, count-sort (insert_sorted compare x done) xs, count-insert x done)

All-without : (P : ℕ → Type 0) (slot : ℕ) (xs : List ℕ) → All P xs → All P (without slot xs)
All-without P slot [] h = tt
All-without P slot (x ∷ xs) h = elim (Bool-cases (x == slot)) [
  | inl e ↦ rw (e, without) h.1
  | inr e ↦ rw (e, without) (h.0, All-without P slot xs h.1)
]

module _ (compare : ℕ → ℕ → Comparison) where
  without-IsSorted :
      (slot : ℕ) (xs : List ℕ) → IsSorted compare xs → IsSorted compare (without slot xs)
  without-IsSorted slot [] s = tt
  without-IsSorted slot (x ∷ xs) s = elim (Bool-cases (x == slot)) [
    | inl e ↦ rw (e, without) s.1
    | inr e ↦
        rw (e, without) (All-without (AtMost compare x) slot xs s.0, without-IsSorted slot xs s.1)
  ]

module _ {K : Type 0} {compare_keys : K → K → Comparison} (k : IsPreorder compare_keys)
    (key_at : ℕ → K) where
  abbrev pub AreOrdered : List RawStorageOrderColumn → Type 0
  AreOrdered columns = All (λ column. IsPreorder column.compare_column_slots) columns

  pub compare_slots-IsPreorder :
      (columns : List RawStorageOrderColumn)
      → AreOrdered columns
      → IsPreorder (compare_slots_by_storage_order compare_keys key_at columns)
  compare_slots-IsPreorder [] h = record {
    swap = λ a b. k.swap (key_at a) (key_at b);
    trans = λ a b c p q. k.trans (key_at a) (key_at b) (key_at c) p q;
  }
  compare_slots-IsPreorder (column ∷ columns) h =
      then_by-IsPreorder h.0 (compare_slots-IsPreorder columns h.1) column.ascending

  module _ (columns : List RawStorageOrderColumn) (ordered : AreOrdered columns) where
    abbrev by_storage : ℕ → ℕ → Comparison
    by_storage = compare_slots_by_storage_order compare_keys key_at columns

    abbrev pub index_after : List ℕ → List IndexStep → List ℕ
    index_after index [] = index
    index_after index (slot_inserted slot ∷ steps) =
        index_after (insert_slot_into_raw_window_index compare_keys key_at columns index slot) steps
    index_after index (slot_removed slot ∷ steps) =
        index_after (remove_slot_from_raw_window_index index slot) steps

    pub record IsIndexOf (index members : List ℕ) : Type 0 where
      pub sorted : IsSorted by_storage index
      pub same_count :
          (slot : ℕ) → count compare_numbers slot index ≡ count compare_numbers slot members

    -- Let keys and columns be compared in total and transitive orders. An index that is sorted and has the members of a
    -- topic stays so under insertions and removals of slots.
    pub index_after-IsIndexOf :
        (steps : List IndexStep) (index members : List ℕ)
        → IsIndexOf index members
        → IsIndexOf (index_after index steps) (members_after members steps)
    index_after-IsIndexOf [] index members x = x
    index_after-IsIndexOf (slot_inserted slot ∷ steps) index members x =
        let inserted =
          insertion_point-insert_sorted (compare_slots-IsPreorder columns ordered) slot index
            x.sorted in
        index_after-IsIndexOf steps
          (insert_slot_into_raw_window_index compare_keys key_at columns index slot)
          (slot ∷ members)
          (record {
            sorted = subst (IsSorted by_storage) (sym inserted) (
                insert_sorted-IsSorted (compare_slots-IsPreorder columns ordered) slot index
                  x.sorted);
            same_count = λ a.
                ap (count compare_numbers a) inserted
                ∙ omega (arith, count-insert by_storage a slot index, x.same_count a);
          })
    index_after-IsIndexOf (slot_removed slot ∷ steps) index members x =
        index_after-IsIndexOf steps (remove_slot_from_raw_window_index index slot)
          (without slot members)
          (record {
            sorted =
                subst (IsSorted by_storage) (sym (remove-without index slot))
                  (without-IsSorted by_storage slot index x.sorted);
            same_count = λ a.
                ap (count compare_numbers a) (remove-without index slot)
                ∙ omega (
                  arith,
                  count-without a slot index,
                  count-without a slot members,
                  x.same_count a,
                );
          })

    -- Let keys and columns be compared in total and transitive orders. A new index is sorted and has all slots.
    pub sorted_slots-IsIndexOf :
        (slot_count : ℕ)
        → IsIndexOf (sorted_slots compare_keys key_at columns slot_count) (upto slot_count)
    unfolding sort_by
    sorted_slots-IsIndexOf slot_count = record {
      sorted =
          sort_onto-IsSorted (compare_slots-IsPreorder columns ordered) [] (upto slot_count) tt;
      same_count = λ a. omega (arith, count-sort by_storage a [] (upto slot_count));
    }
