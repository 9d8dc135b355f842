-- ===== src/Engine/Heap/Front.antt =====
-- Retaining an element in a bounded heap, against inserting it in the sorted front.
use view_server_smart.Shared.{
  ℕ, suc, ◌+◌, ◌<◌, ◌≡◌, sym, ap, subst, ◌∙◌, inl, inr, Bool, true, false, some, List, [], ◌∷◌,
  ◌++◌, length, get_elem?, set, take, arith, Bool-cases, ltb, length-append, length-set,
  get_elem?-lt, length-take,
}
use view_server_smart.Shared.Order.{Comparison, is_less, is_more, AtMost, IsLinear, not_less-AtMost}
use view_server_smart.Shared.Order.Sorting.{
  count, insert_sorted, sort_by, IsSorted, length-insert_sorted, count-insert_sorted,
}
use view_server_smart.Shared.Order.Unique.{sort_by_unique}
use view_server_smart.Engine.Scan.Windows.{
  take-whole, length-take-le, take-all, get_elem?-take, take-insert_sorted, take-insert_sorted-skip,
  take-IsSorted,
}
use view_server_smart.Engine.Heap.{sift_up, sift_down, retain_bounded}
use view_server_smart.Engine.Heap.Reads.{at, once, count-set, count-append, get_elem?-at}
use view_server_smart.Engine.Heap.Retain.{sift_up-Sifted, sift_down-Sifted}
use view_server_smart.Engine.Heap.Bounded.{
  Holds, root-last, push-InOrderBelow, set-InOrderAbove, last-insert_sorted, count-take_last,
}

module _ {A : Type 0} (d : A) {compare : A → A → Comparison} (o : IsLinear compare) where
  -- What the code compares with, in terms of the comparator.
  pub record Tests (rises larger better : A → A → Bool) : Type 0 where
    pub rises-true : (c p : A) → rises c p ≡ true → AtMost compare p c
    pub rises-false : (c p : A) → rises c p ≡ false → AtMost compare c p
    pub larger-true : (a b : A) → larger a b ≡ true → AtMost compare b a
    pub larger-false : (a b : A) → larger a b ≡ false → AtMost compare a b
    pub better-less : (x root : A) → better x root ≡ is_less (compare x root)

  module _ (rises larger better : A → A → Bool) (t : Tests rises larger better) (xs : List A)
      (s : IsSorted compare xs) (m : ℕ) (heap : List A) (h : Holds d o heap (take (suc m) xs))
      (x : A) where
    front : List A
    front = take (suc m) xs

    retain-room :
        ltb (length heap) (suc m) ≡ true
        → Holds d o
            (sift_up rises (length heap) (heap ++ x ∷ []) (length heap))
            (take (suc m) (insert_sorted compare x xs))
    retain-room e =
        let short : length (take (suc m) xs) < suc m = ground (arith, e, h.same_length) in
        let whole : take (suc m) xs ≡ xs = take-whole (suc m) xs short in
        let same_size : length (take (suc m) xs) ≡ length xs = ap length whole in
        let all : take (suc m) (insert_sorted compare x xs) ≡ insert_sorted compare x xs =
          take-all (suc m) (insert_sorted compare x xs)
            (omega (arith, length-insert_sorted compare x xs, same_size, short)) in
        let size : length (heap ++ x ∷ []) ≡ length heap + 1 =
          omega (arith, length-append heap (x ∷ [])) in
        let sifted =
          sift_up-Sifted d o.preorder rises t.rises-true t.rises-false (length heap)
            (heap ++ x ∷ []) (length heap) (omega arith) (omega (arith, size))
            (push-InOrderBelow d o heap x h.in_order) in
        record {
          same_length = omega (
            arith,
            sifted.same_length,
            size,
            h.same_length,
            same_size,
            length-insert_sorted compare x xs,
            ap length all,
          );
          same_count = λ a.
              let whole_count : count compare a (take (suc m) xs) ≡ count compare a xs =
                ap (count compare a) whole in
              let all_count : count compare a (take (suc m) (insert_sorted compare x xs))
                  ≡ count compare a (insert_sorted compare x xs) =
                ap (count compare a) all in
              omega (
                arith,
                sifted.same_count a,
                count-append d compare a x heap,
                h.same_count a,
                whole_count,
                all_count,
                count-insert_sorted compare a x xs,
              );
          in_order = sifted.in_order;
        }

    module _ (full : ltb (length heap) (suc m) ≡ false) where
      full_front : length (take (suc m) xs) ≡ suc m
      full_front = ground (arith, full, h.same_length, length-take-le (suc m) xs)

      last_front : (z : A) × (get_elem? (take (suc m) xs) m ≡ some z)
      last_front = get_elem?-lt (take (suc m) xs) m (omega (arith, full_front))

      root_is_last : at d heap 0 ≡ last_front.0
      root_is_last =
          root-last d o heap (take (suc m) xs) m last_front.0 h (take-IsSorted compare (suc m) xs s)
            last_front.1 full_front

      retain-skip :
          is_less (compare x (at d heap 0)) ≡ false
          → Holds d o heap (take (suc m) (insert_sorted compare x xs))
      retain-skip l =
          let z = last_front.0 in
          let at_m : get_elem? xs m ≡ some z =
            sym (get_elem?-take (suc m) m xs (omega arith)) ∙ last_front.1 in
          let behind : AtMost compare z x =
            subst (λ (r : A). AtMost compare r x) root_is_last
              (not_less-AtMost o.preorder x (at d heap 0) l) in
          subst (Holds d o heap) (sym (take-insert_sorted-skip o.preorder m x z xs s at_m behind)) h

      retain-replace :
          is_less (compare x (at d heap 0)) ≡ true
          → Holds d o
              (sift_down larger (length heap) (set heap 0 x) 0)
              (take (suc m) (insert_sorted compare x xs))
      retain-replace l =
          let z = last_front.0 in
          let size = length-set heap 0 x in
          let pos : 0 < length heap = omega (arith, full_front, h.same_length) in
          let sifted =
            sift_down-Sifted d o.preorder larger t.larger-true t.larger-false (length heap)
              (set heap 0 x) 0 (omega (arith, size)) (omega (arith, size, pos))
              (set-InOrderAbove d o heap x pos h.in_order) in
          let less_z : is_less (compare x z) ≡ true =
            subst (λ (r : A). is_less (compare x r) ≡ true) root_is_last l in
          let above : is_more (compare z x) ≡ true = ground (arith, o.preorder.swap x z, less_z) in
          let inserted = insert_sorted compare x (take (suc m) xs) in
          let long : length inserted ≡ suc (suc m) =
            omega (arith, length-insert_sorted compare x (take (suc m) xs), full_front) in
          let cut = take-insert_sorted compare (suc m) x xs in
          let last = last-insert_sorted d o x z (take (suc m) xs) m last_front.1 above in
          subst (Holds d o (sift_down larger (length heap) (set heap 0 x) 0)) cut (record {
            same_length = omega (
              arith,
              sifted.same_length,
              size,
              h.same_length,
              full_front,
              length-take (suc m) inserted (omega (arith, long)),
            );
            same_count = λ a.
                let root_z : once d compare a (at d heap 0) ≡ once d compare a z =
                  ap (once d compare a) root_is_last in
                omega (
                  arith,
                  sifted.same_count a,
                  count-set d compare a heap 0 x pos,
                  root_z,
                  h.same_count a,
                  count-insert_sorted compare a x (take (suc m) xs),
                  count-take_last d o a z inserted (suc m) last long,
                );
            in_order = sifted.in_order;
          })

      retain-full :
          Holds d o
            (retain_bounded rises larger better (suc m) heap x)
            (take (suc m) (insert_sorted compare x xs))
      retain-full =
          let root = get_elem?-at d heap 0 (omega (arith, full_front, h.same_length)) in
          elim (Bool-cases (is_less (compare x (at d heap 0)))) [
            | inl l ↦
                let b : better x (at d heap 0) ≡ true = t.better-less x (at d heap 0) ∙ l in
                rw (full, root, b, retain_bounded) (retain-replace l)
            | inr l ↦
                let b : better x (at d heap 0) ≡ false = t.better-less x (at d heap 0) ∙ l in
                rw (full, root, b, retain_bounded) (retain-skip l)
          ]

    -- Let a heap hold the first elements of a sorted list, at most as many as the bound, under a comparator that is
    -- total, transitive and tells elements apart, with which the heap's tests agree. After an element has been
    -- retained it is a heap that holds the first elements of the list with the element inserted.
    pub retain_bounded-Holds :
        Holds d o
          (retain_bounded rises larger better (suc m) heap x)
          (take (suc m) (insert_sorted compare x xs))
    retain_bounded-Holds = elim (Bool-cases (ltb (length heap) (suc m))) [
      | inl e ↦ rw (e, retain_bounded) (retain-room e)
      | inr e ↦ retain-full e
    ]

  -- Sorting a heap that holds a sorted list gives the list.
  pub sort_by-Holds :
      (heap front : List A)
      → IsSorted compare front
      → Holds d o heap front
      → sort_by compare heap ≡ front
  sort_by-Holds heap front s h = sort_by_unique o heap front s h.same_count
