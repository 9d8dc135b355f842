-- ===== src/Engine/Heap/Bounded.antt =====
-- A bounded heap holds the front of the sort of what was offered to it.
use view_server_smart.Shared.{
  ℕ, zero, suc, ◌+◌, ◌≤◌, ◌<◌, ◌≡◌, refl, ◌∙◌, inl, inr, true, false, some, List, [], ◌∷◌, ◌++◌,
  length, get_elem?, set, take, arith, Bool-cases, All, ◌==◌, length-append, length-set,
}
use view_server_smart.Shared.Order.{Comparison, is_more, AtMost, IsLinear, AtMost-self}
use view_server_smart.Shared.Order.Sorting.{count, insert_sorted, IsSorted}
use view_server_smart.Shared.Order.Unique.{count-All, AtMost-antisym, same_self}
use view_server_smart.Engine.Storage.Elements.{get_elem?-append-lt}
use view_server_smart.Engine.Search.Insertion.{All-get_elem?}
use view_server_smart.Engine.Heap.Reads.{at, set_at, at-set, once, get_elem?-at}
use view_server_smart.Engine.Heap.Order.{parent, InOrder, InOrderBelow, InOrderAbove, root-AtMost}

module _ {A : Type 0} (d : A) where
  All-at : (P : A → Type 0) (xs : List A) → ((i : ℕ) → i < length xs → P (at d xs i)) → All P xs
  All-at P [] h = tt
  All-at P (x ∷ xs) h = (h 0 (omega arith), All-at P xs (λ i k. h (suc i) (omega (arith, k))))

module _ {A : Type 0} (d : A) {compare : A → A → Comparison} (o : IsLinear compare) where
  count-get_elem? : (z : A) (xs : List A) (i : ℕ) → get_elem? xs i ≡ some z → 1 ≤ count compare z xs
  count-get_elem? z [] i h = cc h
  count-get_elem? z (x ∷ xs) zero h = let e : x ≡ z = cc h in rw e (ground (arith, same_self o z))
  count-get_elem? z (x ∷ xs) (suc i) h = omega (arith, count-get_elem? z xs i h)

  All-last :
      (xs : List A) (m : ℕ) (z : A)
      → IsSorted compare xs
      → get_elem? xs m ≡ some z
      → length xs ≡ suc m
      → All (λ y. AtMost compare y z) xs
  All-last [] m z s at n = tt
  All-last (x ∷ []) zero z s at n = let e : x ≡ z = cc at in (rw e (AtMost-self o.preorder z), tt)
  All-last (x ∷ y ∷ ys) zero z s at n = absurd (omega arith)
  All-last (x ∷ xs) (suc m) z s at n =
      (All-get_elem? (AtMost compare x) xs m z s.0 at, All-last xs m z s.1 at (omega (arith, n)))

  pub last-insert_sorted :
      (x z : A) (xs : List A) (m : ℕ)
      → get_elem? xs m ≡ some z
      → is_more (compare z x) ≡ true
      → get_elem? (insert_sorted compare x xs) (suc m) ≡ some z
  unfolding insert_sorted
  last-insert_sorted x z [] m at h = cc at
  last-insert_sorted x z (y ∷ ys) zero at h =
      let e : is_more (compare y x) ≡ true = cc (at, h) in rw (e, insert_sorted) at
  last-insert_sorted x z (y ∷ ys) (suc m) at h = elim (Bool-cases (is_more (compare y x))) [
    | inl e ↦ rw (e, insert_sorted) at
    | inr e ↦ rw (e, insert_sorted) (last-insert_sorted x z ys m at h)
  ]

  pub count-take_last :
      (a z : A) (xs : List A) (m : ℕ)
      → get_elem? xs m ≡ some z
      → length xs ≡ suc m
      → count compare a (take m xs) + once d compare a z ≡ count compare a xs
  count-take_last a z [] m at n = cc at
  count-take_last a z (x ∷ []) zero at n = let e : x ≡ z = cc at in rw e (omega arith)
  count-take_last a z (x ∷ y ∷ ys) zero at n = absurd (omega arith)
  count-take_last a z (x ∷ xs) (suc m) at n =
      omega (arith, count-take_last a z xs m at (omega (arith, n)))

  pub record Holds (heap front : List A) : Type 0 where
    pub same_length : length heap ≡ length front
    pub same_count : (a : A) → count compare a heap ≡ count compare a front
    pub in_order : InOrder compare (length heap) (at d heap)

  -- The root of a heap is the last of the sorted list of its elements.
  pub root-last :
      (heap front : List A) (m : ℕ) (z : A)
      → Holds heap front
      → IsSorted compare front
      → get_elem? front m ≡ some z
      → length front ≡ suc m
      → at d heap 0 ≡ z
  root-last heap front m z h s at_m n =
      let root = at d heap 0 in
      let below_root : All (λ y. AtMost compare y root) heap =
        All-at d (λ y. AtMost compare y root) heap
          (λ i k.
            root-AtMost o.preorder (length heap) (at d heap) h.in_order (suc i) i (omega arith)
              k) in
      let root_at = get_elem?-at d heap 0 (omega (arith, h.same_length, n)) in
      let z_root : AtMost compare z root =
        count-All o (λ y. AtMost compare y root) z heap below_root
          (omega (arith, h.same_count z, count-get_elem? z front m at_m)) in
      let root_z : AtMost compare root z =
        count-All o (λ y. AtMost compare y z) root front (All-last front m z s at_m n)
          (omega (arith, h.same_count root, count-get_elem? root heap 0 root_at)) in
      AtMost-antisym o root z root_z z_root

  at-append :
      (heap : List A) (x : A) (i : ℕ) → i < length heap → at d (heap ++ x ∷ []) i ≡ at d heap i
  at-append heap x i h = rw (get_elem?-append-lt heap x i h, at) refl

  pub push-InOrderBelow :
      (heap : List A) (x : A)
      → InOrder compare (length heap) (at d heap)
      → InOrderBelow compare (length (heap ++ x ∷ [])) (length heap) (at d (heap ++ x ∷ []))
  push-InOrderBelow heap x h =
      let size : length (heap ++ x ∷ []) ≡ length heap + 1 =
        omega (arith, length-append heap (x ∷ [])) in
      record {
        others = λ i hi hs n.
            let lt : i < length heap = omega (arith, hs, size, n) in
            let lt' : parent i < length heap = omega (arith, lt) in
            rw (at-append heap x i lt, at-append heap x (parent i) lt') (h i hi lt);
        children = λ i hi hs e p. absurd (omega (arith, hs, size, e, hi));
      }

  pub set-InOrderAbove :
      (heap : List A) (x : A)
      → 0 < length heap
      → InOrder compare (length heap) (at d heap)
      → InOrderAbove compare (length (set heap 0 x)) 0 (at d (set heap 0 x))
  set-InOrderAbove heap x pos h =
      let size = length-set heap 0 x in
      record {
        others = λ i hi hs n.
            rw (other i (omega (arith, hi)), other (parent i) (omega (arith, n)))
              (h i hi (omega (arith, hs, size)));
        children = λ i hi hs e p. absurd (omega (arith, p));
      }
    where
      other : (i : ℕ) → 0 < i → at d (set heap 0 x) i ≡ at d heap i
      other i hi =
          let e : (0 == i) ≡ false = ground (arith, hi) in
          at-set d heap 0 i x pos ∙ rw (e, set_at) refl
