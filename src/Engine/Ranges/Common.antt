-- ===== src/Engine/Ranges/Common.antt =====
-- The values that two lists of equality values have in common, up to the comparator.
use view_server_smart.Shared.{
  ◌≡◌, refl, ap, ◌∙◌, inl, inr, Bool, true, false, ◌&&◌, ◌||◌, Option, none, some, List, [], ◌∷◌,
  arith, Bool-cases, All,
}
use view_server_smart.Shared.Order.{Comparison, is_less, is_same, AtMost, IsPreorder}
use view_server_smart.Shared.Order.Sorting.{
  insert_sorted, sort_onto, sort_by, IsSorted, sort_onto-IsSorted,
}
use view_server_smart.Engine.Ranges.{
  distinct_after, distinct_ordered_equality_values, skip_below, starts_same, intersect_sorted,
  intersect_ordered_equality_values,
}

module _ {V : Type 0} (compare_values : V → V → Comparison) where
  -- Some value of the list compares the same.
  abbrev pub has_value : V → List V → Bool
  has_value v [] = false
  has_value v (x ∷ xs) = is_same (compare_values v x) || has_value v xs

  has_value-insert_sorted :
      (v x : V) (xs : List V)
      → has_value v (insert_sorted compare_values x xs)
        ≡ is_same (compare_values v x) || has_value v xs
  unfolding insert_sorted
  has_value-insert_sorted v x [] = refl
  has_value-insert_sorted v x (y ∷ ys) = ground (arith, has_value-insert_sorted v x ys)

  has_value-sort_onto :
      (v : V) (done xs : List V)
      → has_value v (sort_onto compare_values done xs) ≡ has_value v done || has_value v xs
  unfolding sort_onto
  has_value-sort_onto v done [] = ground arith
  has_value-sort_onto v done (x ∷ xs) = ground (
    arith,
    has_value-sort_onto v (insert_sorted compare_values x done) xs,
    has_value-insert_sorted v x done,
  )

module _ {V : Type 0} {compare_values : V → V → Comparison} (o : IsPreorder compare_values) where
  same_trans :
      (v a b : V)
      → is_same (compare_values a b) ≡ true
      → is_same (compare_values v a) ≡ is_same (compare_values v b)
  same_trans v a b h = ground (
    arith,
    h,
    o.swap v a,
    o.swap v b,
    o.swap a b,
    o.trans v a b,
    o.trans v b a,
    o.trans a b v,
    o.trans b a v,
    o.trans a v b,
    o.trans b v a,
  )

  has_value-distinct_after-some :
      (v p : V) (xs : List V)
      → is_same (compare_values v p)
          || has_value compare_values v (distinct_after compare_values (some p) xs)
        ≡ is_same (compare_values v p) || has_value compare_values v xs
  unfolding distinct_after
  has_value-distinct_after-some v p [] = refl
  has_value-distinct_after-some v p (x ∷ xs) = elim (Bool-cases (is_same (compare_values p x))) [
    | inl e ↦
        rw (e, distinct_after)
          (ground (arith, same_trans v p x e, has_value-distinct_after-some v p xs))
    | inr e ↦ rw (e, distinct_after) (ground (arith, has_value-distinct_after-some v x xs))
  ]

  has_value-distinct_after :
      (v : V) (xs : List V)
      → has_value compare_values v (distinct_after compare_values none xs)
        ≡ has_value compare_values v xs
  unfolding distinct_after
  has_value-distinct_after v [] = refl
  has_value-distinct_after v (x ∷ xs) = has_value-distinct_after-some v x xs

  pub has_value-distinct :
      (v : V) (xs : List V)
      → has_value compare_values v (distinct_ordered_equality_values compare_values xs)
        ≡ has_value compare_values v xs
  unfolding distinct_ordered_equality_values sort_by
  has_value-distinct v xs =
      has_value-distinct_after v (sort_onto compare_values [] xs)
      ∙ has_value-sort_onto compare_values v [] xs

  All-distinct_after :
      (P : V → Type 0) (p : Option V) (xs : List V)
      → All P xs
      → All P (distinct_after compare_values p xs)
  unfolding distinct_after
  All-distinct_after P p [] h = tt
  All-distinct_after P none (x ∷ xs) h = (h.0, All-distinct_after P (some x) xs h.1)
  All-distinct_after P (some p) (x ∷ xs) h = elim (Bool-cases (is_same (compare_values p x))) [
    | inl e ↦ rw (e, distinct_after) (All-distinct_after P (some p) xs h.1)
    | inr e ↦ rw (e, distinct_after) (h.0, All-distinct_after P (some x) xs h.1)
  ]

  distinct_after-IsSorted :
      (p : Option V) (xs : List V)
      → IsSorted compare_values xs
      → IsSorted compare_values (distinct_after compare_values p xs)
  unfolding distinct_after
  distinct_after-IsSorted p [] s = tt
  distinct_after-IsSorted none (x ∷ xs) s = (
    All-distinct_after (AtMost compare_values x) (some x) xs s.0,
    distinct_after-IsSorted (some x) xs s.1,
  )
  distinct_after-IsSorted (some p) (x ∷ xs) s = elim (Bool-cases (is_same (compare_values p x))) [
    | inl e ↦ rw (e, distinct_after) (distinct_after-IsSorted (some p) xs s.1)
    | inr e ↦
        rw (e, distinct_after)
          (
            All-distinct_after (AtMost compare_values x) (some x) xs s.0,
            distinct_after-IsSorted (some x) xs s.1,
          )
  ]

  distinct-IsSorted :
      (xs : List V) → IsSorted compare_values (distinct_ordered_equality_values compare_values xs)
  unfolding distinct_ordered_equality_values sort_by
  distinct-IsSorted xs =
      distinct_after-IsSorted none (sort_onto compare_values [] xs) (sort_onto-IsSorted o [] xs tt)

  has_value-AtMost :
      (l v : V) (xs : List V)
      → All (AtMost compare_values l) xs
      → has_value compare_values v xs ≡ true
      → AtMost compare_values l v
  has_value-AtMost l v [] all h = absurd (cc h)
  has_value-AtMost l v (x ∷ xs) all h = elim (Bool-cases (is_same (compare_values v x))) [
    | inl e ↦
        let up : AtMost compare_values x v = ground (arith, o.swap v x, e) in o.trans l x v all.0 up
    | inr e ↦ has_value-AtMost l v xs all.1 (ground (arith, e, h))
  ]

  has_value-skip_below :
      (l v : V) (xs : List V)
      → AtMost compare_values l v
      → has_value compare_values v (skip_below compare_values l xs) ≡ has_value compare_values v xs
  unfolding skip_below
  has_value-skip_below l v [] h = refl
  has_value-skip_below l v (x ∷ xs) h = elim (Bool-cases (is_less (compare_values x l))) [
    | inr e ↦ rw (e, skip_below) refl
    | inl e ↦
        let apart : is_same (compare_values v x) ≡ false =
          ground (arith, e, h, o.swap v x, o.swap x l, o.trans l v x) in
        rw (e, skip_below) (ground (arith, apart, has_value-skip_below l v xs h))
  ]

  skip_below-IsSorted :
      (l : V) (xs : List V)
      → IsSorted compare_values xs
      → IsSorted compare_values (skip_below compare_values l xs)
  unfolding skip_below
  skip_below-IsSorted l [] s = tt
  skip_below-IsSorted l (x ∷ xs) s = elim (Bool-cases (is_less (compare_values x l))) [
    | inr e ↦ rw (e, skip_below) s
    | inl e ↦ rw (e, skip_below) (skip_below-IsSorted l xs s.1)
  ]

  -- What is skipped to starts with the value, if it has it.
  starts_same-skip_below :
      (l v : V) (xs : List V)
      → IsSorted compare_values xs
      → is_same (compare_values v l) ≡ true
      → has_value compare_values v (skip_below compare_values l xs)
        ≡ starts_same compare_values l (skip_below compare_values l xs)
  unfolding skip_below
  starts_same-skip_below l v [] s h = refl
  starts_same-skip_below l v (x ∷ xs) s h = elim (Bool-cases (is_less (compare_values x l))) [
    | inl e ↦ rw (e, skip_below) (starts_same-skip_below l v xs s.1 h)
    | inr e ↦
        let head : is_same (compare_values v x) ≡ is_same (compare_values x l) =
          ground (arith, h, same_trans x v l h, o.swap v x) in
        let tail : has_value compare_values v xs ≡ true → AtMost compare_values x v =
          has_value-AtMost x v xs s.0 in
        rw (e, skip_below)
          (elim (Bool-cases (has_value compare_values v xs)) [
            | inl t ↦
                let up = tail t in
                ground (arith, head, t, up, e, h, o.swap v l, o.swap x l, o.trans x v l)
            | inr t ↦ ground (arith, head, t)
          ])
  ]

  has_value-intersect_sorted :
      (v : V) (left right : List V)
      → IsSorted compare_values left
      → IsSorted compare_values right
      → has_value compare_values v (intersect_sorted compare_values left right)
        ≡ has_value compare_values v left && has_value compare_values v right
  unfolding intersect_sorted
  has_value-intersect_sorted v [] right s t = refl
  has_value-intersect_sorted v (l ∷ ls) right s t =
      let ih =
        has_value-intersect_sorted v ls (skip_below compare_values l right) s.1
          (skip_below-IsSorted l right t) in
      elim (Bool-cases (is_same (compare_values v l))) [
        | inl e ↦
            let below : AtMost compare_values l v = ground (arith, o.swap v l, e) in
            ground (
              arith,
              ih,
              e,
              has_value-skip_below l v right below,
              starts_same-skip_below l v right t e,
            )
        | inr e ↦ elim (Bool-cases (has_value compare_values v ls)) [
          | inl h ↦
              let below = has_value-AtMost l v ls s.0 h in
              ground (arith, ih, e, h, has_value-skip_below l v right below)
          | inr h ↦ ground (arith, ih, e, h)
        ]
      ]

  -- Let values be compared in a total and transitive order. The intersection of two lists of equality values has,
  -- up to the comparison, exactly the values that both have.
  pub intersect_ordered_equality_values-has_value :
      (v : V) (left right : List V)
      → has_value compare_values v (intersect_ordered_equality_values compare_values left right)
        ≡ has_value compare_values v left && has_value compare_values v right
  unfolding intersect_ordered_equality_values
  intersect_ordered_equality_values-has_value v left right =
      let l = distinct_ordered_equality_values compare_values left in
      let r = distinct_ordered_equality_values compare_values right in
      has_value-intersect_sorted v l r (distinct-IsSorted left) (distinct-IsSorted right)
      ∙ ap (λ (b : Bool). b && has_value compare_values v r) (has_value-distinct v left)
      ∙ ap (λ (b : Bool). has_value compare_values v left && b) (has_value-distinct v right)
