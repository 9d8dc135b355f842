-- ===== src/Engine/Scan/Windows.antt =====
-- The bounded sorted window: keeping the best slots one by one gives the front of the sort of all of them.
use view_server_smart.Shared.{
  ℕ, zero, suc, ◌+◌, ◌-◌, ◌≤◌, ◌<◌, ◌≡◌, refl, sym, ap, ◌∙◌, inl, inr, false, some, List, [], ◌∷◌,
  length, get_elem?, take, ltb, arith, Bool-cases, All, get_elem?-lt,
}
use view_server_smart.Shared.Splice.{splice_in}
use view_server_smart.Shared.Order.{
  Comparison, is_more, is_less, AtMost, IsPreorder, not_less-AtMost,
}
use view_server_smart.Shared.Order.Sorting.{
  insert_sorted, sort_onto, IsSorted, insert_sorted-IsSorted, length-insert_sorted,
}
use view_server_smart.Engine.Search.{ordered_slot_index_insertion_point}
use view_server_smart.Engine.Search.Insertion.{insertion_point-insert_sorted, All-get_elem?}
use view_server_smart.Engine.Storage.{pop}
use view_server_smart.Engine.Scan.{keep_sorted}
use view_server_smart.Engine.Scan.Loops.{fold_matches}

module _ {A : Type 0} where
  take-take-suc : (n : ℕ) (xs : List A) → take n (take (suc n) xs) ≡ take n xs
  take-take-suc zero xs = refl
  take-take-suc (suc n) [] = refl
  take-take-suc (suc n) (x ∷ xs) = ap (λ (ys : List A). x ∷ ys) (take-take-suc n xs)

  pub take-whole : (n : ℕ) (xs : List A) → length (take n xs) < n → take n xs ≡ xs
  take-whole zero xs h = absurd (omega arith)
  take-whole (suc n) [] h = refl
  take-whole (suc n) (x ∷ xs) h = ap (λ (ys : List A). x ∷ ys) (take-whole n xs (omega (arith, h)))

  pub length-take-le : (n : ℕ) (xs : List A) → length (take n xs) ≤ n
  length-take-le zero xs = omega arith
  length-take-le (suc n) [] = omega arith
  length-take-le (suc n) (x ∷ xs) = omega (arith, length-take-le n xs)

  pub take-all : (n : ℕ) (xs : List A) → length xs ≤ n → take n xs ≡ xs
  take-all zero [] h = refl
  take-all zero (x ∷ xs) h = absurd (omega arith)
  take-all (suc n) [] h = refl
  take-all (suc n) (x ∷ xs) h = ap (λ (ys : List A). x ∷ ys) (take-all n xs (omega (arith, h)))

  pub get_elem?-take : (n i : ℕ) (xs : List A) → i < n → get_elem? (take n xs) i ≡ get_elem? xs i
  get_elem?-take zero i xs h = absurd (omega arith)
  get_elem?-take (suc n) i [] h = refl
  get_elem?-take (suc n) zero (x ∷ xs) h = refl
  get_elem?-take (suc n) (suc i) (x ∷ xs) h = get_elem?-take n i xs (omega (arith, h))

  pub pop-take : (n : ℕ) (xs : List A) → length xs ≡ suc n → pop xs ≡ take n xs
  pop-take n [] h = absurd (omega arith)
  pop-take zero (x ∷ []) h = refl
  pop-take (suc n) (x ∷ []) h = absurd (omega arith)
  pop-take zero (x ∷ y ∷ ys) h = absurd (omega arith)
  pop-take (suc n) (x ∷ y ∷ ys) h =
      ap (λ (ys : List A). x ∷ ys) (pop-take n (y ∷ ys) (omega (arith, h)))

module _ {A : Type 0} (compare : A → A → Comparison) where
  -- Only the front counts for the front of the list after an insertion.
  pub take-insert_sorted :
      (n : ℕ) (x : A) (xs : List A)
      → take n (insert_sorted compare x (take n xs)) ≡ take n (insert_sorted compare x xs)
  unfolding insert_sorted
  take-insert_sorted zero x xs = refl
  take-insert_sorted (suc n) x [] = refl
  take-insert_sorted (suc n) x (y ∷ ys) = elim (Bool-cases (is_more (compare y x))) [
    | inl e ↦ rw (e, insert_sorted) (ap (λ (ys : List A). x ∷ ys) (take-take-suc n (y ∷ ys)))
    | inr e ↦ rw (e, insert_sorted) (ap (λ (ys : List A). y ∷ ys) (take-insert_sorted n x ys))
  ]

  pub take-IsSorted : (n : ℕ) (xs : List A) → IsSorted compare xs → IsSorted compare (take n xs)
  take-IsSorted zero xs s = tt
  take-IsSorted (suc n) [] s = tt
  take-IsSorted (suc n) (x ∷ xs) s = (take-All n xs s.0, take-IsSorted n xs s.1)
    where
      take-All :
          (n : ℕ) (ys : List A) → All (AtMost compare x) ys → All (AtMost compare x) (take n ys)
      take-All zero ys all = tt
      take-All (suc n) [] all = tt
      take-All (suc n) (y ∷ ys) all = (all.0, take-All n ys all.1)

module _ {A : Type 0} {compare : A → A → Comparison} (o : IsPreorder compare) where
  -- What is not below the last of the front goes behind the front.
  pub take-insert_sorted-skip :
      (n : ℕ) (x z : A) (xs : List A)
      → IsSorted compare xs
      → get_elem? xs n ≡ some z
      → AtMost compare z x
      → take (suc n) (insert_sorted compare x xs) ≡ take (suc n) xs
  unfolding insert_sorted
  take-insert_sorted-skip n x z [] s at h = cc at
  take-insert_sorted-skip zero x z (y ∷ ys) s at h =
      let e : is_more (compare y x) ≡ false = cc (at, h) in rw (e, insert_sorted) refl
  take-insert_sorted-skip (suc n) x z (y ∷ ys) s at h =
      let y_z = All-get_elem? (AtMost compare y) ys n z s.0 at in
      let e : is_more (compare y x) ≡ false = o.trans y z x y_z h in
      rw (e, insert_sorted)
        (ap (λ (ys : List A). y ∷ ys) (take-insert_sorted-skip n x z ys s.1 at h))

module _ {compare : ℕ → ℕ → Comparison} (o : IsPreorder compare) where
  pub keep_sorted-take :
      (n total : ℕ) (xs : List ℕ) (x : ℕ)
      → IsSorted compare xs
      → keep_sorted compare (suc n) total (take (suc n) xs) x
        ≡ take (suc n) (insert_sorted compare x xs)
  keep_sorted-take n total xs x s =
      let kept = take (suc n) xs in
      let placed : splice_in kept (ordered_slot_index_insertion_point kept x compare) x
          ≡ insert_sorted compare x kept =
        insertion_point-insert_sorted o x kept (take-IsSorted compare (suc n) xs s) in
      elim (Bool-cases (ltb (length kept) (suc n))) [
        | inl e ↦
            let whole : take (suc n) xs ≡ xs = take-whole (suc n) xs (ground (arith, e)) in
            let short : length (take (suc n) xs) ≡ length xs = ap length whole in
            rw (e, keep_sorted)
              (placed
                ∙ ap (insert_sorted compare x) whole
                ∙ sym (
                    take-all (suc n) (insert_sorted compare x xs)
                      (ground (arith, length-insert_sorted compare x xs, short, e))))
        | inr e ↦
            let full : length kept ≡ suc n = ground (arith, e, length-take-le (suc n) xs) in
            let (z, at) = get_elem?-lt kept n (omega (arith, full)) in
            let last : length kept - 1 ≡ n = omega (arith, full) in
            let at' : get_elem? kept (length kept - 1) ≡ some z = ap (get_elem? kept) last ∙ at in
            elim (Bool-cases (is_less (compare x z))) [
              | inl l ↦
                  rw (e, at', l, keep_sorted)
                    (ap pop placed
                      ∙ pop-take (suc n) (insert_sorted compare x kept)
                          (omega (arith, length-insert_sorted compare x kept, full))
                      ∙ take-insert_sorted compare (suc n) x xs)
              | inr l ↦
                  rw (e, at', l, keep_sorted)
                    (sym (
                      take-insert_sorted-skip o n x z xs s
                        (sym (get_elem?-take (suc n) n xs (omega arith)) ∙ at)
                        (not_less-AtMost o x z l)))
            ]
      ]

  pub fold_matches-take :
      (n total : ℕ) (done xs : List ℕ)
      → IsSorted compare done
      → fold_matches (keep_sorted compare (suc n)) total (take (suc n) done) xs
        ≡ take (suc n) (sort_onto compare done xs)
  unfolding fold_matches sort_onto
  fold_matches-take n total done [] s = refl
  fold_matches-take n total done (x ∷ xs) s =
      ap (λ (kept : List ℕ). fold_matches (keep_sorted compare (suc n)) (total + 1) kept xs)
        (keep_sorted-take n total done x s)
      ∙ fold_matches-take n (total + 1) (insert_sorted compare x done) xs
          (insert_sorted-IsSorted o x done s)
