-- ===== src/Shared/Order/Sorting.antt =====
-- `Array.prototype.sort`, which is stable: each element goes behind those that are not above it.
use mathlib.Core.Path.{◌≡◌, refl}
use mathlib.Core.Logic.{inl, inr}
use mathlib.Core.List.{List, [], ◌∷◌, ◌++◌}
use Prim.Native.Nat.{ℕ, ◌+◌}
use native.Mathlib.Omega.{arith}
use package.view_server_smart.Shared.Tests.{if◌then◌else◌, Bool-cases}
use package.view_server_smart.Shared.Lists.{length, All}
use package.view_server_smart.Shared.Order.{
  Comparison, is_more, is_same, AtMost, IsPreorder, more-AtMost,
}

module _ {A : Type 0} (compare : A → A → Comparison) where
  unfoldable pub insert_sorted : A → List A → List A
  insert_sorted x [] = x ∷ []
  insert_sorted x (y ∷ ys) =
      let rest = insert_sorted x ys in if is_more (compare y x) then x ∷ y ∷ ys else y ∷ rest

  -- The elements go one by one into a sorted list.
  unfoldable pub sort_onto : List A → List A → List A
  sort_onto done [] = done
  sort_onto done (x ∷ xs) = sort_onto (insert_sorted x done) xs

  unfoldable pub sort_by : List A → List A
  unfolding sort_onto
  sort_by xs = sort_onto [] xs

  abbrev pub IsSorted : List A → Type 0
  IsSorted [] = Unit
  IsSorted (x ∷ xs) = All (AtMost compare x) xs × IsSorted xs

  -- How often an element is in a list, as far as the comparator can tell.
  abbrev pub count : A → List A → ℕ
  count a [] = 0
  count a (x ∷ xs) = (if is_same (compare a x) then 1 else 0) + count a xs

  pub length-insert_sorted : (x : A) (xs : List A) → length (insert_sorted x xs) ≡ length xs + 1
  unfolding insert_sorted
  length-insert_sorted x [] = omega arith
  length-insert_sorted x (y ∷ ys) = ground (arith, length-insert_sorted x ys)

  pub count-insert_sorted :
      (a x : A) (xs : List A)
      → count a (insert_sorted x xs) ≡ (if is_same (compare a x) then 1 else 0) + count a xs
  unfolding insert_sorted
  count-insert_sorted a x [] = omega arith
  count-insert_sorted a x (y ∷ ys) = elim (Bool-cases (is_more (compare y x))) [
    | inl e ↦ rw (e, insert_sorted) refl
    | inr e ↦ rw (e, insert_sorted) (omega (arith, count-insert_sorted a x ys))
  ]

  pub All-insert_sorted :
      (P : A → Type 0) (x : A) (xs : List A) → P x → All P xs → All P (insert_sorted x xs)
  unfolding insert_sorted
  All-insert_sorted P x [] p h = (p, tt)
  All-insert_sorted P x (y ∷ ys) p h = elim (Bool-cases (is_more (compare y x))) [
    | inl e ↦ rw (e, insert_sorted) (p, h)
    | inr e ↦ rw (e, insert_sorted) (h.0, All-insert_sorted P x ys p h.1)
  ]

module _ {A : Type 0} {compare : A → A → Comparison} (o : IsPreorder compare) where
  All-AtMost :
      (x y : A) (ys : List A)
      → AtMost compare x y
      → All (AtMost compare y) ys
      → All (AtMost compare x) ys
  All-AtMost x y [] h all = tt
  All-AtMost x y (z ∷ zs) h all = (o.trans x y z h all.0, All-AtMost x y zs h all.1)

  pub insert_sorted-IsSorted :
      (x : A) (xs : List A) → IsSorted compare xs → IsSorted compare (insert_sorted compare x xs)
  unfolding insert_sorted
  insert_sorted-IsSorted x [] s = (tt, tt)
  insert_sorted-IsSorted x (y ∷ ys) s = elim (Bool-cases (is_more (compare y x))) [
    | inl e ↦
        let below = more-AtMost o y x e in
        rw (e, insert_sorted) ((below, All-AtMost x y ys below s.0), s)
    | inr e ↦
        rw (e, insert_sorted)
          (All-insert_sorted compare (AtMost compare y) x ys e s.0, insert_sorted-IsSorted x ys s.1)
  ]

  pub sort_onto-IsSorted :
      (done xs : List A) → IsSorted compare done → IsSorted compare (sort_onto compare done xs)
  unfolding sort_onto
  sort_onto-IsSorted done [] s = s
  sort_onto-IsSorted done (x ∷ xs) s =
      sort_onto-IsSorted (insert_sorted compare x done) xs (insert_sorted-IsSorted x done s)

module _ {A : Type 0} (compare : A → A → Comparison) where
  pub count-sort_onto :
      (a : A) (done xs : List A)
      → count compare a (sort_onto compare done xs) ≡ count compare a done + count compare a xs
  unfolding sort_onto
  count-sort_onto a done [] = omega arith
  count-sort_onto a done (x ∷ xs) = omega (
    arith,
    count-sort_onto a (insert_sorted compare x done) xs,
    count-insert_sorted compare a x done,
  )

  pub sort_onto-append :
      (done xs : List A) (x : A)
      → sort_onto compare done (xs ++ x ∷ []) ≡ insert_sorted compare x (sort_onto compare done xs)
  unfolding sort_onto
  sort_onto-append done [] x = refl
  sort_onto-append done (y ∷ ys) x = sort_onto-append (insert_sorted compare y done) ys x

  pub length-sort_onto :
      (done xs : List A) → length (sort_onto compare done xs) ≡ length done + length xs
  unfolding sort_onto
  length-sort_onto done [] = omega arith
  length-sort_onto done (x ∷ xs) = omega (
    arith,
    length-sort_onto (insert_sorted compare x done) xs,
    length-insert_sorted compare x done,
  )
