-- ===== src/Shared/Order/Unique.antt =====
-- Under a comparator that tells elements apart, a sorted list is determined by its elements.
use mathlib.Core.Path.{◌≡◌, refl}
use mathlib.Core.Logic.{inl, inr}
use mathlib.Core.Bool.{true}
use mathlib.Core.List.{List, [], ◌∷◌}
use Prim.Native.Nat.{◌≤◌}
use native.Mathlib.Omega.{arith}
use package.view_server_smart.Shared.Tests.{Bool-cases}
use package.view_server_smart.Shared.Lists.{All}
use package.view_server_smart.Shared.Order.{Comparison, is_same, AtMost, IsLinear, AtMost-self}
use package.view_server_smart.Shared.Order.Sorting.{
  IsSorted, count, sort_by, sort_onto, sort_onto-IsSorted, count-sort_onto,
}

module _ {A : Type 0} {compare : A → A → Comparison} (o : IsLinear compare) where
  pub same_self : (a : A) → is_same (compare a a) ≡ true
  same_self a = ground (arith, o.preorder.swap a a)

  same-eq : (a b : A) → is_same (compare a b) ≡ true → a ≡ b
  same-eq a b h = o.antisym a b (ground arith)

  pub count-All : (P : A → Type 0) (a : A) (xs : List A) → All P xs → 1 ≤ count compare a xs → P a
  count-All P a [] all h = absurd (omega arith)
  count-All P a (x ∷ xs) all h = elim (Bool-cases (is_same (compare a x))) [
    | inl e ↦ rw (same-eq a x e) all.0
    | inr e ↦ count-All P a xs all.1 (ground (arith, h, e))
  ]

  pub AtMost-antisym : (a b : A) → AtMost compare a b → AtMost compare b a → a ≡ b
  AtMost-antisym a b h k = o.antisym a b (ground (arith, o.preorder.swap a b))

  pub IsSorted-unique :
      (xs ys : List A)
      → IsSorted compare xs
      → IsSorted compare ys
      → ((a : A) → count compare a xs ≡ count compare a ys)
      → xs ≡ ys
  IsSorted-unique [] [] s t c = refl
  IsSorted-unique [] (y ∷ ys) s t c = absurd (ground (arith, c y, same_self y))
  IsSorted-unique (x ∷ xs) [] s t c = absurd (ground (arith, c x, same_self x))
  IsSorted-unique (x ∷ xs) (y ∷ ys) s t c =
      let down : AtMost compare y x =
        count-All (AtMost compare y) x (y ∷ ys) (AtMost-self o.preorder y, t.0)
          (ground (arith, c x, same_self x)) in
      let up : AtMost compare x y =
        count-All (AtMost compare x) y (x ∷ xs) (AtMost-self o.preorder x, s.0)
          (ground (arith, c y, same_self y)) in
      let heads : x ≡ y = AtMost-antisym x y up down in
      let tails = IsSorted-unique xs ys s.1 t.1 (λ a.
        let all : count compare a (y ∷ xs) ≡ count compare a (y ∷ ys) = rw heads at (c a) in
        omega (arith, all)) in
      rw (heads, tails) refl

  -- Sorting a rearrangement of a sorted list gives that list.
  pub sort_by_unique :
      (xs ys : List A)
      → IsSorted compare ys
      → ((a : A) → count compare a xs ≡ count compare a ys)
      → sort_by compare xs ≡ ys
  unfolding sort_by
  sort_by_unique xs ys t c =
      IsSorted-unique (sort_onto compare [] xs) ys (sort_onto-IsSorted o.preorder [] xs tt) t
        (λ a. omega (arith, count-sort_onto compare a [] xs, c a))
