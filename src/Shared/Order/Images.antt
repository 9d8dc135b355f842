-- ===== src/Shared/Order/Images.antt =====
-- Sorting images: a sort commutes with a function that the comparator looks through.
use mathlib.Core.Path.{◌≡◌, refl, ap, ◌∙◌}
use mathlib.Core.Logic.{inl, inr}
use mathlib.Core.List.{List, [], ◌∷◌, map}
use package.view_server_smart.Shared.Tests.{Bool-cases}
use package.view_server_smart.Shared.Order.{Comparison, is_more}
use package.view_server_smart.Shared.Order.Sorting.{insert_sorted, sort_onto, sort_by}

module _ {A B : Type 0} (f : A → B) (compare : A → A → Comparison)
    (compare_images : B → B → Comparison)
    (agrees : (a b : A) → compare_images (f a) (f b) ≡ compare a b) where
  insert_sorted-map :
      (x : A) (xs : List A)
      → insert_sorted compare_images (f x) (map f xs) ≡ map f (insert_sorted compare x xs)
  unfolding insert_sorted
  insert_sorted-map x [] = refl
  insert_sorted-map x (y ∷ ys) = elim (Bool-cases (is_more (compare y x))) [
    | inl e ↦ rw (agrees y x, e, insert_sorted) refl
    | inr e ↦
        rw (agrees y x, e, insert_sorted) (ap (λ (zs : List B). f y ∷ zs) (insert_sorted-map x ys))
  ]

  sort_onto-map :
      (done xs : List A)
      → sort_onto compare_images (map f done) (map f xs) ≡ map f (sort_onto compare done xs)
  unfolding sort_onto
  sort_onto-map done [] = refl
  sort_onto-map done (x ∷ xs) =
      ap (λ (d : List B). sort_onto compare_images d (map f xs)) (insert_sorted-map x done)
      ∙ sort_onto-map (insert_sorted compare x done) xs

  pub sort_by-map : (xs : List A) → sort_by compare_images (map f xs) ≡ map f (sort_by compare xs)
  unfolding sort_by
  sort_by-map xs = sort_onto-map [] xs
