-- ===== src/Engine/Aggregates/Sums.antt =====
-- Sums over the members of a group, and what a removal leaves of them.
use view_server_smart.Shared.{ℕ, ◌+◌, ◌≡◌, refl, ap, ◌∙◌, Option, none, some, List, [], ◌∷◌, arith}
use view_server_smart.Shared.Int.{◌+ℤ◌, ◌-ℤ◌, +ℤ_cancel, +ℤ_right_comm}
use view_server_smart.Engine.Aggregates.Members.{Removes, here, there}

-- Decimals up to their numerical value: adding and subtracting a number gives back what there was, in any order.
pub record DecimalLaws {D : Type 0} (sum subtract : D → D → D) : Type 0 where
  pub cancel : (a b : D) → subtract (sum a b) b ≡ a
  pub right_comm : (a b c : D) → sum (sum a b) c ≡ sum (sum a c) b

pub bigint-DecimalLaws : DecimalLaws ◌+ℤ◌ ◌-ℤ◌
bigint-DecimalLaws = record { cancel = +ℤ_cancel; right_comm = +ℤ_right_comm }

module _ {D : Type 0} (operation : D → D → D) where
  abbrev pub with_number : D → Option D → D
  with_number total none = total
  with_number total (some d) = operation total d

module _ {V D : Type 0} (number : V → Option D) (sum : D → D → D) (start : D) where
  abbrev pub sum_of : List V → D
  sum_of [] = start
  sum_of (x ∷ xs) = with_number sum (sum_of xs) (number x)

abbrev pub number_count : {D : Type 0} → Option D → ℕ
number_count none = 0
number_count (some d) = 1

module _ {V D : Type 0} (number : V → Option D) where
  abbrev pub count_of : List V → ℕ
  count_of [] = 0
  count_of (x ∷ xs) = number_count (number x) + count_of xs

  pub count_of-Removes :
      (v : V) (xs ys : List V)
      → Removes v xs ys
      → count_of xs ≡ number_count (number v) + count_of ys
  count_of-Removes v xs ys here = refl
  count_of-Removes v (x ∷ xs) (y ∷ ys) (there r) = omega (arith, count_of-Removes v xs ys r)

module _ {V D : Type 0} (number : V → Option D) {sum subtract : D → D → D} (start : D)
    (l : DecimalLaws sum subtract) where
  with_number_comm :
      (total : D) (a b : Option D)
      → with_number sum (with_number sum total a) b ≡ with_number sum (with_number sum total b) a
  with_number_comm total none b = refl
  with_number_comm total (some a) none = refl
  with_number_comm total (some a) (some b) = l.right_comm total a b

  with_number_cancel :
      (total : D) (a : Option D) → with_number subtract (with_number sum total a) a ≡ total
  with_number_cancel total none = refl
  with_number_cancel total (some a) = l.cancel total a

  sum_of-Removes :
      (v : V) (xs ys : List V)
      → Removes v xs ys
      → sum_of number sum start xs ≡ with_number sum (sum_of number sum start ys) (number v)
  sum_of-Removes v xs ys here = refl
  sum_of-Removes v (x ∷ xs) (y ∷ ys) (there r) =
      ap (λ (t : D). with_number sum t (number x)) (sum_of-Removes v xs ys r)
      ∙ with_number_comm (sum_of number sum start ys) (number v) (number x)

  -- Subtracting what is removed leaves the sum over the rest.
  pub subtract-Removes :
      (v : V) (xs ys : List V)
      → Removes v xs ys
      → with_number subtract (sum_of number sum start xs) (number v) ≡ sum_of number sum start ys
  subtract-Removes v xs ys r =
      ap (λ (t : D). with_number subtract t (number v)) (sum_of-Removes v xs ys r)
      ∙ with_number_cancel (sum_of number sum start ys) (number v)
