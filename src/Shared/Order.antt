-- ===== src/Shared/Order.antt =====
-- Comparators, as JavaScript passes them to `sort`: only the sign of what they return is looked at.
use mathlib.Core.Path.{◌≡◌, refl}
use mathlib.Core.Bool.{Bool, true, false}
use Prim.Native.Nat.{ℕ, Ordering, compare}
use native.Mathlib.Omega.{arith}
use package.view_server_smart.Shared.Tests.{if◌then◌else◌}
pub mod Sorting
pub mod Unique
pub mod Images
pub mod Lexicographic

-- The sign of a comparison: below 0, 0, above 0.
pub data Comparison : Type 0 where
  less : Comparison
  same : Comparison
  more : Comparison

abbrev pub reverse : Comparison → Comparison
reverse less = more
reverse same = same
reverse more = less

-- A difference decides, in the direction asked for; without one, what comes next does.
abbrev pub directed : Bool → Comparison → Comparison → Comparison
directed ascending less next = if ascending then less else more
directed ascending same next = next
directed ascending more next = if ascending then more else less

abbrev pub is_more : Comparison → Bool
is_more more = true
is_more less = false
is_more same = false

abbrev pub is_less : Comparison → Bool
is_less less = true
is_less more = false
is_less same = false

abbrev pub is_same : Comparison → Bool
is_same same = true
is_same less = false
is_same more = false

-- `a - b`, or `Number(a > b) - Number(a < b)`, on natural numbers.
abbrev pub compare_numbers : ℕ → ℕ → Comparison
compare_numbers a b = elim (compare a b) [
  | Ordering.lt ↦ less
  | Ordering.eq ↦ same
  | Ordering.gt ↦ more
]

module _ {A : Type 0} where
  abbrev pub AtMost : (A → A → Comparison) → A → A → Type 0
  AtMost compare a b = is_more (compare a b) ≡ false

  -- A comparator that sorts: it is total and transitive.
  pub record IsPreorder (compare : A → A → Comparison) : Type 0 where
    pub swap : (a b : A) → compare b a ≡ reverse (compare a b)
    pub trans : (a b c : A) → AtMost compare a b → AtMost compare b c → AtMost compare a c

  -- A comparator that tells different elements apart.
  pub record IsLinear (compare : A → A → Comparison) : Type 0 where
    pub preorder : IsPreorder compare
    pub antisym : (a b : A) → compare a b ≡ same → a ≡ b

module _ {A : Type 0} {compare : A → A → Comparison} (o : IsPreorder compare) where
  pub AtMost-self : (a : A) → AtMost compare a a
  AtMost-self a = ground (arith, o.swap a a)

  -- What is above has the other at most at it.
  pub more-AtMost : (a b : A) → is_more (compare a b) ≡ true → AtMost compare b a
  more-AtMost a b h = ground (arith, o.swap a b)

  pub less-AtMost : (a b : A) → is_less (compare a b) ≡ true → AtMost compare a b
  less-AtMost a b h = ground arith

  pub not_less-AtMost : (a b : A) → is_less (compare a b) ≡ false → AtMost compare b a
  not_less-AtMost a b h = ground (arith, o.swap a b)

pub compare_numbers-IsLinear : IsLinear compare_numbers
compare_numbers-IsLinear = record {
  preorder = record { swap = λ a b. ground arith; trans = λ a b c h k. ground arith };
  antisym = λ a b h. ground arith;
}
