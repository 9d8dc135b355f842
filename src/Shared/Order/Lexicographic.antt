-- ===== src/Shared/Order/Lexicographic.antt =====
-- Comparing by one comparator, in either direction, and then by another.
use mathlib.Core.Path.{◌≡◌, sym, ap, ◌∙◌}
use mathlib.Core.Logic.{inl, inr}
use mathlib.Core.Bool.{Bool, true, false}
use native.Mathlib.Omega.{arith}
use package.view_server_smart.Shared.Tests.{Bool-cases}
use package.view_server_smart.Shared.Order.{
  Comparison, is_more, reverse, directed, AtMost, IsPreorder, IsLinear,
}

module _ {A : Type 0} (first next : A → A → Comparison) where
  abbrev pub then_by : Bool → A → A → Comparison
  then_by ascending a b = directed ascending (first a b) (next a b)

module _ {A : Type 0} {first next : A → A → Comparison} (o : IsPreorder first)
    (n : IsPreorder next) where
  ascending_trans :
      (a b c : A)
      → AtMost (then_by first next true) a b
      → AtMost (then_by first next true) b c
      → AtMost (then_by first next true) a c
  ascending_trans a b c h k =
      let ab : AtMost first a b = ground (arith, h) in
      let bc : AtMost first b c = ground (arith, k) in
      elim (Bool-cases (is_more (first c a))) [
        | inl e ↦ ground (arith, o.swap c a, e)
        | inr ca ↦
            let ac = o.trans a b c ab bc in
            let ba = o.trans b c a bc ca in
            let cb = o.trans c a b ca ab in
            let next_ab : AtMost next a b = ground (arith, h, ba, o.swap a b) in
            let next_bc : AtMost next b c = ground (arith, k, cb, o.swap b c) in
            ground (arith, ac, ca, o.swap a c, n.trans a b c next_ab next_bc)
      ]

  ascending-IsPreorder : IsPreorder (then_by first next true)
  ascending-IsPreorder = record {
    swap = λ a b. ground (arith, o.swap a b, n.swap a b);
    trans = ascending_trans;
  }

module _ {A : Type 0} {first next : A → A → Comparison} (o : IsPreorder first)
    (n : IsPreorder next) where
  reversed-IsPreorder : IsPreorder (λ a b. first b a)
  reversed-IsPreorder = record { swap = λ a b. o.swap b a; trans = λ a b c h k. o.trans c b a k h }

  descending_eq :
      (a b : A) → then_by (λ a b. first b a) next true a b ≡ then_by first next false a b
  descending_eq a b = ground (arith, o.swap a b)

  pub then_by-IsPreorder : (ascending : Bool) → IsPreorder (then_by first next ascending)
  then_by-IsPreorder true = ascending-IsPreorder o n
  then_by-IsPreorder false =
      let r = ascending-IsPreorder reversed-IsPreorder n in
      record {
        swap = λ a b. sym (descending_eq b a) ∙ r.swap a b ∙ ap reverse (descending_eq a b);
        trans = λ a b c h k.
            ap is_more (sym (descending_eq a c))
            ∙ r.trans a b c (ap is_more (descending_eq a b) ∙ h)
                (ap is_more (descending_eq b c) ∙ k);
      }

module _ {A : Type 0} {first next : A → A → Comparison} (o : IsPreorder first)
    (n : IsLinear next) where
  pub then_by-IsLinear : (ascending : Bool) → IsLinear (then_by first next ascending)
  then_by-IsLinear ascending = record {
    preorder = then_by-IsPreorder o n.preorder ascending;
    antisym = λ a b h. n.antisym a b (ground (arith, h));
  }
