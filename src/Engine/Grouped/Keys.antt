-- ===== src/Engine/Grouped/Keys.antt =====
-- Groups known by their keys: the comparisons of entries and of finalized rows agree, and are linear.
use view_server_smart.Shared.{◌≡◌, refl, sym, ap, ◌∙◌, List, [], ◌∷◌, All}
use view_server_smart.Shared.Order.{Comparison, directed, IsPreorder, IsLinear}
use view_server_smart.Shared.Order.Lexicographic.{then_by-IsLinear}
use view_server_smart.Engine.Grouped.{
  CompiledGroupedOrderBy, compare_row_values, compare_order_values, group_order_values,
}

module _ {G V K R : Type 0} (key_of : G → K) (finalize_row : G → R)
    (compare_values : V → V → Comparison) (compare_keys : K → K → Comparison) where
  -- An order reads of a finalized row what it reads of the group.
  abbrev pub ReadsRows : CompiledGroupedOrderBy G V K R → Type 0
  ReadsRows order =
      (group : G) → order.row_value (key_of group, finalize_row group) ≡ order.group_value group

  module _ (group_of : K → G) (keyed : (key : K) → key_of (group_of key) ≡ key) where
    abbrev pub compare_groups : List (CompiledGroupedOrderBy G V K R) → K → K → Comparison
    compare_groups [] a b = compare_keys (key_of (group_of a)) (key_of (group_of b))
    compare_groups (order ∷ orders) a b =
        let next = compare_groups orders a b in
        directed order.ascending
          (compare_values (order.group_value (group_of a)) (order.group_value (group_of b))) next

    module _ (v : IsPreorder compare_values) (k : IsLinear compare_keys) where
      pub compare_groups-IsLinear :
          (orders : List (CompiledGroupedOrderBy G V K R)) → IsLinear (compare_groups orders)
      compare_groups-IsLinear [] = record {
        preorder = record {
          swap = λ a b. k.preorder.swap (key_of (group_of a)) (key_of (group_of b));
          trans = λ a b c h l.
              k.preorder.trans (key_of (group_of a)) (key_of (group_of b)) (key_of (group_of c)) h
                l;
        };
        antisym = λ a b h.
            sym (keyed a) ∙ k.antisym (key_of (group_of a)) (key_of (group_of b)) h ∙ keyed b;
      }
      compare_groups-IsLinear (order ∷ orders) =
          let by_value : IsPreorder (λ (a b : K).
            compare_values (order.group_value (group_of a)) (order.group_value (group_of b))) =
            record {
              swap =
                  λ a b. v.swap (order.group_value (group_of a)) (order.group_value (group_of b));
              trans = λ a b c h l.
                  v.trans (order.group_value (group_of a)) (order.group_value (group_of b))
                    (order.group_value (group_of c)) h l;
            } in
          then_by-IsLinear by_value (compare_groups-IsLinear orders) order.ascending

    pub compare_order_values-groups :
        (orders all : List (CompiledGroupedOrderBy G V K R)) (a b : K)
        → compare_order_values key_of finalize_row compare_values compare_keys all orders
            (group_order_values key_of finalize_row compare_values compare_keys all orders
              (group_of a))
            (group_order_values key_of finalize_row compare_values compare_keys all orders
              (group_of b))
            (compare_keys (key_of (group_of a)) (key_of (group_of b)))
          ≡ compare_groups orders a b
    compare_order_values-groups [] all a b = refl
    compare_order_values-groups (order ∷ orders) all a b =
        ap
          (directed order.ascending
            (compare_values (order.group_value (group_of a)) (order.group_value (group_of b))))
          (compare_order_values-groups orders all a b)

    pub compare_row_values-groups :
        (orders all : List (CompiledGroupedOrderBy G V K R)) (a b : K)
        → All ReadsRows orders
        → compare_row_values key_of finalize_row compare_values compare_keys all orders
            (key_of (group_of a), finalize_row (group_of a))
            (key_of (group_of b), finalize_row (group_of b))
          ≡ compare_groups orders a b
    compare_row_values-groups [] all a b h = refl
    compare_row_values-groups (order ∷ orders) all a b h =
        rw (h.0 (group_of a), h.0 (group_of b), compare_row_values-groups orders all a b h.1) refl
