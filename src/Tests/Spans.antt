-- ===== src/Tests/Spans.antt =====
-- Four slots in the order of their doubled numbers, of which a range selects two.
use view_server_smart.Shared.{ℕ, ◌*◌, ◌≡◌, refl, true, false, some, List, [], ◌∷◌}
use view_server_smart.Shared.Order.{compare_numbers, compare_numbers-IsLinear}
use view_server_smart.Engine.Ranges.{OrderedRangeBounds, equality_value_satisfies_range_bounds}
use view_server_smart.Engine.Scan.{filter, span_slots}
use view_server_smart.Engine.Spans.{ordered_slot_index_bounds}
use view_server_smart.Engine.Spans.Selected.{ordered_slot_index_bounds-satisfies}

abbrev doubled : ℕ → ℕ
doubled slot = slot * 2

abbrev two_to_six : OrderedRangeBounds ℕ
two_to_six = record {
  lower = some (record { exclusive = false; value = 2 });
  upper = some (record { exclusive = true; value = 6 });
}

abbrev four_slots : List ℕ
four_slots = 0 ∷ 1 ∷ 2 ∷ 3 ∷ []

ordered_slot_index_bounds-satisfies_example :
    filter
      (λ slot. equality_value_satisfies_range_bounds compare_numbers (doubled slot) two_to_six)
      four_slots
    ≡ span_slots four_slots
        (ordered_slot_index_bounds compare_numbers doubled four_slots true two_to_six)
ordered_slot_index_bounds-satisfies_example =
    ordered_slot_index_bounds-satisfies compare_numbers-IsLinear.preorder doubled four_slots true
      two_to_six ((refl, (refl, (refl, tt))), ((refl, (refl, tt)), ((refl, tt), (tt, tt))))
