-- ===== src/Tests/Index.antt =====
-- An index of slots by a column of remainders, downwards.
use view_server_smart.Shared.{ℕ, ◌+◌, ◌%◌, false, List, [], ◌∷◌}
use view_server_smart.Shared.Order.{compare_numbers, compare_numbers-IsLinear, IsPreorder}
use view_server_smart.Engine.Scan.{upto}
use view_server_smart.Engine.Index.{
  RawStorageOrderColumn, sorted_slots, IndexStep, slot_inserted, slot_removed,
}
use view_server_smart.Engine.Index.Kept.{
  IsIndexOf, index_after, members_after, index_after-IsIndexOf, sorted_slots-IsIndexOf,
}

abbrev remainder : ℕ → ℕ
remainder slot = (slot + 2) % 3

abbrev by_remainder : RawStorageOrderColumn
by_remainder = record {
  compare_column_slots = λ left right. compare_numbers (remainder left) (remainder right);
  ascending = false;
}

abbrev key_at : ℕ → ℕ
key_at slot = slot

by_remainder-IsPreorder : IsPreorder by_remainder.compare_column_slots
by_remainder-IsPreorder =
    let o = compare_numbers-IsLinear.preorder in
    record {
      swap = λ a b. o.swap (remainder a) (remainder b);
      trans = λ a b c h k. o.trans (remainder a) (remainder b) (remainder c) h k;
    }

abbrev three_steps : List IndexStep
three_steps = slot_inserted 5 ∷ slot_removed 2 ∷ slot_removed 7 ∷ []

index_after-IsIndexOf_example :
    IsIndexOf compare_numbers-IsLinear.preorder key_at
      (by_remainder ∷ [])
      (by_remainder-IsPreorder, tt)
      (index_after compare_numbers-IsLinear.preorder key_at
        (by_remainder ∷ [])
        (by_remainder-IsPreorder, tt)
        (sorted_slots compare_numbers key_at (by_remainder ∷ []) 5)
        three_steps)
      (members_after (upto 5) three_steps)
index_after-IsIndexOf_example =
    index_after-IsIndexOf compare_numbers-IsLinear.preorder key_at (by_remainder ∷ [])
      (by_remainder-IsPreorder, tt) three_steps
      (sorted_slots compare_numbers key_at (by_remainder ∷ []) 5) (upto 5)
      (sorted_slots-IsIndexOf compare_numbers-IsLinear.preorder key_at (by_remainder ∷ [])
        (by_remainder-IsPreorder, tt) 5)
