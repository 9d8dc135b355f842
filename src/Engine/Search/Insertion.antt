-- ===== src/Engine/Search/Insertion.antt =====
-- Where a slot goes in an ordered index: the search and the splice insert as a sort does.
use view_server_smart.Shared.{
  ℕ, zero, suc, ◌≤◌, ◌<◌, ◌≡◌, refl, ap, subst, true, false, some, List, [], ◌∷◌, length, get_elem?,
  arith, All, not, get_elem?-lt,
}
use view_server_smart.Shared.Splice.{splice_in}
use view_server_smart.Shared.Order.{Comparison, is_more, AtMost, IsPreorder}
use view_server_smart.Shared.Order.Sorting.{insert_sorted, IsSorted}
use view_server_smart.Engine.Search.{not_above, ordered_slot_index_insertion_point}
use view_server_smart.Engine.Search.Loop.{Turns, search_loop-Turns}

pub All-get_elem? :
    {A : Type 0} (P : A → Type 0) (xs : List A) (i : ℕ) (x : A)
    → All P xs
    → get_elem? xs i ≡ some x
    → P x
All-get_elem? P [] i x all h = cc h
All-get_elem? P (y ∷ ys) zero x all h = let e : y ≡ x = cc h in subst P e all.0
All-get_elem? P (y ∷ ys) (suc i) x all h = All-get_elem? P ys i x all.1 h

module _ {A : Type 0} (compare : A → A → Comparison) (x : A) where
  splice_in-insert_sorted :
      (slots : List A) (r : ℕ)
      → Turns (not_above compare slots x) (length slots) r
      → splice_in slots r x ≡ insert_sorted compare x slots
  unfolding insert_sorted
  splice_in-insert_sorted [] r t = refl
  splice_in-insert_sorted (y ∷ ys) zero t =
      let e : is_more (compare y x) ≡ true =
        ground (arith, t.above 0 (omega arith) (omega arith)) in
      rw (e, insert_sorted) refl
  splice_in-insert_sorted (y ∷ ys) (suc r) t =
      let e : is_more (compare y x) ≡ false = ground (arith, t.below 0 (omega arith)) in
      let rest = splice_in-insert_sorted ys r (record {
        within = omega (arith, t.within);
        below = λ i h. t.below (suc i) (omega (arith, h));
        above = λ i h k. t.above (suc i) (omega (arith, h)) (omega (arith, k));
      }) in
      rw (e, insert_sorted) (ap (λ (ys : List A). y ∷ ys) rest)

module _ {A : Type 0} {compare : A → A → Comparison} (o : IsPreorder compare) (x : A) where
  not_above-downward :
      (slots : List A) (i j : ℕ)
      → IsSorted compare slots
      → i ≤ j
      → j < length slots
      → not_above compare slots x j ≡ true
      → not_above compare slots x i ≡ true
  not_above-downward [] i j s h k n = absurd (omega arith)
  not_above-downward (y ∷ ys) zero zero s h k n = n
  not_above-downward (y ∷ ys) zero (suc j) s h k n =
      let (z, at) = get_elem?-lt ys j (omega (arith, k)) in
      let y_z = All-get_elem? (AtMost compare y) ys j z s.0 at in
      let n : not (is_more (compare z x)) ≡ true = rw (at, not_above) at n in
      let z_x : AtMost compare z x = ground (arith, n) in
      let y_x = o.trans y z x y_z z_x in rw y_x refl
  not_above-downward (y ∷ ys) (suc i) zero s h k n = absurd (omega arith)
  not_above-downward (y ∷ ys) (suc i) (suc j) s h k n =
      not_above-downward ys i j s.1 (omega (arith, h)) (omega (arith, k)) n

  -- Let the comparator be total and transitive and the index be sorted. Splicing a slot in at the insertion point
  -- puts it behind the slots that are not above it and before the others, as a stable sort does.
  pub insertion_point-insert_sorted :
      (slots : List A)
      → IsSorted compare slots
      → splice_in slots (ordered_slot_index_insertion_point slots x compare) x
        ≡ insert_sorted compare x slots
  unfolding ordered_slot_index_insertion_point
  insertion_point-insert_sorted slots s = splice_in-insert_sorted compare x slots _ (
      search_loop-Turns (not_above compare slots x) (length slots)
        (λ i j h k n. not_above-downward slots i j s h k n) (length slots) 0 (length slots)
        (omega arith) (omega arith) (omega arith) (λ i h. absurd (omega (arith, h)))
        (λ i h k. absurd (omega (arith, h, k))))
