-- ===== src/Engine/Aggregates/Reversible.antt =====
-- An aggregate's state tells of the members of the group: after additions and removals in any order.
use view_server_smart.Shared.{ℕ, suc, ◌+◌, ◌<◌, ◌≡◌, ◌≢◌, refl, ap, none, List, ◌∷◌, arith, length}
use view_server_smart.Shared.Assoc.{get_entry, set_entry, delete_entry}
use view_server_smart.Engine.Aggregates.Members.{
  Removes, here, there, occurs, occurrences-Removes, Tracks, set-Tracks, delete-Tracks, weight_at,
}

module _ {V S : Type 0} (dec : Discrete S) (stable_string : V → S) where
  occurs_self : (v : V) → occurs dec stable_string (stable_string v) v ≡ 1
  occurs_self v = ground arith

  occurs_other : (v : V) (key : S) → stable_string v ≢ key → occurs dec stable_string key v ≡ 0
  occurs_other v key n = ground (arith, n)

  module _ {A : Type 0} (weight : A → ℕ) where
    pub add-Tracks :
        (m : List (S × A)) (xs : List V) (v : V) (a : A)
        → Tracks dec stable_string weight m xs
        → weight a ≡ weight_at dec stable_string weight (get_entry dec (stable_string v) m) + 1
        → Tracks dec stable_string weight (set_entry dec (stable_string v) a m) (v ∷ xs)
    add-Tracks m xs v a t w =
        set-Tracks dec stable_string weight m xs (v ∷ xs) (stable_string v) a t (omega (arith, w))
          (omega (arith, w, t.counts (stable_string v), occurs_self v))
          (λ key n. omega (arith, occurs_other v key n))

    module _ (m : List (S × A)) (xs ys : List V) (v : V) (r : Removes v xs ys)
        (t : Tracks dec stable_string weight m xs) where
      pub lower-Tracks :
          (a : A)
          → 0 < weight a
          → weight_at dec stable_string weight (get_entry dec (stable_string v) m) ≡ weight a + 1
          → Tracks dec stable_string weight (set_entry dec (stable_string v) a m) ys
      lower-Tracks a p w =
          set-Tracks dec stable_string weight m xs ys (stable_string v) a t p
            (omega (
              arith,
              w,
              t.counts (stable_string v),
              occurs_self v,
              occurrences-Removes dec stable_string (stable_string v) v xs ys r,
            ))
            (λ key n.
              omega
                (arith, occurs_other v key n, occurrences-Removes dec stable_string key v xs ys r))

      pub drop-Tracks :
          weight_at dec stable_string weight (get_entry dec (stable_string v) m) ≡ 1
          → Tracks dec stable_string weight (delete_entry dec (stable_string v) m) ys
      drop-Tracks w =
          delete-Tracks dec stable_string weight m xs ys (stable_string v) t
            (omega (
              arith,
              w,
              t.counts (stable_string v),
              occurs_self v,
              occurrences-Removes dec stable_string (stable_string v) v xs ys r,
            ))
            (λ key n.
              omega
                (arith, occurs_other v key n, occurrences-Removes dec stable_string key v xs ys r))

      -- What is removed has an entry.
      pub present : get_entry dec (stable_string v) m ≢ none
      present e =
          let zero_weight : weight_at dec stable_string weight (get_entry dec (stable_string v) m)
              ≡ 0 =
            rw e refl in
          omega (
            arith,
            zero_weight,
            t.counts (stable_string v),
            occurs_self v,
            occurrences-Removes dec stable_string (stable_string v) v xs ys r,
          )

pub length-Removes :
    {V : Type 0} (v : V) (xs ys : List V) → Removes v xs ys → length xs ≡ suc (length ys)
length-Removes v xs ys here = refl
length-Removes v (x ∷ xs) (y ∷ ys) (there r) = ap suc (length-Removes v xs ys r)
