-- ===== src/Engine/Aggregates/Members.antt =====
-- The members of a group, and the maps that count their values.
use view_server_smart.Shared.{
  ℕ, ◌+◌, ◌<◌, ◌≡◌, ◌≢◌, refl, sym, ◌∙◌, Option, none, some, List, [], ◌∷◌, ite, arith,
}
use view_server_smart.Shared.Assoc.{
  get_entry, set_entry, delete_entry, HasUniqueKeys, get_set_same, get_set_other, get_delete_same,
  get_delete_other, set-HasUniqueKeys, delete-HasUniqueKeys,
}

-- `ys` is `xs` without one `v`.
pub data Removes {V : Type 0} (v : V) : List V → List V → Type 0 where
  here : {xs : List V} → Removes v (v ∷ xs) xs
  there : {x : V} {xs ys : List V} → Removes v xs ys → Removes v (x ∷ xs) (x ∷ ys)

module _ {V S : Type 0} (dec : Discrete S) (stable_string : V → S) where
  abbrev pub occurs : S → V → ℕ
  occurs key v = ite (dec (stable_string v) key) 1 0

  abbrev pub occurrences : S → List V → ℕ
  occurrences key [] = 0
  occurrences key (x ∷ xs) = occurs key x + occurrences key xs

  pub occurrences-Removes :
      (key : S) (v : V) (xs ys : List V)
      → Removes v xs ys
      → occurrences key xs ≡ occurs key v + occurrences key ys
  occurrences-Removes key v xs ys here = refl
  occurrences-Removes key v (x ∷ xs) (y ∷ ys) (there r) =
      omega (arith, occurrences-Removes key v xs ys r)

  module _ {A : Type 0} (weight : A → ℕ) where
    abbrev pub weight_at : Option A → ℕ
    weight_at none = 0
    weight_at (some a) = weight a

    -- The map has an entry for every value that occurs, with how often it does, and no others.
    pub record Tracks (m : List (S × A)) (xs : List V) : Type 0 where
      pub unique : HasUniqueKeys dec m
      pub counts : (key : S) → weight_at (get_entry dec key m) ≡ occurrences key xs
      pub positive : (key : S) (a : A) → get_entry dec key m ≡ some a → 0 < weight a

    pub set-Tracks :
        (m : List (S × A)) (xs ys : List V) (s : S) (a : A)
        → Tracks m xs
        → 0 < weight a
        → weight a ≡ occurrences s ys
        → ((key : S) → s ≢ key → occurrences key ys ≡ occurrences key xs)
        → Tracks (set_entry dec s a m) ys
    set-Tracks m xs ys s a t p same_count others = record {
      unique = set-HasUniqueKeys dec s a m t.unique;
      counts = λ key. elim (dec s key) [
        | yes e ↦ rw (sym e, get_set_same dec s a m) same_count
        | no n ↦ rw (get_set_other dec s key a m n) (t.counts key ∙ sym (others key n))
      ];
      positive = λ key b h. elim (dec s key) [
        | yes e ↦
            let at_s : get_entry dec s (set_entry dec s a m) ≡ some b = rw (sym e) at h in
            let same : some a ≡ some b = sym (get_set_same dec s a m) ∙ at_s in
            let ab : a ≡ b = cc same in rw ab at p
        | no n ↦ t.positive key b (sym (get_set_other dec s key a m n) ∙ h)
      ];
    }

    pub delete-Tracks :
        (m : List (S × A)) (xs ys : List V) (s : S)
        → Tracks m xs
        → occurrences s ys ≡ 0
        → ((key : S) → s ≢ key → occurrences key ys ≡ occurrences key xs)
        → Tracks (delete_entry dec s m) ys
    delete-Tracks m xs ys s t gone others = record {
      unique = delete-HasUniqueKeys dec s m t.unique;
      counts = λ key. elim (dec s key) [
        | yes e ↦ rw (sym e, get_delete_same dec s m t.unique) (sym gone)
        | no n ↦ rw (get_delete_other dec s key m n) (t.counts key ∙ sym (others key n))
      ];
      positive = λ key b h. elim (dec s key) [
        | yes e ↦
            let at_s : get_entry dec s (delete_entry dec s m) ≡ some b = rw (sym e) at h in
            absurd (cc (at_s, get_delete_same dec s m t.unique))
        | no n ↦ t.positive key b (sym (get_delete_other dec s key m n) ∙ h)
      ];
    }
