-- ===== src/Engine/Storage/Slots.antt =====
-- Slots and the map from keys to slots: each key of the map stands in its slot, and each entry's slot is
-- the one of its key.
use view_server_smart.Shared.{
  ℕ, ◌<◌, ◌≡◌, ◌≢◌, refl, sym, ap, ◌∙◌, inl, inr, Option, none, some, List, [], ◌∷◌, ◌++◌, arith,
  length, length-append, get_elem?, set, ite, lt-get_elem?, ◌==◌, Bool-cases, ==→≡, ==→≢,
}
use view_server_smart.Shared.KeyIndexes.{KeyIndexes, set_index}
use view_server_smart.Engine.Storage.Elements.{
  get_elem?-set-same, get_elem?-set-other, get_elem?-append-lt, get_elem?-append-last,
}

pub some-none : {A : Type 0} {a : A} → some a ≡ none → ⊥
some-none h = cc

module _ {K R : Type 0} where
  pub key_in : K → Option (K × R) → K
  key_in k none = k
  key_in k (some e) = e.0

  -- Entries at one slot have one key.
  pub same_entry_key : (o : Option (K × R)) (d e : K × R) → o ≡ some d → o ≡ some e → d.0 ≡ e.0
  unfolding key_in
  same_entry_key o d e p q = ap (key_in d.0) (sym p ∙ q)

module _ {K R : Type 0} where
  pub record IsIndexed (m : KeyIndexes K) (slots : List (K × R)) : Type 0 where
    pub sound : (k : K) (i : ℕ) → m k ≡ some i → (r : R) × (get_elem? slots i ≡ some (k, r))
    pub complete : (i : ℕ) (k : K) (r : R) → get_elem? slots i ≡ some (k, r) → m k ≡ some i

module _ {K R : Type 0} (dec : Discrete K) (m : KeyIndexes K) (slots : List (K × R))
    (x : IsIndexed m slots) where
  pub append-IsIndexed :
      (key : K) (row : R)
      → m key ≡ none
      → IsIndexed (set_index dec m key (length slots)) (slots ++ (key, row) ∷ [])
  append-IsIndexed key row new = record {
    sound = λ k i h. sound k i (dec k key) h;
    complete = λ i k r h. complete i k r (dec k key) h;
  }
    where
      sound :
          (k : K) (i : ℕ) (d : Dec (k ≡ key))
          → ite d (some (length slots)) (m k) ≡ some i
          → (r : R) × (get_elem? (slots ++ (key, row) ∷ []) i ≡ some (k, r))
      sound k i (yes e) h =
          let at : length slots ≡ i = ground (arith, h) in
          (row, rw (sym at, e) (get_elem?-append-last slots (key, row)))
      sound k i (no n) h =
          let (r, at) = x.sound k i h in
          (r, get_elem?-append-lt slots (key, row) i (lt-get_elem? slots i (k, r) at) ∙ at)

      complete :
          (i : ℕ) (k : K) (r : R) (d : Dec (k ≡ key))
          → get_elem? (slots ++ (key, row) ∷ []) i ≡ some (k, r)
          → ite d (some (length slots)) (m k) ≡ some i
      complete i k r d h = elim (Bool-cases (i == length slots)) [
        | inl e ↦
            let last : i ≡ length slots = ==→≡ _ _ e in
            let entry : some (key, row) ≡ some (k, r) =
              sym (get_elem?-append-last slots (key, row)) ∙ rw last at h in
            here d (same_entry_key (some (key, row)) (key, row) (k, r) refl entry) (sym last)
        | inr e ↦
            let other : i ≢ length slots = ==→≢ _ _ e in
            let inside : i < length slots = omega (
              arith,
              lt-get_elem? (slots ++ (key, row) ∷ []) i (k, r) h,
              length-append slots ((key, row) ∷ []),
              other,
            ) in
            there d (x.complete i k r (sym (get_elem?-append-lt slots (key, row) i inside) ∙ h))
      ]
        where
          here :
              (d : Dec (k ≡ key))
              → key ≡ k
              → length slots ≡ i
              → ite d (some (length slots)) (m k) ≡ some i
          here (yes e) same last = ap some last
          here (no n) same last = absurd (n (sym same))

          there : (d : Dec (k ≡ key)) → m k ≡ some i → ite d (some (length slots)) (m k) ≡ some i
          there (yes e) at = absurd (some-none (sym at ∙ ap m e ∙ new))
          there (no n) at = at

  pub replace-IsIndexed :
      (key : K) (row old : R) (slot : ℕ)
      → get_elem? slots slot ≡ some (key, old)
      → IsIndexed m (set slots slot (key, row))
  replace-IsIndexed key row old slot at = record {
    sound = λ k i h.
        let (r, there) = x.sound k i h in
        elim (Bool-cases (i == slot)) [
          | inl e ↦
              let here : i ≡ slot = ==→≡ _ _ e in
              let same : key ≡ k =
                same_entry_key (get_elem? slots slot) (key, old) (k, r) at (rw here at there) in
              (
                row,
                rw (here, sym same)
                    (get_elem?-set-same slots slot (key, row)
                      (lt-get_elem? slots slot (key, old) at)),
              )
          | inr e ↦
              let apart : slot ≢ i = λ q. ==→≢ _ _ e (sym q) in
              (r, get_elem?-set-other slots slot i (key, row) apart ∙ there)
        ];
    complete = λ i k r h. elim (Bool-cases (i == slot)) [
      | inl e ↦
          let here : i ≡ slot = ==→≡ _ _ e in
          let written =
            get_elem?-set-same slots slot (key, row) (lt-get_elem? slots slot (key, old) at) in
          let same : key ≡ k =
            same_entry_key (get_elem? (set slots slot (key, row)) slot) (key, row) (k, r) written
              (rw here at h) in
          rw (sym same, here) (x.complete slot key old at)
      | inr e ↦
          let apart : slot ≢ i = λ q. ==→≢ _ _ e (sym q) in
          x.complete i k r (sym (get_elem?-set-other slots slot i (key, row) apart) ∙ h)
    ];
  }

  -- One key has one slot.
  pub one_slot :
      (i j : ℕ) (k : K) (r s : R)
      → get_elem? slots i ≡ some (k, r)
      → get_elem? slots j ≡ some (k, s)
      → i ≡ j
  one_slot i j k r s p q =
      let same : some i ≡ some j = sym (x.complete i k r p) ∙ x.complete j k s q in
      ground (arith, same)
