-- ===== src/Engine/Storage/Swap.antt =====
-- The map from keys to slots when the last slot is popped, its entry moved before or not.
use view_server_smart.Shared.{
  ℕ, ◌+◌, ◌-◌, ◌<◌, ◌≡◌, ◌≢◌, sym, ap, ◌∙◌, inl, inr, none, some, List, arith, length, length-set,
  get_elem?, set, ite, lt-get_elem?, ◌==◌, Bool-cases, ==→≡, ==→≢,
}
use view_server_smart.Shared.KeyIndexes.{KeyIndexes, set_index, delete_index}
use view_server_smart.Engine.Storage.{pop}
use view_server_smart.Engine.Storage.Elements.{
  get_elem?-set-same, get_elem?-set-other, get_elem?-pop, length-pop,
}
use view_server_smart.Engine.Storage.Slots.{IsIndexed, one_slot, some-none, same_entry_key}

module _ {K R : Type 0} (dec : Discrete K) (m : KeyIndexes K) (slots : List (K × R))
    (x : IsIndexed m slots) where
  pub pop-IsIndexed :
      (key : K) (row : R)
      → get_elem? slots (length slots - 1) ≡ some (key, row)
      → IsIndexed (delete_index dec m key) (pop slots)
  pop-IsIndexed key row at = record {
    sound = λ k i h. sound k i (dec k key) h;
    complete = λ i k r h. complete i k r (dec k key) (inside i (k, r) h);
  }
    where
      inside :
          (i : ℕ) (e : K × R)
          → get_elem? (pop slots) i ≡ some e
          → (i + 1 < length slots) × (get_elem? slots i ≡ some e)
      inside i e h =
          let lt : i + 1 < length slots =
            omega (arith, lt-get_elem? (pop slots) i e h, length-pop slots) in
          (lt, sym (get_elem?-pop slots i lt) ∙ h)

      sound :
          (k : K) (i : ℕ) (d : Dec (k ≡ key))
          → ite d none (m k) ≡ some i
          → (r : R) × (get_elem? (pop slots) i ≡ some (k, r))
      sound k i (yes e) h = absurd (some-none (sym h))
      sound k i (no n) h =
          let (r, there) = x.sound k i h in
          let bound = lt-get_elem? slots i (k, r) there in
          elim (Bool-cases (i == length slots - 1)) [
            | inl e ↦
                let last : i ≡ length slots - 1 = ==→≡ _ _ e in
                absurd (n (same_entry_key (get_elem? slots i) (k, r) (key, row) there (rw last at)))
            | inr e ↦
                let apart : i ≢ length slots - 1 = ==→≢ _ _ e in
                (r, get_elem?-pop slots i (omega (arith, bound, apart)) ∙ there)
          ]

      complete :
          (i : ℕ) (k : K) (r : R) (d : Dec (k ≡ key))
          → (i + 1 < length slots) × (get_elem? slots i ≡ some (k, r))
          → ite d none (m k) ≡ some i
      complete i k r (yes e) h =
          let last = one_slot dec m slots x i (length slots - 1) k r row h.1 (rw e at) in
          absurd (omega (arith, h.0, last))
      complete i k r (no n) h = x.complete i k r h.1

  pub swap-IsIndexed :
      (key last_key : K) (row last_row : R) (slot : ℕ)
      → get_elem? slots slot ≡ some (key, row)
      → get_elem? slots (length slots - 1) ≡ some (last_key, last_row)
      → slot ≢ length slots - 1
      → IsIndexed
          (set_index dec (delete_index dec m key) last_key slot)
          (pop (set slots slot (last_key, last_row)))
  swap-IsIndexed key last_key row last_row slot at at_last apart = record {
    sound = λ k i h. sound k i (dec k last_key) (dec k key) h;
    complete = λ i k r h. complete i k r (dec k last_key) (dec k key) (inside i (k, r) h);
  }
    where
      size : length (set slots slot (last_key, last_row)) ≡ length slots
      size = length-set slots slot (last_key, last_row)

      bound : slot + 1 < length slots
      bound = omega (arith, lt-get_elem? slots slot (key, row) at, apart)

      inside :
          (i : ℕ) (e : K × R)
          → get_elem? (pop (set slots slot (last_key, last_row))) i ≡ some e
          → (i + 1 < length slots) × (get_elem? (set slots slot (last_key, last_row)) i ≡ some e)
      inside i e h =
          let lt : i + 1 < length slots = omega (
            arith,
            lt-get_elem? (pop (set slots slot (last_key, last_row))) i e h,
            length-pop (set slots slot (last_key, last_row)),
            size,
          ) in
          (
            lt,
            sym (get_elem?-pop (set slots slot (last_key, last_row)) i (omega (arith, lt, size)))
                ∙ h,
          )

      popped :
          (i : ℕ)
          → i + 1 < length slots
          → get_elem? (pop (set slots slot (last_key, last_row))) i
            ≡ get_elem? (set slots slot (last_key, last_row)) i
      popped i lt = get_elem?-pop (set slots slot (last_key, last_row)) i (omega (arith, lt, size))

      sound :
          (k : K) (i : ℕ) (d : Dec (k ≡ last_key)) (e : Dec (k ≡ key))
          → ite d (some slot) (ite e none (m k)) ≡ some i
          → (r : R) × (get_elem? (pop (set slots slot (last_key, last_row))) i ≡ some (k, r))
      sound k i (yes p) e h =
          let here : slot ≡ i = ground (arith, h) in
          (
            last_row,
            rw (sym here, p)
                (popped slot bound
                  ∙ get_elem?-set-same slots slot (last_key, last_row) (omega (arith, bound))),
          )
      sound k i (no n) (yes q) h = absurd (some-none (sym h))
      sound k i (no n) (no q) h =
          let (r, there) = x.sound k i h in
          let within = lt-get_elem? slots i (k, r) there in
          let not_last : i ≢ length slots - 1 = λ z.
            n (
              same_entry_key (get_elem? slots i) (k, r) (last_key, last_row) there
                (rw z at_last)) in
          let not_slot : slot ≢ i =
            λ z. q (same_entry_key (get_elem? slots i) (k, r) (key, row) there (rw (sym z) at)) in
          (
            r,
            popped i (omega (arith, within, not_last))
                ∙ get_elem?-set-other slots slot i (last_key, last_row) not_slot
                ∙ there,
          )

      taken :
          (i : ℕ) (k : K) (d : Dec (k ≡ last_key)) (e : Dec (k ≡ key))
          → i ≡ slot
          → last_key ≡ k
          → ite d (some slot) (ite e none (m k)) ≡ some i
      taken i k (yes p) e here same = ap some (sym here)
      taken i k (no n) e here same = absurd (n (sym same))

      untouched :
          (i : ℕ) (k : K) (r : R) (d : Dec (k ≡ last_key)) (e : Dec (k ≡ key))
          → i + 1 < length slots
          → slot ≢ i
          → get_elem? slots i ≡ some (k, r)
          → ite d (some slot) (ite e none (m k)) ≡ some i
      untouched i k r (yes p) e lt other h =
          let last = one_slot dec m slots x i (length slots - 1) k r last_row h (rw p at_last) in
          absurd (omega (arith, lt, last))
      untouched i k r (no n) (yes q) lt other h =
          absurd (other (one_slot dec m slots x slot i k row r (rw q at) h))
      untouched i k r (no n) (no q) lt other h = x.complete i k r h

      complete :
          (i : ℕ) (k : K) (r : R) (d : Dec (k ≡ last_key)) (e : Dec (k ≡ key))
          → (i + 1 < length slots)
            × (get_elem? (set slots slot (last_key, last_row)) i ≡ some (k, r))
          → ite d (some slot) (ite e none (m k)) ≡ some i
      complete i k r d e h = elim (Bool-cases (i == slot)) [
        | inl z ↦
            let here : i ≡ slot = ==→≡ _ _ z in
            let written =
              get_elem?-set-same slots slot (last_key, last_row) (omega (arith, bound)) in
            taken i k d e here (
              same_entry_key (get_elem? (set slots slot (last_key, last_row)) slot)
                (last_key, last_row) (k, r) written (rw here at h.1))
        | inr z ↦
            let other : slot ≢ i = λ w. ==→≢ _ _ z (sym w) in
            untouched i k r d e h.0 other
              (sym (get_elem?-set-other slots slot i (last_key, last_row) other) ∙ h.1)
      ]
