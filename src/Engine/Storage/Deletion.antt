-- ===== src/Engine/Storage/Deletion.antt =====
-- Deleting a row (`delete` of packages/column-live-view-engine/src/topic-row-storage.ts): the last
-- entry takes the place of the deleted one.
use view_server_smart.Shared.{
  ℕ, ◌-◌, ◌≡◌, ◌≢◌, refl, sym, ap, ◌∙◌, inl, inr, Option, none, some, arith, length, length-set,
  get_elem?, set, lt-get_elem?, get_elem?-lt, ◌==◌, Bool-cases, Option-cases, ==→≡, ==→≢,
}
use view_server_smart.Shared.KeyIndexes.{set_index, delete_index}
use view_server_smart.Engine.Storage.{
  RowStorage, pop, row_for_key, record_row_change, swap_last, delete_row,
}
use view_server_smart.Engine.Storage.Elements.{
  get_elem?-set-same, get_elem?-set-other, get_elem?-pop,
}
use view_server_smart.Engine.Storage.Swap.{pop-IsIndexed, swap-IsIndexed}
use view_server_smart.Engine.Storage.Slots.{same_entry_key, some-none, one_slot}
use view_server_smart.Engine.Storage.Rows.{
  IsStored, IsUpdated, row_for_key-none, row_for_key-some, row_for_key-kept, updated, other_key,
  deleted_key, key_deleted,
}

module _ {R : Type 0} where
  abbrev pub number_deleted : Option R → ℕ
  number_deleted none = 0
  number_deleted (some row) = 1

module _ {K R F : Type 0} (dec : Discrete K) where
  pop-IsUpdated :
      (key : K) (row : R) (storage after : RowStorage K R F)
      → IsStored storage
      → get_elem? storage.slots (length storage.slots - 1) ≡ some (key, row)
      → after.key_to_slot ≡ delete_index dec storage.key_to_slot key
      → after.slots ≡ pop storage.slots
      → IsUpdated dec storage key none after
  pop-IsUpdated key row storage after x at keys slots =
      let y : IsStored after =
        rw (keys, slots) (pop-IsIndexed dec storage.key_to_slot storage.slots x key row at) in
      updated dec storage after key none y
        (row_for_key-none after key (rw keys (key_deleted dec storage.key_to_slot key)))
        (λ k n.
          row_for_key-kept storage after k x y
            (λ h. rw keys (deleted_key dec storage.key_to_slot key k h))
            (λ i r there.
              let not_last : i ≢ length storage.slots - 1 = λ z.
                n (same_entry_key (get_elem? storage.slots i) (k, r) (key, row) there (rw z at)) in
              (
                i,
                rw slots (
                    get_elem?-pop storage.slots i
                      (omega (arith, not_last, lt-get_elem? storage.slots i (k, r) there))
                    ∙ there),
              )))

  module _ (key last_key : K) (row last_row : R) (storage : RowStorage K R F) (slot : ℕ)
      (x : IsStored storage) (at : get_elem? storage.slots slot ≡ some (key, row))
      (at_last : get_elem? storage.slots (length storage.slots - 1) ≡ some (last_key, last_row))
      (apart : slot ≢ length storage.slots - 1) where
    -- Every entry but the deleted one is still there.
    swapped_entry :
        (k : K)
        → k ≢ key
        → (i : ℕ) (r : R) → get_elem? storage.slots i ≡ some (k, r)
        → (j : ℕ) × (get_elem? (pop (set storage.slots slot (last_key, last_row))) j ≡ some (k, r))
    swapped_entry k n i r there =
        let moved = set storage.slots slot (last_key, last_row) in
        let size = length-set storage.slots slot (last_key, last_row) in
        let within = lt-get_elem? storage.slots slot (key, row) at in
        elim (Bool-cases (i == length storage.slots - 1)) [
          | inl e ↦
              let last : i ≡ length storage.slots - 1 = ==→≡ _ _ e in
              let entry : some (last_key, last_row) ≡ some (k, r) =
                sym at_last ∙ rw last at there in
              (
                slot,
                get_elem?-pop moved slot (omega (arith, size, within, apart))
                    ∙ get_elem?-set-same storage.slots slot (last_key, last_row) within
                    ∙ entry,
              )
          | inr e ↦
              let not_last : i ≢ length storage.slots - 1 = ==→≢ _ _ e in
              let not_slot : slot ≢ i = λ z. n (
                same_entry_key (get_elem? storage.slots i) (k, r) (key, row) there
                  (rw (sym z) at)) in
              (
                i,
                get_elem?-pop moved i
                      (omega (arith, size, not_last, lt-get_elem? storage.slots i (k, r) there))
                    ∙ get_elem?-set-other storage.slots slot i (last_key, last_row) not_slot
                    ∙ there,
              )
        ]

    swap-IsUpdated :
        (after : RowStorage K R F)
        → after.key_to_slot ≡ set_index dec (delete_index dec storage.key_to_slot key) last_key slot
        → after.slots ≡ pop (set storage.slots slot (last_key, last_row))
        → IsUpdated dec storage key none after
    swap-IsUpdated after keys slots =
        let m = storage.key_to_slot in
        let y : IsStored after =
          rw (keys, slots)
            (swap-IsIndexed dec m storage.slots x key last_key row last_row slot at at_last
              apart) in
        let not_last : key ≢ last_key = λ e. apart (
          one_slot dec m storage.slots x slot (length storage.slots - 1) key row last_row at
            (rw e at_last)) in
        let last_slot = x.complete (length storage.slots - 1) last_key last_row at_last in
        updated dec storage after key none y
          (row_for_key-none after key (
            rw keys (
              other_key dec (delete_index dec m key) last_key key slot not_last
                (key_deleted dec m key))))
          (λ k n.
            row_for_key-kept storage after k x y
              (λ h. rw keys (
                other_key dec (delete_index dec m key) last_key k slot
                  (λ e. some-none (sym last_slot ∙ ap m (sym e) ∙ h)) (deleted_key dec m key k h)))
              (λ i r there. rw slots (swapped_entry k n i r there)))

  -- On a storage whose slots and key map agree, `delete` never reads a missing slot. It returns 1 where
  -- the key has a row and 0 where it has none. Afterwards slots and map agree again, the key has no
  -- row, and every other key has the row it had.
  pub delete_row-row_for_key :
      (key : K) (storage : RowStorage K R F)
      → IsStored storage
      → (after : RowStorage K R F) × (delete_row dec key storage
          ≡ some (number_deleted (row_for_key storage key), after))
        × IsUpdated dec storage key none after
  unfolding delete_row record_row_change swap_last
  delete_row-row_for_key key storage x = elim (Option-cases (storage.key_to_slot key)) [
    | inl e ↦
        let absent = row_for_key-none storage key e in
        rw (e, absent, delete_row)
          (storage, refl, updated dec storage storage key none x absent (λ k n. refl))
    | inr (slot, e) ↦
        let (row, at) = x.sound key slot e in
        let (last, at_last) =
          get_elem?-lt storage.slots (length storage.slots - 1)
            (omega (arith, lt-get_elem? storage.slots slot (key, row) at)) in
        let present = row_for_key-some storage key slot row x at in
        elim (Bool-cases (slot == length storage.slots - 1)) [
          | inl s ↦
              let same : slot ≡ length storage.slots - 1 = ==→≡ _ _ s in
              rw (e, at_last, at, present, s, delete_row)
                (_, refl, pop-IsUpdated key row storage _ x (rw same at at) refl refl)
          | inr s ↦
              rw (e, at_last, at, present, s, delete_row)
                (
                  _,
                  refl,
                  swap-IsUpdated key last.0 row last.1 storage slot x at at_last (==→≢ _ _ s) _ refl
                      refl,
                )
        ]
  ]
