-- ===== src/Engine/Storage/Rows.antt =====
-- The storage as a finite map from keys to rows.
use view_server_smart.Shared.{
  ℕ, ◌≡◌, ◌≢◌, refl, sym, ◌∙◌, inl, inr, Bool, true, false, Option, none, some, arith, length,
  get_elem?, ite, lt-get_elem?, Bool-cases, Option-cases, if◌then◌else◌,
}
use view_server_smart.Shared.KeyIndexes.{KeyIndexes, set_index, delete_index}
use view_server_smart.Engine.Storage.{
  RowStorage, PreparedTopicRow, PreparedSource, from_row, from_patch, row_for_key,
  record_row_change, prepared_replacement, append_row, replace_row, set_prepared,
}
use view_server_smart.Engine.Storage.Elements.{
  get_elem?-set-same, get_elem?-set-other, get_elem?-append-lt, get_elem?-append-last,
}
use view_server_smart.Engine.Storage.Slots.{
  IsIndexed, append-IsIndexed, replace-IsIndexed, same_entry_key,
}

module _ {K R F : Type 0} where
  abbrev pub IsStored : RowStorage K R F → Type 0
  IsStored storage = IsIndexed storage.key_to_slot storage.slots

  pub row_for_key-none :
      (storage : RowStorage K R F) (k : K)
      → storage.key_to_slot k ≡ none
      → row_for_key storage k ≡ none
  unfolding row_for_key
  row_for_key-none storage k h = rw (h, row_for_key) refl

  pub row_for_key-some :
      (storage : RowStorage K R F) (k : K) (i : ℕ) (r : R)
      → IsStored storage
      → get_elem? storage.slots i ≡ some (k, r)
      → row_for_key storage k ≡ some r
  unfolding row_for_key
  row_for_key-some storage k i r x h = rw (x.complete i k r h, h, row_for_key) refl

  -- A key that keeps its row, wherever that has gone.
  pub row_for_key-kept :
      (before after : RowStorage K R F) (k : K)
      → IsStored before
      → IsStored after
      → (before.key_to_slot k ≡ none → after.key_to_slot k ≡ none)
      → ((i : ℕ) (r : R)
          → get_elem? before.slots i ≡ some (k, r)
          → (j : ℕ) × (get_elem? after.slots j ≡ some (k, r)))
      → row_for_key after k ≡ row_for_key before k
  row_for_key-kept before after k x y gone moved = elim (Option-cases (before.key_to_slot k)) [
    | inl e ↦ row_for_key-none after k (gone e) ∙ sym (row_for_key-none before k e)
    | inr (i, e) ↦
        let (r, at) = x.sound k i e in
        let (j, there) = moved i r at in
        row_for_key-some after k j r y there ∙ sym (row_for_key-some before k i r x at)
  ]

module _ {K R F : Type 0} (dec : Discrete K) where
  -- `after` has `row` for `key`, and for every other key what `before` has.
  abbrev pub IsUpdated : RowStorage K R F → K → Option R → RowStorage K R F → Type 0
  IsUpdated before key row after =
      IsStored after × ((k : K) → row_for_key after k ≡ ite (dec k key) row (row_for_key before k))

  pub updated :
      (before after : RowStorage K R F) (key : K) (row : Option R)
      → IsStored after
      → row_for_key after key ≡ row
      → ((k : K) → k ≢ key → row_for_key after k ≡ row_for_key before k)
      → IsUpdated before key row after
  updated before after key row y here there = (y, λ k. go k (dec k key))
    where
      go : (k : K) (d : Dec (k ≡ key)) → row_for_key after k ≡ ite d row (row_for_key before k)
      go k (yes e) = rw e here
      go k (no n) = there k n

module _ {K : Type 0} (dec : Discrete K) where
  pub other_key :
      (m : KeyIndexes K) (key k : K) (i : ℕ) → k ≢ key → m k ≡ none → set_index dec m key i k ≡ none
  other_key m key k i n h = ground (arith, n, h)

  pub deleted_key : (m : KeyIndexes K) (key k : K) → m k ≡ none → delete_index dec m key k ≡ none
  deleted_key m key k h = ground (arith, h)

  pub key_deleted : (m : KeyIndexes K) (key : K) → delete_index dec m key key ≡ none
  key_deleted m key = ground arith

module _ {K R : Type 0} (rows_equal : R → R → Bool) where
  -- The row that a key has after `setPrepared`: an equal one stays.
  abbrev pub kept_row : PreparedTopicRow K R → Option R → R
  kept_row prepared none = prepared.row
  kept_row prepared (some old) = if rows_equal old prepared.row then old else prepared.row

module _ {K R F : Type 0} (dec : Discrete K) (rows_equal : R → R → Bool)
    (changed_fields_from_rows : R → R → Option F) where
  append_row-IsUpdated :
      (prepared : PreparedTopicRow K R) (storage : RowStorage K R F)
      → IsStored storage
      → storage.key_to_slot prepared.key ≡ none
      → IsUpdated dec storage prepared.key
          (some prepared.row)
          (append_row dec rows_equal changed_fields_from_rows prepared storage)
  unfolding append_row record_row_change
  append_row-IsUpdated prepared storage x new =
      let after = append_row dec rows_equal changed_fields_from_rows prepared storage in
      let y : IsStored after =
        append-IsIndexed dec storage.key_to_slot storage.slots x prepared.key prepared.row new in
      updated dec storage after prepared.key (some prepared.row) y
        (row_for_key-some after prepared.key (length storage.slots) prepared.row y
          (get_elem?-append-last storage.slots (prepared.key, prepared.row)))
        (λ k n.
          row_for_key-kept storage after k x y
            (other_key dec storage.key_to_slot prepared.key k (length storage.slots) n)
            (λ i r at. (
              i,
              get_elem?-append-lt storage.slots (prepared.key, prepared.row) i
                    (lt-get_elem? storage.slots i (k, r) at)
                  ∙ at,
            )))

  replace_row-IsUpdated :
      (prepared : PreparedTopicRow K R) (storage : RowStorage K R F) (slot : ℕ) (old : R)
      (changed : Option F)
      → IsStored storage
      → get_elem? storage.slots slot ≡ some (prepared.key, old)
      → IsUpdated dec storage prepared.key
          (some prepared.row)
          (replace_row dec rows_equal changed_fields_from_rows slot old changed prepared storage)
  unfolding replace_row record_row_change
  replace_row-IsUpdated prepared storage slot old changed x at =
      let after =
        replace_row dec rows_equal changed_fields_from_rows slot old changed prepared storage in
      let y : IsStored after =
        replace-IsIndexed dec storage.key_to_slot storage.slots x prepared.key prepared.row old slot
          at in
      updated dec storage after prepared.key (some prepared.row) y
        (row_for_key-some after prepared.key slot prepared.row y (
          get_elem?-set-same storage.slots slot (prepared.key, prepared.row)
            (lt-get_elem? storage.slots slot (prepared.key, old) at)))
        (λ k n.
          row_for_key-kept storage after k x y (λ h. h)
            (λ i r there. (
              i,
              get_elem?-set-other storage.slots slot i (prepared.key, prepared.row)
                    (λ e. n (
                      same_entry_key (get_elem? storage.slots i) (k, r) (prepared.key, old) there
                        (rw e at at)))
                  ∙ there,
            )))

  replacement_not_needed :
      (prepared : PreparedTopicRow K R) (old : R)
      → rows_equal old prepared.row ≡ true
      → prepared_replacement dec rows_equal changed_fields_from_rows prepared old ≡ none
  unfolding prepared_replacement
  replacement_not_needed prepared old e = rw (e, prepared_replacement) refl

  replacement_needed :
      (prepared : PreparedTopicRow K R) (old : R)
      → rows_equal old prepared.row ≡ false
      → (changed : Option F) × (prepared_replacement dec rows_equal changed_fields_from_rows
            prepared old
          ≡ some changed)
  unfolding prepared_replacement
  replacement_needed prepared old e = go prepared.source refl
    where
      go :
          (s : PreparedSource)
          → prepared.source ≡ s
          → (changed : Option F) × (prepared_replacement dec rows_equal changed_fields_from_rows
                prepared old
              ≡ some changed)
      go from_row h = (none, rw (e, h, prepared_replacement) refl)
      go from_patch h =
          (changed_fields_from_rows old prepared.row, rw (e, h, prepared_replacement) refl)

  -- On a storage whose slots and key map agree, `setPrepared` never reads a missing slot. Afterwards
  -- they agree again, the key has the prepared row (or the row it had, where `rowsEqual` finds the two
  -- equal), and every other key has the row it had.
  pub set_prepared-row_for_key :
      (prepared : PreparedTopicRow K R) (storage : RowStorage K R F)
      → IsStored storage
      → (changed : ℕ) × (after : RowStorage K R F) × (set_prepared dec rows_equal
            changed_fields_from_rows prepared storage
          ≡ some (changed, after))
        × IsUpdated dec storage prepared.key
            (some (kept_row rows_equal prepared (row_for_key storage prepared.key)))
            after
  unfolding set_prepared
  set_prepared-row_for_key prepared storage x =
      elim (Option-cases (storage.key_to_slot prepared.key)) [
        | inl e ↦
            rw (e, row_for_key-none storage prepared.key e, set_prepared)
              (
                1,
                append_row dec rows_equal changed_fields_from_rows prepared storage,
                refl,
                append_row-IsUpdated prepared storage x e,
              )
        | inr (slot, e) ↦
            let (old, at) = x.sound prepared.key slot e in
            let row = row_for_key-some storage prepared.key slot old x at in
            elim (Bool-cases (rows_equal old prepared.row)) [
              | inl same ↦
                  let still : prepared_replacement dec rows_equal changed_fields_from_rows prepared
                        old
                      ≡ none =
                    replacement_not_needed prepared old same in
                  rw (e, at, still, row, same, set_prepared)
                    (
                      0,
                      storage,
                      refl,
                      updated dec storage storage prepared.key (some old) x row (λ k n. refl),
                    )
              | inr other ↦
                  let (changed, needed) = replacement_needed prepared old other in
                  rw (e, at, needed, row, other, set_prepared)
                    (
                      1,
                      replace_row dec rows_equal changed_fields_from_rows slot old changed prepared
                          storage,
                      refl,
                      replace_row-IsUpdated prepared storage slot old changed x at,
                    )
            ]
      ]
