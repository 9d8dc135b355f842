-- ===== src/Client/Refinement.antt =====
-- `applyDeltaOperation` (packages/client/src/live-query-state.ts) against the meaning of the
-- operations in Client/Entries.antt: the arrays always hold one list of entries with distinct keys.
use view_server_smart.Shared.{
  ℕ, ◌≤◌, ◌<◌, ◌≡◌, refl, sym, subst, inl, inr, true, Option, none, some, List, [], ◌∷◌, arith,
  length, get_elem?, contains, Distinct, Bool-cases, Option-cases,
}
use view_server_smart.Shared.KeyIndexes.{
  KeyIndexes, Indexes, index_from, get_elem?-index_from, Indexes-indexes_of_keys,
}
use view_server_smart.Shared.Arrays.{
  Arrays, Represents, arrays, eq-arrays, same_length, has_key, inserted, updated, moved, removed,
  keys_of, rows_of,
}
use view_server_smart.Client.Arrays.{
  is_insert_index, is_existing_index, is_key_at, apply_insert, apply_update, apply_move,
  apply_remove, apply_delta_operation, apply_delta_operations, arrays_of,
}
use view_server_smart.Client.Entries.{edit, edit_all}
use view_server_smart.Protocol.{DeltaOperation, insert, update, move, remove}
use view_server_smart.Protocol.Number.{JsNumber, as_natural}

insert_index-le : (index : JsNumber) (n : ℕ) → is_insert_index index n ≡ true → as_natural index ≤ n
unfolding is_insert_index
insert_index-le index n h = ground arith

existing_index-lt :
    (index : JsNumber) (n : ℕ) → is_existing_index index n ≡ true → as_natural index < n
unfolding is_existing_index
existing_index-lt index n h = ground arith

module _ {ℓ} {K : Type ℓ} (dec : Discrete K) where
  key_at :
      (keys : List K) (i : ℕ) (key : K)
      → is_key_at dec keys i key ≡ true
      → get_elem? keys i ≡ some key
  key_at keys i key h = ground arith

module _ {K R : Type 0} (dec : Discrete K) where
  -- Both fail, or both succeed with arrays that hold the entries.
  abbrev pub Refines : Option (Arrays K R) → Option (List (K × R)) → Type 0
  Refines none none = Unit
  Refines none (some es) = ⊥
  Refines (some s) none = ⊥
  Refines (some s) (some es) = Represents dec s es

  module _ (es : List (K × R)) (m : KeyIndexes K) (exact : Indexes dec m (keys_of es)) where
    module _ (distinct : Distinct dec (keys_of es)) (key : K) where
      insert-Refines :
          (row : R) (index : JsNumber)
          → Refines
              (apply_insert dec (arrays dec es m) key row index)
              (edit dec es (insert key row index))
      unfolding apply_insert edit
      insert-Refines row index =
          rw (same_length dec es m exact, has_key dec es m exact)
            (elim (Bool-cases (is_insert_index index (length es))) [
              | inr bad ↦ rw bad tt
              | inl good ↦ rw good (elim (Bool-cases (contains dec key (keys_of es))) [
                | inl old ↦ rw old tt
                | inr new ↦ rw new (
                    inserted dec es m exact distinct key row (as_natural index)
                      (insert_index-le index (length es) good) new)
              ])
            ])

      update-Refines :
          (row : R) (index : JsNumber)
          → Refines
              (apply_update dec (arrays dec es m) key row index)
              (edit dec es (update key row index))
      unfolding apply_update edit
      update-Refines row index =
          rw (same_length dec es m exact) (elim (Bool-cases (is_existing_index index (length es))) [
            | inr bad ↦ rw bad tt
            | inl good ↦
                rw good (elim (Bool-cases (is_key_at dec (keys_of es) (as_natural index) key)) [
                  | inr other ↦ rw other tt
                  | inl same ↦ rw same (
                      updated dec es m exact distinct key row (as_natural index)
                        (key_at dec (keys_of es) (as_natural index) key same))
                ])
          ])

      move-Refines :
          (from_index to_index : JsNumber)
          → Refines
              (apply_move dec (arrays dec es m) key from_index to_index)
              (edit dec es (move key from_index to_index))
      unfolding apply_move edit
      move-Refines from_index to_index =
          rw (same_length dec es m exact)
            (elim (Bool-cases (is_existing_index from_index (length es))) [
              | inr bad ↦ rw bad tt
              | inl good ↦ rw good (elim (Bool-cases (is_existing_index to_index (length es))) [
                | inr bad ↦ rw bad tt
                | inl well ↦
                    rw well
                      (elim (Bool-cases (is_key_at dec (keys_of es) (as_natural from_index) key)) [
                        | inr other ↦ rw other tt
                        | inl same ↦ rw same (
                            moved dec es m exact distinct key (as_natural from_index)
                              (as_natural to_index)
                              (key_at dec (keys_of es) (as_natural from_index) key same)
                              (existing_index-lt to_index (length es) well))
                      ])
              ])
            ])

      remove-Refines : Refines (apply_remove dec (arrays dec es m) key) (edit dec es (remove key))
      unfolding apply_remove edit
      remove-Refines = elim (Option-cases (index_from dec 0 key (keys_of es))) [
        | inl e ↦ rw (exact, e, edit) tt
        | inr (i, e) ↦
            rw (exact, e, edit)
              (removed dec es m exact distinct key i
                (get_elem?-index_from dec key (keys_of es) i e))
      ]

  operation-arrays-Refines :
      (es : List (K × R)) (m : KeyIndexes K) (op : DeltaOperation K R)
      → Indexes dec m (keys_of es)
      → Distinct dec (keys_of es)
      → Refines (apply_delta_operation dec (arrays dec es m) op) (edit dec es op)
  unfolding apply_delta_operation
  operation-arrays-Refines es m (insert key row index) x d = insert-Refines es m x d key row index
  operation-arrays-Refines es m (update key row index) x d = update-Refines es m x d key row index
  operation-arrays-Refines es m (move key from_index to_index) x d =
      move-Refines es m x d key from_index to_index
  operation-arrays-Refines es m (remove key) x d = remove-Refines es m x d key

  -- On arrays that hold entries, `applyDeltaOperation` accepts an operation exactly when the
  -- operation fits the entries, and then the arrays hold the edited entries: the same keys and rows
  -- in the same order, no key twice, and the exact index of every key.
  pub apply_delta_operation-Refines-edit :
      (s : Arrays K R) (es : List (K × R)) (op : DeltaOperation K R)
      → Represents dec s es
      → Refines (apply_delta_operation dec s op) (edit dec es op)
  apply_delta_operation-Refines-edit s es op r =
      subst (λ t. Refines (apply_delta_operation dec t op) (edit dec es op))
        (sym (eq-arrays dec s es r))
        (operation-arrays-Refines es s.key_indexes op (rw r.keys at r.exact)
          (rw r.keys at r.distinct))

  then_rest :
      (ops : List (DeltaOperation K R)) (a : Option (Arrays K R)) (b : Option (List (K × R)))
      → ((s : Arrays K R) (es : List (K × R))
          → Represents dec s es
          → Refines (apply_delta_operations dec s ops) (edit_all dec es ops))
      → Refines a b
      → Refines
          (elim a [ none ↦ none | some s ↦ apply_delta_operations dec s ops ])
          (elim b [ none ↦ none | some es ↦ edit_all dec es ops ])
  then_rest ops none none h r = tt
  then_rest ops none (some es) h r = elim r [ ]
  then_rest ops (some s) none h r = elim r [ ]
  then_rest ops (some s) (some es) h r = h s es r

  -- On arrays that hold a list of entries with distinct keys, the loop over `applyDeltaOperation` fails
  -- exactly where editing the list of entries fails, and otherwise leaves arrays that hold the edited
  -- list, key map included.
  pub apply_delta_operations-Refines-edit_all :
      (ops : List (DeltaOperation K R)) (s : Arrays K R) (es : List (K × R))
      → Represents dec s es
      → Refines (apply_delta_operations dec s ops) (edit_all dec es ops)
  unfolding apply_delta_operations edit_all
  apply_delta_operations-Refines-edit_all [] s es r = r
  apply_delta_operations-Refines-edit_all (op ∷ ops) s es r =
      then_rest ops (apply_delta_operation dec s op) (edit dec es op)
        (apply_delta_operations-Refines-edit_all ops) (apply_delta_operation-Refines-edit s es op r)

  -- The arrays that a delta starts from.
  pub arrays_of-Represents :
      (es : List (K × R))
      → Distinct dec (keys_of es)
      → Represents dec (arrays_of dec (rows_of es) (keys_of es)) es
  unfolding arrays_of
  arrays_of-Represents es d = record {
    keys = refl;
    rows = refl;
    exact = Indexes-indexes_of_keys dec (keys_of es) d;
    distinct = d;
  }
