-- ===== src/Client/Arrays.antt =====
-- `applyDeltaOperation` of packages/client/src/live-query-state.ts: one operation on the three
-- mutable structures of `applyDelta`, the arrays of rows and keys and the index of each key.
use view_server_smart.Shared.{
  ℕ, min, Bool, true, false, ◌&&◌, ◌||◌, not, Option, none, some, List, [], ◌∷◌, ite, leb, ltb,
  if◌then◌else◌, length, get_elem?, set,
}
use view_server_smart.Shared.Splice.{splice_in, splice_out, splice_move}
use view_server_smart.Shared.KeyIndexes.{set_index, delete_index, reindex_keys, indexes_of_keys}
use view_server_smart.Shared.Arrays.{Arrays, is_some}
use view_server_smart.Protocol.{DeltaOperation, insert, update, move, remove}
use view_server_smart.Protocol.Number.{JsNumber, is_non_negative_safe_integer, as_natural}

unfoldable pub is_insert_index : JsNumber → ℕ → Bool
unfolding is_non_negative_safe_integer
is_insert_index index length = is_non_negative_safe_integer index && leb (as_natural index) length

unfoldable pub is_existing_index : JsNumber → ℕ → Bool
unfolding is_non_negative_safe_integer
is_existing_index index length = is_non_negative_safe_integer index && ltb (as_natural index) length

module _ {ℓ} {K : Type ℓ} (dec : Discrete K) where
  -- `array[index] === key`.
  abbrev pub is_key_at : List K → ℕ → K → Bool
  is_key_at keys index key = elim (get_elem? keys index) [
    | none ↦ false
    | some k ↦ ite (dec k key) true false
  ]

module _ {ℓ} {K R : Type ℓ} (dec : Discrete K) where
  unfoldable pub apply_insert : Arrays K R → K → R → JsNumber → Option (Arrays K R)
  apply_insert s key row index =
      if not (is_insert_index index (length s.keys)) || is_some (s.key_indexes key)
      then none
      else (let at = as_natural index in
          let keys = splice_in s.keys at key in
          some (record {
            rows = splice_in s.rows at row;
            keys = keys;
            key_indexes = reindex_keys dec keys s.key_indexes at;
          }))

  unfoldable pub apply_update : Arrays K R → K → R → JsNumber → Option (Arrays K R)
  apply_update s key row index =
      let at = as_natural index in
      if not (is_existing_index index (length s.keys))
      then none
      else if not (is_key_at dec s.keys at key)
      then none
      else some
          (record s { rows = set s.rows at row; key_indexes = set_index dec s.key_indexes key at })

  unfoldable pub apply_move : Arrays K R → K → JsNumber → JsNumber → Option (Arrays K R)
  apply_move s key from_index to_index =
      let from = as_natural from_index in
      let to = as_natural to_index in
      if not (is_existing_index from_index (length s.keys))
        || not (is_existing_index to_index (length s.keys))
      then none
      else if not (is_key_at dec s.keys from key)
      then none
      else (let keys = splice_move s.keys from to in
          some (record {
            rows = splice_move s.rows from to;
            keys = keys;
            key_indexes = reindex_keys dec keys s.key_indexes (min from to);
          }))

  unfoldable pub apply_remove : Arrays K R → K → Option (Arrays K R)
  apply_remove s key = elim (s.key_indexes key) [
    | none ↦ none
    | some index ↦
        let keys = splice_out s.keys index in
        some (record {
          rows = splice_out s.rows index;
          keys = keys;
          key_indexes = reindex_keys dec keys (delete_index dec s.key_indexes key) index;
        })
  ]

  -- `none` is the result `false`: the operation does not fit the arrays.
  unfoldable pub apply_delta_operation : Arrays K R → DeltaOperation K R → Option (Arrays K R)
  unfolding apply_insert apply_update apply_move apply_remove
  apply_delta_operation s (insert key row index) = apply_insert s key row index
  apply_delta_operation s (update key row index) = apply_update s key row index
  apply_delta_operation s (move key from_index to_index) = apply_move s key from_index to_index
  apply_delta_operation s (remove key) = apply_remove s key

  -- The loop of `applyDelta` over the operations of an event.
  unfoldable pub apply_delta_operations :
      Arrays K R → List (DeltaOperation K R) → Option (Arrays K R)
  unfolding apply_delta_operation
  apply_delta_operations s [] = some s
  apply_delta_operations s (op ∷ ops) = elim (apply_delta_operation s op) [
    | none ↦ none
    | some next ↦ apply_delta_operations next ops
  ]

  -- The copies that `applyDelta` starts from.
  unfoldable pub arrays_of : List R → List K → Arrays K R
  unfolding indexes_of_keys
  arrays_of rows keys = record { rows = rows; keys = keys; key_indexes = indexes_of_keys dec keys }
