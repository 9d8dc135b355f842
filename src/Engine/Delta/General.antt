-- ===== src/Engine/Delta/General.antt =====
-- The general path of `deltaOperations` (packages/column-live-view-engine/src/query-result.ts):
-- remove the keys that are gone, then put each key of the next window in its place.
use view_server_smart.Shared.{
  ℕ, suc, min, Bool, true, false, none, some, List, [], ◌∷◌, ◌++◌, ◌==◌, if◌then◌else◌, get_elem?,
  set, contains,
}
use view_server_smart.Shared.Splice.{splice_in, splice_out, splice_move}
use view_server_smart.Shared.KeyIndexes.{delete_index, reindex_keys, indexes_of_keys}
use view_server_smart.Shared.Arrays.{Arrays}
use view_server_smart.Protocol.{DeltaOperation, insert, update, move, remove}
use view_server_smart.Protocol.Number.{natural}
use view_server_smart.Engine.Evaluation.{QueryEvaluation, row_differs}

-- The working copies after a step, and the operations that the step pushed.
pub record Edited {ℓ} (K R : Type ℓ) : Type ℓ where
  pub arrays : Arrays K R
  pub operations : List (DeltaOperation K R)

module _ {ℓ} {K R : Type ℓ} (dec : Discrete K) where
  -- The removal of one key. `splice(undefined, 1)` would remove the first element; the key is
  -- always present.
  unfoldable pub remove_key : Arrays K R → K → Arrays K R
  remove_key s key =
      let index : ℕ = elim (s.key_indexes key) [ none ↦ 0 | some i ↦ i ] in
      let keys = splice_out s.keys index in
      record {
        rows = splice_out s.rows index;
        keys = keys;
        key_indexes = reindex_keys dec keys (delete_index dec s.key_indexes key) index;
      }

  -- The first loop, over the previous keys.
  unfoldable pub remove_missing : List K → List K → Arrays K R → Edited K R
  unfolding remove_key
  remove_missing next_keys [] s = record { arrays = s; operations = [] }
  remove_missing next_keys (key ∷ keys) s = elim (contains dec key next_keys) [
    | true ↦ remove_missing next_keys keys s
    | false ↦
        let rest = remove_missing next_keys keys (remove_key s key) in
        record rest { operations = remove key ∷ rest.operations }
  ]

  -- One round of the second loop: first the place of the key, then its row.
  unfoldable pub place_existing : ℕ → K → ℕ → Arrays K R → Edited K R
  place_existing index key current_index s =
      if current_index == index
      then record { arrays = s; operations = [] }
      else (let keys = splice_move s.keys current_index index in
          record {
            arrays = record {
              rows = splice_move s.rows current_index index;
              keys = keys;
              key_indexes = reindex_keys dec keys s.key_indexes (min current_index index);
            };
            operations = move key (natural current_index) (natural index) ∷ [];
          })

module _ {ℓ} {K R : Type ℓ} (rows_equal : R → R → Bool) where
  unfoldable pub refresh_row : ℕ → K → R → Edited K R → Edited K R
  refresh_row index key row e =
      if row_differs rows_equal (get_elem? e.arrays.rows index) row
      then record {
        arrays = record e.arrays { rows = set e.arrays.rows index row };
        operations = e.operations ++ (update key row (natural index) ∷ []);
      }
      else e

module _ {ℓ} {K R : Type ℓ} (dec : Discrete K) (rows_equal : R → R → Bool) where
  unfoldable pub place : ℕ → K → R → Arrays K R → Edited K R
  unfolding place_existing refresh_row
  place index key row s = elim (s.key_indexes key) [
    | none ↦
        let keys = splice_in s.keys index key in
        record {
          arrays = record {
            rows = splice_in s.rows index row;
            keys = keys;
            key_indexes = reindex_keys dec keys s.key_indexes index;
          };
          operations = insert key row (natural index) ∷ [];
        }
    | some current_index ↦
        refresh_row rows_equal index key row (place_existing dec index key current_index s)
  ]

  -- The second loop, over the entries of the next window.
  unfoldable pub place_window : ℕ → List (K × R) → Arrays K R → List (DeltaOperation K R)
  unfolding place
  place_window index [] s = []
  place_window index ((key, row) ∷ window) s =
      let placed = place index key row s in
      placed.operations ++ place_window (suc index) window placed.arrays

  unfoldable pub general_delta_operations :
      QueryEvaluation K R → QueryEvaluation K R → List (DeltaOperation K R)
  unfolding remove_missing place_window indexes_of_keys
  general_delta_operations previous next =
      let start : Arrays K R = record {
        rows = previous.rows;
        keys = previous.keys;
        key_indexes = indexes_of_keys dec previous.keys;
      } in
      let removed = remove_missing dec next.keys previous.keys start in
      removed.operations ++ place_window 0 next.window removed.arrays
