-- ===== src/Engine/Delta/Replacement.antt =====
-- The second fast path of `deltaOperations` (packages/column-live-view-engine/src/query-result.ts):
-- many keys are replaced, and the keys that stay keep their order and their rows.
use view_server_smart.Shared.{
  ℕ, suc, ◌+◌, Bool, true, false, ◌&&◌, ◌||◌, not, Option, none, some, List, [], ◌∷◌, ◌++◌, ite,
  ltb, ◌==◌, if◌then◌else◌, get_elem?, drop, contains,
}
use view_server_smart.Shared.Arrays.{keys_of}
use view_server_smart.Protocol.{DeltaOperation, insert, remove}
use view_server_smart.Protocol.Number.{natural}
use view_server_smart.Engine.Evaluation.{QueryEvaluation, row_differs}

abbrev pub minimum_replacement_delta_fast_path_operations : ℕ
minimum_replacement_delta_fast_path_operations = 8

module _ {ℓ} {K : Type ℓ} (dec : Discrete K) where
  -- How many of the keys are not in the set of the others.
  unfoldable pub count_missing : List K → List K → ℕ
  count_missing others [] = 0
  count_missing others (key ∷ keys) =
      let rest = count_missing others keys in if contains dec key others then rest else rest + 1

  -- The inner `while`: from `index` on, past the previous keys that are gone.
  unfoldable pub skip_removed : List K → List K → ℕ → ℕ
  skip_removed next_keys [] index = index
  skip_removed next_keys (key ∷ keys) index =
      let rest = skip_removed next_keys keys (suc index) in
      if contains dec key next_keys then index else rest

  abbrev pub key_stands_at : List K → ℕ → K → Bool
  key_stands_at keys index key = elim (get_elem? keys index) [
    | none ↦ false
    | some k ↦ ite (dec k key) true false
  ]

module _ {ℓ} {K R : Type ℓ} (dec : Discrete K) where
  unfoldable pub remove_operations : List K → List K → List (DeltaOperation K R)
  remove_operations next_keys [] = []
  remove_operations next_keys (key ∷ keys) =
      let rest = remove_operations next_keys keys in
      if contains dec key next_keys then rest else remove key ∷ rest

  unfoldable pub insert_operations : List K → ℕ → List (K × R) → List (DeltaOperation K R)
  insert_operations previous_keys index [] = []
  insert_operations previous_keys index ((key, row) ∷ window) =
      let rest = insert_operations previous_keys (suc index) window in
      if contains dec key previous_keys then rest else insert key row (natural index) ∷ rest

module _ {ℓ} {K R : Type ℓ} (dec : Discrete K) (rows_equal : R → R → Bool) where
  -- The loop over the next window that compares the shared keys with `previousSharedIndex`.
  unfoldable pub shared_rows_match : QueryEvaluation K R → List K → ℕ → List (K × R) → Bool
  unfolding skip_removed
  shared_rows_match previous next_keys index [] = true
  shared_rows_match previous next_keys index ((key, row) ∷ window) =
      elim (contains dec key previous.keys) [
        | false ↦ shared_rows_match previous next_keys index window
        | true ↦
            let at = skip_removed dec next_keys (drop index previous.keys) index in
            key_stands_at dec previous.keys at key
            && (not (row_differs rows_equal (get_elem? previous.rows at) row)
                && shared_rows_match previous next_keys (suc at) window)
      ]

  unfoldable pub replacement_delta_operations :
      QueryEvaluation K R → QueryEvaluation K R → Option (List (DeltaOperation K R))
  unfolding count_missing shared_rows_match remove_operations insert_operations
  replacement_delta_operations previous next =
      let removed_count = count_missing dec next.keys previous.keys in
      let inserted_count = count_missing dec previous.keys (keys_of next.window) in
      if removed_count == 0
        || (inserted_count == 0
            || (ltb (removed_count + inserted_count) minimum_replacement_delta_fast_path_operations
                || not (shared_rows_match previous next.keys 0 next.window)))
      then none
      else some (
          remove_operations dec next.keys previous.keys
          ++ insert_operations dec previous.keys 0 next.window)
