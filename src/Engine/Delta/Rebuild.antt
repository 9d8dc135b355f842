-- ===== src/Engine/Delta/Rebuild.antt =====
-- The general path of `deltaOperations` leads from the previous window to the next.
use view_server_smart.Shared.{
  zero, ◌+◌, ◌≤◌, ◌≡◌, refl, ◌∙◌, Bool, true, some, List, [], ◌∷◌, arith, length, contains,
}
use view_server_smart.Shared.KeyIndexes.{indexes_of_keys, Indexes-indexes_of_keys}
use view_server_smart.Shared.Arrays.{Arrays, Represents, keys_of, rows_of}
use view_server_smart.Protocol.Number.{max_safe_integer}
use view_server_smart.Client.Entries.{edit_all}
use view_server_smart.Client.Edits.{edit_all-append}
use view_server_smart.Engine.Evaluation.{QueryEvaluation, IsEvaluation}
use view_server_smart.Engine.Delta.Agreement.{Agrees}
use view_server_smart.Engine.Delta.Removal.{keep, remove_missing-keep}
use view_server_smart.Engine.Delta.Placement.{place_window-Agrees}
use view_server_smart.Engine.Delta.General.{remove_missing, general_delta_operations}

module _ {ℓ} {K R : Type ℓ} (dec : Discrete K) (next_keys : List K) where
  pub keep-subset :
      (es : List (K × R)) (j : K)
      → contains dec j (keys_of (keep dec next_keys es)) ≡ true
      → contains dec j next_keys ≡ true
  unfolding keep
  keep-subset [] j h = cc
  keep-subset (e ∷ es) j h = ground (arith, keep-subset es j)

  length-keep-le : (es : List (K × R)) → length (keep dec next_keys es) ≤ length es
  unfolding keep
  length-keep-le [] = omega arith
  length-keep-le (e ∷ es) = ground (arith, length-keep-le es)

module _ {K R : Type 0} (dec : Discrete K) (rows_equal : R → R → Bool)
    (previous next : QueryEvaluation K R) where
  -- Between any two evaluations without repeated keys, whose windows together have at most
  -- `Number.MAX_SAFE_INTEGER` entries, the operations of the general path (removals, then one pass over
  -- the next window) all fit, and lead from the previous window to entries with the keys of the next
  -- window in order, each with the next row or a row equal to it by `rowsEqual`.
  pub general_delta_operations-Agrees :
      IsEvaluation dec previous
      → IsEvaluation dec next
      → length previous.window + length next.window ≤ max_safe_integer
      → (shown : List (K × R)) × (edit_all dec previous.window
            (general_delta_operations dec rows_equal previous next)
          ≡ some shown)
        × Agrees rows_equal shown next.window
  unfolding general_delta_operations
  general_delta_operations-Agrees p n safe =
      let start : Arrays K R = record {
        rows = rows_of previous.window;
        keys = keys_of previous.window;
        key_indexes = indexes_of_keys dec (keys_of previous.window);
      } in
      let held : Represents dec start previous.window = record {
        keys = refl;
        rows = refl;
        exact = Indexes-indexes_of_keys dec (keys_of previous.window) p.distinct;
        distinct = p.distinct;
      } in
      let removed = remove_missing-keep dec (keys_of next.window) previous.window [] start held in
      let placed =
        place_window-Agrees dec rows_equal next.window []
          (keep dec (keys_of next.window) previous.window) zero
          (remove_missing dec (keys_of next.window) (keys_of previous.window) start).arrays refl
          removed.1 n.distinct (keep-subset dec (keys_of next.window) previous.window)
          (omega (arith, length-keep-le dec (keys_of next.window) previous.window)) in
      rw (p.rows, p.keys, n.keys)
        (placed.0, edit_all-append dec _ _ _ _ removed.0 ∙ placed.1, placed.2)
