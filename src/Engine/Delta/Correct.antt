-- ===== src/Engine/Delta/Correct.antt =====
-- `deltaOperations` is right on each of its three paths.
use view_server_smart.Shared.{◌+◌, ◌≤◌, ◌≡◌, Bool, some, inl, inr, List, length, Option-cases}
use view_server_smart.Protocol.Number.{max_safe_integer}
use view_server_smart.Client.Entries.{edit_all}
use view_server_smart.Engine.Evaluation.{QueryEvaluation, IsEvaluation}
use view_server_smart.Engine.Delta.{delta_operations}
use view_server_smart.Engine.Delta.Agreement.{Agrees}
use view_server_smart.Engine.Delta.Move.{single_move_delta_operations}
use view_server_smart.Engine.Delta.MovePath.{single_move_delta_operations-Agrees}
use view_server_smart.Engine.Delta.Replacement.{replacement_delta_operations}
use view_server_smart.Engine.Delta.ReplacementPath.{replacement_delta_operations-Agrees}
use view_server_smart.Engine.Delta.Rebuild.{general_delta_operations-Agrees}

module _ {K R : Type 0} (dec : Discrete K) (rows_equal : R → R → Bool)
    (previous next : QueryEvaluation K R) where
  -- Between two evaluations without repeated keys, whose windows together have at most
  -- `Number.MAX_SAFE_INTEGER` entries, every operation of `deltaOperations` fits the entries that
  -- the ones before it have left, and together they lead from the previous window to entries with
  -- the keys of the next window in order, each with the next row or a row equal to it by `rowsEqual`.
  pub delta_operations-Agrees :
      IsEvaluation dec previous
      → IsEvaluation dec next
      → length previous.window + length next.window ≤ max_safe_integer
      → (shown : List (K × R)) × (edit_all dec previous.window
            (delta_operations dec rows_equal previous next)
          ≡ some shown)
        × Agrees rows_equal shown next.window
  unfolding delta_operations
  delta_operations-Agrees p n safe =
      elim (Option-cases (single_move_delta_operations dec rows_equal previous next)) [
        | inr (ops, e) ↦
            rw (e, delta_operations)
              (single_move_delta_operations-Agrees dec rows_equal previous next ops p n safe e)
        | inl e ↦ elim (Option-cases (replacement_delta_operations dec rows_equal previous next)) [
          | inr (ops, e') ↦
              rw (e, e', delta_operations)
                (replacement_delta_operations-Agrees dec rows_equal previous next ops p n safe e')
          | inl e' ↦
              rw (e, e', delta_operations)
                (general_delta_operations-Agrees dec rows_equal previous next p n safe)
        ]
      ]
