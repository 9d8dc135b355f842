-- ===== src/Engine/Delta.antt =====
-- `deltaOperations` (packages/column-live-view-engine/src/query-result.ts): the operations that
-- turn one evaluation of a query into the next. `rows_equal` is `rowsEqual` of row-values.ts.
pub mod Agreement
pub mod Removal
pub mod Placement
pub mod Rebuild
pub mod Moved
pub mod Correct
pub mod MovePath
pub mod Aligned
pub mod ReplacementPath
pub mod Move
pub mod Replacement
pub mod General
use view_server_smart.Shared.{Bool, List, Option, none, some}
use view_server_smart.Protocol.{DeltaOperation}
use view_server_smart.Engine.Evaluation.{QueryEvaluation}
use Move.{single_move_delta_operations}
use Replacement.{replacement_delta_operations}
use General.{general_delta_operations}

module _ {ℓ} {K R : Type ℓ} (dec : Discrete K) (rows_equal : R → R → Bool) where
  unfoldable pub delta_operations :
      QueryEvaluation K R → QueryEvaluation K R → List (DeltaOperation K R)
  delta_operations previous next =
      elim (single_move_delta_operations dec rows_equal previous next) [
        | some operations ↦ operations
        | none ↦ elim (replacement_delta_operations dec rows_equal previous next) [
          | some operations ↦ operations
          | none ↦ general_delta_operations dec rows_equal previous next
        ]
      ]
