-- ===== src/Engine/Events.antt =====
-- The events that the engine makes of an evaluation (`snapshotEvent` and `deltaEvent`
-- in packages/column-live-view-engine/src/query-result.ts), and how a subscription
-- walks from one evaluation to the next (`leaseMaterializedQueryExecution` in
-- packages/column-live-view-engine/src/active-materialized-query.ts). `cloneRow` copies a row, and a
-- copy of an immutable value is that value.
use Prim.Native.String.{String}
use view_server_smart.Shared.{
  ℕ, Bool, true, false, ◌&&◌, Option, none, some, List, [], ◌∷◌, ◌==◌, if◌then◌else◌,
}
use view_server_smart.Protocol.{SnapshotEvent, DeltaEvent, DeltaOperation}
use view_server_smart.Protocol.Number.{natural}
use view_server_smart.Engine.Evaluation.{QueryEvaluation}
use view_server_smart.Engine.Delta.{delta_operations}

module _ {ℓ} {K R : Type ℓ} where
  unfoldable pub snapshot_event : String → String → QueryEvaluation K R → SnapshotEvent K R
  snapshot_event topic query_id evaluation = record {
    topic = topic;
    query_id = query_id;
    version = natural evaluation.version;
    keys = evaluation.keys;
    rows = evaluation.rows;
    total_rows = natural evaluation.total_rows;
  }

  unfoldable pub delta_event :
      String → String → ℕ → QueryEvaluation K R → List (DeltaOperation K R) → DeltaEvent K R
  delta_event topic query_id from_version next operations = record {
    topic = topic;
    query_id = query_id;
    from_version = natural from_version;
    to_version = natural next.version;
    operations = operations;
    total_rows = natural next.total_rows;
  }

abbrev pub is_empty {ℓ} : {A : Type ℓ} → List A → Bool
is_empty [] = true
is_empty (x ∷ xs) = false

-- The cursor of a subscription after an update, and the event to send.
pub record CursorStep {ℓ} (K R : Type ℓ) : Type ℓ where
  pub evaluation : QueryEvaluation K R
  pub event : Option (DeltaEvent K R)

module _ {ℓ} {K R : Type ℓ} (dec : Discrete K) (rows_equal : R → R → Bool) where
  -- `next` of a lease, where the execution's latest evaluation is `next`. An update that changes
  -- neither the rows nor their total number sends nothing and leaves the cursor where it was.
  unfoldable pub next_delta :
      String → String → QueryEvaluation K R → QueryEvaluation K R → CursorStep K R
  next_delta topic query_id previous next =
      let operations = delta_operations dec rows_equal previous next in
      if is_empty operations && previous.total_rows == next.total_rows
      then record { evaluation = previous; event = none }
      else record {
        evaluation = next;
        event = some (delta_event topic query_id previous.version next operations);
      }
