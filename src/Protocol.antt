-- ===== src/Protocol.antt =====
-- The live events that the server sends to a client (packages/config/src/live-protocol.ts).
-- Keys are of any type with decidable equality, rows of any type.
pub mod Number
use Prim.Native.String.{String}
use mathlib.Core.List.{List}
use mathlib.Core.Option.{Option}
use Number.{JsNumber}

pub data DeltaOperation {ℓ} (K R : Type ℓ) : Type ℓ where
  insert : (key : K) (row : R) (index : JsNumber) → DeltaOperation K R
  update : (key : K) (row : R) (index : JsNumber) → DeltaOperation K R
  move : (key : K) (from_index to_index : JsNumber) → DeltaOperation K R
  remove : (key : K) → DeltaOperation K R

pub record SnapshotEvent {ℓ} (K R : Type ℓ) : Type ℓ where
  pub topic : String
  pub query_id : String
  pub version : JsNumber
  pub keys : List K
  pub rows : List R
  pub total_rows : JsNumber

pub record DeltaEvent {ℓ} (K R : Type ℓ) : Type ℓ where
  pub topic : String
  pub query_id : String
  pub from_version : JsNumber
  pub to_version : JsNumber
  pub operations : List (DeltaOperation K R)
  pub total_rows : JsNumber

pub data StatusCode : Type 0 where
  ready_code snapshot_stale subscription_closed transport_error backpressure_exceeded : StatusCode
  invalid_topic invalid_row invalid_query unsupported_query runtime_unavailable : StatusCode
  runtime_reset_failed : StatusCode

-- A status event carries `ready`, `stale`, `closed` or `error`; a client starts as `loading`.
pub data Status : Type 0 where
  loading ready stale closed error : Status

pub record StatusEvent : Type 0 where
  pub topic : String
  pub query_id : String
  pub status : Status
  pub code : StatusCode
  pub message : Option String

pub data LiveEvent {ℓ} (K R : Type ℓ) : Type ℓ where
  snapshot : SnapshotEvent K R → LiveEvent K R
  delta : DeltaEvent K R → LiveEvent K R
  status : StatusEvent → LiveEvent K R
