-- ===== src/Client/State.antt =====
-- The state of a live query in the client, and its reaction to each event
-- (packages/client/src/live-query-state.ts).
use Prim.Native.String.{String}
use view_server_smart.Shared.{
  Bool, true, false, ◌&&◌, not, Option, none, some, List, [], ◌∷◌, leb, ltb, ◌==◌, if◌then◌else◌,
  length, contains,
}
use view_server_smart.Protocol.{
  SnapshotEvent, DeltaEvent, StatusEvent, LiveEvent, snapshot, delta, status, Status, loading,
  ready, stale, closed, error, StatusCode, ready_code, snapshot_stale,
}
use view_server_smart.Protocol.Number.{JsNumber, natural, is_non_negative_safe_integer, as_natural}
use view_server_smart.Shared.Arrays.{Arrays}
use view_server_smart.Client.Arrays.{apply_delta_operations, arrays_of}

pub record ClientState {ℓ} (K R : Type ℓ) : Type ℓ where
  pub rows : List R
  pub keys : List K
  pub total_rows : JsNumber
  pub version : JsNumber
  pub status : Status
  pub status_code : Option StatusCode
  pub message : Option String

unfoldable pub initial_client_state {ℓ} : {K R : Type ℓ} → ClientState K R
initial_client_state = record {
  rows = [];
  keys = [];
  total_rows = natural 0;
  version = natural 0;
  status = loading;
  status_code = none;
  message = none;
}

abbrev pub is_ready : Status → Bool
is_ready ready = true
is_ready loading = false
is_ready stale = false
is_ready closed = false
is_ready error = false

abbrev pub is_closed : Status → Bool
is_closed closed = true
is_closed loading = false
is_closed ready = false
is_closed stale = false
is_closed error = false

module _ {ℓ} {K : Type ℓ} (dec : Discrete K) where
  -- The loop of `hasUniqueKeys`; `seen` is `seenKeys`.
  unfoldable pub unique_from : List K → List K → Bool
  unique_from seen [] = true
  unique_from seen (key ∷ keys) =
      let rest = unique_from (key ∷ seen) keys in if contains dec key seen then false else rest

  unfoldable pub has_unique_keys : List K → Bool
  unfolding unique_from
  has_unique_keys keys = unique_from [] keys

module _ {ℓ} {K R : Type ℓ} where
  unfoldable pub stale_delta_state : ClientState K R → ClientState K R
  stale_delta_state state = record state {
    status = stale;
    status_code = some snapshot_stale;
    message = some "Received an invalid delta; waiting for a fresh snapshot.";
  }

  unfoldable pub stale_snapshot_state : ClientState K R → ClientState K R
  stale_snapshot_state state = record state {
    status = stale;
    status_code = some snapshot_stale;
    message = some "Received an invalid snapshot; waiting for a fresh snapshot.";
  }

  -- The comparisons stand behind the tests for safe integers, as in the source.
  unfoldable pub can_apply_delta_from_version : ClientState K R → DeltaEvent K R → Bool
  can_apply_delta_from_version state event =
      is_ready state.status
      && (is_non_negative_safe_integer state.version
          && (is_non_negative_safe_integer event.from_version
              && (is_non_negative_safe_integer event.to_version
                  && (is_non_negative_safe_integer event.total_rows
                      && (as_natural state.version == as_natural event.from_version
                          && ltb (as_natural state.version) (as_natural event.to_version))))))

  unfoldable pub apply_status : ClientState K R → StatusEvent → ClientState K R
  unfolding initial_client_state
  apply_status state event =
      record (if is_closed event.status then initial_client_state else state) {
        status = event.status;
        status_code = some event.code;
        message = event.message;
      }

module _ {ℓ} {K R : Type ℓ} (dec : Discrete K) where
  unfoldable pub is_valid_snapshot_event : SnapshotEvent K R → Bool
  is_valid_snapshot_event event =
      is_non_negative_safe_integer event.version
      && (is_non_negative_safe_integer event.total_rows
          && (leb (length event.rows) (as_natural event.total_rows)
              && (length event.keys == length event.rows && has_unique_keys dec event.keys)))

  unfoldable pub apply_snapshot : ClientState K R → SnapshotEvent K R → ClientState K R
  apply_snapshot state event =
      if not (is_valid_snapshot_event event) then stale_snapshot_state state else record {
        rows = event.rows;
        keys = event.keys;
        total_rows = event.total_rows;
        version = event.version;
        status = ready;
        status_code = some ready_code;
        message = none;
      }

  -- The end of `applyDelta`, once every operation has been applied to the copies.
  unfoldable pub finish_delta : ClientState K R → DeltaEvent K R → Arrays K R → ClientState K R
  finish_delta state event arrays =
      if ltb (as_natural event.total_rows) (length arrays.rows)
      then stale_delta_state state
      else record {
        rows = arrays.rows;
        keys = arrays.keys;
        total_rows = event.total_rows;
        version = event.to_version;
        status = ready;
        status_code = some ready_code;
        message = none;
      }

  unfoldable pub apply_delta : ClientState K R → DeltaEvent K R → ClientState K R
  apply_delta state event =
      if not (can_apply_delta_from_version state event)
      then stale_delta_state state
      else elim (apply_delta_operations dec (arrays_of dec state.rows state.keys)
          event.operations) [
            | none ↦ stale_delta_state state
            | some arrays ↦ finish_delta state event arrays
          ]

  unfoldable pub apply_event : ClientState K R → LiveEvent K R → ClientState K R
  apply_event state (snapshot event) = apply_snapshot state event
  apply_event state (delta event) = apply_delta state event
  apply_event state (status event) = apply_status state event
