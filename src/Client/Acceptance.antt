-- ===== src/Client/Acceptance.antt =====
-- When a delta is accepted, and what a refused delta leaves, told without the code
-- (`canApplyDeltaFromVersion` and `staleDeltaState` of packages/client/src/live-query-state.ts).
use view_server_smart.Shared.{◌≡◌, refl, Bool, false, ◌&&◌, ◌==◌, leb, ltb, some, arith}
use view_server_smart.Protocol.{
  DeltaEvent, Status, loading, ready, stale, closed, error, snapshot_stale,
}
use view_server_smart.Protocol.Number.{
  JsNumber, natural, negative, fractional, max_safe_integer, is_non_negative_safe_integer,
  as_natural,
}
use view_server_smart.Client.State.{ClientState, can_apply_delta_from_version, is_ready}

-- The versions and the total with which a delta is accepted: the event goes from the version of the state to a
-- later one, and all are safe integers.
abbrev pub follows : Status → JsNumber → JsNumber → JsNumber → JsNumber → Bool
follows ready (natural version) (natural from) (natural to) (natural total) =
    from == version && (ltb version to && (leb to max_safe_integer && leb total max_safe_integer))
follows _ _ _ _ _ = false

module _ {K R : Type 0} where
  -- The data of the state, under the status of a delta that was refused.
  abbrev pub refused : ClientState K R → ClientState K R
  refused state = record {
    rows = state.rows;
    keys = state.keys;
    total_rows = state.total_rows;
    version = state.version;
    status = stale;
    status_code = some snapshot_stale;
    message = some "Received an invalid delta; waiting for a fresh snapshot.";
  }

  pub can_apply-follows :
      (state : ClientState K R) (event : DeltaEvent K R)
      → can_apply_delta_from_version state event
        ≡ follows state.status state.version event.from_version event.to_version event.total_rows
  unfolding can_apply_delta_from_version is_non_negative_safe_integer
  can_apply-follows state event =
      cases state.status state.version event.from_version event.to_version event.total_rows
    where
      cases :
          (st : Status) (v from to total : JsNumber)
          → (is_ready st
              && (is_non_negative_safe_integer v
                  && (is_non_negative_safe_integer from
                      && (is_non_negative_safe_integer to
                          && (is_non_negative_safe_integer total
                              && (as_natural v == as_natural from
                                  && ltb (as_natural v) (as_natural to)))))))
            ≡ follows st v from to total
      cases loading v from to total = refl
      cases stale v from to total = refl
      cases closed v from to total = refl
      cases error v from to total = refl
      cases ready (negative v) from to total = refl
      cases ready fractional from to total = refl
      cases ready (natural v) (negative from) to total = ground arith
      cases ready (natural v) fractional to total = ground arith
      cases ready (natural v) (natural from) (negative to) total = ground arith
      cases ready (natural v) (natural from) fractional to_ = ground arith
      cases ready (natural v) (natural from) (natural to) (negative total) = ground arith
      cases ready (natural v) (natural from) (natural to) fractional = ground arith
      cases ready (natural v) (natural from) (natural to) (natural total) = ground arith
