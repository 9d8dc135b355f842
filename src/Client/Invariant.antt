-- ===== src/Client/Invariant.antt =====
-- What every state of the client satisfies, and what a delta may change (`applyEvent` of
-- packages/client/src/live-query-state.ts).
use view_server_smart.Shared.{
  ◌≡◌, refl, sym, inl, inr, true, Option, none, some, List, arith, length, Bool-cases, length-map,
  ltb, if◌then◌else◌, ltb→le,
}
use view_server_smart.Shared.Arrays.{Arrays, Represents, keys_of, rows_of}
use view_server_smart.Protocol.{DeltaEvent, LiveEvent, snapshot, delta, status, ready, ready_code}
use view_server_smart.Protocol.Number.{is_non_negative_safe_integer, as_natural}
use view_server_smart.Client.Arrays.{apply_delta_operations, arrays_of}
use view_server_smart.Client.Entries.{edit_all}
use view_server_smart.Client.Refinement.{
  Refines, apply_delta_operations-Refines-edit_all, arrays_of-Represents,
}
use view_server_smart.Client.Acceptance.{follows, refused, can_apply-follows}
use view_server_smart.Client.State.{
  ClientState, can_apply_delta_from_version, finish_delta, apply_delta, apply_event,
  stale_delta_state,
}
use view_server_smart.Client.Consistent.{IsConsistent, snapshot-IsConsistent, status-IsConsistent}

module _ {K R : Type 0} (dec : Discrete K) where
  -- The state that shows the entries after every operation.
  abbrev pub accepted : ClientState K R → DeltaEvent K R → Option (List (K × R)) → ClientState K R
  accepted state event none = refused state
  accepted state event (some next) =
      if ltb (as_natural event.total_rows) (length next) then refused state else record {
        rows = rows_of next;
        keys = keys_of next;
        total_rows = event.total_rows;
        version = event.to_version;
        status = ready;
        status_code = some ready_code;
        message = none;
      }

  -- The edit that a delta makes, told of the list of entries.
  abbrev pub edited : ClientState K R → List (K × R) → DeltaEvent K R → ClientState K R
  edited state entries event =
      if follows state.status state.version event.from_version event.to_version event.total_rows
      then accepted state event (edit_all dec entries event.operations)
      else refused state

  refused-IsConsistent :
      (state : ClientState K R) → IsConsistent dec state → IsConsistent dec (refused state)
  refused-IsConsistent state c = record {
    entries = c.entries;
    keys = c.keys;
    rows = c.rows;
    distinct = c.distinct;
    total = c.total;
    fits = c.fits;
    version = c.version;
  }

  started :
      (state : ClientState K R) (event : DeltaEvent K R) (c : IsConsistent dec state)
      → Refines dec
          (apply_delta_operations dec (arrays_of dec state.rows state.keys) event.operations)
          (edit_all dec c.entries event.operations)
  started state event c =
      apply_delta_operations-Refines-edit_all dec event.operations
        (arrays_of dec state.rows state.keys) c.entries
        (rw (c.rows, c.keys) (arrays_of-Represents dec c.entries c.distinct))

  finish_delta-accepted :
      (state : ClientState K R) (event : DeltaEvent K R) (arrays : Arrays K R) (next : List (K × R))
      → Represents dec arrays next
      → finish_delta dec state event arrays ≡ accepted state event (some next)
  unfolding finish_delta stale_delta_state
  finish_delta-accepted state event arrays next held =
      rw (held.rows, held.keys, length-map (λ e. e.1) next) refl

  -- On a consistent state, a delta is the edit of the list of entries. It is applied as a whole exactly where the
  -- state is ready, the event goes from the version of the state to a later one, versions and total are safe integers,
  -- every operation applies and the total is not below the number of rows left. Else the state keeps its rows, keys,
  -- total and version, and turns stale with a message.
  pub apply_delta-edited :
      (state : ClientState K R) (event : DeltaEvent K R) (c : IsConsistent dec state)
      → apply_delta dec state event ≡ edited state c.entries event
  unfolding apply_delta stale_delta_state
  apply_delta-edited state event c = elim (Bool-cases (can_apply_delta_from_version state event)) [
    | inr late ↦ rw (late, apply_delta, sym (can_apply-follows state event), late) refl
    | inl fits ↦
        rw (fits, apply_delta, sym (can_apply-follows state event), fits)
          (both (apply_delta_operations dec (arrays_of dec state.rows state.keys) event.operations)
            (edit_all dec c.entries event.operations) (started state event c))
  ]
    where
      both :
          (a : Option (Arrays K R)) (b : Option (List (K × R)))
          → Refines dec a b
          → elim a [
            | none ↦ stale_delta_state state
            | some arrays ↦ finish_delta dec state event arrays
          ]
            ≡ accepted state event b
      both none none r = refl
      both none (some es) r = elim r [ ]
      both (some a) none r = elim r [ ]
      both (some a) (some es) r = finish_delta-accepted state event a es r

  accepted-IsConsistent :
      (state : ClientState K R) (event : DeltaEvent K R)
      → IsConsistent dec state
      → is_non_negative_safe_integer event.total_rows ≡ true
      → is_non_negative_safe_integer event.to_version ≡ true
      → (a : Option (Arrays K R)) (b : Option (List (K × R))) → Refines dec a b
      → IsConsistent dec (accepted state event b)
  accepted-IsConsistent state event c total version none none r = refused-IsConsistent state c
  accepted-IsConsistent state event c total version none (some es) r = elim r [ ]
  accepted-IsConsistent state event c total version (some a) none r = elim r [ ]
  accepted-IsConsistent state event c total version (some a) (some es) r =
      elim (Bool-cases (ltb (as_natural event.total_rows) (length es))) [
        | inl e ↦ rw e (refused-IsConsistent state c)
        | inr e ↦ rw e (record {
          entries = es;
          keys = refl;
          rows = refl;
          distinct = rw r.keys at r.distinct;
          total = total;
          fits = ltb→le _ _ e;
          version = version;
        })
      ]

  delta-IsConsistent :
      (state : ClientState K R) (event : DeltaEvent K R)
      → IsConsistent dec state
      → IsConsistent dec (apply_delta dec state event)
  unfolding can_apply_delta_from_version
  delta-IsConsistent state event c = elim (Bool-cases (can_apply_delta_from_version state event)) [
    | inr late ↦
        rw (apply_delta-edited state event c, sym (can_apply-follows state event), late)
          (refused-IsConsistent state c)
    | inl fits ↦
        let total : is_non_negative_safe_integer event.total_rows ≡ true = ground arith in
        let version : is_non_negative_safe_integer event.to_version ≡ true = ground arith in
        rw (apply_delta-edited state event c, sym (can_apply-follows state event), fits)
          (accepted-IsConsistent state event c total version
            (apply_delta_operations dec (arrays_of dec state.rows state.keys) event.operations)
            (edit_all dec c.entries event.operations) (started state event c))
  ]

  -- Every event keeps the state consistent: the rows and keys are one list of entries without a
  -- repeated key, and version and total are safe integers, the total not below the number of rows.
  pub apply_event-IsConsistent :
      (state : ClientState K R) (event : LiveEvent K R)
      → IsConsistent dec state
      → IsConsistent dec (apply_event dec state event)
  unfolding apply_event
  apply_event-IsConsistent state (snapshot event) c = snapshot-IsConsistent dec state event c
  apply_event-IsConsistent state (delta event) c = delta-IsConsistent state event c
  apply_event-IsConsistent state (status event) c = status-IsConsistent dec state event c
