-- ===== src/Stream/Follow.antt =====
-- The client's state after a snapshot and after one update of a subscription
-- (`applyEvent` of packages/client/src/live-query-state.ts on the events that `next` of
-- packages/column-live-view-engine/src/active-materialized-query.ts sends).
use Prim.Native.String.{String}
use view_server_smart.Shared.{
  ℕ, ◌≤◌, ◌<◌, ◌≡◌, refl, ap, ◌∙◌, inl, Bool, true, false, Option, none, some, List, [], ◌∷◌, arith,
  length, contains, Distinct, length-map, ltb,
}
use view_server_smart.Shared.Arrays.{Arrays, Represents, keys_of, rows_of}
use view_server_smart.Protocol.{DeltaOperation, DeltaEvent, snapshot, delta, ready}
use view_server_smart.Protocol.Number.{
  natural, max_safe_integer, is_non_negative_safe_integer, as_natural,
}
use view_server_smart.Client.Arrays.{apply_delta_operations, arrays_of}
use view_server_smart.Client.Refinement.{
  Refines, apply_delta_operations-Refines-edit_all, arrays_of-Represents,
}
use view_server_smart.Client.State.{
  ClientState, can_apply_delta_from_version, unique_from, has_unique_keys, is_valid_snapshot_event,
  apply_snapshot, finish_delta, apply_delta, apply_event,
}
use view_server_smart.Engine.Evaluation.{QueryEvaluation, IsEvaluation}
use view_server_smart.Engine.Events.{snapshot_event, delta_event}
use view_server_smart.Engine.Delta.{delta_operations}
use view_server_smart.Engine.Delta.Agreement.{Agrees, Agrees-keys}
use view_server_smart.Engine.Delta.Correct.{delta_operations-Agrees}
use view_server_smart.Stream.Similar.{Agrees-length, Agrees-trans, edit_all-Agrees}

-- The greatest length of a JavaScript array.
abbrev pub max_array_length : ℕ
max_array_length = 4_294_967_295

module _ {K R : Type 0} (dec : Discrete K) (rows_equal : R → R → Bool) where
  -- An evaluation that fits an event.
  pub record IsSendable (e : QueryEvaluation K R) : Type 0 where
    pub evaluation : IsEvaluation dec e
    pub version : e.version ≤ max_safe_integer
    pub total : e.total_rows ≤ max_safe_integer
    pub window : length e.window ≤ e.total_rows
    pub size : length e.window ≤ max_array_length

  -- The client is ready at the version of `e`, with the keys of `e` in order, the total of `e`, and
  -- for each key the row of `e` or one equal to it by `rowsEqual`.
  pub record Shows (state : ClientState K R) (e : QueryEvaluation K R) : Type 0 where
    pub shown : List (K × R)
    pub keys : state.keys ≡ keys_of shown
    pub rows : state.rows ≡ rows_of shown
    pub agrees : Agrees rows_equal shown e.window
    pub version : state.version ≡ natural e.version
    pub total : state.total_rows ≡ natural e.total_rows
    pub status : state.status ≡ ready

  unique_from-true :
      (seen keys : List K)
      → Distinct dec keys
      → ((k : K) → contains dec k keys ≡ true → contains dec k seen ≡ false)
      → unique_from dec seen keys ≡ true
  unfolding unique_from
  unique_from-true seen [] d apart = refl
  unique_from-true seen (key ∷ keys) d apart =
      rw (apart key (ground arith), unique_from)
        (unique_from-true (key ∷ seen) keys d.1 (λ k h. ground (arith, apart k)))

  Agrees-refl : (es : List (K × R)) → Agrees rows_equal es es
  Agrees-refl [] = tt
  Agrees-refl (e ∷ es) = (refl, inl refl, Agrees-refl es)

  snapshot-valid :
      (topic query_id : String) (e : QueryEvaluation K R)
      → IsSendable e
      → is_valid_snapshot_event dec (snapshot_event topic query_id e) ≡ true
  unfolding is_valid_snapshot_event has_unique_keys snapshot_event is_non_negative_safe_integer
  snapshot-valid topic query_id e s =
      let rows : length e.rows ≡ length e.window =
        ap length s.evaluation.rows ∙ length-map (λ x. x.1) e.window in
      let keys : length e.keys ≡ length e.window =
        ap length s.evaluation.keys ∙ length-map (λ x. x.0) e.window in
      let unique : unique_from dec [] e.keys ≡ true =
        rw s.evaluation.keys
          (unique_from-true [] (keys_of e.window) s.evaluation.distinct (λ k h. refl)) in
      ground (arith, s.version, s.total, s.window)

  -- The snapshot event of an evaluation that fits an event makes the client show it.
  pub snapshot-Shows :
      (topic query_id : String) (state : ClientState K R) (e : QueryEvaluation K R)
      → IsSendable e
      → Shows (apply_event dec state (snapshot (snapshot_event topic query_id e))) e
  unfolding apply_event apply_snapshot snapshot_event
  snapshot-Shows topic query_id state e s =
      rw (snapshot-valid topic query_id e s, apply_snapshot)
        (record {
          shown = e.window;
          keys = s.evaluation.keys;
          rows = s.evaluation.rows;
          agrees = Agrees-refl e.window;
          version = refl;
          total = refl;
          status = refl;
        })

  refined_some :
      (a : Option (Arrays K R)) (es : List (K × R))
      → Refines dec a (some es)
      → (arrays : Arrays K R) × (a ≡ some arrays) × Represents dec arrays es
  refined_some none es r = elim r [ ]
  refined_some (some arrays) es r = (arrays, refl, r)

  module _
      (transitive : (a b c : R)
        → rows_equal a b ≡ true
        → rows_equal b c ≡ true
        → rows_equal a c ≡ true)
      (topic query_id : String) where
    delta_applies :
        (state : ClientState K R) (previous next : QueryEvaluation K R)
        (ops : List (DeltaOperation K R))
        → IsSendable previous
        → IsSendable next
        → Shows state previous
        → previous.version < next.version
        → can_apply_delta_from_version state (delta_event topic query_id previous.version next ops)
          ≡ true
    unfolding can_apply_delta_from_version delta_event is_non_negative_safe_integer
    delta_applies state previous next ops p n s newer =
        ground (arith, p.version, n.version, n.total, s.version, s.status)

    -- The working copies after the operations of an event hold entries that show the next window.
    applied :
        (state : ClientState K R) (previous next : QueryEvaluation K R)
        → IsSendable previous
        → IsSendable next
        → Shows state previous
        → (arrays : Arrays K R) × (shown : List (K × R)) × (apply_delta_operations dec
              (arrays_of dec state.rows state.keys)
              (delta_operations dec rows_equal previous next)
            ≡ some arrays)
          × Represents dec arrays shown
          × Agrees rows_equal shown next.window
    applied state previous next p n s =
        let (after, worked, now) =
          delta_operations-Agrees dec rows_equal previous next p.evaluation n.evaluation
            (omega (arith, p.size, n.size)) in
        let (shown, worked', near) =
          edit_all-Agrees dec rows_equal (delta_operations dec rows_equal previous next) s.shown
            previous.window after s.agrees worked in
        let distinct : Distinct dec (keys_of s.shown) =
          rw (Agrees-keys rows_equal s.shown previous.window s.agrees) p.evaluation.distinct in
        let start : Represents dec (arrays_of dec state.rows state.keys) s.shown =
          rw (s.rows, s.keys) (arrays_of-Represents dec s.shown distinct) in
        let both = rw worked' at (
          apply_delta_operations-Refines-edit_all dec
            (delta_operations dec rows_equal previous next) (arrays_of dec state.rows state.keys)
            s.shown start) in
        let (arrays, ran, held) =
          refined_some
            (apply_delta_operations dec (arrays_of dec state.rows state.keys)
              (delta_operations dec rows_equal previous next))
            shown both in
        (
          arrays,
          shown,
          ran,
          held,
          Agrees-trans dec rows_equal transitive shown after next.window near now,
        )

    finish_delta-Shows :
        (state : ClientState K R) (next : QueryEvaluation K R) (event : DeltaEvent K R)
        (arrays : Arrays K R) (shown : List (K × R))
        → Represents dec arrays shown
        → Agrees rows_equal shown next.window
        → IsSendable next
        → event.to_version ≡ natural next.version
        → event.total_rows ≡ natural next.total_rows
        → Shows (finish_delta dec state event arrays) next
    unfolding finish_delta
    finish_delta-Shows state next event arrays shown held near n version total =
        let size : length arrays.rows ≡ length next.window =
          ap length held.rows
          ∙ length-map (λ e. e.1) shown
          ∙ Agrees-length rows_equal shown next.window near in
        let fits : ltb (as_natural event.total_rows) (length arrays.rows) ≡ false =
          rw (total, size) (ground (arith, n.window)) in
        rw (fits, finish_delta)
          (record {
            shown = shown;
            keys = held.keys;
            rows = held.rows;
            agrees = near;
            version = version;
            total = total;
            status = refl;
          })

    -- Let `rowsEqual` be transitive. A client that shows the previous evaluation shows the next one, of a
    -- later version, after the delta event that the engine makes of the two, where both evaluations
    -- fit an event.
    pub delta-Shows :
        (state : ClientState K R) (previous next : QueryEvaluation K R)
        → IsSendable previous
        → IsSendable next
        → Shows state previous
        → previous.version < next.version
        → Shows
            (apply_event dec state (
              delta (
                delta_event topic query_id previous.version next
                  (delta_operations dec rows_equal previous next))))
            next
    unfolding apply_event apply_delta delta_event
    delta-Shows state previous next p n s newer =
        let (arrays, shown, ran, held, near) = applied state previous next p n s in
        let event =
          delta_event topic query_id previous.version next
            (delta_operations dec rows_equal previous next) in
        rw (delta_applies state previous next _ p n s newer, apply_delta)
          (rw (ran, apply_delta)
            (finish_delta-Shows state next event arrays shown held near n refl refl))
