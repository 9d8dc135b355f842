-- ===== src/Stream/Session.antt =====
-- A whole subscription: the engine evaluates a query again and again, the lease sends what `next` of
-- packages/column-live-view-engine/src/active-materialized-query.ts returns, and the client applies
-- each event it gets (`applyEvent` of packages/client/src/live-query-state.ts).
use Prim.Native.String.{String}
use view_server_smart.Shared.{
  ◌≤◌, ◌<◌, ◌≡◌, refl, ap, ◌∙◌, inl, inr, Bool, true, ◌&&◌, Option, none, some, List, [], ◌∷◌,
  arith, Bool-cases, ◌==◌, ==→≡,
}
use view_server_smart.Shared.Arrays.{keys_of, rows_of}
use view_server_smart.Protocol.{DeltaEvent, snapshot, delta, ready}
use view_server_smart.Protocol.Number.{natural}
use view_server_smart.Client.State.{ClientState, apply_event}
use view_server_smart.Client.Entries.{edit_all}
use view_server_smart.Engine.Evaluation.{QueryEvaluation}
use view_server_smart.Engine.Events.{snapshot_event, next_delta, is_empty}
use view_server_smart.Engine.Delta.{delta_operations}
use view_server_smart.Engine.Delta.Agreement.{Agrees}
use view_server_smart.Engine.Delta.Correct.{delta_operations-Agrees}
use view_server_smart.Stream.Similar.{Agrees-trans}
use view_server_smart.Stream.Follow.{IsSendable, Shows, snapshot-Shows, delta-Shows}

-- The two ends of a subscription: the client's state and the cursor of the lease.
pub record Session (K R : Type 0) : Type 0 where
  pub client : ClientState K R
  pub cursor : QueryEvaluation K R

module _ {K R : Type 0} (dec : Discrete K) (rows_equal : R → R → Bool)
    (topic query_id : String) where
  -- The subscription starts: the client gets the snapshot of the first evaluation.
  unfoldable pub opened : ClientState K R → QueryEvaluation K R → Session K R
  opened client first = record {
    client = apply_event dec client (snapshot (snapshot_event topic query_id first));
    cursor = first;
  }

  unfoldable pub received : ClientState K R → Option (DeltaEvent K R) → ClientState K R
  received client none = client
  received client (some event) = apply_event dec client (delta event)

  -- The engine has evaluated the query again: `next` is the execution's latest evaluation.
  unfoldable pub advanced : Session K R → QueryEvaluation K R → Session K R
  advanced session next =
      let step = next_delta dec rows_equal topic query_id session.cursor next in
      record { client = received session.client step.event; cursor = step.evaluation }

  unfoldable pub follow : Session K R → List (QueryEvaluation K R) → Session K R
  follow session [] = session
  follow session (next ∷ rest) = follow (advanced session next) rest

module _ {K R : Type 0} where
  -- The evaluation that the engine made last.
  abbrev pub latest : QueryEvaluation K R → List (QueryEvaluation K R) → QueryEvaluation K R
  latest e [] = e
  latest e (next ∷ rest) = latest next rest

module _ {K R : Type 0} (dec : Discrete K) (rows_equal : R → R → Bool) where
  -- Evaluations that fit events, each of a later version than the one before it.
  abbrev pub IsRising : QueryEvaluation K R → List (QueryEvaluation K R) → Type 0
  IsRising e [] = Unit
  IsRising e (next ∷ rest) =
      IsSendable dec rows_equal next × (e.version < next.version) × IsRising next rest

  -- The client is ready with the keys and the total of `e`, and for each key the row of `e` or one
  -- equal to it by `rowsEqual`.
  pub record Displays (client : ClientState K R) (e : QueryEvaluation K R) : Type 0 where
    pub shown : List (K × R)
    pub keys : client.keys ≡ keys_of shown
    pub rows : client.rows ≡ rows_of shown
    pub agrees : Agrees rows_equal shown e.window
    pub total : client.total_rows ≡ natural e.total_rows
    pub status : client.status ≡ ready

  Shows-Displays :
      (client : ClientState K R) (e : QueryEvaluation K R)
      → Shows dec rows_equal client e
      → Displays client e
  Shows-Displays client e s = record {
    shown = s.shown;
    keys = s.keys;
    rows = s.rows;
    agrees = s.agrees;
    total = s.total;
    status = s.status;
  }

  -- What holds between two updates.
  record Follows (session : Session K R) (last : QueryEvaluation K R) : Type 0 where
    sendable : IsSendable dec rows_equal session.cursor
    version : session.cursor.version ≤ last.version
    shows : Shows dec rows_equal session.client session.cursor
    displays : Displays session.client last

  is_empty-nil : {A : Type 0} (xs : List A) → is_empty xs ≡ true → xs ≡ []
  is_empty-nil [] h = refl
  is_empty-nil (x ∷ xs) h = cc

  module _
      (transitive : (a b c : R)
        → rows_equal a b ≡ true
        → rows_equal b c ≡ true
        → rows_equal a c ≡ true)
      (topic query_id : String) where
    quiet :
        (session : Session K R) (last next : QueryEvaluation K R)
        → Follows session last
        → IsSendable dec rows_equal next
        → last.version < next.version
        → delta_operations dec rows_equal session.cursor next ≡ []
        → session.cursor.total_rows ≡ next.total_rows
        → Follows session next
    unfolding edit_all
    quiet session last next f n newer none_needed total =
        let (after, worked, now) =
          delta_operations-Agrees dec rows_equal session.cursor next f.sendable.evaluation
            n.evaluation (omega (arith, f.sendable.size, n.size)) in
        let same : some session.cursor.window ≡ some after = rw none_needed at worked in
        let still : session.cursor.window ≡ after = ground (arith, same) in
        record {
          sendable = f.sendable;
          version = omega (arith, f.version, newer);
          shows = f.shows;
          displays = record {
            shown = f.shows.shown;
            keys = f.shows.keys;
            rows = f.shows.rows;
            agrees =
                Agrees-trans dec rows_equal transitive f.shows.shown session.cursor.window
                  next.window f.shows.agrees (rw still now);
            total = f.shows.total ∙ ap natural total;
            status = f.shows.status;
          };
        }

    advanced-Follows :
        (session : Session K R) (last next : QueryEvaluation K R)
        → Follows session last
        → IsSendable dec rows_equal next
        → last.version < next.version
        → Follows (advanced dec rows_equal topic query_id session next) next
    unfolding advanced next_delta received
    advanced-Follows session last next f n newer =
        elim (Bool-cases (
          is_empty (delta_operations dec rows_equal session.cursor next)
          && session.cursor.total_rows == next.total_rows)) [
            | inl same ↦
                rw (same, advanced)
                  (quiet session last next f n newer (is_empty-nil _ (ground (arith, same)))
                    (==→≡ _ _ (ground (arith, same))))
            | inr changed ↦
                let shows =
                  delta-Shows dec rows_equal transitive topic query_id session.client session.cursor
                    next f.sendable n f.shows (omega (arith, f.version, newer)) in
                rw (changed, advanced)
                  (record {
                    sendable = n;
                    version = omega arith;
                    shows = shows;
                    displays = Shows-Displays _ _ shows;
                  })
          ]

    follow-Displays :
        (session : Session K R) (last : QueryEvaluation K R) (rest : List (QueryEvaluation K R))
        → Follows session last
        → IsRising last rest
        → Displays (follow dec rows_equal topic query_id session rest).client (latest last rest)
    unfolding follow
    follow-Displays session last [] f r = f.displays
    follow-Displays session last (next ∷ rest) f r =
        follow-Displays (advanced dec rows_equal topic query_id session next) next rest
          (advanced-Follows session last next f r.0 r.1) r.2

    -- Let `rowsEqual` be transitive. Whatever the client's state was, after the snapshot of a first
    -- evaluation and the events of any number of further evaluations that fit events and have rising
    -- versions, it is ready with the keys and the total of the last evaluation, and has for each key
    -- the row of that evaluation or one equal to it by `rowsEqual`.
    pub opened-follow-Displays :
        (client : ClientState K R) (first : QueryEvaluation K R) (rest : List (QueryEvaluation K R))
        → IsSendable dec rows_equal first
        → IsRising first rest
        → Displays
            (follow dec rows_equal topic query_id
              (opened dec rows_equal topic query_id client first)
              rest).client
            (latest first rest)
    unfolding opened
    opened-follow-Displays client first rest s r =
        let shows = snapshot-Shows dec rows_equal topic query_id client first s in
        follow-Displays (opened dec rows_equal topic query_id client first) first rest
          (record {
            sendable = s;
            version = omega arith;
            shows = shows;
            displays = Shows-Displays _ _ shows;
          })
          r
