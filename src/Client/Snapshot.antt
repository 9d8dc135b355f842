-- ===== src/Client/Snapshot.antt =====
-- What a snapshot does to the state, told without the code's loop over seen keys
-- (`applySnapshot` of packages/client/src/live-query-state.ts).
use view_server_smart.Shared.{
  ◌≡◌, refl, sym, ap, inl, inr, Bool, true, false, ◌&&◌, ◌==◌, not, leb, some, none, List, [], ◌∷◌,
  arith, length, contains, Bool-cases, if◌then◌else◌,
}
use view_server_smart.Protocol.{SnapshotEvent, snapshot, ready, stale, ready_code, snapshot_stale}
use view_server_smart.Protocol.Number.{
  JsNumber, natural, negative, fractional, max_safe_integer, is_non_negative_safe_integer,
  as_natural,
}
use view_server_smart.Client.State.{
  ClientState, unique_from, has_unique_keys, is_valid_snapshot_event, apply_snapshot, apply_event,
  stale_snapshot_state,
}

module _ {K : Type 0} (dec : Discrete K) where
  -- No key stands again behind itself.
  abbrev pub without_repeats : List K → Bool
  without_repeats [] = true
  without_repeats (key ∷ keys) = not (contains dec key keys) && without_repeats keys

  -- No key of the second list stands in the first.
  abbrev apart : List K → List K → Bool
  apart seen [] = true
  apart seen (key ∷ keys) = not (contains dec key seen) && apart seen keys

  apart-more :
      (key : K) (seen keys : List K)
      → apart (key ∷ seen) keys ≡ (not (contains dec key keys) && apart seen keys)
  apart-more key seen [] = refl
  apart-more key seen (k ∷ keys) = elim (dec k key) [
    | yes e ↦ ground (arith, e, apart-more key seen keys)
    | no n ↦ ground (arith, n, λ (e : key ≡ k). n (sym e), apart-more key seen keys)
  ]

  unique_from-apart :
      (seen keys : List K) → unique_from dec seen keys ≡ (without_repeats keys && apart seen keys)
  unfolding unique_from
  unique_from-apart seen [] = refl
  unique_from-apart seen (key ∷ keys) =
      ground (arith, unique_from-apart (key ∷ seen) keys, apart-more key seen keys)

  apart-none : (keys : List K) → apart [] keys ≡ true
  apart-none [] = refl
  apart-none (key ∷ keys) = apart-none keys

  has_unique_keys-without_repeats :
      (keys : List K) → has_unique_keys dec keys ≡ without_repeats keys
  unfolding has_unique_keys
  has_unique_keys-without_repeats keys = ground (arith, unique_from-apart [] keys, apart-none keys)

module _ {K R : Type 0} (dec : Discrete K) where
  -- The snapshots that are accepted: version and total are safe integers, the rows are no more than the total, every
  -- row has a key, and no key stands twice.
  abbrev pub fits : JsNumber → JsNumber → List K → List R → Bool
  fits (natural version) (natural total) keys rows =
      leb version max_safe_integer
      && (leb total max_safe_integer
          && (leb (length rows) total && (length keys == length rows && without_repeats dec keys)))
  fits _ _ keys rows = false

  -- The state that a snapshot leads to.
  abbrev pub shown : ClientState K R → SnapshotEvent K R → ClientState K R
  shown state event =
      if fits event.version event.total_rows event.keys event.rows
      then record {
        rows = event.rows;
        keys = event.keys;
        total_rows = event.total_rows;
        version = event.version;
        status = ready;
        status_code = some ready_code;
        message = none;
      }
      else record {
        rows = state.rows;
        keys = state.keys;
        total_rows = state.total_rows;
        version = state.version;
        status = stale;
        status_code = some snapshot_stale;
        message = some "Received an invalid snapshot; waiting for a fresh snapshot.";
      }

  is_valid-fits :
      (event : SnapshotEvent K R)
      → is_valid_snapshot_event dec event
        ≡ fits event.version event.total_rows event.keys event.rows
  unfolding is_valid_snapshot_event is_non_negative_safe_integer
  is_valid-fits event = cases event.version event.total_rows event.keys event.rows
    where
      cases :
          (version total : JsNumber) (keys : List K) (rows : List R)
          → (is_non_negative_safe_integer version
              && (is_non_negative_safe_integer total
                  && (leb (length rows) (as_natural total)
                      && (length keys == length rows && has_unique_keys dec keys))))
            ≡ fits version total keys rows
      cases (negative version) total keys rows = refl
      cases fractional total keys rows = refl
      cases (natural version) (negative total) keys rows = ground arith
      cases (natural version) fractional keys rows = ground arith
      cases (natural version) (natural total) keys rows =
          ap
            (λ (unique : Bool).
              leb version max_safe_integer
              && (leb total max_safe_integer
                  && (leb (length rows) total && (length keys == length rows && unique))))
            (has_unique_keys-without_repeats dec keys)

  -- Whatever the state is, a snapshot is taken as a whole exactly where its version and its total are safe integers,
  -- its rows are no more than the total, it has as many keys as rows, and no key stands twice: the state then has the
  -- rows, keys, total and version of the event and is ready. Else the state keeps its own and turns stale with a message.
  pub apply_event-shown :
      (state : ClientState K R) (event : SnapshotEvent K R)
      → apply_event dec state (snapshot event) ≡ shown state event
  unfolding apply_event apply_snapshot stale_snapshot_state
  apply_event-shown state event = elim (Bool-cases (is_valid_snapshot_event dec event)) [
    | inl e ↦ rw (e, apply_snapshot, sym (is_valid-fits event), e) refl
    | inr e ↦ rw (e, apply_snapshot, sym (is_valid-fits event), e) refl
  ]
