-- ===== src/Client/Consistent.antt =====
-- The consistent states of the client, and that snapshots and status events lead to such states
-- (packages/client/src/live-query-state.ts).
use view_server_smart.Shared.{
  ◌≤◌, ◌≡◌, refl, ap, ◌∙◌, inl, inr, true, false, some, List, [], ◌∷◌, arith, length, contains,
  Distinct, Bool-cases, length-map,
}
use view_server_smart.Shared.Arrays.{keys_of, rows_of}
use view_server_smart.Protocol.{SnapshotEvent, StatusEvent}
use view_server_smart.Protocol.Number.{is_non_negative_safe_integer, as_natural}
use view_server_smart.Client.State.{
  ClientState, initial_client_state, unique_from, has_unique_keys, is_valid_snapshot_event,
  apply_snapshot, apply_status, stale_snapshot_state, is_closed,
}

module _ {K : Type 0} (dec : Discrete K) where
  unique_from-Distinct :
      (seen keys : List K)
      → unique_from dec seen keys ≡ true
      → Distinct dec keys × ((k : K) → contains dec k keys ≡ true → contains dec k seen ≡ false)
  unfolding unique_from
  unique_from-Distinct seen [] h = (tt, λ k e. cc)
  unique_from-Distinct seen (key ∷ keys) h = elim (Bool-cases (contains dec key seen)) [
    | inl e ↦ absurd (ground arith)
    | inr e ↦
        let rest : unique_from dec (key ∷ seen) keys ≡ true = ground arith in
        let (distinct, apart) = unique_from-Distinct (key ∷ seen) keys rest in
        ((later key keys apart, distinct), λ k at. ground (arith, e, apart k))
  ]
    where
      later :
          (k : K) (ks : List K)
          → ((j : K) → contains dec j ks ≡ true → contains dec j (k ∷ seen) ≡ false)
          → contains dec k ks ≡ false
      later k ks apart = ground (arith, apart k)

module _ {K R : Type 0} (dec : Discrete K) where
  -- The rows and the keys are one list of entries, no key stands twice, and the version and the
  -- total are safe integers, the total not below the number of rows.
  pub record IsConsistent (state : ClientState K R) : Type 0 where
    pub entries : List (K × R)
    pub keys : state.keys ≡ keys_of entries
    pub rows : state.rows ≡ rows_of entries
    pub distinct : Distinct dec (keys_of entries)
    pub total : is_non_negative_safe_integer state.total_rows ≡ true
    pub fits : length entries ≤ as_natural state.total_rows
    pub version : is_non_negative_safe_integer state.version ≡ true

  -- Lists of one length are the columns of a list of entries.
  columns :
      (keys : List K) (rows : List R)
      → length keys ≡ length rows
      → (entries : List (K × R)) × (keys ≡ keys_of entries) × (rows ≡ rows_of entries)
  columns [] [] h = ([], refl, refl)
  columns [] (r ∷ rows) h = absurd (omega arith)
  columns (k ∷ keys) [] h = absurd (omega arith)
  columns (k ∷ keys) (r ∷ rows) h =
      let (entries, ks, rs) = columns keys rows (omega arith) in
      ((k, r) ∷ entries, ap (◌∷◌ k) ks, ap (◌∷◌ r) rs)

  pub initial-IsConsistent : IsConsistent initial_client_state
  unfolding initial_client_state is_non_negative_safe_integer
  initial-IsConsistent = record {
    entries = [];
    keys = refl;
    rows = refl;
    distinct = tt;
    total = refl;
    fits = omega arith;
    version = refl;
  }

  pub snapshot-IsConsistent :
      (state : ClientState K R) (event : SnapshotEvent K R)
      → IsConsistent state
      → IsConsistent (apply_snapshot dec state event)
  unfolding apply_snapshot stale_snapshot_state is_valid_snapshot_event has_unique_keys
  snapshot-IsConsistent state event c = elim (Bool-cases (is_valid_snapshot_event dec event)) [
    | inl valid ↦
        let (entries, keys, rows) = columns event.keys event.rows (ground arith) in
        let unique : unique_from dec [] event.keys ≡ true = ground arith in
        let size : length event.rows ≡ length entries =
          ap length rows ∙ length-map (λ e. e.1) entries in
        let fits : length event.rows ≤ as_natural event.total_rows = ground arith in
        rw (valid, apply_snapshot)
          (record {
            entries = entries;
            keys = keys;
            rows = rows;
            distinct = rw keys at (unique_from-Distinct dec [] event.keys unique).0;
            total = ground arith;
            fits = omega (arith, fits, size);
            version = ground arith;
          })
    | inr invalid ↦
        rw (invalid, apply_snapshot)
          (record {
            entries = c.entries;
            keys = c.keys;
            rows = c.rows;
            distinct = c.distinct;
            total = c.total;
            fits = c.fits;
            version = c.version;
          })
  ]

  pub status-IsConsistent :
      (state : ClientState K R) (event : StatusEvent)
      → IsConsistent state
      → IsConsistent (apply_status state event)
  unfolding apply_status
  status-IsConsistent state event c = elim (Bool-cases (is_closed event.status)) [
    | inl e ↦ rw (e, apply_status) (kept initial_client_state initial-IsConsistent)
    | inr e ↦ rw (e, apply_status) (kept state c)
  ]
    where
      kept :
          (s : ClientState K R)
          → IsConsistent s
          → IsConsistent (record s {
            status = event.status;
            status_code = some event.code;
            message = event.message;
          })
      kept s c = record {
        entries = c.entries;
        keys = c.keys;
        rows = c.rows;
        distinct = c.distinct;
        total = c.total;
        fits = c.fits;
        version = c.version;
      }
