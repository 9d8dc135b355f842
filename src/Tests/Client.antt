-- ===== src/Tests/Client.antt =====
-- A client with two rows, and events that fit and that do not.
use view_server_smart.Shared.{ℕ, ◌≡◌, refl, none, List, [], ◌∷◌, arith, ℕ_discrete}
use view_server_smart.Shared.Arrays.{keys_of, rows_of}
use view_server_smart.Protocol.{
  DeltaOperation, insert, update, move, remove, DeltaEvent, SnapshotEvent, snapshot, delta, ready,
}
use view_server_smart.Protocol.Number.{natural, is_non_negative_safe_integer}
use view_server_smart.Client.Arrays.{apply_delta_operations, arrays_of}
use view_server_smart.Client.Entries.{edit_all}
use view_server_smart.Client.Refinement.{
  Refines, apply_delta_operations-Refines-edit_all, arrays_of-Represents,
}
use view_server_smart.Client.State.{ClientState, apply_delta, apply_event}
use view_server_smart.Client.Snapshot.{shown, apply_event-shown}
use view_server_smart.Client.Consistent.{IsConsistent}
use view_server_smart.Client.Invariant.{edited, apply_delta-edited, apply_event-IsConsistent}

abbrev two_entries : List (ℕ × ℕ)
two_entries = (1, 10) ∷ (2, 20) ∷ []

abbrev two_rows : ClientState ℕ ℕ
two_rows = record {
  rows = 10 ∷ 20 ∷ [];
  keys = 1 ∷ 2 ∷ [];
  total_rows = natural 7;
  version = natural 3;
  status = ready;
  status_code = none;
  message = none;
}

two_rows-IsConsistent : IsConsistent ℕ_discrete two_rows
unfolding ℕ_discrete is_non_negative_safe_integer
two_rows-IsConsistent = record {
  entries = two_entries;
  keys = refl;
  rows = refl;
  distinct = (refl, (refl, tt));
  total = refl;
  fits = omega arith;
  version = refl;
}

abbrev four_operations : List (DeltaOperation ℕ ℕ)
four_operations =
    remove 1
    ∷ insert 3 30 (natural 0)
    ∷ move 2 (natural 1) (natural 0)
    ∷ update 3 31 (natural 1)
    ∷ []

abbrev four_operation_event : DeltaEvent ℕ ℕ
four_operation_event = record {
  topic = "orders";
  query_id = "q";
  from_version = natural 3;
  to_version = natural 4;
  operations = four_operations;
  total_rows = natural 7;
}

apply_delta-edited_example :
    apply_delta ℕ_discrete two_rows four_operation_event
    ≡ edited ℕ_discrete two_rows two_rows-IsConsistent.entries four_operation_event
apply_delta-edited_example =
    apply_delta-edited ℕ_discrete two_rows four_operation_event two_rows-IsConsistent

apply_event-IsConsistent_example :
    IsConsistent ℕ_discrete (apply_event ℕ_discrete two_rows (delta four_operation_event))
apply_event-IsConsistent_example =
    apply_event-IsConsistent ℕ_discrete two_rows (delta four_operation_event) two_rows-IsConsistent

apply_delta_operations-Refines-edit_all_example :
    Refines ℕ_discrete
      (apply_delta_operations ℕ_discrete
        (arrays_of ℕ_discrete (rows_of two_entries) (keys_of two_entries))
        four_operations)
      (edit_all ℕ_discrete two_entries four_operations)
unfolding ℕ_discrete
apply_delta_operations-Refines-edit_all_example =
    apply_delta_operations-Refines-edit_all ℕ_discrete four_operations
      (arrays_of ℕ_discrete (rows_of two_entries) (keys_of two_entries)) two_entries
      (arrays_of-Represents ℕ_discrete two_entries (refl, (refl, tt)))

-- A snapshot of two rows with the same key.
abbrev repeated_key_snapshot : SnapshotEvent ℕ ℕ
repeated_key_snapshot = record {
  topic = "orders";
  query_id = "q";
  version = natural 9;
  keys = 4 ∷ 4 ∷ [];
  rows = 40 ∷ 41 ∷ [];
  total_rows = natural 2;
}

apply_event-shown_example :
    apply_event ℕ_discrete two_rows (snapshot repeated_key_snapshot)
    ≡ shown ℕ_discrete two_rows repeated_key_snapshot
apply_event-shown_example = apply_event-shown ℕ_discrete two_rows repeated_key_snapshot
