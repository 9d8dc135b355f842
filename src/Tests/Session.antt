-- ===== src/Tests/Session.antt =====
-- A subscription of three evaluations, and the path of one snapshot and one delta.
use view_server_smart.Shared.{[], ◌∷◌, arith, ℕ_discrete}
use view_server_smart.Protocol.{snapshot, delta}
use view_server_smart.Client.State.{initial_client_state, apply_event}
use view_server_smart.Engine.Events.{snapshot_event, delta_event}
use view_server_smart.Engine.Delta.{delta_operations}
use view_server_smart.Stream.Follow.{Shows, snapshot-Shows, delta-Shows}
use view_server_smart.Stream.Session.{opened-follow-Displays, opened, follow, latest, Displays}
use view_server_smart.Tests.{
  first, second, third, first-IsSendable, second-IsSendable, third-IsSendable, same_row,
  same_row_trans,
}

opened-follow-Displays_example :
    Displays ℕ_discrete same_row
      (follow ℕ_discrete same_row "orders" "q"
        (opened ℕ_discrete same_row "orders" "q" initial_client_state first)
        (second ∷ third ∷ [])).client
      (latest first (second ∷ third ∷ []))
opened-follow-Displays_example =
    opened-follow-Displays ℕ_discrete same_row same_row_trans "orders" "q" initial_client_state
      first (second ∷ third ∷ []) first-IsSendable
      (second-IsSendable, omega arith, (third-IsSendable, omega arith, tt))

delta-Shows_example :
    Shows ℕ_discrete same_row
      (apply_event ℕ_discrete
        (apply_event ℕ_discrete initial_client_state (snapshot (snapshot_event "orders" "q" first)))
        (delta
          (delta_event "orders" "q" 1 second (delta_operations ℕ_discrete same_row first second))))
      second
delta-Shows_example =
    delta-Shows ℕ_discrete same_row same_row_trans "orders" "q"
      (apply_event ℕ_discrete initial_client_state (snapshot (snapshot_event "orders" "q" first)))
      first second first-IsSendable second-IsSendable
      (snapshot-Shows ℕ_discrete same_row "orders" "q" initial_client_state first first-IsSendable)
      (omega arith)
