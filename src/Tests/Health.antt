-- ===== src/Tests/Health.antt =====
-- A ledger of subscriptions that are numbers.
use view_server_smart.Shared.{ℕ, List, [], ◌∷◌, ℕ_discrete}
use view_server_smart.Engine.Health.{MutationInput, reset_ledger}
use view_server_smart.Engine.Health.Totals.{
  LedgerStep, opened, closed, queue_depth, backpressure, ledger_run, IsBalanced,
  ledger_run-IsBalanced, reset_ledger-IsBalanced,
}

abbrev six_calls : List (LedgerStep ℕ)
six_calls = opened 1 ∷ opened 2 ∷ queue_depth 1 5 ∷ queue_depth 1 3 ∷ backpressure 2 ∷ closed 2 ∷ []

ledger_run-IsBalanced_example : IsBalanced ℕ_discrete (ledger_run ℕ_discrete reset_ledger six_calls)
ledger_run-IsBalanced_example =
    ledger_run-IsBalanced ℕ_discrete reset_ledger six_calls (reset_ledger-IsBalanced ℕ_discrete)

-- Two mutations in one millisecond, one 1001 milliseconds later in the same bucket, one after it.
abbrev four_mutations : List MutationInput
four_mutations =
    record { version = 1; row_count = 1; rows_changed = 1; occurred_at = 50 }
    ∷ record { version = 2; row_count = 3; rows_changed = 2; occurred_at = 50 }
    ∷ record { version = 3; row_count = 3; rows_changed = 3; occurred_at = 1051 }
    ∷ record { version = 4; row_count = 2; rows_changed = 1; occurred_at = 1200 }
    ∷ []
