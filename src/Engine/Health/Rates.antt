-- ===== src/Engine/Health/Rates.antt =====
-- The rates of a snapshot count the mutations of the last second.
use view_server_smart.Shared.{
  ℕ, ◌+◌, ◌%◌, ◌≤◌, ◌≡◌, Option, none, some, List, [], ◌∷◌, if◌then◌else◌,
}
use view_server_smart.Engine.Health.{
  MutationRateBucket, outside_window, max_mutation_rate_buckets, Ledger, record_mutation,
  MutationInput,
}

-- A bucket at an index is of a time that belongs there, and not of a later time than `last`.
abbrev FitsFrom : ℕ → ℕ → List (Option MutationRateBucket) → Type 0
FitsFrom last index [] = Unit
FitsFrom last index (none ∷ buckets) = FitsFrom last (index + 1) buckets
FitsFrom last index (some bucket ∷ buckets) =
    (bucket.occurred_at % max_mutation_rate_buckets ≡ index)
    × (bucket.occurred_at ≤ last)
    × FitsFrom last (index + 1) buckets

-- What one mutation adds to a sum over the window.
abbrev pub counted : ℕ → ℕ → ℕ → ℕ
counted now occurred_at amount = if outside_window now occurred_at then 0 else amount

-- Mutations in the order of their times, none before `last` and none after `now`.
abbrev pub IsOrdered : ℕ → ℕ → List MutationInput → Type 0
IsOrdered last now [] = Unit
IsOrdered last now (input ∷ inputs) =
    (last ≤ input.occurred_at) × (input.occurred_at ≤ now) × IsOrdered input.occurred_at now inputs

-- The sum over the mutations from 1000 milliseconds before `now` until `now`.
abbrev pub total_in_window : ℕ → (ℕ → ℕ) → List MutationInput → ℕ
total_in_window now amount [] = 0
total_in_window now amount (input ∷ inputs) =
    counted now input.occurred_at (amount input.rows_changed) + total_in_window now amount inputs

module _ {S : Type 0} where
  unfoldable pub record_mutations : List MutationInput → Ledger S → Ledger S
  record_mutations [] ledger = ledger
  record_mutations (input ∷ inputs) ledger = record_mutations inputs (record_mutation input ledger)
