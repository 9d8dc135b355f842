-- ===== src/Tests/Registry.antt =====
-- A registry of executions that are numbers, the even ones incremental.
use view_server_smart.Shared.{ℕ, ◌%◌, refl, Bool, none, List, [], ◌∷◌, ◌==◌, ℕ_discrete}
use view_server_smart.Engine.Journal.{
  Journal, new_journal, retain, clear, positive_safe_integer_or_default,
}
use view_server_smart.Engine.Registry.{Registry}
use view_server_smart.Engine.Registry.Counts.{
  RegistryStep, acquired, gave_up, released, registry_run, IsCounted, registry_run-IsCounted,
}

abbrev is_even : ℕ → Bool
is_even n = (n % 2) == 0

-- One other reader holds the journal.
abbrev held_journal : Journal ℕ
held_journal = retain (new_journal none none) 0

abbrev no_executions : Registry ℕ ℕ ℕ
no_executions = record { materialized = []; journal = held_journal; version = 0 }

no_executions-IsCounted : IsCounted 1 no_executions
unfolding retain clear new_journal positive_safe_integer_or_default
no_executions-IsCounted = refl

abbrev six_steps : List (RegistryStep ℕ ℕ)
six_steps = acquired 1 20 ∷ acquired 2 21 ∷ acquired 1 20 ∷ released 1 ∷ gave_up 1 ∷ released 1 ∷ []

registry_run-IsCounted_example :
    IsCounted 1 (registry_run ℕ_discrete is_even no_executions six_steps)
registry_run-IsCounted_example =
    registry_run-IsCounted ℕ_discrete is_even 1 no_executions six_steps no_executions-IsCounted
