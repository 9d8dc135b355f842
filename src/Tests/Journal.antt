-- ===== src/Tests/Journal.antt =====
-- A topic whose changes are numbers.
use view_server_smart.Shared.{ℕ, ◌≡◌, refl, some, none, List, [], ◌∷◌, map, arith}
use view_server_smart.Engine.Journal.{
  ChangeBatch, JournalStep, mutation, retain_changes, step, run, changes_since, batches_after,
  batches_since, new_journal, positive_safe_integer_or_default, record_changes, record_change,
  commit, trim, trim_versions, retain, clear, advance_version,
}
use view_server_smart.Engine.Journal.Replay.{IsReplayable, run-IsReplayable, changes_since-log}
use view_server_smart.Engine.Journal.Available.{
  new_topic, new_topic-IsReplayable, retained-changes_since, numbered_from,
}

-- A change that nobody listens to, then a reader, then two more changes.
abbrev three_mutations : List (JournalStep ℕ)
three_mutations = mutation (7 ∷ []) ∷ retain_changes ∷ mutation (8 ∷ 9 ∷ []) ∷ mutation [] ∷ []

run-IsReplayable_example : IsReplayable (run (new_topic none none) three_mutations)
run-IsReplayable_example =
    run-IsReplayable (new_topic none none) three_mutations (new_topic-IsReplayable none none)

abbrev two_batches : List (ChangeBatch ℕ)
two_batches =
    record { changes = 8 ∷ 9 ∷ []; version = 2 } ∷ record { changes = []; version = 3 } ∷ []

three_mutations-two_batches :
    changes_since
      (run (new_topic none none) three_mutations).journal
      1
      (run (new_topic none none) three_mutations).version
    ≡ some two_batches
unfolding run step new_topic new_journal positive_safe_integer_or_default advance_version
    record_changes record_change commit trim trim_versions retain clear changes_since batches_since
    batches_after
three_mutations-two_batches = refl

changes_since-log_example :
    two_batches ≡ batches_after 1 (run (new_topic none none) three_mutations).log
changes_since-log_example =
    changes_since-log (run (new_topic none none) three_mutations) 1 two_batches
      (run-IsReplayable (new_topic none none) three_mutations (new_topic-IsReplayable none none))
      three_mutations-two_batches

abbrev two_mutations : List (List ℕ)
two_mutations = (8 ∷ 9 ∷ []) ∷ [] ∷ []

retained-changes_since_example :
    changes_since
      (run (step (new_topic none none) retain_changes) (map mutation two_mutations)).journal
      0
      (run (step (new_topic none none) retain_changes) (map mutation two_mutations)).version
    ≡ some (numbered_from 1 two_mutations)
unfolding new_topic new_journal positive_safe_integer_or_default
retained-changes_since_example =
    retained-changes_since (new_topic none none) two_mutations refl (omega arith) (omega arith)
