-- ===== src/Engine/Journal/Replay.antt =====
-- What `changesSince` returns is what happened: every batch of changes since the version, in order.
use view_server_smart.Shared.{
  ℕ, ◌+◌, ◌≤◌, ◌<◌, ◌≡◌, refl, ap, inl, inr, true, false, List, [], ◌∷◌, ◌++◌, length, arith, ltb,
  ◌==◌, Bool-cases, length-append, some, ==→≡,
}
use view_server_smart.Engine.Journal.{
  ChangeBatch, JournaledTopic, JournalStep, mutation, retain_changes, release_changes, reset_topic,
  advance_version, step, run, batches_after, batches_since, changes_since,
}
use view_server_smart.Engine.Journal.Faithful.{
  IsNumbered, IsFaithful, clear-IsFaithful, mutation-IsFaithful, retain-IsFaithful,
  release-IsFaithful,
}

module _ {C : Type 0} where
  pub IsNumbered-append :
      (version : ℕ) (log : List (ChangeBatch C)) (batch : ChangeBatch C)
      → IsNumbered version log
      → batch.version ≡ version + length log
      → IsNumbered version (log ++ batch ∷ [])
  IsNumbered-append version [] batch n h = (omega (arith, h), tt)
  IsNumbered-append version (b ∷ log) batch n h =
      (n.0, IsNumbered-append (version + 1) log batch n.1 (omega (arith, h)))

  -- The journal holds the latest batches of the log, which has one batch for each version.
  pub record IsReplayable (topic : JournaledTopic C) : Type 0 where
    pub faithful : IsFaithful topic.journal topic.log
    pub numbered : IsNumbered 1 topic.log
    pub length : length topic.log ≡ topic.version

  step-IsReplayable :
      (topic : JournaledTopic C) (next : JournalStep C)
      → IsReplayable topic
      → IsReplayable (step topic next)
  unfolding step advance_version
  step-IsReplayable topic (mutation changes) r = record {
    faithful =
        mutation-IsFaithful topic.journal topic.log changes topic.version (topic.version + 1)
          r.faithful;
    numbered =
        IsNumbered-append 1 topic.log (record { changes = changes; version = topic.version + 1 })
          r.numbered (omega (arith, r.length));
    length = omega (
      arith,
      r.length,
      length-append topic.log (record { changes = changes; version = topic.version + 1 } ∷ []),
    );
  }
  step-IsReplayable topic retain_changes r = record {
    faithful = retain-IsFaithful topic.journal topic.log topic.version r.faithful;
    numbered = r.numbered;
    length = r.length;
  }
  step-IsReplayable topic release_changes r = record {
    faithful = release-IsFaithful topic.journal topic.log topic.version r.faithful;
    numbered = r.numbered;
    length = r.length;
  }
  step-IsReplayable topic reset_topic r = record {
    faithful = clear-IsFaithful topic.journal topic.version [];
    numbered = tt;
    length = refl;
  }

  -- Whatever mutations, retains, releases and resets happen to a replayable topic, it stays replayable:
  -- its journal holds the latest batches of the log, no more of them and with no more changes than its
  -- limits allow, and the log has one batch for each version.
  pub run-IsReplayable :
      (topic : JournaledTopic C) (steps : List (JournalStep C))
      → IsReplayable topic
      → IsReplayable (run topic steps)
  unfolding run
  run-IsReplayable topic [] r = r
  run-IsReplayable topic (next ∷ steps) r =
      run-IsReplayable (step topic next) steps (step-IsReplayable topic next r)

  pub batches_after-later :
      (version at : ℕ) (log : List (ChangeBatch C))
      → IsNumbered at log
      → version < at
      → batches_after version log ≡ log
  unfolding batches_after
  batches_after-later version at [] n h = refl
  batches_after-later version at (b ∷ log) n h =
      let later : ltb version b.version ≡ true = ground (arith, n.0) in
      rw (later, batches_after)
        (ap (◌∷◌ b) (batches_after-later version (at + 1) log n.1 (omega (arith, h))))

  -- Batches that are not later are not in the answer.
  batches_after-earlier :
      (version at : ℕ) (older rest : List (ChangeBatch C))
      → IsNumbered at (older ++ rest)
      → at + length older ≤ version + 1
      → batches_after version (older ++ rest) ≡ batches_after version rest
  unfolding batches_after
  batches_after-earlier version at [] rest n h = refl
  batches_after-earlier version at (b ∷ older) rest n h =
      let earlier : ltb version b.version ≡ false = ground (arith, n.0) in
      rw (earlier, batches_after)
        (batches_after-earlier version (at + 1) older rest n.1 (omega (arith, h)))

  first_number :
      (at : ℕ) (older : List (ChangeBatch C)) (first : ChangeBatch C) (rest : List (ChangeBatch C))
      → IsNumbered at (older ++ first ∷ rest)
      → first.version ≡ at + length older
  first_number at [] first rest n = omega (arith, n.0)
  first_number at (b ∷ older) first rest n =
      omega (arith, first_number (at + 1) older first rest n.1)

  nothing_later :
      (version at : ℕ) (log : List (ChangeBatch C))
      → IsNumbered at log
      → at + length log ≤ version + 1
      → batches_after version log ≡ []
  unfolding batches_after
  nothing_later version at [] n h = refl
  nothing_later version at (b ∷ log) n h =
      let earlier : ltb version b.version ≡ false = ground (arith, n.0) in
      rw (earlier, batches_after) (nothing_later version (at + 1) log n.1 (omega (arith, h)))

  batches_since-log :
      (older batches : List (ChangeBatch C)) (version : ℕ) (answer : List (ChangeBatch C))
      → IsNumbered 1 (older ++ batches)
      → batches_since batches version ≡ some answer
      → answer ≡ batches_after version (older ++ batches)
  unfolding batches_since
  batches_since-log older [] version answer n h = cc
  batches_since-log older (first ∷ rest) version answer n h =
      let from = first_number 1 older first rest n in
      elim (Bool-cases (ltb (version + 1) first.version)) [
        | inl e ↦ absurd (ground arith)
        | inr e ↦
            let same : some (batches_after version (first ∷ rest)) ≡ some answer =
              rw (e, batches_since) at h in
            let earlier =
              batches_after-earlier version 1 older (first ∷ rest) n (ground (arith, from, e)) in
            rw earlier (ground (arith, same))
      ]

  -- Where the journal of a replayable topic answers for a version, the answer is every batch of
  -- changes committed after that version, in order.
  pub changes_since-log :
      (topic : JournaledTopic C) (version : ℕ) (answer : List (ChangeBatch C))
      → IsReplayable topic
      → changes_since topic.journal version topic.version ≡ some answer
      → answer ≡ batches_after version topic.log
  unfolding changes_since
  changes_since-log topic version answer r h = elim (Bool-cases (version == topic.version)) [
    | inl e ↦
        let current : version ≡ topic.version = ==→≡ _ _ e in
        let empty : some [] ≡ some answer = rw (e, changes_since) at h in
        rw (nothing_later version 1 topic.log r.numbered (omega (arith, r.length, current)))
          (ground (arith, empty))
    | inr e ↦
        let answered : batches_since topic.journal.batches version ≡ some answer =
          ground (arith, e, h) in
        rw r.faithful.suffix (
          batches_since-log r.faithful.older topic.journal.batches version answer
            (rw r.faithful.suffix at r.numbered) answered)
  ]
