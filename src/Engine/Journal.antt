-- ===== src/Engine/Journal.antt =====
-- The journal of a topic's row changes
-- (packages/column-live-view-engine/src/topic-row-change-journal.ts). A change is opaque to the
-- journal. Versions are natural numbers, since a storage counts them from 0: of `changesSince` the
-- test `version < 0` therefore never holds. `maxEntries` and `maxVersions` stand in the record, as
-- the fields of the class do.
use view_server_smart.Shared.{
  ℕ, ◌+◌, ◌-◌, Bool, true, false, ◌||◌, ◌&&◌, Option, none, some, List, [], ◌∷◌, ◌++◌, length, ltb,
  leb, ◌==◌, if◌then◌else◌,
}
use view_server_smart.Protocol.Number.{JsNumber, is_non_negative_safe_integer, as_natural}
pub mod Recording
pub mod Faithful
pub mod Replay
pub mod Available

pub record ChangeBatch {ℓ} (C : Type ℓ) : Type ℓ where
  pub changes : List C
  pub version : ℕ

abbrev pub max_row_change_journal_entries : ℕ
max_row_change_journal_entries = 65_536

abbrev pub max_row_change_journal_versions : ℕ
max_row_change_journal_versions = 1_024

unfoldable pub positive_safe_integer_or_default : Option JsNumber → ℕ → ℕ
positive_safe_integer_or_default none fallback = fallback
positive_safe_integer_or_default (some value) fallback =
    if is_non_negative_safe_integer value && ltb 0 (as_natural value)
    then as_natural value
    else fallback

pub record Journal {ℓ} (C : Type ℓ) : Type ℓ where
  pub pending_changes : List C
  pub pending_changes_overflowed : Bool
  pub batches : List (ChangeBatch C)
  pub change_count : ℕ
  pub invalid_before_version : ℕ
  pub refs : ℕ
  pub max_entries : ℕ
  pub max_versions : ℕ

module _ {ℓ} {C : Type ℓ} where
  unfoldable pub new_journal : Option JsNumber → Option JsNumber → Journal C
  new_journal max_entries max_versions = record {
    pending_changes = [];
    pending_changes_overflowed = false;
    batches = [];
    change_count = 0;
    invalid_before_version = 0;
    refs = 0;
    max_entries = positive_safe_integer_or_default max_entries max_row_change_journal_entries;
    max_versions = positive_safe_integer_or_default max_versions max_row_change_journal_versions;
  }

  -- The loop of `changesSince`.
  unfoldable pub batches_after : ℕ → List (ChangeBatch C) → List (ChangeBatch C)
  batches_after version [] = []
  batches_after version (batch ∷ batches) =
      let rest = batches_after version batches in
      if ltb version batch.version then batch ∷ rest else rest

  -- From the first batch on: `none` where the journal does not reach back to the version.
  unfoldable pub batches_since : List (ChangeBatch C) → ℕ → Option (List (ChangeBatch C))
  unfolding batches_after
  batches_since [] version = none
  batches_since (first ∷ rest) version =
      if ltb (version + 1) first.version then none else some (batches_after version (first ∷ rest))

  unfoldable pub changes_since : Journal C → ℕ → ℕ → Option (List (ChangeBatch C))
  changes_since journal version current_version =
      if version == current_version
      then some []
      else if journal.refs == 0 || ltb current_version version
      then none
      else if ltb version journal.invalid_before_version
      then none
      else batches_since journal.batches version

  unfoldable pub clear : Journal C → ℕ → Journal C
  clear journal current_version = record journal {
    pending_changes = [];
    pending_changes_overflowed = false;
    batches = [];
    change_count = 0;
    invalid_before_version = current_version;
  }

  unfoldable pub invalidate : Journal C → ℕ → Journal C
  unfolding clear
  invalidate journal invalid_before_version = record (clear journal invalid_before_version) {
    invalid_before_version = invalid_before_version;
  }

  -- The loop of `trim` on the batches and their number of changes. The number never falls below the
  -- changes that are shifted out, as it counts the changes of all batches.
  unfoldable pub trim_versions : ℕ → List (ChangeBatch C) → ℕ → List (ChangeBatch C) × ℕ
  trim_versions max_versions [] count = ([], count)
  trim_versions max_versions (removed ∷ batches) count =
      let rest = trim_versions max_versions batches (count - length removed.changes) in
      if ltb max_versions (length (removed ∷ batches)) then rest else (removed ∷ batches, count)

  unfoldable pub trim : Journal C → ℕ → Journal C
  trim journal current_version =
      let (batches, count) =
        trim_versions journal.max_versions journal.batches journal.change_count in
      let shifted = record journal { batches = batches; change_count = count } in
      if ltb journal.max_entries count then invalidate shifted current_version else shifted

  unfoldable pub commit : Journal C → ℕ → Journal C
  commit journal current_version =
      if journal.refs == 0
      then journal
      else if journal.pending_changes_overflowed
      then record journal { pending_changes = []; pending_changes_overflowed = false }
      else trim
          (record journal {
            batches =
                journal.batches
                ++ record { changes = journal.pending_changes; version = current_version } ∷ [];
            pending_changes = [];
            change_count = journal.change_count + length journal.pending_changes;
          })
          current_version

  unfoldable pub record_change : C → ℕ → Journal C → Journal C
  record_change change current_version journal =
      if journal.refs == 0 || journal.pending_changes_overflowed
      then journal
      else if ltb journal.max_entries (length journal.pending_changes + 1)
      then record (invalidate journal (current_version + 1)) { pending_changes_overflowed = true }
      else record journal { pending_changes = journal.pending_changes ++ change ∷ [] }

  unfoldable pub release : Journal C → ℕ → Journal C
  release journal current_version =
      let refs = journal.refs - 1 in
      if refs == 0
      then clear (record journal { refs = refs }) current_version
      else record journal { refs = refs }

  unfoldable pub retain : Journal C → ℕ → Journal C
  retain journal current_version =
      let refs = journal.refs + 1 in
      if refs == 1
      then clear (record journal { refs = refs }) current_version
      else record journal { refs = refs }

-- A topic's storage as the journal sees it (`TopicRowStorage` of
-- packages/column-live-view-engine/src/topic-row-storage.ts): the version, and `log`, which is not
-- in the source: every batch of changes since the last reset, the oldest first.
pub record JournaledTopic {ℓ} (C : Type ℓ) : Type ℓ where
  pub journal : Journal C
  pub version : ℕ
  pub log : List (ChangeBatch C)

-- What happens to a topic's journal. A mutation runs as one transaction: its changes are recorded,
-- then the version is advanced.
pub data JournalStep {ℓ} (C : Type ℓ) : Type ℓ where
  mutation : List C → JournalStep C
  retain_changes : JournalStep C
  release_changes : JournalStep C
  reset_topic : JournalStep C

module _ {ℓ} {C : Type ℓ} where
  unfoldable pub record_changes : List C → ℕ → Journal C → Journal C
  record_changes [] current_version journal = journal
  record_changes (change ∷ changes) current_version journal =
      record_changes changes current_version (record_change change current_version journal)

  -- `advanceVersion`.
  unfoldable pub advance_version : JournaledTopic C → List C → JournaledTopic C
  advance_version topic changes = record {
    journal = commit topic.journal (topic.version + 1);
    version = topic.version + 1;
    log = topic.log ++ record { changes = changes; version = topic.version + 1 } ∷ [];
  }

  unfoldable pub step : JournaledTopic C → JournalStep C → JournaledTopic C
  step topic (mutation changes) =
      advance_version
        (record topic { journal = record_changes changes topic.version topic.journal }) changes
  step topic retain_changes = record topic { journal = retain topic.journal topic.version }
  step topic release_changes = record topic { journal = release topic.journal topic.version }
  step topic reset_topic = record {
    journal = clear topic.journal topic.version;
    version = 0;
    log = [];
  }

  unfoldable pub run : JournaledTopic C → List (JournalStep C) → JournaledTopic C
  run topic [] = topic
  run topic (next ∷ steps) = run (step topic next) steps
