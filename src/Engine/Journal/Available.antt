-- ===== src/Engine/Journal/Available.antt =====
-- When the journal does answer: a reader that holds it gets the changes since it came, as long as
-- they are within the limits.
use view_server_smart.Shared.{
  ℕ, suc, ◌+◌, ◌≤◌, ◌≡◌, refl, sym, ap, ◌∙◌, true, false, ◌||◌, List, [], ◌∷◌, ◌++◌, map, length,
  arith, ltb, ◌==◌, length-append, Option, some,
}
use view_server_smart.Protocol.Number.{JsNumber}
use view_server_smart.Engine.Journal.{
  Journal, ChangeBatch, JournaledTopic, mutation, retain_changes, record_changes, clear,
  trim_versions, trim, commit, retain, advance_version, step, run, batches_since, changes_since,
  new_journal,
}
use view_server_smart.Engine.Journal.Recording.{append_assoc, append_nil, record_changes-fits}
use view_server_smart.Engine.Journal.Faithful.{total_changes, IsNumbered, total_changes-append}
use view_server_smart.Engine.Journal.Replay.{IsNumbered-append, IsReplayable, batches_after-later}

module _ {C : Type 0} where
  -- The batches of mutations that begin at a version.
  abbrev pub numbered_from : ℕ → List (List C) → List (ChangeBatch C)
  numbered_from version [] = []
  numbered_from version (changes ∷ rest) =
      record { changes = changes; version = version } ∷ numbered_from (version + 1) rest

  abbrev pub total_length : List (List C) → ℕ
  total_length [] = 0
  total_length (changes ∷ rest) = length changes + total_length rest

  -- A topic that nothing has happened to.
  unfoldable pub new_topic : Option JsNumber → Option JsNumber → JournaledTopic C
  new_topic max_entries max_versions = record {
    journal = new_journal max_entries max_versions;
    version = 0;
    log = [];
  }

  pub new_topic-IsReplayable :
      (max_entries max_versions : Option JsNumber)
      → IsReplayable (new_topic max_entries max_versions)
  unfolding new_topic new_journal
  new_topic-IsReplayable max_entries max_versions = record {
    faithful = record {
      older = [];
      suffix = refl;
      pending = refl;
      clean = refl;
      count = refl;
      versions = omega arith;
      entries = omega arith;
      idle = λ _. refl;
    };
    numbered = tt;
    length = refl;
  }

  -- All that has been committed since `from` stands in the journal.
  record IsKept (from : ℕ) (topic : JournaledTopic C) : Type 0 where
    refs : (topic.journal.refs == 0) ≡ false
    pending : topic.journal.pending_changes ≡ []
    clean : topic.journal.pending_changes_overflowed ≡ false
    count : topic.journal.change_count ≡ total_changes topic.journal.batches
    valid : topic.journal.invalid_before_version ≤ from
    numbered : IsNumbered (from + 1) topic.journal.batches
    version : from + length topic.journal.batches ≡ topic.version

  trim_versions-fits :
      (max_versions : ℕ) (batches : List (ChangeBatch C)) (count : ℕ)
      → length batches ≤ max_versions
      → trim_versions max_versions batches count ≡ (batches, count)
  unfolding trim_versions
  trim_versions-fits max_versions [] count le = refl
  trim_versions-fits max_versions (b ∷ batches) count le =
      let fits : ltb max_versions (length (b ∷ batches)) ≡ false = ground (arith, le) in
      rw (fits, trim_versions) refl

  trim-fits :
      (journal : Journal C) (version : ℕ)
      → length journal.batches ≤ journal.max_versions
      → journal.change_count ≤ journal.max_entries
      → trim journal version ≡ journal
  unfolding trim
  trim-fits journal version versions entries =
      let fits : ltb journal.max_entries journal.change_count ≡ false = ground (arith, entries) in
      rw
        (
          trim_versions-fits journal.max_versions journal.batches journal.change_count versions,
          trim,
        )
        (rw fits refl)

  committed : (topic : JournaledTopic C) (changes : List C) → Journal C
  committed topic changes = record topic.journal {
    pending_changes = [];
    pending_changes_overflowed = false;
    batches =
        topic.journal.batches ++ record { changes = changes; version = topic.version + 1 } ∷ [];
    change_count = topic.journal.change_count + length changes;
  }

  mutation-journal :
      (from : ℕ) (topic : JournaledTopic C) (changes : List C)
      → IsKept from topic
      → length topic.journal.batches + 1 ≤ topic.journal.max_versions
      → topic.journal.change_count + length changes ≤ topic.journal.max_entries
      → commit (record_changes changes topic.version topic.journal) (topic.version + 1)
        ≡ committed topic changes
  unfolding commit committed
  mutation-journal from topic changes k versions entries =
      let none_pending : length topic.journal.pending_changes ≡ 0 = ap length k.pending in
      let listens : (topic.journal.refs == 0 || topic.journal.pending_changes_overflowed) ≡ false =
        ground (arith, k.refs, k.clean) in
      let fits : length topic.journal.pending_changes + length changes ≤ topic.journal.max_entries =
        omega (arith, none_pending, entries) in
      rw
        (
          record_changes-fits changes topic.version topic.journal listens fits,
          k.refs,
          k.clean,
          k.pending,
          commit,
        )
        (trim-fits (committed topic changes) (topic.version + 1)
          (omega (
            arith,
            versions,
            length-append topic.journal.batches
                (record { changes = changes; version = topic.version + 1 } ∷ []),
          ))
          entries)

  step-IsKept :
      (from : ℕ) (topic : JournaledTopic C) (changes : List C)
      → IsKept from topic
      → length topic.journal.batches + 1 ≤ topic.journal.max_versions
      → topic.journal.change_count + length changes ≤ topic.journal.max_entries
      → IsKept from (step topic (mutation changes))
        × ((step topic (mutation changes)).journal ≡ committed topic changes)
        × ((step topic (mutation changes)).version ≡ topic.version + 1)
  unfolding step advance_version committed
  step-IsKept from topic changes k versions entries =
      let batch : ChangeBatch C = record { changes = changes; version = topic.version + 1 } in
      rw (mutation-journal from topic changes k versions entries, step)
        (
          record {
            refs = k.refs;
            pending = refl;
            clean = refl;
            count = omega (arith, k.count, total_changes-append topic.journal.batches (batch ∷ []));
            valid = k.valid;
            numbered =
                IsNumbered-append (from + 1) topic.journal.batches batch k.numbered
                  (omega (arith, k.version));
            version = omega (arith, k.version, length-append topic.journal.batches (batch ∷ []));
          },
          refl,
          refl,
        )

  batches_since-kept :
      (from : ℕ) (first : ChangeBatch C) (rest : List (ChangeBatch C))
      → IsNumbered (from + 1) (first ∷ rest)
      → batches_since (first ∷ rest) from ≡ some (first ∷ rest)
  unfolding batches_since
  batches_since-kept from first rest n =
      let reached : ltb (from + 1) first.version ≡ false = ground (arith, n.0) in
      rw (reached, batches_since)
        (ap some (batches_after-later from (from + 1) (first ∷ rest) n (omega arith)))

  changes_since-kept :
      (from : ℕ) (topic : JournaledTopic C)
      → IsKept from topic
      → changes_since topic.journal from topic.version ≡ some topic.journal.batches
  unfolding changes_since
  changes_since-kept from topic k = go topic.journal.batches refl
    where
      go :
          (bs : List (ChangeBatch C))
          → topic.journal.batches ≡ bs
          → changes_since topic.journal from topic.version ≡ some topic.journal.batches
      go [] e =
          let size : length topic.journal.batches ≡ 0 = ap length e in
          let same : (from == topic.version) ≡ true = ground (arith, k.version, size) in
          rw (same, e, changes_since) refl
      go (first ∷ rest) e =
          let size : length topic.journal.batches ≡ suc (length rest) = ap length e in
          let older : (from == topic.version) ≡ false = ground (arith, k.version, size) in
          let behind : (topic.journal.refs == 0 || ltb topic.version from) ≡ false =
            ground (arith, k.version, k.refs) in
          let valid : ltb from topic.journal.invalid_before_version ≡ false =
            ground (arith, k.valid) in
          rw (older, behind, valid, e, changes_since)
            (batches_since-kept from first rest (rw e at k.numbered))

  mutations-IsKept :
      (from : ℕ) (topic : JournaledTopic C) (mutations : List (List C))
      → IsKept from topic
      → length topic.journal.batches + length mutations ≤ topic.journal.max_versions
      → topic.journal.change_count + total_length mutations ≤ topic.journal.max_entries
      → IsKept from (run topic (map mutation mutations))
        × ((run topic (map mutation mutations)).journal.batches
            ≡ topic.journal.batches ++ numbered_from (topic.version + 1) mutations)
  unfolding run committed
  mutations-IsKept from topic [] k versions entries = (k, sym (append_nil topic.journal.batches))
  mutations-IsKept from topic (changes ∷ mutations) k versions entries =
      let (kept, journal, version) =
        step-IsKept from topic changes k (omega (arith, versions)) (omega (arith, entries)) in
      let batch : ChangeBatch C = record { changes = changes; version = topic.version + 1 } in
      let (later, batches) =
        mutations-IsKept from (step topic (mutation changes)) mutations kept
          (rw journal (omega (arith, versions, length-append topic.journal.batches (batch ∷ []))))
          (rw journal (omega (arith, entries))) in
      (later, batches ∙ rw (journal, version) (append_assoc topic.journal.batches batch _))

  retained-IsKept :
      (topic : JournaledTopic C)
      → topic.journal.refs ≡ 0
      → IsKept topic.version (step topic retain_changes)
        × ((step topic retain_changes).journal.batches ≡ [])
        × ((step topic retain_changes).journal.change_count ≡ 0)
        × ((step topic retain_changes).journal.max_versions ≡ topic.journal.max_versions)
        × ((step topic retain_changes).journal.max_entries ≡ topic.journal.max_entries)
  unfolding step retain clear
  retained-IsKept topic free =
      let one : (topic.journal.refs + 1 == 1) ≡ true = ground (arith, free) in
      let held : (topic.journal.refs + 1 == 0) ≡ false = ground arith in
      rw (one, step)
        (
          record {
            refs = held;
            pending = refl;
            clean = refl;
            count = refl;
            valid = omega arith;
            numbered = tt;
            version = omega arith;
          },
          refl,
          refl,
          refl,
          refl,
        )

  -- A reader that retains the changes of a topic, when nobody else does, is answered after any mutations
  -- whose number and changes are within the limits with exactly the batches of those mutations.
  pub retained-changes_since :
      (topic : JournaledTopic C) (mutations : List (List C))
      → topic.journal.refs ≡ 0
      → length mutations ≤ topic.journal.max_versions
      → total_length mutations ≤ topic.journal.max_entries
      → changes_since
          (run (step topic retain_changes) (map mutation mutations)).journal
          topic.version
          (run (step topic retain_changes) (map mutation mutations)).version
        ≡ some (numbered_from (topic.version + 1) mutations)
  unfolding step retain
  retained-changes_since topic mutations free versions entries =
      let (kept, empty, count, max_versions, max_entries) = retained-IsKept topic free in
      let size : length (step topic retain_changes).journal.batches ≡ 0 = ap length empty in
      let (after, batches) =
        mutations-IsKept topic.version (step topic retain_changes) mutations kept
          (omega (arith, size, max_versions, versions))
          (omega (arith, count, max_entries, entries)) in
      let answer : (run (step topic retain_changes) (map mutation mutations)).journal.batches
          ≡ numbered_from (topic.version + 1) mutations =
        rw empty at batches in
      changes_since-kept topic.version (run (step topic retain_changes) (map mutation mutations))
        after
      ∙ ap some answer
