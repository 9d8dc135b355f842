-- ===== src/Engine/Journal/Faithful.antt =====
-- Between two mutations the journal holds the latest batches of the log: each method keeps this.
use view_server_smart.Shared.{
  ℕ, ◌+◌, ◌-◌, ◌≤◌, ◌≡◌, refl, sym, ap, ◌∙◌, inl, inr, true, false, ◌||◌, List, [], ◌∷◌, ◌++◌,
  length, arith, ltb, ◌==◌, Bool-cases, ltb→le,
}
use view_server_smart.Engine.Journal.{
  Journal, ChangeBatch, record_changes, invalidate, clear, trim_versions, trim, commit, retain,
  release,
}
use view_server_smart.Engine.Journal.Recording.{
  append_nil, record_changes-ignored, record_changes-fits, record_changes-overflows,
}

module _ {C : Type 0} where
  abbrev pub total_changes : List (ChangeBatch C) → ℕ
  total_changes [] = 0
  total_changes (b ∷ bs) = length b.changes + total_changes bs

  -- The versions of the batches are `version`, `version + 1` and so on.
  abbrev pub IsNumbered : ℕ → List (ChangeBatch C) → Type 0
  IsNumbered version [] = Unit
  IsNumbered version (b ∷ bs) = (b.version ≡ version) × IsNumbered (version + 1) bs

  -- Between two mutations: the journal holds the latest batches of the log, within its limits.
  pub record IsFaithful (journal : Journal C) (log : List (ChangeBatch C)) : Type 0 where
    pub older : List (ChangeBatch C)
    pub suffix : log ≡ older ++ journal.batches
    pub pending : journal.pending_changes ≡ []
    pub clean : journal.pending_changes_overflowed ≡ false
    pub count : journal.change_count ≡ total_changes journal.batches
    pub versions : length journal.batches ≤ journal.max_versions
    pub entries : journal.change_count ≤ journal.max_entries
    pub idle : (journal.refs == 0) ≡ true → journal.batches ≡ []

  pub total_changes-append :
      (xs ys : List (ChangeBatch C))
      → total_changes (xs ++ ys) ≡ total_changes xs + total_changes ys
  total_changes-append [] ys = omega arith
  total_changes-append (x ∷ xs) ys = omega (arith, total_changes-append xs ys)

  pub append_assoc' : (xs ys zs : List (ChangeBatch C)) → (xs ++ ys) ++ zs ≡ xs ++ (ys ++ zs)
  append_assoc' [] ys zs = refl
  append_assoc' (x ∷ xs) ys zs = ap (◌∷◌ x) (append_assoc' xs ys zs)

  -- Shifting keeps a suffix, its number of changes, and at most `max_versions` batches.
  pub trim_versions-suffix :
      (max_versions : ℕ) (batches : List (ChangeBatch C)) (count : ℕ)
      → count ≡ total_changes batches
      → (dropped : List (ChangeBatch C)) × (batches
          ≡ dropped ++ (trim_versions max_versions batches count).0)
        × ((trim_versions max_versions batches count).1
            ≡ total_changes (trim_versions max_versions batches count).0)
        × (length (trim_versions max_versions batches count).0 ≤ max_versions)
  unfolding trim_versions
  trim_versions-suffix max_versions [] count h = ([], refl, h, omega arith)
  trim_versions-suffix max_versions (removed ∷ batches) count h =
      elim (Bool-cases (ltb max_versions (length (removed ∷ batches)))) [
        | inl e ↦
            let (dropped, kept, total, bound) =
              trim_versions-suffix max_versions batches (count - length removed.changes)
                (omega (arith, h)) in
            rw (e, trim_versions) (removed ∷ dropped, ap (◌∷◌ removed) kept, total, bound)
        | inr e ↦ rw (e, trim_versions) ([], refl, h, ltb→le _ _ e)
      ]

  pub clear-IsFaithful :
      (journal : Journal C) (version : ℕ) (log : List (ChangeBatch C))
      → IsFaithful (clear journal version) log
  unfolding clear
  clear-IsFaithful journal version log = record {
    older = log;
    suffix = sym (append_nil log);
    pending = refl;
    clean = refl;
    count = refl;
    versions = omega arith;
    entries = omega arith;
    idle = λ _. refl;
  }

  pub invalidate-IsFaithful :
      (journal : Journal C) (version : ℕ) (log : List (ChangeBatch C))
      → IsFaithful (invalidate journal version) log
  unfolding invalidate
  invalidate-IsFaithful journal version log =
      let c = clear-IsFaithful journal version log in
      record {
        older = c.older;
        suffix = c.suffix;
        pending = c.pending;
        clean = c.clean;
        count = c.count;
        versions = c.versions;
        entries = c.entries;
        idle = c.idle;
      }

  pub trim-IsFaithful :
      (journal : Journal C) (version : ℕ) (older : List (ChangeBatch C))
      → journal.pending_changes ≡ []
      → journal.pending_changes_overflowed ≡ false
      → journal.change_count ≡ total_changes journal.batches
      → (journal.refs == 0) ≡ false
      → IsFaithful (trim journal version) (older ++ journal.batches)
  unfolding trim
  trim-IsFaithful journal version older pending clean count refs =
      let (dropped, kept, total, bound) =
        trim_versions-suffix journal.max_versions journal.batches journal.change_count count in
      let after = (trim_versions journal.max_versions journal.batches journal.change_count).0 in
      let whole : older ++ journal.batches ≡ (older ++ dropped) ++ after =
        ap (λ bs. older ++ bs) kept ∙ sym (append_assoc' older dropped after) in
      elim (Bool-cases (
        ltb journal.max_entries
          (trim_versions journal.max_versions journal.batches journal.change_count).1)) [
            | inl e ↦ rw (e, trim) (invalidate-IsFaithful _ version (older ++ journal.batches))
            | inr e ↦
                rw (e, trim)
                  (record {
                    older = older ++ dropped;
                    suffix = whole;
                    pending = pending;
                    clean = clean;
                    count = total;
                    versions = bound;
                    entries = ltb→le _ _ e;
                    idle = λ h. absurd (ground (arith, h, refs));
                  })
          ]

  -- A committed mutation adds its batch to the log.
  pub mutation-IsFaithful :
      (journal : Journal C) (log : List (ChangeBatch C)) (changes : List C) (before version : ℕ)
      → IsFaithful journal log
      → IsFaithful
          (commit (record_changes changes before journal) version)
          (log ++ record { changes = changes; version = version } ∷ [])
  unfolding commit
  mutation-IsFaithful journal log changes before version f = elim (Bool-cases (journal.refs == 0)) [
    | inl e ↦
        rw (record_changes-ignored changes before journal (ground (arith, e)), commit)
          (rw (e, commit)
            (record {
              older = log ++ record { changes = changes; version = version } ∷ [];
              suffix = rw (f.idle e) (sym (append_nil _));
              pending = f.pending;
              clean = f.clean;
              count = f.count;
              versions = f.versions;
              entries = f.entries;
              idle = f.idle;
            }))
    | inr e ↦
        let listens : (journal.refs == 0 || journal.pending_changes_overflowed) ≡ false =
          ground (arith, e, f.clean) in
        let none_pending : length journal.pending_changes ≡ 0 = ap length f.pending in
        elim (Bool-cases (ltb journal.max_entries (length changes))) [
          | inl over ↦
              let o =
                record_changes-overflows changes before journal listens
                  (ground (arith, none_pending, over)) (omega (arith, none_pending)) in
              let refs : ((record_changes changes before journal).refs == 0) ≡ false =
                rw o.refs e in
              rw (refs, o.flag, commit)
                (record {
                  older = log ++ record { changes = changes; version = version } ∷ [];
                  suffix = rw o.batches (sym (append_nil _));
                  pending = refl;
                  clean = refl;
                  count = rw (o.batches, o.count) refl;
                  versions = rw o.batches (omega arith);
                  entries = rw o.count (omega arith);
                  idle = λ _. o.batches;
                })
          | inr fits ↦
              rw
                (
                  record_changes-fits changes before journal listens
                      (ground (arith, none_pending, fits)),
                  e,
                  f.clean,
                  f.pending,
                  commit,
                )
                (rw f.suffix (
                  rw
                    (append_assoc' f.older journal.batches
                      (record { changes = changes; version = version } ∷ []))
                    (trim-IsFaithful
                      (record journal {
                        pending_changes = [];
                        pending_changes_overflowed = false;
                        batches =
                            journal.batches ++ record { changes = changes; version = version } ∷ [];
                        change_count = journal.change_count + length changes;
                      })
                      version f.older refl refl
                      (omega (
                        arith,
                        f.count,
                        total_changes-append journal.batches
                            (record { changes = changes; version = version } ∷ []),
                      ))
                      e)))
        ]
  ]

  pub retain-IsFaithful :
      (journal : Journal C) (log : List (ChangeBatch C)) (version : ℕ)
      → IsFaithful journal log
      → IsFaithful (retain journal version) log
  unfolding retain
  retain-IsFaithful journal log version f = elim (Bool-cases (journal.refs + 1 == 1)) [
    | inl e ↦ rw (e, retain) (clear-IsFaithful _ version log)
    | inr e ↦
        rw (e, retain)
          (record {
            older = f.older;
            suffix = f.suffix;
            pending = f.pending;
            clean = f.clean;
            count = f.count;
            versions = f.versions;
            entries = f.entries;
            idle = λ h. absurd (ground (arith, h));
          })
  ]

  pub release-IsFaithful :
      (journal : Journal C) (log : List (ChangeBatch C)) (version : ℕ)
      → IsFaithful journal log
      → IsFaithful (release journal version) log
  unfolding release
  release-IsFaithful journal log version f = elim (Bool-cases (journal.refs - 1 == 0)) [
    | inl e ↦ rw (e, release) (clear-IsFaithful _ version log)
    | inr e ↦
        rw (e, release)
          (record {
            older = f.older;
            suffix = f.suffix;
            pending = f.pending;
            clean = f.clean;
            count = f.count;
            versions = f.versions;
            entries = f.entries;
            idle = λ h. absurd (ground (arith, e, h));
          })
  ]
