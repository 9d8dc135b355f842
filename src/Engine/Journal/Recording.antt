-- ===== src/Engine/Journal/Recording.antt =====
-- Recording the changes of one mutation: they all fit, or the journal is emptied.
use view_server_smart.Shared.{
  ℕ, ◌+◌, ◌≤◌, ◌<◌, ◌≡◌, refl, ap, ◌∙◌, inl, inr, Bool, true, false, ◌||◌, List, [], ◌∷◌, ◌++◌,
  length, arith, ltb, ◌==◌, Bool-cases, length-append,
}
use view_server_smart.Engine.Journal.{Journal, record_change, record_changes, invalidate, clear}

module _ {ℓ} {A : Type ℓ} where
  pub append_assoc : (xs : List A) (y : A) (ys : List A) → (xs ++ y ∷ []) ++ ys ≡ xs ++ y ∷ ys
  append_assoc [] y ys = refl
  append_assoc (x ∷ xs) y ys = ap (◌∷◌ x) (append_assoc xs y ys)

  pub append_nil : (xs : List A) → xs ++ [] ≡ xs
  append_nil [] = refl
  append_nil (x ∷ xs) = ap (◌∷◌ x) (append_nil xs)

or_true : (b : Bool) → (b || true) ≡ true
or_true true = refl
or_true false = refl

module _ {C : Type 0} where
  -- An overflowed journal stays as it is, and holds no batches.
  pub record Overflowed (before after : Journal C) : Type 0 where
    pub flag : after.pending_changes_overflowed ≡ true
    pub batches : after.batches ≡ []
    pub count : after.change_count ≡ 0
    pub refs : after.refs ≡ before.refs
    pub max_entries : after.max_entries ≡ before.max_entries
    pub max_versions : after.max_versions ≡ before.max_versions

  -- Nothing is recorded without a reader or after an overflow.
  pub record_changes-ignored :
      (changes : List C) (version : ℕ) (journal : Journal C)
      → (journal.refs == 0 || journal.pending_changes_overflowed) ≡ true
      → record_changes changes version journal ≡ journal
  unfolding record_changes record_change
  record_changes-ignored [] version journal h = refl
  record_changes-ignored (change ∷ changes) version journal h =
      rw (h, record_changes) (record_changes-ignored changes version journal h)

  pub record_changes-fits :
      (changes : List C) (version : ℕ) (journal : Journal C)
      → (journal.refs == 0 || journal.pending_changes_overflowed) ≡ false
      → length journal.pending_changes + length changes ≤ journal.max_entries
      → record_changes changes version journal
        ≡ record journal { pending_changes = journal.pending_changes ++ changes }
  unfolding record_changes record_change
  record_changes-fits [] version journal h le = rw (append_nil journal.pending_changes) refl
  record_changes-fits (change ∷ changes) version journal h le =
      let room : ltb journal.max_entries (length journal.pending_changes + 1) ≡ false =
        ground arith in
      rw (h, room, record_changes)
        (record_changes-fits changes version
            (record journal { pending_changes = journal.pending_changes ++ change ∷ [] }) h
            (omega (arith, length-append journal.pending_changes (change ∷ [])))
          ∙ rw (append_assoc journal.pending_changes change changes) refl)

  overflow :
      (version : ℕ) (journal : Journal C)
      → Overflowed journal
          (record (invalidate journal version) { pending_changes_overflowed = true })
  unfolding invalidate clear
  overflow version journal = record {
    flag = refl;
    batches = refl;
    count = refl;
    refs = refl;
    max_entries = refl;
    max_versions = refl;
  }

  pub record_changes-overflows :
      (changes : List C) (version : ℕ) (journal : Journal C)
      → (journal.refs == 0 || journal.pending_changes_overflowed) ≡ false
      → journal.max_entries < length journal.pending_changes + length changes
      → length journal.pending_changes ≤ journal.max_entries
      → Overflowed journal (record_changes changes version journal)
  unfolding record_changes record_change
  record_changes-overflows [] version journal h lt le = absurd (omega (arith, lt, le))
  record_changes-overflows (change ∷ changes) version journal h lt le =
      elim (Bool-cases (ltb journal.max_entries (length journal.pending_changes + 1))) [
        | inl full ↦
            let now = record (invalidate journal (version + 1)) {
              pending_changes_overflowed = true;
            } in
            let o = overflow (version + 1) journal in
            rw
              (
                h,
                full,
                record_changes,
                record_changes-ignored changes version now (or_true (now.refs == 0)),
              )
              o
        | inr room ↦
            let later =
              record_changes-overflows changes version
                (record journal { pending_changes = journal.pending_changes ++ change ∷ [] }) h
                (omega (arith, length-append journal.pending_changes (change ∷ []), lt))
                (ground (arith, length-append journal.pending_changes (change ∷ []))) in
            rw (h, room, record_changes)
              (record {
                flag = later.flag;
                batches = later.batches;
                count = later.count;
                refs = later.refs;
                max_entries = later.max_entries;
                max_versions = later.max_versions;
              })
      ]
