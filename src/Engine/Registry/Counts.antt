-- ===== src/Engine/Registry/Counts.antt =====
-- The journal is retained once for each execution that retains it, and no longer.
use view_server_smart.Shared.{
  ℕ, ◌+◌, ◌-◌, ◌≡◌, refl, ap, inl, inr, Bool, true, false, none, some, List, [], ◌∷◌, arith, ite,
  ltb, ◌==◌, if◌then◌else◌, Bool-cases, Option-cases,
}
use view_server_smart.Engine.Journal.{Journal, retain, release, clear}
use view_server_smart.Engine.Registry.{
  MaterializedSlot, Registry, get_slot, set_slot, delete_slot, release_retained, release_all,
  acquire, give_up, release_query, clear_executions,
}

-- The calls on a registry.
pub data RegistryStep (K X : Type 0) : Type 0 where
  acquired : K → X → RegistryStep K X
  gave_up : K → RegistryStep K X
  released : K → RegistryStep K X
  cleared : RegistryStep K X

module _ {K X C : Type 0} (dec : Discrete K) (incremental : X → Bool) where
  unfoldable pub registry_step : Registry K X C → RegistryStep K X → Registry K X C
  registry_step registry (acquired key make) = acquire dec incremental key make registry
  registry_step registry (gave_up key) = give_up dec key registry
  registry_step registry (released key) = release_query dec key registry
  registry_step registry cleared = clear_executions registry

  unfoldable pub registry_run : Registry K X C → List (RegistryStep K X) → Registry K X C
  registry_run registry [] = registry
  registry_run registry (next ∷ steps) = registry_run (registry_step registry next) steps

abbrev pub one_if : Bool → ℕ
one_if true = 1
one_if false = 0

module _ {K X : Type 0} where
  -- How many executions retain the journal.
  abbrev pub retaining : List (K × MaterializedSlot X) → ℕ
  retaining [] = 0
  retaining ((k, slot) ∷ rest) = one_if slot.retained_changes + retaining rest

module _ {C : Type 0} where
  retain-refs :
      (journal : Journal C) (version : ℕ) → (retain journal version).refs ≡ journal.refs + 1
  unfolding retain clear
  retain-refs journal version = elim (Bool-cases (journal.refs + 1 == 1)) [
    | inl e ↦ rw (e, retain) refl
    | inr e ↦ rw (e, retain) refl
  ]

  release-refs :
      (journal : Journal C) (version : ℕ) → (release journal version).refs ≡ journal.refs - 1
  unfolding release clear
  release-refs journal version = elim (Bool-cases (journal.refs - 1 == 0)) [
    | inl e ↦ rw (e, release) refl
    | inr e ↦ rw (e, release) refl
  ]

  release_retained-refs :
      (flag : Bool) (version : ℕ) (journal : Journal C)
      → (release_retained flag version journal).refs ≡ journal.refs - one_if flag
  unfolding release_retained
  release_retained-refs false version journal = omega arith
  release_retained-refs true version journal = release-refs journal version

module _ {K X C : Type 0} where
  release_all-refs :
      (slots : List (K × MaterializedSlot X)) (version : ℕ) (journal : Journal C)
      → (release_all slots version journal).refs ≡ journal.refs - retaining slots
  unfolding release_all
  release_all-refs [] version journal = omega arith
  release_all-refs ((k, slot) ∷ rest) version journal = omega (
    arith,
    release_all-refs rest version (release_retained slot.retained_changes version journal),
    release_retained-refs slot.retained_changes version journal,
  )

module _ {K X : Type 0} (dec : Discrete K) where
  set_slot-new :
      (key : K) (new : MaterializedSlot X) (slots : List (K × MaterializedSlot X))
      → get_slot dec key slots ≡ none
      → retaining (set_slot dec key new slots) ≡ retaining slots + one_if new.retained_changes
  unfolding set_slot get_slot
  set_slot-new key new [] h = omega arith
  set_slot-new key new ((k, slot) ∷ rest) h = go (set_slot-new key new rest) (dec key k) h
    where
      go :
          (get_slot dec key rest ≡ none
            → retaining (set_slot dec key new rest) ≡ retaining rest + one_if new.retained_changes)
          → (d : Dec (key ≡ k)) → ite d (some slot) (get_slot dec key rest) ≡ none
          → retaining (ite d ((k, new) ∷ rest) ((k, slot) ∷ set_slot dec key new rest))
            ≡ one_if slot.retained_changes + retaining rest + one_if new.retained_changes
      go later (yes e) g = cc
      go later (no n) g = omega (arith, later g)

  set_slot-old :
      (key : K) (old new : MaterializedSlot X) (slots : List (K × MaterializedSlot X))
      → get_slot dec key slots ≡ some old
      → retaining (set_slot dec key new slots) + one_if old.retained_changes
        ≡ retaining slots + one_if new.retained_changes
  unfolding set_slot get_slot
  set_slot-old key old new [] h = cc
  set_slot-old key old new ((k, slot) ∷ rest) h = go (set_slot-old key old new rest) (dec key k) h
    where
      go :
          (get_slot dec key rest ≡ some old
            → retaining (set_slot dec key new rest) + one_if old.retained_changes
              ≡ retaining rest + one_if new.retained_changes)
          → (d : Dec (key ≡ k)) → ite d (some slot) (get_slot dec key rest) ≡ some old
          → retaining (ite d ((k, new) ∷ rest) ((k, slot) ∷ set_slot dec key new rest))
              + one_if old.retained_changes
            ≡ one_if slot.retained_changes + retaining rest + one_if new.retained_changes
      go later (yes e) g =
          let entry : slot ≡ old = ground (arith, g) in
          let same : one_if slot.retained_changes ≡ one_if old.retained_changes =
            ap (λ (s : MaterializedSlot X). one_if s.retained_changes) entry in
          omega (arith, same)
      go later (no n) g = omega (arith, later g)

  delete_slot-old :
      (key : K) (old : MaterializedSlot X) (slots : List (K × MaterializedSlot X))
      → get_slot dec key slots ≡ some old
      → retaining (delete_slot dec key slots) + one_if old.retained_changes ≡ retaining slots
  unfolding delete_slot get_slot
  delete_slot-old key old [] h = cc
  delete_slot-old key old ((k, slot) ∷ rest) h = go (delete_slot-old key old rest) (dec key k) h
    where
      go :
          (get_slot dec key rest ≡ some old
            → retaining (delete_slot dec key rest) + one_if old.retained_changes ≡ retaining rest)
          → (d : Dec (key ≡ k)) → ite d (some slot) (get_slot dec key rest) ≡ some old
          → retaining (ite d rest ((k, slot) ∷ delete_slot dec key rest))
              + one_if old.retained_changes
            ≡ one_if slot.retained_changes + retaining rest
      go later (yes e) g =
          let entry : slot ≡ old = ground (arith, g) in
          let same : one_if slot.retained_changes ≡ one_if old.retained_changes =
            ap (λ (s : MaterializedSlot X). one_if s.retained_changes) entry in
          omega (arith, same)
      go later (no n) g = omega (arith, later g)

module _ {K X C : Type 0} where
  -- The journal is retained by `others`, and once for each execution that retains it.
  abbrev pub IsCounted : ℕ → Registry K X C → Type 0
  IsCounted others registry = registry.journal.refs ≡ others + retaining registry.materialized

module _ {K X C : Type 0} (dec : Discrete K) (incremental : X → Bool) where
  retained-refs :
      (flag : Bool) (journal : Journal C) (version : ℕ)
      → (if flag then retain journal version else journal).refs ≡ journal.refs + one_if flag
  retained-refs true journal version = retain-refs journal version
  retained-refs false journal version = omega arith

  acquire-IsCounted :
      (others : ℕ) (key : K) (make : X) (registry : Registry K X C)
      → IsCounted others registry
      → IsCounted others (acquire dec incremental key make registry)
  unfolding acquire
  acquire-IsCounted others key make registry h =
      elim (Option-cases (get_slot dec key registry.materialized)) [
        | inl e ↦
            let slot : MaterializedSlot X = record {
              execution = make;
              retained_changes = incremental make;
              refs = 1;
            } in
            rw (e, acquire)
              (omega (
                arith,
                h,
                retained-refs (incremental make) registry.journal registry.version,
                set_slot-new dec key slot registry.materialized e,
              ))
        | inr (entry, e) ↦
            rw (e, acquire)
              (omega (
                arith,
                h,
                set_slot-old dec key entry (record entry { refs = entry.refs + 1 })
                    registry.materialized e,
              ))
      ]

  give_up-IsCounted :
      (others : ℕ) (key : K) (registry : Registry K X C)
      → IsCounted others registry
      → IsCounted others (give_up dec key registry)
  unfolding give_up
  give_up-IsCounted others key registry h =
      elim (Option-cases (get_slot dec key registry.materialized)) [
        | inl e ↦ rw (e, give_up) h
        | inr (entry, e) ↦
            rw (e, give_up)
              (omega (
                arith,
                h,
                release_retained-refs entry.retained_changes registry.version registry.journal,
                set_slot-old dec key entry (record entry { retained_changes = false })
                    registry.materialized e,
              ))
      ]

  release_query-IsCounted :
      (others : ℕ) (key : K) (registry : Registry K X C)
      → IsCounted others registry
      → IsCounted others (release_query dec key registry)
  unfolding release_query
  release_query-IsCounted others key registry h =
      elim (Option-cases (get_slot dec key registry.materialized)) [
        | inl e ↦ rw (e, release_query) h
        | inr (entry, e) ↦ elim (Bool-cases (ltb 1 entry.refs)) [
          | inl more ↦
              rw (e, more, release_query)
                (omega (
                  arith,
                  h,
                  set_slot-old dec key entry (record entry { refs = entry.refs - 1 })
                      registry.materialized e,
                ))
          | inr last ↦
              rw (e, last, release_query)
                (omega (
                  arith,
                  h,
                  release_retained-refs entry.retained_changes registry.version registry.journal,
                  delete_slot-old dec key entry registry.materialized e,
                ))
        ]
      ]

  registry_step-IsCounted :
      (others : ℕ) (registry : Registry K X C) (next : RegistryStep K X)
      → IsCounted others registry
      → IsCounted others (registry_step dec incremental registry next)
  unfolding registry_step clear_executions
  registry_step-IsCounted others registry (acquired key make) h =
      acquire-IsCounted others key make registry h
  registry_step-IsCounted others registry (gave_up key) h = give_up-IsCounted others key registry h
  registry_step-IsCounted others registry (released key) h =
      release_query-IsCounted others key registry h
  registry_step-IsCounted others registry cleared h =
      omega (arith, h, release_all-refs registry.materialized registry.version registry.journal)

  -- Where a journal is retained by others and once for each execution that retains it, this stays so
  -- after any acquires, releases, clears and calls of `releaseRetainedChanges`: no execution retains the
  -- journal twice, gives it up twice, or leaves it retained when it goes.
  pub registry_run-IsCounted :
      (others : ℕ) (registry : Registry K X C) (steps : List (RegistryStep K X))
      → IsCounted others registry
      → IsCounted others (registry_run dec incremental registry steps)
  unfolding registry_run
  registry_run-IsCounted others registry [] h = h
  registry_run-IsCounted others registry (next ∷ steps) h =
      registry_run-IsCounted others (registry_step dec incremental registry next) steps
        (registry_step-IsCounted others registry next h)
