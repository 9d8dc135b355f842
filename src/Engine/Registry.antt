-- ===== src/Engine/Registry.antt =====
-- The registry of materialized queries
-- (packages/column-live-view-engine/src/active-materialized-query.ts): executions that subscriptions
-- share, counted, and what each retains of the topic's journal. The map is an association list. An
-- execution is opaque but for `incremental`; the closure `releaseRetainedChanges` is a flag of its
-- slot, and `give_up` is the call of it that an execution may make.
use view_server_smart.Shared.{
  ℕ, ◌+◌, ◌-◌, Bool, true, false, Option, none, some, List, [], ◌∷◌, ite, ltb, if◌then◌else◌,
}
use view_server_smart.Engine.Journal.{Journal, retain, release}
pub mod Counts

pub record MaterializedSlot (X : Type 0) : Type 0 where
  pub execution : X
  pub retained_changes : Bool
  pub refs : ℕ

-- The map, with the journal of the topic and its version.
pub record Registry (K X C : Type 0) : Type 0 where
  pub materialized : List (K × MaterializedSlot X)
  pub journal : Journal C
  pub version : ℕ

module _ {K X : Type 0} (dec : Discrete K) where
  unfoldable pub get_slot : K → List (K × MaterializedSlot X) → Option (MaterializedSlot X)
  get_slot key [] = none
  get_slot key ((k, slot) ∷ rest) = ite (dec key k) (some slot) (get_slot key rest)

  unfoldable pub set_slot :
      K → MaterializedSlot X → List (K × MaterializedSlot X) → List (K × MaterializedSlot X)
  set_slot key slot [] = (key, slot) ∷ []
  set_slot key slot ((k, old) ∷ rest) =
      ite (dec key k) ((k, slot) ∷ rest) ((k, old) ∷ set_slot key slot rest)

  unfoldable pub delete_slot : K → List (K × MaterializedSlot X) → List (K × MaterializedSlot X)
  delete_slot key [] = []
  delete_slot key ((k, slot) ∷ rest) = ite (dec key k) rest ((k, slot) ∷ delete_slot key rest)

module _ {C : Type 0} where
  -- `releaseRetainedChanges`, as far as the journal sees it.
  unfoldable pub release_retained : Bool → ℕ → Journal C → Journal C
  release_retained false version journal = journal
  release_retained true version journal = release journal version

module _ {X C : Type 0} where
  -- The loop of `clearMaterializedQueryExecutions`.
  unfoldable pub release_all :
      {K : Type 0} → List (K × MaterializedSlot X) → ℕ → Journal C → Journal C
  release_all [] version journal = journal
  release_all ((k, slot) ∷ rest) version journal =
      release_all rest version (release_retained slot.retained_changes version journal)

module _ {K X C : Type 0} (dec : Discrete K) (incremental : X → Bool) where
  -- `make` is what `makeExecution` returns.
  unfoldable pub acquire : K → X → Registry K X C → Registry K X C
  acquire key make registry = elim (get_slot dec key registry.materialized) [
    | some entry ↦ record registry {
      materialized =
          set_slot dec key (record entry { refs = entry.refs + 1 }) registry.materialized;
    }
    | none ↦
        let retained = incremental make in
        record registry {
          materialized =
              set_slot dec key (record { execution = make; retained_changes = retained; refs = 1 })
                registry.materialized;
          journal = if retained then retain registry.journal registry.version else registry.journal;
        }
  ]

module _ {K X C : Type 0} (dec : Discrete K) where
  unfoldable pub give_up : K → Registry K X C → Registry K X C
  give_up key registry = elim (get_slot dec key registry.materialized) [
    | none ↦ registry
    | some entry ↦ record registry {
      materialized =
          set_slot dec key (record entry { retained_changes = false }) registry.materialized;
      journal = release_retained entry.retained_changes registry.version registry.journal;
    }
  ]

  unfoldable pub release_query : K → Registry K X C → Registry K X C
  release_query key registry = elim (get_slot dec key registry.materialized) [
    | none ↦ registry
    | some entry ↦
        if ltb 1 entry.refs
        then record registry {
          materialized =
              set_slot dec key (record entry { refs = entry.refs - 1 }) registry.materialized;
        }
        else record registry {
          materialized = delete_slot dec key registry.materialized;
          journal = release_retained entry.retained_changes registry.version registry.journal;
        }
  ]

module _ {K X C : Type 0} where
  unfoldable pub clear_executions : Registry K X C → Registry K X C
  clear_executions registry = record registry {
    materialized = [];
    journal = release_all registry.materialized registry.version registry.journal;
  }
