-- ===== src/Engine/Health.antt =====
-- The health ledger of a topic
-- (packages/column-live-view-engine/src/topic-health-ledger.ts). The map of subscriptions is an
-- association list without repeated keys; a subscription object is a key. Numbers are natural: of
-- `Math.max(0, n)` and `Math.abs(n)` the value is `n`, and times are whole milliseconds. The
-- subtractions of the counters stop at 0.
use view_server_smart.Shared.{
  ℕ, zero, suc, ◌+◌, ◌-◌, ◌%◌, max, Bool, true, false, ◌||◌, Option, none, some, List, [], ◌∷◌,
  ◌++◌, ite, length, get_elem?, set, ltb, ◌==◌, if◌then◌else◌,
}
pub mod Tracked
pub mod Totals
pub mod Rates

pub record TopicHealthSubscription : Type 0 where
  pub queued_events : ℕ
  pub max_queue_depth : ℕ
  pub backpressure_events : ℕ

pub record MutationRateBucket : Type 0 where
  pub occurred_at : ℕ
  pub mutations : ℕ
  pub rows_changed : ℕ

abbrev pub mutation_rate_window_millis : ℕ
mutation_rate_window_millis = 1_000

abbrev pub max_mutation_rate_buckets : ℕ
max_mutation_rate_buckets = 1_001

pub record Ledger (S : Type 0) : Type 0 where
  pub subscriptions : List (S × TopicHealthSubscription)
  pub mutation_rate_buckets : List (Option MutationRateBucket)
  pub active_subscriptions : ℕ
  pub queued_events : ℕ
  pub max_queue_depth : ℕ
  pub backpressure_events : ℕ
  pub row_count : ℕ
  pub version : ℕ
  pub last_mutation_at : Option ℕ
  pub pending_mutation_batches : ℕ

pub record TopicHealthTotals : Type 0 where
  pub active_subscriptions : ℕ
  pub queued_events : ℕ
  pub max_queue_depth : ℕ
  pub backpressure_events : ℕ
  pub row_count : ℕ
  pub version : ℕ
  pub last_mutation_at : Option ℕ
  pub mutations_per_second : ℕ
  pub rows_per_second : ℕ
  pub pending_mutation_batches : ℕ

pub record MutationInput : Type 0 where
  pub version : ℕ
  pub row_count : ℕ
  pub rows_changed : ℕ
  pub occurred_at : ℕ

unfoldable pub empty_buckets : ℕ → List (Option MutationRateBucket)
empty_buckets zero = []
empty_buckets (suc n) = none ∷ empty_buckets n

module _ {S : Type 0} (dec : Discrete S) where
  -- `Map.get`, `Map.set` and `Map.delete`.
  unfoldable pub get_tracked :
      S → List (S × TopicHealthSubscription) → Option TopicHealthSubscription
  get_tracked s [] = none
  get_tracked s ((k, tracked) ∷ rest) = ite (dec s k) (some tracked) (get_tracked s rest)

  unfoldable pub set_tracked :
      S
      → TopicHealthSubscription
      → List (S × TopicHealthSubscription)
      → List (S × TopicHealthSubscription)
  set_tracked s tracked [] = (s, tracked) ∷ []
  set_tracked s tracked ((k, old) ∷ rest) =
      ite (dec s k) ((k, tracked) ∷ rest) ((k, old) ∷ set_tracked s tracked rest)

  unfoldable pub delete_tracked :
      S → List (S × TopicHealthSubscription) → List (S × TopicHealthSubscription)
  delete_tracked s [] = []
  delete_tracked s ((k, tracked) ∷ rest) = ite (dec s k) rest ((k, tracked) ∷ delete_tracked s rest)

  unfoldable pub open_subscription : S → Ledger S → Ledger S
  open_subscription s ledger = elim (get_tracked s ledger.subscriptions) [
    | some tracked ↦ ledger
    | none ↦ record ledger {
      subscriptions =
          set_tracked s (record { queued_events = 0; max_queue_depth = 0; backpressure_events = 0 })
            ledger.subscriptions;
      active_subscriptions = ledger.active_subscriptions + 1;
    }
  ]

  unfoldable pub close_subscription : S → Ledger S → Ledger S
  close_subscription s ledger = elim (get_tracked s ledger.subscriptions) [
    | none ↦ ledger
    | some tracked ↦ record ledger {
      subscriptions = delete_tracked s ledger.subscriptions;
      active_subscriptions = ledger.active_subscriptions - 1;
      queued_events = ledger.queued_events - tracked.queued_events;
    }
  ]

  unfoldable pub update_queue_depth : S → ℕ → Ledger S → Ledger S
  update_queue_depth s next_depth ledger = elim (get_tracked s ledger.subscriptions) [
    | none ↦ ledger
    | some tracked ↦
        let deeper = ltb tracked.max_queue_depth next_depth in
        record ledger {
          subscriptions =
              set_tracked s
                (record tracked {
                  queued_events = next_depth;
                  max_queue_depth = if deeper then next_depth else tracked.max_queue_depth;
                })
                ledger.subscriptions;
          queued_events = (ledger.queued_events - tracked.queued_events) + next_depth;
          max_queue_depth =
              if deeper then max ledger.max_queue_depth next_depth else ledger.max_queue_depth;
        }
  ]

  unfoldable pub mark_backpressure : S → Ledger S → Ledger S
  mark_backpressure s ledger = elim (get_tracked s ledger.subscriptions) [
    | none ↦ ledger
    | some tracked ↦ record ledger {
      subscriptions =
          set_tracked s (record tracked { backpressure_events = tracked.backpressure_events + 1 })
            ledger.subscriptions;
      backpressure_events = ledger.backpressure_events + 1;
    }
  ]

module _ {S : Type 0} where
  unfoldable pub begin_mutation_batch : Ledger S → Ledger S
  begin_mutation_batch ledger = record ledger {
    pending_mutation_batches = ledger.pending_mutation_batches + 1;
  }

  unfoldable pub end_mutation_batch : Ledger S → Ledger S
  end_mutation_batch ledger = record ledger {
    pending_mutation_batches = ledger.pending_mutation_batches - 1;
  }

  unfoldable pub reset_ledger : Ledger S
  reset_ledger = record {
    subscriptions = [];
    mutation_rate_buckets = empty_buckets max_mutation_rate_buckets;
    active_subscriptions = 0;
    queued_events = 0;
    max_queue_depth = 0;
    backpressure_events = 0;
    row_count = 0;
    version = 0;
    last_mutation_at = none;
    pending_mutation_batches = 0;
  }

-- The bucket after a mutation: the one that is there if it is of the same time, else a new one.
unfoldable pub bucket_after : Option MutationRateBucket → ℕ → ℕ → MutationRateBucket
bucket_after none occurred_at rows_changed = record {
  occurred_at = occurred_at;
  mutations = 1;
  rows_changed = rows_changed;
}
bucket_after (some existing) occurred_at rows_changed =
    if existing.occurred_at == occurred_at
    then record existing {
      mutations = existing.mutations + 1;
      rows_changed = existing.rows_changed + rows_changed;
    }
    else record { occurred_at = occurred_at; mutations = 1; rows_changed = rows_changed }

abbrev pub bucket_at : List (Option MutationRateBucket) → ℕ → Option MutationRateBucket
bucket_at buckets index = elim (get_elem? buckets index) [ none ↦ none | some bucket ↦ bucket ]

unfoldable pub record_bucket :
    ℕ → ℕ → List (Option MutationRateBucket) → List (Option MutationRateBucket)
record_bucket occurred_at rows_changed buckets =
    let index = occurred_at % max_mutation_rate_buckets in
    set buckets index (some (bucket_after (bucket_at buckets index) occurred_at rows_changed))

-- `occurredAt < now - 1000 || occurredAt > now`, without a number below 0.
abbrev pub outside_window : ℕ → ℕ → Bool
outside_window now occurred_at =
    ltb (occurred_at + mutation_rate_window_millis) now || ltb now occurred_at

abbrev pub in_window : ℕ → (MutationRateBucket → ℕ) → Option MutationRateBucket → ℕ
in_window now counter none = 0
in_window now counter (some bucket) =
    if outside_window now bucket.occurred_at then 0 else counter bucket

-- The loop of `snapshot`, for the one sum and for the other.
unfoldable pub sum_buckets : (Option MutationRateBucket → ℕ) → List (Option MutationRateBucket) → ℕ
sum_buckets f [] = 0
sum_buckets f (bucket ∷ buckets) = f bucket + sum_buckets f buckets

module _ {S : Type 0} where
  unfoldable pub record_mutation : MutationInput → Ledger S → Ledger S
  record_mutation input ledger = record ledger {
    row_count = input.row_count;
    version = input.version;
    last_mutation_at = some input.occurred_at;
    mutation_rate_buckets =
        record_bucket input.occurred_at input.rows_changed ledger.mutation_rate_buckets;
  }

  unfoldable pub health_snapshot : ℕ → Ledger S → TopicHealthTotals
  health_snapshot now ledger = record {
    active_subscriptions = ledger.active_subscriptions;
    queued_events = ledger.queued_events;
    max_queue_depth = ledger.max_queue_depth;
    backpressure_events = ledger.backpressure_events;
    row_count = ledger.row_count;
    version = ledger.version;
    last_mutation_at = ledger.last_mutation_at;
    mutations_per_second =
        sum_buckets (in_window now (λ b. b.mutations)) ledger.mutation_rate_buckets;
    rows_per_second =
        sum_buckets (in_window now (λ b. b.rows_changed)) ledger.mutation_rate_buckets;
    pending_mutation_batches = ledger.pending_mutation_batches;
  }
