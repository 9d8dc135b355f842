-- ===== src/Engine/Health/Totals.antt =====
-- The counters of the ledger are the totals over the open subscriptions.
use view_server_smart.Shared.{
  ℕ, ◌+◌, ◌-◌, ◌≤◌, ◌≡◌, refl, sym, ap, ◌∙◌, inl, inr, max, some, List, [], ◌∷◌, arith, length,
  Distinct, length-append, length-map, ltb, Bool-cases, Option-cases,
}
use view_server_smart.Shared.Arrays.{keys_of}
use view_server_smart.Engine.Health.{
  TopicHealthSubscription, Ledger, MutationInput, get_tracked, set_tracked, open_subscription,
  close_subscription, update_queue_depth, mark_backpressure, begin_mutation_batch,
  end_mutation_batch, record_mutation, reset_ledger,
}
use view_server_smart.Engine.Health.Tracked.{
  sum_of, AllWithin, AllWithin-more, get_tracked-none, set_tracked-new, set_tracked-old,
  set_tracked-keys, set_tracked-AllWithin, tracked_within, delete_tracked-sum,
  delete_tracked-length, delete_tracked-Distinct, delete_tracked-AllWithin, sum_of-append,
  AllWithin-append, append-Distinct,
}

-- The calls on a ledger.
pub data LedgerStep (S : Type 0) : Type 0 where
  opened : S → LedgerStep S
  closed : S → LedgerStep S
  queue_depth : S → ℕ → LedgerStep S
  backpressure : S → LedgerStep S
  begin_batch : LedgerStep S
  end_batch : LedgerStep S
  mutated : MutationInput → LedgerStep S
  reset : LedgerStep S

module _ {S : Type 0} (dec : Discrete S) where
  unfoldable pub ledger_step : Ledger S → LedgerStep S → Ledger S
  ledger_step ledger (opened s) = open_subscription dec s ledger
  ledger_step ledger (closed s) = close_subscription dec s ledger
  ledger_step ledger (queue_depth s depth) = update_queue_depth dec s depth ledger
  ledger_step ledger (backpressure s) = mark_backpressure dec s ledger
  ledger_step ledger begin_batch = begin_mutation_batch ledger
  ledger_step ledger end_batch = end_mutation_batch ledger
  ledger_step ledger (mutated input) = record_mutation input ledger
  ledger_step ledger reset = reset_ledger

  unfoldable pub ledger_run : Ledger S → List (LedgerStep S) → Ledger S
  ledger_run ledger [] = ledger
  ledger_run ledger (next ∷ steps) = ledger_run (ledger_step ledger next) steps

module _ {S : Type 0} (dec : Discrete S) where
  pub record IsBalanced (ledger : Ledger S) : Type 0 where
    pub distinct : Distinct dec (keys_of ledger.subscriptions)
    pub active : ledger.active_subscriptions ≡ length ledger.subscriptions
    pub queued : ledger.queued_events ≡ sum_of (λ t. t.queued_events) ledger.subscriptions
    pub depth : AllWithin ledger.max_queue_depth ledger.subscriptions
    pub pressed :
        sum_of (λ t. t.backpressure_events) ledger.subscriptions ≤ ledger.backpressure_events

  opened-IsBalanced :
      (s : S) (ledger : Ledger S) → IsBalanced ledger → IsBalanced (open_subscription dec s ledger)
  unfolding open_subscription
  opened-IsBalanced s ledger b = elim (Option-cases (get_tracked dec s ledger.subscriptions)) [
    | inr (tracked, e) ↦ rw (e, open_subscription) b
    | inl e ↦
        let subs = ledger.subscriptions in
        let fresh : TopicHealthSubscription = record {
          queued_events = 0;
          max_queue_depth = 0;
          backpressure_events = 0;
        } in
        let new = get_tracked-none dec s subs e in
        rw (e, set_tracked-new dec s fresh subs new, open_subscription)
          (record {
            distinct = append-Distinct dec subs s fresh b.distinct new;
            active = omega (arith, b.active, length-append subs ((s, fresh) ∷ []));
            queued = omega (arith, b.queued, sum_of-append dec (λ t. t.queued_events) subs s fresh);
            depth =
                AllWithin-append dec ledger.max_queue_depth subs s fresh b.depth (omega arith)
                  (omega arith);
            pressed =
                omega
                  (arith, b.pressed, sum_of-append dec (λ t. t.backpressure_events) subs s fresh);
          })
  ]

  closed-IsBalanced :
      (s : S) (ledger : Ledger S) → IsBalanced ledger → IsBalanced (close_subscription dec s ledger)
  unfolding close_subscription
  closed-IsBalanced s ledger b = elim (Option-cases (get_tracked dec s ledger.subscriptions)) [
    | inl e ↦ rw (e, close_subscription) b
    | inr (tracked, e) ↦
        let subs = ledger.subscriptions in
        let queued = delete_tracked-sum dec s tracked subs (λ t. t.queued_events) e in
        let pressed = delete_tracked-sum dec s tracked subs (λ t. t.backpressure_events) e in
        let size = delete_tracked-length dec s tracked subs e in
        rw (e, close_subscription)
          (record {
            distinct = delete_tracked-Distinct dec s subs b.distinct;
            active = omega (arith, b.active, size);
            queued = omega (arith, b.queued, queued);
            depth = delete_tracked-AllWithin dec s subs ledger.max_queue_depth b.depth;
            pressed = omega (arith, b.pressed, pressed);
          })
  ]

  -- A subscription's record is replaced.
  replaced-IsBalanced :
      (s : S) (old new : TopicHealthSubscription) (ledger : Ledger S) (depth queued pressure : ℕ)
      → IsBalanced ledger
      → get_tracked dec s ledger.subscriptions ≡ some old
      → new.queued_events ≤ new.max_queue_depth
      → new.max_queue_depth ≤ depth
      → ledger.max_queue_depth ≤ depth
      → queued + old.queued_events ≡ ledger.queued_events + new.queued_events
      → ledger.backpressure_events + new.backpressure_events ≤ pressure + old.backpressure_events
      → IsBalanced (record ledger {
        subscriptions = set_tracked dec s new ledger.subscriptions;
        queued_events = queued;
        max_queue_depth = depth;
        backpressure_events = pressure;
      })
  replaced-IsBalanced s old new ledger depth queued pressure b e le le' grown q p =
      let subs = ledger.subscriptions in
      let keys = set_tracked-keys dec s new old subs e in
      let size : length (set_tracked dec s new subs) ≡ length subs =
        sym (length-map (λ x. x.0) (set_tracked dec s new subs))
        ∙ ap length keys
        ∙ length-map (λ x. x.0) subs in
      record {
        distinct = rw keys b.distinct;
        active = b.active ∙ sym size;
        queued =
            omega (arith, b.queued, q, set_tracked-old dec s new old subs (λ t. t.queued_events) e);
        depth =
            set_tracked-AllWithin dec s new old subs depth
              (AllWithin-more ledger.max_queue_depth depth subs b.depth grown) le le';
        pressed = omega (
          arith,
          b.pressed,
          p,
          set_tracked-old dec s new old subs (λ t. t.backpressure_events) e,
        );
      }

  queue_depth-IsBalanced :
      (s : S) (next : ℕ) (ledger : Ledger S)
      → IsBalanced ledger
      → IsBalanced (update_queue_depth dec s next ledger)
  unfolding update_queue_depth
  queue_depth-IsBalanced s next ledger b =
      elim (Option-cases (get_tracked dec s ledger.subscriptions)) [
        | inl e ↦ rw (e, update_queue_depth) b
        | inr (old, e) ↦
            let within =
              tracked_within dec s old ledger.subscriptions ledger.max_queue_depth b.depth e in
            let enough : old.queued_events ≤ ledger.queued_events = omega (
              arith,
              b.queued,
              delete_tracked-sum dec s old ledger.subscriptions (λ t. t.queued_events) e,
            ) in
            elim (Bool-cases (ltb old.max_queue_depth next)) [
              | inl deeper ↦
                  rw (e, deeper, update_queue_depth)
                    (replaced-IsBalanced s old
                      (record old { queued_events = next; max_queue_depth = next }) ledger
                      (max ledger.max_queue_depth next)
                      ((ledger.queued_events - old.queued_events) + next) ledger.backpressure_events
                      b e (omega arith) (omega arith) (omega arith) (omega (arith, enough))
                      (omega arith))
              | inr shallow ↦
                  rw (e, shallow, update_queue_depth)
                    (replaced-IsBalanced s old (record old { queued_events = next }) ledger
                      ledger.max_queue_depth ((ledger.queued_events - old.queued_events) + next)
                      ledger.backpressure_events b e (ground (arith, shallow)) within.1
                      (omega arith) (omega (arith, enough)) (omega arith))
            ]
      ]

  backpressure-IsBalanced :
      (s : S) (ledger : Ledger S) → IsBalanced ledger → IsBalanced (mark_backpressure dec s ledger)
  unfolding mark_backpressure
  backpressure-IsBalanced s ledger b =
      elim (Option-cases (get_tracked dec s ledger.subscriptions)) [
        | inl e ↦ rw (e, mark_backpressure) b
        | inr (old, e) ↦
            let within =
              tracked_within dec s old ledger.subscriptions ledger.max_queue_depth b.depth e in
            rw (e, mark_backpressure)
              (replaced-IsBalanced s old
                (record old { backpressure_events = old.backpressure_events + 1 }) ledger
                ledger.max_queue_depth ledger.queued_events (ledger.backpressure_events + 1) b e
                within.0 within.1 (omega arith) (omega arith) (omega arith))
      ]

  pub reset_ledger-IsBalanced : IsBalanced reset_ledger
  unfolding reset_ledger
  reset_ledger-IsBalanced = record {
    distinct = tt;
    active = refl;
    queued = refl;
    depth = tt;
    pressed = omega arith;
  }

  kept :
      (ledger after : Ledger S)
      → IsBalanced ledger
      → after.subscriptions ≡ ledger.subscriptions
      → after.active_subscriptions ≡ ledger.active_subscriptions
      → after.queued_events ≡ ledger.queued_events
      → after.max_queue_depth ≡ ledger.max_queue_depth
      → after.backpressure_events ≡ ledger.backpressure_events
      → IsBalanced after
  kept ledger after b subs active queued depth pressed = record {
    distinct = rw subs b.distinct;
    active = rw (subs, active) b.active;
    queued = rw (subs, queued) b.queued;
    depth = rw (subs, depth) b.depth;
    pressed = rw (subs, pressed) b.pressed;
  }

  ledger_step-IsBalanced :
      (ledger : Ledger S) (next : LedgerStep S)
      → IsBalanced ledger
      → IsBalanced (ledger_step dec ledger next)
  unfolding ledger_step begin_mutation_batch end_mutation_batch record_mutation
  ledger_step-IsBalanced ledger (opened s) b = opened-IsBalanced s ledger b
  ledger_step-IsBalanced ledger (closed s) b = closed-IsBalanced s ledger b
  ledger_step-IsBalanced ledger (queue_depth s depth) b = queue_depth-IsBalanced s depth ledger b
  ledger_step-IsBalanced ledger (backpressure s) b = backpressure-IsBalanced s ledger b
  ledger_step-IsBalanced ledger begin_batch b = kept ledger _ b refl refl refl refl refl
  ledger_step-IsBalanced ledger end_batch b = kept ledger _ b refl refl refl refl refl
  ledger_step-IsBalanced ledger (mutated input) b = kept ledger _ b refl refl refl refl refl
  ledger_step-IsBalanced ledger reset b = reset_ledger-IsBalanced

  -- Whatever calls a balanced ledger gets, its counters stay the totals over the open subscriptions:
  -- the active ones are their number, the queued events the sum of their queues, each queue is within
  -- its subscription's maximum and that within the topic's, and the topic's backpressure events are no
  -- fewer than theirs.
  pub ledger_run-IsBalanced :
      (ledger : Ledger S) (steps : List (LedgerStep S))
      → IsBalanced ledger
      → IsBalanced (ledger_run dec ledger steps)
  unfolding ledger_run
  ledger_run-IsBalanced ledger [] b = b
  ledger_run-IsBalanced ledger (next ∷ steps) b =
      ledger_run-IsBalanced (ledger_step dec ledger next) steps
        (ledger_step-IsBalanced ledger next b)
