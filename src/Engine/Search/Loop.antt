-- ===== src/Engine/Search/Loop.antt =====
-- The loop of a binary search ends, at the point where the test turns.
use view_server_smart.Shared.{
  ℕ, zero, suc, ◌+◌, ◌/◌, ◌≤◌, ◌<◌, ◌≡◌, inl, inr, Bool, true, false, arith, ltb, Bool-cases,
}
use view_server_smart.Engine.Search.{SearchRange, search_range}

-- `r` is where the test turns: it holds of all indexes below `r` and of none from `r` on.
pub record Turns (goes_right : ℕ → Bool) (size r : ℕ) : Type 0 where
  pub within : r ≤ size
  pub below : (i : ℕ) → i < r → goes_right i ≡ true
  pub above : (i : ℕ) → r ≤ i → i < size → goes_right i ≡ false

-- The loop has stopped by its test, inside the range from `low` to `high`.
pub record Ended (low high : ℕ) (left : SearchRange) : Type 0 where
  pub stopped : ltb left.low left.high ≡ false
  pub from_low : low ≤ left.low
  pub to_high : left.low ≤ high

module _ (goes_right : ℕ → Bool) where
  -- Let the fuel be as much as the range is long. The loop stops since its test `low < high` is false, at an index of
  -- the range that it began with.
  pub search_range-Ended :
      (fuel low high : ℕ)
      → low ≤ high
      → high ≤ low + fuel
      → Ended low high (search_range goes_right fuel low high)
  unfolding search_range
  search_range-Ended zero low high o f = record {
    stopped = ground (arith, o, f);
    from_low = omega arith;
    to_high = omega (arith, o);
  }
  search_range-Ended (suc fuel) low high o f = elim (Bool-cases (ltb low high)) [
    | inr e ↦
        rw (e, search_range)
          (record { stopped = e; from_low = omega arith; to_high = omega (arith, o) })
    | inl e ↦
        let lt : low < high = ground (arith, e) in
        elim (Bool-cases (goes_right ((low + high) / 2))) [
          | inl r ↦
              let rest =
                search_range-Ended fuel ((low + high) / 2 + 1) high (omega (arith, lt))
                  (omega (arith, f, lt)) in
              rw (e, r, search_range)
                (record {
                  stopped = rest.stopped;
                  from_low = omega (arith, rest.from_low, lt);
                  to_high = rest.to_high;
                })
          | inr r ↦
              let rest =
                search_range-Ended fuel low ((low + high) / 2) (omega (arith, lt))
                  (omega (arith, f, lt)) in
              rw (e, r, search_range)
                (record {
                  stopped = rest.stopped;
                  from_low = rest.from_low;
                  to_high = omega (arith, rest.to_high, lt);
                })
        ]
  ]

  module _ (size : ℕ)
      (turning : (i j : ℕ) → i ≤ j → j < size → goes_right j ≡ true → goes_right i ≡ true) where
    pub search_loop-Turns :
        (fuel low high : ℕ)
        → high ≤ low + fuel
        → low ≤ high
        → high ≤ size
        → ((i : ℕ) → i < low → goes_right i ≡ true)
        → ((i : ℕ) → high ≤ i → i < size → goes_right i ≡ false)
        → Turns goes_right size (search_range goes_right fuel low high).low
    unfolding search_range
    search_loop-Turns zero low high f o s b a = record {
      within = omega (arith, o, s);
      below = b;
      above = λ i p q. a i (omega (arith, f, p)) q;
    }
    search_loop-Turns (suc fuel) low high f o s b a = elim (Bool-cases (ltb low high)) [
      | inr e ↦
          rw (e, search_range)
            (record {
              within = omega (arith, o, s);
              below = b;
              above = λ i p q. a i (ground (arith, e, o, p)) q;
            })
      | inl e ↦
          let lt : low < high = ground (arith, e) in
          elim (Bool-cases (goes_right ((low + high) / 2))) [
            | inl r ↦
                rw (e, r, search_range)
                  (search_loop-Turns fuel ((low + high) / 2 + 1) high (omega (arith, f, lt))
                    (omega (arith, lt)) s
                    (λ i p.
                      turning i ((low + high) / 2) (omega (arith, p)) (omega (arith, lt, s)) r)
                    a)
            | inr r ↦
                rw (e, r, search_range)
                  (search_loop-Turns fuel low ((low + high) / 2) (omega (arith, f, lt))
                    (omega (arith, lt)) (omega (arith, lt, s)) b
                    (λ i p q. elim (Bool-cases (goes_right i)) [
                      | inr no_ ↦ no_
                      | inl yes_ ↦ absurd (ground (arith, turning ((low + high) / 2) i p q yes_, r))
                    ]))
          ]
    ]
