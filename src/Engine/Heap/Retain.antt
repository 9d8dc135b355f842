-- ===== src/Engine/Heap/Retain.antt =====
-- Sifting and retaining: what a heap holds afterwards.
use std.Path.{fun_ext}
use view_server_smart.Shared.{
  ℕ, zero, suc, ◌+◌, ◌-◌, ◌*◌, ◌/◌, ◌≤◌, ◌<◌, ◌≡◌, ◌≢◌, refl, sym, subst, ◌∙◌, inl, inr, Bool, true,
  false, List, length, arith, Bool-cases, ltb, ◌==◌, ==→≡, ==→≢, ◌⊎◌,
}
use view_server_smart.Shared.Order.{Comparison, AtMost, IsPreorder, AtMost-self}
use view_server_smart.Shared.Order.Sorting.{count}
use view_server_smart.Engine.Heap.{swap_heap, test_at, sift_up, sift_down, pick, largest_of}
use view_server_smart.Engine.Heap.Reads.{
  at, swap_at, at-swap_heap, length-swap_heap, test_at-at, count-swap_heap,
}
use view_server_smart.Engine.Heap.Order.{
  parent, InOrder, InOrderBelow, InOrderAbove, up-round, down-round,
}

module _ {A : Type 0} (d : A) {compare : A → A → Comparison} (o : IsPreorder compare) where
  pub record Sifted (before after : List A) : Type 0 where
    pub same_length : length after ≡ length before
    pub same_count : (a : A) → count compare a after ≡ count compare a before
    pub in_order : InOrder compare (length after) (at d after)

  after_swap :
      (heap after : List A) (l r : ℕ)
      → l < length heap
      → r < length heap
      → l ≢ r
      → Sifted (swap_heap heap l r) after
      → Sifted heap after
  after_swap heap after l r hl hr n s = record {
    same_length = s.same_length ∙ length-swap_heap d heap l r hl hr;
    same_count = λ a. s.same_count a ∙ count-swap_heap d compare a heap l r hl hr n;
    in_order = s.in_order;
  }

  reads_swap :
      (heap : List A) (l r : ℕ)
      → l < length heap
      → r < length heap
      → swap_at (at d heap) l r ≡ at d (swap_heap heap l r)
  reads_swap heap l r hl hr = fun_ext (λ j. sym (at-swap_heap d heap l r j hl hr))

  module _ (rises : A → A → Bool) (rises-true : (c p : A) → rises c p ≡ true → AtMost compare p c)
      (rises-false : (c p : A) → rises c p ≡ false → AtMost compare c p) where
    pub sift_up-Sifted :
        (fuel : ℕ) (heap : List A) (current : ℕ)
        → current ≤ fuel
        → current < length heap
        → InOrderBelow compare (length heap) current (at d heap)
        → Sifted heap (sift_up rises fuel heap current)
    unfolding sift_up
    sift_up-Sifted zero heap c f inside x = record {
      same_length = refl;
      same_count = λ a. refl;
      in_order = λ i hi hs. x.others i hi hs (omega (arith, f, hi));
    }
    sift_up-Sifted (suc fuel) heap c f inside x = elim (Bool-cases (c == 0)) [
      | inl e ↦
          rw (e, sift_up)
            (record {
              same_length = refl;
              same_count = λ a. refl;
              in_order = λ i hi hs. x.others i hi hs (ground (arith, e, hi));
            })
      | inr ne ↦
          let pos : 0 < c = ground (arith, ne) in
          let above : parent c < length heap = omega (arith, inside) in
          let read = test_at-at d rises heap c (parent c) inside above in
          elim (Bool-cases (rises (at d heap c) (at d heap (parent c)))) [
            | inl r ↦
                let same_size = sym (length-swap_heap d heap (parent c) c above inside) in
                let round : InOrderBelow compare (length heap) (parent c)
                    (swap_at (at d heap) (parent c) c) =
                  up-round o (length heap) (at d heap) c pos inside x (rises-true _ _ r) in
                let ready : InOrderBelow compare (length (swap_heap heap (parent c) c)) (parent c)
                    (at d (swap_heap heap (parent c) c)) =
                  subst
                    (λ (n : ℕ).
                      InOrderBelow compare n (parent c) (at d (swap_heap heap (parent c) c)))
                    same_size
                    (subst (λ (g : ℕ → A). InOrderBelow compare (length heap) (parent c) g)
                      (reads_swap heap (parent c) c above inside) round) in
                let rest =
                  sift_up-Sifted fuel (swap_heap heap (parent c) c) (parent c)
                    (omega (arith, f, pos)) (omega (arith, same_size, above)) ready in
                let went : test_at rises heap c ((c - 1) / 2) ≡ true = read ∙ r in
                rw (ne, went, sift_up)
                  (after_swap heap _ (parent c) c above inside (λ e. omega (arith, e, pos)) rest)
            | inr r ↦
                let stayed : test_at rises heap c ((c - 1) / 2) ≡ false = read ∙ r in
                rw (ne, stayed, sift_up)
                  (record {
                    same_length = refl;
                    same_count = λ a. refl;
                    in_order = λ i hi hs. elim (Bool-cases (i == c)) [
                      | inl e ↦
                          subst (λ (j : ℕ). AtMost compare (at d heap j) (at d heap (parent j)))
                            (sym (==→≡ i c e)) (rises-false _ _ r)
                      | inr e ↦ x.others i hi hs (==→≢ i c e)
                    ];
                  })
          ]
    ]

  module _ (larger : A → A → Bool)
      (larger-true : (a b : A) → larger a b ≡ true → AtMost compare b a)
      (larger-false : (a b : A) → larger a b ≡ false → AtMost compare a b) where
    record Picked (heap : List A) (child largest r : ℕ) : Type 0 where
      inside : r < length heap
      which : (r ≡ largest) ⊎ (r ≡ child)
      up : AtMost compare (at d heap largest) (at d heap r)
      best : child < length heap → AtMost compare (at d heap child) (at d heap r)

    pick-Picked :
        (heap : List A) (child largest : ℕ)
        → largest < length heap
        → Picked heap child largest (pick larger heap child largest)
    pick-Picked heap child largest h = elim (Bool-cases (ltb child (length heap))) [
      | inr e ↦
          rw (e, pick)
            (record {
              inside = h;
              which = inl refl;
              up = AtMost-self o (at d heap largest);
              best = λ c. absurd (ground (arith, e, c));
            })
      | inl e ↦
          let lt : child < length heap = ground (arith, e) in
          let read = test_at-at d larger heap child largest lt h in
          elim (Bool-cases (larger (at d heap child) (at d heap largest))) [
            | inl l ↦
                let t : test_at larger heap child largest ≡ true = read ∙ l in
                rw (e, t, pick)
                  (record {
                    inside = lt;
                    which = inr refl;
                    up = larger-true _ _ l;
                    best = λ c. AtMost-self o (at d heap child);
                  })
            | inr l ↦
                let t : test_at larger heap child largest ≡ false = read ∙ l in
                rw (e, t, pick)
                  (record {
                    inside = h;
                    which = inl refl;
                    up = AtMost-self o (at d heap largest);
                    best = λ c. larger-false _ _ l;
                  })
          ]
    ]

    record Largest (heap : List A) (c r : ℕ) : Type 0 where
      inside : r < length heap
      which : (r ≡ c) ⊎ ((parent r ≡ c) × (0 < r))
      up : AtMost compare (at d heap c) (at d heap r)
      best :
          (i : ℕ)
          → 0 < i
          → i < length heap
          → parent i ≡ c
          → AtMost compare (at d heap i) (at d heap r)

    largest_of-Largest :
        (heap : List A) (c : ℕ) → c < length heap → Largest heap c (largest_of larger heap c)
    largest_of-Largest heap c h =
        let left = pick-Picked heap (c * 2 + 1) c h in
        let right = pick-Picked heap (c * 2 + 1 + 1) (pick larger heap (c * 2 + 1) c) left.inside in
        record {
          inside = right.inside;
          which = chosen _ _ left.which right.which;
          up = o.trans _ _ _ left.up right.up;
          best = λ i hi hs e. elim (Bool-cases (i == c * 2 + 1)) [
            | inl s ↦
                let s : i ≡ c * 2 + 1 = ==→≡ i (c * 2 + 1) s in
                subst
                  (λ (j : ℕ). AtMost compare (at d heap j) (at d heap (largest_of larger heap c)))
                  (sym s) (o.trans _ _ _ (left.best (omega (arith, s, hs))) right.up)
            | inr s ↦
                let n : i ≢ c * 2 + 1 = ==→≢ i (c * 2 + 1) s in
                let s : i ≡ c * 2 + 1 + 1 = omega (arith, e, n, hi) in
                subst
                  (λ (j : ℕ). AtMost compare (at d heap j) (at d heap (largest_of larger heap c)))
                  (sym s) (right.best (omega (arith, s, hs)))
          ];
        }
      where
        chosen :
            (l r : ℕ)
            → (l ≡ c) ⊎ (l ≡ c * 2 + 1)
            → (r ≡ l) ⊎ (r ≡ c * 2 + 1 + 1)
            → (r ≡ c) ⊎ ((parent r ≡ c) × (0 < r))
        chosen l r (inl a) (inl b) = inl (b ∙ a)
        chosen l r (inr a) (inl b) = inr (omega (arith, a, b), omega (arith, a, b))
        chosen l r a (inr b) = inr (omega (arith, b), omega (arith, b))

    pub sift_down-Sifted :
        (fuel : ℕ) (heap : List A) (current : ℕ)
        → length heap ≤ current + fuel
        → current < length heap
        → InOrderAbove compare (length heap) current (at d heap)
        → Sifted heap (sift_down larger fuel heap current)
    unfolding sift_down
    sift_down-Sifted zero heap c f inside x = absurd (omega (arith, f, inside))
    sift_down-Sifted (suc fuel) heap c f inside x =
        let l = largest_of-Largest heap c inside in
        let w = largest_of larger heap c in
        elim (Bool-cases (largest_of larger heap c == c)) [
          | inl e ↦
              let e' : largest_of larger heap c ≡ c = ==→≡ _ c e in
              rw (e, sift_down)
                (record {
                  same_length = refl;
                  same_count = λ a. refl;
                  in_order = λ i hi hs. elim (Bool-cases (parent i == c)) [
                    | inl p ↦
                        let p : parent i ≡ c = ==→≡ (parent i) c p in
                        subst (λ (j : ℕ). AtMost compare (at d heap i) (at d heap j)) (e' ∙ sym p)
                          (l.best i hi hs p)
                    | inr p ↦ x.others i hi hs (==→≢ (parent i) c p)
                  ];
                })
          | inr ne ↦
              let n : largest_of larger heap c ≢ c = ==→≢ _ c ne in
              let (child, pos) : (parent w ≡ c) × (0 < w) = is_child w l.which n in
              let same_size = sym (length-swap_heap d heap c w inside l.inside) in
              let round : InOrderAbove compare (length heap) w (swap_at (at d heap) c w) =
                down-round o (length heap) (at d heap) c w l.inside child pos x l.up l.best in
              let ready : InOrderAbove compare (length (swap_heap heap c w)) w
                  (at d (swap_heap heap c w)) =
                subst (λ (n : ℕ). InOrderAbove compare n w (at d (swap_heap heap c w))) same_size
                  (subst (λ (g : ℕ → A). InOrderAbove compare (length heap) w g)
                    (reads_swap heap c w inside l.inside) round) in
              let rest =
                sift_down-Sifted fuel (swap_heap heap c w) w
                  (omega (arith, f, same_size, child, pos)) (omega (arith, same_size, l.inside))
                  ready in
              rw (ne, sift_down) (after_swap heap _ c w inside l.inside (λ e. n (sym e)) rest)
        ]
      where
        is_child : (w : ℕ) → (w ≡ c) ⊎ ((parent w ≡ c) × (0 < w)) → w ≢ c → (parent w ≡ c) × (0 < w)
        is_child w (inl e) n = absurd (n e)
        is_child w (inr p) n = p
