-- ===== src/Engine/Delta/Moved.antt =====
-- What `singleMovedKey` finds: one `splice` of the previous keys gives the next keys.
use view_server_smart.Shared.{
  ℕ, zero, suc, ◌+◌, ◌-◌, ◌≤◌, ◌<◌, ◌≡◌, refl, sym, ◌∙◌, ◌⊎◌, inl, inr, true, ◌&&◌, Option, none,
  some, List, [], ◌∷◌, arith, length, get_elem?, Bool-cases, Option-cases, eq_of_get_elem?,
  lt-get_elem?, if◌then◌else◌, ltb, ◌==◌, ℕ_discrete,
}
use view_server_smart.Shared.Splice.{
  splice_in, splice_out, splice_move, splice_move-at, get_elem?-splice_in, get_elem?-splice_out,
  length-splice_out,
}
use view_server_smart.Engine.Delta.Move.{
  SingleMovedKey, ChangedSpan, same_key, changed_span, moved_down_matches, moved_up_matches,
  moved_down, moved_up,
}

module _ {K : Type 0} (dec : Discrete K) where
  same_key-eq : (a b : Option K) → same_key dec a b ≡ true → a ≡ b
  same_key-eq none none h = refl
  same_key-eq none (some b) h = cc
  same_key-eq (some a) none h = cc
  same_key-eq (some a) (some b) h = ground arith

  -- With a span already begun at `start`, ending before `index`.
  widened :
      (index : ℕ) (ks ls : List K) (begun span : ChangedSpan)
      → changed_span dec index ks ls (some begun) ≡ some span
      → begun.last_changed < index
      → (span.first_changed ≡ begun.first_changed)
        × (begun.last_changed ≤ span.last_changed)
        × (span.last_changed < index + length ks)
  unfolding changed_span
  widened index [] ls begun span h lt = ground arith
  widened index (k ∷ ks) [] begun span h lt =
      let ih =
        widened (suc index) ks [] (record begun { last_changed = index }) span h (omega arith) in
      ground (arith, ih)
  widened index (k ∷ ks) (l ∷ ls) begun span h lt = elim (dec k l) [
    | yes p ↦
        let ih = widened (suc index) ks ls begun span (ground arith) (omega arith) in
        ground (arith, ih)
    | no p ↦
        let ih =
          widened (suc index) ks ls (record begun { last_changed = index }) span (ground arith)
            (omega arith) in
        ground (arith, ih)
  ]

  after_span_begun :
      (index : ℕ) (ks ls : List K) (begun span : ChangedSpan) (j : ℕ)
      → length ks ≡ length ls
      → changed_span dec index ks ls (some begun) ≡ some span
      → begun.last_changed < index
      → span.last_changed < index + j
      → get_elem? ks j ≡ get_elem? ls j
  unfolding changed_span
  after_span_begun index [] [] begun span j size h lt late = refl
  after_span_begun index [] (l ∷ ls) begun span j size h lt late = absurd (omega arith)
  after_span_begun index (k ∷ ks) [] begun span j size h lt late = absurd (omega arith)
  after_span_begun index (k ∷ ks) (l ∷ ls) begun span zero size h lt late = elim (dec k l) [
    | yes p ↦ ground arith
    | no p ↦
        let wide =
          widened (suc index) ks ls (record begun { last_changed = index }) span (ground arith)
            (omega arith) in
        absurd (omega (arith, wide))
  ]
  after_span_begun index (k ∷ ks) (l ∷ ls) begun span (suc j) size h lt late = elim (dec k l) [
    | yes p ↦
        after_span_begun (suc index) ks ls begun span j (omega arith) (ground arith) (omega arith)
          (omega arith)
    | no p ↦
        after_span_begun (suc index) ks ls (record begun { last_changed = index }) span j
          (omega arith) (ground arith) (omega arith) (omega arith)
  ]

  -- The span lies within the keys.
  span_bounds :
      (index : ℕ) (ks ls : List K) (span : ChangedSpan)
      → length ks ≡ length ls
      → changed_span dec index ks ls none ≡ some span
      → (index ≤ span.first_changed)
        × (span.first_changed ≤ span.last_changed)
        × (span.last_changed < index + length ks)
  unfolding changed_span
  span_bounds index [] ls span size h = cc
  span_bounds index (k ∷ ks) [] span size h = absurd (omega arith)
  span_bounds index (k ∷ ks) (l ∷ ls) span size h = elim (dec k l) [
    | yes p ↦
        let ih = span_bounds (suc index) ks ls span (omega arith) (ground arith) in
        omega (arith, ih)
    | no p ↦
        let wide =
          widened (suc index) ks ls (record { first_changed = index; last_changed = index }) span
            (ground arith) (omega arith) in
        omega (arith, wide)
  ]

  -- Outside the span the keys are the same.
  outside_span :
      (index : ℕ) (ks ls : List K) (span : ChangedSpan) (j : ℕ)
      → length ks ≡ length ls
      → changed_span dec index ks ls none ≡ some span
      → (index + j < span.first_changed) ⊎ (span.last_changed < index + j)
      → get_elem? ks j ≡ get_elem? ls j
  unfolding changed_span
  outside_span index [] ls span j size h out = cc
  outside_span index (k ∷ ks) [] span j size h out = absurd (omega arith)
  outside_span index (k ∷ ks) (l ∷ ls) span zero size h out = elim (dec k l) [
    | yes p ↦ ground arith
    | no p ↦
        let wide =
          widened (suc index) ks ls (record { first_changed = index; last_changed = index }) span
            (ground arith) (omega arith) in
        absurd (omega (arith, wide))
  ]
  outside_span index (k ∷ ks) (l ∷ ls) span (suc j) size h out = elim (dec k l) [
    | yes p ↦ outside_span (suc index) ks ls span j (omega arith) (ground arith) (omega arith)
    | no p ↦
        let wide =
          widened (suc index) ks ls (record { first_changed = index; last_changed = index }) span
            (ground arith) (omega arith) in
        after_span_begun (suc index) ks ls (record { first_changed = index; last_changed = index })
          span j (omega arith) (ground arith) (omega arith) (omega (arith, wide))
  ]

  down_shift :
      (previous next : List K) (rounds index j : ℕ)
      → moved_down_matches dec previous next rounds index ≡ true
      → index ≤ j
      → j < index + rounds
      → get_elem? previous (j + 1) ≡ get_elem? next j
  unfolding moved_down_matches
  down_shift previous next zero index j h le lt = absurd (omega arith)
  down_shift previous next (suc rounds) index j h le lt = elim (ℕ_discrete index j) [
    | yes p ↦ rw (← p) (same_key-eq _ _ (ground arith))
    | no p ↦
        down_shift previous next rounds (index + 1) j (ground arith) (omega arith) (omega arith)
  ]

  up_shift :
      (previous next : List K) (rounds index j : ℕ)
      → moved_up_matches dec previous next rounds index ≡ true
      → index ≤ j
      → j < index + rounds
      → get_elem? previous (j - 1) ≡ get_elem? next j
  unfolding moved_up_matches
  up_shift previous next zero index j h le lt = absurd (omega arith)
  up_shift previous next (suc rounds) index j h le lt = elim (ℕ_discrete index j) [
    | yes p ↦ rw (← p) (same_key-eq _ _ (ground arith))
    | no p ↦ up_shift previous next rounds (index + 1) j (ground arith) (omega arith) (omega arith)
  ]

  -- What the fast path needs of a moved key.
  pub record IsMove (previous next : List K) (moved : SingleMovedKey K) : Type 0 where
    pub at : get_elem? previous moved.from_index ≡ some moved.key
    pub target : moved.to_index < length previous
    pub result : splice_move previous moved.from_index moved.to_index ≡ next

  -- Index by index: a key taken out at `from` and put in at `to`.
  move_result :
      (previous next : List K) (from to : ℕ) (key : K)
      → get_elem? previous from ≡ some key
      → get_elem? next to ≡ some key
      → to < length previous
      → ((j : ℕ)
          → (j < from) × (j < to) ⊎ (from < j) × (to < j)
          → get_elem? previous j ≡ get_elem? next j)
      → ((j : ℕ) → from ≤ j → j < to → get_elem? previous (suc j) ≡ get_elem? next j)
      → ((j : ℕ) → to < j → j ≤ from → get_elem? previous (j - 1) ≡ get_elem? next j)
      → splice_move previous from to ≡ next
  move_result previous next from to key at at' lt outside down up =
      splice_move-at previous from to key at
      ∙ eq_of_get_elem? (splice_in out to key) next λ j.
        get_elem?-splice_in out to key j
          (omega (arith, length-splice_out previous from (lt-get_elem? previous from key at)))
        ∙ pointwise j
    where
      out : List K
      out = splice_out previous from

      pointwise :
          (j : ℕ)
          → (if ltb j to
              then get_elem? out j
              else if j == to
              then some key
              else get_elem? out (j - 1))
            ≡ get_elem? next j
      pointwise j = ground (
        arith,
        get_elem?-splice_out previous from j,
        get_elem?-splice_out previous from (j - 1),
        outside j,
        down j,
        up j,
      )

  module _ (previous next : List K) (span : ChangedSpan) (size : length previous ≡ length next)
      (found : changed_span dec 0 previous next none ≡ some span) where
    bounds :
        (0 ≤ span.first_changed)
        × (span.first_changed ≤ span.last_changed)
        × (span.last_changed < 0 + length previous)
    bounds = span_bounds 0 previous next span size found

    same_outside :
        (j : ℕ)
        → (j < span.first_changed) ⊎ (span.last_changed < j)
        → get_elem? previous j ≡ get_elem? next j
    same_outside j h =
        outside_span 0 previous next span j size found
          (elim h [ inl p ↦ inl (omega arith) | inr p ↦ inr (omega arith) ])

    down-IsMove :
        (key : K)
        → get_elem? previous span.first_changed ≡ some key
        → get_elem? next span.last_changed ≡ some key
        → moved_down_matches dec previous next
            (span.last_changed - span.first_changed)
            span.first_changed
          ≡ true
        → IsMove previous next
            (record { from_index = span.first_changed; key = key; to_index = span.last_changed })
    down-IsMove key at at' matches = record {
      at = at;
      target = omega (arith, bounds);
      result =
          move_result previous next span.first_changed span.last_changed key at at'
            (omega (arith, bounds)) (λ j h. same_outside j (omega (arith, bounds)))
            (λ j le lt.
              let e : j + 1 ≡ suc j = omega arith in
              rw e at (
                down_shift previous next (span.last_changed - span.first_changed) span.first_changed
                  j matches le (omega (arith, bounds))))
            (λ j lt le. absurd (omega (arith, bounds)));
    }

    up-IsMove :
        (key : K)
        → get_elem? previous span.last_changed ≡ some key
        → get_elem? next span.first_changed ≡ some key
        → moved_up_matches dec previous next
            (span.last_changed - span.first_changed)
            (span.first_changed + 1)
          ≡ true
        → IsMove previous next
            (record { from_index = span.last_changed; key = key; to_index = span.first_changed })
    up-IsMove key at at' matches = record {
      at = at;
      target = omega (arith, bounds);
      result =
          move_result previous next span.last_changed span.first_changed key at at'
            (omega (arith, bounds)) (λ j h. same_outside j (omega (arith, bounds)))
            (λ j le lt. absurd (omega (arith, bounds)))
            (λ j lt le.
              up_shift previous next (span.last_changed - span.first_changed)
                (span.first_changed + 1) j matches (omega arith) (omega (arith, bounds)));
    }

    pub moved_down-IsMove :
        (moved : SingleMovedKey K)
        → moved_down dec previous next span ≡ some moved
        → IsMove previous next moved
    unfolding moved_down
    moved_down-IsMove moved h = elim (Option-cases (get_elem? previous span.first_changed)) [
      | inl e ↦ absurd (ground arith)
      | inr (key, e) ↦
          elim (Bool-cases (
            same_key dec (some key) (get_elem? next span.last_changed)
            && moved_down_matches dec previous next (span.last_changed - span.first_changed)
                span.first_changed)) [
                  | inr no_match ↦ absurd (ground arith)
                  | inl match ↦
                      let same : some key ≡ get_elem? next span.last_changed =
                        same_key-eq _ _ (ground arith) in
                      let shape : moved ≡ record {
                        from_index = span.first_changed;
                        key = key;
                        to_index = span.last_changed;
                      } =
                        ground arith in
                      rw shape (down-IsMove key e (sym same) (ground arith))
                ]
    ]

    pub moved_up-IsMove :
        (moved : SingleMovedKey K)
        → moved_up dec previous next span ≡ some moved
        → IsMove previous next moved
    unfolding moved_up
    moved_up-IsMove moved h = elim (Option-cases (get_elem? previous span.last_changed)) [
      | inl e ↦ absurd (ground arith)
      | inr (key, e) ↦
          elim (Bool-cases (
            same_key dec (some key) (get_elem? next span.first_changed)
            && moved_up_matches dec previous next (span.last_changed - span.first_changed)
                (span.first_changed + 1))) [
                  | inr no_match ↦ absurd (ground arith)
                  | inl match ↦
                      let same : some key ≡ get_elem? next span.first_changed =
                        same_key-eq _ _ (ground arith) in
                      let shape : moved ≡ record {
                        from_index = span.last_changed;
                        key = key;
                        to_index = span.first_changed;
                      } =
                        ground arith in
                      rw shape (up-IsMove key e (sym same) (ground arith))
                ]
    ]
