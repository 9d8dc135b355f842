-- ===== src/Engine/Delta/Aligned.antt =====
-- What the check of the replacement path establishes: the entries that stay are, in order, the
-- shared entries of the next window.
use view_server_smart.Shared.{
  ℕ, suc, ◌≡◌, refl, ◌∙◌, inl, inr, Bool, true, false, ◌&&◌, not, some, List, [], ◌∷◌, arith,
  get_elem?, drop, contains, Distinct, Bool-cases, drop-suc, drop-nil, contains-drop, ite,
}
use view_server_smart.Shared.Arrays.{keys_of, rows_of}
use view_server_smart.Engine.Evaluation.{QueryEvaluation, row_differs, row_differs-eq}
use view_server_smart.Engine.Delta.Agreement.{Interchangeable}
use view_server_smart.Engine.Delta.Removal.{keep}
use view_server_smart.Engine.Delta.Replacement.{key_stands_at, skip_removed, shared_rows_match}

module _ {K R : Type 0} (dec : Discrete K) (rows_equal : R → R → Bool) where
  pub data Aligned (previous_keys : List K) : List (K × R) → List (K × R) → Type 0 where
    end : Aligned previous_keys [] []
    fresh :
        {rest window : List (K × R)} {key : K} {row : R}
        → contains dec key previous_keys ≡ false
        → Aligned previous_keys rest window
        → Aligned previous_keys rest ((key, row) ∷ window)
    kept :
        {rest window : List (K × R)} {key : K} {old row : R}
        → contains dec key previous_keys ≡ true
        → Interchangeable rows_equal old row
        → Aligned previous_keys rest window
        → Aligned previous_keys ((key, old) ∷ rest) ((key, row) ∷ window)

round_checks : (a b c : Bool) → (a && (not b && c)) ≡ true → (a ≡ true) × (b ≡ false) × (c ≡ true)
round_checks a b c h = ground arith

stands-get_elem? :
    {K : Type 0} (dec : Discrete K) (keys : List K) (i : ℕ) (key : K)
    → key_stands_at dec keys i key ≡ true
    → get_elem? keys i ≡ some key
stands-get_elem? dec keys i key h = ground arith

module _ {K R : Type 0} (dec : Discrete K) (rows_equal : R → R → Bool)
    (previous : QueryEvaluation K R) (next_keys : List K) where
  -- The previous entries from `index` on.
  pub record From (index : ℕ) (suffix : List (K × R)) : Type 0 where
    pub keys : drop index previous.keys ≡ keys_of suffix
    pub rows : drop index previous.rows ≡ rows_of suffix
    pub distinct : Distinct dec (keys_of suffix)

  -- Where the inner `while` stops.
  record Stops (suffix : List (K × R)) (at : ℕ) : Type 0 where
    tail : List (K × R)
    from : From at tail
    same : keep dec next_keys suffix ≡ keep dec next_keys tail

  skip_removed-Stops :
      (suffix : List (K × R)) (index : ℕ)
      → From index suffix
      → Stops suffix (skip_removed dec next_keys (keys_of suffix) index)
  unfolding skip_removed keep
  skip_removed-Stops [] index f = record { tail = []; from = f; same = refl }
  skip_removed-Stops (e ∷ suffix) index f = elim (Bool-cases (contains dec e.0 next_keys)) [
    | inl stays ↦ rw stays (record { tail = e ∷ suffix; from = f; same = refl })
    | inr goes ↦
        let ih = skip_removed-Stops suffix (suc index) (record {
          keys = (drop-suc index previous.keys e.0 (keys_of suffix) f.keys).0;
          rows = (drop-suc index previous.rows e.1 (rows_of suffix) f.rows).0;
          distinct = f.distinct.1;
        }) in
        rw goes (record { tail = ih.tail; from = ih.from; same = rw (goes, keep) ih.same })
  ]

  pub keep-contains :
      (es : List (K × R)) (j : K)
      → contains dec j (keys_of (keep dec next_keys es)) ≡ true
      → contains dec j (keys_of es) ≡ true
  unfolding keep
  keep-contains [] j h = h
  keep-contains (e ∷ es) j h = ground (arith, keep-contains es j)

  keep-nil :
      (es : List (K × R))
      → ((j : K) → contains dec j (keys_of (keep dec next_keys es)) ≡ true → ⊥)
      → keep dec next_keys es ≡ []
  unfolding keep
  keep-nil [] h = refl
  keep-nil (e ∷ es) h = elim (Bool-cases (contains dec e.0 next_keys)) [
    | inl stays ↦ absurd (h e.0 (ground arith))
    | inr goes ↦ rw goes (keep-nil es (λ j k. h j (ground arith)))
  ]

  -- The round for a shared key, at the entry where the inner `while` stopped.
  shared_round :
      (window tail : List (K × R)) (key : K) (row : R) (at : ℕ)
      → From at tail
      → get_elem? previous.keys at ≡ some key
      → row_differs rows_equal (get_elem? previous.rows at) row ≡ false
      → (old : R) × (rest : List (K × R)) × (tail ≡ (key, old) ∷ rest)
        × From (suc at) rest
        × Interchangeable rows_equal old row
  shared_round window [] key row at f stands same =
      absurd (ground (arith, drop-nil at previous.keys f.keys))
  shared_round window (e ∷ rest) key row at f stands same =
      let k = drop-suc at previous.keys e.0 (keys_of rest) f.keys in
      let r = drop-suc at previous.rows e.1 (rows_of rest) f.rows in
      let here : e.0 ≡ key = ground (arith, k.1) in
      (
        e.1,
        rest,
        (λ i. (here i, e.1) ∷ rest),
        record { keys = k.0; rows = r.0; distinct = f.distinct.1 },
        inr (row_differs-eq rows_equal _ e.1 row r.1 same),
      )

  -- A kept key other than the one just placed stands further on in the window.
  later :
      (key : K) (window rest : List (K × R)) (j : K)
      → (ite (dec j key) true (contains dec j (keys_of (keep dec next_keys rest))) ≡ true
          → ite (dec j key) true (contains dec j (keys_of window)) ≡ true)
      → contains dec key (keys_of rest) ≡ false
      → contains dec j (keys_of (keep dec next_keys rest)) ≡ true
      → contains dec j (keys_of window) ≡ true
  later key window rest j sub single k = ground (arith, keep-contains rest j)

  pub shared_rows_match-Aligned :
      (window suffix : List (K × R)) (index : ℕ)
      → From index suffix
      → Distinct dec (keys_of window)
      → ((j : K) → contains dec j (keys_of window) ≡ true → contains dec j next_keys ≡ true)
      → ((j : K)
          → contains dec j (keys_of (keep dec next_keys suffix)) ≡ true
          → contains dec j (keys_of window) ≡ true)
      → shared_rows_match dec rows_equal previous next_keys index window ≡ true
      → Aligned dec rows_equal previous.keys (keep dec next_keys suffix) window
  unfolding shared_rows_match keep
  shared_rows_match-Aligned [] suffix index f d up sub h =
      rw (keep-nil suffix (λ j k. ground (arith, sub j k))) end
  shared_rows_match-Aligned ((key, row) ∷ window) suffix index f d up sub h =
      elim (Bool-cases (contains dec key previous.keys)) [
        | inr new ↦ fresh new (
            shared_rows_match-Aligned window suffix index f d.1 (λ j k. up j (ground arith))
              (λ j k. ground (
                arith,
                sub j k,
                keep-contains suffix j k,
                contains-drop dec j index previous.keys,
                f.keys,
              ))
              (ground arith))
        | inl old ↦
            let st = skip_removed-Stops suffix index f in
            let at = skip_removed dec next_keys (keys_of suffix) index in
            let stands = key_stands_at dec previous.keys at key in
            let differs = row_differs rows_equal (get_elem? previous.rows at) row in
            let checks =
              round_checks stands differs
                (shared_rows_match dec rows_equal previous next_keys (suc at) window)
                (rw f.keys at (rw (old, shared_rows_match) at h)) in
            let round =
              shared_round window st.tail key row at st.from
                (stands-get_elem? dec previous.keys at key checks.0) checks.1 in
            let stays : contains dec key next_keys ≡ true = up key (ground arith) in
            let whole : keep dec next_keys suffix ≡ (key, round.0) ∷ keep dec next_keys round.1 =
              st.same ∙ rw (round.2, keep) (rw stays refl) in
            let single : contains dec key (keys_of round.1) ≡ false =
              (rw round.2 at st.from.distinct).0 in
            rw whole (
              kept old round.4 (
                shared_rows_match-Aligned window round.1 (suc at) round.3 d.1
                  (λ j k. up j (ground arith))
                  (λ j k. later key window round.1 j (rw whole at sub j) single k) checks.2))
      ]
