-- ===== src/Engine/Scan/Loops.antt =====
-- The loops of the scan as folds over the slots that match.
use native.Mathlib.Numerals.{unary_clauses}
use mathlib.Core.List.{append_assoc, append-nil}
use view_server_smart.Shared.{
  ℕ, zero, suc, ◌+◌, ◌-◌, ◌≤◌, ◌≡◌, refl, sym, ap, ◌∙◌, inl, inr, Bool, true, false, List, [], ◌∷◌,
  ◌++◌, length, take, drop, ltb, leb, arith, Bool-cases,
}
use view_server_smart.Engine.Scan.{
  filter, for_each_match, Scanned, keep_in_window, OrderedRawWindowSpan, spans_slots,
  scan_raw_window_ordered_slots,
}

-- The kept slots after the matches, which are numbered from `total` on.
unfoldable pub fold_matches : (ℕ → List ℕ → ℕ → List ℕ) → ℕ → List ℕ → List ℕ → List ℕ
fold_matches keep total kept [] = kept
fold_matches keep total kept (slot ∷ slots) =
    fold_matches keep (total + 1) (keep total kept slot) slots

abbrev pub scanned : ℕ → List ℕ → Scanned
scanned total slots = record { total_rows = total; window_slots = slots }

pub for_each_match-fold_matches :
    (matches_slot : ℕ → Bool) (keep : ℕ → List ℕ → ℕ → List ℕ) (total : ℕ) (kept slots : List ℕ)
    → for_each_match matches_slot keep total kept slots
      ≡ scanned
          (total + length (filter matches_slot slots))
          (fold_matches keep total kept (filter matches_slot slots))
unfolding for_each_match fold_matches
for_each_match-fold_matches m keep total kept [] =
    let e : total ≡ total + 0 = omega arith in ap (λ (n : ℕ). scanned n kept) e
for_each_match-fold_matches m keep total kept (slot ∷ slots) = elim (Bool-cases (m slot)) [
  | inr e ↦ rw (e, for_each_match, filter) (for_each_match-fold_matches m keep total kept slots)
  | inl e ↦
      let rest = for_each_match-fold_matches m keep (total + 1) (keep total kept slot) slots in
      let n : total + 1 + length (filter m slots) ≡ total + suc (length (filter m slots)) =
        omega arith in
      rw (e, for_each_match, filter, fold_matches)
        (rest
          ∙ ap
              (λ (n : ℕ).
                scanned n (fold_matches keep (total + 1) (keep total kept slot) (filter m slots)))
              n)
]

pub for_each_match-start :
    (matches_slot : ℕ → Bool) (keep : ℕ → List ℕ → ℕ → List ℕ) (slots : List ℕ)
    → for_each_match matches_slot keep 0 [] slots
      ≡ scanned
          (length (filter matches_slot slots))
          (fold_matches keep 0 [] (filter matches_slot slots))
for_each_match-start m keep slots =
    let found = filter m slots in
    let n : 0 + length found ≡ length found = omega arith in
    for_each_match-fold_matches m keep 0 [] slots
    ∙ ap (λ (n : ℕ). scanned n (fold_matches keep 0 [] found)) n

take-nil : (n : ℕ) → take {A = ℕ} n [] ≡ []
take-nil zero = refl
take-nil (suc n) = refl

drop-nil : (n : ℕ) → drop {A = ℕ} n [] ≡ []
drop-nil zero = refl
drop-nil (suc n) = refl

pub fold_matches-collect :
    (total : ℕ) (kept slots : List ℕ)
    → fold_matches (λ total kept slot. kept ++ slot ∷ []) total kept slots ≡ kept ++ slots
unfolding fold_matches
fold_matches-collect total kept [] = sym (append-nil kept)
fold_matches-collect total kept (slot ∷ slots) =
    fold_matches-collect (total + 1) (kept ++ slot ∷ []) slots ∙ append_assoc kept (slot ∷ []) slots

module _ (offset window_end : ℕ) where
  after_window :
      (total : ℕ) (kept slots : List ℕ)
      → window_end ≤ total
      → fold_matches (keep_in_window offset window_end) total kept slots ≡ kept
  unfolding fold_matches
  after_window total kept [] h = refl
  after_window total kept (slot ∷ slots) h =
      let e : ltb total window_end ≡ false = ground arith in
      let unchanged : keep_in_window offset window_end total kept slot ≡ kept =
        elim (Bool-cases (leb offset total)) [
          | inl l ↦ rw (l, e, keep_in_window) refl
          | inr l ↦ rw (l, keep_in_window) refl
        ] in
      ap (λ (kept : List ℕ). fold_matches (keep_in_window offset window_end) (total + 1) kept slots)
        unchanged
      ∙ after_window (total + 1) kept slots (omega (arith, h))

  in_window :
      (total : ℕ) (kept slots : List ℕ)
      → offset ≤ total
      → fold_matches (keep_in_window offset window_end) total kept slots
        ≡ kept ++ take (window_end - total) slots
  unfolding fold_matches
  in_window total kept [] h =
      sym (append-nil kept) ∙ ap (λ (xs : List ℕ). kept ++ xs) (sym (take-nil (window_end - total)))
  in_window total kept (slot ∷ slots) h = elim (Bool-cases (ltb total window_end)) [
    | inr e ↦
        let none_left : window_end - total ≡ 0 = ground (arith, e) in
        after_window total kept (slot ∷ slots) (ground (arith, e))
        ∙ sym (append-nil kept)
        ∙ ap (λ (n : ℕ). kept ++ take n (slot ∷ slots)) (sym none_left)
    | inl e ↦
        let more_left : suc (window_end - (total + 1)) ≡ window_end - total = ground (arith, e) in
        let l : leb offset total ≡ true = ground (arith, h) in
        rw (l, e, keep_in_window)
          (in_window (total + 1) (kept ++ slot ∷ []) slots (omega (arith, h))
            ∙ append_assoc kept (slot ∷ []) (take (window_end - (total + 1)) slots)
            ∙ ap (λ (n : ℕ). kept ++ take n (slot ∷ slots)) more_left)
  ]

  before_window :
      (total : ℕ) (slots : List ℕ)
      → offset ≤ window_end
      → fold_matches (keep_in_window offset window_end) total [] slots
        ≡ drop (offset - total) (take (window_end - total) slots)
  unfolding fold_matches
  before_window total [] h = rw (take-nil (window_end - total), drop-nil (offset - total)) refl
  before_window total (slot ∷ slots) h = elim (Bool-cases (leb offset total)) [
    | inl e ↦
        let zero_left : offset - total ≡ 0 = ground (arith, e) in
        in_window total [] (slot ∷ slots) (ground (arith, e))
        ∙ ap (λ (n : ℕ). drop n (take (window_end - total) (slot ∷ slots))) (sym zero_left)
    | inr e ↦
        let skipped : suc (offset - (total + 1)) ≡ offset - total = ground (arith, e) in
        let more_left : suc (window_end - (total + 1)) ≡ window_end - total =
          ground (arith, e, h) in
        rw (e, keep_in_window)
          (before_window (total + 1) slots h
            ∙ ap (λ (n : ℕ). drop n (take (suc (window_end - (total + 1))) (slot ∷ slots))) skipped
            ∙ ap (λ (n : ℕ). drop (offset - total) (take n (slot ∷ slots))) more_left)
  ]

-- The scan of an ordered index counts the matches of its spans, and keeps of them, in the order of the index, those
-- from `offset` to `offset + limit`.
pub scan_raw_window_ordered_slots-slice :
    (offset limit : ℕ) (matches_slot : ℕ → Bool) (slots : List ℕ)
    (spans : List OrderedRawWindowSpan)
    → scan_raw_window_ordered_slots offset limit matches_slot slots spans
      ≡ scanned
          (length (filter matches_slot (spans_slots slots spans)))
          (drop offset (take (offset + limit) (filter matches_slot (spans_slots slots spans))))
unfolding scan_raw_window_ordered_slots
scan_raw_window_ordered_slots-slice offset limit m slots spans =
    let found = filter m (spans_slots slots spans) in
    let front =
      simp unary_clauses at (before_window offset (offset + limit) 0 found (omega arith)) in
    for_each_match-start m (keep_in_window offset (offset + limit)) (spans_slots slots spans)
    ∙ ap (scanned (length found)) front
