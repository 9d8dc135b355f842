-- ===== src/Engine/Scan.antt =====
-- The scan for one window of a raw query: packages/column-live-view-engine/src/topic-raw-window-scanner.ts. The
-- comparator of two slots, the test of a slot and the candidates an index names are arguments; `upto` is the loop over
-- all slots.
use view_server_smart.Shared.{
  ℕ, zero, suc, ◌+◌, ◌-◌, ◌*◌, Bool, true, false, Option, none, some, List, [], ◌∷◌, ◌++◌, map,
  length, get_elem?, take, drop, ltb, leb, ◌==◌, if◌then◌else◌,
}
use view_server_smart.Shared.Splice.{splice_in}
use view_server_smart.Shared.Order.{Comparison, is_less, is_more, less, same, more, compare_numbers}
use view_server_smart.Shared.Order.Sorting.{sort_by}
use view_server_smart.Engine.Search.{ordered_slot_index_insertion_point}
use view_server_smart.Engine.Storage.{pop}
use view_server_smart.Engine.Heap.{retain_bounded}
pub mod Loops
pub mod Windows
pub mod Strategies
pub mod Topic

abbrev pub filter {ℓ} : {A : Type ℓ} → (A → Bool) → List A → List A
filter p [] = []
filter p (x ∷ xs) = let rest = filter p xs in if p x then x ∷ rest else rest

-- The numbers below `n`, from `i` on: `for (let slot = i; slot < i + n; slot += 1)`.
abbrev pub count_up : ℕ → ℕ → List ℕ
count_up i zero = []
count_up i (suc n) = i ∷ count_up (suc i) n

abbrev pub upto : ℕ → List ℕ
upto n = count_up 0 n

abbrev pub max_sorted_bounded_raw_window_end : ℕ
max_sorted_bounded_raw_window_end = 1024

abbrev pub max_heap_bounded_raw_window_end : ℕ
max_heap_bounded_raw_window_end = 100000

-- `Number.MAX_SAFE_INTEGER`.
abbrev pub max_safe_integer : ℕ
max_safe_integer = 9007199254740991

pub data BoundedRawWindowStrategy : Type 0 where
  heap : ℕ → BoundedRawWindowStrategy
  sorted : ℕ → BoundedRawWindowStrategy

-- A plan's offset and limit, which validation leaves natural numbers.
pub record WindowPlan : Type 0 where
  pub offset : ℕ
  pub limit : Option ℕ

abbrev pub bounded_strategy_to : ℕ → ℕ → Option BoundedRawWindowStrategy
bounded_strategy_to candidate_count window_end =
    if leb window_end max_safe_integer
    then (if leb window_end max_sorted_bounded_raw_window_end
        then some (sorted window_end)
        else (if leb window_end max_heap_bounded_raw_window_end
            then (if leb (window_end * 4) candidate_count then some (heap window_end) else none)
            else none))
    else none

abbrev pub bounded_raw_window_strategy : WindowPlan → ℕ → Option BoundedRawWindowStrategy
bounded_raw_window_strategy plan candidate_count = elim plan.limit [
  | none ↦ none
  | some limit ↦
      if limit == 0
      then none
      else (if leb plan.offset max_safe_integer
          then (if leb limit max_safe_integer
              then bounded_strategy_to candidate_count (plan.offset + limit)
              else none)
          else none)
]

-- How many slots matched, and the slots kept.
pub record Scanned : Type 0 where
  pub total_rows : ℕ
  pub window_slots : List ℕ

-- The loop all scans share: a slot that does not match is skipped, one that does is counted and handed on.
unfoldable pub for_each_match :
    (ℕ → Bool) → (ℕ → List ℕ → ℕ → List ℕ) → ℕ → List ℕ → List ℕ → Scanned
for_each_match matches_slot keep total kept [] = record { total_rows = total; window_slots = kept }
for_each_match matches_slot keep total kept (slot ∷ slots) =
    let found = matches_slot slot in
    for_each_match matches_slot keep (if found then total + 1 else total)
      (if found then keep total kept slot else kept) slots

abbrev pub with_slots : (List ℕ → List ℕ) → Scanned → Scanned
with_slots f s = record { total_rows = s.total_rows; window_slots = f s.window_slots }

-- `slots.slice(offset, limit === undefined ? undefined : offset + limit)`.
abbrev pub slice_window : WindowPlan → List ℕ → List ℕ
slice_window plan slots = elim plan.limit [
  | none ↦ drop plan.offset slots
  | some limit ↦ drop plan.offset (take (plan.offset + limit) slots)
]

abbrev pub count_raw_window_candidate_slots : (ℕ → Bool) → List ℕ → Scanned
count_raw_window_candidate_slots matches_slot candidates =
    for_each_match matches_slot (λ total kept slot. kept) 0 [] candidates

abbrev pub count_raw_window_slots : ℕ → (ℕ → Bool) → Option (List ℕ) → Scanned
count_raw_window_slots slot_count matches_slot candidates = elim candidates [
  | some slots ↦ count_raw_window_candidate_slots matches_slot slots
  | none ↦ count_raw_window_candidate_slots matches_slot (upto slot_count)
]

-- The slots of a span of the ordered index.
pub record OrderedRawWindowSpan : Type 0 where
  pub start_index : ℕ
  pub end_index : ℕ

abbrev pub span_slots : List ℕ → OrderedRawWindowSpan → List ℕ
span_slots slots span = drop span.start_index (take span.end_index slots)

abbrev pub spans_slots : List ℕ → List OrderedRawWindowSpan → List ℕ
spans_slots slots [] = []
spans_slots slots (span ∷ spans) = span_slots slots span ++ spans_slots slots spans

-- What the ordered index answers: the limit of the plan, the slots of the index and the spans to read.
pub record OrderedRawWindow : Type 0 where
  pub limit : ℕ
  pub slots : List ℕ
  pub spans : List OrderedRawWindowSpan

abbrev pub span_count : List OrderedRawWindowSpan → ℕ
span_count [] = 0
span_count (span ∷ spans) = (span.end_index - span.start_index) + span_count spans

abbrev pub ordered_raw_window_slot_count : OrderedRawWindow → ℕ
ordered_raw_window_slot_count w = span_count w.spans

abbrev pub is_zero_limit : Option ℕ → Bool
is_zero_limit none = false
is_zero_limit (some limit) = limit == 0

-- A match is pushed while its number is in the window.
abbrev pub keep_in_window : ℕ → ℕ → ℕ → List ℕ → ℕ → List ℕ
keep_in_window offset window_end match_index kept slot =
    if leb offset match_index
    then (if ltb match_index window_end then kept ++ slot ∷ [] else kept)
    else kept

unfoldable pub scan_raw_window_ordered_slots :
    ℕ → ℕ → (ℕ → Bool) → List ℕ → List OrderedRawWindowSpan → Scanned
scan_raw_window_ordered_slots offset limit matches_slot slots spans =
    for_each_match matches_slot (keep_in_window offset (offset + limit)) 0 []
      (spans_slots slots spans)

module _ (compare_slots : ℕ → ℕ → Comparison) where
  abbrev pub keep_sorted : ℕ → ℕ → List ℕ → ℕ → List ℕ
  keep_sorted window_end total kept slot =
      let placed =
        splice_in kept (ordered_slot_index_insertion_point kept slot compare_slots) slot in
      if ltb (length kept) window_end then placed else elim (get_elem? kept (length kept - 1)) [
        | none ↦ kept
        | some worst_slot ↦ if is_less (compare_slots slot worst_slot) then pop placed else kept
      ]

  abbrev pub stable_raw_window_slot_comparator : ℕ → ℕ → Comparison
  stable_raw_window_slot_comparator left right = elim (compare_slots left right) [
    | less ↦ less
    | same ↦ compare_numbers left right
    | more ↦ more
  ]

  -- `compareSlots(heap[parent]!, heap[current]!) >= 0` ends the way up.
  abbrev pub rises : (ℕ → ℕ → Comparison) → ℕ → ℕ → Bool
  rises compare current parent = is_less (compare parent current)

  abbrev pub larger : (ℕ → ℕ → Comparison) → ℕ → ℕ → Bool
  larger compare a b = is_more (compare a b)

  abbrev pub retain_bounded_raw_window_slot : ℕ → ℕ → List ℕ → ℕ → List ℕ
  retain_bounded_raw_window_slot window_end total kept slot =
      let compare = stable_raw_window_slot_comparator in
      retain_bounded (rises compare) (larger compare) (λ slot root. is_less (compare slot root))
        window_end kept slot

  module _ (plan : WindowPlan) (matches_slot : ℕ → Bool) where
    unfoldable pub scan_bounded_sorted : ℕ → List ℕ → Scanned
    scan_bounded_sorted window_end slots =
        with_slots (drop plan.offset)
          (for_each_match matches_slot (keep_sorted window_end) 0 [] slots)

    unfoldable pub scan_bounded_heap : ℕ → List ℕ → Scanned
    scan_bounded_heap window_end slots =
        with_slots (λ kept. drop plan.offset (sort_by stable_raw_window_slot_comparator kept))
          (for_each_match matches_slot (retain_bounded_raw_window_slot window_end) 0 [] slots)

    -- All matches are collected and sorted.
    unfoldable pub scan_full : List ℕ → Scanned
    scan_full slots =
        with_slots (λ kept. slice_window plan (sort_by compare_slots kept))
          (for_each_match matches_slot (λ total kept slot. kept ++ slot ∷ []) 0 [] slots)

    abbrev pub scan_with : List ℕ → Option BoundedRawWindowStrategy → Scanned
    scan_with slots none = scan_full slots
    scan_with slots (some (sorted window_end)) = scan_bounded_sorted window_end slots
    scan_with slots (some (heap window_end)) = scan_bounded_heap window_end slots

    -- The source spells the choice out twice, for candidates and for all slots.
    abbrev pub scan_raw_window_candidate_slots : List ℕ → Scanned
    scan_raw_window_candidate_slots candidates =
        scan_with candidates (bounded_raw_window_strategy plan (length candidates))

    abbrev pub scan_raw_window_slots : ℕ → Scanned
    scan_raw_window_slots slot_count =
        scan_with (upto slot_count) (bounded_raw_window_strategy plan slot_count)

    -- The window the ordered index gives, if it has one for the plan; the candidates an index of predicates names,
    -- asked for in two ways.
    unfoldable pub scan_topic_raw_window :
        ℕ → Option OrderedRawWindow → Option (List ℕ) → Option (List ℕ) → Scanned
    scan_topic_raw_window slot_count ordered ordered_candidates candidates =
        elim (is_zero_limit plan.limit) [
          | true ↦ count_raw_window_slots slot_count matches_slot candidates
          | false ↦ elim ordered [
            | some w ↦ elim ordered_candidates [
              | some slots ↦ elim (ltb (length slots) (ordered_raw_window_slot_count w)) [
                | true ↦ scan_raw_window_candidate_slots slots
                | false ↦
                    scan_raw_window_ordered_slots plan.offset w.limit matches_slot w.slots w.spans
              ]
              | none ↦
                  scan_raw_window_ordered_slots plan.offset w.limit matches_slot w.slots w.spans
            ]
            | none ↦ elim candidates [
              | some slots ↦ scan_raw_window_candidate_slots slots
              | none ↦ scan_raw_window_slots slot_count
            ]
          ]
        ]
