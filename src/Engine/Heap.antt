-- ===== src/Engine/Heap.antt =====
-- The bounded heaps of packages/column-live-view-engine/src/topic-raw-window-scanner.ts and
-- grouped-window-evaluation.ts, which keep the best elements with the worst at the root. The two differ in how they
-- compare; `rises` tells whether an element goes above its parent, `larger` whether one child is worse.
use view_server_smart.Shared.{
  ℕ, zero, suc, ◌+◌, ◌-◌, ◌*◌, ◌/◌, Bool, true, false, Option, none, some, List, [], ◌∷◌, ◌++◌,
  length, get_elem?, set, ltb, ◌==◌, if◌then◌else◌,
}
pub mod Reads
pub mod Order
pub mod Retain
pub mod Bounded
pub mod Front
pub mod Maps

module _ {A : Type 0} where
  abbrev pub swap_heap : List A → ℕ → ℕ → List A
  swap_heap heap left right = elim (get_elem? heap left) [
    | none ↦ heap
    | some value ↦ elim (get_elem? heap right) [
      | none ↦ heap
      | some other ↦ set (set heap left other) right value
    ]
  ]

  -- A test of the elements at two indexes, both in range.
  abbrev pub test_at : (A → A → Bool) → List A → ℕ → ℕ → Bool
  test_at test heap i j = elim (get_elem? heap i) [
    | none ↦ false
    | some a ↦ elim (get_elem? heap j) [ none ↦ false | some b ↦ test a b ]
  ]

  -- The loop goes up until `current` is 0; the parent's index is smaller, so `current` bounds the rounds.
  unfoldable pub sift_up : (A → A → Bool) → ℕ → List A → ℕ → List A
  sift_up rises zero heap current = heap
  sift_up rises (suc fuel) heap current = elim (current == 0) [
    | true ↦ heap
    | false ↦ elim (test_at rises heap current ((current - 1) / 2)) [
      | true ↦ sift_up rises fuel (swap_heap heap ((current - 1) / 2) current) ((current - 1) / 2)
      | false ↦ heap
    ]
  ]

  abbrev pub pick : (A → A → Bool) → List A → ℕ → ℕ → ℕ
  pick larger heap child largest =
      if ltb child (length heap)
      then (if test_at larger heap child largest then child else largest)
      else largest

  abbrev pub largest_of : (A → A → Bool) → List A → ℕ → ℕ
  largest_of larger heap current =
      pick larger heap (current * 2 + 1 + 1) (pick larger heap (current * 2 + 1) current)

  -- The loop goes down; the index grows, so the length of the heap bounds the rounds.
  unfoldable pub sift_down : (A → A → Bool) → ℕ → List A → ℕ → List A
  sift_down larger zero heap current = heap
  sift_down larger (suc fuel) heap current =
      let largest = largest_of larger heap current in
      elim (largest == current) [
        | true ↦ heap
        | false ↦ sift_down larger fuel (swap_heap heap current largest) largest
      ]

  -- An element goes in while there is room, then only in place of the root that is worse.
  abbrev pub retain_bounded :
      (A → A → Bool) → (A → A → Bool) → (A → A → Bool) → ℕ → List A → A → List A
  retain_bounded rises larger better window_end heap x = elim (ltb (length heap) window_end) [
    | true ↦ sift_up rises (length heap) (heap ++ x ∷ []) (length heap)
    | false ↦ elim (get_elem? heap 0) [
      | none ↦ heap
      | some root ↦ elim (better x root) [
        | true ↦ sift_down larger (length heap) (set heap 0 x) 0
        | false ↦ heap
      ]
    ]
  ]
