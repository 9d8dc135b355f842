-- ===== src/Engine/Delta/Move.antt =====
-- The first fast path of `deltaOperations` (packages/column-live-view-engine/src/query-result.ts):
-- one key has moved and the others have kept their order.
use view_server_smart.Shared.{
  ℕ, zero, suc, ◌+◌, ◌-◌, Bool, true, false, ◌&&◌, not, Option, none, some, List, [], ◌∷◌, ite,
  ◌==◌, if◌then◌else◌, length, get_elem?,
}
use view_server_smart.Shared.Splice.{splice_move}
use view_server_smart.Protocol.{DeltaOperation, update, move}
use view_server_smart.Protocol.Number.{natural}
use view_server_smart.Engine.Evaluation.{QueryEvaluation, row_differs}

pub record SingleMovedKey {ℓ} (K : Type ℓ) : Type ℓ where
  pub from_index : ℕ
  pub key : K
  pub to_index : ℕ

-- `firstChanged` and `lastChanged`, once they are no longer -1.
pub record ChangedSpan : Type 0 where
  pub first_changed : ℕ
  pub last_changed : ℕ

abbrev widen : Option ChangedSpan → ℕ → ChangedSpan
widen none index = record { first_changed = index; last_changed = index }
widen (some span) index = record span { last_changed = index }

module _ {ℓ} {K : Type ℓ} (dec : Discrete K) where
  -- `previousKeys[i] === nextKeys[j]`.
  abbrev pub same_key : Option K → Option K → Bool
  same_key none none = true
  same_key none (some b) = false
  same_key (some a) none = false
  same_key (some a) (some b) = ite (dec a b) true false

  -- The loop that looks for the first and the last index with different keys.
  unfoldable pub changed_span : ℕ → List K → List K → Option ChangedSpan → Option ChangedSpan
  changed_span index [] next span = span
  changed_span index (key ∷ previous) [] span =
      changed_span (suc index) previous [] (some (widen span index))
  changed_span index (key ∷ previous) (next_key ∷ next) span =
      changed_span (suc index) previous next (ite (dec key next_key) span (some (widen span index)))

  -- The loops of `movedDownMatches` and `movedUpMatches`, with the rounds left.
  unfoldable pub moved_down_matches : List K → List K → ℕ → ℕ → Bool
  moved_down_matches previous next zero index = true
  moved_down_matches previous next (suc rounds) index =
      same_key (get_elem? previous (index + 1)) (get_elem? next index)
      && moved_down_matches previous next rounds (index + 1)

  unfoldable pub moved_up_matches : List K → List K → ℕ → ℕ → Bool
  moved_up_matches previous next zero index = true
  moved_up_matches previous next (suc rounds) index =
      same_key (get_elem? previous (index - 1)) (get_elem? next index)
      && moved_up_matches previous next rounds (index + 1)

  unfoldable pub moved_down : List K → List K → ChangedSpan → Option (SingleMovedKey K)
  unfolding moved_down_matches
  moved_down previous next span =
      let first = span.first_changed in
      let last = span.last_changed in
      elim (get_elem? previous first) [
        | none ↦ none
        | some key ↦
            if same_key (some key) (get_elem? next last)
              && moved_down_matches previous next (last - first) first
            then some (record { from_index = first; key = key; to_index = last })
            else none
      ]

  unfoldable pub moved_up : List K → List K → ChangedSpan → Option (SingleMovedKey K)
  unfolding moved_up_matches
  moved_up previous next span =
      let first = span.first_changed in
      let last = span.last_changed in
      elim (get_elem? previous last) [
        | none ↦ none
        | some key ↦
            if same_key (some key) (get_elem? next first)
              && moved_up_matches previous next (last - first) (first + 1)
            then some (record { from_index = last; key = key; to_index = first })
            else none
      ]

module _ {ℓ} {K R : Type ℓ} (rows_equal : R → R → Bool) where
  -- `!rowsEqual(previous.rows[i]!, next.rows[j]!)`; both rows are there.
  abbrev moved_row_changed : List R → List R → SingleMovedKey K → Bool
  moved_row_changed previous next moved = elim (get_elem? next moved.to_index) [
    | none ↦ true
    | some row ↦ row_differs rows_equal (get_elem? previous moved.from_index) row
  ]

  -- Where both readings fit, the one whose row has not changed is taken.
  unfoldable pub choose_move :
      List R
      → List R
      → Option (SingleMovedKey K)
      → Option (SingleMovedKey K)
      → Option (SingleMovedKey K)
  choose_move previous next none up = up
  choose_move previous next (some down) none = some down
  choose_move previous next (some down) (some up) =
      if moved_row_changed previous next up && not (moved_row_changed previous next down)
      then some up
      else some down

  -- The loop over the next window, after the move.
  unfoldable pub update_changed_rows : ℕ → List R → List (K × R) → List (DeltaOperation K R)
  update_changed_rows index moved_rows [] = []
  update_changed_rows index moved_rows ((key, row) ∷ window) =
      let rest = update_changed_rows (suc index) moved_rows window in
      if row_differs rows_equal (get_elem? moved_rows index) row
      then update key row (natural index) ∷ rest
      else rest

module _ {ℓ} {K R : Type ℓ} (dec : Discrete K) (rows_equal : R → R → Bool) where
  unfoldable pub single_moved_key :
      QueryEvaluation K R → QueryEvaluation K R → Option (SingleMovedKey K)
  unfolding changed_span moved_down moved_up choose_move
  single_moved_key previous next =
      if not (length previous.keys == length next.keys)
      then none
      else elim (changed_span dec 0 previous.keys next.keys none) [
        | none ↦ none
        | some span ↦
            choose_move rows_equal previous.rows next.rows
              (moved_down dec previous.keys next.keys span)
              (moved_up dec previous.keys next.keys span)
      ]

  unfoldable pub single_move_delta_operations :
      QueryEvaluation K R → QueryEvaluation K R → Option (List (DeltaOperation K R))
  unfolding single_moved_key update_changed_rows
  single_move_delta_operations previous next = elim (single_moved_key previous next) [
    | none ↦ none
    | some moved ↦
        let moved_rows = splice_move previous.rows moved.from_index moved.to_index in
        some (
          move moved.key (natural moved.from_index) (natural moved.to_index)
          ∷ update_changed_rows rows_equal 0 moved_rows next.window)
  ]
