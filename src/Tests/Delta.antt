-- ===== src/Tests/Delta.antt =====
-- One pair of windows for each way of making a delta.
use view_server_smart.Shared.{ℕ, ◌≡◌, refl, some, List, [], ◌∷◌, arith, ℕ_discrete}
use view_server_smart.Protocol.{DeltaOperation, insert, update, move, remove}
use view_server_smart.Protocol.Number.{natural}
use view_server_smart.Client.Entries.{edit_all}
use view_server_smart.Engine.Evaluation.{QueryEvaluation, IsEvaluation, row_differs}
use view_server_smart.Shared.Splice.{splice_move}
use view_server_smart.Engine.Delta.{delta_operations}
use view_server_smart.Engine.Delta.General.{general_delta_operations}
use view_server_smart.Engine.Delta.Move.{
  single_move_delta_operations, single_moved_key, changed_span, moved_down, moved_up,
  moved_down_matches, moved_up_matches, choose_move, update_changed_rows,
}
use view_server_smart.Engine.Delta.Replacement.{
  replacement_delta_operations, count_missing, skip_removed, remove_operations, insert_operations,
  shared_rows_match,
}
use view_server_smart.Engine.Delta.Agreement.{Agrees}
use view_server_smart.Engine.Delta.Correct.{delta_operations-Agrees}
use view_server_smart.Engine.Delta.Rebuild.{general_delta_operations-Agrees}
use view_server_smart.Engine.Delta.MovePath.{single_move_delta_operations-Agrees}
use view_server_smart.Engine.Delta.ReplacementPath.{replacement_delta_operations-Agrees}
use view_server_smart.Tests.{
  first, second, first-IsEvaluation, second-IsEvaluation, same_row, evaluation_of,
}

delta_operations-Agrees_example :
    (shown : List (ℕ × ℕ)) × (edit_all ℕ_discrete first.window
        (delta_operations ℕ_discrete same_row first second)
      ≡ some shown)
    × Agrees same_row shown second.window
delta_operations-Agrees_example =
    delta_operations-Agrees ℕ_discrete same_row first second first-IsEvaluation second-IsEvaluation
      (omega arith)

general_delta_operations-Agrees_example :
    (shown : List (ℕ × ℕ)) × (edit_all ℕ_discrete first.window
        (general_delta_operations ℕ_discrete same_row first second)
      ≡ some shown)
    × Agrees same_row shown second.window
general_delta_operations-Agrees_example =
    general_delta_operations-Agrees ℕ_discrete same_row first second first-IsEvaluation
      second-IsEvaluation (omega arith)

-- The first row goes to the end, and the second has changed.
abbrev rotated : QueryEvaluation ℕ ℕ
rotated = evaluation_of ((2, 22) ∷ (3, 30) ∷ (4, 40) ∷ (1, 10) ∷ []) 9 2

rotated-IsEvaluation : IsEvaluation ℕ_discrete rotated
unfolding ℕ_discrete
rotated-IsEvaluation = record {
  rows = refl;
  keys = refl;
  distinct = (refl, (refl, (refl, (refl, tt))));
}

abbrev rotation : List (DeltaOperation ℕ ℕ)
rotation = move 1 (natural 0) (natural 3) ∷ update 2 22 (natural 0) ∷ []

rotated-rotation : single_move_delta_operations ℕ_discrete same_row first rotated ≡ some rotation
unfolding single_move_delta_operations single_moved_key changed_span moved_down moved_up
    moved_down_matches moved_up_matches choose_move update_changed_rows ℕ_discrete row_differs
    splice_move
rotated-rotation = refl

single_move_delta_operations-Agrees_example :
    (shown : List (ℕ × ℕ)) × (edit_all ℕ_discrete first.window rotation ≡ some shown)
    × Agrees same_row shown rotated.window
single_move_delta_operations-Agrees_example =
    single_move_delta_operations-Agrees ℕ_discrete same_row first rotated rotation
      first-IsEvaluation rotated-IsEvaluation (omega arith) rotated-rotation

-- One row stays, four go and four come.
abbrev page : QueryEvaluation ℕ ℕ
page = evaluation_of ((1, 10) ∷ (2, 20) ∷ (3, 30) ∷ (4, 40) ∷ (5, 50) ∷ []) 5 1

abbrev next_page : QueryEvaluation ℕ ℕ
next_page = evaluation_of ((6, 60) ∷ (3, 30) ∷ (7, 70) ∷ (8, 80) ∷ (9, 90) ∷ []) 5 2

page-IsEvaluation : IsEvaluation ℕ_discrete page
unfolding ℕ_discrete
page-IsEvaluation = record {
  rows = refl;
  keys = refl;
  distinct = (refl, (refl, (refl, (refl, (refl, tt)))));
}

next_page-IsEvaluation : IsEvaluation ℕ_discrete next_page
unfolding ℕ_discrete
next_page-IsEvaluation = record {
  rows = refl;
  keys = refl;
  distinct = (refl, (refl, (refl, (refl, (refl, tt)))));
}

abbrev page_turn : List (DeltaOperation ℕ ℕ)
page_turn =
    remove 1
    ∷ remove 2
    ∷ remove 4
    ∷ remove 5
    ∷ insert 6 60 (natural 0)
    ∷ insert 7 70 (natural 2)
    ∷ insert 8 80 (natural 3)
    ∷ insert 9 90 (natural 4)
    ∷ []

next_page-page_turn :
    replacement_delta_operations ℕ_discrete same_row page next_page ≡ some page_turn
unfolding replacement_delta_operations count_missing skip_removed remove_operations
    insert_operations shared_rows_match ℕ_discrete row_differs
next_page-page_turn = refl

replacement_delta_operations-Agrees_example :
    (shown : List (ℕ × ℕ)) × (edit_all ℕ_discrete page.window page_turn ≡ some shown)
    × Agrees same_row shown next_page.window
replacement_delta_operations-Agrees_example =
    replacement_delta_operations-Agrees ℕ_discrete same_row page next_page page_turn
      page-IsEvaluation next_page-IsEvaluation (omega arith) next_page-page_turn
