-- ===== src/Engine/Delta/MovePath.antt =====
-- The single-move path of `deltaOperations` leads from the previous window to the next.
use mathlib.Core.List.{append_assoc}
use view_server_smart.Shared.{
  ℕ, suc, ◌+◌, ◌≤◌, ◌<◌, ◌≡◌, refl, sym, ap, ◌∙◌, ◌⊎◌, inl, inr, Bool, Option, none, some, List, [],
  ◌∷◌, ◌++◌, arith, length, length-append, length-map, get_elem?, Bool-cases, Option-cases, ◌==◌,
  ==→≡, lt-get_elem?,
}
use view_server_smart.Shared.Splice.{splice_move, map-splice_move}
use view_server_smart.Shared.Arrays.{keys_of, rows_of}
use view_server_smart.Protocol.{DeltaOperation, update, move}
use view_server_smart.Protocol.Number.{natural, max_safe_integer}
use view_server_smart.Client.Entries.{edit, edit_all}
use view_server_smart.Client.Edits.{edit-update_after, existing-index}
use view_server_smart.Engine.Evaluation.{QueryEvaluation, IsEvaluation, row_differs, row_differs-eq}
use view_server_smart.Engine.Delta.Agreement.{Agrees}
use view_server_smart.Engine.Delta.Move.{
  SingleMovedKey, changed_span, choose_move, moved_down, moved_up, single_moved_key,
  update_changed_rows, single_move_delta_operations,
}
use view_server_smart.Engine.Delta.Moved.{IsMove, moved_down-IsMove, moved_up-IsMove}

module _ {K R : Type 0} (dec : Discrete K) (rows_equal : R → R → Bool) where
  -- The loop over the next window, where the entries after `done` still hold the moved rows.
  update_changed_rows-Agrees :
      (window done rest : List (K × R)) (moved_rows : List R) (index : ℕ)
      → length done ≡ index
      → keys_of rest ≡ keys_of window
      → ((n : ℕ) → get_elem? moved_rows (index + n) ≡ get_elem? (rows_of rest) n)
      → length done + length rest ≤ max_safe_integer
      → (shown : List (K × R)) × (edit_all dec
            (done ++ rest)
            (update_changed_rows rows_equal index moved_rows window)
          ≡ some (done ++ shown))
        × Agrees rows_equal shown window
  unfolding update_changed_rows edit_all
  update_changed_rows-Agrees [] done [] rows index at k same safe = ([], refl, tt)
  update_changed_rows-Agrees [] done (e ∷ rest) rows index at k same safe = absurd (cc)
  update_changed_rows-Agrees (w ∷ window) done [] rows index at k same safe = absurd (cc)
  update_changed_rows-Agrees ((key, row) ∷ window) done (e ∷ rest) rows index at k same safe =
      let here : e.0 ≡ key = ground arith in
      let current : get_elem? rows index ≡ some e.1 =
        let i : index + 0 ≡ index = omega arith in rw i at (same 0) in
      let later : (n : ℕ) → get_elem? rows (suc index + n) ≡ get_elem? (rows_of rest) n =
        λ n. let i : index + suc n ≡ suc index + n = omega arith in rw i at (same (suc n)) in
      let updated : edit dec (done ++ e ∷ rest) (update e.0 row (natural index))
          ≡ some (done ++ (e.0, row) ∷ rest) =
        rw at at (edit-update_after dec done rest e row (omega arith)) in
      let next = λ (r : R).
        update_changed_rows-Agrees window (done ++ (e.0, r) ∷ []) rest rows (suc index)
          (omega (arith, length-append done ((e.0, r) ∷ []))) (ground arith) later
          (omega (arith, length-append done ((e.0, r) ∷ []))) in
      rw (← here) (elim (Bool-cases (row_differs rows_equal (get_elem? rows index) row)) [
        | inr equal ↦
            let ih = next e.1 in
            rw (equal, update_changed_rows)
              (
                e ∷ ih.0,
                (rw (append_assoc done (e ∷ []) rest, append_assoc done (e ∷ []) ih.0) at ih.1),
                (refl, inr (row_differs-eq rows_equal _ e.1 row current equal), ih.2),
              )
        | inl changed ↦
            let ih = next row in
            rw (changed, update_changed_rows)
              (
                (e.0, row) ∷ ih.0,
                rw (updated, edit_all)
                    (rw
                      (
                        append_assoc done ((e.0, row) ∷ []) rest,
                        append_assoc done ((e.0, row) ∷ []) ih.0,
                      )
                      at ih.1),
                (refl, inl refl, ih.2),
              )
      ])

  choose_move-either :
      (before after : List R) (down up : Option (SingleMovedKey K)) (moved : SingleMovedKey K)
      → choose_move rows_equal before after down up ≡ some moved
      → (down ≡ some moved) ⊎ (up ≡ some moved)
  unfolding choose_move
  choose_move-either before after none up moved h = inr h
  choose_move-either before after (some d) none moved h = inl h
  choose_move-either before after (some d) (some u) moved h = ground arith

  single_moved_key-IsMove :
      (previous next : QueryEvaluation K R) (moved : SingleMovedKey K)
      → single_moved_key dec rows_equal previous next ≡ some moved
      → IsMove dec previous.keys next.keys moved
  unfolding single_moved_key
  single_moved_key-IsMove previous next moved h =
      elim (Bool-cases (length previous.keys == length next.keys)) [
        | inr differ ↦ absurd (ground arith)
        | inl same ↦ elim (Option-cases (changed_span dec 0 previous.keys next.keys none)) [
          | inl e ↦ absurd (ground arith)
          | inr (span, e) ↦
              elim (choose_move-either previous.rows next.rows
                (moved_down dec previous.keys next.keys span)
                (moved_up dec previous.keys next.keys span) moved (ground arith)) [
                  | inl down ↦
                      moved_down-IsMove dec previous.keys next.keys span (==→≡ _ _ same) e moved
                        down
                  | inr up ↦
                      moved_up-IsMove dec previous.keys next.keys span (==→≡ _ _ same) e moved up
                ]
        ]
      ]

  edit-move :
      (es : List (K × R)) (key : K) (from to : ℕ)
      → get_elem? (keys_of es) from ≡ some key
      → to < length es
      → length es ≤ max_safe_integer
      → edit dec es (move key (natural from) (natural to)) ≡ some (splice_move es from to)
  unfolding edit
  edit-move es key from to at lt safe =
      let start : from < length es =
        omega (arith, lt-get_elem? (keys_of es) from key at, length-map (λ e. e.0) es) in
      rw
        (
          existing-index from (length es) start (omega arith),
          existing-index to (length es) lt (omega arith),
        )
        (ground arith)

  moved-Agrees :
      (previous next : QueryEvaluation K R) (moved : SingleMovedKey K)
      → IsEvaluation dec previous
      → IsEvaluation dec next
      → length previous.window + length next.window ≤ max_safe_integer
      → IsMove dec previous.keys next.keys moved
      → (shown : List (K × R)) × (edit_all dec previous.window (
            move moved.key (natural moved.from_index) (natural moved.to_index)
            ∷ update_changed_rows rows_equal 0
                (splice_move previous.rows moved.from_index moved.to_index)
                next.window)
          ≡ some shown)
        × Agrees rows_equal shown next.window
  unfolding edit_all
  moved-Agrees previous next moved p n safe m =
      let es = previous.window in
      let from = moved.from_index in
      let to = moved.to_index in
      let at : get_elem? (keys_of es) from ≡ some moved.key = rw p.keys at m.at in
      let lt : to < length es =
        omega (arith, m.target, ap length p.keys, length-map (λ e. e.0) es) in
      let keys : keys_of (splice_move es from to) ≡ keys_of next.window =
        map-splice_move (λ e. e.0) es from to ∙ (rw (p.keys, n.keys) at m.result) in
      let size : length (splice_move es from to) ≡ length next.window = omega (
        arith,
        ap length keys,
        length-map (λ e. e.0) (splice_move es from to),
        length-map (λ e. e.0) next.window,
      ) in
      let rows : (k : ℕ)
          → get_elem? (splice_move previous.rows from to) (0 + k)
            ≡ get_elem? (rows_of (splice_move es from to)) k =
        λ k.
          let e : 0 + k ≡ k = omega arith in
          rw (e, p.rows)
            (ap (λ xs. get_elem? xs k) (sym (map-splice_move (λ e. e.1) es from to))) in
      rw (edit-move es moved.key from to at lt (omega arith), edit_all)
        (update_changed_rows-Agrees next.window [] (splice_move es from to)
          (splice_move previous.rows from to) 0 refl keys rows (omega (arith, size)))

  -- Where `singleMoveDeltaOperations` returns operations between two evaluations without repeated
  -- keys, whose windows together have at most `Number.MAX_SAFE_INTEGER` entries, the operations lead
  -- from the previous window to entries with the keys of the next window in order, each with the next
  -- row or a row equal to it by `rowsEqual`.
  pub single_move_delta_operations-Agrees :
      (previous next : QueryEvaluation K R) (operations : List (DeltaOperation K R))
      → IsEvaluation dec previous
      → IsEvaluation dec next
      → length previous.window + length next.window ≤ max_safe_integer
      → single_move_delta_operations dec rows_equal previous next ≡ some operations
      → (shown : List (K × R)) × (edit_all dec previous.window operations ≡ some shown)
        × Agrees rows_equal shown next.window
  unfolding single_move_delta_operations
  single_move_delta_operations-Agrees previous next operations p n safe h =
      elim (Option-cases (single_moved_key dec rows_equal previous next)) [
        | inl e ↦ absurd (ground arith)
        | inr (moved, e) ↦
            let taken : operations
                ≡ move moved.key (natural moved.from_index) (natural moved.to_index)
                  ∷ update_changed_rows rows_equal 0
                      (splice_move previous.rows moved.from_index moved.to_index) next.window =
              ground arith in
            rw taken (
              moved-Agrees previous next moved p n safe
                (single_moved_key-IsMove previous next moved e))
      ]
