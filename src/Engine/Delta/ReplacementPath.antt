-- ===== src/Engine/Delta/ReplacementPath.antt =====
-- The replacement path of `deltaOperations` leads from the previous window to the next.
use mathlib.Core.List.{append_assoc, map-append}
use view_server_smart.Shared.{
  ℕ, suc, ◌+◌, ◌≤◌, ◌≡◌, refl, ◌∙◌, inl, inr, Bool, true, false, some, List, [], ◌∷◌, ◌++◌, arith,
  length, length-append, contains, Distinct, Bool-cases, contains-append, Distinct-append,
}
use view_server_smart.Shared.Splice.{Distinct-append_without}
use view_server_smart.Shared.Arrays.{keys_of}
use view_server_smart.Protocol.{DeltaOperation}
use view_server_smart.Protocol.Number.{max_safe_integer}
use view_server_smart.Client.Entries.{edit_all}
use view_server_smart.Client.Edits.{edit-remove_after, edit-insert_after, edit_all-append}
use view_server_smart.Engine.Evaluation.{QueryEvaluation, IsEvaluation}
use view_server_smart.Engine.Delta.Agreement.{Agrees}
use view_server_smart.Engine.Delta.Removal.{keep}
use view_server_smart.Engine.Delta.Aligned.{
  Aligned, end, fresh, kept, shared_rows_match-Aligned, keep-contains,
}
use view_server_smart.Engine.Delta.Rebuild.{keep-subset}
use view_server_smart.Engine.Delta.Replacement.{
  shared_rows_match, remove_operations, insert_operations, replacement_delta_operations,
}

module _ {K R : Type 0} (dec : Discrete K) where
  pub remove_operations-keep :
      (next_keys : List K) (rest done : List (K × R))
      → Distinct dec (keys_of (done ++ rest))
      → edit_all dec (done ++ rest) (remove_operations dec next_keys (keys_of rest))
        ≡ some (done ++ keep dec next_keys rest)
  unfolding remove_operations keep edit_all
  remove_operations-keep next_keys [] done d = refl
  remove_operations-keep next_keys (e ∷ rest) done d =
      elim (Bool-cases (contains dec e.0 next_keys)) [
        | inl stays ↦
            rw (stays, remove_operations)
              (rw
                (
                  append_assoc done (e ∷ []) rest,
                  append_assoc done (e ∷ []) (keep dec next_keys rest),
                )
                at
                (remove_operations-keep next_keys rest (done ++ e ∷ [])
                  (rw (append_assoc done (e ∷ []) rest) d)))
        | inr goes ↦
            rw (goes, remove_operations)
              (rw (edit-remove_after dec done rest e d, edit_all)
                (remove_operations-keep next_keys rest done (
                  rw (map-append (λ x. x.0) done rest) (
                    Distinct-append_without dec (keys_of done) (keys_of rest) e.0
                      (rw (map-append (λ x. x.0) done (e ∷ rest)) at d)))))
      ]

  -- One more entry is done, whatever its row.
  extended :
      (done window : List (K × R)) (key : K) (row shown : R)
      → Distinct dec (keys_of (done ++ (key, row) ∷ window))
      → Distinct dec (keys_of ((done ++ (key, shown) ∷ []) ++ window))
  extended done window key row shown d =
      rw
        (
          append_assoc done ((key, shown) ∷ []) window,
          map-append (λ e. e.0) done ((key, shown) ∷ window),
        )
        (rw (map-append (λ e. e.0) done ((key, row) ∷ window)) at d)

  absent :
      (done rest window : List (K × R)) (key : K) (row : R) (previous_keys : List K)
      → Distinct dec (keys_of (done ++ (key, row) ∷ window))
      → contains dec key previous_keys ≡ false
      → ((j : K) → contains dec j (keys_of rest) ≡ true → contains dec j previous_keys ≡ true)
      → contains dec key (keys_of (done ++ rest)) ≡ false
  absent done rest window key row previous_keys d new sub = rw (map-append (λ e. e.0) done rest) (
      contains-append dec key (keys_of done) (keys_of rest)
        (Distinct-append dec key (keys_of done) (key ∷ keys_of window)
          (rw (map-append (λ e. e.0) done ((key, row) ∷ window)) at d) (ground arith))
        (ground (arith, sub key)))

  insert_operations-Agrees :
      (rows_equal : R → R → Bool) (previous_keys : List K) (rest window done : List (K × R))
      (index : ℕ)
      → Aligned dec rows_equal previous_keys rest window
      → length done ≡ index
      → Distinct dec (keys_of (done ++ window))
      → ((j : K) → contains dec j (keys_of rest) ≡ true → contains dec j previous_keys ≡ true)
      → length done + length window ≤ max_safe_integer
      → (shown : List (K × R)) × (edit_all dec
            (done ++ rest)
            (insert_operations dec previous_keys index window)
          ≡ some (done ++ shown))
        × Agrees rows_equal shown window
  unfolding insert_operations edit_all
  insert_operations-Agrees rows_equal previous_keys rest window done index end at d sub safe =
      ([], refl, tt)
  insert_operations-Agrees rows_equal previous_keys rest window done index
        (kept {rest = more} {window = w} {key = key} {old = old} {row = row} there same a) at d sub
        safe =
      let ih =
        insert_operations-Agrees rows_equal previous_keys more w (done ++ (key, old) ∷ [])
          (suc index) a (omega (arith, length-append done ((key, old) ∷ [])))
          (extended done w key row old d) (λ j h. ground (arith, sub j))
          (omega (arith, length-append done ((key, old) ∷ []))) in
      rw (there, insert_operations)
        (
          (key, old) ∷ ih.0,
          (rw (append_assoc done ((key, old) ∷ []) more, append_assoc done ((key, old) ∷ []) ih.0)
              at ih.1),
          (refl, same, ih.2),
        )
  insert_operations-Agrees rows_equal previous_keys rest window done index
        (fresh {window = w} {key = key} {row = row} new a) at d sub safe =
      let ih =
        insert_operations-Agrees rows_equal previous_keys rest w (done ++ (key, row) ∷ [])
          (suc index) a (omega (arith, length-append done ((key, row) ∷ [])))
          (extended done w key row row d) sub
          (omega (arith, length-append done ((key, row) ∷ []))) in
      rw (new, insert_operations)
        (
          (key, row) ∷ ih.0,
          rw
              (
                rw at at (
                    edit-insert_after dec done rest key row (omega arith)
                      (absent done rest w key row previous_keys d new sub)),
                edit_all,
              )
              (rw
                (append_assoc done ((key, row) ∷ []) rest, append_assoc done ((key, row) ∷ []) ih.0)
                at ih.1),
          (refl, inl refl, ih.2),
        )

module _ {K R : Type 0} (dec : Discrete K) (rows_equal : R → R → Bool)
    (previous next : QueryEvaluation K R) where
  -- The path is taken only if the shared rows match, and its operations are the removals and then
  -- the insertions.
  replacement_taken :
      (operations : List (DeltaOperation K R))
      → replacement_delta_operations dec rows_equal previous next ≡ some operations
      → (shared_rows_match dec rows_equal previous next.keys 0 next.window ≡ true)
        × (operations
            ≡ remove_operations dec next.keys previous.keys
              ++ insert_operations dec previous.keys 0 next.window)
  unfolding replacement_delta_operations
  replacement_taken operations h = ground arith

  -- Where `replacementDeltaOperations` returns operations between two evaluations without repeated
  -- keys, whose windows together have at most `Number.MAX_SAFE_INTEGER` entries, the operations lead
  -- from the previous window to entries with the keys of the next window in order, each with the next
  -- row or a row equal to it by `rowsEqual`.
  pub replacement_delta_operations-Agrees :
      (operations : List (DeltaOperation K R))
      → IsEvaluation dec previous
      → IsEvaluation dec next
      → length previous.window + length next.window ≤ max_safe_integer
      → replacement_delta_operations dec rows_equal previous next ≡ some operations
      → (shown : List (K × R)) × (edit_all dec previous.window operations ≡ some shown)
        × Agrees rows_equal shown next.window
  replacement_delta_operations-Agrees operations p n safe h =
      let taken = replacement_taken operations h in
      let removed = remove_operations-keep dec next.keys previous.window [] p.distinct in
      let aligned =
        shared_rows_match-Aligned dec rows_equal previous next.keys next.window previous.window 0
          (record { keys = p.keys; rows = p.rows; distinct = p.distinct }) n.distinct
          (λ j k. rw n.keys k) (λ j k. rw n.keys at (keep-subset dec next.keys previous.window j k))
          taken.0 in
      let inserted =
        insert_operations-Agrees dec rows_equal previous.keys (keep dec next.keys previous.window)
          next.window [] 0 aligned refl n.distinct
          (λ j k. rw p.keys (keep-contains dec rows_equal previous next.keys previous.window j k))
          (omega arith) in
      rw taken.1 (
        inserted.0,
        edit_all-append dec _ _ _ _ (rw (← p.keys) at removed) ∙ inserted.1,
        inserted.2,
      )
