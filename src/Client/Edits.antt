-- ===== src/Client/Edits.antt =====
-- Each operation at a known place of the entries: after the entries `done`.
use view_server_smart.Shared.{
  ℕ, suc, ◌+◌, ◌≤◌, ◌<◌, ◌≡◌, refl, ap, true, false, some, List, [], ◌∷◌, ◌++◌, arith, length,
  get_elem?, contains, Distinct, length-append, get_elem?-map, Option-cases, inl, inr,
}
use view_server_smart.Shared.Splice.{
  splice_in-append, splice_out-append, set-append, splice_move-append, get_elem?-append_append,
}
use view_server_smart.Shared.KeyIndexes.{index_from-get_elem?}
use view_server_smart.Shared.Arrays.{keys_of, rows_of}
use view_server_smart.Protocol.{DeltaOperation, insert, update, move, remove}
use view_server_smart.Protocol.Number.{natural, max_safe_integer, is_non_negative_safe_integer}
use view_server_smart.Client.Arrays.{is_insert_index, is_existing_index}
use view_server_smart.Client.Entries.{edit, edit_all}

module _ {ℓ} {K R : Type ℓ} where
  pub key_after :
      (done rest : List (K × R)) (e : K × R)
      → get_elem? (keys_of (done ++ e ∷ rest)) (length done) ≡ some e.0
  key_after [] rest e = refl
  key_after (d ∷ done) rest e = key_after done rest e

  pub row_after :
      (done rest : List (K × R)) (e : K × R)
      → get_elem? (rows_of (done ++ e ∷ rest)) (length done) ≡ some e.1
  row_after [] rest e = refl
  row_after (d ∷ done) rest e = row_after done rest e

pub existing-index :
    (index n : ℕ)
    → index < n
    → index ≤ max_safe_integer
    → is_existing_index (natural index) n ≡ true
unfolding is_existing_index is_non_negative_safe_integer
existing-index index n lt safe = ground arith

module _ {ℓ} {K R : Type ℓ} (dec : Discrete K) where
  pub edit-remove_after :
      (done rest : List (K × R)) (e : K × R)
      → Distinct dec (keys_of (done ++ e ∷ rest))
      → edit dec (done ++ e ∷ rest) (remove e.0) ≡ some (done ++ rest)
  unfolding edit
  edit-remove_after done rest e d =
      let found =
        index_from-get_elem? dec e.0 (keys_of (done ++ e ∷ rest)) (length done) d
          (key_after done rest e) in
      rw (found, edit) (ap some (splice_out-append done rest e))

  pub edit-insert_after :
      (done rest : List (K × R)) (key : K) (row : R)
      → length done ≤ max_safe_integer
      → contains dec key (keys_of (done ++ rest)) ≡ false
      → edit dec (done ++ rest) (insert key row (natural (length done)))
        ≡ some (done ++ (key, row) ∷ rest)
  unfolding edit is_insert_index is_non_negative_safe_integer
  edit-insert_after done rest key row safe new =
      ground (arith, splice_in-append done rest (key, row), length-append done rest)

  pub edit-update_after :
      (done rest : List (K × R)) (e : K × R) (row : R)
      → length done ≤ max_safe_integer
      → edit dec (done ++ e ∷ rest) (update e.0 row (natural (length done)))
        ≡ some (done ++ (e.0, row) ∷ rest)
  unfolding edit is_existing_index is_non_negative_safe_integer
  edit-update_after done rest e row safe = ground (
    arith,
    set-append done rest e (e.0, row),
    length-append done (e ∷ rest),
    key_after done rest e,
  )

  -- A move to the end of `done` from further on.
  pub edit-move_after :
      (done before rest : List (K × R)) (e : K × R)
      → length done + length before ≤ max_safe_integer
      → edit dec
          (done ++ (before ++ e ∷ rest))
          (move e.0 (natural (length done + length before)) (natural (length done)))
        ≡ some (done ++ e ∷ (before ++ rest))
  unfolding edit
  edit-move_after done before rest e safe =
      rw
        (
          existing-index from (length whole) (omega (arith, size)) safe,
          existing-index (length done) (length whole) (omega (arith, size)) (omega arith),
        )
        (ground (
          arith,
          splice_move-append done before rest e,
          get_elem?-map (λ x. x.0) whole from e (get_elem?-append_append done before rest e),
        ))
    where
      whole : List (K × R)
      whole = done ++ (before ++ e ∷ rest)

      from : ℕ
      from = length done + length before

      size : length whole ≡ from + suc (length rest)
      size = omega (arith, length-append done (before ++ e ∷ rest), length-append before (e ∷ rest))

  pub edit_all-append :
      (es next : List (K × R)) (ops more : List (DeltaOperation K R))
      → edit_all dec es ops ≡ some next
      → edit_all dec es (ops ++ more) ≡ edit_all dec next more
  unfolding edit_all
  edit_all-append es next [] more h = ground arith
  edit_all-append es next (op ∷ ops) more h = elim (Option-cases (edit dec es op)) [
    | inl e ↦ ground arith
    | inr (es', e) ↦ rw (e, edit_all) (edit_all-append es' next ops more (ground arith))
  ]
