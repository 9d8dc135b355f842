-- ===== src/Engine/Storage/Batch.antt =====
-- A batch of prepared rows (`setPreparedMany` of
-- packages/column-live-view-engine/src/topic-row-storage.ts) against a table of rows by key.
use view_server_smart.Shared.{ℕ, ◌+◌, ◌≡◌, refl, ◌∙◌, Bool, Option, some, List, [], ◌∷◌, ite}
use view_server_smart.Engine.Storage.{RowStorage, PreparedTopicRow, row_for_key, set_prepared_many}
use view_server_smart.Engine.Storage.Rows.{IsStored, kept_row, set_prepared-row_for_key}

module _ {K R : Type 0} (dec : Discrete K) (rows_equal : R → R → Bool) where
  -- The table after a prepared row, and after a batch in its order.
  abbrev pub written : PreparedTopicRow K R → (K → Option R) → K → Option R
  written prepared table k =
      ite (dec k prepared.key) (some (kept_row rows_equal prepared (table prepared.key))) (table k)

  abbrev pub written_all : List (PreparedTopicRow K R) → (K → Option R) → K → Option R
  written_all [] table = table
  written_all (prepared ∷ rest) table = written_all rest (written prepared table)

  written_all-pointwise :
      (batch : List (PreparedTopicRow K R)) (t u : K → Option R)
      → ((k : K) → t k ≡ u k)
      → (k : K) → written_all batch t k ≡ written_all batch u k
  written_all-pointwise [] t u h = h
  written_all-pointwise (prepared ∷ rest) t u h =
      written_all-pointwise rest (written prepared t) (written prepared u)
        (λ k. rw (h prepared.key, h k) refl)

module _ {K R F : Type 0} (dec : Discrete K) (rows_equal : R → R → Bool)
    (changed_fields_from_rows : R → R → Option F) where
  -- On a storage whose slots and key map agree, `setPreparedMany` never reads a missing slot, the two
  -- agree afterwards, and every key has the row of the table that the batch is written to in its order.
  pub set_prepared_many-row_for_key :
      (batch : List (PreparedTopicRow K R)) (storage : RowStorage K R F)
      → IsStored storage
      → (changed : ℕ) × (after : RowStorage K R F) × (set_prepared_many dec rows_equal
            changed_fields_from_rows batch storage
          ≡ some (changed, after))
        × IsStored after
        × ((k : K) → row_for_key after k ≡ written_all dec rows_equal batch (row_for_key storage) k)
  unfolding set_prepared_many
  set_prepared_many-row_for_key [] storage x = (0, storage, refl, x, λ k. refl)
  set_prepared_many-row_for_key (prepared ∷ rest) storage x =
      let (changed, next, done, (y, rows)) =
        set_prepared-row_for_key dec rows_equal changed_fields_from_rows prepared storage x in
      let (more, after, all_done, z, all_rows) = set_prepared_many-row_for_key rest next y in
      rw (done, set_prepared_many)
        (rw (all_done, set_prepared_many)
          (
            changed + more,
            after,
            refl,
            z,
            λ k.
                all_rows k
                ∙ written_all-pointwise dec rows_equal rest (row_for_key next)
                    (written dec rows_equal prepared (row_for_key storage)) rows k,
          ))
