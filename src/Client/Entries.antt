-- ===== src/Client/Entries.antt =====
-- What a delta operation means: its effect on an ordered list of entries, each a key with its row.
-- There are no indexes of keys here, and one list instead of two arrays.
use view_server_smart.Shared.{
  ◌&&◌, not, Option, none, some, List, [], ◌∷◌, if◌then◌else◌, length, set, contains,
}
use view_server_smart.Shared.Splice.{splice_in, splice_out, splice_move}
use view_server_smart.Shared.KeyIndexes.{index_from}
use view_server_smart.Shared.Arrays.{keys_of}
use view_server_smart.Protocol.{DeltaOperation, insert, update, move, remove}
use view_server_smart.Protocol.Number.{as_natural}
use view_server_smart.Client.Arrays.{is_insert_index, is_existing_index, is_key_at}

module _ {ℓ} {K R : Type ℓ} (dec : Discrete K) where
  unfoldable pub edit : List (K × R) → DeltaOperation K R → Option (List (K × R))
  edit es (insert key row index) =
      if is_insert_index index (length es) && not (contains dec key (keys_of es))
      then some (splice_in es (as_natural index) (key, row))
      else none
  edit es (update key row index) =
      if is_existing_index index (length es) && is_key_at dec (keys_of es) (as_natural index) key
      then some (set es (as_natural index) (key, row))
      else none
  edit es (move key from_index to_index) =
      if (is_existing_index from_index (length es) && is_existing_index to_index (length es))
        && is_key_at dec (keys_of es) (as_natural from_index) key
      then some (splice_move es (as_natural from_index) (as_natural to_index))
      else none
  edit es (remove key) = elim (index_from dec 0 key (keys_of es)) [
    | none ↦ none
    | some index ↦ some (splice_out es index)
  ]

  unfoldable pub edit_all : List (K × R) → List (DeltaOperation K R) → Option (List (K × R))
  unfolding edit
  edit_all es [] = some es
  edit_all es (op ∷ ops) = elim (edit es op) [ none ↦ none | some next ↦ edit_all next ops ]
