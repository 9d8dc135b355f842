-- ===== src/Engine/Delta/Removal.antt =====
-- The first loop of the general path keeps the entries whose keys stay, in order.
use mathlib.Core.List.{append_assoc}
use view_server_smart.Shared.{
  ◌≡◌, refl, sym, subst, inl, inr, some, List, [], ◌∷◌, ◌++◌, if◌then◌else◌, length, contains,
  Distinct, Bool-cases,
}
use view_server_smart.Shared.Splice.{splice_out-append}
use view_server_smart.Shared.KeyIndexes.{Indexes, index_from, index_from-get_elem?}
use view_server_smart.Shared.Arrays.{Arrays, Represents, arrays, eq-arrays, removed, keys_of}
use view_server_smart.Client.Entries.{edit_all}
use view_server_smart.Client.Edits.{key_after, edit-remove_after}
use view_server_smart.Engine.Delta.General.{remove_key, remove_missing}

module _ {ℓ} {K R : Type ℓ} (dec : Discrete K) where
  unfoldable pub keep : List K → List (K × R) → List (K × R)
  keep next_keys [] = []
  keep next_keys (e ∷ es) =
      if contains dec e.0 next_keys then e ∷ keep next_keys es else keep next_keys es

  pub Distinct-keys :
      (s : Arrays K R) (es : List (K × R)) → Represents dec s es → Distinct dec (keys_of es)
  Distinct-keys s es r = rw r.keys at r.distinct

  remove_key-arrays :
      (done rest : List (K × R)) (e : K × R) (s : Arrays K R)
      → Represents dec s (done ++ e ∷ rest)
      → Represents dec
          (remove_key dec (arrays dec (done ++ e ∷ rest) s.key_indexes) e.0)
          (done ++ rest)
  unfolding remove_key
  remove_key-arrays done rest e s r =
      rw (exact e.0, found)
        (subst (Represents dec _) (splice_out-append done rest e) (
          removed dec whole s.key_indexes exact distinct e.0 (length done) (key_after done rest e)))
    where
      whole : List (K × R)
      whole = done ++ e ∷ rest

      distinct : Distinct dec (keys_of whole)
      distinct = Distinct-keys s whole r

      exact : Indexes dec s.key_indexes (keys_of whole)
      exact = rw r.keys at r.exact

      found : index_from dec 0 e.0 (keys_of whole) ≡ some (length done)
      found =
          index_from-get_elem? dec e.0 (keys_of whole) (length done) distinct
            (key_after done rest e)

  pub remove_key-Represents :
      (done rest : List (K × R)) (e : K × R) (s : Arrays K R)
      → Represents dec s (done ++ e ∷ rest)
      → Represents dec (remove_key dec s e.0) (done ++ rest)
  remove_key-Represents done rest e s r =
      subst (λ t. Represents dec (remove_key dec t e.0) (done ++ rest))
        (sym (eq-arrays dec s (done ++ e ∷ rest) r)) (remove_key-arrays done rest e s r)

  -- The operations of the loop leave the kept entries, and the working copies hold them.
  pub remove_missing-keep :
      (next_keys : List K) (rest done : List (K × R)) (s : Arrays K R)
      → Represents dec s (done ++ rest)
      → let e = remove_missing dec next_keys (keys_of rest) s in
        (edit_all dec (done ++ rest) e.operations ≡ some (done ++ keep next_keys rest))
        × Represents dec e.arrays (done ++ keep next_keys rest)
  unfolding remove_missing keep edit_all
  remove_missing-keep next_keys [] done s r = (refl, r)
  remove_missing-keep next_keys (e ∷ rest) done s r =
      elim (Bool-cases (contains dec e.0 next_keys)) [
        | inl stays ↦
            rw (stays, remove_missing)
              (rw
                (append_assoc done (e ∷ []) rest, append_assoc done (e ∷ []) (keep next_keys rest))
                at
                (remove_missing-keep next_keys rest (done ++ e ∷ []) s
                  (rw (append_assoc done (e ∷ []) rest) r)))
        | inr goes ↦
            let ih =
              remove_missing-keep next_keys rest done (remove_key dec s e.0)
                (remove_key-Represents done rest e s r) in
            rw (goes, remove_missing)
              (rw
                (edit-remove_after dec done rest e (Distinct-keys s (done ++ e ∷ rest) r), edit_all)
                ih)
      ]
