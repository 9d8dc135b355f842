-- ===== src/Shared/Arrays.antt =====
-- An array of keys, an array of rows and the index of each key, which the engine
-- (packages/column-live-view-engine/src/query-result.ts) and the client
-- (packages/client/src/live-query-state.ts) both edit in step, and the list of entries that they hold.
use mathlib.Core.Path.{◌≡◌, refl, sym, subst, ◌∙◌}
use mathlib.Core.Logic.{inl, inr}
use mathlib.Core.Bool.{Bool, true, false}
use mathlib.Core.List.{List, map}
use mathlib.Core.Option.{Option, none, some}
use Prim.Native.Nat.{ℕ, ◌+◌, ◌≤◌, ◌<◌, min}
use native.Mathlib.Omega.{arith}
use package.view_server_smart.Shared.Tests.{Option-cases}
use package.view_server_smart.Shared.Lists.{
  length, get_elem?, set, contains, Distinct, contains-get_elem?, map-set, set_self, length-map,
  lt-get_elem?,
}
use package.view_server_smart.Shared.Splice.{
  splice_in, splice_out, splice_move, map-splice_in, map-splice_out, take-splice_in,
  take-splice_out, contains-splice_in, contains-splice_out, splice_in-Distinct, splice_out-Distinct,
  splice_move-at, map-splice_move, length-splice_in, length-splice_out,
}
use package.view_server_smart.Shared.KeyIndexes.{
  KeyIndexes, set_index, delete_index, reindex_keys, Indexes, index_from, index_from_absent,
  contains-index_from, get_elem?-index_from, index_from-get_elem?, Indexes-change,
}

pub record Arrays {ℓ} (K R : Type ℓ) : Type ℓ where
  pub rows : List R
  pub keys : List K
  pub key_indexes : KeyIndexes K

abbrev pub is_some {ℓ} : {A : Type ℓ} → Option A → Bool
is_some none = false
is_some (some a) = true

module _ {ℓ} {K R : Type ℓ} where
  abbrev pub keys_of : List (K × R) → List K
  keys_of = map λ e. e.0

  abbrev pub rows_of : List (K × R) → List R
  rows_of = map λ e. e.1

module _ {ℓ} {K : Type ℓ} (dec : Discrete K) (keys : List K) (m : KeyIndexes K) (key : K) where
  absent : (k : K) → Indexes dec m keys → contains dec k keys ≡ false → m k ≡ none
  absent k h out = h k ∙ index_from_absent dec 0 k keys out

  -- The key map after an insertion.
  Indexes-splice_in :
      (i : ℕ)
      → Indexes dec m keys
      → Distinct dec keys
      → i ≤ length keys
      → contains dec key keys ≡ false
      → Indexes dec (reindex_keys dec (splice_in keys i key) m i) (splice_in keys i key)
  Indexes-splice_in i h d le new =
      Indexes-change dec keys (splice_in keys i key) m m i h d
        (splice_in-Distinct dec keys i key d new) (omega (arith, length-splice_in keys i key))
        (take-splice_in i keys i key (omega arith) le)
        (λ k out. absent k h (ground (arith, contains-splice_in dec k keys i key))) (λ k _. refl)

  -- The key map after a removal.
  Indexes-splice_out :
      (i : ℕ)
      → Indexes dec m keys
      → Distinct dec keys
      → get_elem? keys i ≡ some key
      → Indexes dec
          (reindex_keys dec (splice_out keys i) (delete_index dec m key) i)
          (splice_out keys i)
  Indexes-splice_out i h d at =
      Indexes-change dec keys (splice_out keys i) m (delete_index dec m key) i h d
        (splice_out-Distinct dec keys i key d at).0
        (omega (arith, length-splice_out keys i, lt-get_elem? keys i key at))
        (take-splice_out i keys i (omega arith))
        (λ k out. ground (arith, contains-splice_out dec k keys i key at, absent k h))
        (λ k kept. ground (arith, splice_out-Distinct dec keys i key d at))

  -- The key map after a move, from the first index that changes.
  Indexes-splice_move :
      (i j : ℕ)
      → Indexes dec m keys
      → Distinct dec keys
      → get_elem? keys i ≡ some key
      → j < length keys
      → Distinct dec (splice_move keys i j)
        × Indexes dec (reindex_keys dec (splice_move keys i j) m (min i j)) (splice_move keys i j)
  Indexes-splice_move i j h d at lt = rw (splice_move-at keys i j key at) (
    distinct,
    Indexes-change dec keys (splice_in out j key) m m (min i j) h d distinct
        (omega (arith, length-splice_in out j key, shorter))
        (take-splice_in (min i j) out j key (omega arith) (omega (arith, shorter))
          ∙ take-splice_out (min i j) keys i (omega arith))
        (λ k gone. absent k h (
          ground
            (arith, contains-splice_in dec k out j key, contains-splice_out dec k keys i key at)))
        (λ k _. refl),
  )
    where
      out : List K
      out = splice_out keys i

      shorter : length out + 1 ≡ length keys
      shorter = length-splice_out keys i (lt-get_elem? keys i key at)

      apart : Distinct dec out × (contains dec key out ≡ false)
      apart = splice_out-Distinct dec keys i key d at

      distinct : Distinct dec (splice_in out j key)
      distinct = splice_in-Distinct dec out j key apart.0 apart.1

module _ {ℓ} {K R : Type ℓ} (dec : Discrete K) where
  -- The arrays hold the entries `es`: the keys and the rows of `es` in order, and the exact index of
  -- each key; no key stands twice.
  pub record Represents (s : Arrays K R) (es : List (K × R)) : Type ℓ where
    pub keys : s.keys ≡ keys_of es
    pub rows : s.rows ≡ rows_of es
    pub exact : Indexes dec s.key_indexes s.keys
    pub distinct : Distinct dec s.keys

  abbrev pub arrays : List (K × R) → KeyIndexes K → Arrays K R
  arrays es m = record { rows = rows_of es; keys = keys_of es; key_indexes = m }

  pub eq-arrays :
      (s : Arrays K R) (es : List (K × R)) → Represents s es → s ≡ arrays es s.key_indexes
  eq-arrays s es r = λ i. record { rows = r.rows i; keys = r.keys i; key_indexes = s.key_indexes }

  module _ (es : List (K × R)) (m : KeyIndexes K) (exact : Indexes dec m (keys_of es)) where
    pub same_length : length (keys_of es) ≡ length es
    same_length = length-map (λ e. e.0) es

    pub has_key : (key : K) → is_some (m key) ≡ contains dec key (keys_of es)
    has_key key = elim (Option-cases (index_from dec 0 key (keys_of es))) [
      | inl e ↦ ground (arith, exact key, contains-index_from dec 0 key (keys_of es) e)
      | inr (i, e) ↦ ground (
        arith,
        exact key,
        contains-get_elem? dec (keys_of es) i key (get_elem?-index_from dec key (keys_of es) i e),
      )
    ]

    module _ (distinct : Distinct dec (keys_of es)) (key : K) where
      pub inserted :
          (row : R) (i : ℕ)
          → i ≤ length es
          → contains dec key (keys_of es) ≡ false
          → Represents
              (record {
                rows = splice_in (rows_of es) i row;
                keys = splice_in (keys_of es) i key;
                key_indexes = reindex_keys dec (splice_in (keys_of es) i key) m i;
              })
              (splice_in es i (key, row))
      inserted row i le new = record {
        keys = sym (map-splice_in (λ e. e.0) es i (key, row));
        rows = sym (map-splice_in (λ e. e.1) es i (key, row));
        exact = Indexes-splice_in dec (keys_of es) m key i exact distinct (rw same_length le) new;
        distinct = splice_in-Distinct dec (keys_of es) i key distinct new;
      }

      pub updated :
          (row : R) (i : ℕ)
          → get_elem? (keys_of es) i ≡ some key
          → Represents
              (record {
                rows = set (rows_of es) i row;
                keys = keys_of es;
                key_indexes = set_index dec m key i;
              })
              (set es i (key, row))
      updated row i at = record {
        keys = sym (map-set (λ e. e.0) es i (key, row) ∙ set_self (keys_of es) i key at);
        rows = sym (map-set (λ e. e.1) es i (key, row));
        exact =
            λ k. ground (arith, exact k, index_from-get_elem? dec key (keys_of es) i distinct at);
        distinct = distinct;
      }

      pub moved :
          (i j : ℕ)
          → get_elem? (keys_of es) i ≡ some key
          → j < length es
          → Represents
              (record {
                rows = splice_move (rows_of es) i j;
                keys = splice_move (keys_of es) i j;
                key_indexes = reindex_keys dec (splice_move (keys_of es) i j) m (min i j);
              })
              (splice_move es i j)
      moved i j at lt =
          let map_ok =
            Indexes-splice_move dec (keys_of es) m key i j exact distinct at (rw same_length lt) in
          record {
            keys = sym (map-splice_move (λ e. e.0) es i j);
            rows = sym (map-splice_move (λ e. e.1) es i j);
            exact = map_ok.1;
            distinct = map_ok.0;
          }

      pub removed :
          (i : ℕ)
          → get_elem? (keys_of es) i ≡ some key
          → Represents
              (record {
                rows = splice_out (rows_of es) i;
                keys = splice_out (keys_of es) i;
                key_indexes =
                    reindex_keys dec (splice_out (keys_of es) i) (delete_index dec m key) i;
              })
              (splice_out es i)
      removed i at = record {
        keys = sym (map-splice_out (λ e. e.0) es i);
        rows = sym (map-splice_out (λ e. e.1) es i);
        exact = Indexes-splice_out dec (keys_of es) m key i exact distinct at;
        distinct = (splice_out-Distinct dec (keys_of es) i key distinct at).0;
      }

-- The edits, for any arrays that hold the entries.
module _ {ℓ} {K R : Type ℓ} (dec : Discrete K) (s : Arrays K R) (es : List (K × R))
    (r : Represents dec s es) (key : K) where
  exact_for : Indexes dec s.key_indexes (keys_of es)
  exact_for = rw r.keys at r.exact

  Distinct-for : Distinct dec (keys_of es)
  Distinct-for = rw r.keys at r.distinct

  pub splice_in-Represents :
      (row : R) (i : ℕ)
      → i ≤ length es
      → contains dec key (keys_of es) ≡ false
      → Represents dec
          (record {
            rows = splice_in s.rows i row;
            keys = splice_in s.keys i key;
            key_indexes = reindex_keys dec (splice_in s.keys i key) s.key_indexes i;
          })
          (splice_in es i (key, row))
  splice_in-Represents row i le new =
      subst
        (λ t.
          Represents dec
            (record {
              rows = splice_in t.rows i row;
              keys = splice_in t.keys i key;
              key_indexes = reindex_keys dec (splice_in t.keys i key) t.key_indexes i;
            })
            (splice_in es i (key, row)))
        (sym (eq-arrays dec s es r))
        (inserted dec es s.key_indexes exact_for Distinct-for key row i le new)

  pub splice_move-Represents :
      (i j : ℕ)
      → get_elem? (keys_of es) i ≡ some key
      → j < length es
      → Represents dec
          (record {
            rows = splice_move s.rows i j;
            keys = splice_move s.keys i j;
            key_indexes = reindex_keys dec (splice_move s.keys i j) s.key_indexes (min i j);
          })
          (splice_move es i j)
  splice_move-Represents i j at lt =
      subst
        (λ t.
          Represents dec
            (record {
              rows = splice_move t.rows i j;
              keys = splice_move t.keys i j;
              key_indexes = reindex_keys dec (splice_move t.keys i j) t.key_indexes (min i j);
            })
            (splice_move es i j))
        (sym (eq-arrays dec s es r))
        (moved dec es s.key_indexes exact_for Distinct-for key i j at lt)

  pub set-Represents :
      (row : R) (i : ℕ)
      → get_elem? (keys_of es) i ≡ some key
      → Represents dec (record s { rows = set s.rows i row }) (set es i (key, row))
  set-Represents row i at = record {
    keys = r.keys ∙ sym (map-set (λ e. e.0) es i (key, row) ∙ set_self (keys_of es) i key at);
    rows = rw r.rows (sym (map-set (λ e. e.1) es i (key, row)));
    exact = r.exact;
    distinct = r.distinct;
  }
