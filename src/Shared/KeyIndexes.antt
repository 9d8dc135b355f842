-- ===== src/Shared/KeyIndexes.antt =====
-- The maps from a key to its index that the engine and the client keep beside their array of keys
-- (`reindexCurrentKeys` in packages/column-live-view-engine/src/query-result.ts, `reindexKeys` in
-- packages/client/src/live-query-state.ts). A map is a function from keys.
use mathlib.Core.Path.{◌≡◌, refl, ◌∙◌, sym}
use mathlib.Core.Logic.{ite, inl, inr}
use mathlib.Core.Bool.{true, false}
use mathlib.Core.List.{List, [], ◌∷◌, ◌++◌}
use mathlib.Core.Option.{Option, none, some}
use Prim.Native.Nat.{ℕ, zero, suc, ◌+◌, ◌≤◌}
use native.Mathlib.Omega.{arith}
use package.view_server_smart.Shared.Tests.{Bool-cases, Option-cases}
use package.view_server_smart.Shared.Lists.{
  length, get_elem?, take, drop, contains, contains-get_elem?, Distinct, contains-append_split,
  contains-append_left, Distinct-append, Distinct-append_right, take-append-drop, length-take,
}

abbrev pub KeyIndexes {ℓ} : Type ℓ → Type ℓ
KeyIndexes K = K → Option ℕ

abbrev pub or_else {ℓ} : {A : Type ℓ} → Option A → Option A → Option A
or_else none b = b
or_else (some a) b = some a

module _ {ℓ} {K : Type ℓ} (dec : Discrete K) where
  abbrev pub set_index : KeyIndexes K → K → ℕ → KeyIndexes K
  set_index m k i j = ite (dec j k) (some i) (m j)

  abbrev pub delete_index : KeyIndexes K → K → KeyIndexes K
  delete_index m k j = ite (dec j k) none (m j)

  -- The loop of `reindexKeys`, at the keys from `index` on.
  unfoldable pub reindex_from : List K → ℕ → KeyIndexes K → KeyIndexes K
  reindex_from [] index m = m
  reindex_from (k ∷ ks) index m = reindex_from ks (suc index) (set_index m k index)

  unfoldable pub reindex_keys : List K → KeyIndexes K → ℕ → KeyIndexes K
  unfolding reindex_from
  reindex_keys keys m start = reindex_from (drop start keys) start m

  -- `new Map(keys.map((key, index) => [key, index]))`.
  unfoldable pub indexes_of_keys : List K → KeyIndexes K
  unfolding reindex_from
  indexes_of_keys keys = reindex_from keys 0 (λ k. none)

  -- The first index of a key, counted from `i`.
  unfoldable pub index_from : ℕ → K → List K → Option ℕ
  index_from i k [] = none
  index_from i k (x ∷ xs) = ite (dec k x) (some i) (index_from (suc i) k xs)

  -- A map holds exactly the index of each key.
  abbrev pub Indexes : KeyIndexes K → List K → Type ℓ
  Indexes m keys = (k : K) → m k ≡ index_from 0 k keys

module _ {ℓ} {K : Type ℓ} (dec : Discrete K) where
  pub index_from_absent :
      (i : ℕ) (k : K) (xs : List K) → contains dec k xs ≡ false → index_from dec i k xs ≡ none
  unfolding index_from
  index_from_absent i k [] h = refl
  index_from_absent i k (x ∷ xs) h = ground (arith, index_from_absent (suc i) k xs)

  pub contains-index_from :
      (i : ℕ) (k : K) (xs : List K) → index_from dec i k xs ≡ none → contains dec k xs ≡ false
  unfolding index_from
  contains-index_from i k [] h = refl
  contains-index_from i k (x ∷ xs) h = ground (arith, contains-index_from (suc i) k xs)

  index_from-append :
      (i : ℕ) (k : K) (xs ys : List K)
      → index_from dec i k (xs ++ ys)
        ≡ or_else (index_from dec i k xs) (index_from dec (length xs + i) k ys)
  unfolding index_from
  index_from-append i k [] ys = let e : 0 + i ≡ i = omega arith in rw e
  index_from-append i k (x ∷ xs) ys =
      let e : length xs + suc i ≡ suc (length xs) + i = omega arith in
      ground (arith, index_from-append (suc i) k xs ys, e)

  index_from-range :
      (i : ℕ) (k : K) (xs : List K) (j : ℕ)
      → index_from dec i k xs ≡ some j
      → (n : ℕ) × (j ≡ i + n) × (get_elem? xs n ≡ some k)
  unfolding index_from
  index_from-range i k [] j h = cc
  index_from-range i k (x ∷ xs) j h = elim (dec k x) [
    | yes p ↦ (0, ground arith, ground arith)
    | no p ↦
        let (n, e, g) = index_from-range (suc i) k xs j (ground arith) in (suc n, omega arith, g)
  ]

  -- The key stands at the index found.
  pub get_elem?-index_from :
      (k : K) (xs : List K) (j : ℕ) → index_from dec 0 k xs ≡ some j → get_elem? xs j ≡ some k
  get_elem?-index_from k xs j h =
      let (n, e, g) = index_from-range 0 k xs j h in let e' : j ≡ n = omega arith in rw e' g

  index_from-at :
      (i : ℕ) (k : K) (xs : List K) (n : ℕ)
      → Distinct dec xs
      → get_elem? xs n ≡ some k
      → index_from dec i k xs ≡ some (n + i)
  unfolding index_from
  index_from-at i k [] n d h = cc
  index_from-at i k (x ∷ xs) zero d h = let e : 0 + i ≡ i = omega arith in ground (arith, e)
  index_from-at i k (x ∷ xs) (suc n) d h =
      let e : n + suc i ≡ suc n + i = omega arith in
      ground (arith, index_from-at (suc i) k xs n d.1 h, contains-get_elem? dec xs n k h, e)

  -- In keys without repetition a key is found where it stands.
  pub index_from-get_elem? :
      (k : K) (xs : List K) (n : ℕ)
      → Distinct dec xs
      → get_elem? xs n ≡ some k
      → index_from dec 0 k xs ≡ some n
  index_from-get_elem? k xs n d h =
      let e : n + 0 ≡ n = omega arith in rw e at (index_from-at 0 k xs n d h)

  reindex_from_lem :
      (ks : List K) (i : ℕ) (m : KeyIndexes K) (k : K)
      → Distinct dec ks
      → reindex_from dec ks i m k ≡ or_else (index_from dec i k ks) (m k)
  unfolding reindex_from index_from
  reindex_from_lem [] i m k d = refl
  reindex_from_lem (x ∷ ks) i m k d = ground (
    arith,
    reindex_from_lem ks (suc i) (set_index dec m x i) k d.1,
    index_from_absent (suc i) k ks,
  )

  pub Indexes-indexes_of_keys :
      (keys : List K) → Distinct dec keys → Indexes dec (indexes_of_keys dec keys) keys
  unfolding indexes_of_keys
  Indexes-indexes_of_keys keys d k = elim (Option-cases (index_from dec 0 k keys)) [
    | inl e ↦ rw e (reindex_from_lem keys 0 (λ j. none) k d ∙ rw e)
    | inr (i, e) ↦ rw e (reindex_from_lem keys 0 (λ j. none) k d ∙ rw e)
  ]

  -- Reindexing from `n` on makes a map exact again, if it was right on the keys before `n` and has
  -- no entry for a key that is gone.
  Indexes-reindex_keys :
      (keys : List K) (m : KeyIndexes K) (n : ℕ)
      → n ≤ length keys
      → Distinct dec keys
      → ((k : K) → contains dec k (drop n keys) ≡ false → m k ≡ index_from dec 0 k (take n keys))
      → Indexes dec (reindex_keys dec keys m n) keys
  unfolding reindex_keys
  Indexes-reindex_keys keys m n le d h k =
      reindex_from_lem suffix n m k (Distinct-append_right dec prefix suffix split)
      ∙ elim (Bool-cases (contains dec k suffix)) [
        | inl late ↦ ground (
          arith,
          append,
          index_from_absent 0 k prefix (Distinct-append dec k prefix suffix split late),
          contains-index_from n k suffix,
        )
        | inr early ↦ ground (arith, append, h k early, index_from_absent n k suffix early)
      ]
    where
      prefix : List K
      prefix = take n keys

      suffix : List K
      suffix = drop n keys

      whole : prefix ++ suffix ≡ keys
      whole = take-append-drop n keys

      split : Distinct dec (prefix ++ suffix)
      split = rw whole d

      start : length prefix + 0 ≡ n
      start = omega (arith, length-take n keys le)

      append :
          index_from dec 0 k keys ≡ or_else (index_from dec 0 k prefix) (index_from dec n k suffix)
      append = rw start at (rw whole at (index_from-append 0 k prefix suffix))

  -- A key outside the second part is found in the first, or not at all.
  index_from-take :
      (n : ℕ) (keys : List K) (k : K)
      → contains dec k (drop n keys) ≡ false
      → index_from dec 0 k keys ≡ index_from dec 0 k (take n keys)
  index_from-take n keys k h =
      rw whole at (index_from-append 0 k (take n keys) (drop n keys))
      ∙ elim (Option-cases (index_from dec 0 k (take n keys))) [
        | inl e ↦ ground (arith, e, index_from_absent (length (take n keys) + 0) k (drop n keys) h)
        | inr (i, e) ↦ ground (arith, e)
      ]
    where
      whole : take n keys ++ drop n keys ≡ keys
      whole = take-append-drop n keys

  -- The rule for an update of the keys: reindexing from `n` on makes the map exact for the new keys,
  -- if the keys before `n` are the old ones, and the entries of keys that are gone are deleted.
  pub Indexes-change :
      (keys next : List K) (m changed : KeyIndexes K) (n : ℕ)
      → Indexes dec m keys
      → Distinct dec keys
      → Distinct dec next
      → n ≤ length next
      → take n next ≡ take n keys
      → ((k : K) → contains dec k next ≡ false → changed k ≡ none)
      → ((k : K) → contains dec k next ≡ true → changed k ≡ m k)
      → Indexes dec (reindex_keys dec next changed n) next
  Indexes-change keys next m changed n h d d' le same gone kept =
      Indexes-reindex_keys next changed n le d' λ k out. elim (Bool-cases (contains dec k next)) [
        | inl stays ↦ kept k stays ∙ h k ∙ index_from-take n keys k (not_late k out stays) ∙ rw same
        | inr leaves ↦
            gone k leaves ∙ sym (index_from_absent 0 k (take n next) (not_early k leaves))
      ]
    where
      not_early : (k : K) → contains dec k next ≡ false → contains dec k (take n next) ≡ false
      not_early k e =
          (contains-append_split dec k (take n next) (drop n next)
            (rw (take-append-drop n next) e)).0

      early :
          (k : K)
          → contains dec k (drop n next) ≡ false
          → contains dec k next ≡ true
          → contains dec k (take n keys) ≡ true
      early k out e = rw same at (
          contains-append_left dec k (take n next) (drop n next) (rw (take-append-drop n next) e)
            out)

      not_late :
          (k : K)
          → contains dec k (drop n next) ≡ false
          → contains dec k next ≡ true
          → contains dec k (drop n keys) ≡ false
      not_late k out e = elim (Bool-cases (contains dec k (drop n keys))) [
        | inl late ↦ absurd (
            ground (
              arith,
              early k out e,
              Distinct-append dec k (take n keys) (drop n keys) (rw (take-append-drop n keys) d)
                  late,
            ))
        | inr ok ↦ ok
      ]
