-- ===== src/Shared/Assoc.antt =====
-- JavaScript's `Map` as a list of pairs in insertion order, each key once.
use Prim.Native.Nat.{suc}
use mathlib.Core.Path.{◌≡◌, refl}
use mathlib.Core.Logic.{◌≢◌, ite}
use mathlib.Core.List.{List, [], ◌∷◌}
use mathlib.Core.Option.{Option, none, some}
use native.Mathlib.Omega.{arith}
use package.view_server_smart.Shared.Lists.{length}

module _ {S A : Type 0} (dec : Discrete S) where
  abbrev pub get_entry : S → List (S × A) → Option A
  get_entry s [] = none
  get_entry s ((k, a) ∷ rest) = ite (dec s k) (some a) (get_entry s rest)

  -- A key that is there keeps its place.
  abbrev pub set_entry : S → A → List (S × A) → List (S × A)
  set_entry s a [] = (s, a) ∷ []
  set_entry s a ((k, old) ∷ rest) = ite (dec s k) ((k, a) ∷ rest) ((k, old) ∷ set_entry s a rest)

  abbrev pub delete_entry : S → List (S × A) → List (S × A)
  delete_entry s [] = []
  delete_entry s ((k, a) ∷ rest) = ite (dec s k) rest ((k, a) ∷ delete_entry s rest)

  abbrev pub HasUniqueKeys : List (S × A) → Type 0
  HasUniqueKeys [] = Unit
  HasUniqueKeys ((k, a) ∷ rest) = (get_entry k rest ≡ none) × HasUniqueKeys rest

  pub get_set_same : (s : S) (a : A) (m : List (S × A)) → get_entry s (set_entry s a m) ≡ some a
  get_set_same s a [] = ground arith
  get_set_same s a ((k, old) ∷ rest) = ground (arith, get_set_same s a rest)

  pub get_set_other :
      (s t : S) (a : A) (m : List (S × A)) → s ≢ t → get_entry t (set_entry s a m) ≡ get_entry t m
  get_set_other s t a [] n = ground (arith, n)
  get_set_other s t a ((k, old) ∷ rest) n = ground (arith, n, get_set_other s t a rest n)

  pub get_delete_same :
      (s : S) (m : List (S × A)) → HasUniqueKeys m → get_entry s (delete_entry s m) ≡ none
  get_delete_same s [] u = refl
  get_delete_same s ((k, old) ∷ rest) u = ground (arith, u.0, get_delete_same s rest u.1)

  pub get_delete_other :
      (s t : S) (m : List (S × A)) → s ≢ t → get_entry t (delete_entry s m) ≡ get_entry t m
  get_delete_other s t [] n = refl
  get_delete_other s t ((k, old) ∷ rest) n = ground (arith, n, get_delete_other s t rest n)

  pub set-HasUniqueKeys :
      (s : S) (a : A) (m : List (S × A)) → HasUniqueKeys m → HasUniqueKeys (set_entry s a m)
  set-HasUniqueKeys s a [] u = (refl, tt)
  set-HasUniqueKeys s a ((k, old) ∷ rest) u = elim (dec s k) [
    | yes e ↦ ground (arith, e, u.0, u.1)
    | no n ↦ ground (arith, n, get_set_other s k a rest n, u.0, set-HasUniqueKeys s a rest u.1)
  ]

  pub delete-HasUniqueKeys :
      (s : S) (m : List (S × A)) → HasUniqueKeys m → HasUniqueKeys (delete_entry s m)
  delete-HasUniqueKeys s [] u = tt
  delete-HasUniqueKeys s ((k, old) ∷ rest) u = elim (dec s k) [
    | yes e ↦ ground (arith, e, u.1)
    | no n ↦ ground (arith, n, get_delete_other s k rest n, u.0, delete-HasUniqueKeys s rest u.1)
  ]

  pub length-set_entry-new :
      (s : S) (a : A) (m : List (S × A))
      → get_entry s m ≡ none
      → length (set_entry s a m) ≡ suc (length m)
  length-set_entry-new s a [] h = refl
  length-set_entry-new s a ((k, old) ∷ rest) h = ground (arith, h, length-set_entry-new s a rest)

  pub length-set_entry-old :
      (s : S) (a old : A) (m : List (S × A))
      → get_entry s m ≡ some old
      → length (set_entry s a m) ≡ length m
  length-set_entry-old s a old [] h = cc h
  length-set_entry-old s a old ((k, e) ∷ rest) h =
      ground (arith, h, length-set_entry-old s a old rest)

  pub length-delete_entry :
      (s : S) (old : A) (m : List (S × A))
      → get_entry s m ≡ some old
      → length m ≡ suc (length (delete_entry s m))
  length-delete_entry s old [] h = cc h
  length-delete_entry s old ((k, e) ∷ rest) h = ground (arith, h, length-delete_entry s old rest)
