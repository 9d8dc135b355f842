-- ===== src/Shared/Splice.antt =====
-- `Array.prototype.splice` as the program calls it. A start beyond the end is clamped to the end,
-- so an insertion there appends and a removal there removes nothing.
use Prim.Native.Nat.{ℕ, zero, suc, ◌+◌, ◌-◌, ◌≤◌, ◌<◌}
use mathlib.Core.Path.{◌≡◌, refl, ap, ◌∙◌}
use mathlib.Core.Logic.{ite, inl, inr}
use mathlib.Core.Bool.{true, false}
use mathlib.Core.List.{append_assoc, List, [], ◌∷◌, ◌++◌, map}
use mathlib.Core.Option.{none, some}
use native.Mathlib.Omega.{arith}
use package.view_server_smart.Shared.Tests.{if◌then◌else◌, ltb, ◌==◌, Option-cases}
use package.view_server_smart.Shared.Lists.{
  length, length-append, get_elem?, set, get_elem?-map, get_elem?-map-none, take, drop, contains,
  Distinct, contains-get_elem?,
}

module _ {ℓ} {A : Type ℓ} where
  -- The list after `xs.splice(i, 0, x)`.
  abbrev pub splice_in : List A → ℕ → A → List A
  splice_in [] i x = x ∷ []
  splice_in (y ∷ ys) zero x = x ∷ y ∷ ys
  splice_in (y ∷ ys) (suc i) x = y ∷ splice_in ys i x

  -- The list after `xs.splice(i, 1)`.
  abbrev pub splice_out : List A → ℕ → List A
  splice_out [] i = []
  splice_out (y ∷ ys) zero = ys
  splice_out (y ∷ ys) (suc i) = y ∷ splice_out ys i

  -- `const m = xs.splice(i, 1); xs.splice(j, 0, ...m)`.
  unfoldable pub splice_move : List A → ℕ → ℕ → List A
  splice_move xs i j = elim (get_elem? xs i) [
    | none ↦ splice_out xs i
    | some x ↦ splice_in (splice_out xs i) j x
  ]

module _ {ℓ} {A : Type ℓ} where
  pub splice_move-at :
      (xs : List A) (i j : ℕ) (x : A)
      → get_elem? xs i ≡ some x
      → splice_move xs i j ≡ splice_in (splice_out xs i) j x
  unfolding splice_move
  splice_move-at xs i j x h = ground arith

  pub splice_move-none :
      (xs : List A) (i j : ℕ) → get_elem? xs i ≡ none → splice_move xs i j ≡ splice_out xs i
  unfolding splice_move
  splice_move-none xs i j h = ground arith

  pub length-splice_in : (xs : List A) (i : ℕ) (x : A) → length (splice_in xs i x) ≡ length xs + 1
  length-splice_in [] i x = omega arith
  length-splice_in (y ∷ ys) zero x = omega arith
  length-splice_in (y ∷ ys) (suc i) x = omega (arith, length-splice_in ys i x)

  pub length-splice_out :
      (xs : List A) (i : ℕ) → i < length xs → length (splice_out xs i) + 1 ≡ length xs
  length-splice_out [] i h = absurd (omega arith)
  length-splice_out (y ∷ ys) zero h = omega arith
  length-splice_out (y ∷ ys) (suc i) h = omega (arith, length-splice_out ys i)

  pub map-splice_in {κ} :
      {B : Type κ} (f : A → B) (xs : List A) (i : ℕ) (x : A)
      → map f (splice_in xs i x) ≡ splice_in (map f xs) i (f x)
  map-splice_in f [] i x = refl
  map-splice_in f (y ∷ ys) zero x = refl
  map-splice_in f (y ∷ ys) (suc i) x = ap (◌∷◌ (f y)) (map-splice_in f ys i x)

  pub map-splice_out {κ} :
      {B : Type κ} (f : A → B) (xs : List A) (i : ℕ)
      → map f (splice_out xs i) ≡ splice_out (map f xs) i
  map-splice_out f [] i = refl
  map-splice_out f (y ∷ ys) zero = refl
  map-splice_out f (y ∷ ys) (suc i) = ap (◌∷◌ (f y)) (map-splice_out f ys i)

  pub take-splice_in :
      (n : ℕ) (xs : List A) (i : ℕ) (x : A)
      → n ≤ i
      → n ≤ length xs
      → take n (splice_in xs i x) ≡ take n xs
  take-splice_in zero xs i x h k = refl
  take-splice_in (suc n) [] i x h k = absurd (omega arith)
  take-splice_in (suc n) (y ∷ ys) zero x h k = absurd (omega arith)
  take-splice_in (suc n) (y ∷ ys) (suc i) x h k =
      ap (◌∷◌ y) (take-splice_in n ys i x (omega arith) (omega arith))

  pub take-splice_out : (n : ℕ) (xs : List A) (i : ℕ) → n ≤ i → take n (splice_out xs i) ≡ take n xs
  take-splice_out zero xs i h = refl
  take-splice_out (suc n) [] i h = refl
  take-splice_out (suc n) (y ∷ ys) zero h = absurd (omega arith)
  take-splice_out (suc n) (y ∷ ys) (suc i) h = ap (◌∷◌ y) (take-splice_out n ys i (omega arith))

  pub drop-splice_in :
      (i : ℕ) (xs : List A) (x : A) → i ≤ length xs → drop i (splice_in xs i x) ≡ x ∷ drop i xs
  drop-splice_in zero [] x h = refl
  drop-splice_in zero (y ∷ ys) x h = refl
  drop-splice_in (suc i) [] x h = absurd (omega arith)
  drop-splice_in (suc i) (y ∷ ys) x h = drop-splice_in i ys x (omega arith)

  pub drop-get_elem? :
      (i : ℕ) (xs : List A) (x : A)
      → get_elem? xs i ≡ some x
      → drop i xs ≡ x ∷ drop i (splice_out xs i)
  drop-get_elem? zero [] x h = cc
  drop-get_elem? zero (y ∷ ys) x h = ground arith
  drop-get_elem? (suc i) [] x h = cc
  drop-get_elem? (suc i) (y ∷ ys) x h = drop-get_elem? i ys x h

  -- The element at an index after an insertion and after a removal.
  pub get_elem?-splice_in :
      (xs : List A) (i : ℕ) (x : A) (j : ℕ)
      → i ≤ length xs
      → get_elem? (splice_in xs i x) j
        ≡ (if ltb j i then get_elem? xs j else if j == i then some x else get_elem? xs (j - 1))
  get_elem?-splice_in [] zero x zero h = ground arith
  get_elem?-splice_in [] zero x (suc j) h = ground arith
  get_elem?-splice_in [] (suc i) x j h = absurd (omega arith)
  get_elem?-splice_in (y ∷ ys) zero x zero h = ground arith
  get_elem?-splice_in (y ∷ ys) zero x (suc j) h = ground arith
  get_elem?-splice_in (y ∷ ys) (suc i) x zero h = ground arith
  get_elem?-splice_in (y ∷ ys) (suc i) x (suc zero) h =
      ground (arith, get_elem?-splice_in ys i x zero)
  get_elem?-splice_in (y ∷ ys) (suc i) x (suc (suc j)) h =
      ground (arith, get_elem?-splice_in ys i x (suc j))

  pub get_elem?-splice_out :
      (xs : List A) (i j : ℕ)
      → get_elem? (splice_out xs i) j ≡ (if ltb j i then get_elem? xs j else get_elem? xs (suc j))
  get_elem?-splice_out [] i j = ground arith
  get_elem?-splice_out (y ∷ ys) zero j = ground arith
  get_elem?-splice_out (y ∷ ys) (suc i) zero = ground arith
  get_elem?-splice_out (y ∷ ys) (suc i) (suc j) = ground (arith, get_elem?-splice_out ys i j)

module _ {ℓ} {A : Type ℓ} where
  pub map-splice_move {κ} :
      {B : Type κ} (f : A → B) (xs : List A) (i j : ℕ)
      → map f (splice_move xs i j) ≡ splice_move (map f xs) i j
  unfolding splice_move
  map-splice_move f xs i j = elim (Option-cases (get_elem? xs i)) [
    | inl e ↦ ground (arith, e, get_elem?-map-none f xs i e, map-splice_out f xs i)
    | inr (x, e) ↦
        rw
          (
            splice_move-at xs i j x e,
            splice_move-at (map f xs) i j (f x) (get_elem?-map f xs i x e),
          )
          (map-splice_in f (splice_out xs i) j x
            ∙ ap (λ ys. splice_in ys j (f x)) (map-splice_out f xs i))
  ]

-- At the end of a first part an edit changes the second part.
module _ {ℓ} {A : Type ℓ} where
  pub splice_in-append :
      (xs ys : List A) (y : A) → splice_in (xs ++ ys) (length xs) y ≡ xs ++ y ∷ ys
  splice_in-append [] [] y = refl
  splice_in-append [] (z ∷ ys) y = refl
  splice_in-append (x ∷ xs) ys y = ap (◌∷◌ x) (splice_in-append xs ys y)

  pub splice_out-append :
      (xs ys : List A) (y : A) → splice_out (xs ++ y ∷ ys) (length xs) ≡ xs ++ ys
  splice_out-append [] ys y = refl
  splice_out-append (x ∷ xs) ys y = ap (◌∷◌ x) (splice_out-append xs ys y)

  pub get_elem?-append : (xs ys : List A) (y : A) → get_elem? (xs ++ y ∷ ys) (length xs) ≡ some y
  get_elem?-append [] ys y = refl
  get_elem?-append (x ∷ xs) ys y = get_elem?-append xs ys y

  pub set-append : (xs ys : List A) (y v : A) → set (xs ++ y ∷ ys) (length xs) v ≡ xs ++ v ∷ ys
  set-append [] ys y v = refl
  set-append (x ∷ xs) ys y v = ap (◌∷◌ x) (set-append xs ys y v)

module _ {ℓ} {A : Type ℓ} (done before rest : List A) (e : A) where
  abbrev whole : List A
  whole = done ++ (before ++ e ∷ rest)

  start : length (done ++ before) ≡ length done + length before
  start = length-append done before

  grouped : (done ++ before) ++ e ∷ rest ≡ whole
  grouped = append_assoc done before (e ∷ rest)

  pub get_elem?-append_append :
      get_elem? (done ++ (before ++ e ∷ rest)) (length done + length before) ≡ some e
  get_elem?-append_append = rw start at (rw grouped at (get_elem?-append (done ++ before) rest e))

  out : splice_out whole (length done + length before) ≡ done ++ (before ++ rest)
  out =
      rw start at (rw grouped at (splice_out-append (done ++ before) rest e))
      ∙ append_assoc done before rest

  -- A move from further on to the end of the first part.
  pub splice_move-append :
      splice_move (done ++ (before ++ e ∷ rest)) (length done + length before) (length done)
      ≡ done ++ e ∷ (before ++ rest)
  splice_move-append =
      splice_move-at whole (length done + length before) (length done) e get_elem?-append_append
      ∙ ap (λ ys. splice_in ys (length done) e) out
      ∙ splice_in-append done (before ++ rest) e

module _ {ℓ} {A : Type ℓ} (dec : Discrete A) where
  pub contains-splice_in :
      (a : A) (xs : List A) (i : ℕ) (x : A)
      → contains dec a (splice_in xs i x) ≡ ite (dec a x) true (contains dec a xs)
  contains-splice_in a [] i x = refl
  contains-splice_in a (y ∷ ys) zero x = refl
  contains-splice_in a (y ∷ ys) (suc i) x = ground (arith, contains-splice_in a ys i x)

  pub contains-splice_out :
      (a : A) (xs : List A) (i : ℕ) (x : A)
      → get_elem? xs i ≡ some x
      → contains dec a xs ≡ ite (dec a x) true (contains dec a (splice_out xs i))
  contains-splice_out a [] i x h = cc
  contains-splice_out a (y ∷ ys) zero x h = ground arith
  contains-splice_out a (y ∷ ys) (suc i) x h = ground (arith, contains-splice_out a ys i x h)

  pub splice_in-Distinct :
      (xs : List A) (i : ℕ) (x : A)
      → Distinct dec xs
      → contains dec x xs ≡ false
      → Distinct dec (splice_in xs i x)
  splice_in-Distinct [] i x d h = (refl, tt)
  splice_in-Distinct (y ∷ ys) zero x d h = (h, d)
  splice_in-Distinct (y ∷ ys) (suc i) x d h =
      ground (arith, splice_in-Distinct ys i x d.1, contains-splice_in y ys i x)

  pub splice_out-Distinct :
      (xs : List A) (i : ℕ) (x : A)
      → Distinct dec xs
      → get_elem? xs i ≡ some x
      → Distinct dec (splice_out xs i) × (contains dec x (splice_out xs i) ≡ false)
  splice_out-Distinct [] i x d h = cc
  splice_out-Distinct (y ∷ ys) zero x d h = ground arith
  splice_out-Distinct (y ∷ ys) (suc i) x d h = ground (
    arith,
    splice_out-Distinct ys i x d.1 h,
    contains-splice_out y ys i x h,
    contains-get_elem? dec ys i x h,
  )

  pub Distinct-append_without :
      (xs ys : List A) (y : A) → Distinct dec (xs ++ y ∷ ys) → Distinct dec (xs ++ ys)
  Distinct-append_without xs ys y d =
      rw (splice_out-append xs ys y) at
        (splice_out-Distinct (xs ++ y ∷ ys) (length xs) y d (get_elem?-append xs ys y)).0
