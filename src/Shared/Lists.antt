-- ===== src/Shared/Lists.antt =====
-- Lists measured and indexed by native numbers, and predicates on lists by recursion.
use Prim.Native.Nat.{ℕ, zero, suc, ◌+◌, ◌≤◌, ◌<◌}
use mathlib.Core.Path.{◌≡◌, refl, ap}
use mathlib.Core.Logic.{ite}
use mathlib.Core.Bool.{Bool, true, false}
use mathlib.Core.List.{List, [], ◌∷◌, ◌++◌, map}
use mathlib.Core.Option.{Option, none, some}
use native.Mathlib.Omega.{arith}

module _ {ℓ} {A : Type ℓ} where
  abbrev pub length : List A → ℕ
  length [] = 0
  length (x ∷ xs) = suc (length xs)

  abbrev pub get_elem? : List A → ℕ → Option A
  get_elem? [] i = none
  get_elem? (x ∷ xs) zero = some x
  get_elem? (x ∷ xs) (suc i) = get_elem? xs i

  -- A write out of bounds changes nothing.
  abbrev pub set : List A → ℕ → A → List A
  set [] i v = []
  set (x ∷ xs) zero v = v ∷ xs
  set (x ∷ xs) (suc i) v = x ∷ set xs i v

  abbrev pub take : ℕ → List A → List A
  take zero xs = []
  take (suc n) [] = []
  take (suc n) (x ∷ xs) = x ∷ take n xs

  abbrev pub drop : ℕ → List A → List A
  drop zero xs = xs
  drop (suc n) [] = []
  drop (suc n) (x ∷ xs) = drop n xs

  abbrev pub All {κ} : (A → Type κ) → List A → Type κ
  All P [] = Unit
  All P (x ∷ xs) = P x × All P xs

  -- Membership in the set of a list's elements, `new Set(list).has(x)`.
  abbrev pub contains : Discrete A → A → List A → Bool
  contains dec a [] = false
  contains dec a (x ∷ xs) = ite (dec a x) true (contains dec a xs)

  abbrev pub Distinct : Discrete A → List A → Type 0
  Distinct dec [] = Unit
  Distinct dec (x ∷ xs) = (contains dec x xs ≡ false) × Distinct dec xs

module _ {ℓ} {A : Type ℓ} where
  pub length-append : (xs ys : List A) → length (xs ++ ys) ≡ length xs + length ys
  length-append [] ys = omega arith
  length-append (x ∷ xs) ys = omega (arith, length-append xs ys)

  pub length-set : (xs : List A) (i : ℕ) (v : A) → length (set xs i v) ≡ length xs
  length-set [] i v = refl
  length-set (x ∷ xs) zero v = refl
  length-set (x ∷ xs) (suc i) v = ap suc (length-set xs i v)

  pub set_self : (xs : List A) (i : ℕ) (v : A) → get_elem? xs i ≡ some v → set xs i v ≡ xs
  set_self [] i v h = refl
  set_self (x ∷ xs) zero v h = ground arith
  set_self (x ∷ xs) (suc i) v h = ap (◌∷◌ x) (set_self xs i v h)

  pub map-set {κ} :
      {B : Type κ} (f : A → B) (xs : List A) (i : ℕ) (v : A)
      → map f (set xs i v) ≡ set (map f xs) i (f v)
  map-set f [] i v = refl
  map-set f (x ∷ xs) zero v = refl
  map-set f (x ∷ xs) (suc i) v = ap (◌∷◌ (f x)) (map-set f xs i v)

  pub length-map {κ} : {B : Type κ} (f : A → B) (xs : List A) → length (map f xs) ≡ length xs
  length-map f [] = refl
  length-map f (x ∷ xs) = ap suc (length-map f xs)

  pub get_elem?-lt : (xs : List A) (i : ℕ) → i < length xs → (x : A) × (get_elem? xs i ≡ some x)
  get_elem?-lt [] i h = absurd (omega arith)
  get_elem?-lt (x ∷ xs) zero h = (x, refl)
  get_elem?-lt (x ∷ xs) (suc i) h = get_elem?-lt xs i (omega arith)

  pub lt-get_elem? : (xs : List A) (i : ℕ) (x : A) → get_elem? xs i ≡ some x → i < length xs
  lt-get_elem? [] i x h = cc
  lt-get_elem? (y ∷ xs) zero x h = omega arith
  lt-get_elem? (y ∷ xs) (suc i) x h = omega (arith, lt-get_elem? xs i x h)

  pub get_elem?-eq-none : (xs : List A) (i : ℕ) → length xs ≤ i → get_elem? xs i ≡ none
  get_elem?-eq-none [] i h = refl
  get_elem?-eq-none (x ∷ xs) zero h = absurd (omega arith)
  get_elem?-eq-none (x ∷ xs) (suc i) h = get_elem?-eq-none xs i (omega arith)

  pub get_elem?-map {κ} :
      {B : Type κ} (f : A → B) (xs : List A) (i : ℕ) (x : A)
      → get_elem? xs i ≡ some x
      → get_elem? (map f xs) i ≡ some (f x)
  get_elem?-map f [] i x h = cc
  get_elem?-map f (y ∷ xs) zero x h = ground arith
  get_elem?-map f (y ∷ xs) (suc i) x h = get_elem?-map f xs i x h

  pub get_elem?-map-none {κ} :
      {B : Type κ} (f : A → B) (xs : List A) (i : ℕ)
      → get_elem? xs i ≡ none
      → get_elem? (map f xs) i ≡ none
  get_elem?-map-none f [] i h = refl
  get_elem?-map-none f (y ∷ xs) zero h = cc
  get_elem?-map-none f (y ∷ xs) (suc i) h = get_elem?-map-none f xs i h

  -- Lists with the same elements at every index are equal.
  pub eq_of_get_elem? : (xs ys : List A) → ((i : ℕ) → get_elem? xs i ≡ get_elem? ys i) → xs ≡ ys
  eq_of_get_elem? [] [] h = refl
  eq_of_get_elem? [] (y ∷ ys) h = cc (h 0)
  eq_of_get_elem? (x ∷ xs) [] h = cc (h 0)
  eq_of_get_elem? (x ∷ xs) (y ∷ ys) h =
      let e : xs ≡ ys = eq_of_get_elem? xs ys (λ i. h (suc i)) in cc (h 0)

  pub take-append-drop : (n : ℕ) (xs : List A) → take n xs ++ drop n xs ≡ xs
  take-append-drop zero xs = refl
  take-append-drop (suc n) [] = refl
  take-append-drop (suc n) (x ∷ xs) = rw (take-append-drop n xs)

  pub length-take : (n : ℕ) (xs : List A) → n ≤ length xs → length (take n xs) ≡ n
  length-take zero xs h = omega arith
  length-take (suc n) [] h = absurd (omega arith)
  length-take (suc n) (x ∷ xs) h = omega (arith, length-take n xs)

-- The element at an index, and what follows it.
module _ {ℓ} {A : Type ℓ} where
  pub drop-suc :
      (i : ℕ) (xs : List A) (y : A) (ys : List A)
      → drop i xs ≡ y ∷ ys
      → (drop (suc i) xs ≡ ys) × (get_elem? xs i ≡ some y)
  drop-suc zero [] y ys h = cc
  drop-suc zero (x ∷ xs) y ys h = ground arith
  drop-suc (suc i) [] y ys h = cc
  drop-suc (suc i) (x ∷ xs) y ys h = drop-suc i xs y ys h

  pub drop-nil : (i : ℕ) (xs : List A) → drop i xs ≡ [] → get_elem? xs i ≡ none
  drop-nil zero [] h = refl
  drop-nil zero (x ∷ xs) h = cc
  drop-nil (suc i) [] h = refl
  drop-nil (suc i) (x ∷ xs) h = drop-nil i xs h

  pub contains-drop :
      (dec : Discrete A) (a : A) (i : ℕ) (xs : List A)
      → contains dec a (drop i xs) ≡ true
      → contains dec a xs ≡ true
  contains-drop dec a zero xs h = h
  contains-drop dec a (suc i) [] h = h
  contains-drop dec a (suc i) (x ∷ xs) h = ground (arith, contains-drop dec a i xs h)

module _ {ℓ} {A : Type ℓ} (dec : Discrete A) where
  pub contains-append :
      (a : A) (xs ys : List A)
      → contains dec a xs ≡ false
      → contains dec a ys ≡ false
      → contains dec a (xs ++ ys) ≡ false
  contains-append a [] ys h k = k
  contains-append a (x ∷ xs) ys h k = ground (arith, contains-append a xs ys)

  pub contains-append_split :
      (a : A) (xs ys : List A)
      → contains dec a (xs ++ ys) ≡ false
      → (contains dec a xs ≡ false) × (contains dec a ys ≡ false)
  contains-append_split a [] ys h = (refl, h)
  contains-append_split a (x ∷ xs) ys h = ground (arith, contains-append_split a xs ys)

  pub contains-get_elem? :
      (xs : List A) (i : ℕ) (x : A) → get_elem? xs i ≡ some x → contains dec x xs ≡ true
  contains-get_elem? [] i x h = cc
  contains-get_elem? (y ∷ xs) zero x h = ground arith
  contains-get_elem? (y ∷ xs) (suc i) x h = ground (arith, contains-get_elem? xs i x h)

  -- In a list without repetition an element of the second part is not in the first.
  pub Distinct-append :
      (a : A) (xs ys : List A)
      → Distinct dec (xs ++ ys)
      → contains dec a ys ≡ true
      → contains dec a xs ≡ false
  Distinct-append a [] ys d h = refl
  Distinct-append a (x ∷ xs) ys d h =
      ground (arith, Distinct-append a xs ys d.1 h, contains-append_split x xs ys d.0)

  pub Distinct-append_right : (xs ys : List A) → Distinct dec (xs ++ ys) → Distinct dec ys
  Distinct-append_right [] ys d = d
  Distinct-append_right (x ∷ xs) ys d = Distinct-append_right xs ys d.1

  -- An element that is in a list, and not in its second part, is in its first part.
  pub contains-append_left :
      (a : A) (xs ys : List A)
      → contains dec a (xs ++ ys) ≡ true
      → contains dec a ys ≡ false
      → contains dec a xs ≡ true
  contains-append_left a [] ys h k = cc
  contains-append_left a (x ∷ xs) ys h k = ground (arith, contains-append_left a xs ys)
