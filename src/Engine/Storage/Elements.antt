-- ===== src/Engine/Storage/Elements.antt =====
-- Elements of a list after a write, an append and a pop.
use view_server_smart.Shared.{
  ℕ, zero, suc, ◌+◌, ◌-◌, ◌<◌, ◌≡◌, ◌≢◌, refl, ap, some, List, [], ◌∷◌, ◌++◌, arith, length,
  get_elem?, set,
}
use view_server_smart.Engine.Storage.{pop}

module _ {A : Type 0} where
  pub get_elem?-set-same :
      (xs : List A) (i : ℕ) (v : A) → i < length xs → get_elem? (set xs i v) i ≡ some v
  get_elem?-set-same [] i v lt = absurd (omega arith)
  get_elem?-set-same (x ∷ xs) zero v lt = refl
  get_elem?-set-same (x ∷ xs) (suc i) v lt = get_elem?-set-same xs i v (omega arith)

  pub get_elem?-set-other :
      (xs : List A) (i j : ℕ) (v : A) → i ≢ j → get_elem? (set xs i v) j ≡ get_elem? xs j
  get_elem?-set-other [] i j v n = refl
  get_elem?-set-other (x ∷ xs) zero zero v n = absurd (n refl)
  get_elem?-set-other (x ∷ xs) zero (suc j) v n = refl
  get_elem?-set-other (x ∷ xs) (suc i) zero v n = refl
  get_elem?-set-other (x ∷ xs) (suc i) (suc j) v n =
      get_elem?-set-other xs i j v (λ e. n (ap suc e))

  pub get_elem?-append-lt :
      (xs : List A) (x : A) (j : ℕ) → j < length xs → get_elem? (xs ++ x ∷ []) j ≡ get_elem? xs j
  get_elem?-append-lt [] x j lt = absurd (omega arith)
  get_elem?-append-lt (y ∷ xs) x zero lt = refl
  get_elem?-append-lt (y ∷ xs) x (suc j) lt = get_elem?-append-lt xs x j (omega arith)

  pub get_elem?-append-last : (xs : List A) (x : A) → get_elem? (xs ++ x ∷ []) (length xs) ≡ some x
  get_elem?-append-last [] x = refl
  get_elem?-append-last (y ∷ xs) x = get_elem?-append-last xs x

  pub get_elem?-pop :
      (xs : List A) (j : ℕ) → j + 1 < length xs → get_elem? (pop xs) j ≡ get_elem? xs j
  get_elem?-pop [] j lt = absurd (omega arith)
  get_elem?-pop (x ∷ []) j lt = absurd (omega arith)
  get_elem?-pop (x ∷ y ∷ ys) zero lt = refl
  get_elem?-pop (x ∷ y ∷ ys) (suc j) lt = get_elem?-pop (y ∷ ys) j (omega arith)

  pub length-pop : (xs : List A) → length (pop xs) ≡ length xs - 1
  length-pop [] = omega arith
  length-pop (x ∷ []) = omega arith
  length-pop (x ∷ y ∷ ys) = omega (arith, length-pop (y ∷ ys))
