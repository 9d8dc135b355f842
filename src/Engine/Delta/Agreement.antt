-- ===== src/Engine/Delta/Agreement.antt =====
-- When a list of entries shows an evaluation: the same keys in the same order, and each row is the
-- row of the evaluation or one that `rowsEqual` cannot tell from it.
use view_server_smart.Shared.{◌≡◌, refl, ◌⊎◌, Bool, true, List, [], ◌∷◌}
use view_server_smart.Shared.Arrays.{keys_of}

module _ {R : Type 0} (rows_equal : R → R → Bool) where
  abbrev pub Interchangeable : R → R → Type 0
  Interchangeable shown row = (shown ≡ row) ⊎ (rows_equal shown row ≡ true)

module _ {K R : Type 0} (rows_equal : R → R → Bool) where
  abbrev pub Agrees : List (K × R) → List (K × R) → Type 0
  Agrees [] [] = Unit
  Agrees [] (e ∷ window) = ⊥
  Agrees (s ∷ shown) [] = ⊥
  Agrees (s ∷ shown) (e ∷ window) =
      (s.0 ≡ e.0) × Interchangeable rows_equal s.1 e.1 × Agrees shown window

  pub Agrees-keys :
      (shown window : List (K × R)) → Agrees shown window → keys_of shown ≡ keys_of window
  Agrees-keys [] [] h = refl
  Agrees-keys [] (e ∷ window) h = elim h [ ]
  Agrees-keys (s ∷ shown) [] h = elim h [ ]
  Agrees-keys (s ∷ shown) (e ∷ window) h = λ i. h.0 i ∷ Agrees-keys shown window h.2 i
