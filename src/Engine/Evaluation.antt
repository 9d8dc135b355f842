-- ===== src/Engine/Evaluation.antt =====
-- The result of evaluating a query (packages/column-live-view-engine/src/query-result.ts): the
-- rows of the window in order, with their keys.
use view_server_smart.Shared.{ℕ, ◌≡◌, Bool, List, Distinct, Option, none, some, true, false, arith}
use view_server_smart.Shared.Arrays.{keys_of, rows_of}

pub record QueryEvaluation {ℓ} (K R : Type ℓ) : Type ℓ where
  pub rows : List R
  pub keys : List K
  pub window : List (K × R)
  pub total_rows : ℕ
  pub version : ℕ

-- The evaluations that the engine makes: `rows` and `keys` are those of `window`, and no key
-- stands twice.
pub record IsEvaluation {ℓ} {K R : Type ℓ} (dec : Discrete K) (e : QueryEvaluation K R)
    : Type ℓ where
  pub rows : e.rows ≡ rows_of e.window
  pub keys : e.keys ≡ keys_of e.window
  pub distinct : Distinct dec (keys_of e.window)

-- `a === undefined || !rowsEqual(a, b)`.
unfoldable pub row_differs {ℓ} : {R : Type ℓ} → (R → R → Bool) → Option R → R → Bool
row_differs rows_equal none row = true
row_differs rows_equal (some current) row = elim (rows_equal current row) [
  | true ↦ false
  | false ↦ true
]

pub row_differs-eq {ℓ} :
    {R : Type ℓ} (rows_equal : R → R → Bool) (current : Option R) (old row : R)
    → current ≡ some old
    → row_differs rows_equal current row ≡ false
    → rows_equal old row ≡ true
unfolding row_differs
row_differs-eq rows_equal current old row h k = ground arith
