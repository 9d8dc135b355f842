-- ===== src/Protocol/Number.antt =====
-- The numbers of an event as they come off the wire, and `Number.isSafeInteger`.
use view_server_smart.Shared.{ℕ, Bool, false, leb}

-- `negative n` is -(n + 1); `fractional` is any number that is no integer, NaN and the infinities
-- included.
pub data JsNumber : Type 0 where
  natural : ℕ → JsNumber
  negative : ℕ → JsNumber
  fractional : JsNumber

-- `Number.MAX_SAFE_INTEGER`.
abbrev pub max_safe_integer : ℕ
max_safe_integer = 9_007_199_254_740_991

-- `Number.isSafeInteger(value) && value >= 0`.
unfoldable pub is_non_negative_safe_integer : JsNumber → Bool
is_non_negative_safe_integer (natural n) = leb n max_safe_integer
is_non_negative_safe_integer (negative n) = false
is_non_negative_safe_integer fractional = false

-- The value of a number that has passed the test above. Every use stands behind that test.
abbrev pub as_natural : JsNumber → ℕ
as_natural (natural n) = n
as_natural (negative n) = 0
as_natural fractional = 0
