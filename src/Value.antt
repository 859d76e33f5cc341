-- ===== src/Value.antt =====
-- The values that a bridge row, an event or a payload holds: Python's None, bool, int, float and
-- str. A float is its binary64 pattern, so that `==`, `<` and truth are computed as Python does,
-- on the exact real value.
pub mod Compare
pub mod Float
pub mod Order
pub mod Text
pub mod Spaces
use tradejournal_mt5_cloud_w.Prelude.{
  ℕ, String, Bool, true, false, not, Option, none, some, List, [], ◌∷◌, ◌==◌, str_eq, ◌%◌, ◌^◌,
}
use tradejournal_mt5_cloud_w.Prelude.Int.{ℤ, pos, eq_ℤ}
use tradejournal_mt5_cloud_w.Prelude.Dict.{Dict, lookup}

pub data Value : Type 0 where
  null : Value
  bool : Bool → Value
  int : ℤ → Value
  float : ℕ → Value
  str : String → Value

-- An event, a row of a snapshot or a payload.
abbrev pub Row : Type 0
Row = Dict Value

or_null : Option Value → Value
or_null none = null
or_null (some v) = v

-- `row.get(field)`
unfoldable pub get : String → Row → Value
unfolding or_null lookup
get field row = or_null (lookup field row)

-- `value is not None`
unfoldable pub is_some : Value → Bool
is_some null = false
is_some _ = true

-- `bool(value)`: +0.0 and -0.0 are the false floats
unfoldable pub truthy : Value → Bool
truthy null = false
truthy (bool b) = b
truthy (int n) = not (eq_ℤ n (pos 0))
truthy (float b) = not (b % 2 ^ 63 == 0)
truthy (str s) = not (str_eq s "")

-- `a or b`
unfoldable pub or_else : Value → Value → Value
unfolding truthy
or_else a b = elim (truthy a) [ true ↦ a | false ↦ b ]
