-- ===== src/Value/Compare.antt =====
-- Python's `==` and `<` between the values. `bool`, `int` and `float` compare by their exact real
-- value, NaN is equal to nothing, and different kinds are never equal.
use tradejournal_mt5_cloud_w.Prelude.{
  ℕ, ◌+◌, ◌-◌, ◌*◌, ◌/◌, ◌%◌, ◌^◌, ◌≡◌, refl, Bool, true, false, Option, none, some, arith, ◌==◌,
  str_eq, eq_refl, if◌then◌else◌,
}
use tradejournal_mt5_cloud_w.Prelude.Int.{ℤ, pos, negsuc, ◌*ℤ◌, ◌-ℤ◌, eq_ℤ, ltb_ℤ}
use tradejournal_mt5_cloud_w.Value.{Value, null, bool, int, float, str}

-- The real value of a number, in units of 2^-1074, the smallest positive float.
pub data Real : Type 0 where
  nan plus_inf minus_inf : Real
  finite : ℤ → Real

exponent : ℕ → ℕ
exponent b = b / 2 ^ 52 % 2048

mantissa : ℕ → ℕ
mantissa b = b % 2 ^ 52

-- The sign bit
unfoldable pub is_negative : ℕ → Bool
is_negative b = b / 2 ^ 63 % 2 == 1

magnitude : ℕ → ℕ
unfolding exponent mantissa
magnitude b = if exponent b == 0 then mantissa b else (2 ^ 52 + mantissa b) * 2 ^ (exponent b - 1)

signed : Bool → ℕ → ℤ
signed negative m = if negative then pos 0 -ℤ pos m else pos m

unfoldable pub decode : ℕ → Real
unfolding exponent mantissa is_negative magnitude signed
decode b =
    if exponent b == 2047
    then if mantissa b == 0 then if is_negative b then minus_inf else plus_inf else nan
    else finite (signed (is_negative b) (magnitude b))

unfoldable pub scale : ℕ
scale = 2 ^ 1074

-- `none` is a value that is no number.
unfoldable pub real : Value → Option Real
unfolding decode scale
real null = none
real (bool b) = some (finite (pos (if b then scale else 0)))
real (int n) = some (finite (n *ℤ pos scale))
real (float b) = some (decode b)
real (str s) = none

eq_real : Real → Real → Bool
eq_real (finite a) (finite b) = eq_ℤ a b
eq_real plus_inf plus_inf = true
eq_real minus_inf minus_inf = true
eq_real _ _ = false

unfoldable pub lt_real : Real → Real → Bool
lt_real (finite a) (finite b) = ltb_ℤ a b
lt_real (finite a) plus_inf = true
lt_real minus_inf (finite b) = true
lt_real minus_inf plus_inf = true
lt_real _ _ = false

eq_numbers : Option Real → Option Real → Bool
unfolding eq_real
eq_numbers (some a) (some b) = eq_real a b
eq_numbers _ _ = false

-- `v == w`
unfoldable pub eq : Value → Value → Bool
unfolding eq_numbers real
eq null null = true
eq null w = false
eq (str s) (str t) = str_eq s t
eq (str s) w = false
eq v w = eq_numbers (real v) (real w)

lt_numbers : Option Real → Option Real → Bool
unfolding lt_real
lt_numbers (some a) (some b) = lt_real a b
lt_numbers _ _ = false

-- `v < w` between two numbers; where Python would raise a TypeError the model says false
unfoldable pub lt : Value → Value → Bool
unfolding lt_numbers real
lt v w = lt_numbers (real v) (real w)

is_nan : Real → Bool
is_nan nan = true
is_nan _ = false

-- A float that is not a number: exponent all ones, mantissa not zero.
unfoldable pub is_nan_value : Value → Bool
unfolding is_nan decode
is_nan_value (float b) = is_nan (decode b)
is_nan_value _ = false

unfoldable pub is_finite_real : Real → Bool
is_finite_real (finite a) = true
is_finite_real _ = false

is_finite_or_none : Option Real → Bool
unfolding is_finite_real
is_finite_or_none none = false
is_finite_or_none (some r) = is_finite_real r

-- `math.isfinite(v)` of a number
unfoldable pub is_finite : Value → Bool
unfolding is_finite_or_none real
is_finite v = is_finite_or_none (real v)

eq_real_refl : (a : Real) → is_nan a ≡ false → eq_real a a ≡ true
unfolding eq_real is_nan
eq_real_refl nan h = cc
eq_real_refl plus_inf h = refl
eq_real_refl minus_inf h = refl
eq_real_refl (finite a) h = ground arith

-- Every value but NaN is equal to itself.
pub eq_self : (v : Value) → is_nan_value v ≡ false → eq v v ≡ true
unfolding eq is_nan
eq_self null h = refl
eq_self (str s) h = eq_refl s
eq_self (bool b) h = eq_real_refl (finite (pos (if b then scale else 0))) refl
eq_self (int n) h = eq_real_refl (finite (n *ℤ pos scale)) refl
eq_self (float b) h = unfold is_nan_value in eq_real_refl (decode b) h

-- `1 == 1.0 == True`, and NaN is not equal to itself.
eq_tests :
    (eq (int (pos 1)) (float 0x3FF0000000000000) ≡ true)
    × (eq (bool true) (float 0x3FF0000000000000) ≡ true)
    × (eq (float 0x8000000000000000) (int (pos 0)) ≡ true)
    × (eq (float 0x7FF8000000000000) (float 0x7FF8000000000000) ≡ false)
    × (lt (float 0xBFF8000000000000) (int (negsuc 0)) ≡ true)
unfolding eq lt ◌*ℤ◌ ◌-ℤ◌
eq_tests = (refl, refl, refl, refl, refl)
