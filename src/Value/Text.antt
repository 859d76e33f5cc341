-- ===== src/Value/Text.antt =====
-- Python's `str(value)`.
use Prim.Native.String.{◌++◌ as text_append}
use tradejournal_mt5_cloud_w.Prelude.{
  ℕ, zero, suc, ◌/◌, ◌%◌, String, ◌≡◌, refl, true, false, ◌==◌, if◌then◌else◌,
}
use tradejournal_mt5_cloud_w.Prelude.Int.{pos, negsuc}
use tradejournal_mt5_cloud_w.Value.{Value, null, bool, int, float, str}

-- The decimal digit of a number below ten.
digit : ℕ → String
digit n =
    if n == 0
    then "0"
    else if n == 1
    then "1"
    else if n == 2
    then "2"
    else if n == 3
    then "3"
    else if n == 4
    then "4"
    else if n == 5
    then "5"
    else if n == 6
    then "6"
    else if n == 7
    then "7"
    else if n == 8
    then "8"
    else "9"

-- A number has at most as many digits as its value plus one: the fuel is enough.
decimal_digits : ℕ → ℕ → String → String
unfolding digit
decimal_digits zero n acc = acc
decimal_digits (suc fuel) n acc =
    let rest = decimal_digits fuel (n / 10) (text_append (digit (n % 10)) acc) in
    if n / 10 == 0 then text_append (digit (n % 10)) acc else rest

unfoldable pub decimal : ℕ → String
unfolding decimal_digits
decimal n = decimal_digits (suc n) n ""

-- `str(v)`; the shortest decimal text of a float is the language's, and a parameter.
module _ (float_repr : ℕ → String) where
  unfoldable pub to_str : Value → String
  unfolding decimal
  to_str null = "None"
  to_str (bool true) = "True"
  to_str (bool false) = "False"
  to_str (int (pos n)) = decimal n
  to_str (int (negsuc n)) = text_append "-" (decimal (suc n))
  to_str (float b) = float_repr b
  to_str (str s) = s

to_str_tests : (decimal 0 ≡ "0") × (decimal 1042 ≡ "1042")
unfolding decimal
to_str_tests = (refl, refl)
