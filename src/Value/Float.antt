-- ===== src/Value/Float.antt =====
-- Python's arithmetic of floats: the exact result, rounded to the nearest binary64, ties to even.
-- A magnitude is in units of 2^-1074, the smallest positive float.
use tradejournal_mt5_cloud_w.Prelude.{
  ℕ, zero, suc, ◌+◌, ◌-◌, ◌*◌, ◌/◌, ◌%◌, ◌^◌, ◌≡◌, refl, Bool, true, false, ◌&&◌, ◌||◌, Option,
  none, some, ltb, leb, ◌==◌, if◌then◌else◌, String,
}
use tradejournal_mt5_cloud_w.Prelude.Int.{ℤ, pos, negsuc, ◌+ℤ◌, ◌-ℤ◌}
use tradejournal_mt5_cloud_w.Value.{Value, null, bool, int, float, str}
use tradejournal_mt5_cloud_w.Value.Compare.{
  Real, nan, plus_inf, minus_inf, finite, decode, is_negative, scale,
}

-- The number of binary digits. Each round halves the number, so the number itself is enough fuel.
bit_length_from : ℕ → ℕ → ℕ
bit_length_from zero n = 0
bit_length_from (suc fuel) n =
    let longer = suc (bit_length_from fuel (n / 2)) in if n == 0 then 0 else longer

bit_length : ℕ → ℕ
unfolding bit_length_from
bit_length n = bit_length_from (suc n) n

infinity : ℕ
infinity = 2047 * 2 ^ 52

-- The nearest pattern of a magnitude `num / den` with `shift` binary digits of its whole part
-- dropped. The exponent's field and the leading digit add up, so that a carry needs no case.
nearest : ℕ → ℕ → ℕ → ℕ
unfolding infinity
nearest shift num den =
    let unit = den * 2 ^ shift in
    let q = num / unit in
    let twice = 2 * (num % unit) in
    let up = ltb unit twice || (unit == twice && q % 2 == 1) in
    let bits = shift * 2 ^ 52 + (if up then q + 1 else q) in
    if leb infinity bits then infinity else bits

-- The pattern of the magnitude `num / den`.
unfoldable pub round : ℕ → ℕ → ℕ
unfolding nearest bit_length
round num den = nearest (bit_length (num / den) - 53) num den

sign_bit : Bool → ℕ
sign_bit negative = if negative then 2 ^ 63 else 0

signed_bits : Bool → ℕ → ℕ
unfolding sign_bit
signed_bits negative magnitude = sign_bit negative + magnitude

nan_bits : ℕ
nan_bits = 0x7FF8000000000000

infinite : Bool → ℕ
unfolding signed_bits infinity
infinite negative = signed_bits negative infinity

magnitude_of : ℤ → ℕ
magnitude_of (pos n) = n
magnitude_of (negsuc n) = suc n

is_below_zero : ℤ → Bool
is_below_zero (pos n) = false
is_below_zero (negsuc n) = true

round_ℤ : ℤ → ℕ
unfolding signed_bits round magnitude_of is_below_zero
round_ℤ n = signed_bits (is_below_zero n) (round (magnitude_of n) 1)

-- The exact sum; a zero is negative only where both zeros are.
add_finite : Bool → ℤ → ℤ → ℕ
unfolding round_ℤ signed_bits
add_finite both_negative a b =
    if magnitude_of (a +ℤ b) == 0 then signed_bits both_negative 0 else round_ℤ (a +ℤ b)

add_real : Bool → Real → Real → ℕ
unfolding add_finite infinite nan_bits
add_real both_negative (finite a) (finite b) = add_finite both_negative a b
add_real both_negative nan _ = nan_bits
add_real both_negative _ nan = nan_bits
add_real both_negative plus_inf minus_inf = nan_bits
add_real both_negative minus_inf plus_inf = nan_bits
add_real both_negative plus_inf _ = infinite false
add_real both_negative minus_inf _ = infinite true
add_real both_negative (finite a) plus_inf = infinite false
add_real both_negative (finite a) minus_inf = infinite true

-- `a + b`
unfoldable pub fadd : ℕ → ℕ → ℕ
unfolding add_real
fadd a b = add_real (is_negative a && is_negative b) (decode a) (decode b)

-- `-a`
unfoldable pub fneg : ℕ → ℕ
fneg a = if is_negative a then a - 2 ^ 63 else a + 2 ^ 63

-- `a - b`
unfoldable pub fsub : ℕ → ℕ → ℕ
unfolding fadd fneg
fsub a b = fadd a (fneg b)

differ : Bool → Bool → Bool
differ true b = if b then false else true
differ false b = b

is_zero : Real → Bool
is_zero (finite (pos n)) = n == 0
is_zero _ = false

mul_real : Bool → Real → Real → ℕ
unfolding signed_bits infinite nan_bits magnitude_of is_zero scale
mul_real negative (finite a) (finite b) =
    signed_bits negative (round (magnitude_of a * magnitude_of b) scale)
mul_real negative nan _ = nan_bits
mul_real negative _ nan = nan_bits
mul_real negative a b = if is_zero a || is_zero b then nan_bits else infinite negative

-- `a * b`
unfoldable pub fmul : ℕ → ℕ → ℕ
unfolding mul_real differ
fmul a b = mul_real (differ (is_negative a) (is_negative b)) (decode a) (decode b)

div_real : Bool → Real → Real → ℕ
unfolding signed_bits infinite nan_bits magnitude_of scale
div_real negative (finite a) (finite b) =
    signed_bits negative (round (magnitude_of a * scale) (magnitude_of b))
div_real negative nan _ = nan_bits
div_real negative _ nan = nan_bits
div_real negative (finite a) _ = signed_bits negative 0
div_real negative _ (finite b) = infinite negative
div_real negative _ _ = nan_bits

-- `a / b`, for a `b` that is not zero: for a zero Python raises, and `none` stands for that
unfoldable pub fdiv : ℕ → ℕ → Option ℕ
unfolding div_real is_zero differ
fdiv a b =
    if is_zero (decode b)
    then none
    else some (div_real (differ (is_negative a) (is_negative b)) (decode a) (decode b))

float_of_ℤ : ℤ → Option ℕ
unfolding signed_bits magnitude_of is_below_zero scale infinity
float_of_ℤ n =
    let bits = round (magnitude_of n * scale) 1 in
    if bits == infinity then none else some (signed_bits (is_below_zero n) bits)

-- `float(value)`, where `none` is an exception: None and most texts raise one, and so does an int
-- beyond the largest float. The reading of a text is the language's, and a parameter.
module _ (parse_float : String → Option ℕ) where
  unfoldable pub to_float : Value → Option ℕ
  unfolding float_of_ℤ
  to_float null = none
  to_float (bool true) = some 0x3FF0000000000000
  to_float (bool false) = some 0
  to_float (int n) = float_of_ℤ n
  to_float (float b) = some b
  to_float (str s) = parse_float s

-- 0.1 + 0.2 = 0.30000000000000004, 1.0 - 0.9 = 0.09999999999999998, 0.1 * 3.0, 1.0 / 3.0, the
-- largest float doubled, and -0.0 + 0.0.
float_tests :
    (fadd 0x3FB999999999999A 0x3FC999999999999A ≡ 0x3FD3333333333334)
    × (fsub 0x3FF0000000000000 0x3FECCCCCCCCCCCCD ≡ 0x3FB9999999999998)
    × (fmul 0x3FB999999999999A 0x4008000000000000 ≡ 0x3FD3333333333334)
    × (fdiv 0x3FF0000000000000 0x4008000000000000 ≡ some 0x3FD5555555555555)
    × (fadd 0x7FEFFFFFFFFFFFFF 0x7FEFFFFFFFFFFFFF ≡ 0x7FF0000000000000)
    × (fadd 0x8000000000000000 0 ≡ 0)
unfolding fadd fsub fmul fdiv decode is_negative ◌+ℤ◌ round scale ◌-ℤ◌
float_tests = (refl, refl, refl, refl, refl, refl)
