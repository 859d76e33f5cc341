-- ===== src/Value/Order.antt =====
-- The order of the floats: what `<` and the sign of a zero mean for Python's `max` and `>=`.
use tradejournal_mt5_cloud_w.Prelude.{
  ℕ, ◌/◌, ◌%◌, ◌^◌, ◌≡◌, refl, ◌∙◌, true, false, not, arith, ◌==◌,
}
use tradejournal_mt5_cloud_w.Prelude.Int.{ℤ, pos, negsuc, ◌-ℤ◌, ltb_ℤ}
use tradejournal_mt5_cloud_w.Value.{float, truthy}
use tradejournal_mt5_cloud_w.Value.Compare.{
  Real, nan, plus_inf, minus_inf, finite, decode, real, is_negative, lt_real, lt, is_finite_real,
  is_finite,
}
use tradejournal_mt5_cloud_w.Value.Float.{fneg}

ltb_ℤ_trans : (a b c : ℤ) → ltb_ℤ a b ≡ false → ltb_ℤ b c ≡ false → ltb_ℤ a c ≡ false
ltb_ℤ_trans (pos a) (pos b) (pos c) h k = ground arith
ltb_ℤ_trans (pos a) (pos b) (negsuc c) h k = ground arith
ltb_ℤ_trans (pos a) (negsuc b) (pos c) h k = ground arith
ltb_ℤ_trans (pos a) (negsuc b) (negsuc c) h k = ground arith
ltb_ℤ_trans (negsuc a) (pos b) (pos c) h k = ground arith
ltb_ℤ_trans (negsuc a) (pos b) (negsuc c) h k = ground arith
ltb_ℤ_trans (negsuc a) (negsuc b) (pos c) h k = ground arith
ltb_ℤ_trans (negsuc a) (negsuc b) (negsuc c) h k = ground arith

lt_real_trans :
    (a b c : Real)
    → is_finite_real b ≡ true
    → lt_real a b ≡ false
    → lt_real b c ≡ false
    → lt_real a c ≡ false
unfolding lt_real is_finite_real
lt_real_trans (finite a) (finite b) (finite c) f h k = ltb_ℤ_trans a b c h k
lt_real_trans (finite a) (finite b) plus_inf f h k = cc
lt_real_trans (finite a) (finite b) minus_inf f h k = refl
lt_real_trans (finite a) (finite b) nan f h k = refl
lt_real_trans minus_inf (finite b) c f h k = cc
lt_real_trans plus_inf (finite b) c f h k = refl
lt_real_trans nan (finite b) c f h k = refl
lt_real_trans a plus_inf c f h k = cc
lt_real_trans a minus_inf c f h k = cc
lt_real_trans a nan c f h k = cc

-- `<=` goes through a finite number.
pub lt_trans :
    (a b c : ℕ)
    → is_finite (float b) ≡ true
    → lt (float a) (float b) ≡ false
    → lt (float b) (float c) ≡ false
    → lt (float a) (float c) ≡ false
unfolding lt real is_finite
lt_trans a b c f h k = lt_real_trans (decode a) (decode b) (decode c) f h k

-- A float that is false is a zero.
decode-zero : (b : ℕ) → truthy (float b) ≡ false → decode b ≡ decode 0
unfolding decode truthy ◌-ℤ◌
decode-zero b h = ground arith

pub lt-zero_left :
    (b c : ℕ) → truthy (float b) ≡ false → lt (float b) (float c) ≡ lt (float 0) (float c)
unfolding lt real
lt-zero_left b c h = rw (decode-zero b h) refl

pub lt-zero_right :
    (b c : ℕ) → truthy (float b) ≡ false → lt (float c) (float b) ≡ lt (float c) (float 0)
unfolding lt real
lt-zero_right b c h = rw (decode-zero b h) refl

lt_real_irrefl : (a : Real) → lt_real a a ≡ false
unfolding lt_real
lt_real_irrefl (finite (pos a)) = ground arith
lt_real_irrefl (finite (negsuc a)) = ground arith
lt_real_irrefl plus_inf = refl
lt_real_irrefl minus_inf = refl
lt_real_irrefl nan = refl

pub lt_irrefl : (a : ℕ) → lt (float a) (float a) ≡ false
unfolding lt real
lt_irrefl a = lt_real_irrefl (decode a)

lt_real_asym : (a b : Real) → lt_real a b ≡ true → lt_real b a ≡ false
unfolding lt_real
lt_real_asym (finite (pos a)) (finite (pos b)) h = ground arith
lt_real_asym (finite (pos a)) (finite (negsuc b)) h = ground arith
lt_real_asym (finite (negsuc a)) (finite (pos b)) h = ground arith
lt_real_asym (finite (negsuc a)) (finite (negsuc b)) h = ground arith
lt_real_asym (finite a) plus_inf h = refl
lt_real_asym (finite a) minus_inf h = cc
lt_real_asym (finite a) nan h = cc
lt_real_asym plus_inf b h = cc
lt_real_asym minus_inf (finite b) h = refl
lt_real_asym minus_inf plus_inf h = refl
lt_real_asym minus_inf minus_inf h = cc
lt_real_asym minus_inf nan h = cc
lt_real_asym nan b h = cc

pub lt_asym : (a b : ℕ) → lt (float a) (float b) ≡ true → lt (float b) (float a) ≡ false
unfolding lt real
lt_asym a b h = lt_real_asym (decode a) (decode b) h

decode-not_finite : (b : ℕ) → is_finite_real (decode b) ≡ not (b / 2 ^ 52 % 2048 == 2047)
unfolding decode is_finite_real
decode-not_finite b = ground arith

fneg_exponent : (b : ℕ) → fneg b / 2 ^ 52 % 2048 ≡ b / 2 ^ 52 % 2048
unfolding fneg is_negative
fneg_exponent b = ground arith

pub is_finite-fneg : (b : ℕ) → is_finite (float (fneg b)) ≡ is_finite (float b)
unfolding is_finite real
is_finite-fneg b = decode-not_finite (fneg b) ∙ rw (fneg_exponent b) (rw (decode-not_finite b) refl)
