-- ===== src/Tests/ExcursionsTests.antt =====
-- Runs of windows_agent/worker/excursion_tracker.py, and its theorem at concrete observations.
use tradejournal_mt5_cloud_w.Prelude.{
  ℕ, ◌≡◌, refl, String, Bool, false, true, Option, none, some, List, [], ◌∷◌, map, All,
}
use tradejournal_mt5_cloud_w.Prelude.Int.{◌+ℤ◌, ◌-ℤ◌}
use tradejournal_mt5_cloud_w.Prelude.Dict.{Dict, lookup, insert}
use tradejournal_mt5_cloud_w.Value.{Row, get, or_else, is_some, truthy, float, str}
use tradejournal_mt5_cloud_w.Value.Compare.{is_finite, lt, decode, is_negative, scale, real}
use tradejournal_mt5_cloud_w.Value.Float.{fneg, fsub, fmul, fadd, round, to_float}
use tradejournal_mt5_cloud_w.Value.Text.{to_str}
use tradejournal_mt5_cloud_w.Excursions.{
  fmax, or_zero, number, number_at, raise_to, set_points, set_money, observe_value, observe_prices,
  observe_snapshot, observe_position, set_known, state_of,
}
use tradejournal_mt5_cloud_w.Excursions.Peak.{IsPeak}
use tradejournal_mt5_cloud_w.Excursions.Extrema.{Observation, observe_values, observe_values-IsPeak}

abbrev same : String → String
same s = s

abbrev repr : ℕ → String
repr b = "0.1"

abbrev no_number : String → Option ℕ
no_number s = none

-- A gain of 1.0 with 10.0 of profit, after a loss of 0.5.
abbrev observations : List Observation
observations =
    record {
      favorable_delta = 0x3FF0000000000000;
      point = some 0x3FB999999999999A;
      profit = some 0x4024000000000000;
      observed_at = "T2";
    }
    ∷ record {
      favorable_delta = 0xBFE0000000000000;
      point = none;
      profit = none;
      observed_at = "T1";
    }
    ∷ []

observations-finite : All (λ o. is_finite (float o.favorable_delta) ≡ true) observations
unfolding is_finite
observations-finite = (refl, (refl, tt))

nothing_known : (key : String) → number_at same repr no_number key [] ≡ 0
unfolding number_at number get lookup or_zero to_float
nothing_known key = refl

observe_values-IsPeak_example :
    IsPeak
      (number_at same repr no_number "mfe_price_delta"
        (observe_values same repr no_number observations []))
      (map (λ o. o.favorable_delta) observations)
    × IsPeak
        (number_at same repr no_number "mae_price_delta"
          (observe_values same repr no_number observations []))
        (map (λ o. fneg o.favorable_delta) observations)
observe_values-IsPeak_example =
    observe_values-IsPeak same repr no_number observations [] (nothing_known "mfe_price_delta")
      (nothing_known "mae_price_delta") observations-finite

-- A short position that is sold at 1.0 and observed at 2.0.
abbrev short_position : Row
short_position =
    ("position_id", str "77")
    ∷ ("direction", str "sell")
    ∷ ("open_price", float 0x3FF0000000000000)
    ∷ ("current_price", float 0x4000000000000000)
    ∷ []

abbrev after_snapshot : Dict Row × Bool
after_snapshot = observe_snapshot same repr no_number "T1" (("5", short_position) ∷ []) ([], false)

short_loses :
    (after_snapshot.1 ≡ true)
    × (get "mae_price_delta" (state_of "77" after_snapshot.0) ≡ float 0x3FF0000000000000)
    × (get "mfe_price_delta" (state_of "77" after_snapshot.0) ≡ float 0)
unfolding observe_snapshot observe_position observe_prices observe_value set_known state_of number
    number_at raise_to set_points set_money get lookup insert or_else truthy to_str is_some or_zero
    fmax to_float is_finite lt fsub fmul fadd fneg decode is_negative round scale ◌+ℤ◌ ◌-ℤ◌ real
short_loses = (refl, refl, refl)
