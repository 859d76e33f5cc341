-- ===== src/Tests/DetectorTests.antt =====
-- Runs of worker/event_detector.py, and its theorems at concrete snapshots.
use mathlib.Core.List.{flat_map}
use tradejournal_mt5_cloud_w.Prelude.{ℕ, String, ◌≡◌, refl, [], ◌∷◌}
use tradejournal_mt5_cloud_w.Prelude.Dict.{contains, keys, elem}
use tradejournal_mt5_cloud_w.Prelude.Int.{pos, ◌*ℤ◌}
use tradejournal_mt5_cloud_w.Prelude.Sort.{sorted}
use tradejournal_mt5_cloud_w.Prelude.Count.{count}
use tradejournal_mt5_cloud_w.Value.{Row, get, int, str}
use tradejournal_mt5_cloud_w.Value.Compare.{eq}
use tradejournal_mt5_cloud_w.Value.Text.{to_str}
use tradejournal_mt5_cloud_w.Detector.{
  Snapshot, row_at, differs, opened_or_modified, closed, find_closing_deal,
  order_created_or_modified, order_cancelled, detect_events, opened_event, modified_event,
  closed_event,
}
use tradejournal_mt5_cloud_w.Detector.Rounds.{is_event}
use tradejournal_mt5_cloud_w.Detector.Exact.{
  expected, IsSnapshot, count-detect_events, trade_modified,
}

abbrev no_floats : ℕ → String
no_floats b = "float"

abbrev position : ℕ → ℕ → Row
position sl tp =
    ("symbol", str "EURUSD") ∷ ("stop_loss", int (pos sl)) ∷ ("take_profit", int (pos tp)) ∷ []

abbrev before : Snapshot
before = record {
  positions = ("7", position 10 20) ∷ ("5", position 1 2) ∷ [];
  orders = [];
  deals = [];
}

abbrev after : Snapshot
after = record {
  positions = ("9", position 0 0) ∷ ("7", position 11 21) ∷ [];
  orders = [];
  deals = ("1", ("position_ticket", int (pos 5)) ∷ ("profit", int (pos 3)) ∷ []) ∷ [];
}

-- A change of both levels is reported twice, by two equal events.
detect_before-after :
    detect_events no_floats before after
    ≡ modified_event "7" (position 11 21) (position 10 20)
      ∷ modified_event "7" (position 11 21) (position 10 20)
      ∷ opened_event "9" (position 0 0)
      ∷ closed_event "5"
          (position 1 2)
          (("position_ticket", int (pos 5)) ∷ ("profit", int (pos 3)) ∷ [])
      ∷ []
unfolding detect_events flat_map sorted keys opened_or_modified closed order_created_or_modified
    order_cancelled contains row_at differs find_closing_deal get to_str eq ◌*ℤ◌
detect_before-after = refl

before-IsSnapshot : IsSnapshot before
unfolding keys elem
before-IsSnapshot = record { distinct_positions = (refl, (refl, tt)); distinct_orders = tt }

after-IsSnapshot : IsSnapshot after
unfolding keys elem
after-IsSnapshot = record { distinct_positions = (refl, (refl, tt)); distinct_orders = tt }

count-detect_events_example :
    count (is_event "trade_modified" "7") (detect_events no_floats before after) ≡ 2
unfolding expected contains row_at differs get eq ◌*ℤ◌
count-detect_events_example =
    count-detect_events no_floats trade_modified "7" before after before-IsSnapshot after-IsSnapshot
