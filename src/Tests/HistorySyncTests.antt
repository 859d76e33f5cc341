-- ===== src/Tests/HistorySyncTests.antt =====
-- Runs of windows_agent/worker/history_sync.py, and its theorem at a concrete interval.
use tradejournal_mt5_cloud_w.Prelude.{
  ◌*◌, ◌≡◌, refl, true, false, none, some, [], ◌∷◌, ◌==◌, arith, if◌then◌else◌,
}
use tradejournal_mt5_cloud_w.HistorySync.{
  from_date, new_only, from, refused, historical_timezone_unavailable, day, start_of, window_end,
  windows_from, windows,
}
use tradejournal_mt5_cloud_w.Value.{str}
use tradejournal_mt5_cloud_w.Outbox.{published}
use tradejournal_mt5_cloud_w.HistorySync.Run.{
  Run, Environment, run_import, import_windows, import_window, sink_both, sink_accounting, sink_all,
  write_checkpoint, next, through_of, items_of, bump,
}
use tradejournal_mt5_cloud_w.HistorySync.Resume.{IsResumable, import_windows-IsResumable}
use tradejournal_mt5_cloud_w.HistorySync.Round.{IsRead, IsAccountingRead, all_items}
use tradejournal_mt5_cloud_w.HistorySync.Finish.{run_import-finishes}
use tradejournal_mt5_cloud_w.HistorySync.Cover.{Covers, windows-Covers}

-- Twenty days in weeks.
three_windows :
    windows false 7 (20 * day) 0 ≡ (0, 7 * day) ∷ (7 * day, 14 * day) ∷ (14 * day, 20 * day) ∷ []
unfolding windows windows_from window_end
three_windows = refl

one_window : windows true 7 (20 * day) 0 ≡ (0, 20 * day) ∷ []
unfolding windows windows_from window_end
one_window = refl

windows-Covers_example : Covers false (20 * day) 0 (windows false 7 (20 * day) 0)
windows-Covers_example = windows-Covers false 7 (20 * day) 0

-- A date cannot be placed in time while the broker's clock is unknown.
unresolved : start_of true from_date (some 5) 9 none ≡ refused historical_timezone_unavailable
unfolding start_of
unresolved = refl

-- Without a checkpoint, new_only starts now.
fresh_start : start_of true new_only none 9 none ≡ from 9
unfolding start_of
fresh_start = refl

-- Two windows of which the second cannot be read.
abbrev env : Environment
env = record {
  history_orders = λ window. some [];
  history_deals = λ window. if window.0 == 0 then some ((("ticket", str "1") ∷ []) ∷ []) else none;
  history_accounting_deals = none;
  takes = λ n. true;
  write = λ end. published;
}

abbrev at_start : Run
at_start = record {
  sunk = [];
  counts = record { orders_count = 0; deals_count = 0; accounting_count = 0 };
  checkpoint = none;
}

import_windows-IsResumable_example :
    IsResumable env
      ((0, 5) ∷ (5, 9) ∷ [])
      at_start
      (import_windows env ((0, 5) ∷ (5, 9) ∷ []) at_start)
import_windows-IsResumable_example = import_windows-IsResumable env ((0, 5) ∷ (5, 9) ∷ []) at_start

stopped_at_five :
    through_of (import_windows env ((0, 5) ∷ (5, 9) ∷ []) at_start).1.checkpoint ≡ some 5
unfolding import_windows import_window sink_both sink_accounting sink_all write_checkpoint next
    through_of items_of bump
stopped_at_five = refl

-- Ten days in weeks, each with a deal.
abbrev whole : Environment
whole = record env { history_deals = λ window. some ((("ticket", str "1") ∷ []) ∷ []) }

run_import-finishes_example :
    let step = run_import whole false false from_date (some 0) 7 (10 * day) none in
    (step.0 ≡ true)
    × (through_of step.1.checkpoint ≡ some (10 * day))
    × (step.1.sunk ≡ all_items whole (windows false 7 (10 * day) 0))
unfolding start_of windows windows_from window_end IsRead IsAccountingRead
run_import-finishes_example =
    run_import-finishes whole (λ n. refl) false false from_date (some 0) 7 (10 * day) none 0 refl
      (omega arith) ((((_, refl), (_, refl)), tt), ((((_, refl), (_, refl)), tt), tt))
      (refl, (refl, tt))
