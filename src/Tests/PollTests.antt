-- ===== src/Tests/PollTests.antt =====
-- Runs of `LiveSync.poll_once` of windows_agent/worker/live_sync.py, and its theorems at a concrete
-- poll: the position 77 is new, without a record of the bridge.
use tradejournal_mt5_cloud_w.Prelude.{
  ℕ, refl, String, true, false, Option, none, some, [], ◌∷◌, ◌⊎◌, inl,
}
use tradejournal_mt5_cloud_w.Value.{Row, str, float}
use tradejournal_mt5_cloud_w.Detector.{Snapshot}
use tradejournal_mt5_cloud_w.Outbox.{published}
use tradejournal_mt5_cloud_w.LiveSync.Poll.{callable, Environment, Sync, poll_once}
use tradejournal_mt5_cloud_w.LiveSync.Poll.Durable.{IsUnread}
use tradejournal_mt5_cloud_w.LiveSync.Poll.Safe.{IsAdvanced, poll_once-IsAdvanced}

abbrev repr : ℕ → String
repr b = "0.1"

abbrev same : String → String
same s = s

abbrev no_number : String → Option ℕ
no_number s = none

abbrev dumps : Row → String
dumps row = "row"

abbrev position : Row
position =
    ("symbol", str "EURUSD") ∷ ("direction", str "buy") ∷ ("volume", float 0x3FB999999999999A) ∷ []

abbrev nothing : Snapshot
nothing = record { positions = []; orders = []; deals = [] }

abbrev now_open : Snapshot
now_open = record { positions = ("77", position) ∷ []; orders = []; deals = [] }

abbrev at_start : Sync
at_start = record {
  outbox = record {
    has_file = false;
    state = record { pending = []; dead_letter = [] };
    file = none;
  };
  saved = nothing;
  positions = [];
  delivered = [];
  acknowledged = none;
}

abbrev healthy : Environment
healthy = record {
  now = "T1";
  generated_at = "T0";
  account = some ("1", "Demo");
  snapshot = some now_open;
  records = some [];
  sequence = λ row. none;
  saves_opened = true;
  saves_observed = true;
  saves_discarded = true;
  enqueue_write = published;
  acknowledge = none;
  save_write = published;
  sink_before = callable (λ n payload. true);
  sink_after = callable (λ n payload. true);
  write_before = λ n. published;
  write_after = λ n. published;
  commits = λ n. true;
}

abbrev after : Sync
after = (poll_once same same repr no_number dumps same 2000 healthy at_start).1

poll_once-IsAdvanced_example :
    IsUnread at_start after
    ⊎ IsAdvanced same same repr no_number dumps same 2000 healthy at_start after
poll_once-IsAdvanced_example =
    poll_once-IsAdvanced same same repr no_number dumps same 2000 healthy at_start (inl refl)
