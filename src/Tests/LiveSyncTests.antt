-- ===== src/Tests/LiveSyncTests.antt =====
-- Runs of windows_agent/worker/live_sync.py, and its theorems at concrete records and snapshots.
use tradejournal_mt5_cloud_w.Prelude.{ℕ, ◌≡◌, refl, String, none, some, [], ◌∷◌, inl, Option}
use tradejournal_mt5_cloud_w.Prelude.Int.{pos, ◌*ℤ◌}
use tradejournal_mt5_cloud_w.Prelude.Dict.{lookup, insert, merge}
use tradejournal_mt5_cloud_w.Value.{Row, get, str, float, int, is_some, or_else, truthy}
use tradejournal_mt5_cloud_w.Value.Text.{to_str}
use tradejournal_mt5_cloud_w.Value.Compare.{eq, lt, is_finite, is_nan_value}
use tradejournal_mt5_cloud_w.Value.Spaces.{strip, has_control}
use tradejournal_mt5_cloud_w.Detector.{Snapshot}
use tradejournal_mt5_cloud_w.Detector.Quiet.{HasNoNan}
use tradejournal_mt5_cloud_w.Normalizer.{
  Result, ok, err, normalize_event, validate_event_preflight, is_usable_symbol, is_usable_direction,
  is_usable_volume, build_event_id, or_empty,
}
use tradejournal_mt5_cloud_w.LiveSync.Symbols.{upper_text}
use tradejournal_mt5_cloud_w.LiveSync.Records.{
  mql5_file_event, ticket_text, deal_event, entered, opened, deal_base,
}
use tradejournal_mt5_cloud_w.LiveSync.Replay.{Fill, mql5_file_event-same_id}
use tradejournal_mt5_cloud_w.LiveSync.Merge.{is_true, is_archived, merge_events}
use tradejournal_mt5_cloud_w.LiveSync.Echo.{IsExit, HasNoReduction, merge_events-no_reduction}
use tradejournal_mt5_cloud_w.LiveSync.Windows.{detect_windows_events, detect_windows_events_self}

abbrev repr : ℕ → String
repr b = "0.1"

abbrev upper : String → String
upper s = s

abbrev dumps : Row → String
dumps row = to_str repr (get "native_deal_ticket" row)

abbrev digest : String → String
digest s = s

-- An opening without its symbol, as the terminal may report it.
abbrev deal : Row
deal =
    ("event_type", str "DEAL_ADD")
    ∷ ("entry", str "IN")
    ∷ ("position_id", int (pos 77))
    ∷ ("deal_id", int (pos 9001))
    ∷ ("symbol", str "")
    ∷ ("direction", str "buy")
    ∷ ("volume", float 0x3FB999999999999A)
    ∷ []

abbrev position : Row
position = ("symbol", str "EURUSD") ∷ ("volume", float 0x3FB999999999999A) ∷ []

abbrev nothing : Snapshot
nothing = record { positions = []; orders = []; deals = [] }

abbrev now_open : Snapshot
now_open = record { positions = ("77", position) ∷ []; orders = []; deals = [] }

abbrev resolved : Row
resolved = ("symbol", str "EURUSD") ∷ deal

-- The same fill, reported again with its commission.
abbrev corrected : Row
corrected = ("commission", int (pos 3)) ∷ resolved

payload_of : Result Row → Row
payload_of (ok payload) = payload
payload_of (err e) = []

payload_at : String → Row → Row
payload_at now record_ = payload_of (
    normalize_event repr dumps digest now
      (mql5_file_event upper repr record_ nothing.positions now_open.positions) (some "1") none
      "mt5")

now_open-HasNoNan : HasNoNan now_open
unfolding is_nan_value
now_open-HasNoNan = record { of_positions = ((refl, (refl, tt)), tt); of_orders = tt }

detect_windows_events_self_example : detect_windows_events repr now_open now_open ≡ []
detect_windows_events_self_example = detect_windows_events_self repr now_open now_open-HasNoNan

resolved-ok :
    normalize_event repr dumps digest "T0"
      (mql5_file_event upper repr resolved nothing.positions now_open.positions)
      (some "1")
      none
      "mt5"
    ≡ ok (payload_at "T0" resolved)
unfolding normalize_event payload_at payload_of validate_event_preflight is_usable_symbol
    is_usable_direction is_usable_volume eq get strip has_control is_finite lt ◌*ℤ◌ build_event_id
    insert mql5_file_event upper_text to_str or_empty deal_event entered opened merge deal_base
resolved-ok = refl

corrected-ok :
    normalize_event repr dumps digest "T1"
      (mql5_file_event upper repr corrected nothing.positions now_open.positions)
      (some "1")
      none
      "mt5"
    ≡ ok (payload_at "T1" corrected)
unfolding normalize_event payload_at payload_of validate_event_preflight is_usable_symbol
    is_usable_direction is_usable_volume eq get strip has_control is_finite lt ◌*ℤ◌ build_event_id
    insert mql5_file_event upper_text to_str or_empty deal_event entered opened merge deal_base
corrected-ok = refl

resolved-Fill : Fill upper repr resolved "77" "IN"
unfolding upper_text ticket_text get lookup to_str or_empty truthy or_else
resolved-Fill = record { is_deal = refl; entry_is = refl; ticket_is = refl }

corrected-Fill : Fill upper repr corrected "77" "IN"
unfolding upper_text ticket_text get lookup to_str or_empty truthy or_else
corrected-Fill = record { is_deal = refl; entry_is = refl; ticket_is = refl }

mql5_file_event-same_id_example :
    get "event_id" (payload_at "T0" resolved) ≡ get "event_id" (payload_at "T1" corrected)
unfolding get lookup or_else is_some
mql5_file_event-same_id_example =
    mql5_file_event-same_id upper repr dumps digest "T0" "T1" (some "1") none none "mt5" "77" "IN"
      resolved corrected (payload_at "T0" resolved) (payload_at "T1" corrected) nothing.positions
      now_open.positions refl resolved-Fill corrected-Fill refl refl resolved-ok corrected-ok

-- The fill that closes half of the position, while the snapshots show its volume fall.
abbrev exit_deal : Row
exit_deal =
    ("event_type", str "DEAL_ADD")
    ∷ ("entry", str "OUT")
    ∷ ("position_id", int (pos 77))
    ∷ ("deal_id", int (pos 9002))
    ∷ ("symbol", str "EURUSD")
    ∷ ("direction", str "sell")
    ∷ ("volume", float 0x3FA999999999999A)
    ∷ []

abbrev half_open : Snapshot
half_open = record {
  positions = ("77", ("symbol", str "EURUSD") ∷ ("volume", float 0x3FA999999999999A) ∷ []) ∷ [];
  orders = [];
  deals = [];
}

abbrev no_number : String → Option ℕ
no_number s = none

exit_deal-IsExit : IsExit upper repr exit_deal "77"
unfolding upper_text ticket_text get lookup to_str or_empty truthy or_else is_archived is_true
exit_deal-IsExit = record {
  is_live = refl;
  entry = "OUT";
  is_exit = inl refl;
  fill = record { is_deal = refl; entry_is = refl; ticket_is = refl };
}

merge_events-no_reduction_example :
    HasNoReduction upper repr no_number "77"
      (merge_events upper repr no_number (exit_deal ∷ []) now_open half_open)
merge_events-no_reduction_example =
    merge_events-no_reduction upper repr no_number [] exit_deal [] "77" now_open half_open
      exit_deal-IsExit
