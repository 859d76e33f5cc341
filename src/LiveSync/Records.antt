-- ===== src/LiveSync/Records.antt =====
-- windows_agent/worker/live_sync.py: `_mql5_file_event`, the raw event of one record of the bridge.
use tradejournal_mt5_cloud_w.Prelude.{
  ℕ, String, false, not, ◌||◌, Option, none, some, [], ◌∷◌, ◌++◌, str_eq, if◌then◌else◌,
}
use tradejournal_mt5_cloud_w.Prelude.Int.{pos}
use tradejournal_mt5_cloud_w.Prelude.Dict.{Dict, lookup, merge}
use tradejournal_mt5_cloud_w.Value.{Value, Row, get, is_some, or_else, null, bool, int, str}
use tradejournal_mt5_cloud_w.Value.Compare.{eq, lt}
use tradejournal_mt5_cloud_w.Value.Text.{to_str}
use tradejournal_mt5_cloud_w.LiveSync.Symbols.{upper_text}

-- `snapshot.get("positions", {}).get(ticket)`, which is null where there is none.
abbrev pub Positions : Type 0
Positions = Dict Row

-- The fields that each event of a record has.
unfoldable pub base : Value → Row → Row
base ticket record_ =
    ("ticket", ticket)
    ∷ ("symbol", get "symbol" record_)
    ∷ ("direction", get "direction" record_)
    ∷ ("volume", get "volume" record_)
    ∷ ("event_time", get "time" record_)
    ∷ ("balance", get "balance" record_)
    ∷ ("equity", get "equity" record_)
    ∷ ("currency", get "currency" record_)
    ∷ ("leverage", get "leverage" record_)
    ∷ []

-- `record.get("timestamp_msc")`, or `time_msc` where that is None
unfoldable pub time_msc : Row → Value
time_msc record_ =
    if is_some (get "timestamp_msc" record_)
    then get "timestamp_msc" record_
    else get "time_msc" record_

unfoldable pub deal_base : Value → Row → Row
unfolding base
deal_base ticket record_ =
    base ticket record_
    ++ ("native_deal_ticket", or_else (get "deal_id" record_) (get "ticket" record_))
      ∷ ("time_msc", time_msc record_)
      ∷ ("time_basis", str "broker_server_unresolved")
      ∷ []

-- What a deal costs and earns.
abbrev economics : Row → Row
economics record_ =
    ("profit", get "profit" record_)
    ∷ ("commission", get "commission" record_)
    ∷ ("swap", get "swap" record_)
    ∷ []

abbrev closing : Row → Row
closing record_ =
    ("close_price", get "price" record_) ∷ economics record_
    ++ ("close_time", get "time" record_) ∷ []

-- `{**base, "event_type": event_type, **rest}`
abbrev event_of : Row → String → Row → Row
event_of fields event_type rest = merge fields (("event_type", str event_type) ∷ rest)

unfoldable pub scaled_in : Row → Row → Row → Row → Row
scaled_in fields record_ before now = event_of fields "trade_volume_changed" (
    ("volume", get "volume" now)
      ∷ ("previous_volume", get "volume" before)
      ∷ ("open_price", get "open_price" now)
      ∷ economics record_
    ++ ("partial_close", bool false) ∷ [])

unfoldable pub opened : Row → Row → Row
opened fields record_ = event_of fields "trade_opened" (
    ("open_price", get "price" record_) ∷ economics record_
    ++ ("open_time", get "time" record_)
      ∷ ("balance_before_open", get "balance_before_open" record_)
      ∷ [])

-- A deal that enters: a scale-in of a position that stands on both sides, an opening otherwise.
unfoldable pub entered : Row → Row → Option Row → Option Row → Row
entered fields record_ (some before) (some now) = scaled_in fields record_ before now
entered fields record_ _ _ = opened fields record_

-- A deal that leaves: partial while the position still stands.
unfoldable pub left : Row → Row → Option Row → Row
left fields record_ (some now) = event_of fields "trade_partial_closed" (closing record_)
left fields record_ none = event_of fields "trade_closed" (closing record_)

abbrev pub recorded : Row → Row → Row
recorded fields record_ = event_of fields "deal_recorded" (closing record_)

-- `entry` is the upper-case text of the record's entry.
unfoldable pub deal_event : Row → Row → String → Option Row → Option Row → Row
deal_event fields record_ entry before now =
    if str_eq entry "IN"
    then entered fields record_ before now
    else if str_eq entry "OUT" || str_eq entry "OUT_BY"
    then left fields record_ now
    else recorded fields record_

-- `row.get("volume") or 0`
abbrev volume_or_zero : Row → Value
volume_or_zero row = or_else (get "volume" row) (int (pos 0))

abbrev field_of : String → Option Row → Value
field_of field none = null
field_of field (some row) = get field row

unfoldable pub modified : Row → Option Row → Row → Row
modified fields before now = event_of fields "trade_modified" (
    ("volume", get "volume" now)
    ∷ ("stop_loss", get "stop_loss" now)
    ∷ ("take_profit", get "take_profit" now)
    ∷ ("previous_stop_loss", field_of "stop_loss" before)
    ∷ ("previous_take_profit", field_of "take_profit" before)
    ∷ [])

-- A notification about a position that still stands.
unfoldable pub position_event : Row → Option Row → Row → Row
position_event fields none now = modified fields none now
position_event fields (some before) now =
    if not (eq (get "volume" before) (get "volume" now))
    then event_of fields "trade_volume_changed" (
        ("volume", get "volume" now)
        ∷ ("previous_volume", get "volume" before)
        ∷ ("partial_close", bool (lt (volume_or_zero now) (volume_or_zero before)))
        ∷ [])
    else modified fields (some before) now

abbrev stops : Row → Row
stops record_ =
    ("price", get "price" record_)
    ∷ ("stop_loss", get "stop_loss" record_)
    ∷ ("take_profit", get "take_profit" record_)
    ∷ []

-- The records that are neither deals nor about a standing position.
unfoldable pub order_event : Row → Row → String → Row
order_event fields record_ event_type =
    if str_eq event_type "ORDER_ADD"
    then event_of fields "pending_order_created" (stops record_)
    else if str_eq event_type "ORDER_UPDATE"
    then event_of fields "pending_order_modified" (stops record_)
    else if str_eq event_type "ORDER_DELETE" || str_eq event_type "HISTORY_ADD"
    then event_of fields "pending_order_cancelled" (("price", get "price" record_) ∷ [])
    else recorded fields record_

unfoldable pub other_event : Row → Row → String → Option Row → Option Row → Row
other_event fields record_ event_type before (some now) =
    if str_eq event_type "POSITION"
    then position_event fields before now
    else order_event fields record_ event_type
other_event fields record_ event_type before none = order_event fields record_ event_type

module _ (upper : String → String) (float_repr : ℕ → String) where
  -- `position_id` or `position_ticket`, else `order_id` or `ticket`, as text
  unfoldable pub ticket_text : Row → String
  ticket_text record_ = to_str float_repr (
      or_else (or_else (get "position_id" record_) (get "position_ticket" record_))
        (or_else (get "order_id" record_) (get "ticket" record_)))

  unfoldable pub mql5_file_event : Row → Positions → Positions → Row
  mql5_file_event record_ previous current =
      let ticket = ticket_text record_ in
      if str_eq (upper_text upper float_repr "event_type" record_) "DEAL_ADD"
      then deal_event (deal_base (str ticket) record_) record_
          (upper_text upper float_repr "entry" record_) (lookup ticket previous)
          (lookup ticket current)
      else other_event (base (str ticket) record_) record_
          (upper_text upper float_repr "event_type" record_) (lookup ticket previous)
          (lookup ticket current)
