-- ===== src/Detector/Rows.antt =====
-- The event dictionaries that worker/event_detector.py builds, field by field.
use tradejournal_mt5_cloud_w.Prelude.{String, [], ◌∷◌, ◌++◌}
use tradejournal_mt5_cloud_w.Value.{Row, get, str}

unfoldable pub base_fields : Row → Row
unfolding get
base_fields item =
    ("symbol", get "symbol" item)
    ∷ ("direction", get "direction" item)
    ∷ ("volume", get "volume" item)
    ∷ []

unfoldable pub opened_event : String → Row → Row
unfolding get base_fields
opened_event ticket pos =
    ("event_type", str "trade_opened") ∷ ("ticket", str ticket) ∷ base_fields pos
    ++ (("open_price", get "open_price" pos)
        ∷ ("stop_loss", get "stop_loss" pos)
        ∷ ("take_profit", get "take_profit" pos)
        ∷ ("open_time", get "open_time" pos)
        ∷ [])

unfoldable pub modified_event : String → Row → Row → Row
unfolding get base_fields
modified_event ticket pos prev_pos =
    ("event_type", str "trade_modified") ∷ ("ticket", str ticket) ∷ base_fields pos
    ++ (("stop_loss", get "stop_loss" pos)
        ∷ ("take_profit", get "take_profit" pos)
        ∷ ("previous_stop_loss", get "stop_loss" prev_pos)
        ∷ ("previous_take_profit", get "take_profit" prev_pos)
        ∷ [])

unfoldable pub closed_event : String → Row → Row → Row
unfolding get base_fields
closed_event ticket pos deal =
    ("event_type", str "trade_closed") ∷ ("ticket", str ticket) ∷ base_fields pos
    ++ (("open_price", get "open_price" pos)
        ∷ ("close_price", get "close_price" deal)
        ∷ ("profit", get "profit" deal)
        ∷ ("commission", get "commission" deal)
        ∷ ("swap", get "swap" deal)
        ∷ ("close_time", get "close_time" deal)
        ∷ [])

unfoldable pub order_created_event : String → Row → Row
unfolding get base_fields
order_created_event ticket order =
    ("event_type", str "pending_order_created") ∷ ("ticket", str ticket) ∷ base_fields order
    ++ (("price", get "price" order)
        ∷ ("stop_loss", get "stop_loss" order)
        ∷ ("take_profit", get "take_profit" order)
        ∷ [])

unfoldable pub order_modified_event : String → Row → Row → Row
unfolding get base_fields
order_modified_event ticket order prev_order =
    ("event_type", str "pending_order_modified") ∷ ("ticket", str ticket) ∷ base_fields order
    ++ (("price", get "price" order)
        ∷ ("stop_loss", get "stop_loss" order)
        ∷ ("take_profit", get "take_profit" order)
        ∷ ("previous_stop_loss", get "stop_loss" prev_order)
        ∷ ("previous_take_profit", get "take_profit" prev_order)
        ∷ [])

unfoldable pub order_cancelled_event : String → Row → Row
unfolding get base_fields
order_cancelled_event ticket order =
    ("event_type", str "pending_order_cancelled") ∷ ("ticket", str ticket) ∷ base_fields order
    ++ (("price", get "price" order)
        ∷ ("stop_loss", get "stop_loss" order)
        ∷ ("take_profit", get "take_profit" order)
        ∷ [])
