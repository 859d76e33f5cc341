-- ===== src/Normalizer/Fields.antt =====
-- The tables of worker/event_normalizer.py.
use tradejournal_mt5_cloud_w.Prelude.{String, Bool, ◌||◌, List, [], ◌∷◌, str_eq, if◌then◌else◌}

-- `_FINGERPRINT_FIELDS.get(event_type, ())`
unfoldable pub fingerprint_fields : String → List String
fingerprint_fields event_type =
    if str_eq event_type "trade_opened"
    then "symbol" ∷ "direction" ∷ "volume" ∷ "open_price" ∷ "stop_loss" ∷ "take_profit"
      ∷ "open_time" ∷ []
    else if str_eq event_type "trade_modified"
    then "stop_loss" ∷ "take_profit" ∷ "previous_stop_loss" ∷ "previous_take_profit" ∷ []
    else if str_eq event_type "trade_closed"
    then "native_deal_ticket" ∷ "time_msc" ∷ "volume" ∷ "close_price" ∷ "profit" ∷ "commission"
      ∷ "total_commission" ∷ "swap" ∷ "close_time" ∷ "mae_points" ∷ "mfe_points"
      ∷ "excursion_samples" ∷ []
    else if str_eq event_type "trade_partial_closed"
    then "native_deal_ticket" ∷ "time_msc" ∷ "volume" ∷ "close_price" ∷ "profit" ∷ "commission"
      ∷ "swap" ∷ "close_time" ∷ []
    else if str_eq event_type "pending_order_created"
    then "symbol" ∷ "direction" ∷ "volume" ∷ "price" ∷ "stop_loss" ∷ "take_profit" ∷ []
    else if str_eq event_type "pending_order_modified"
    then "price" ∷ "stop_loss" ∷ "take_profit" ∷ "previous_stop_loss" ∷ "previous_take_profit" ∷ []
    else if str_eq event_type "pending_order_cancelled"
    then "symbol" ∷ "direction" ∷ "volume" ∷ "price" ∷ []
    else if str_eq event_type "trade_volume_changed"
    then "volume" ∷ "previous_volume" ∷ "partial_close" ∷ []
    else if str_eq event_type "deal_recorded"
    then "position_ticket" ∷ "close_price" ∷ "profit" ∷ "commission" ∷ "swap" ∷ "close_time" ∷ []
    else []

-- `_NATIVE_DEAL_EVENTS`
unfoldable pub is_native_deal_event : String → Bool
is_native_deal_event event_type =
    str_eq event_type "trade_opened"
    || str_eq event_type "trade_volume_changed"
    || str_eq event_type "trade_partial_closed"
    || str_eq event_type "trade_closed"

unfoldable pub excursion_fields : List String
excursion_fields =
    "mae_price_delta" ∷ "mfe_price_delta" ∷ "mae_points" ∷ "mfe_points" ∷ "mae_money" ∷ "mfe_money"
    ∷ "mae_pct" ∷ "mfe_pct" ∷ "mae_at" ∷ "mfe_at" ∷ "excursion_samples" ∷ "excursion_sample_ms"
    ∷ "excursion_source" ∷ []
