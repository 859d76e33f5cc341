-- ===== src/Detector.antt =====
-- worker/event_detector.py: the events between two snapshots of the account. A snapshot has the
-- shape that the module's doc states, dictionaries of rows by ticket; a loop over sorted keys that
-- appends to `events` is a `flat_map` whose body returns what the round appends.
pub mod Exact
pub mod Quiet
mod Rows
pub mod Rounds
pub use Rows.{
  opened_event, modified_event, closed_event, order_created_event, order_modified_event,
  order_cancelled_event,
}
use mathlib.Core.List.{flat_map}
use tradejournal_mt5_cloud_w.Prelude.{
  ℕ, String, Bool, true, false, not, ◌||◌, Option, none, some, List, [], ◌∷◌, ◌++◌, str_eq,
  if◌then◌else◌,
}
use tradejournal_mt5_cloud_w.Prelude.Dict.{Dict, lookup, contains, keys}
use tradejournal_mt5_cloud_w.Prelude.Sort.{sorted}
use tradejournal_mt5_cloud_w.Value.{Row, get, null, str}
use tradejournal_mt5_cloud_w.Value.Compare.{eq}
use tradejournal_mt5_cloud_w.Value.Text.{to_str}

pub record Snapshot : Type 0 where
  pub positions : Dict Row
  pub orders : Dict Row
  pub deals : Dict Row

-- `rows[ticket]`, for a ticket that is known to be there
row_of : Option Row → Row
row_of none = []
row_of (some r) = r

unfoldable pub row_at : String → Dict Row → Row
unfolding row_of lookup
row_at ticket rows = row_of (lookup ticket rows)

-- `a.get(field) != b.get(field)`
unfoldable pub differs : String → Row → Row → Bool
unfolding get
differs field a b = not (eq (get field a) (get field b))

-- The round for one ticket of `_detect_trade_opened_and_modified`: the stop loss and the take
-- profit are tested one after the other, and each difference appends an event.
unfoldable pub opened_or_modified : Snapshot → Snapshot → String → List Row
opened_or_modified previous current ticket =
    let pos = row_at ticket current.positions in
    let prev_pos = row_at ticket previous.positions in
    if not (contains ticket previous.positions)
    then opened_event ticket pos ∷ []
    else (if differs "stop_loss" pos prev_pos then modified_event ticket pos prev_pos ∷ [] else [])
      ++ (if differs "take_profit" pos prev_pos
          then modified_event ticket pos prev_pos ∷ []
          else [])

unfoldable pub detect_trade_opened_and_modified : Snapshot → Snapshot → List Row
detect_trade_opened_and_modified previous current =
    flat_map (opened_or_modified previous current) (sorted (keys current.positions))

module _ (float_repr : ℕ → String) where
  -- The first deal, in the order of the dictionary, that names the position; `{}` if none does.
  unfoldable pub find_closing_deal : Dict Row → String → Row
  find_closing_deal [] ticket = []
  find_closing_deal ((_, deal) ∷ deals) ticket =
      if str_eq (to_str float_repr (get "position_ticket" deal)) ticket
      then deal
      else find_closing_deal deals ticket

  unfoldable pub closed : Snapshot → Snapshot → String → List Row
  closed previous current ticket =
      if contains ticket current.positions
      then []
      else closed_event ticket (row_at ticket previous.positions)
          (find_closing_deal current.deals ticket)
        ∷ []

  unfoldable pub detect_trade_closed : Snapshot → Snapshot → List Row
  detect_trade_closed previous current =
      flat_map (closed previous current) (sorted (keys previous.positions))

unfoldable pub order_changed : Row → Row → Bool
order_changed order prev_order =
    differs "price" order prev_order
    || differs "stop_loss" order prev_order
    || differs "take_profit" order prev_order

unfoldable pub order_created_or_modified : Snapshot → Snapshot → String → List Row
order_created_or_modified previous current ticket =
    let order = row_at ticket current.orders in
    let prev_order = row_at ticket previous.orders in
    if not (contains ticket previous.orders)
    then order_created_event ticket order ∷ []
    else if order_changed order prev_order
    then order_modified_event ticket order prev_order ∷ []
    else []

-- A ticket that became a position is an execution, which is no event of its own.
unfoldable pub order_cancelled : Snapshot → Snapshot → String → List Row
order_cancelled previous current ticket =
    if contains ticket current.orders
    then []
    else if contains ticket current.positions
    then []
    else order_cancelled_event ticket (row_at ticket previous.orders) ∷ []

unfoldable pub detect_pending_order_events : Snapshot → Snapshot → List Row
detect_pending_order_events previous current =
    flat_map (order_created_or_modified previous current) (sorted (keys current.orders))
    ++ flat_map (order_cancelled previous current) (sorted (keys previous.orders))

unfoldable pub detect_events : (ℕ → String) → Snapshot → Snapshot → List Row
unfolding detect_trade_opened_and_modified detect_trade_closed detect_pending_order_events
detect_events float_repr previous current =
    detect_trade_opened_and_modified previous current
    ++ (detect_trade_closed float_repr previous current
        ++ detect_pending_order_events previous current)
