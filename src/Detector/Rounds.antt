-- ===== src/Detector/Rounds.antt =====
-- worker/event_detector.py: what one round of each loop appends, counted by type and ticket.
use tradejournal_mt5_cloud_w.Prelude.{
  ℕ, ◌+◌, String, ◌≡◌, Bool, false, not, ◌&&◌, [], ◌∷◌, arith, str_eq, if◌then◌else◌,
}
use tradejournal_mt5_cloud_w.Prelude.Dict.{contains}
use tradejournal_mt5_cloud_w.Prelude.Count.{count, count-append, count-if, count-nil}
use tradejournal_mt5_cloud_w.Value.{Value, Row, get, str}
use tradejournal_mt5_cloud_w.Detector.Rows.{
  opened_event, modified_event, closed_event, order_created_event, order_modified_event,
  order_cancelled_event,
}
use tradejournal_mt5_cloud_w.Detector.{
  Snapshot, row_at, differs, opened_or_modified, closed, find_closing_deal, order_changed,
  order_created_or_modified, order_cancelled,
}

abbrev pub is_text : Value → String → Bool
is_text (str s) t = str_eq s t
is_text _ t = false

-- The event has this type and this ticket.
unfoldable pub is_event : String → String → Row → Bool
unfolding get
is_event kind ticket row = is_text (get "event_type" row) kind && is_text (get "ticket" row) ticket

abbrev pub once : Bool → ℕ
once b = if b then 1 else 0

-- The type and the ticket decide whether one constructed event is counted.
module _ (kind ticket j : String) where
  abbrev pub hit : String → ℕ
  hit type = once (str_eq type kind && str_eq j ticket)

  module _ (a b c : Row) where
    one_opened : count (is_event kind ticket) (opened_event j a ∷ []) ≡ hit "trade_opened"
    unfolding count is_event opened_event
    one_opened = omega arith

    one_modified : count (is_event kind ticket) (modified_event j a b ∷ []) ≡ hit "trade_modified"
    unfolding count is_event modified_event
    one_modified = omega arith

    one_closed : count (is_event kind ticket) (closed_event j a b ∷ []) ≡ hit "trade_closed"
    unfolding count is_event closed_event
    one_closed = omega arith

    one_created :
        count (is_event kind ticket) (order_created_event j a ∷ []) ≡ hit "pending_order_created"
    unfolding count is_event order_created_event
    one_created = omega arith

    one_order_modified :
        count (is_event kind ticket) (order_modified_event j a b ∷ [])
        ≡ hit "pending_order_modified"
    unfolding count is_event order_modified_event
    one_order_modified = omega arith

    one_cancelled :
        count (is_event kind ticket) (order_cancelled_event j a ∷ [])
        ≡ hit "pending_order_cancelled"
    unfolding count is_event order_cancelled_event
    one_cancelled = omega arith

-- What the round of each loop appends, counted.
module _ (kind ticket j : String) (previous current : Snapshot) where
  abbrev pub pos : Row
  pos = row_at j current.positions

  abbrev pub prev_pos : Row
  prev_pos = row_at j previous.positions

  abbrev pub order : Row
  order = row_at j current.orders

  abbrev pub prev_order : Row
  prev_order = row_at j previous.orders

  pub count-opened_or_modified :
      count (is_event kind ticket) (opened_or_modified previous current j) ≡ (
        if not (contains j previous.positions)
        then hit kind ticket j "trade_opened"
        else (if differs "stop_loss" pos prev_pos then hit kind ticket j "trade_modified" else 0)
          + (if differs "take_profit" pos prev_pos then hit kind ticket j "trade_modified" else 0))
  unfolding opened_or_modified
  count-opened_or_modified = simp (
    count-if,
    count-append,
    count-nil,
    one_opened kind ticket j pos pos pos,
    one_modified kind ticket j pos prev_pos pos,
  )

  pub count-closed :
      (float_repr : ℕ → String)
      → count (is_event kind ticket) (closed float_repr previous current j)
        ≡ (if contains j current.positions then 0 else hit kind ticket j "trade_closed")
  unfolding closed
  count-closed float_repr = simp (
    count-if,
    count-nil,
    one_closed kind ticket j prev_pos (find_closing_deal float_repr current.deals j) pos,
  )

  pub count-order_created_or_modified :
      count (is_event kind ticket) (order_created_or_modified previous current j) ≡ (
        if not (contains j previous.orders)
        then hit kind ticket j "pending_order_created"
        else if order_changed order prev_order
        then hit kind ticket j "pending_order_modified"
        else 0)
  unfolding order_created_or_modified
  count-order_created_or_modified = simp (
    count-if,
    count-nil,
    one_created kind ticket j order order order,
    one_order_modified kind ticket j order prev_order order,
  )

  pub count-order_cancelled : count (is_event kind ticket) (order_cancelled previous current j) ≡ (
      if contains j current.orders
      then 0
      else if contains j current.positions
      then 0
      else hit kind ticket j "pending_order_cancelled")
  unfolding order_cancelled
  count-order_cancelled =
      simp (count-if, count-nil, one_cancelled kind ticket j prev_order prev_order prev_order)
