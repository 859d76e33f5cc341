-- ===== src/Detector/Exact.antt =====
-- worker/event_detector.py: which events are detected, and how often.
use tradejournal_mt5_cloud_w.Prelude.{
  ℕ, ◌+◌, String, ◌≡◌, not, ◌&&◌, arith, eq_refl, ◌∙◌, if◌then◌else◌,
}
use tradejournal_mt5_cloud_w.Prelude.Dict.{contains, keys, Distinct}
use tradejournal_mt5_cloud_w.Prelude.Count.{count, count-append}
use tradejournal_mt5_cloud_w.Prelude.Loop.{count-loop}
use tradejournal_mt5_cloud_w.Detector.Rounds.{
  is_event, once, hit, count-opened_or_modified, count-closed, count-order_created_or_modified,
  count-order_cancelled,
}
use tradejournal_mt5_cloud_w.Detector.{
  Snapshot, row_at, differs, opened_or_modified, closed, order_changed, order_created_or_modified,
  order_cancelled, detect_trade_opened_and_modified, detect_trade_closed,
  detect_pending_order_events, detect_events,
}

pub data Kind : Type 0 where
  trade_opened trade_modified trade_closed pending_created pending_modified pending_cancelled : Kind

abbrev pub label : Kind → String
label trade_opened = "trade_opened"
label trade_modified = "trade_modified"
label trade_closed = "trade_closed"
label pending_created = "pending_order_created"
label pending_modified = "pending_order_modified"
label pending_cancelled = "pending_order_cancelled"

module _ (previous current : Snapshot) (ticket : String) where
  -- How many events of a kind the two snapshots call for, for one ticket.
  unfoldable pub expected : Kind → ℕ
  expected trade_opened =
      once (contains ticket current.positions && not (contains ticket previous.positions))
  expected trade_modified =
      if contains ticket current.positions && contains ticket previous.positions
      then once
          (differs "stop_loss" (row_at ticket current.positions) (row_at ticket previous.positions))
        + once (
            differs "take_profit" (row_at ticket current.positions)
              (row_at ticket previous.positions))
      else 0
  expected trade_closed =
      once (contains ticket previous.positions && not (contains ticket current.positions))
  expected pending_created =
      once (contains ticket current.orders && not (contains ticket previous.orders))
  expected pending_modified = once (
      contains ticket current.orders
      && contains ticket previous.orders
      && order_changed (row_at ticket current.orders) (row_at ticket previous.orders))
  expected pending_cancelled = once (
      contains ticket previous.orders
      && not (contains ticket current.orders)
      && not (contains ticket current.positions))

module _ (kind ticket : String) (float_repr : ℕ → String) (previous current : Snapshot) where
  -- The hits of each loop are those of the ticket's own round.
  count-detect_trade_opened_and_modified :
      Distinct (keys current.positions)
      → count (is_event kind ticket) (detect_trade_opened_and_modified previous current) ≡ (
          if contains ticket current.positions
          then count (is_event kind ticket) (opened_or_modified previous current ticket)
          else 0)
  unfolding detect_trade_opened_and_modified
  count-detect_trade_opened_and_modified =
      count-loop (is_event kind ticket) ticket (opened_or_modified previous current)
        current.positions
        (λ j other. rw (count-opened_or_modified kind ticket j previous current) (ground arith))

  count-detect_trade_closed :
      Distinct (keys previous.positions)
      → count (is_event kind ticket) (detect_trade_closed float_repr previous current) ≡ (
          if contains ticket previous.positions
          then count (is_event kind ticket) (closed float_repr previous current ticket)
          else 0)
  unfolding detect_trade_closed
  count-detect_trade_closed =
      count-loop (is_event kind ticket) ticket (closed float_repr previous current)
        previous.positions
        (λ j other. rw (count-closed kind ticket j previous current float_repr) (ground arith))

  count-detect_pending_order_events :
      Distinct (keys previous.orders)
      → Distinct (keys current.orders)
      → count (is_event kind ticket) (detect_pending_order_events previous current)
        ≡ (if contains ticket current.orders
            then count (is_event kind ticket) (order_created_or_modified previous current ticket)
            else 0)
          + (if contains ticket previous.orders
              then count (is_event kind ticket) (order_cancelled previous current ticket)
              else 0)
  unfolding detect_pending_order_events
  count-detect_pending_order_events dp dc = rw (
    count-append,
    count-loop (is_event kind ticket) ticket (order_created_or_modified previous current)
        current.orders
        (λ j other.
          rw (count-order_created_or_modified kind ticket j previous current) (ground arith))
        dc,
    count-loop (is_event kind ticket) ticket (order_cancelled previous current) previous.orders
        (λ j other. rw (count-order_cancelled kind ticket j previous current) (ground arith)) dp,
  )

-- Tickets are the keys of dictionaries, so none stands twice.
pub record IsSnapshot (s : Snapshot) : Type 0 where
  pub distinct_positions : Distinct (keys s.positions)
  pub distinct_orders : Distinct (keys s.orders)

-- The hits of all rounds of the ticket, loop by loop.
abbrev rounds : String → Snapshot → Snapshot → String → ℕ
rounds kind previous current ticket =
    (if contains ticket current.positions
      then if not (contains ticket previous.positions)
        then hit kind ticket ticket "trade_opened"
        else (if differs "stop_loss" (row_at ticket current.positions)
              (row_at ticket previous.positions)
            then hit kind ticket ticket "trade_modified"
            else 0)
          + (if differs "take_profit" (row_at ticket current.positions)
                (row_at ticket previous.positions)
              then hit kind ticket ticket "trade_modified"
              else 0)
      else 0)
    + ((if contains ticket previous.positions
          then if contains ticket current.positions
            then 0
            else hit kind ticket ticket "trade_closed"
          else 0)
        + ((if contains ticket current.orders
              then if not (contains ticket previous.orders)
                then hit kind ticket ticket "pending_order_created"
                else if order_changed (row_at ticket current.orders) (row_at ticket previous.orders)
                then hit kind ticket ticket "pending_order_modified"
                else 0
              else 0)
            + (if contains ticket previous.orders
                then if contains ticket current.orders
                  then 0
                  else if contains ticket current.positions
                  then 0
                  else hit kind ticket ticket "pending_order_cancelled"
                else 0)))

count-rounds :
    (float_repr : ℕ → String) (kind ticket : String) (previous current : Snapshot)
    → IsSnapshot previous
    → IsSnapshot current
    → count (is_event kind ticket) (detect_events float_repr previous current)
      ≡ rounds kind previous current ticket
unfolding detect_events
count-rounds float_repr kind ticket previous current p c = rw (
  count-append,
  count-append,
  count-detect_trade_opened_and_modified kind ticket float_repr previous current
      c.distinct_positions,
  count-detect_trade_closed kind ticket float_repr previous current p.distinct_positions,
  count-detect_pending_order_events kind ticket float_repr previous current p.distinct_orders
      c.distinct_orders,
  count-opened_or_modified kind ticket ticket previous current,
  count-closed kind ticket ticket previous current float_repr,
  count-order_created_or_modified kind ticket ticket previous current,
  count-order_cancelled kind ticket ticket previous current,
)

rounds-expected :
    (kind : Kind) (ticket : String) (previous current : Snapshot)
    → rounds (label kind) previous current ticket ≡ expected previous current ticket kind
unfolding expected
rounds-expected trade_opened ticket previous current = rw (eq_refl ticket) (ground arith)
rounds-expected trade_modified ticket previous current = rw (eq_refl ticket) (ground arith)
rounds-expected trade_closed ticket previous current = rw (eq_refl ticket) (ground arith)
rounds-expected pending_created ticket previous current = rw (eq_refl ticket) (ground arith)
rounds-expected pending_modified ticket previous current = rw (eq_refl ticket) (ground arith)
rounds-expected pending_cancelled ticket previous current = rw (eq_refl ticket) (ground arith)

-- Between two snapshots with distinct tickets, for every kind of event and every ticket, the
-- number of detected events of that kind and ticket is the expected one: one opening exactly for a
-- position that is new, one closing exactly for one that is gone, for a kept position one
-- modification for each of stop loss and take profit that differs, one creation for a new order,
-- one modification for a kept order that differs in price, stop loss or take profit, and one
-- cancellation exactly for an order that is gone and is no position now.
pub count-detect_events :
    (float_repr : ℕ → String) (kind : Kind) (ticket : String) (previous current : Snapshot)
    → IsSnapshot previous
    → IsSnapshot current
    → count (is_event (label kind) ticket) (detect_events float_repr previous current)
      ≡ expected previous current ticket kind
count-detect_events float_repr kind ticket previous current p c =
    count-rounds float_repr (label kind) ticket previous current p c
    ∙ rounds-expected kind ticket previous current
