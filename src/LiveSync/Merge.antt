-- ===== src/LiveSync/Merge.antt =====
-- windows_agent/worker/live_sync.py: `_merge_event_stream_with_snapshot`, the events of the records
-- of the bridge, completed by those that only the snapshots show.
use tradejournal_mt5_cloud_w.Prelude.{
  ℕ, ◌≡◌, refl, ◌∙◌, String, Bool, true, false, not, ◌&&◌, ◌||◌, Option, none, some, List, [], ◌∷◌,
  ◌++◌, str_eq, if◌then◌else◌,
}
use tradejournal_mt5_cloud_w.Prelude.Dict.{lookup, insert, elem, lookup-insert}
use tradejournal_mt5_cloud_w.Value.{Value, Row, get, or_else, bool, str}
use tradejournal_mt5_cloud_w.Value.Compare.{eq}
use tradejournal_mt5_cloud_w.Value.Text.{to_str}
use tradejournal_mt5_cloud_w.Detector.{Snapshot}
use tradejournal_mt5_cloud_w.LiveSync.Symbols.{upper_text, usable_symbol, authoritative_symbol}
use tradejournal_mt5_cloud_w.LiveSync.Records.{mql5_file_event}
use tradejournal_mt5_cloud_w.LiveSync.Volumes.{Tracked, Replay, track_positions, replay_record}
use tradejournal_mt5_cloud_w.LiveSync.Windows.{detect_windows_events}

-- `value is True`
unfoldable pub is_true : Value → Bool
is_true (bool b) = b
is_true _ = false

keep_if : Bool → Row → List Row → List Row
keep_if true event events = event ∷ events
keep_if false event events = events

-- The events that pass a test.
unfoldable pub keep : (Row → Bool) → List Row → List Row
unfolding keep_if
keep test [] = []
keep test (event ∷ events) = keep_if (test event) event (keep test events)

with_symbol : Option String → Option String → Row → Row
with_symbol (some symbol) none record_ = insert "symbol" (str symbol) record_
with_symbol _ _ record_ = record_

lookup-with_symbol :
    (symbol own : Option String) (record_ : Row) (field : String)
    → str_eq "symbol" field ≡ false
    → lookup field (with_symbol symbol own record_) ≡ lookup field record_
unfolding with_symbol
lookup-with_symbol (some symbol) none record_ field other =
    lookup-insert "symbol" field (str symbol) record_ ∙ rw other refl
lookup-with_symbol (some symbol) (some own) record_ field other = refl
lookup-with_symbol none own record_ field other = refl

unfoldable pub is_type : String → Row → Bool
is_type event_type event = eq (get "event_type" event) (str event_type)

unfoldable pub is_archived : Row → Bool
is_archived record_ = is_true (get "history_archived" record_)

unfoldable pub is_closing : Row → Bool
is_closing event = is_type "trade_partial_closed" event || is_type "trade_closed" event

module _ (upper : String → String) (float_repr : ℕ → String) (parse_float : String → Option ℕ) where
  unfoldable pub ticket_of : Row → String
  ticket_of event = to_str float_repr (get "ticket" event)

  unfoldable pub type_of : Row → String
  type_of event = to_str float_repr (get "event_type" event)

  module _ (previous current : Snapshot) where
    -- The record with the symbol that the snapshots bind to it.
    unfoldable pub resolved : Row → Row
    unfolding with_symbol
    resolved record_ =
        with_symbol (authoritative_symbol upper float_repr record_ previous current)
          (usable_symbol (get "symbol" record_)) record_

    -- No other field changes.
    pub lookup-resolved :
        (record_ : Row) (field : String)
        → str_eq "symbol" field ≡ false
        → lookup field (resolved record_) ≡ lookup field record_
    unfolding resolved
    lookup-resolved record_ field other =
        lookup-with_symbol (authoritative_symbol upper float_repr record_ previous current)
          (usable_symbol (get "symbol" record_)) record_ field other

    unfoldable pub replayed : Row → Tracked → Replay
    replayed record_ tracked =
        replay_record upper float_repr parse_float (resolved record_)
          (record { tracked = tracked; before = previous.positions; after = current.positions })

    -- The event of one record.
    unfoldable pub event_at : Row → Tracked → Row
    event_at record_ tracked =
        mql5_file_event upper float_repr (resolved record_) (replayed record_ tracked).before
          (replayed record_ tracked).after

    -- The loop over the records.
    unfoldable pub stream_from : List Row → Tracked → List Row
    stream_from [] tracked = []
    stream_from (record_ ∷ records) tracked =
        let rest = stream_from records tracked in
        let later =
          event_at record_ tracked ∷ stream_from records (replayed record_ tracked).tracked in
        if is_archived record_ then rest else later

    unfoldable pub stream : List Row → List Row
    stream records = stream_from records (
        track_positions upper float_repr parse_float previous.positions
          (record { volumes = []; prices = [] }))

  -- `economic_close_tickets`
  unfoldable pub close_tickets : List Row → List String
  close_tickets [] = []
  close_tickets (event ∷ events) =
      if is_closing event then ticket_of event ∷ close_tickets events else close_tickets events

  -- A volume that falls for a position whose close the stream has.
  unfoldable pub is_echo : List String → Row → Bool
  is_echo closes event =
      is_type "trade_volume_changed" event
      && is_true (get "partial_close" event)
      && elem (ticket_of event) closes

  -- `(type, ticket) in covered`
  unfoldable pub is_covered : List Row → Row → Bool
  is_covered [] event = false
  is_covered (covering ∷ covered) event =
      if str_eq (type_of covering) (type_of event) && str_eq (ticket_of covering) (ticket_of event)
      then true
      else is_covered covered event

  -- `stream_deal_ids`
  unfoldable pub deal_ids : List Row → List String
  deal_ids [] = []
  deal_ids (record_ ∷ records) =
      if str_eq (upper_text upper float_repr "event_type" record_) "DEAL_ADD"
      then to_str float_repr (or_else (get "deal_id" record_) (get "ticket" record_))
        ∷ deal_ids records
      else deal_ids records

  -- An event of the snapshots that the stream does not have.
  unfoldable pub is_news : List Row → List String → List String → Row → Bool
  is_news covered closes deals event =
      not (is_covered covered event)
      && not (is_echo closes event)
      && not (is_type "deal_recorded" event && elem (ticket_of event) deals)

  unfoldable pub merge_events : List Row → Snapshot → Snapshot → List Row
  merge_events records previous current =
      let all_events = stream previous current records in
      let closes = close_tickets all_events in
      let events = keep (λ event. not (is_echo closes event)) all_events in
      events
      ++ keep (is_news events closes (deal_ids records))
          (detect_windows_events float_repr previous current)
