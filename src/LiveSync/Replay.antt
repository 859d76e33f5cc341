-- ===== src/LiveSync/Replay.antt =====
-- windows_agent/worker/live_sync.py with worker/event_normalizer.py: a fill that the bridge reports
-- again keeps the id of its event.
use tradejournal_mt5_cloud_w.Prelude.{
  ℕ, ◌≡◌, refl, sym, ◌∙◌, String, true, ◌||◌, Option, none, some, arith, str_eq, if◌then◌else◌,
  Bool-cases, inl, inr,
}
use tradejournal_mt5_cloud_w.Prelude.Dict.{lookup, insert, merge}
use tradejournal_mt5_cloud_w.Value.{Value, Row, get, is_some, or_else, str}
use tradejournal_mt5_cloud_w.Normalizer.{ok, is_native_deal_event, normalize_event}
use tradejournal_mt5_cloud_w.Normalizer.Identity.{normalize_event-native_id}
use tradejournal_mt5_cloud_w.LiveSync.Symbols.{upper_text}
use tradejournal_mt5_cloud_w.LiveSync.Records.{
  Positions, base, deal_base, scaled_in, opened, entered, left, deal_event, ticket_text,
  mql5_file_event,
}

entered_type : Option Row → Option Row → String
entered_type (some before) (some now) = "trade_volume_changed"
entered_type (some before) none = "trade_opened"
entered_type none now = "trade_opened"

unfoldable pub left_type : Option Row → String
left_type (some now) = "trade_partial_closed"
left_type none = "trade_closed"

-- The type of a fill's event, by its entry and whether the position stands before and after.
unfoldable pub deal_type : String → Option Row → Option Row → String
unfolding entered_type left_type
deal_type entry before now = if str_eq entry "IN" then entered_type before now else left_type now

entered_type-is_native :
    (before now : Option Row) → is_native_deal_event (entered_type before now) ≡ true
unfolding entered_type is_native_deal_event
entered_type-is_native (some before) (some now) = refl
entered_type-is_native (some before) none = refl
entered_type-is_native none now = refl

left_type-is_native : (now : Option Row) → is_native_deal_event (left_type now) ≡ true
unfolding left_type is_native_deal_event
left_type-is_native (some now) = refl
left_type-is_native none = refl

deal_type-is_native :
    (entry : String) (before now : Option Row)
    → is_native_deal_event (deal_type entry before now) ≡ true
unfolding deal_type
deal_type-is_native entry before now = elim (Bool-cases (str_eq entry "IN")) [
  | inl is_in ↦ rw is_in (entered_type-is_native before now)
  | inr out ↦ rw out (left_type-is_native now)
]

-- The entry of a deal that opens, scales or closes.
abbrev pub IsFill : String → Type 0
IsFill entry = (str_eq entry "IN" || str_eq entry "OUT" || str_eq entry "OUT_BY") ≡ true

-- What the identity of a deal's event is made of.
pub record Identified (event : Row) (ticket : String) (event_type : String) (native : Value)
    : Type 0 where
  pub event_type_is : lookup "event_type" event ≡ some (str event_type)
  pub ticket_is : lookup "ticket" event ≡ some (str ticket)
  pub native_is : get "native_deal_ticket" event ≡ native

entered-Identified :
    (ticket : String) (record_ : Row) (before now : Option Row)
    → Identified
        (entered (deal_base (str ticket) record_) record_ before now)
        ticket
        (entered_type before now)
        (or_else (get "deal_id" record_) (get "ticket" record_))
unfolding entered opened scaled_in deal_base base lookup get merge insert entered_type
entered-Identified ticket record_ (some before) (some now) = record {
  event_type_is = refl;
  ticket_is = refl;
  native_is = refl;
}
entered-Identified ticket record_ (some before) none = record {
  event_type_is = refl;
  ticket_is = refl;
  native_is = refl;
}
entered-Identified ticket record_ none now = record {
  event_type_is = refl;
  ticket_is = refl;
  native_is = refl;
}

pub left-Identified :
    (ticket : String) (record_ : Row) (now : Option Row)
    → Identified
        (left (deal_base (str ticket) record_) record_ now)
        ticket
        (left_type now)
        (or_else (get "deal_id" record_) (get "ticket" record_))
unfolding left deal_base base lookup get merge insert left_type
left-Identified ticket record_ (some now) = record {
  event_type_is = refl;
  ticket_is = refl;
  native_is = refl;
}
left-Identified ticket record_ none = record {
  event_type_is = refl;
  ticket_is = refl;
  native_is = refl;
}

deal_event-Identified :
    (ticket entry : String) (record_ : Row) (before now : Option Row)
    → IsFill entry
    → Identified
        (deal_event (deal_base (str ticket) record_) record_ entry before now)
        ticket
        (deal_type entry before now)
        (or_else (get "deal_id" record_) (get "ticket" record_))
unfolding deal_event deal_type
deal_event-Identified ticket entry record_ before now fill = elim (Bool-cases (str_eq entry "IN")) [
  | inl is_in ↦ rw is_in (entered-Identified ticket record_ before now)
  | inr other ↦
      let out : (str_eq entry "OUT" || str_eq entry "OUT_BY") ≡ true = ground arith in
      rw (other, out) (left-Identified ticket record_ now)
]

module _ (upper : String → String) (float_repr : ℕ → String) where
  -- The record is a fill with the given ticket and entry.
  pub record Fill (record_ : Row) (ticket entry : String) : Type 0 where
    pub is_deal : upper_text upper float_repr "event_type" record_ ≡ "DEAL_ADD"
    pub entry_is : upper_text upper float_repr "entry" record_ ≡ entry
    pub ticket_is : ticket_text upper float_repr record_ ≡ ticket

  pub mql5_file_event-deal :
      (record_ : Row) (previous current : Positions) (ticket entry : String)
      → Fill record_ ticket entry
      → mql5_file_event upper float_repr record_ previous current
        ≡ deal_event
            (deal_base (str ticket) record_)
            record_
            entry
            (lookup ticket previous)
            (lookup ticket current)
  unfolding mql5_file_event
  mql5_file_event-deal record_ previous current ticket entry f =
      simp (f.is_deal, f.entry_is, f.ticket_is)

  module _ (dumps : Row → String) (sha256_16 : String → String) where
    -- A fill that the bridge reports again keeps its id: two DEAL_ADD records with the same entry,
    -- IN, OUT or OUT_BY, the same position and the same native deal ticket, not null, against the
    -- same positions, are normalized to payloads with the same `event_id`, whatever else the records
    -- say, price, costs and profit included, and whenever that is done.
    pub mql5_file_event-same_id :
        (now now' : String) (account server server' : Option String) (platform : String)
        (ticket entry : String) (record_ record_' payload payload' : Row)
        (previous current : Positions)
        → IsFill entry
        → Fill record_ ticket entry
        → Fill record_' ticket entry
        → or_else (get "deal_id" record_) (get "ticket" record_)
          ≡ or_else (get "deal_id" record_') (get "ticket" record_')
        → is_some (or_else (get "deal_id" record_) (get "ticket" record_)) ≡ true
        → normalize_event float_repr dumps sha256_16 now
            (mql5_file_event upper float_repr record_ previous current)
            account
            server
            platform
          ≡ ok payload
        → normalize_event float_repr dumps sha256_16 now'
            (mql5_file_event upper float_repr record_' previous current)
            account
            server'
            platform
          ≡ ok payload'
        → get "event_id" payload ≡ get "event_id" payload'
    mql5_file_event-same_id now now' account server server' platform ticket entry record_ record_'
          payload payload' previous current fill f f' native named h h' =
        let before = lookup ticket previous in
        let now_ = lookup ticket current in
        let e = mql5_file_event-deal record_ previous current ticket entry f in
        let e' = mql5_file_event-deal record_' previous current ticket entry f' in
        let i = deal_event-Identified ticket entry record_ before now_ fill in
        let i' = deal_event-Identified ticket entry record_' before now_ fill in
        normalize_event-native_id float_repr dumps sha256_16 now now' account server server'
          platform platform (deal_type entry before now_) _ _ payload payload'
          (deal_type-is_native entry before now_) (rw i.native_is named) i.event_type_is
          i'.event_type_is (i.ticket_is ∙ sym i'.ticket_is)
          (i.native_is ∙ native ∙ sym i'.native_is) (rw e at h) (rw e' at h')
