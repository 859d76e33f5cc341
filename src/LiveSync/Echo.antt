-- ===== src/LiveSync/Echo.antt =====
-- windows_agent/worker/live_sync.py: a close that the bridge reports is the only event that reduces
-- the volume of its position.
use tradejournal_mt5_cloud_w.Prelude.{
  ℕ, ◌≡◌, refl, ◌∙◌, String, Bool, true, false, not, ◌&&◌, ◌||◌, Option, none, some, List, [], ◌∷◌,
  ◌++◌, arith, str_eq, eq_refl, eq_iff, Bool-cases, ◌⊎◌, inl, inr, All, All-append,
}
use tradejournal_mt5_cloud_w.Prelude.Dict.{lookup, elem}
use tradejournal_mt5_cloud_w.Value.{Value, Row, get, str}
use tradejournal_mt5_cloud_w.Value.Compare.{eq}
use tradejournal_mt5_cloud_w.Value.Text.{to_str}
use tradejournal_mt5_cloud_w.Detector.{Snapshot}
use tradejournal_mt5_cloud_w.LiveSync.Symbols.{upper_text}
use tradejournal_mt5_cloud_w.LiveSync.Records.{deal_base, left, deal_event, ticket_text}
use tradejournal_mt5_cloud_w.LiveSync.Replay.{
  Identified, left_type, left-Identified, Fill, mql5_file_event-deal,
}
use tradejournal_mt5_cloud_w.LiveSync.Volumes.{Tracked}
use tradejournal_mt5_cloud_w.LiveSync.Merge.{
  is_true, keep, is_type, is_archived, is_closing, ticket_of, resolved, lookup-resolved, replayed,
  event_at, stream_from, stream, close_tickets, deal_ids, is_echo, is_news, merge_events,
}
use tradejournal_mt5_cloud_w.LiveSync.Windows.{detect_windows_events}

All-keep : (test : Row → Bool) (events : List Row) → All (λ e. test e ≡ true) (keep test events)
unfolding keep
All-keep test [] = tt
All-keep test (event ∷ events) = elim (Bool-cases (test event)) [
  | inl kept ↦ rw kept (kept, All-keep test events)
  | inr out ↦ rw out (All-keep test events)
]

All-map :
    (P Q : Row → Type 0) (events : List Row) → ((e : Row) → P e → Q e) → All P events → All Q events
All-map P Q [] f h = tt
All-map P Q (e ∷ events) f h = (f e h.0, All-map P Q events f h.1)

not-true : (b : Bool) → not b ≡ true → b ≡ false
not-true b h = ground arith

elem_there :
    (first ticket : String) (rest : List String)
    → elem ticket rest ≡ true
    → elem ticket (first ∷ rest) ≡ true
unfolding elem
elem_there first ticket rest h = ground arith

-- The record of a fill that leaves, of a position.
module _ (upper : String → String) (float_repr : ℕ → String) where
  pub record IsExit (record_ : Row) (ticket : String) : Type 0 where
    pub is_live : is_archived record_ ≡ false
    pub entry : String
    pub is_exit : (entry ≡ "OUT") ⊎ (entry ≡ "OUT_BY")
    pub fill : Fill upper float_repr record_ ticket entry

left_event :
    (ticket entry : String) (record_ : Row) (before now : Option Row)
    → (entry ≡ "OUT") ⊎ (entry ≡ "OUT_BY")
    → deal_event (deal_base (str ticket) record_) record_ entry before now
      ≡ left (deal_base (str ticket) record_) record_ now
unfolding deal_event
left_event ticket entry record_ before now (inl e) = rw e refl
left_event ticket entry record_ before now (inr e) = rw e refl

left_type_closes :
    (now : Option Row)
    → (eq (str (left_type now)) (str "trade_partial_closed")
        || eq (str (left_type now)) (str "trade_closed"))
      ≡ true
unfolding left_type eq
left_type_closes (some now) = refl
left_type_closes none = refl

Identified-is_closing :
    (event : Row) (ticket : String) (native : Value) (now : Option Row)
    → Identified event ticket (left_type now) native
    → is_closing event ≡ true
unfolding is_closing is_type get
Identified-is_closing event ticket native now i = rw i.event_type_is (left_type_closes now)

module _ (upper : String → String) (float_repr : ℕ → String) (parse_float : String → Option ℕ) where
  Identified-ticket_of :
      (event : Row) (ticket : String) (native : Value) (now : Option Row)
      → Identified event ticket (left_type now) native
      → ticket_of upper float_repr parse_float event ≡ ticket
  unfolding ticket_of get to_str
  Identified-ticket_of event ticket native now i = rw i.ticket_is refl

  module _ (previous current : Snapshot) where
    resolved-Fill :
        (record_ : Row) (ticket entry : String)
        → Fill upper float_repr record_ ticket entry
        → Fill upper float_repr
            (resolved upper float_repr parse_float previous current record_)
            ticket
            entry
    unfolding upper_text ticket_text get
    resolved-Fill record_ ticket entry f =
        let same : (field : String)
            → str_eq "symbol" field ≡ false
            → lookup field (resolved upper float_repr parse_float previous current record_)
              ≡ lookup field record_ =
          lookup-resolved upper float_repr parse_float previous current record_ in
        record {
          is_deal = rw (same "event_type" refl) f.is_deal;
          entry_is = rw (same "entry" refl) f.entry_is;
          ticket_is =
              rw
                (
                  same "position_id" refl,
                  same "position_ticket" refl,
                  same "order_id" refl,
                  same "ticket" refl,
                )
                f.ticket_is;
        }

    -- The event of an exit is a close of its position.
    event_at-closes :
        (record_ : Row) (ticket : String) (tracked : Tracked)
        → IsExit upper float_repr record_ ticket
        → (is_closing (event_at upper float_repr parse_float previous current record_ tracked)
            ≡ true)
          × (ticket_of upper float_repr parse_float
                (event_at upper float_repr parse_float previous current record_ tracked)
              ≡ ticket)
    unfolding event_at
    event_at-closes record_ ticket tracked x =
        let r = resolved upper float_repr parse_float previous current record_ in
        let state = replayed upper float_repr parse_float previous current record_ tracked in
        let shape =
          mql5_file_event-deal upper float_repr r state.before state.after ticket x.entry
            (resolved-Fill record_ ticket x.entry x.fill)
          ∙ left_event ticket x.entry r (lookup ticket state.before) (lookup ticket state.after)
              x.is_exit in
        let i = left-Identified ticket r (lookup ticket state.after) in
        (
          rw shape (Identified-is_closing _ ticket _ (lookup ticket state.after) i),
          rw shape (Identified-ticket_of _ ticket _ (lookup ticket state.after) i),
        )

    stream_from-closes :
        (front : List Row) (record_ : Row) (back : List Row) (ticket : String) (tracked : Tracked)
        → IsExit upper float_repr record_ ticket
        → elem ticket (
            close_tickets upper float_repr parse_float (
              stream_from upper float_repr parse_float previous current
                (front ++ record_ ∷ back)
                tracked))
          ≡ true
    unfolding stream_from close_tickets elem
    stream_from-closes [] record_ back ticket tracked x =
        let (closing, ticket_is) = event_at-closes record_ ticket tracked x in
        rw (x.is_live, closing, ticket_is, eq_refl ticket) refl
    stream_from-closes (first ∷ front) record_ back ticket tracked x =
        let skipped = stream_from-closes front record_ back ticket tracked x in
        let later =
          stream_from-closes front record_ back ticket
            (replayed upper float_repr parse_float previous current first tracked).tracked x in
        elim (Bool-cases (is_archived first)) [
          | inl archived ↦ rw archived skipped
          | inr live ↦
              rw live
                (elim (Bool-cases (
                  is_closing
                    (event_at upper float_repr parse_float previous current first tracked))) [
                      | inl closing ↦ rw closing (elem_there _ ticket _ later)
                      | inr open_ ↦ rw open_ later
                    ])
        ]

  -- `event` says that the volume of the position fell.
  unfoldable pub is_reduction : String → Row → Bool
  is_reduction ticket event =
      is_type "trade_volume_changed" event
      && is_true (get "partial_close" event)
      && str_eq (ticket_of upper float_repr parse_float event) ticket

  not_echo-not_reduction :
      (closes : List String) (ticket : String) (event : Row)
      → elem ticket closes ≡ true
      → is_echo upper float_repr parse_float closes event ≡ false
      → is_reduction ticket event ≡ false
  unfolding is_echo is_reduction
  not_echo-not_reduction closes ticket event known h =
      elim (Bool-cases (str_eq (ticket_of upper float_repr parse_float event) ticket)) [
        | inr other ↦ ground arith
        | inl same ↦
            let t : ticket_of upper float_repr parse_float event ≡ ticket =
              (eq_iff _ ticket).0 same in
            let known' : elem (ticket_of upper float_repr parse_float event) closes ≡ true =
              rw t known in
            ground arith
      ]

  -- No event of the list is a reduction of the position.
  pub record HasNoReduction (ticket : String) (events : List Row) : Type 0 where
    pub none_is : All (λ event. is_reduction ticket event ≡ false) events

  news-not_echo :
      (events : List Row) (closes deals : List String) (event : Row)
      → is_news upper float_repr parse_float events closes deals event ≡ true
      → is_echo upper float_repr parse_float closes event ≡ false
  unfolding is_news
  news-not_echo events closes deals event h = ground arith

  -- A close that the bridge reports is not counted twice. If a batch holds a fill of a position
  -- with the entry OUT or OUT_BY that the history archive does not have, then no merged event, be
  -- it of another record or of the snapshots, is a volume change of that position with
  -- `partial_close`.
  pub merge_events-no_reduction :
      (front : List Row) (record_ : Row) (back : List Row) (ticket : String)
      (previous current : Snapshot)
      → IsExit upper float_repr record_ ticket
      → HasNoReduction ticket
          (merge_events upper float_repr parse_float (front ++ record_ ∷ back) previous current)
  unfolding merge_events
  merge_events-no_reduction front record_ back ticket previous current x =
      let records = front ++ record_ ∷ back in
      let all_events = stream upper float_repr parse_float previous current records in
      let closes = close_tickets upper float_repr parse_float all_events in
      let known : elem ticket closes ≡ true =
        unfold stream in stream_from-closes previous current front record_ back ticket _ x in
      let echo = is_echo upper float_repr parse_float closes in
      let events = keep (λ event. not (echo event)) all_events in
      let news =
        is_news upper float_repr parse_float events closes
          (deal_ids upper float_repr parse_float records) in
      let safe : (event : Row) → echo event ≡ false → is_reduction ticket event ≡ false =
        λ event h. not_echo-not_reduction closes ticket event known h in
      record {
        none_is =
            All-append _ events _
              (All-map _ _ events (λ event h. safe event (not-true _ h))
                (All-keep (λ event. not (echo event)) all_events))
              (All-map _ _ (keep news (detect_windows_events float_repr previous current))
                (λ event h. safe event (news-not_echo events closes _ event h))
                (All-keep news (detect_windows_events float_repr previous current)));
      }
