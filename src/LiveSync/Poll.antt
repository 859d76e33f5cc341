-- ===== src/LiveSync/Poll.antt =====
-- windows_agent/worker/live_sync.py: `LiveSync.poll_once` over the outbox, the snapshot, the tracker
-- of excursions and the ids of windows_agent/worker/dedup.py.
mod Commit
pub mod Durable
pub mod Safe
pub use Commit.{Sink, sender, callable, Environment, Sync, ◌>>=◌, effect}
unfoldable pub use Commit.{
  send_of, then_on, dead_letter_count, sent_of, drain_outbox, contains_id, add, undelivered,
  add_all, last_sequence, tell, acknowledge_records, save_snapshot, keep_positions,
  enqueue_payloads, commit,
}
use mathlib.Core.List.{map}
use tradejournal_mt5_cloud_w.Prelude.{
  ℕ, suc, ◌+◌, String, Bool, true, false, not, ◌&&◌, ◌||◌, Option, none, some, List, [], ◌∷◌,
  length, ◌==◌, if◌then◌else◌,
}
use tradejournal_mt5_cloud_w.Prelude.Int.{ℤ, ltb_ℤ}
use tradejournal_mt5_cloud_w.Prelude.Dict.{Dict, insert, elem}
use tradejournal_mt5_cloud_w.Value.{Row, get, str}
use tradejournal_mt5_cloud_w.Value.Compare.{eq}
use tradejournal_mt5_cloud_w.Sender.{sent, SendResult}
use tradejournal_mt5_cloud_w.Outbox.{
  Payload, Write, published, refused, interrupted, Result, ok, raised, Outbox, DrainResult,
  event_id, enqueue_many, drain,
}
use tradejournal_mt5_cloud_w.Detector.{Snapshot}
use tradejournal_mt5_cloud_w.Normalizer.{
  Result as Normalized, ok as normalized, err as rejected, normalize_event,
  validate_event_preflight,
}
use tradejournal_mt5_cloud_w.Json.{scalar}
use tradejournal_mt5_cloud_w.Excursions.{
  observe_open_events, observe_snapshot, enrich_close_events, discard,
}
use tradejournal_mt5_cloud_w.LiveSync.Symbols.{authoritative_symbol}
use tradejournal_mt5_cloud_w.LiveSync.Windows.{detect_windows_events}
use tradejournal_mt5_cloud_w.LiveSync.Merge.{merge_events}

-- The document that a payload is in the outbox.
abbrev document : Row → Payload
document [] = []
document ((k, v) ∷ row) = (k, scalar v) ∷ document row

to_option : {A : Type 0} → Normalized A → Option A
to_option (normalized a) = some a
to_option (rejected e) = none

-- The rest of the `for` loop for a `trade_opened`, which has to have its symbol.
unfoldable pub with_authority : Option String → Row → Option Row
unfolding to_option
with_authority none event = none
with_authority (some symbol) event = do
  _ ← to_option (validate_event_preflight (insert "symbol" (str symbol) event))
  some (insert "symbol" (str symbol) event)

-- What a poll reads.
pub record Source : Type 0 where
  pub account : String × String
  pub current : Snapshot
  pub records : List Row
  pub events : List Row

-- The constants of a LiveSync and the language's functions.
module _ (upper lower : String → String) (float_repr : ℕ → String) (parse_float : String → Option ℕ)
    (dumps : Row → String) (sha256_16 : String → String) (sample_ms : ℕ) where
  -- The first `for` loop
  unfoldable pub with_symbols : Snapshot → Snapshot → List Row → Option (List Row)
  with_symbols previous current [] = some []
  with_symbols previous current (event ∷ events) = do
    event' ←
        (if not (eq (get "event_type" event) (str "trade_opened"))
          then some event
          else with_authority (authoritative_symbol upper float_repr event previous current) event)
    events' ← with_symbols previous current events
    some (event' ∷ events')

  detected : List Row → Snapshot → Snapshot → List Row
  detected [] previous current = detect_windows_events float_repr previous current
  detected (record_ ∷ records) previous current =
      merge_events upper float_repr parse_float (record_ ∷ records) previous current

  -- The second `for` loop, of what `normalize_event` returns
  unfoldable pub normalize_all : String → String × String → List Row → Option (List Payload)
  unfolding to_option
  normalize_all now account [] = some []
  normalize_all now account (event ∷ events) = do
    payload ← to_option (
        normalize_event float_repr dumps sha256_16 now event (some account.0) (some account.1)
          "mt5")
    payloads ← normalize_all now account events
    some (document payload ∷ payloads)

  -- `poll_once` from `verify_identity` to the first loop
  unfoldable pub read_source : Environment → Snapshot → Option Source
  unfolding detected
  read_source env previous = do
    account ← env.account
    current ← env.snapshot
    records ← env.records
    events ← with_symbols previous current (detected records previous current)
    some (record { account = account; current = current; records = records; events = events })

  -- `observe_open_events` and `observe_snapshot`
  unfoldable pub opened_positions : Source → Dict Row → Dict Row × Bool
  opened_positions source positions =
      observe_open_events lower float_repr parse_float source.events (positions, false)

  unfoldable pub observed_positions : Environment → Source → Dict Row → Dict Row × Bool
  observed_positions env source positions =
      observe_snapshot lower float_repr parse_float env.generated_at source.current.positions
        (positions, false)

  unfoldable pub enriched : Environment → Source → Dict Row → List Row × Dict Row × List String
  enriched env source positions =
      enrich_close_events lower float_repr parse_float sample_ms env.now source.events positions

  -- The payloads of all events of a poll, whether delivered before or not.
  unfoldable pub payloads_of : Environment → Source → Dict Row → Option (List Payload)
  payloads_of env source positions =
      normalize_all env.now source.account
        (enriched env source
          (observed_positions env source (opened_positions source positions).0).0).0

  unfoldable pub commit_batch :
      Environment → ℕ → Source → Option (List Payload) → List String → Sync → Result ℕ × Sync
  commit_batch env delivered source none closed s = (raised, s)
  commit_batch env delivered source (some payloads) closed s =
      commit env delivered source.records source.current (undelivered s.delivered payloads) closed s

  -- `poll_once` from `self.excursions.enrich_close_events(events)` on.
  unfoldable pub deliver_observed : Environment → ℕ → Source → Sync → Result ℕ × Sync
  deliver_observed env delivered source s =
      let (events, positions, closed) = enriched env source s.positions in
      commit_batch env delivered source (normalize_all env.now source.account events) closed
        (record s { positions = positions })

  -- `poll_once` from `self.excursions.observe_open_events(events)` on.
  unfoldable pub deliver_source : Environment → ℕ → Option Source → Sync → Result ℕ × Sync
  deliver_source env delivered none s = (raised, s)
  deliver_source env delivered (some source) s0 =
      then_on (keep_positions env.saves_opened (opened_positions source s0.positions) s0) (λ _ s1.
        then_on (keep_positions env.saves_observed (observed_positions env source s1.positions) s1)
          (λ _ s2. deliver_observed env delivered source s2))

  -- `poll_once`
  unfoldable pub poll_once : Environment → Sync → Result ℕ × Sync
  poll_once env s = then_on (drain_outbox env.sink_before env.write_before s) (λ delivered s1.
      if dead_letter_count s1.outbox == 0
      then deliver_source env delivered (read_source env s1.saved) s1
      else (ok delivered, s1))
