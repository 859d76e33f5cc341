-- ===== src/LiveSync/Poll/Commit.antt =====
-- windows_agent/worker/live_sync.py: what a poll of `LiveSync` writes, and in which order. What the
-- adapter, the sink and the stores do in a poll comes in as an `Environment`.
use tradejournal_mt5_cloud_w.Prelude.{
  ℕ, suc, ◌+◌, String, Bool, true, false, not, ◌&&◌, Option, none, some, List, [], ◌∷◌, length,
  ◌==◌, if◌then◌else◌,
}
use tradejournal_mt5_cloud_w.Prelude.Int.{ℤ, ltb_ℤ}
use tradejournal_mt5_cloud_w.Prelude.Dict.{Dict, elem}
use tradejournal_mt5_cloud_w.Value.{Row}
use tradejournal_mt5_cloud_w.Sender.{sent, SendResult}
use tradejournal_mt5_cloud_w.Outbox.{
  Payload, Write, published, refused, interrupted, Result, ok, raised, Outbox, DrainResult,
  event_id, enqueue_many, drain,
}
use tradejournal_mt5_cloud_w.Detector.{Snapshot}
use tradejournal_mt5_cloud_w.Excursions.{discard}

-- The sink has a `send`, which may raise, or is called, and returns or raises.
pub data Sink : Type 0 where
  sender : (ℕ → Payload → Option SendResult) → Sink
  callable : (ℕ → Payload → Bool) → Sink

delivered_once : Bool → Option SendResult
delivered_once true =
    some (record {
      status = sent;
      attempts = 1;
      http_status = none;
      error = none;
      failure_type = none;
    })
delivered_once false = none

-- `_CallableSender.send`, of the n-th event of a drain
unfoldable pub send_of : Sink → ℕ → Payload → Option SendResult
unfolding delivered_once
send_of (sender send) n payload = send n payload
send_of (callable call) n payload = delivered_once (call n payload)

pub record Environment : Type 0 where
  -- the text of the current time, and of `snapshot.get("generated_at") or _iso_now()`
  pub now : String
  pub generated_at : String
  -- `verify_identity`, `snapshot` and `pending_events`, where none is an exception; an adapter
  -- without `pending_events` has no records
  pub account : Option (String × String)
  pub snapshot : Option Snapshot
  pub records : Option (List Row)
  -- `int(record["sequence"])`, where none is an exception
  pub sequence : Row → Option ℤ
  -- whether the store of the tracker returns
  pub saves_opened : Bool
  pub saves_observed : Bool
  pub saves_discarded : Bool
  pub enqueue_write : Write
  -- none: the adapter has no `acknowledge_events`
  pub acknowledge : Option Write
  pub save_write : Write
  pub sink_before : Sink
  pub sink_after : Sink
  pub write_before : ℕ → Write
  pub write_after : ℕ → Write
  -- whether the n-th `dedup.add` returns
  pub commits : ℕ → Bool

-- What a LiveSync keeps, the rows of the table `delivered`, and the last sequence number that the
-- adapter was told.
pub record Sync : Type 0 where
  pub outbox : Outbox
  pub saved : Snapshot
  pub positions : Dict Row
  pub delivered : List String
  pub acknowledged : Option ℤ

-- What raises ends the poll.
unfoldable pub then_on :
    {A : Type 0} → Result A × Sync → (A → Sync → Result ℕ × Sync) → Result ℕ × Sync
then_on (ok a, s) continue = continue a s
then_on (raised, s) continue = (raised, s)

unfoldable pub dead_letter_count : Outbox → ℕ
dead_letter_count outbox = length outbox.state.dead_letter

-- `if result.pending or result.dead_lettered or result.dry_run`
unfoldable pub sent_of : Result DrainResult → Result ℕ
sent_of raised = raised
sent_of (ok result) =
    if result.pending_left == 0 && result.dead_lettered == 0 && result.dry_run_count == 0
    then ok result.sent_count
    else raised

-- `_drain_outbox`
unfoldable pub drain_outbox : Sink → (ℕ → Write) → Sync → Result ℕ × Sync
unfolding dead_letter_count
drain_outbox sink write s =
    if dead_letter_count s.outbox == 0
    then (
      sent_of (drain (send_of sink) write s.outbox).0,
      record s { outbox = (drain (send_of sink) write s.outbox).1 },
    )
    else (ok 0, s)

infixl 5 ◌>>=◌
abbrev pub ◌>>=◌ : {A B : Type 0} → Option A → (A → Option B) → Option B
some a >>= f = f a
none >>= f = none

-- `dedup.contains` and `dedup.add`
unfoldable pub contains_id : String → List String → Bool
contains_id id delivered = elem id delivered

unfoldable pub add : String → List String → List String
add id delivered = if elem id delivered then delivered else id ∷ delivered

-- The payloads whose id the table does not have.
unfoldable pub undelivered : List String → List Payload → List Payload
undelivered delivered [] = []
undelivered delivered (payload ∷ payloads) =
    if contains_id (event_id payload) delivered
    then undelivered delivered payloads
    else payload ∷ undelivered delivered payloads

-- The last loop of `poll_once`.
unfoldable pub add_all : (ℕ → Bool) → ℕ → List Payload → Sync → Result (Unit {0}) × Sync
add_all commits n [] s = (ok tt, s)
add_all commits n (payload ∷ payloads) s =
    let rest =
      add_all commits (suc n) payloads
        (record s { delivered = add (event_id payload) s.delivered }) in
    if commits n then rest else (raised, s)

-- `max(int(record["sequence"]) for record in records)`
greatest_from : (Row → Option ℤ) → ℤ → List Row → Option ℤ
greatest_from sequence a [] = some a
greatest_from sequence a (record_ ∷ records) = do
  b ← sequence record_
  greatest_from sequence (if ltb_ℤ a b then b else a) records

unfoldable pub last_sequence : (Row → Option ℤ) → List Row → Option ℤ
unfolding greatest_from
last_sequence sequence [] = none
last_sequence sequence (record_ ∷ records) = do
  a ← sequence record_
  greatest_from sequence a records

-- A write of what the rest of the poll relies on.
abbrev pub effect : Write → Sync → Sync → Result (Unit {0}) × Sync
effect published before after = (ok tt, after)
effect refused before after = (raised, before)
effect interrupted before after = (raised, after)

unfoldable pub tell : Option Write → Option ℤ → Sync → Result (Unit {0}) × Sync
tell none _ s = (raised, s)
tell (some write) none s = (raised, s)
tell (some write) (some sequence) s = effect write s (record s { acknowledged = some sequence })

unfoldable pub acknowledge_records : Environment → List Row → Sync → Result (Unit {0}) × Sync
unfolding tell
acknowledge_records env [] s = (ok tt, s)
acknowledge_records env (record_ ∷ records) s =
    tell env.acknowledge (last_sequence env.sequence (record_ ∷ records)) s

unfoldable pub save_snapshot : Environment → Snapshot → Sync → Result (Unit {0}) × Sync
save_snapshot env current s = effect env.save_write s (record s { saved = current })

-- `_persist`, if the positions changed
unfoldable pub keep_positions : Bool → Dict Row × Bool → Sync → Result (Unit {0}) × Sync
keep_positions returns (positions, changed) s =
    if changed && not returns
    then (raised, record s { positions = positions })
    else (ok tt, record s { positions = positions })

unfoldable pub enqueue_payloads : Environment → List Payload → Sync → Result ℕ × Sync
enqueue_payloads env payloads s = (
  (enqueue_many env.enqueue_write payloads s.outbox).0,
  record s { outbox = (enqueue_many env.enqueue_write payloads s.outbox).1 },
)

-- `poll_once` from `self.outbox.enqueue_many(payloads)` on.
unfoldable pub commit :
    Environment → ℕ → List Row → Snapshot → List Payload → List String → Sync → Result ℕ × Sync
commit env delivered records current payloads closed s0 =
    then_on (enqueue_payloads env payloads s0) (λ _ s1.
      then_on (acknowledge_records env records s1) (λ _ s2.
        then_on (save_snapshot env current s2) (λ _ s3.
          then_on (keep_positions env.saves_discarded (discard closed (s3.positions, false)) s3)
            (λ _ s4. then_on (drain_outbox env.sink_after env.write_after s4) (λ sent_ s5.
              then_on (add_all env.commits 0 payloads s5)
                (λ _ s6. (ok (delivered + sent_), s6)))))))
