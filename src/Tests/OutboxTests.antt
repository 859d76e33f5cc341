-- ===== src/Tests/OutboxTests.antt =====
-- Runs of worker/event_outbox.py, and its theorems at concrete outboxes.
use tradejournal_mt5_cloud_w.Prelude.{
  ℕ, ◌≡◌, refl, String, true, false, List, [], ◌∷◌, ◌++◌, length, Option, none, some, ◌==◌,
  if◌then◌else◌, ◌⊎◌, inr,
}
use tradejournal_mt5_cloud_w.Prelude.Dict.{lookup, keys, elem}
use tradejournal_mt5_cloud_w.Value.{str}
use tradejournal_mt5_cloud_w.Json.{scalar, fields, entries}
use tradejournal_mt5_cloud_w.Sender.{SendResult, Status, failed, permanent}
use tradejournal_mt5_cloud_w.Outbox.{
  Payload, State, Time, Write, published, interrupted, Outbox, ok, encode, object_entries,
  all_payloads, enqueue_loop, replace_state, enqueue_many, drain, known_ids, ids, event_id,
  is_payload, load,
}
use tradejournal_mt5_cloud_w.Outbox.Enqueue.{
  IsValid, fresh, enqueue_many-IsValid, enqueue_many-fresh,
}
use tradejournal_mt5_cloud_w.Outbox.Drain.{InFile, FollowsProtocol, drain-FollowsProtocol}
use tradejournal_mt5_cloud_w.Outbox.Conserve.{Confirmed, drain-IsValid, drain-keeps}
use tradejournal_mt5_cloud_w.Outbox.Storage.{load-encode}
use tradejournal_mt5_cloud_w.Outbox.Checked.{load-IsValid}

abbrev event : String → Payload
event id = ("event_id", scalar (str id)) ∷ []

abbrev start : State
start = record { pending = event "a" ∷ event "b" ∷ []; dead_letter = [] }

abbrev outbox : Outbox
outbox = record { has_file = true; state = start; file = some (encode start) }

abbrev batch : List Payload
batch = event "b" ∷ event "c" ∷ event "c" ∷ []

start-IsValid : IsValid start
unfolding known_ids ids event_id is_payload keys elem lookup
start-IsValid = record {
  payloads = (refl, (refl, tt));
  letters = tt;
  distinct = (refl, (refl, tt));
}

enqueue_many-IsValid_example : IsValid (enqueue_many published batch outbox).1.state
enqueue_many-IsValid_example = enqueue_many-IsValid published batch outbox start-IsValid

enqueue_batch : (enqueue_many published batch outbox).0 ≡ ok 1
unfolding enqueue_many all_payloads enqueue_loop replace_state known_ids ids event_id is_payload
    keys elem lookup
enqueue_batch = refl

enqueue_many-fresh_example :
    let s = (enqueue_many published batch outbox).1.state in
    let new = fresh (known_ids start) batch in
    (s.pending ≡ start.pending ++ new) × (s.dead_letter ≡ []) × (1 ≡ length new)
enqueue_many-fresh_example = enqueue_many-fresh published batch outbox enqueue_batch

abbrev refusal : SendResult
refusal = record {
  status = failed;
  http_status = some 422;
  error = none;
  attempts = 1;
  failure_type = some permanent;
}

-- The first event is delivered, and the second refused.
abbrev sender : ℕ → Payload → Option SendResult
sender n payload = some (
    if n == 0
    then record {
      status = Status.sent;
      http_status = some 201;
      error = none;
      attempts = 1;
      failure_type = none;
    }
    else refusal)

-- The first write raises after it has replaced the file.
abbrev writes : ℕ → Write
writes n = if n == 0 then interrupted else published

drain-FollowsProtocol_example :
    FollowsProtocol sender [] 0 (event "a" ∷ event "b" ∷ []) (drain sender writes outbox).1
drain-FollowsProtocol_example = drain-FollowsProtocol sender writes outbox (inr refl)

drain-IsValid_example :
    let after = (drain sender writes outbox).1 in IsValid after.state × InFile IsValid after
drain-IsValid_example = drain-IsValid sender writes outbox (inr refl) start-IsValid

drain-keeps_example :
    let after = (drain sender writes outbox).1 in
    ((elem "b" (known_ids after.state) ≡ true) ⊎ Confirmed sender "b")
    × InFile (λ s. (elem "b" (known_ids s) ≡ true) ⊎ Confirmed sender "b") after
unfolding known_ids ids event_id keys elem
drain-keeps_example = drain-keeps sender writes outbox (inr refl) "b" refl

abbrev no_times : String → Option Time
no_times s = none

load-encode_example : load no_times (some (encode start)) ≡ ok (start, false)
load-encode_example = load-encode no_times start start-IsValid

load-IsValid_example : IsValid start
unfolding encode entries fields lookup keys object_entries
load-IsValid_example = load-IsValid no_times (encode start) start false tt load-encode_example
