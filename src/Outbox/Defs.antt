-- ===== src/Outbox/Defs.antt =====
-- The state of worker/event_outbox.py and its operations.
use Prim.Native.String.{◌++◌ as text_append}
use tradejournal_mt5_cloud_w.Prelude.{
  ℕ, suc, ◌+◌, String, Bool, true, false, not, Option, none, some, List, [], ◌∷◌, ◌++◌, length,
  str_eq, if◌then◌else◌, ◌==◌,
}
use tradejournal_mt5_cloud_w.Prelude.Int.{pos}
use tradejournal_mt5_cloud_w.Prelude.Dict.{Dict, lookup, insert, keys, elem}
use tradejournal_mt5_cloud_w.Value.{Value, null, int, str}
use tradejournal_mt5_cloud_w.Value.Text.{decimal}
use tradejournal_mt5_cloud_w.Json.{Json, scalar, array, object, fields, items}
use tradejournal_mt5_cloud_w.Sender.{sent, dry_run, failed, permanent, SendError, SendResult}

abbrev pub Payload : Type 0
Payload = Dict Json

pub record State : Type 0 where
  pub pending : List Payload
  pub dead_letter : Dict Payload

-- `_empty_state`
unfoldable pub empty_state : State
empty_state = record { pending = []; dead_letter = [] }

text_of : Option Json → String
text_of (some (scalar (str s))) = s
text_of _ = ""

-- `payload["event_id"]`, and "" where it is missing or no text
unfoldable pub event_id : Payload → String
unfolding text_of lookup
event_id payload = text_of (lookup "event_id" payload)

-- `_validate_payload` on an object: `event_id` is a text that is not empty.
unfoldable pub is_payload : Payload → Bool
is_payload payload = not (str_eq (event_id payload) "")

unfoldable pub ids : List Payload → List String
ids [] = []
ids (payload ∷ pending) = event_id payload ∷ ids pending

unfoldable pub known_ids : State → List String
known_ids state = ids state.pending ++ keys state.dead_letter

-- How a write of the file ends: the new document is in place, or the write raised and the old one
-- is, or it raised after the replacement (in `fsync_directory`).
pub data Write : Type 0 where
  published refused interrupted : Write

pub data Result {ℓ} (A : Type ℓ) : Type ℓ where
  ok : A → Result A
  raised : Result A

pub record Outbox : Type 0 where
  pub has_file : Bool
  pub state : State
  pub file : Option Json

unfoldable pub objects : List Payload → List Json
objects [] = []
objects (payload ∷ pending) = object (fields payload) ∷ objects pending

unfoldable pub object_entries : Dict Payload → Dict Json
object_entries [] = []
object_entries ((k, record_) ∷ d) = (k, object (fields record_)) ∷ object_entries d

-- The document that `_persist` dumps.
unfoldable pub encode : State → Json
encode state = object (
    fields (
      ("version", scalar (int (pos 2)))
      ∷ ("pending", array (items (objects state.pending)))
      ∷ ("dead_letter", object (fields (object_entries state.dead_letter)))
      ∷ []))

-- `_replace_state`: the file first, then the object in memory.
unfoldable pub replace_state : Write → State → Outbox → Result (Unit {0}) × Outbox
replace_state write new_state outbox =
    if outbox.has_file
    then elim write [
      | published ↦ (ok tt, record outbox { state = new_state; file = some (encode new_state) })
      | refused ↦ (raised, outbox)
      | interrupted ↦ (raised, record outbox { file = some (encode new_state) })
    ]
    else (ok tt, record outbox { state = new_state })

-- The loop of `enqueue_many`: the pending list, the known ids and `added`, over the batch.
unfoldable pub enqueue_loop : List Payload → List String → ℕ → List Payload → List Payload × ℕ
enqueue_loop pending known added [] = (pending, added)
enqueue_loop pending known added (payload ∷ batch) =
    let skipped = enqueue_loop pending known added batch in
    let appended =
      enqueue_loop (pending ++ payload ∷ []) (event_id payload ∷ known) (added + 1) batch in
    if elem (event_id payload) known then skipped else appended

unfoldable pub all_payloads : List Payload → Bool
all_payloads [] = true
all_payloads (payload ∷ batch) = if is_payload payload then all_payloads batch else false

unfoldable pub with_value : ℕ → Result (Unit {0}) × Outbox → Result ℕ × Outbox
with_value n (ok _, outbox) = (ok n, outbox)
with_value n (raised, outbox) = (raised, outbox)

unfoldable pub enqueue_many : Write → List Payload → Outbox → Result ℕ × Outbox
unfolding with_value
enqueue_many write batch outbox =
    if all_payloads batch
    then (let (pending, added) =
          enqueue_loop outbox.state.pending (known_ids outbox.state) 0 batch in
        if added == 0
        then (ok 0, outbox)
        else with_value added (
            replace_state write
              (record { pending = pending; dead_letter = outbox.state.dead_letter }) outbox))
    else (raised, outbox)

pub record DrainResult : Type 0 where
  pub sent_count : ℕ
  pub dry_run_count : ℕ
  pub dead_lettered : ℕ
  pub transient_failures : ℕ
  pub pending_left : ℕ

error_text : Option SendError → Value
error_text none = null
error_text (some SendError.missing_api_target) = str "missing_api_target"
error_text (some SendError.authentication_failed) = str "authentication_failed"
error_text (some SendError.rejected_by_api) = str "rejected_by_api"
error_text (some (SendError.exception name)) = str name
error_text (some (SendError.http code)) = str (text_append "http_" (decimal code))

status_value : Option ℕ → Value
status_value none = null
status_value (some code) = int (pos code)

-- The record that a permanent refusal leaves in `dead_letter`.
unfoldable pub dead_record : Payload → SendResult → Payload
unfolding error_text status_value
dead_record payload result =
    ("payload", object (fields payload))
    ∷ ("failure_type", scalar (str "permanent"))
    ∷ ("http_status", scalar (status_value result.http_status))
    ∷ ("error", scalar (error_text result.error))
    ∷ ("attempts", scalar (int (pos result.attempts)))
    ∷ []

-- What the result of one `sender.send` makes the loop do.
pub data Action : Type 0 where
  deliver stop_dry bury stop_transient : Action

unfoldable pub action : SendResult → Action
action result = elim result.status [
  | sent ↦ deliver
  | dry_run ↦ stop_dry
  | failed ↦ elim result.failure_type [ some permanent ↦ bury | _ ↦ stop_transient ]
]

abbrev tally : ℕ → ℕ → ℕ → ℕ → ℕ → DrainResult
tally sent_ dry dead failures left = record {
  sent_count = sent_;
  dry_run_count = dry;
  dead_lettered = dead;
  transient_failures = failures;
  pending_left = left;
}

abbrev with_pending : List Payload → Outbox → State
with_pending pending outbox = record { pending = pending; dead_letter = outbox.state.dead_letter }

-- What raises ends the drain.
unfoldable pub go_on :
    (Outbox → Result DrainResult × Outbox)
    → Result (Unit {0}) × Outbox
    → Result DrainResult × Outbox
go_on continue (ok _, outbox) = continue outbox
go_on continue (raised, outbox) = (raised, outbox)

-- The environment of a drain: the result of the n-th `sender.send`, if it does not raise, and how
-- the write that follows it ends.
module _ (send : ℕ → Payload → Option SendResult) (write : ℕ → Write) where
  -- The `while` loop. `index` stays 0, since a delivered event is popped from the front, so the
  -- loop runs over the pending list; `n` events are delivered so far.
  unfoldable pub drain_loop : List Payload → ℕ → Outbox → Result DrainResult × Outbox
  drain_loop [] n outbox = (ok (tally n 0 0 0 0), outbox)
  drain_loop (payload ∷ rest) n outbox = elim (send n payload) [
    | none ↦ (raised, outbox)
    | some result ↦ elim (action result) [
      | deliver ↦
          go_on (drain_loop rest (n + 1))
            (replace_state (write n) (with_pending rest outbox) outbox)
      | stop_dry ↦ (ok (tally n 1 0 0 (suc (length rest))), outbox)
      | bury ↦
          go_on (λ outbox'. (ok (tally n 0 1 0 (length rest)), outbox'))
            (replace_state (write n)
              (record {
                pending = rest;
                dead_letter =
                    insert (event_id payload) (dead_record payload result) outbox.state.dead_letter;
              })
              outbox)
      | stop_transient ↦ (ok (tally n 0 0 1 (suc (length rest))), outbox)
    ]
  ]

  -- `drain`: dead letters are a barrier.
  unfoldable pub drain : Outbox → Result DrainResult × Outbox
  drain outbox =
      if length outbox.state.dead_letter == 0
      then drain_loop outbox.state.pending 0 outbox
      else (ok (tally 0 0 0 0 (length outbox.state.pending)), outbox)
