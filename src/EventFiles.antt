-- ===== src/EventFiles.antt =====
-- windows_agent/worker/mql5_file_adapter.py: the event files of the bridge, `pending_events` and
-- `acknowledge_events`. The directory is the list of its entries, in the order of `iterdir`.
pub mod Kept
pub mod Pending
use tradejournal_mt5_cloud_w.Prelude.{
  ℕ, String, Bool, true, false, not, ◌&&◌, ◌||◌, Option, none, some, List, [], ◌∷◌, ltb, leb,
  str_eq, ◌==◌, if◌then◌else◌,
}
use tradejournal_mt5_cloud_w.Prelude.Int.{ℤ, pos, negsuc}
use tradejournal_mt5_cloud_w.Prelude.Dict.{lookup, insert, elem, merge}
use tradejournal_mt5_cloud_w.Value.{Value, Row, get, or_else, is_some, null, bool, int, str}
use tradejournal_mt5_cloud_w.Value.Text.{to_str}
use tradejournal_mt5_cloud_w.LiveSync.Symbols.{upper_text}
use tradejournal_mt5_cloud_w.Outbox.{Write, published, refused, interrupted}

-- What `_read_path_envelope` returns: the sequence number and the payload, if it is an object.
pub record Envelope : Type 0 where
  pub number : ℕ
  pub payload : Option Row

pub record File : Type 0 where
  -- the number in the name, if the name is that of an event
  pub sequence : Option ℕ
  -- no symbolic link, and a file
  pub is_plain : Bool
  -- none: reading it raises
  pub envelope : Option Envelope

-- The directory `events`, if it exists, and whether it is a directory and no link.
pub record Bridge : Type 0 where
  pub exists : Bool
  pub is_valid : Bool
  pub files : List File
  -- the content of `file-event-checkpoint.json`, `{}` where there is none
  pub checkpoint : Row

pub data Result (A : Type 0) : Type 0 where
  ok : A → Result A
  raised : Result A

-- `isinstance(value, int)` and not negative; a bool is an int
unfoldable pub as_sequence : Option Value → Option ℕ
as_sequence none = some 0
as_sequence (some (int (pos n))) = some n
as_sequence (some (bool b)) = some (if b then 1 else 0)
as_sequence (some _) = none

-- `checkpoint.get("last_sequence", 0)`, checked
unfoldable pub last_sequence_of : Row → Option ℕ
unfolding as_sequence
last_sequence_of checkpoint = as_sequence (lookup "last_sequence" checkpoint)

-- The entry is an event beyond the sequence number.
unfoldable pub is_beyond : ℕ → Option ℕ → Bool
is_beyond through none = false
is_beyond through (some n) = ltb through n

-- The entry is an event up to the sequence number.
unfoldable pub is_settled : ℕ → Option ℕ → Bool
is_settled through none = false
is_settled through (some n) = leb n through

-- `_prune_acknowledged_event_files`: whether it returns, and the entries that are left. `unlinks`
-- says of which entries the deletion succeeds.
unfoldable pub prune : (File → Bool) → ℕ → List File → Bool × List File
prune unlinks through [] = (true, [])
prune unlinks through (file ∷ files) =
    let (returns, left) = prune unlinks through files in
    if not (is_settled through file.sequence)
    then (returns, file ∷ left)
    else if file.is_plain && unlinks file
    then (returns, left)
    else (false, file ∷ files)

-- A directory is pruned only if it is there, and raises if it is no directory.
unfoldable pub prune_bridge : (File → Bool) → ℕ → Bridge → Result (Unit {0}) × Bridge
prune_bridge unlinks through bridge =
    if not bridge.exists
    then (ok tt, bridge)
    else if not bridge.is_valid
    then (raised, bridge)
    else (
      (if (prune unlinks through bridge.files).0 then ok tt else raised),
      record bridge { files = (prune unlinks through bridge.files).1 },
    )

module _ (connection_id : String) (unlinks : File → Bool) where
  unfoldable pub new_checkpoint : ℕ → Row
  new_checkpoint through =
      ("connection_id", str connection_id) ∷ ("last_sequence", int (pos through)) ∷ []

  -- `atomic_json` of the checkpoint, and what follows if it returns
  unfoldable pub settle : Write → ℕ → Bridge → Result (Unit {0}) × Bridge
  unfolding new_checkpoint
  settle published through bridge =
      prune_bridge unlinks through (record bridge { checkpoint = new_checkpoint through })
  settle refused through bridge = (raised, bridge)
  settle interrupted through bridge =
      (raised, record bridge { checkpoint = new_checkpoint through })

  unfoldable pub settle_from : Option ℕ → Write → ℕ → Bridge → Result (Unit {0}) × Bridge
  settle_from none write through bridge = (raised, bridge)
  settle_from (some previous) write through bridge =
      if ltb through previous then (raised, bridge) else settle write through bridge

  -- `acknowledge_events`
  unfoldable pub acknowledge_events : Write → ℤ → Bridge → Result (Unit {0}) × Bridge
  unfolding settle_from
  acknowledge_events write (negsuc n) bridge = (raised, bridge)
  acknowledge_events write (pos through) bridge =
      settle_from (last_sequence_of bridge.checkpoint) write through bridge

abbrev pub Numbered : Type 0
Numbered = ℕ × Row

-- `pending.sort(key=lambda item: item[0])`, which keeps the order of equal numbers
unfoldable pub insert_by_number : Numbered → List Numbered → List Numbered
insert_by_number x [] = x ∷ []
insert_by_number x (y ∷ ys) =
    let later = y ∷ insert_by_number x ys in if leb x.0 y.0 then x ∷ y ∷ ys else later

unfoldable pub sort_by_number : List Numbered → List Numbered
sort_by_number [] = []
sort_by_number (x ∷ xs) = insert_by_number x (sort_by_number xs)

unfoldable pub payloads : List Numbered → List Row
payloads [] = []
payloads ((n, event) ∷ pending) = event ∷ payloads pending

infixl 5 ◌>>=◌
abbrev pub ◌>>=◌ : {A B : Type 0} → Option A → (A → Option B) → Option B
some a >>= f = f a
none >>= f = none

-- The parameters are the language's. `handoff` is what `_history_handoff_deal_tickets` returns.
module _ (upper : String → String) (float_repr : ℕ → String) (handoff : List String) where
  -- An event of which the history has the deal.
  unfoldable pub is_handed_off : Row → Bool
  is_handed_off event =
      let ticket = or_else (get "deal_id" event) (get "ticket" event) in
      str_eq (upper_text upper float_repr "event_type" event) "DEAL_ADD"
      && is_some ticket
      && elem (to_str float_repr ticket) handoff

  unfoldable pub event_of : ℕ → Row → Row
  event_of number payload =
      let event = merge (("sequence", int (pos number)) ∷ []) payload in
      if is_handed_off event then insert "history_archived" (bool true) event else event

  unfoldable pub with_payload : ℕ → Option Row → Option Numbered
  with_payload n none = none
  with_payload n (some payload) = some (n, event_of n payload)

  unfoldable pub numbered : ℕ → Option Envelope → Option Numbered
  numbered n none = none
  numbered n (some envelope) =
      if envelope.number == n then with_payload n envelope.payload else none

  -- The loop of `pending_events`.
  unfoldable pub read_pending : ℕ → List File → Option (List Numbered)
  read_pending last [] = some []
  read_pending last (file ∷ files) = elim file.sequence [
    | none ↦ read_pending last files
    | some n ↦
        let skipped = read_pending last files in
        let read =
          numbered n file.envelope
          >>= (λ event. read_pending last files >>= (λ pending. some (event ∷ pending))) in
        if not file.is_plain then none else if leb n last then skipped else read
  ]

  unfoldable pub sorted_payloads : Option (List Numbered) → Result (List Row)
  sorted_payloads none = raised
  sorted_payloads (some pending) = ok (payloads (sort_by_number pending))

  -- The rest of `pending_events`, once the directory is pruned.
  unfoldable pub read_bridge : Bool → ℕ → Result (Unit {0}) × Bridge → Result (List Row) × Bridge
  read_bridge handoff_returns last (raised, bridge) = (raised, bridge)
  read_bridge handoff_returns last (ok _, bridge) =
      if handoff_returns
      then (sorted_payloads (read_pending last bridge.files), bridge)
      else (raised, bridge)

  unfoldable pub pending_from :
      (File → Bool) → Bool → Option ℕ → Bridge → Result (List Row) × Bridge
  pending_from unlinks handoff_returns none bridge = (raised, bridge)
  pending_from unlinks handoff_returns (some last) bridge =
      if bridge.exists
      then read_bridge handoff_returns last (prune_bridge unlinks last bridge)
      else (ok [], bridge)

  -- `pending_events`; `handoff_returns` is whether `_history_handoff_deal_tickets` returns
  unfoldable pub pending_events : (File → Bool) → Bool → Bridge → Result (List Row) × Bridge
  pending_events unlinks handoff_returns bridge =
      pending_from unlinks handoff_returns (last_sequence_of bridge.checkpoint) bridge
