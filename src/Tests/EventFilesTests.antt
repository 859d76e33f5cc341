-- ===== src/Tests/EventFilesTests.antt =====
-- Runs of the event files of windows_agent/worker/mql5_file_adapter.py, and its theorems at a concrete
-- directory.
use tradejournal_mt5_cloud_w.Prelude.{
  ℕ, ◌≡◌, refl, String, Bool, true, false, not, ◌==◌, none, some, List, [], ◌∷◌,
}
use tradejournal_mt5_cloud_w.Prelude.Int.{pos}
use tradejournal_mt5_cloud_w.Prelude.Dict.{lookup, insert, elem, merge}
use tradejournal_mt5_cloud_w.Value.{Row, get, or_else, is_some, truthy, bool, int, str}
use tradejournal_mt5_cloud_w.Value.Text.{to_str, decimal}
use tradejournal_mt5_cloud_w.Normalizer.{or_empty}
use tradejournal_mt5_cloud_w.LiveSync.Symbols.{upper_text}
use tradejournal_mt5_cloud_w.Outbox.{published}
use tradejournal_mt5_cloud_w.EventFiles.{
  File, Bridge, ok, as_sequence, last_sequence_of, is_settled, prune, prune_bridge, settle,
  settle_from, acknowledge_events, insert_by_number, sort_by_number, payloads, is_handed_off,
  event_of, with_payload, numbered, read_pending, sorted_payloads, read_bridge, pending_from,
  pending_events,
}
use tradejournal_mt5_cloud_w.EventFiles.Kept.{IsKept, acknowledge_events-IsKept}
use tradejournal_mt5_cloud_w.EventFiles.Pending.{IsPending, pending_events-IsPending}

abbrev upper : String → String
upper s = s

abbrev repr : ℕ → String
repr b = "0.1"

abbrev payload_of : ℕ → Row
payload_of n = ("event_type", str "DEAL_ADD") ∷ ("deal_id", int (pos n)) ∷ []

abbrev file_of : ℕ → File
file_of n = record {
  sequence = some n;
  is_plain = true;
  envelope = some (record { number = n; payload = some (payload_of n) });
}

-- The events 9, 7 and 8, of which 7 is acknowledged, and another file.
abbrev bridge : Bridge
bridge = record {
  exists = true;
  is_valid = true;
  files =
      file_of 9
      ∷ file_of 7
      ∷ record { sequence = none; is_plain = false; envelope = none }
      ∷ file_of 8
      ∷ [];
  checkpoint = ("last_sequence", int (pos 7)) ∷ [];
}

checkpoint_is : last_sequence_of bridge.checkpoint ≡ some 7
unfolding last_sequence_of as_sequence lookup
checkpoint_is = refl

-- The history has the deal 8.
abbrev events : List Row
events =
    (("sequence", int (pos 8))
      ∷ ("event_type", str "DEAL_ADD")
      ∷ ("deal_id", int (pos 8))
      ∷ ("history_archived", bool true)
      ∷ [])
    ∷ (("sequence", int (pos 9)) ∷ payload_of 9)
    ∷ []

pending_are : (pending_events upper repr ("8" ∷ []) (λ file. true) true bridge).0 ≡ ok events
unfolding pending_events pending_from last_sequence_of as_sequence lookup read_bridge prune_bridge
    prune is_settled read_pending numbered with_payload event_of is_handed_off upper_text or_empty
    to_str get or_else truthy is_some elem decimal merge insert sorted_payloads sort_by_number
    insert_by_number payloads
pending_are = refl

pending_events-IsPending_example : IsPending upper repr ("8" ∷ []) 7 bridge.files events
pending_events-IsPending_example =
    pending_events-IsPending upper repr ("8" ∷ []) (λ file. true) true bridge 7 events checkpoint_is
      refl pending_are

-- The deletion of the event 8 fails.
abbrev unlinks : File → Bool
unlinks file = elim file.sequence [ some n ↦ not (n == 8) | none ↦ true ]

acknowledge_events-IsKept_example :
    IsKept bridge (acknowledge_events "c" unlinks published (pos 8) bridge).1
acknowledge_events-IsKept_example =
    acknowledge_events-IsKept "c" unlinks published (pos 8) bridge 7 checkpoint_is

stuck_left :
    (acknowledge_events "c" unlinks published (pos 8) bridge).1.files
    ≡ file_of 9 ∷ record { sequence = none; is_plain = false; envelope = none } ∷ file_of 8 ∷ []
unfolding acknowledge_events settle_from settle prune_bridge prune is_settled last_sequence_of
    as_sequence lookup
stuck_left = refl
