-- ===== src/Tests/SupervisorTests.antt =====
-- Runs of windows_agent/event_supervisor.py, and its theorems at concrete accounts.
use tradejournal_mt5_cloud_w.Prelude.{
  ◌≡◌, refl, String, true, false, Option, some, List, [], ◌∷◌, str_eq, if◌then◌else◌,
}
use tradejournal_mt5_cloud_w.Prelude.Dict.{elem, lookup, remove, keys, Distinct}
use tradejournal_mt5_cloud_w.Prelude.Sort.{sorted}
use tradejournal_mt5_cloud_w.Value.{Row, get, str}
use tradejournal_mt5_cloud_w.Value.Compare.{eq}
use tradejournal_mt5_cloud_w.Supervisor.{
  Entry, Processed, delivered, failed, Cycle, canonical_uuid, is_ready, is_connected, has_secrets,
  discovered, connection_ids, handle, handle_all, is_due,
}
use tradejournal_mt5_cloud_w.Supervisor.Ready.{Any, IsConnected, connection_ids-Any}
use tradejournal_mt5_cloud_w.Supervisor.Isolated.{IsIsolated, handle_all-IsIsolated}

abbrev itself : String → Option String
itself name = some name

abbrev progress_of : String → String → Row
progress_of id status = ("connection_id", str id) ∷ ("status", str status) ∷ []

abbrev entry_of : String → String → Entry
entry_of id status = record {
  name = id;
  is_dir = true;
  is_symlink = false;
  progress_is_symlink = false;
  progress_is_file = true;
  progress = some (progress_of id status);
  has_secret = λ name. true;
}

abbrev entries : List Entry
entries = entry_of "b" "connected" ∷ entry_of "c" "importing" ∷ entry_of "a" "connected" ∷ []

polled : connection_ids itself (some entries) ≡ "a" ∷ "b" ∷ []
unfolding connection_ids discovered is_ready is_connected has_secrets canonical_uuid sorted eq get
    lookup
polled = refl

a_polled : elem "a" (connection_ids itself (some entries)) ≡ true
unfolding elem
a_polled = rw polled refl

connection_ids-Any_example : Any (IsConnected "a") entries
connection_ids-Any_example = connection_ids-Any itself "a" entries a_polled

-- The first account fails, as it did half a minute before, and the second delivers.
abbrev processor : String → Processed
processor id = if str_eq id "a" then failed "builtins.OSError" "OSError" 90000 else delivered 3

abbrev before : Cycle
before = record {
  total = 0;
  last_error = ("b", ("builtins.OSError", 50000)) ∷ ("a", ("builtins.OSError", 60000)) ∷ [];
  warnings = [];
}

quiet :
    handle_all processor ("a" ∷ "b" ∷ []) before
    ≡ record { total = 3; last_error = ("a", ("builtins.OSError", 60000)) ∷ []; warnings = [] }
unfolding handle_all handle is_due lookup remove
quiet = refl

ids-Distinct : Distinct ("a" ∷ "b" ∷ [])
unfolding elem
ids-Distinct = (refl, (refl, tt))

keys-Distinct : Distinct (keys before.last_error)
unfolding keys elem
keys-Distinct = (refl, (refl, tt))

handle_all-IsIsolated_example :
    IsIsolated processor ("a" ∷ "b" ∷ []) before (handle_all processor ("a" ∷ "b" ∷ []) before)
handle_all-IsIsolated_example =
    handle_all-IsIsolated processor ("a" ∷ "b" ∷ []) before ids-Distinct keys-Distinct
