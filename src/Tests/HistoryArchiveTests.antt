-- ===== src/Tests/HistoryArchiveTests.antt =====
-- Runs of windows_agent/worker/history_archive.py, and its theorems at concrete events.
use tradejournal_mt5_cloud_w.Prelude.{
  ℕ, ◌≤◌, ◌≡◌, refl, String, false, none, List, [], ◌∷◌, arith, length, All, str_eq,
}
use tradejournal_mt5_cloud_w.Prelude.Dict.{Dict, lookup, insert, contains, elem, keys}
use tradejournal_mt5_cloud_w.Value.{Row, str}
use tradejournal_mt5_cloud_w.Value.Text.{to_str}
use tradejournal_mt5_cloud_w.Value.Spaces.{strip}
use tradejournal_mt5_cloud_w.Json.{Json}
use tradejournal_mt5_cloud_w.StateStore.{Write, published, holds_secret, written, atomic_json}
use tradejournal_mt5_cloud_w.HistoryArchive.{
  ok, Import, Group, max_events, external_id_of, groups, group_events, add_event, all_slices,
  slices, take, drop, values_of, build_history_document, history_document, load_or_create, publish,
  outcome_of,
}
use tradejournal_mt5_cloud_w.HistoryArchive.Groups.{IsGroupedBy, groups-IsGroupedBy, groups-returns}
use tradejournal_mt5_cloud_w.HistoryArchive.Reuse.{
  IsPublished, load_or_create-IsPublished, load_or_create-again,
}

abbrev repr : ℕ → String
repr b = "0.1"

abbrev event_of : String → Row
event_of id = ("external_trade_id", str id) ∷ []

-- Five events of 7 around one of 8.
abbrev events : List Row
events =
    event_of "7" ∷ event_of "8" ∷ event_of "7" ∷ event_of " 7 " ∷ event_of "7" ∷ event_of "7" ∷ []

abbrev groups_ : List Group
groups_ =
    record {
      external_trade_id = "7";
      events = event_of "7" ∷ event_of "7" ∷ event_of " 7 " ∷ event_of "7" ∷ [];
    }
    ∷ record { external_trade_id = "7"; events = event_of "7" ∷ [] }
    ∷ record { external_trade_id = "8"; events = event_of "8" ∷ [] }
    ∷ []

groups_test : groups repr events ≡ ok groups_
unfolding groups group_events add_event external_id_of all_slices slices take drop values_of lookup
    insert contains elem keys to_str strip
groups_test = refl

groups-IsGroupedBy_example : IsGroupedBy repr events groups_
groups-IsGroupedBy_example = groups-IsGroupedBy repr events groups_ groups_test

events_named : All (λ event. str_eq (external_id_of repr event) "" ≡ false) events
unfolding external_id_of lookup to_str strip
events_named = (refl, (refl, (refl, (refl, (refl, (refl, tt))))))

events_fit : length events ≤ max_events
events_fit = omega arith

groups-returns_example : (made : List Group) × (groups repr events ≡ ok made)
groups-returns_example = groups-returns repr events events_named events_fit

abbrev import_ : Import
import_ = record {
  job_id = "j";
  connection_id = "c";
  account_number = "1";
  server = "Demo";
  history_mode = "all_available";
  from_date = none;
}

abbrev dumps : Json → String
dumps document = "{}"

abbrev same : String → String
same s = s

abbrev disk : Json → Write
disk document = published

abbrev document : Dict Json
document = history_document import_ "T0" groups_

created : (load_or_create repr dumps same disk import_ "T0" events none).0 ≡ ok document
unfolding load_or_create publish outcome_of build_history_document atomic_json holds_secret written
created = rw groups_test refl

load_or_create-IsPublished_example :
    IsPublished import_ document (load_or_create repr dumps same disk import_ "T0" events none).1
load_or_create-IsPublished_example =
    load_or_create-IsPublished repr dumps same disk import_ "T0" events none document created

load_or_create-again_example :
    let stored = (load_or_create repr dumps same disk import_ "T0" events none).1 in
    load_or_create repr dumps same disk import_ "T1" [] stored ≡ (ok document, stored)
load_or_create-again_example =
    load_or_create-again repr dumps same disk import_ "T0" "T1" events [] none document dumps same
      disk created
