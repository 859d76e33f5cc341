-- ===== src/HistoryArchive.antt =====
-- windows_agent/worker/history_archive.py: the archive of an import, a document that is written once.
-- A date is the text that `isoformat` gives it in UTC.
pub mod Slices
pub mod Groups
pub mod Reuse
use tradejournal_mt5_cloud_w.Prelude.{
  ℕ, zero, suc, ◌+◌, String, Bool, true, false, not, ◌||◌, ◌&&◌, Option, none, some, List, [], ◌∷◌,
  ◌++◌, length, ltb, str_eq, if◌then◌else◌,
}
use tradejournal_mt5_cloud_w.Prelude.Int.{pos}
use tradejournal_mt5_cloud_w.Prelude.Dict.{Dict, lookup, insert, contains}
use tradejournal_mt5_cloud_w.Value.{Value, Row, null, int, str}
use tradejournal_mt5_cloud_w.Value.Compare.{eq}
use tradejournal_mt5_cloud_w.Value.Spaces.{strip}
use tradejournal_mt5_cloud_w.Value.Text.{to_str}
use tradejournal_mt5_cloud_w.Json.{Json, scalar, array, object, fields, entries, items}
use tradejournal_mt5_cloud_w.StateStore.{
  Exception, other, Outcome, returned, raised, Write, atomic_json,
}

pub data Problem : Type 0 where
  id_missing limit_exceeded invalid_mode identity_mismatch not_an_object : Problem
  write_failed : Exception → Problem

pub data Result (A : Type 0) : Type 0 where
  ok : A → Result A
  err : Problem → Result A

infixl 5 ◌>>=◌
abbrev pub ◌>>=◌ : {A B : Type 0} → Result A → (A → Result B) → Result B
ok a >>= f = f a
err e >>= f = err e

abbrev pub max_events : ℕ
max_events = 50000

abbrev pub max_events_per_group : ℕ
max_events_per_group = 4

pub record Group : Type 0 where
  pub external_trade_id : String
  pub events : List Row

-- The state of the first loop of `_groups`.
pub record Grouping : Type 0 where
  pub grouped : Dict (List Row)
  pub order : List String
  pub count : ℕ

or_empty : Option Value → Value
or_empty none = str ""
or_empty (some v) = v

-- `grouped[external_id]`, for an id that is there
unfoldable pub values_of : Option (List Row) → List Row
values_of none = []
values_of (some values) = values

-- `values[:n]` and `values[n:]`
unfoldable pub take : ℕ → List Row → List Row
take zero values = []
take (suc n) [] = []
take (suc n) (event ∷ values) = event ∷ take n values

unfoldable pub drop : ℕ → List Row → List Row
drop zero values = values
drop (suc n) [] = []
drop (suc n) (event ∷ values) = drop n values

-- The second loop for one id. A slice is not empty, so the length is enough fuel.
unfoldable pub slices : ℕ → String → List Row → List Group
slices zero external_id values = []
slices (suc fuel) external_id [] = []
slices (suc fuel) external_id (event ∷ values) =
    record { external_trade_id = external_id; events = take max_events_per_group (event ∷ values) }
    ∷ slices fuel external_id (drop max_events_per_group (event ∷ values))

unfoldable pub all_slices : Dict (List Row) → List String → List Group
all_slices grouped [] = []
all_slices grouped (external_id ∷ order) =
    let values = values_of (lookup external_id grouped) in
    slices (length values) external_id values ++ all_slices grouped order

-- The identity of an import.
pub record Import : Type 0 where
  pub job_id : String
  pub connection_id : String
  pub account_number : String
  pub server : String
  pub history_mode : String
  pub from_date : Option String

unfoldable pub from_value : Option String → Value
from_value none = null
from_value (some date) = str date

-- `document.get(key) == value`
unfoldable pub is_value : Option Json → Value → Bool
is_value none w = eq null w
is_value (some (scalar v)) w = eq v w
is_value (some _) w = false

is_text : Option Json → Bool
is_text (some (scalar (str s))) = true
is_text _ = false

is_list : Option Json → Bool
is_list (some (array xs)) = true
is_list _ = false

-- The test of `validate_history_document`, negated
unfoldable pub is_document_of : Import → Dict Json → Bool
unfolding from_value is_text is_list
is_document_of import_ document =
    is_value (lookup "schema_version" document) (int (pos 1))
    && is_value (lookup "job_id" document) (str import_.job_id)
    && is_value (lookup "connection_id" document) (str import_.connection_id)
    && is_value (lookup "account_number" document) (str import_.account_number)
    && is_value (lookup "server" document) (str import_.server)
    && is_value (lookup "history_mode" document) (str import_.history_mode)
    && is_value (lookup "from_date" document) (from_value import_.from_date)
    && is_text (lookup "generated_at" document)
    && is_list (lookup "trades" document)

unfoldable pub validate_history_document : Import → Dict Json → Result (Unit {0})
validate_history_document import_ document =
    if is_document_of import_ document then ok tt else err identity_mismatch

event_document : Row → Dict Json
event_document [] = []
event_document ((k, v) ∷ event) = (k, scalar v) ∷ event_document event

event_documents : List Row → List Json
unfolding event_document
event_documents [] = []
event_documents (event ∷ events) = object (fields (event_document event)) ∷ event_documents events

group_document : Group → Json
unfolding event_documents
group_document group = object (
    fields (
      ("external_trade_id", scalar (str group.external_trade_id))
      ∷ ("events", array (items (event_documents group.events)))
      ∷ []))

unfoldable pub group_documents : List Group → List Json
unfolding group_document
group_documents [] = []
group_documents (group ∷ groups_) = group_document group ∷ group_documents groups_

-- The fresh document.
unfoldable pub history_document : Import → String → List Group → Dict Json
unfolding from_value group_documents
history_document import_ now groups_ =
    ("schema_version", scalar (int (pos 1)))
    ∷ ("job_id", scalar (str import_.job_id))
    ∷ ("connection_id", scalar (str import_.connection_id))
    ∷ ("account_number", scalar (str import_.account_number))
    ∷ ("server", scalar (str import_.server))
    ∷ ("generated_at", scalar (str now))
    ∷ ("history_mode", scalar (str import_.history_mode))
    ∷ ("from_date", scalar (from_value import_.from_date))
    ∷ ("trades", array (items (group_documents groups_)))
    ∷ []

-- `read_json` of a file that is there
unfoldable pub read_document : Json → Result (Dict Json)
read_document (object fs) = ok (entries fs)
read_document _ = err not_an_object

unfoldable pub outcome_of :
    Dict Json → Outcome (Unit {0}) × Option Json → Result (Dict Json) × Option Json
outcome_of document (returned _, file) = (ok document, file)
outcome_of document (raised e, file) = (err (write_failed e), file)

module _ (float_repr : ℕ → String) where
  unfoldable pub external_id_of : Row → String
  unfolding or_empty
  external_id_of event = strip (to_str float_repr (or_empty (lookup "external_trade_id" event)))

  -- The round of the first loop, up to the count.
  unfoldable pub add_event : Row → Grouping → Grouping
  add_event event g =
      let id = external_id_of event in
      record {
        grouped = insert id (values_of (lookup id g.grouped) ++ event ∷ []) g.grouped;
        order = (if contains id g.grouped then g.order else g.order ++ id ∷ []);
        count = g.count + 1;
      }

  unfoldable pub group_events : List Row → Grouping → Result Grouping
  group_events [] g = ok g
  group_events (event ∷ events) g =
      let rest = group_events events (add_event event g) in
      if str_eq (external_id_of event) ""
      then err id_missing
      else if ltb max_events (add_event event g).count
      then err limit_exceeded
      else rest

  -- `_groups`
  unfoldable pub groups : List Row → Result (List Group)
  groups events = do
    g ← group_events events (record { grouped = []; order = []; count = 0 })
    ok (all_slices g.grouped g.order)

  -- `build_history_document`, at the given time
  unfoldable pub build_history_document : Import → String → List Row → Result (Dict Json)
  build_history_document import_ now events =
      if str_eq import_.history_mode "all_available" || str_eq import_.history_mode "from_date"
      then (do groups_ ← groups events; ok (history_document import_ now groups_))
      else err invalid_mode

  module _ (dumps : Json → String) (lower : String → String) (disk : Json → Write) where
    unfoldable pub publish : Result (Dict Json) → Result (Dict Json) × Option Json
    unfolding outcome_of
    publish (err e) = (err e, none)
    publish (ok document) =
        outcome_of document (atomic_json dumps lower disk (object (fields document)) none)

    -- `load_or_create_history_document`, with the content of the file
    unfoldable pub load_or_create :
        Import → String → List Row → Option Json → Result (Dict Json) × Option Json
    unfolding publish
    load_or_create import_ now events none = publish (build_history_document import_ now events)
    load_or_create import_ now events (some content) = (
      (do
        document ← read_document content
        _ ← validate_history_document import_ document
        ok document),
      some content,
    )
