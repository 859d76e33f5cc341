-- ===== src/Supervisor.antt =====
-- windows_agent/event_supervisor.py: which accounts a cycle polls, and how it keeps the failure of
-- one from the others. The directory of the instances is the list of its entries, in any order, and
-- an instant of the monotonic clock is a number of milliseconds. The reading of a UUID is the
-- language's, and a parameter.
pub mod Ready
pub mod Isolated
use tradejournal_mt5_cloud_w.Prelude.{
  ℕ, ◌+◌, ◌-◌, String, Bool, true, false, not, ◌&&◌, ◌||◌, Option, none, some, List, [], ◌∷◌, ◌++◌,
  leb, str_eq, if◌then◌else◌,
}
use tradejournal_mt5_cloud_w.Prelude.Dict.{Dict, lookup, insert, remove}
use tradejournal_mt5_cloud_w.Prelude.Sort.{sorted}
use tradejournal_mt5_cloud_w.Value.{Row, get, str}
use tradejournal_mt5_cloud_w.Value.Compare.{eq}

-- A child of `instances_root`, with its `state/job_progress.json` and its files of secrets.
pub record Entry : Type 0 where
  pub name : String
  pub is_dir : Bool
  pub is_symlink : Bool
  pub progress_is_symlink : Bool
  pub progress_is_file : Bool
  -- `read_json` of it, where none is an OSError or a ValueError
  pub progress : Option Row
  pub has_secret : String → Bool

-- What `self._processor` does for a connection: it returns, or raises an exception at an instant. The
-- first text stands for the class of the exception, another one for every class, and the second is
-- its `__name__`.
pub data Processed : Type 0 where
  delivered : ℕ → Processed
  failed : String → String → ℕ → Processed

-- `self._last_error`, the count of the cycle, and the warnings of the log.
pub record Cycle : Type 0 where
  pub total : ℕ
  pub last_error : Dict (String × ℕ)
  pub warnings : List (String × String)

unfoldable pub is_connected : String → Option Row → Bool
is_connected connection_id none = false
is_connected connection_id (some progress) =
    eq (get "connection_id" progress) (str connection_id)
    && eq (get "status" progress) (str "connected")

unfoldable pub has_secrets : (String → Bool) → Bool
has_secrets has_secret =
    has_secret "mt5_login" && has_secret "mt5_server" && has_secret "bridge_token"

is_canonical : String → Option String → Bool
is_canonical value none = false
is_canonical value (some parsed) = str_eq parsed value

module _ (parse_uuid : String → Option String) where
  -- `canonical_uuid` of windows_agent/security.py: the text is that of the UUID that it names.
  unfoldable pub canonical_uuid : String → Option String
  unfolding is_canonical
  canonical_uuid value = if is_canonical value (parse_uuid value) then some value else none

  is_known : Option String → Bool
  is_known none = false
  is_known (some id) = true

  -- The tests of the loop of `_connection_ids`. A canonical UUID is the name itself.
  unfoldable pub is_ready : Entry → Bool
  unfolding is_known is_connected has_secrets
  is_ready entry =
      entry.is_dir
      && not entry.is_symlink
      && is_known (canonical_uuid entry.name)
      && not entry.progress_is_symlink
      && entry.progress_is_file
      && is_connected entry.name entry.progress
      && has_secrets entry.has_secret

  unfoldable pub discovered : List Entry → List String
  discovered [] = []
  discovered (entry ∷ entries) =
      if is_ready entry then entry.name ∷ discovered entries else discovered entries

  -- `_connection_ids`; none: `instances_root` does not exist
  unfoldable pub connection_ids : Option (List Entry) → List String
  connection_ids none = []
  connection_ids (some entries) = sorted (discovered entries)

-- `previous is None or previous[0] is not type(exc) or now - previous[1] >= 60`
unfoldable pub is_due : Option (String × ℕ) → String → ℕ → Bool
is_due none class_ now = true
is_due (some (before, at)) class_ now = not (str_eq before class_) || leb 60000 (now - at)

-- The round of one connection in `poll_once`.
unfoldable pub handle : String → Processed → Cycle → Cycle
handle id (delivered n) c = record c { total = c.total + n; last_error = remove id c.last_error }
handle id (failed class_ name now) c =
    if is_due (lookup id c.last_error) class_ now
    then record c {
      last_error = insert id (class_, now) c.last_error;
      warnings = c.warnings ++ (id, name) ∷ [];
    }
    else c

unfoldable pub handle_all : (String → Processed) → List String → Cycle → Cycle
handle_all processor [] c = c
handle_all processor (id ∷ ids) c = handle_all processor ids (handle id (processor id) c)

-- `poll_once`
unfoldable pub poll_cycle :
    (String → Option String)
    → (String → Processed)
    → Option (List Entry)
    → Dict (String × ℕ)
    → Cycle
poll_cycle parse_uuid processor entries last_error =
    handle_all processor (connection_ids parse_uuid entries)
      (record { total = 0; last_error = last_error; warnings = [] })
