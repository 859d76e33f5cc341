-- ===== src/StateStore.antt =====
-- windows_agent/state_store.py: `atomic_json`, which replaces a state file as a whole and refuses
-- a state that holds a secret. `json.dumps` and `str.lower` are parameters, and so is how the
-- write of a state ends on the disk.
use text.Mathlib.Text.{find?}
use tradejournal_mt5_cloud_w.Prelude.{
  ℕ, String, Bool, true, false, ◌||◌, Option, none, some, if◌then◌else◌,
}

-- `LeaseLost`, or another exception: the name of its class and its `error_code`, if it has one.
pub data Exception : Type 0 where
  lease_lost : Exception
  other : String → Option String → Exception

pub data Outcome (A : Type 0) : Type 0 where
  returned : A → Outcome A
  raised : Exception → Outcome A

-- How the disk ends a write: the new state is in place; it raised and the old one is; it raised
-- after the replacement.
pub data Write : Type 0 where
  published : Write
  refused interrupted : Exception → Write

is_hit : Option ℕ → Bool
is_hit none = false
is_hit (some n) = true

-- `any(f'"{marker}' in lowered for marker in SECRET_MARKERS)`
unfoldable pub holds_secret : String → Bool
unfolding is_hit
holds_secret lowered =
    is_hit (find? lowered "\"password")
    || is_hit (find? lowered "\"token")
    || is_hit (find? lowered "\"secret")
    || is_hit (find? lowered "\"authorization")

unfoldable pub written : {A : Type 0} → Write → A → Option A → Outcome (Unit {0}) × Option A
written published row file = (returned tt, some row)
written (refused e) row file = (raised e, file)
written (interrupted e) row file = (raised e, some row)

module _ {A : Type 0} (dumps : A → String) (lower : String → String) (disk : A → Write) where
  unfoldable pub atomic_json : A → Option A → Outcome (Unit {0}) × Option A
  atomic_json row file =
      if holds_secret (lower (dumps row))
      then (raised (other "ValueError" none), file)
      else written (disk row) row file
