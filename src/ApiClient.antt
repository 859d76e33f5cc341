-- ===== src/ApiClient.antt =====
-- windows_agent/api_client.py: the checks of the control plane's answers to a heartbeat and to a
-- transition. A contract error is `none`.
pub mod Contract
use tradejournal_mt5_cloud_w.Prelude.{
  String, Bool, true, false, not, ◌&&◌, ◌||◌, Option, none, some, List, [], ◌∷◌, str_eq,
  if◌then◌else◌,
}
use tradejournal_mt5_cloud_w.Prelude.Dict.{keys, elem}
use tradejournal_mt5_cloud_w.Value.{Value, Row, get, null, bool, int, float, str}
use tradejournal_mt5_cloud_w.Value.Compare.{eq}

subset : List String → List String → Bool
subset [] ys = true
subset (x ∷ xs) ys = if elem x ys then subset xs ys else false

-- `set(response) == {...}`
unfoldable pub has_fields : List String → Row → Bool
unfolding subset
has_fields fields response = subset fields (keys response) && subset (keys response) fields

is_v1 : Row → Bool
is_v1 response = eq (get "api_version" response) (str "1")

is_lost : Row → Bool
is_lost response = eq (get "error_code" response) (str "lease_lost")

accept_if : Bool → Row → Option Row
accept_if true response = some response
accept_if false response = none

-- `isinstance(value, bool)` decides first, then the value itself.
heartbeat_of : Value → Row → Option Row
unfolding accept_if is_lost
heartbeat_of (bool true) response =
    accept_if (has_fields ("api_version" ∷ "lease_valid" ∷ []) response) response
heartbeat_of (bool false) response =
    accept_if
      (has_fields ("api_version" ∷ "lease_valid" ∷ "error_code" ∷ []) response && is_lost response)
      response
heartbeat_of _ response = none

-- `_validate_heartbeat`
unfoldable pub validate_heartbeat : Row → Option Row
unfolding heartbeat_of is_v1
validate_heartbeat response =
    if is_v1 response then heartbeat_of (get "lease_valid" response) response else none

-- `"failed" if requested == "fail" else requested`
unfoldable pub confirmed_status : String → String
confirmed_status requested = if str_eq requested "fail" then "failed" else requested

-- `_validate_transition`
unfoldable pub validate_transition : Row → String → Option Row
unfolding is_v1 is_lost accept_if
validate_transition response requested =
    if is_v1 response
    then if is_lost response
      then accept_if (has_fields ("api_version" ∷ "error_code" ∷ []) response) response
      else accept_if
          (has_fields ("api_version" ∷ "status" ∷ []) response
            && eq (get "status" response) (str (confirmed_status requested)))
          response
    else none
