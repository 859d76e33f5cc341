-- ===== src/Tests/ApiClientTests.antt =====
-- Runs of windows_agent/api_client.py, and its theorems at concrete answers.
use tradejournal_mt5_cloud_w.Prelude.{◌≡◌, refl, true, false, not, none, some, [], ◌∷◌, ◌⊎◌}
use tradejournal_mt5_cloud_w.Prelude.Dict.{keys, elem}
use tradejournal_mt5_cloud_w.Value.{Row, get, str, bool}
use tradejournal_mt5_cloud_w.Value.Compare.{eq}
use tradejournal_mt5_cloud_w.JobRunner.{object, is_acknowledged, is_lease_valid}
use tradejournal_mt5_cloud_w.ApiClient.{
  has_fields, confirmed_status, validate_transition, validate_heartbeat,
}
use tradejournal_mt5_cloud_w.ApiClient.Contract.{
  validate_transition-is_acknowledged, validate_heartbeat_sound,
}

abbrev failed_answer : Row
failed_answer = ("api_version", str "1") ∷ ("status", str "failed") ∷ []

failed-valid : validate_transition failed_answer "fail" ≡ some failed_answer
unfolding validate_transition has_fields confirmed_status eq get keys elem
failed-valid = refl

validate_transition-is_acknowledged_example :
    is_acknowledged (object failed_answer) (confirmed_status "fail")
    ≡ not (eq (get "error_code" failed_answer) (str "lease_lost"))
validate_transition-is_acknowledged_example =
    validate_transition-is_acknowledged failed_answer failed_answer "fail" failed-valid

abbrev lost_answer : Row
lost_answer =
    ("api_version", str "1") ∷ ("lease_valid", bool false) ∷ ("error_code", str "lease_lost") ∷ []

lost-valid : validate_heartbeat lost_answer ≡ some lost_answer
unfolding validate_heartbeat has_fields eq get keys elem
lost-valid = refl

validate_heartbeat_sound_example :
    (is_lease_valid lost_answer ≡ true)
    ⊎ ((is_lease_valid lost_answer ≡ false)
        × (eq (get "error_code" lost_answer) (str "lease_lost") ≡ true))
validate_heartbeat_sound_example = validate_heartbeat_sound lost_answer lost_answer lost-valid

-- A field beside the contract's is a contract error.
extra_field : validate_transition (("note", str "x") ∷ failed_answer) "fail" ≡ none
unfolding validate_transition has_fields confirmed_status eq get keys elem
extra_field = refl
