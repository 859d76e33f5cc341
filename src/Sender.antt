-- ===== src/Sender.antt =====
-- worker/event_sender.py: delivery of one payload to the ingestion API with bounded retries.
-- `requests.post` is the parameter `post`, the outcome of each attempt; `self._sleep` is recorded
-- as the list of the pauses. The pauses are whole milliseconds.
pub mod Sanitize
pub mod Retry
pub mod Exhausted
use tradejournal_mt5_cloud_w.Prelude.{
  ℕ, zero, suc, ◌+◌, ◌-◌, ◌*◌, ◌^◌, min, String, Bool, true, false, ◌&&◌, ◌||◌, Option, none, some,
  List, [], ◌∷◌, ◌==◌, ltb, leb, str_eq, if◌then◌else◌,
}

pub data Status : Type 0 where
  sent dry_run failed : Status

pub data FailureType : Type 0 where
  transient permanent : FailureType

-- What `error` holds.
pub data SendError : Type 0 where
  missing_api_target authentication_failed rejected_by_api : SendError
  exception : String → SendError
  http : ℕ → SendError

pub record SendResult : Type 0 where
  pub status : Status
  pub http_status : Option ℕ
  pub error : Option SendError
  pub attempts : ℕ
  pub failure_type : Option FailureType

pub record EventSender : Type 0 where
  pub api_url : Option String
  pub bridge_token : Option String
  pub is_dry_run : Bool
  pub max_retries : ℕ
  pub backoff_base_ms : ℕ
  pub max_backoff_ms : ℕ

-- What one `requests.post` ends with: an exception of a type, or a response.
pub data Outcome : Type 0 where
  raised : String → Outcome
  response : ℕ → Outcome

-- `_RECOVERABLE_AUTH_STATUSES`
unfoldable pub is_recoverable_auth : ℕ → Bool
is_recoverable_auth code = code == 401 || code == 403

-- `_TRANSIENT_HTTP_STATUSES` and the server errors
unfoldable pub is_transient_http : ℕ → Bool
is_transient_http code = code == 408 || code == 425 || code == 429 || (leb 500 code && leb code 599)

-- Either `send` returns, or it goes on with a new `last_error` and `last_http_status`.
pub data Verdict : Type 0 where
  done : SendResult → Verdict
  retry : Option SendError → Option ℕ → Verdict

-- The body of the loop, up to the pause. An exception leaves `last_http_status` as it was.
unfoldable pub judge : ℕ → Option ℕ → Outcome → Verdict
unfolding is_recoverable_auth is_transient_http
judge attempt last_http_status (raised name) = retry (some (exception name)) last_http_status
judge attempt last_http_status (response code) =
    if ltb code 300
    then done (record {
      status = sent;
      http_status = some code;
      error = none;
      attempts = attempt;
      failure_type = none;
    })
    else if is_recoverable_auth code
    then done (record {
      status = failed;
      http_status = some code;
      error = some authentication_failed;
      attempts = attempt;
      failure_type = some transient;
    })
    else if is_transient_http code
    then retry (some (http code)) (some code)
    else done (record {
      status = failed;
      http_status = some code;
      error = some rejected_by_api;
      attempts = attempt;
      failure_type = some permanent;
    })

-- `min(base * 2 ** (attempt - 1), max)`
unfoldable pub backoff : EventSender → ℕ → ℕ
backoff sender attempt = min (sender.backoff_base_ms * 2 ^ (attempt - 1)) sender.max_backoff_ms

module _ (sender : EventSender) (post : ℕ → Outcome) where
  -- `if attempt < self.max_retries: self._sleep(backoff)`
  unfoldable pub after_pause : ℕ → SendResult × List ℕ → SendResult × List ℕ
  after_pause attempt (result, pauses) =
      (result, if ltb attempt sender.max_retries then backoff sender attempt ∷ pauses else pauses)

  -- The loop from `attempt` on, with the attempts that are left; the result and the pauses.
  unfoldable pub attempt_loop : ℕ → ℕ → Option SendError → Option ℕ → SendResult × List ℕ
  attempt_loop zero attempt last_error last_http_status = (
    record {
      status = failed;
      http_status = last_http_status;
      error = last_error;
      attempts = sender.max_retries;
      failure_type = some transient;
    },
    [],
  )
  attempt_loop (suc left) attempt last_error last_http_status =
      elim (judge attempt last_http_status (post attempt)) [
        | done result ↦ (result, [])
        | retry error code ↦ after_pause attempt (attempt_loop left (attempt + 1) error code)
      ]

-- `not value` of an optional text
unfoldable pub is_missing : Option String → Bool
is_missing none = true
is_missing (some s) = str_eq s ""

abbrev unsent : Status → Option SendError → Option FailureType → SendResult × List ℕ
unsent status error kind = (
  record { status = status; http_status = none; error = error; attempts = 0; failure_type = kind },
  [],
)

-- `EventSender.send`; what it logs is `Sanitize.sanitize_payload_for_log`.
unfoldable pub send : EventSender → (ℕ → Outcome) → SendResult × List ℕ
unfolding attempt_loop is_missing
send sender post =
    if sender.is_dry_run
    then unsent dry_run none none
    else if is_missing sender.api_url || is_missing sender.bridge_token
    then unsent failed (some missing_api_target) (some transient)
    else attempt_loop sender post sender.max_retries 1 none none
