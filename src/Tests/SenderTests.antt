-- ===== src/Tests/SenderTests.antt =====
-- Runs of worker/event_sender.py, and its theorems at concrete senders.
use tradejournal_mt5_cloud_w.Prelude.{
  ℕ, zero, suc, ◌≤◌, ◌<◌, ◌-◌, ◌*◌, length, ◌≡◌, refl, String, false, [], ◌∷◌, arith, some, ◌==◌,
  if◌then◌else◌,
}
use tradejournal_mt5_cloud_w.Value.{Row, get, str, truthy, is_some}
use tradejournal_mt5_cloud_w.Value.Text.{to_str}
use tradejournal_mt5_cloud_w.Sender.{
  after_pause, EventSender, Outcome, raised, response, send, judge, backoff, is_missing,
  is_recoverable_auth, is_transient_http,
}
use tradejournal_mt5_cloud_w.Sender.Retry.{sum, final, IsRetried, send-WithinBudget, send-final}
use tradejournal_mt5_cloud_w.Sender.Exhausted.{exhausted, pauses_from, send-exhausted}
use tradejournal_mt5_cloud_w.Sender.Sanitize.{
  mask_value, is_secret_key, holds_marker, text_or_none, replace, logged_value,
  sanitize_payload_for_log, sanitize-agree,
}

abbrev sender : EventSender
sender = record {
  api_url = some "https://api";
  bridge_token = some "t";
  is_dry_run = false;
  max_retries = 3;
  backoff_base_ms = 500;
  max_backoff_ms = 8000;
}

-- A timeout, then 503, then 201.
abbrev flaky : ℕ → Outcome
flaky n = if n == 1 then raised "ConnectTimeout" else if n == 2 then response 503 else response 201

send-flaky : send sender flaky ≡ (final 3 201, 500 ∷ 1000 ∷ [])
unfolding send judge backoff after_pause
send-flaky = refl

send-WithinBudget_example :
    ((send sender flaky).0.attempts ≤ 3)
    × (length (send sender flaky).1 ≤ (send sender flaky).0.attempts - 1)
    × (sum (send sender flaky).1 ≤ length (send sender flaky).1 * 8000)
send-WithinBudget_example = send-WithinBudget sender flaky

flaky-IsRetried : (j : ℕ) → 1 ≤ j → j < 3 → IsRetried (flaky j)
unfolding is_recoverable_auth is_transient_http
flaky-IsRetried zero lo hi = absurd (omega arith)
flaky-IsRetried (suc zero) lo hi = tt
flaky-IsRetried (suc (suc zero)) lo hi = (refl, refl, refl)
flaky-IsRetried (suc (suc (suc j))) lo hi = absurd (omega arith)

send-final_example : (send sender flaky).0 ≡ final 3 201
unfolding is_missing
send-final_example =
    send-final sender flaky 3 201 refl refl (omega arith) (omega arith) flaky-IsRetried refl refl

abbrev dead : ℕ → Outcome
dead n = raised "ConnectionError"

send-exhausted_example : send sender dead ≡ (exhausted sender dead, pauses_from sender dead 2 1)
unfolding is_missing
send-exhausted_example = send-exhausted sender dead refl refl (λ j a b. tt)

dead_pauses : (send sender dead).1 ≡ 500 ∷ 1000 ∷ []
unfolding send judge backoff after_pause
dead_pauses = refl

abbrev same_text : String → String
same_text s = s

abbrev no_floats : ℕ → String
no_floats b = "float"

abbrev payload : String → Row
payload token =
    ("event_id", str "mt5-12345-trade_opened-7")
    ∷ ("account_number", str "12345")
    ∷ ("bridge_token", str token)
    ∷ []

log_masks :
    sanitize_payload_for_log same_text no_floats (payload "abc")
    ≡ ("event_id", str "mt5-12*45-trade_opened-7")
      ∷ ("account_number", str "12*45")
      ∷ ("bridge_token", str "<redacted>")
      ∷ []
unfolding sanitize_payload_for_log logged_value is_secret_key holds_marker text_or_none mask_value
    replace get truthy to_str is_some
log_masks = refl

sanitize-agree_example :
    sanitize_payload_for_log same_text no_floats (payload "abc")
    ≡ sanitize_payload_for_log same_text no_floats (payload "xyz")
unfolding is_secret_key holds_marker
sanitize-agree_example =
    sanitize-agree same_text no_floats (payload "abc") (payload "xyz") refl
      (refl, (λ h. refl), (refl, (λ h. refl), (refl, (λ h. cc), tt)))
