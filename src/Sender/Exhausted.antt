-- ===== src/Sender/Exhausted.antt =====
-- worker/event_sender.py: how `send` gives up.
use mathlib.Core.Path.{subst}
use tradejournal_mt5_cloud_w.Prelude.{
  ℕ, zero, suc, ◌+◌, ◌-◌, ◌≤◌, ◌<◌, ◌≡◌, refl, ap, ◌∙◌, true, false, ◌||◌, Option, none, some, List,
  [], ◌∷◌, arith, ltb,
}
use tradejournal_mt5_cloud_w.Sender.{
  failed, transient, SendError, exception, http, SendResult, EventSender, Outcome, raised, response,
  retry, judge, backoff, after_pause, attempt_loop, is_missing, send,
}
use tradejournal_mt5_cloud_w.Sender.Retry.{IsRetried}

abbrev pub error_of : Outcome → SendError
error_of (raised name) = exception name
error_of (response code) = http code

abbrev pub status_after : Outcome → Option ℕ → Option ℕ
status_after (raised name) status = status
status_after (response code) status = some code

module _ (sender : EventSender) (post : ℕ → Outcome) where
  -- What the attempt numbered so ended with, as an error; no attempt has no error.
  unfoldable pub last_error : ℕ → Option SendError
  last_error zero = none
  last_error (suc n) = some (error_of (post (suc n)))

  -- The status of the last response among the attempts up to this one.
  unfoldable pub last_http_status : ℕ → Option ℕ
  last_http_status zero = none
  last_http_status (suc n) = status_after (post (suc n)) (last_http_status n)

  -- The backoffs of so many attempts, from the given one on.
  unfoldable pub pauses_from : ℕ → ℕ → List ℕ
  pauses_from zero attempt = []
  pauses_from (suc n) attempt = backoff sender attempt ∷ pauses_from n (attempt + 1)

  -- The result of giving up.
  abbrev pub exhausted : SendResult
  exhausted = record {
    status = failed;
    http_status = last_http_status sender.max_retries;
    error = last_error sender.max_retries;
    attempts = sender.max_retries;
    failure_type = some transient;
  }

  judge-retried :
      (attempt : ℕ) (code : Option ℕ) (o : Outcome)
      → IsRetried o
      → judge attempt code o ≡ retry (some (error_of o)) (status_after o code)
  unfolding judge
  judge-retried attempt code (raised name) h = refl
  judge-retried attempt code (response c) h = rw (h.0, h.1, h.2) refl

  last-next :
      (n : ℕ)
      → (last_error (n + 1) ≡ some (error_of (post (n + 1))))
        × (last_http_status (n + 1) ≡ status_after (post (n + 1)) (last_http_status n))
  last-next n =
      let one_more : suc n ≡ n + 1 = omega arith in
      subst
        (λ (m : ℕ).
          (last_error m ≡ some (error_of (post m)))
          × (last_http_status m ≡ status_after (post m) (last_http_status n)))
        one_more (unfold last_error last_http_status in (refl, refl))

  attempt_loop-retried :
      (left n : ℕ)
      → IsRetried (post (n + 1))
      → attempt_loop sender post (suc left) (n + 1) (last_error n) (last_http_status n)
        ≡ after_pause sender post (n + 1) (
            attempt_loop sender post left
              (n + 1 + 1)
              (last_error (n + 1))
              (last_http_status (n + 1)))
  unfolding attempt_loop
  attempt_loop-retried left n h =
      rw
        (
          (last-next n).0,
          (last-next n).1,
          judge-retried (n + 1) (last_http_status n) (post (n + 1)) h,
          attempt_loop,
        )
        refl

  after_pause-exhausted :
      (left n : ℕ)
      → n + suc left ≡ sender.max_retries
      → after_pause sender post (n + 1) (exhausted, pauses_from (left - 1) (n + 1 + 1))
        ≡ (exhausted, pauses_from left (n + 1))
  unfolding after_pause pauses_from
  after_pause-exhausted zero n e =
      let last : ltb (n + 1) sender.max_retries ≡ false = ground arith in rw last refl
  after_pause-exhausted (suc left) n e =
      let more : ltb (n + 1) sender.max_retries ≡ true = ground arith in
      let fewer : suc left - 1 ≡ left = omega arith in rw (more, fewer) refl

  attempt_loop-exhausted :
      (left n : ℕ)
      → n + left ≡ sender.max_retries
      → ((j : ℕ) → n < j → j ≤ sender.max_retries → IsRetried (post j))
      → attempt_loop sender post left (n + 1) (last_error n) (last_http_status n)
        ≡ (exhausted, pauses_from (left - 1) (n + 1))
  unfolding attempt_loop
  attempt_loop-exhausted zero n here h =
      let same : n ≡ sender.max_retries = omega arith in unfold pauses_from in rw same refl
  attempt_loop-exhausted (suc left) n here h =
      attempt_loop-retried left n (h (n + 1) (omega arith) (omega arith))
      ∙ ap (after_pause sender post (n + 1))
          (attempt_loop-exhausted left (n + 1) (omega arith) (λ j a b. h j (omega arith) b))
      ∙ after_pause-exhausted left n (omega arith)
      ∙ (let fewer : left ≡ suc left - 1 = omega arith in
          ap (λ (l : ℕ). (exhausted, pauses_from l (n + 1))) fewer)

  -- With the target configured and no dry run: if all attempts are retried, the result is a
  -- transient failure with `max_retries` attempts, the error of the last of them, and the status of
  -- the last response among them; and the pauses are the backoffs of all attempts but the last.
  pub send-exhausted :
      sender.is_dry_run ≡ false
      → is_missing sender.api_url || is_missing sender.bridge_token ≡ false
      → ((j : ℕ) → 1 ≤ j → j ≤ sender.max_retries → IsRetried (post j))
      → send sender post ≡ (exhausted, pauses_from (sender.max_retries - 1) 1)
  unfolding send last_error last_http_status
  send-exhausted wet target h =
      simp (wet, target)
        (attempt_loop-exhausted sender.max_retries 0 (omega arith) (λ j a b. h j (omega arith) b))
