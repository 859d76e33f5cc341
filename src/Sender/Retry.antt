-- ===== src/Sender/Retry.antt =====
-- worker/event_sender.py: what the retries of `send` amount to.
use native.Mathlib.Nat.{le_refl}
use native.Mathlib.Decide.{dec_lt}
use tradejournal_mt5_cloud_w.Prelude.{
  ℕ, zero, suc, min, ◌+◌, ◌-◌, ◌*◌, ◌≤◌, ◌<◌, ◌≡◌, refl, inl, inr, Bool, true, false, not, ◌||◌,
  Option, none, some, List, [], ◌∷◌, arith, ltb, ltb→lt, length, Bool-cases, if◌then◌else◌,
}
use tradejournal_mt5_cloud_w.Sender.{
  sent, failed, transient, permanent, SendError, exception, http, authentication_failed,
  rejected_by_api, SendResult, EventSender, Outcome, raised, response, Verdict, done, retry, judge,
  backoff, after_pause, attempt_loop, is_missing, is_recoverable_auth, is_transient_http, send,
}

-- The attempt neither delivers nor ends the loop.
abbrev pub IsRetried : Outcome → Type 0
IsRetried (raised name) = Unit
IsRetried (response code) =
    (ltb code 300 ≡ false) × (is_recoverable_auth code ≡ false) × (is_transient_http code ≡ true)

pub sum : List ℕ → ℕ
sum [] = 0
sum (x ∷ xs) = x + sum xs

-- The result of the first attempt that is not retried.
abbrev pub final : ℕ → ℕ → SendResult
final attempt code =
    if ltb code 300
    then record {
      status = sent;
      http_status = some code;
      error = none;
      attempts = attempt;
      failure_type = none;
    }
    else record {
      status = failed;
      http_status = some code;
      error = some (if is_recoverable_auth code then authentication_failed else rejected_by_api);
      attempts = attempt;
      failure_type = some (if is_recoverable_auth code then transient else permanent);
    }

abbrev pub IsFinal : ℕ → Type 0
IsFinal code = ltb code 300 || is_recoverable_auth code || not (is_transient_http code) ≡ true

module _ (sender : EventSender) (post : ℕ → Outcome) where
  backoff-le : (attempt : ℕ) → backoff sender attempt ≤ sender.max_backoff_ms
  unfolding backoff
  backoff-le attempt = omega arith

  judge-attempts :
      (attempt : ℕ) (code : Option ℕ) (o : Outcome) {r : SendResult}
      → judge attempt code o ≡ done r
      → r.attempts ≡ attempt
  unfolding judge
  judge-attempts attempt code (raised name) h = cc
  judge-attempts attempt code (response c) h = ground arith

  abbrev Bounded : ℕ → SendResult × List ℕ → Type 0
  Bounded attempt (r, pauses) =
      (r.attempts ≤ sender.max_retries)
      × (min attempt sender.max_retries + length pauses ≤ r.attempts)
      × (sum pauses ≤ length pauses * sender.max_backoff_ms)

  after_pause-Bounded :
      (attempt : ℕ) (r : SendResult × List ℕ)
      → Bounded (attempt + 1) r
      → Bounded attempt (after_pause sender post attempt r)
  unfolding after_pause sum
  after_pause-Bounded attempt (r, pauses) h = elim (Bool-cases (ltb attempt sender.max_retries)) [
    | inl more ↦ rw more (omega (arith, ltb→lt _ _ more, backoff-le attempt))
    | inr last ↦ rw last (omega (arith, h.1))
  ]

  attempt_loop-Bounded :
      (left attempt : ℕ) (error : Option SendError) (code : Option ℕ)
      → attempt + left ≡ sender.max_retries + 1
      → Bounded attempt (attempt_loop sender post left attempt error code)
  unfolding attempt_loop sum
  attempt_loop-Bounded zero attempt error code h = (omega arith, omega arith, omega arith)
  attempt_loop-Bounded (suc left) attempt error code h =
      go (judge attempt code (post attempt)) refl (attempt_loop-Bounded left (attempt + 1))
    where
      go :
          (v : Verdict)
          → judge attempt code (post attempt) ≡ v
          → ((e : Option SendError) (c : Option ℕ)
              → attempt + 1 + left ≡ sender.max_retries + 1
              → Bounded (attempt + 1) (attempt_loop sender post left (attempt + 1) e c))
          → Bounded attempt (attempt_loop sender post (suc left) attempt error code)
      go (done r) e ih =
          rw (e, attempt_loop) (omega (arith, judge-attempts attempt code (post attempt) e))
      go (retry err c) e ih =
          rw (e, attempt_loop) (after_pause-Bounded attempt _ (ih err c (omega arith)))

  abbrev WithinBudget : SendResult × List ℕ → Type 0
  WithinBudget (r, pauses) =
      (r.attempts ≤ sender.max_retries)
      × (length pauses ≤ r.attempts - 1)
      × (sum pauses ≤ length pauses * sender.max_backoff_ms)

  WithinBudget-if :
      (b : Bool) (x y : SendResult × List ℕ)
      → WithinBudget x
      → WithinBudget y
      → WithinBudget (if b then x else y)
  WithinBudget-if true x y hx hy = hx
  WithinBudget-if false x y hx hy = hy

  -- Whatever the API answers, one call makes at most `max_retries` attempts and pauses only between
  -- two of them, and its pauses together last at most their number times the longest backoff.
  pub send-WithinBudget :
      ((send sender post).0.attempts ≤ sender.max_retries)
      × (length (send sender post).1 ≤ (send sender post).0.attempts - 1)
      × (sum (send sender post).1 ≤ length (send sender post).1 * sender.max_backoff_ms)
  unfolding send sum
  send-WithinBudget =
      let loop = attempt_loop-Bounded sender.max_retries 1 none none (omega arith) in
      WithinBudget-if sender.is_dry_run _ _ (omega arith) (
        WithinBudget-if (is_missing sender.api_url || is_missing sender.bridge_token) _ _
          (omega arith) (omega (arith, loop)))

  retried_judge :
      (attempt : ℕ) (code : Option ℕ) (o : Outcome)
      → IsRetried o
      → (e : Option SendError) × (c : Option ℕ) × (judge attempt code o ≡ retry e c)
  unfolding judge
  retried_judge attempt code (raised name) h = (some (exception name), code, refl)
  retried_judge attempt code (response c) h = (some (http c), some c, rw (h.0, h.1, h.2))

  judge-final :
      (attempt code : ℕ) (last : Option ℕ)
      → IsFinal code
      → judge attempt last (response code) ≡ done (final attempt code)
  unfolding judge
  judge-final attempt code last h = ground arith

  attempt_loop-final :
      (left attempt k code : ℕ) (error : Option SendError) (last : Option ℕ)
      → ((j : ℕ) → attempt ≤ j → j < k → IsRetried (post j))
      → attempt ≤ k
      → k < attempt + left
      → post k ≡ response code
      → IsFinal code
      → (attempt_loop sender post left attempt error last).0 ≡ final k code
  unfolding attempt_loop after_pause
  attempt_loop-final zero attempt k code error last before lo hi e h = absurd (omega arith)
  attempt_loop-final (suc left) attempt k code error last before lo hi e h =
      elim (dec_lt attempt k) [
        | yes p ↦
            let (err, c, eq) =
              retried_judge attempt last (post attempt) (before attempt (le_refl _) p) in
            rw (eq, attempt_loop)
              (attempt_loop-final left (attempt + 1) k code err c
                (λ j a b. before j (omega arith) b) (omega arith) (omega arith) e h)
        | no p ↦
            let here : attempt ≡ k = omega arith in
            rw (here, e, judge-final k code last h, attempt_loop)
      ]

  -- With the target configured and no dry run: the first attempt whose outcome is not retried
  -- decides the result. A response below 300 is a delivery; 401 and 403 leave the event to be sent
  -- again; any other final status is a permanent refusal.
  pub send-final :
      (k code : ℕ)
      → sender.is_dry_run ≡ false
      → is_missing sender.api_url || is_missing sender.bridge_token ≡ false
      → 1 ≤ k
      → k ≤ sender.max_retries
      → ((j : ℕ) → 1 ≤ j → j < k → IsRetried (post j))
      → post k ≡ response code
      → IsFinal code
      → (send sender post).0 ≡ final k code
  unfolding send
  send-final k code wet target lo hi before e h =
      simp (wet, target)
        (attempt_loop-final sender.max_retries 1 k code none none before lo (omega arith) e h)
