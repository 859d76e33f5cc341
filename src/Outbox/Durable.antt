-- ===== src/Outbox/Durable.antt =====
-- worker/event_outbox.py: an operation that returns leaves the file as the state, and a batch that
-- was accepted is stored.
use mathlib.Core.Path.{subst}
use tradejournal_mt5_cloud_w.Prelude.{
  ℕ, ◌+◌, ◌≡◌, refl, String, true, List, [], ◌∷◌, ◌++◌, arith, length, Option, some, Bool-cases,
  ◌⊎◌, inl, inr, ◌==◌, Option-cases, str_eq, eq_iff,
}
use tradejournal_mt5_cloud_w.Prelude.Dict.{keys, elem, elem-append}
use tradejournal_mt5_cloud_w.Sender.{SendResult}
use tradejournal_mt5_cloud_w.Outbox.{
  Payload, State, event_id, ids, known_ids, Write, published, refused, interrupted, Result, ok,
  raised, Outbox, replace_state, encode, DrainResult, Action, deliver, bury, action, go_on,
  drain_loop, drain, enqueue_many, all_payloads, with_value, enqueue_loop,
}
use tradejournal_mt5_cloud_w.Outbox.Enqueue.{fresh, ids-append, enqueue_many-fresh}
use tradejournal_mt5_cloud_w.Outbox.Drain.{IsSaved}

-- A run that returns leaves the file as the state.
abbrev pub EndsSaved {ℓ} : (A : Type ℓ) → Result A × Outbox → Type ℓ
EndsSaved A (r, outbox) = (a : A) → r ≡ ok a → IsSaved outbox

replace_state-IsSaved :
    (write : Write) (s : State) (outbox : Outbox)
    → IsSaved outbox
    → EndsSaved (Unit {0}) (replace_state write s outbox)
unfolding replace_state
replace_state-IsSaved write s outbox saved = elim (Bool-cases outbox.has_file) [
  | inr none_ ↦ rw none_ (λ a h. inl refl)
  | inl file ↦ rw file (by_write write)
]
  where
    by_write :
        (w : Write)
        → EndsSaved (Unit {0}) (elim w [
          | published ↦ (ok tt, record outbox { state = s; file = some (encode s) })
          | refused ↦ (raised, outbox)
          | interrupted ↦ (raised, record outbox { file = some (encode s) })
        ])
    by_write published = λ a h. inr refl
    by_write refused = λ a h. saved
    by_write interrupted = λ a h. cc

go_on-IsSaved :
    (continue : Outbox → Result DrainResult × Outbox) (step : Result (Unit {0}) × Outbox)
    → EndsSaved (Unit {0}) step
    → ((o : Outbox) → IsSaved o → EndsSaved DrainResult (continue o))
    → EndsSaved DrainResult (go_on continue step)
unfolding go_on
go_on-IsSaved continue (ok a, outbox) saved next = next outbox (saved a refl)
go_on-IsSaved continue (raised, outbox) saved next = λ a h. cc

with_value-IsSaved :
    (n : ℕ) (step : Result (Unit {0}) × Outbox)
    → EndsSaved (Unit {0}) step
    → EndsSaved ℕ (with_value n step)
unfolding with_value
with_value-IsSaved n (ok a, outbox) saved = λ m h. saved a refl
with_value-IsSaved n (raised, outbox) saved = λ m h. cc

module _ (send : ℕ → Payload → Option SendResult) (write : ℕ → Write) where
  acted-IsSaved :
      (n : ℕ) (p : Payload) (rest : List Payload) (result : SendResult) (outbox : Outbox)
      (a : Action)
      → IsSaved outbox
      → send n p ≡ some result
      → action result ≡ a
      → ((o : Outbox) → IsSaved o → EndsSaved DrainResult (drain_loop send write rest (n + 1) o))
      → EndsSaved DrainResult (drain_loop send write (p ∷ rest) n outbox)
  unfolding drain_loop
  acted-IsSaved n p rest result outbox deliver saved e a later =
      rw (e, drain_loop)
        (rw a (
          go_on-IsSaved (drain_loop send write rest (n + 1)) _
            (replace_state-IsSaved (write n) _ outbox saved) later))
  acted-IsSaved n p rest result outbox bury saved e a later =
      rw (e, drain_loop)
        (rw a (go_on-IsSaved _ _ (replace_state-IsSaved (write n) _ outbox saved) (λ o s d h. s)))
  acted-IsSaved n p rest result outbox _ saved e a later = rw (e, drain_loop) (rw a (λ d h. saved))

  drain_loop-IsSaved :
      (pending : List Payload) (n : ℕ) (outbox : Outbox)
      → IsSaved outbox
      → EndsSaved DrainResult (drain_loop send write pending n outbox)
  unfolding drain_loop
  drain_loop-IsSaved [] n outbox saved = λ d h. saved
  drain_loop-IsSaved (p ∷ rest) n outbox saved = elim (Option-cases (send n p)) [
    | inl raises ↦ rw (raises, drain_loop) (λ d h. saved)
    | inr (result, e) ↦
        acted-IsSaved n p rest result outbox (action result) saved e refl
          (drain_loop-IsSaved rest (n + 1))
  ]

  pub drain-IsSaved :
      (outbox : Outbox) → IsSaved outbox → EndsSaved DrainResult (drain send write outbox)
  unfolding drain
  drain-IsSaved outbox saved = elim (Bool-cases (length outbox.state.dead_letter == 0)) [
    | inl open_ ↦ rw (open_, drain) (drain_loop-IsSaved outbox.state.pending 0 outbox saved)
    | inr barrier ↦ rw (barrier, drain) (λ d h. saved)
  ]

fresh-covers :
    (known : List String) (batch : List Payload) (k : String)
    → elem k (ids batch) ≡ true
    → (elem k known ≡ true) ⊎ (elem k (ids (fresh known batch)) ≡ true)
unfolding fresh ids elem
fresh-covers known [] k h = cc
fresh-covers known (p ∷ batch) k h = elim (Bool-cases (str_eq (event_id p) k)) [
  | inl here ↦ elim (Bool-cases (elem (event_id p) known)) [
    | inl old ↦
        inl (subst (λ (i : String). elem i known ≡ true) ((eq_iff (event_id p) k).0 here) old)
    | inr new ↦ rw (new, fresh) (inr (rw (here, elem) refl))
  ]
  | inr other ↦ elim (Bool-cases (elem (event_id p) known)) [
    | inl old ↦ rw (old, fresh) (fresh-covers known batch k (rw other at h))
    | inr new ↦
        rw (new, fresh)
          (elim (fresh-covers (event_id p ∷ known) batch k (rw other at h)) [
            | inl among ↦ inl (rw (other, elem) at among)
            | inr later ↦ inr (rw (other, elem) later)
          ])
  ]
]

module _ (write : Write) (batch : List Payload) (outbox : Outbox) where
  pub enqueue_many-IsSaved : IsSaved outbox → EndsSaved ℕ (enqueue_many write batch outbox)
  unfolding enqueue_many
  enqueue_many-IsSaved saved = elim (Bool-cases (all_payloads batch)) [
    | inr refused_ ↦ rw (refused_, enqueue_many) (λ n h. cc)
    | inl accepted ↦
        let (pending, added) = enqueue_loop outbox.state.pending (known_ids outbox.state) 0 batch in
        rw (accepted, enqueue_many)
          (elim (Bool-cases (added == 0)) [
            | inl none_ ↦ rw none_ (λ n h. saved)
            | inr some_ ↦
                rw some_ (with_value-IsSaved added _ (replace_state-IsSaved write _ outbox saved))
          ])
  ]

  -- An accepted batch is stored, each event in it or under the id of an event that was there.
  pub enqueue_many-known :
      {n : ℕ} (k : String)
      → (enqueue_many write batch outbox).0 ≡ ok n
      → elem k (ids batch) ≡ true
      → elem k (known_ids (enqueue_many write batch outbox).1.state) ≡ true
  unfolding known_ids
  enqueue_many-known {n} k h among =
      let (pending, dead, count) = enqueue_many-fresh write batch outbox h in
      let new = ids (fresh (known_ids outbox.state) batch) in
      let letters = keys outbox.state.dead_letter in
      let outer = elem-append k (ids outbox.state.pending ++ new) letters in
      let inner = elem-append k (ids outbox.state.pending) new in
      let before = elem-append k (ids outbox.state.pending) letters in
      let either = fresh-covers (known_ids outbox.state) batch k among in
      rw (pending, dead, ids-append outbox.state.pending) (ground arith)
