-- ===== src/Outbox/Drain.antt =====
-- worker/event_outbox.py, `drain`: events leave in the order in which they came, each only once
-- its delivery is confirmed, and the first refused one stops the rest.
use mathlib.Core.Path.{subst}
use tradejournal_mt5_cloud_w.Prelude.{
  ℕ, ◌+◌, ◌≡◌, refl, ap, sym, ◌∙◌, false, List, [], ◌∷◌, length, Option, some, Bool-cases, ◌⊎◌, inl,
  inr, ◌==◌, Option-cases,
}
use tradejournal_mt5_cloud_w.Prelude.Dict.{Dict, insert}
use tradejournal_mt5_cloud_w.Sender.{SendResult}
use tradejournal_mt5_cloud_w.Outbox.{
  Payload, State, event_id, Write, published, refused, interrupted, Result, ok, raised, Outbox,
  replace_state, encode, dead_record, DrainResult, Action, deliver, bury, action, go_on, drain_loop,
  drain,
}

-- There is no file, or it holds a state with the property.
abbrev pub InFile : (State → Type 0) → Outbox → Type 0
InFile P outbox = (outbox.has_file ≡ false) ⊎ ((s : State) × (outbox.file ≡ some (encode s)) × P s)

-- The file holds the state.
abbrev pub IsSaved : Outbox → Type 0
IsSaved outbox = (outbox.has_file ≡ false) ⊎ (outbox.file ≡ some (encode outbox.state))

pub InFile-saved :
    (P : State → Type 0) (outbox : Outbox) → IsSaved outbox → P outbox.state → InFile P outbox
InFile-saved P outbox (inl none_) h = inl none_
InFile-saved P outbox (inr same) h = inr (outbox.state, same, h)

pub InFile-map :
    (P Q : State → Type 0) (outbox : Outbox)
    → ((s : State) → P s → Q s)
    → InFile P outbox
    → InFile Q outbox
InFile-map P Q outbox f (inl none_) = inl none_
InFile-map P Q outbox f (inr (s, e, h)) = inr (s, e, f s h)

module _ (send : ℕ → Payload → Option SendResult) where
  -- The protocol that the outbox promises: from `pending`, with `n` events delivered before, the
  -- state may end as given. A confirmed event leaves from the front, a refused one becomes a dead
  -- letter and ends the drain, and the drain may end anywhere.
  pub data Drained (dead : Dict Payload) : ℕ → List Payload → State → Type 0 where
    stop :
        (n : ℕ) (pending : List Payload) (s : State)
        → s ≡ record { pending = pending; dead_letter = dead }
        → Drained dead n pending s
    buried :
        (n : ℕ) (p : Payload) (rest : List Payload) (result : SendResult) (s : State)
        → send n p ≡ some result
        → action result ≡ bury
        → s
          ≡ record { pending = rest; dead_letter = insert (event_id p) (dead_record p result) dead }
        → Drained dead n (p ∷ rest) s
    delivered :
        (n : ℕ) (p : Payload) (rest : List Payload) (result : SendResult) (s : State)
        → send n p ≡ some result
        → action result ≡ deliver
        → Drained dead (n + 1) rest s
        → Drained dead n (p ∷ rest) s

  -- Both the state in memory and the state in the file, if there is one, follow the protocol.
  pub record FollowsProtocol (dead : Dict Payload) (n : ℕ) (pending : List Payload)
      (outbox : Outbox) : Type 0 where
    pub memory : Drained dead n pending outbox.state
    pub file : InFile (Drained dead n pending) outbox

  FollowsProtocol-stop :
      (n : ℕ) (outbox : Outbox)
      → IsSaved outbox
      → FollowsProtocol outbox.state.dead_letter n outbox.state.pending outbox
  FollowsProtocol-stop n outbox saved = record {
    memory = stop n outbox.state.pending outbox.state refl;
    file = InFile-saved _ outbox saved (stop n outbox.state.pending outbox.state refl);
  }

  -- One replacement of the state, whichever way the write ends.
  go_on-FollowsProtocol :
      (dead : Dict Payload) (n : ℕ) (pending : List Payload)
      (continue : Outbox → Result DrainResult × Outbox) (write : Write) (s : State)
      (outbox : Outbox)
      → IsSaved outbox
      → outbox.state ≡ record { pending = pending; dead_letter = dead }
      → Drained dead n pending s
      → ((o : Outbox) → IsSaved o → o.state ≡ s → FollowsProtocol dead n pending (continue o).1)
      → FollowsProtocol dead n pending (go_on continue (replace_state write s outbox)).1
  unfolding go_on replace_state
  go_on-FollowsProtocol dead n pending continue write s outbox saved same step next =
      elim (Bool-cases outbox.has_file) [
        | inr none_ ↦
            simp none_
              (next (record { has_file = false; state = s; file = outbox.file }) (inl refl) refl)
        | inl file ↦ simp file (by_write write)
      ]
    where
      old : Drained dead n pending outbox.state
      old = stop n pending outbox.state same

      saved_as : State → Outbox
      saved_as t = record { has_file = outbox.has_file; state = t; file = some (encode s) }

      by_write :
          (w : Write)
          → FollowsProtocol dead n pending
              (go_on continue (elim w [
                | published ↦ (ok tt, saved_as s)
                | refused ↦ (raised, outbox)
                | interrupted ↦ (raised, saved_as outbox.state)
              ])).1
      by_write published = next (saved_as s) (inr refl) refl
      by_write refused = record { memory = old; file = InFile-saved _ outbox saved old }
      by_write interrupted = record { memory = old; file = inr (s, refl, step) }

  stopped :
      (dead : Dict Payload) (n : ℕ) (pending : List Payload) (outbox : Outbox)
      → IsSaved outbox
      → outbox.state ≡ record { pending = pending; dead_letter = dead }
      → FollowsProtocol dead n pending outbox
  stopped dead n pending outbox saved same =
      let old : Drained dead n pending outbox.state = stop n pending outbox.state same in
      record { memory = old; file = InFile-saved _ outbox saved old }

  -- A confirmed delivery in front of a run.
  delivered-FollowsProtocol :
      (dead : Dict Payload) (n : ℕ) (p : Payload) (rest : List Payload) (result : SendResult)
      (outbox : Outbox)
      → send n p ≡ some result
      → action result ≡ deliver
      → FollowsProtocol dead (n + 1) rest outbox
      → FollowsProtocol dead n (p ∷ rest) outbox
  delivered-FollowsProtocol dead n p rest result outbox e a f = record {
    memory = delivered n p rest result outbox.state e a f.memory;
    file =
        InFile-map (Drained dead (n + 1) rest) (Drained dead n (p ∷ rest)) outbox
          (λ s d. delivered n p rest result s e a d) f.file;
  }

  module _ (write : ℕ → Write) where
    -- What is left after the result of one send, by the action that it calls for.
    acted :
        (dead : Dict Payload) (n : ℕ) (p : Payload) (rest : List Payload) (result : SendResult)
        (outbox : Outbox) (a : Action)
        → IsSaved outbox
        → outbox.state ≡ record { pending = p ∷ rest; dead_letter = dead }
        → send n p ≡ some result
        → action result ≡ a
        → ((o : Outbox)
            → IsSaved o
            → o.state ≡ record { pending = rest; dead_letter = dead }
            → FollowsProtocol dead (n + 1) rest (drain_loop send write rest (n + 1) o).1)
        → FollowsProtocol dead n (p ∷ rest) (drain_loop send write (p ∷ rest) n outbox).1
    unfolding drain_loop
    acted dead n p rest result outbox deliver saved same e a later =
        let d : outbox.state.dead_letter ≡ dead = ap (λ (t : State). t.dead_letter) same in
        let s : State = record { pending = rest; dead_letter = outbox.state.dead_letter } in
        let sd : s ≡ record { pending = rest; dead_letter = dead } =
          ap (λ (x : Dict Payload). record { pending = rest; dead_letter = x }) d in
        rw (e, drain_loop)
          (rw a (
            go_on-FollowsProtocol dead n (p ∷ rest) (drain_loop send write rest (n + 1)) (write n) s
              outbox saved same (delivered n p rest result s e a (stop (n + 1) rest s sd))
              (λ o saved' same'.
                delivered-FollowsProtocol dead n p rest result _ e a
                  (later o saved' (same' ∙ sd)))))
    acted dead n p rest result outbox bury saved same e a later =
        let d : outbox.state.dead_letter ≡ dead = ap (λ (t : State). t.dead_letter) same in
        let s : State = record {
          pending = rest;
          dead_letter = insert (event_id p) (dead_record p result) outbox.state.dead_letter;
        } in
        let step : Drained dead n (p ∷ rest) s = buried n p rest result s e a (
          ap
            (λ (x : Dict Payload). record {
              pending = rest;
              dead_letter = insert (event_id p) (dead_record p result) x;
            })
            d) in
        rw (e, drain_loop)
          (rw a (
            go_on-FollowsProtocol dead n (p ∷ rest) _ (write n) s outbox saved same step
              (λ o saved' same'. record {
                memory = subst (Drained dead n (p ∷ rest)) (sym same') step;
                file =
                    InFile-saved (Drained dead n (p ∷ rest)) o saved'
                      (subst (Drained dead n (p ∷ rest)) (sym same') step);
              })))
    acted dead n p rest result outbox _ saved same e a later =
        rw (e, drain_loop) (rw a (stopped dead n (p ∷ rest) outbox saved same))

    drain_loop-FollowsProtocol :
        (dead : Dict Payload) (pending : List Payload) (n : ℕ) (outbox : Outbox)
        → IsSaved outbox
        → outbox.state ≡ record { pending = pending; dead_letter = dead }
        → FollowsProtocol dead n pending (drain_loop send write pending n outbox).1
    unfolding drain_loop
    drain_loop-FollowsProtocol dead [] n outbox saved same = stopped dead n [] outbox saved same
    drain_loop-FollowsProtocol dead (p ∷ rest) n outbox saved same =
        elim (Option-cases (send n p)) [
          | inl raises ↦ rw (raises, drain_loop) (stopped dead n (p ∷ rest) outbox saved same)
          | inr (result, e) ↦
              acted dead n p rest result outbox (action result) saved same e refl
                (drain_loop-FollowsProtocol dead rest (n + 1))
        ]

    -- From a saved state, whatever the sender answers and however the writes end, also where the
    -- drain raises: the state in memory and the state in the file are states that the protocol
    -- allows, so only confirmed events have left, from the front, and at most one was buried.
    pub drain-FollowsProtocol :
        (outbox : Outbox)
        → IsSaved outbox
        → FollowsProtocol outbox.state.dead_letter 0 outbox.state.pending
            (drain send write outbox).1
    unfolding drain
    drain-FollowsProtocol outbox saved = elim (Bool-cases (length outbox.state.dead_letter == 0)) [
      | inl open_ ↦
          rw (open_, drain)
            (drain_loop-FollowsProtocol outbox.state.dead_letter outbox.state.pending 0 outbox saved
              refl)
      | inr barrier ↦ rw (barrier, drain) (FollowsProtocol-stop 0 outbox saved)
    ]
