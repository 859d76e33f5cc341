-- ===== src/LiveSync/Poll/Durable.antt =====
-- windows_agent/worker/live_sync.py, `poll_once`: the batch is stored before the snapshot and the
-- records of the bridge are given up.
use mathlib.Core.Path.{subst}
use tradejournal_mt5_cloud_w.Prelude.{
  ℕ, suc, ◌≡◌, refl, String, true, not, ◌&&◌, Bool, Option, none, some, List, [], ◌∷◌, ◌==◌, arith,
  str_eq, eq_iff, Bool-cases, ◌⊎◌, inl, inr,
}
use tradejournal_mt5_cloud_w.Prelude.Int.{ℤ}
use tradejournal_mt5_cloud_w.Prelude.Dict.{Dict, elem}
use tradejournal_mt5_cloud_w.Value.{Row}
use tradejournal_mt5_cloud_w.Detector.{Snapshot}
use tradejournal_mt5_cloud_w.Outbox.{
  Payload, event_id, ids, known_ids, Write, published, refused, interrupted, Result, ok, raised,
  Outbox,
}
use tradejournal_mt5_cloud_w.Outbox.Drain.{IsSaved, InFile, InFile-saved}
use tradejournal_mt5_cloud_w.Outbox.Conserve.{Confirmed, drain-keeps}
use tradejournal_mt5_cloud_w.Outbox.Durable.{enqueue_many-IsSaved, enqueue_many-known}
use tradejournal_mt5_cloud_w.LiveSync.Poll.{
  Sink, Environment, Sync, send_of, then_on, dead_letter_count, drain_outbox, contains_id, add,
  effect, undelivered, add_all, tell, acknowledge_records, save_snapshot, keep_positions,
  enqueue_payloads, commit,
}

-- An event is delivered, or it is in the outbox, or the sink confirms it in the last drain; the file
-- of the outbox, if there is one, does not know less.
pub record IsStored (sink : Sink) (k : String) (outbox : Outbox) : Type 0 where
  pub in_memory : (elem k (known_ids outbox.state) ≡ true) ⊎ Confirmed (send_of sink) k
  pub in_file : InFile (λ s. (elem k (known_ids s) ≡ true) ⊎ Confirmed (send_of sink) k) outbox

abbrev pub IsKept : Sink → String → Sync → Type 0
IsKept sink k s = (elem k s.delivered ≡ true) ⊎ IsStored sink k s.outbox

pub record AllKept (sink : Sink) (known : List String) (s : Sync) : Type 0 where
  pub kept : (k : String) → elem k known ≡ true → IsKept sink k s

-- The snapshot and the records are still to be read again.
pub record IsUnread (before after : Sync) : Type 0 where
  pub same_snapshot : after.saved ≡ before.saved
  pub same_acknowledged : after.acknowledged ≡ before.acknowledged

-- Before the drain.
record IsQueued (known : List String) (s : Sync) : Type 0 where
  is_saved : IsSaved s.outbox
  queued :
      (k : String)
      → elem k known ≡ true
      → (elem k s.delivered ≡ true) ⊎ (elem k (known_ids s.outbox.state) ≡ true)

IsQueued-AllKept :
    (sink : Sink) (known : List String) (s : Sync) → IsQueued known s → AllKept sink known s
IsQueued-AllKept sink known s q = record {
  kept = λ k among. elim (q.queued k among) [
    | inl before ↦ inl before
    | inr there ↦
        inr (record {
          in_memory = inl there;
          in_file = InFile-saved _ s.outbox q.is_saved (inl there);
        })
  ];
}

pub then_on-holds :
    {A : Type 0} (P : Sync → Type 0) (step : Result A × Sync)
    (continue : A → Sync → Result ℕ × Sync)
    → (step.0 ≡ raised → P step.1)
    → ((a : A) → step.0 ≡ ok a → P (continue a step.1).1)
    → P (then_on step continue).1
unfolding then_on
then_on-holds P (ok a, s) continue stopped next = next a refl
then_on-holds P (raised, s) continue stopped next = stopped refl

-- A stage that leaves the outbox and the ids alone.
pub record IsFrame (before after : Sync) : Type 0 where
  pub same_outbox : after.outbox ≡ before.outbox
  pub same_delivered : after.delivered ≡ before.delivered

IsFrame-IsQueued :
    (known : List String) (before after : Sync)
    → IsFrame before after
    → IsQueued known before
    → IsQueued known after
IsFrame-IsQueued known before after f q = record {
  is_saved = rw f.same_outbox q.is_saved;
  queued = rw (f.same_outbox, f.same_delivered) q.queued;
}

tell-IsFrame :
    (write : Option Write) (sequence : Option ℤ) (s : Sync) → IsFrame s (tell write sequence s).1
unfolding tell
tell-IsFrame none sequence s = record { same_outbox = refl; same_delivered = refl }
tell-IsFrame (some write) none s = record { same_outbox = refl; same_delivered = refl }
tell-IsFrame (some published) (some n) s = record { same_outbox = refl; same_delivered = refl }
tell-IsFrame (some refused) (some n) s = record { same_outbox = refl; same_delivered = refl }
tell-IsFrame (some interrupted) (some n) s = record { same_outbox = refl; same_delivered = refl }

acknowledge_records-IsFrame :
    (env : Environment) (records : List Row) (s : Sync)
    → IsFrame s (acknowledge_records env records s).1
unfolding acknowledge_records
acknowledge_records-IsFrame env [] s = record { same_outbox = refl; same_delivered = refl }
acknowledge_records-IsFrame env (record_ ∷ records) s = tell-IsFrame env.acknowledge _ s

effect-IsFrame :
    (write : Write) (before after : Sync)
    → IsFrame before after
    → IsFrame before (effect write before after).1
effect-IsFrame published before after f = f
effect-IsFrame refused before after f = record { same_outbox = refl; same_delivered = refl }
effect-IsFrame interrupted before after f = f

save_snapshot-IsFrame :
    (env : Environment) (current : Snapshot) (s : Sync) → IsFrame s (save_snapshot env current s).1
unfolding save_snapshot
save_snapshot-IsFrame env current s =
    effect-IsFrame env.save_write s (record s { saved = current })
      (record { same_outbox = refl; same_delivered = refl })

pub keep_positions-IsFrame :
    (returns : Bool) (positions : Dict Row) (changed : Bool) (s : Sync)
    → IsFrame s (keep_positions returns (positions, changed) s).1
      × IsUnread s (keep_positions returns (positions, changed) s).1
unfolding keep_positions
keep_positions-IsFrame returns positions changed s = elim (Bool-cases (changed && not returns)) [
  | inl lost ↦ rw lost (
    record { same_outbox = refl; same_delivered = refl },
    record { same_snapshot = refl; same_acknowledged = refl },
  )
  | inr fine ↦ rw fine (
    record { same_outbox = refl; same_delivered = refl },
    record { same_snapshot = refl; same_acknowledged = refl },
  )
]

undelivered-covers :
    (delivered : List String) (payloads : List Payload) (k : String)
    → elem k (ids payloads) ≡ true
    → (elem k delivered ≡ true) ⊎ (elem k (ids (undelivered delivered payloads)) ≡ true)
unfolding undelivered contains_id ids elem
undelivered-covers delivered [] k h = cc
undelivered-covers delivered (p ∷ payloads) k h = elim (Bool-cases (elem (event_id p) delivered)) [
  | inl old ↦ elim (Bool-cases (str_eq (event_id p) k)) [
    | inl here ↦
        inl (subst (λ (i : String). elem i delivered ≡ true) ((eq_iff (event_id p) k).0 here) old)
    | inr other ↦ rw (old, undelivered) (undelivered-covers delivered payloads k (rw other at h))
  ]
  | inr new ↦ elim (Bool-cases (str_eq (event_id p) k)) [
    | inl here ↦ rw (new, undelivered) (inr (rw (here, elem) refl))
    | inr other ↦
        rw (new, undelivered)
          (elim (undelivered-covers delivered payloads k (rw other at h)) [
            | inl among ↦ inl among
            | inr later ↦ inr (rw (other, elem) later)
          ])
  ]
]

drain_outbox-AllKept :
    (sink : Sink) (write : ℕ → Write) (known : List String) (s : Sync)
    → IsQueued known s
    → AllKept sink known (drain_outbox sink write s).1
unfolding drain_outbox
drain_outbox-AllKept sink write known s q = elim (Bool-cases (dead_letter_count s.outbox == 0)) [
  | inr barrier ↦ rw barrier (IsQueued-AllKept sink known s q)
  | inl open_ ↦ rw open_ (record {
    kept = λ k among. elim (q.queued k among) [
      | inl before ↦ inl before
      | inr there ↦
          let (in_memory, in_file) = drain-keeps (send_of sink) write s.outbox q.is_saved k there in
          inr (record { in_memory = in_memory; in_file = in_file })
    ];
  })
]

elem-add :
    (k id : String) (delivered : List String)
    → elem k delivered ≡ true
    → elem k (add id delivered) ≡ true
unfolding add elem
elem-add k id delivered h = ground arith

add_all-AllKept :
    (sink : Sink) (known : List String) (commits : ℕ → Bool) (n : ℕ) (payloads : List Payload)
    (s : Sync)
    → AllKept sink known s
    → AllKept sink known (add_all commits n payloads s).1
unfolding add_all
add_all-AllKept sink known commits n [] s all_ = all_
add_all-AllKept sink known commits n (p ∷ payloads) s all_ = elim (Bool-cases (commits n)) [
  | inr refused_ ↦ rw refused_ all_
  | inl added ↦ rw added (
      add_all-AllKept sink known commits (suc n) payloads _ (record {
        kept = λ k among. elim (all_.kept k among) [
          | inl before ↦ inl (elem-add k (event_id p) s.delivered before)
          | inr stored ↦ inr stored
        ];
      }))
]

enqueue_payloads-IsQueued :
    (env : Environment) (payloads : List Payload) (s : Sync) (n : ℕ)
    → IsSaved s.outbox
    → (enqueue_payloads env (undelivered s.delivered payloads) s).0 ≡ ok n
    → IsQueued (ids payloads) (enqueue_payloads env (undelivered s.delivered payloads) s).1
unfolding enqueue_payloads
enqueue_payloads-IsQueued env payloads s n saved h =
    let batch = undelivered s.delivered payloads in
    record {
      is_saved = enqueue_many-IsSaved env.enqueue_write batch s.outbox saved n h;
      queued = λ k among. elim (undelivered-covers s.delivered payloads k among) [
        | inl before ↦ inl before
        | inr new ↦ inr (enqueue_many-known env.enqueue_write batch s.outbox k h new)
      ];
    }

-- However a poll ends from the outbox on, its events are kept, or it can be repeated.
pub commit-AllKept :
    (env : Environment) (delivered : ℕ) (records : List Row) (current : Snapshot)
    (payloads : List Payload) (closed : List String) (s : Sync)
    → IsSaved s.outbox
    → let after =
        (commit env delivered records current (undelivered s.delivered payloads) closed s).1 in
      IsUnread s after ⊎ AllKept env.sink_after (ids payloads) after
unfolding commit
commit-AllKept env delivered records current payloads closed s saved =
    let known = ids payloads in
    let kept = AllKept env.sink_after known in
    let P = λ (after : Sync). IsUnread s after ⊎ kept after in
    let done = IsQueued-AllKept env.sink_after known in
    then_on-holds P _ _
      (λ e.
        inl (unfold enqueue_payloads in record { same_snapshot = refl; same_acknowledged = refl }))
      (λ n e1.
        let q1 = enqueue_payloads-IsQueued env payloads s n saved e1 in
        let q2 = IsFrame-IsQueued known _ _ (acknowledge_records-IsFrame env records _) q1 in
        then_on-holds P _ _ (λ e. inr (done _ q2))
          (λ _ e2.
            let q3 = IsFrame-IsQueued known _ _ (save_snapshot-IsFrame env current _) q2 in
            then_on-holds P _ _ (λ e. inr (done _ q3))
              (λ _ e3.
                let q4 =
                  IsFrame-IsQueued known _ _ (keep_positions-IsFrame env.saves_discarded _ _ _).0
                    q3 in
                then_on-holds P _ _ (λ e. inr (done _ q4))
                  (λ _ e4.
                    let a5 = drain_outbox-AllKept env.sink_after env.write_after known _ q4 in
                    then_on-holds P _ _ (λ e. inr a5)
                      (λ sent_ e5.
                        let a6 = add_all-AllKept env.sink_after known env.commits 0 _ _ a5 in
                        then_on-holds P _ _ (λ e. inr a6) (λ _ e6. inr a6))))))
