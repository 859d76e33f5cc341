-- ===== src/LiveSync/Poll/Safe.antt =====
-- windows_agent/worker/live_sync.py, `poll_once`: no event of a poll is lost, however the poll ends.
use tradejournal_mt5_cloud_w.Prelude.{
  ℕ, ◌≡◌, refl, sym, ap, ◌∙◌, String, not, ◌&&◌, Bool, Option, none, some, List, ◌==◌, Bool-cases,
  ◌⊎◌, inl, inr,
}
use tradejournal_mt5_cloud_w.Prelude.Dict.{Dict}
use tradejournal_mt5_cloud_w.Value.{Row}
use tradejournal_mt5_cloud_w.Outbox.{Payload, ids, Write, Result, ok, raised}
use tradejournal_mt5_cloud_w.Outbox.Drain.{IsSaved}
use tradejournal_mt5_cloud_w.Outbox.Durable.{drain-IsSaved}
use tradejournal_mt5_cloud_w.LiveSync.Poll.{
  Sink, Environment, Sync, send_of, sent_of, dead_letter_count, drain_outbox, keep_positions,
  Source, read_source, opened_positions, observed_positions, enriched, normalize_all, payloads_of,
  commit_batch, deliver_observed, deliver_source, poll_once,
}
use tradejournal_mt5_cloud_w.LiveSync.Poll.Durable.{
  IsUnread, AllKept, keep_positions-IsFrame, then_on-holds, commit-AllKept,
}

IsUnread-trans : (a b c : Sync) → IsUnread a b → IsUnread b c → IsUnread a c
IsUnread-trans a b c ab bc = record {
  same_snapshot = bc.same_snapshot ∙ ab.same_snapshot;
  same_acknowledged = bc.same_acknowledged ∙ ab.same_acknowledged;
}

positions-keep_positions :
    (returns : Bool) (positions : Dict Row × Bool) (s : Sync)
    → (keep_positions returns positions s).1.positions ≡ positions.0
unfolding keep_positions
positions-keep_positions returns (positions, changed) s =
    elim (Bool-cases (changed && not returns)) [ inl lost ↦ rw lost refl | inr fine ↦ rw fine refl ]

-- A drain before the poll reads anything.
drain_outbox-IsUnread :
    (sink : Sink) (write : ℕ → Write) (s : Sync) → IsUnread s (drain_outbox sink write s).1
unfolding drain_outbox
drain_outbox-IsUnread sink write s = elim (Bool-cases (dead_letter_count s.outbox == 0)) [
  | inl open_ ↦ rw open_ (record { same_snapshot = refl; same_acknowledged = refl })
  | inr barrier ↦ rw barrier (record { same_snapshot = refl; same_acknowledged = refl })
]

positions-drain_outbox :
    (sink : Sink) (write : ℕ → Write) (s : Sync)
    → (drain_outbox sink write s).1.positions ≡ s.positions
unfolding drain_outbox
positions-drain_outbox sink write s = elim (Bool-cases (dead_letter_count s.outbox == 0)) [
  | inl open_ ↦ rw open_ refl
  | inr barrier ↦ rw barrier refl
]

sent_of-ok : (r : Result _) (n : ℕ) → sent_of r ≡ ok n → (d : _) × (r ≡ ok d)
unfolding sent_of
sent_of-ok raised n h = cc
sent_of-ok (ok d) n h = (d, refl)

drain_outbox-IsSaved :
    (sink : Sink) (write : ℕ → Write) (s : Sync) (n : ℕ)
    → IsSaved s.outbox
    → (drain_outbox sink write s).0 ≡ ok n
    → IsSaved (drain_outbox sink write s).1.outbox
unfolding drain_outbox
drain_outbox-IsSaved sink write s n saved h = elim (Bool-cases (dead_letter_count s.outbox == 0)) [
  | inl open_ ↦
      let (d, e) = sent_of-ok _ n (rw open_ at h) in
      rw open_ (drain-IsSaved (send_of sink) write s.outbox saved d e)
  | inr barrier ↦ rw barrier saved
]

module _ (upper lower : String → String) (float_repr : ℕ → String) (parse_float : String → Option ℕ)
    (dumps : Row → String) (sha256_16 : String → String) (sample_ms : ℕ) where
  -- The poll read its source, and the events of that source are kept.
  pub record IsAdvanced (env : Environment) (before after : Sync) : Type 0 where
    pub source : Source
    pub payloads : List Payload
    pub reads :
        read_source upper lower float_repr parse_float dumps sha256_16 sample_ms env before.saved
        ≡ some source
    pub normalizes :
        payloads_of upper lower float_repr parse_float dumps sha256_16 sample_ms env source
          before.positions
        ≡ some payloads
    pub all_kept : AllKept env.sink_after (ids payloads) after

  commit_batch-kept :
      (env : Environment) (delivered : ℕ) (source : Source) (payloads : Option (List Payload))
      (closed : List String) (s : Sync)
      → IsSaved s.outbox
      → let after =
          (commit_batch upper lower float_repr parse_float dumps sha256_16 sample_ms env delivered
            source payloads closed s).1 in
        IsUnread s after
        ⊎ ((all_ : List Payload) × (payloads ≡ some all_) × AllKept env.sink_after (ids all_) after)
  unfolding commit_batch
  commit_batch-kept env delivered source none closed s saved =
      inl (record { same_snapshot = refl; same_acknowledged = refl })
  commit_batch-kept env delivered source (some payloads) closed s saved =
      elim (commit-AllKept env delivered source.records source.current payloads closed s saved) [
        | inl unread ↦ inl unread
        | inr kept ↦ inr (payloads, refl, kept)
      ]

  deliver_observed-kept :
      (env : Environment) (delivered : ℕ) (source : Source) (s : Sync)
      → IsSaved s.outbox
      → let after =
          (deliver_observed upper lower float_repr parse_float dumps sha256_16 sample_ms env
            delivered source s).1 in
        IsUnread s after
        ⊎ ((all_ : List Payload) × (normalize_all upper lower float_repr parse_float dumps sha256_16
                sample_ms env.now source.account
                (enriched upper lower float_repr parse_float dumps sha256_16 sample_ms env source
                  s.positions).0
              ≡ some all_)
            × AllKept env.sink_after (ids all_) after)
  unfolding deliver_observed
  deliver_observed-kept env delivered source s saved =
      let e =
        enriched upper lower float_repr parse_float dumps sha256_16 sample_ms env source
          s.positions in
      elim (commit_batch-kept env delivered source
        (normalize_all upper lower float_repr parse_float dumps sha256_16 sample_ms env.now
          source.account e.0)
        e.2 (record s { positions = e.1 }) saved) [
          | inl unread ↦ inl (record {
            same_snapshot = unread.same_snapshot;
            same_acknowledged = unread.same_acknowledged;
          })
          | inr kept ↦ inr kept
        ]

  deliver_source-kept :
      (env : Environment) (delivered : ℕ) (source : Source) (s0 : Sync)
      → IsSaved s0.outbox
      → let after =
          (deliver_source upper lower float_repr parse_float dumps sha256_16 sample_ms env delivered
            (some source)
            s0).1 in
        IsUnread s0 after
        ⊎ ((all_ : List Payload) × (payloads_of upper lower float_repr parse_float dumps sha256_16
                sample_ms env source s0.positions
              ≡ some all_)
            × AllKept env.sink_after (ids all_) after)
  unfolding deliver_source payloads_of
  deliver_source-kept env delivered source s0 saved =
      let opened =
        opened_positions upper lower float_repr parse_float dumps sha256_16 sample_ms source in
      let observed =
        observed_positions upper lower float_repr parse_float dumps sha256_16 sample_ms env
          source in
      let step1 = keep_positions env.saves_opened (opened s0.positions) s0 in
      let s1 = step1.1 in
      let step2 = keep_positions env.saves_observed (observed s1.positions) s1 in
      let s2 = step2.1 in
      let (f1, u1) = keep_positions-IsFrame env.saves_opened _ _ s0 in
      let (f2, u2) = keep_positions-IsFrame env.saves_observed _ _ s1 in
      let p1 : s1.positions ≡ (opened s0.positions).0 =
        positions-keep_positions env.saves_opened (opened s0.positions) s0 in
      let p2 : s2.positions ≡ (observed s1.positions).0 =
        positions-keep_positions env.saves_observed (observed s1.positions) s1 in
      let positions_are : s2.positions ≡ (observed (opened s0.positions).0).0 =
        p2 ∙ ap (λ (p : Dict Row). (observed p).0) p1 in
      let payloads_at = λ (p : Dict Row).
        normalize_all upper lower float_repr parse_float dumps sha256_16 sample_ms env.now
          source.account
          (enriched upper lower float_repr parse_float dumps sha256_16 sample_ms env source p).0 in
      let saved2 : IsSaved s2.outbox = rw (f2.same_outbox, f1.same_outbox) saved in
      let u : IsUnread s0 s2 = IsUnread-trans s0 s1 s2 u1 u2 in
      let P = λ (after : Sync).
        IsUnread s0 after
        ⊎ ((all_ : List Payload) × (payloads_of upper lower float_repr parse_float dumps sha256_16
                sample_ms env source s0.positions
              ≡ some all_)
            × AllKept env.sink_after (ids all_) after) in
      then_on-holds P _ _ (λ e. inl u1)
        (λ _ e1.
          then_on-holds P _ _ (λ e. inl u)
            (λ _ e2. elim (deliver_observed-kept env delivered source s2 saved2) [
              | inl unread ↦ inl (IsUnread-trans s0 s2 _ u unread)
              | inr (all_, prepared, kept) ↦
                  inr (all_, ap payloads_at (sym positions_are) ∙ prepared, kept)
            ]))

  -- No event of a poll is lost. Let the file of the outbox, if there is one, hold its state at the
  -- start. Then, however the writes, the adapter, the stores and the sink behave, also where the
  -- poll raises, either the saved snapshot and the acknowledged sequence are those from before, so
  -- that the next poll reads the same events, or each event of the poll is delivered by the table
  -- of ids, or in the outbox, in memory and in the file, or confirmed by the sink.
  pub poll_once-IsAdvanced :
      (env : Environment) (s : Sync)
      → IsSaved s.outbox
      → let after =
          (poll_once upper lower float_repr parse_float dumps sha256_16 sample_ms env s).1 in
        IsUnread s after ⊎ IsAdvanced env s after
  unfolding poll_once
  poll_once-IsAdvanced env s saved =
      let P = λ (after : Sync). IsUnread s after ⊎ IsAdvanced env s after in
      let u = drain_outbox-IsUnread env.sink_before env.write_before s in
      let s1 = (drain_outbox env.sink_before env.write_before s).1 in
      then_on-holds P _ _ (λ e. inl u)
        (λ delivered e.
          let saved1 = drain_outbox-IsSaved env.sink_before env.write_before s delivered saved e in
          elim (Bool-cases (dead_letter_count s1.outbox == 0)) [
            | inr barrier ↦ rw barrier (inl u)
            | inl open_ ↦ rw open_ (
                advanced env s s1 delivered u
                  (positions-drain_outbox env.sink_before env.write_before s) saved1
                  (read_source upper lower float_repr parse_float dumps sha256_16 sample_ms env
                    s1.saved)
                  refl)
          ])
    where
      advanced :
          (env : Environment) (s s1 : Sync) (delivered : ℕ)
          → IsUnread s s1
          → s1.positions ≡ s.positions
          → IsSaved s1.outbox
          → (source : Option Source)
          → read_source upper lower float_repr parse_float dumps sha256_16 sample_ms env s1.saved
            ≡ source
          → let after =
              (deliver_source upper lower float_repr parse_float dumps sha256_16 sample_ms env
                delivered source s1).1 in
            IsUnread s after ⊎ IsAdvanced env s after
      advanced env s s1 delivered u p saved1 none reads = unfold deliver_source in inl u
      advanced env s s1 delivered u p saved1 (some source) reads =
          elim (deliver_source-kept env delivered source s1 saved1) [
            | inl unread ↦ inl (IsUnread-trans s s1 _ u unread)
            | inr (all_, prepared, kept) ↦ inr (record {
              source = source;
              payloads = all_;
              reads = rw (← u.same_snapshot) reads;
              normalizes = rw (← p) prepared;
              all_kept = kept;
            })
          ]
