-- ===== src/HistorySync/Finish.antt =====
-- windows_agent/worker/history_sync.py: an import that nothing stops gets to its end.
use mathlib.Core.List.{append-nil}
use tradejournal_mt5_cloud_w.Prelude.{
  ℕ, ◌<◌, ◌≡◌, refl, sym, ap, ◌∙◌, Bool, true, false, Option, none, some, List, [], ◌∷◌, ◌++◌,
  length, All,
}
use tradejournal_mt5_cloud_w.Value.{Row}
use tradejournal_mt5_cloud_w.Outbox.{published}
use tradejournal_mt5_cloud_w.HistorySync.{Mode, from, start_of, windows}
use tradejournal_mt5_cloud_w.HistorySync.Cover.{windows-Covers, last_end-Covers}
use tradejournal_mt5_cloud_w.HistorySync.Run.{
  Item, Run, Environment, Checkpoint, no_counts, from_start, run_import, bump, next, sink_all,
  sink_read, sink_both, sink_accounting, write_checkpoint, import_window, import_windows,
  through_of, items_of, orders, deals, accounting_deals,
}
use tradejournal_mt5_cloud_w.HistorySync.Round.{IsRead, IsAccountingRead, IsReadable, all_items}
use tradejournal_mt5_cloud_w.HistorySync.Resume.{last_end, import_windows-IsResumable}

next-true :
    (step : Bool × Run) (continue : Run → Bool × Run)
    → step.0 ≡ true
    → ((r : Run) → (continue r).0 ≡ true)
    → (next step continue).0 ≡ true
unfolding next
next-true (true, r) continue h later = later r
next-true (false, r) continue h later = cc

module _ (env : Environment) (takes : (n : ℕ) → env.takes n ≡ true) where
  sink_all-true : (items : List Item) (run : Run) → (sink_all env items run).0 ≡ true
  unfolding sink_all
  sink_all-true [] run = refl
  sink_all-true (item ∷ items) run = rw (takes (length run.sunk)) (
      sink_all-true items
        (record run { sunk = run.sunk ++ item ∷ []; counts = bump item.kind run.counts }))

  sink_both-true :
      (orders_ deals_ : Option (List Row)) (run : Run)
      → IsRead orders_
      → IsRead deals_
      → (sink_both env orders_ deals_ run).0 ≡ true
  unfolding sink_both IsRead
  sink_both-true (some orders_) (some deals_) run h h' =
      next-true _ _ (sink_all-true (items_of orders orders_) run)
        (sink_all-true (items_of deals deals_))
  sink_both-true none deals_ run (rows, e) h' = cc
  sink_both-true (some orders_) none run h (rows, e) = cc

  sink_accounting-true :
      (reader : Option (ℕ × ℕ → Option (List Row))) (window : ℕ × ℕ) (run : Run)
      → IsAccountingRead reader window
      → (sink_accounting env reader window run).0 ≡ true
  unfolding sink_accounting sink_read IsAccountingRead IsRead
  sink_accounting-true none window run h = refl
  sink_accounting-true (some reader) window run (rows, e) =
      rw e (sink_all-true (items_of accounting_deals rows) run)

  import_window-true :
      (window : ℕ × ℕ) (run : Run)
      → IsReadable env window
      → env.write window.1 ≡ published
      → (import_window env window run).0 ≡ true
  unfolding import_window write_checkpoint
  import_window-true window run ((h, h'), h'') written =
      next-true _ _ (sink_both-true (env.history_orders window) (env.history_deals window) run h h')
        (λ r.
          next-true _ _ (sink_accounting-true env.history_accounting_deals window r h'')
            (λ r'. rw written refl))

  import_windows-true :
      (windows_ : List (ℕ × ℕ)) (run : Run)
      → All (IsReadable env) windows_
      → All (λ (window : ℕ × ℕ). env.write window.1 ≡ published) windows_
      → (import_windows env windows_ run).0 ≡ true
  unfolding import_windows
  import_windows-true [] run h written = refl
  import_windows-true (window ∷ windows_) run h written =
      next-true _ _ (import_window-true window run h.0 written.0)
        (λ r. import_windows-true windows_ r h.1 written.1)

  import_windows-finishes :
      (windows_ : List (ℕ × ℕ)) (run : Run)
      → All (IsReadable env) windows_
      → All (λ (window : ℕ × ℕ). env.write window.1 ≡ published) windows_
      → let step = import_windows env windows_ run in
        (step.0 ≡ true)
        × (through_of step.1.checkpoint ≡ last_end (through_of run.checkpoint) windows_)
        × (step.1.sunk ≡ run.sunk ++ all_items env windows_)
  import_windows-finishes windows_ run h written =
      let returns = import_windows-true windows_ run h written in
      let r = import_windows-IsResumable env windows_ run in
      let all_done : windows_ ≡ r.done = r.split ∙ rw (r.finished returns).0 (append-nil r.done) in
      (
        returns,
        r.reached ∙ ap (last_end (through_of run.checkpoint)) (sym all_done),
        r.sunk_is
            ∙ rw ((r.finished returns).1, ← all_done)
                (ap (λ (l : List Item). run.sunk ++ l) (append-nil (all_items env windows_))),
      )

  -- An import that nothing stops gets to now: where `run` has a start before now, all sinks take what
  -- they are given, and for all windows from the start on the readers return and the checkpoint is
  -- published, it returns, its checkpoint is at now, and the sinks took all records of all windows, in
  -- their order.
  pub run_import-finishes :
      (is_unresolved is_atomic : Bool) (mode : Mode) (date : Option ℕ) (chunk_days now : ℕ)
      (file : Option Checkpoint) (start : ℕ)
      → start_of is_unresolved mode date now (through_of file) ≡ from start
      → start < now
      → All (IsReadable env) (windows is_atomic chunk_days now start)
      → All
          (λ (window : ℕ × ℕ). env.write window.1 ≡ published)
          (windows is_atomic chunk_days now start)
      → let step = run_import env is_unresolved is_atomic mode date chunk_days now file in
        (step.0 ≡ true)
        × (through_of step.1.checkpoint ≡ some now)
        × (step.1.sunk ≡ all_items env (windows is_atomic chunk_days now start))
  unfolding run_import from_start
  run_import-finishes is_unresolved is_atomic mode date chunk_days now file start starts before h
        written =
      let (returns, reached, taken) =
        import_windows-finishes (windows is_atomic chunk_days now start)
          (record { sunk = []; counts = no_counts env; checkpoint = file }) h written in
      let last =
        last_end-Covers is_atomic now start (windows is_atomic chunk_days now start)
          (through_of file) (windows-Covers is_atomic chunk_days now start) before in
      rw starts (returns, reached ∙ last, taken)
