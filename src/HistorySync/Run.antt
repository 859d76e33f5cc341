-- ===== src/HistorySync/Run.antt =====
-- windows_agent/worker/history_sync.py: the loop of `HistorySync.run` over its windows. What the
-- adapter and the sinks do in a run, and how the writes of the checkpoint end, is an `Environment`.
use tradejournal_mt5_cloud_w.Prelude.{
  ℕ, ◌+◌, Bool, true, false, Option, none, some, List, [], ◌∷◌, ◌++◌, length, if◌then◌else◌,
}
use tradejournal_mt5_cloud_w.Value.{Row}
use tradejournal_mt5_cloud_w.Outbox.{Write, published, refused, interrupted}
use tradejournal_mt5_cloud_w.HistorySync.{
  Mode, Start, refused as refused_start, from, start_of, windows,
}

pub data Kind : Type 0 where
  orders deals accounting_deals : Kind

-- What a sink is called with.
pub record Item : Type 0 where
  pub kind : Kind
  pub row : Row

pub record Counts : Type 0 where
  pub orders_count : ℕ
  pub deals_count : ℕ
  pub accounting_count : ℕ

pub record Checkpoint : Type 0 where
  pub through : ℕ
  pub counts : Counts

-- What the sinks took so far, the counters, and the content of the checkpoint's file.
pub record Run : Type 0 where
  pub sunk : List Item
  pub counts : Counts
  pub checkpoint : Option Checkpoint

pub record Environment : Type 0 where
  -- the readers, where none is an exception
  pub history_orders : ℕ × ℕ → Option (List Row)
  pub history_deals : ℕ × ℕ → Option (List Row)
  -- none: the adapter has no such reader, or there is no sink for it
  pub history_accounting_deals : Option (ℕ × ℕ → Option (List Row))
  -- whether the n-th call of a sink returns
  pub takes : ℕ → Bool
  -- how the write of the checkpoint at the given end of a window ends
  pub write : ℕ → Write

-- `counts[kind] += 1`
unfoldable pub bump : Kind → Counts → Counts
bump orders c = record c { orders_count = c.orders_count + 1 }
bump deals c = record c { deals_count = c.deals_count + 1 }
bump accounting_deals c = record c { accounting_count = c.accounting_count + 1 }

unfoldable pub items_of : Kind → List Row → List Item
items_of kind [] = []
items_of kind (row ∷ rows) = record { kind = kind; row = row } ∷ items_of kind rows

-- The run has raised, or it goes on.
unfoldable pub next : Bool × Run → (Run → Bool × Run) → Bool × Run
next (true, run) continue = continue run
next (false, run) continue = (false, run)

unfoldable pub through_of : Option Checkpoint → Option ℕ
through_of none = none
through_of (some c) = some c.through

module _ (env : Environment) where
  -- `for record in records`
  unfoldable pub sink_all : List Item → Run → Bool × Run
  sink_all [] run = (true, run)
  sink_all (item ∷ items) run =
      let rest =
        sink_all items
          (record run { sunk = run.sunk ++ item ∷ []; counts = bump item.kind run.counts }) in
      if env.takes (length run.sunk) then rest else (false, run)

  unfoldable pub sink_read : Kind → Option (List Row) → Run → Bool × Run
  sink_read kind none run = (false, run)
  sink_read kind (some rows) run = sink_all (items_of kind rows) run

  unfoldable pub sink_both : Option (List Row) → Option (List Row) → Run → Bool × Run
  sink_both (some orders_) (some deals_) run =
      next (sink_all (items_of orders orders_) run) (sink_all (items_of deals deals_))
  sink_both _ _ run = (false, run)

  unfoldable pub sink_accounting : Option (ℕ × ℕ → Option (List Row)) → ℕ × ℕ → Run → Bool × Run
  unfolding sink_read
  sink_accounting none window run = (true, run)
  sink_accounting (some reader) window run = sink_read accounting_deals (reader window) run

  -- `atomic_json(self.checkpoint, …)`
  unfoldable pub write_checkpoint : Write → ℕ → Run → Bool × Run
  write_checkpoint published end run =
      (true, record run { checkpoint = some (record { through = end; counts = run.counts }) })
  write_checkpoint refused end run = (false, run)
  write_checkpoint interrupted end run =
      (false, record run { checkpoint = some (record { through = end; counts = run.counts }) })

  -- One round of `while cursor < now`. Both readers run before the first sink.
  unfoldable pub import_window : ℕ × ℕ → Run → Bool × Run
  unfolding sink_both sink_accounting
  import_window window run =
      next (sink_both (env.history_orders window) (env.history_deals window) run) (λ run'.
        next (sink_accounting env.history_accounting_deals window run')
          (write_checkpoint (env.write window.1) window.1))

  unfoldable pub import_windows : List (ℕ × ℕ) → Run → Bool × Run
  import_windows [] run = (true, run)
  import_windows (window ∷ windows_) run = next (import_window window run) (import_windows windows_)

  unfoldable pub no_counts : Counts
  no_counts = record { orders_count = 0; deals_count = 0; accounting_count = 0 }

  unfoldable pub from_start : Bool → ℕ → ℕ → Start → Option Checkpoint → Bool × Run
  unfolding no_counts
  from_start is_atomic chunk_days now (refused_start problem) file =
      (false, record { sunk = []; counts = no_counts; checkpoint = file })
  from_start is_atomic chunk_days now (from start) file =
      import_windows (windows is_atomic chunk_days now start)
        (record { sunk = []; counts = no_counts; checkpoint = file })

  -- `run`, for the flags of the adapter and a clock that reads `now`
  unfoldable pub run_import : Bool → Bool → Mode → Option ℕ → ℕ → ℕ → Option Checkpoint → Bool × Run
  unfolding from_start through_of
  run_import is_unresolved is_atomic mode date chunk_days now file =
      from_start is_atomic chunk_days now (start_of is_unresolved mode date now (through_of file))
        file
