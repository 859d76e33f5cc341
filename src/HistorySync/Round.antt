-- ===== src/HistorySync/Round.antt =====
-- windows_agent/worker/history_sync.py: what the sinks take in a round of the loop.
use mathlib.Core.List.{append-nil, append_assoc}
use tradejournal_mt5_cloud_w.Prelude.{
  ℕ, ◌≡◌, refl, sym, ap, ◌∙◌, Bool, true, false, Option, none, some, List, [], ◌∷◌, ◌++◌, length,
  Bool-cases, inl, inr,
}
use tradejournal_mt5_cloud_w.Value.{Row}
use tradejournal_mt5_cloud_w.HistorySync.Run.{
  Kind, orders, deals, accounting_deals, Item, Run, Environment, bump, items_of, next, sink_all,
  sink_read, sink_both, sink_accounting,
}

-- A part of a round: the sinks took the first of the given items, and if it did not raise, they took
-- them all and the reading went well.
pub record IsSunk (items : List Item) (Read : Type 0) (run : Run) (step : Bool × Run) : Type 0 where
  pub extra : List Item
  pub left : List Item
  pub split : items ≡ extra ++ left
  pub sunk_is : step.1.sunk ≡ run.sunk ++ extra
  pub same_checkpoint : step.1.checkpoint ≡ run.checkpoint
  pub whole : step.0 ≡ true → (extra ≡ items) × Read

nothing-IsSunk :
    (items : List Item) (Read : Type 0) (run : Run) → IsSunk items Read run (false, run)
nothing-IsSunk items Read run = record {
  extra = [];
  left = items;
  split = refl;
  sunk_is = sym (append-nil run.sunk);
  same_checkpoint = refl;
  whole = λ h. cc;
}

pub next-IsSunk :
    (front back : List Item) (Read Read' : Type 0) (run : Run) (step : Bool × Run)
    (continue : Run → Bool × Run)
    → IsSunk front Read run step
    → ((r : Run) → IsSunk back Read' r (continue r))
    → IsSunk (front ++ back) (Read × Read') run (next step continue)
unfolding next
next-IsSunk front back Read Read' run (false, r) continue s later = record {
  extra = s.extra;
  left = s.left ++ back;
  split = ap (λ (l : List Item). l ++ back) s.split ∙ append_assoc s.extra s.left back;
  sunk_is = s.sunk_is;
  same_checkpoint = s.same_checkpoint;
  whole = λ h. cc;
}
next-IsSunk front back Read Read' run (true, r) continue s later =
    let t = later r in
    record {
      extra = s.extra ++ t.extra;
      left = t.left;
      split =
          ap (λ (l : List Item). front ++ l) t.split
          ∙ ap (λ (l : List Item). l ++ (t.extra ++ t.left)) (sym (s.whole refl).0)
          ∙ sym (append_assoc s.extra t.extra t.left);
      sunk_is =
          t.sunk_is
          ∙ ap (λ (l : List Item). l ++ t.extra) s.sunk_is
          ∙ append_assoc run.sunk s.extra t.extra;
      same_checkpoint = t.same_checkpoint ∙ s.same_checkpoint;
      whole = λ h. (rw ((s.whole refl).0, (t.whole h).0) refl, ((s.whole refl).1, (t.whole h).1));
    }

pub next_assoc :
    (step : Bool × Run) (f g : Run → Bool × Run)
    → next step (λ run. next (f run) g) ≡ next (next step f) g
unfolding next
next_assoc (true, run) f g = refl
next_assoc (false, run) f g = refl

unfoldable pub rows_of : Option (List Row) → List Row
rows_of none = []
rows_of (some rows) = rows

-- The reader returned.
unfoldable pub IsRead : Option (List Row) → Type 0
IsRead rows = (read : List Row) × (rows ≡ some read)

-- The reader returned, if there is one.
unfoldable pub IsAccountingRead : Option (ℕ × ℕ → Option (List Row)) → ℕ × ℕ → Type 0
IsAccountingRead none window = Unit
IsAccountingRead (some reader) window = IsRead (reader window)

-- The same part, once it is known that the reading went well.
read-IsSunk :
    {items : List Item} {Read Read' : Type 0} {run : Run} {step : Bool × Run}
    → IsSunk items Read run step
    → Read'
    → IsSunk items Read' run step
read-IsSunk s read = record {
  extra = s.extra;
  left = s.left;
  split = s.split;
  sunk_is = s.sunk_is;
  same_checkpoint = s.same_checkpoint;
  whole = λ h. ((s.whole h).0, read);
}

module _ (env : Environment) where
  sink_all-IsSunk : (items : List Item) (run : Run) → IsSunk items Unit run (sink_all env items run)
  unfolding sink_all
  sink_all-IsSunk [] run = record {
    extra = [];
    left = [];
    split = refl;
    sunk_is = sym (append-nil run.sunk);
    same_checkpoint = refl;
    whole = λ h. (refl, tt);
  }
  sink_all-IsSunk (item ∷ items) run = elim (Bool-cases (env.takes (length run.sunk))) [
    | inr raises ↦ rw raises (nothing-IsSunk (item ∷ items) Unit run)
    | inl takes ↦
        let s =
          sink_all-IsSunk items
            (record run { sunk = run.sunk ++ item ∷ []; counts = bump item.kind run.counts }) in
        rw takes (record {
          extra = item ∷ s.extra;
          left = s.left;
          split = ap (λ (l : List Item). item ∷ l) s.split;
          sunk_is = s.sunk_is ∙ append_assoc run.sunk (item ∷ []) s.extra;
          same_checkpoint = s.same_checkpoint;
          whole = λ h. (ap (λ (l : List Item). item ∷ l) (s.whole h).0, tt);
        })
  ]

  sink_read-IsSunk :
      (kind : Kind) (rows : Option (List Row)) (run : Run)
      → IsSunk (items_of kind (rows_of rows)) (IsRead rows) run (sink_read env kind rows run)
  unfolding sink_read rows_of IsRead
  sink_read-IsSunk kind none run = nothing-IsSunk _ _ run
  sink_read-IsSunk kind (some rows) run =
      read-IsSunk (sink_all-IsSunk (items_of kind rows) run) (rows, refl)

  pub sink_both-IsSunk :
      (orders_ deals_ : Option (List Row)) (run : Run)
      → IsSunk
          (items_of orders (rows_of orders_) ++ items_of deals (rows_of deals_))
          (IsRead orders_ × IsRead deals_)
          run
          (sink_both env orders_ deals_ run)
  unfolding sink_both rows_of IsRead
  sink_both-IsSunk (some orders_) (some deals_) run =
      read-IsSunk
        (next-IsSunk _ _ Unit Unit run (sink_all env (items_of orders orders_) run) _
          (sink_all-IsSunk (items_of orders orders_) run) (sink_all-IsSunk (items_of deals deals_)))
        ((orders_, refl), (deals_, refl))
  sink_both-IsSunk none deals_ run = nothing-IsSunk _ _ run
  sink_both-IsSunk (some orders_) none run = nothing-IsSunk _ _ run

  unfoldable pub accounting_of : Option (ℕ × ℕ → Option (List Row)) → ℕ × ℕ → List Row
  unfolding rows_of
  accounting_of none window = []
  accounting_of (some reader) window = rows_of (reader window)

  pub sink_accounting-IsSunk :
      (reader : Option (ℕ × ℕ → Option (List Row))) (window : ℕ × ℕ) (run : Run)
      → IsSunk
          (items_of accounting_deals (accounting_of reader window))
          (IsAccountingRead reader window)
          run
          (sink_accounting env reader window run)
  unfolding sink_accounting accounting_of items_of IsAccountingRead
  sink_accounting-IsSunk none window run = record {
    extra = [];
    left = [];
    split = refl;
    sunk_is = sym (append-nil run.sunk);
    same_checkpoint = refl;
    whole = λ h. (refl, tt);
  }
  sink_accounting-IsSunk (some reader) window run =
      sink_read-IsSunk accounting_deals (reader window) run

  -- What the history holds in a window: its orders, its deals, and its ledger.
  unfoldable pub window_items : ℕ × ℕ → List Item
  unfolding rows_of accounting_of
  window_items window =
      (items_of orders (rows_of (env.history_orders window))
        ++ items_of deals (rows_of (env.history_deals window)))
      ++ items_of accounting_deals (accounting_of env.history_accounting_deals window)

  -- All readers of a window returned.
  abbrev pub IsReadable : ℕ × ℕ → Type 0
  IsReadable window =
      (IsRead (env.history_orders window) × IsRead (env.history_deals window))
      × IsAccountingRead env.history_accounting_deals window

  unfoldable pub all_items : List (ℕ × ℕ) → List Item
  all_items [] = []
  all_items (window ∷ windows_) = window_items window ++ all_items windows_
