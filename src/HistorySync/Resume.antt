-- ===== src/HistorySync/Resume.antt =====
-- windows_agent/worker/history_sync.py: the checkpoint never runs ahead of what the sinks took.
use mathlib.Core.List.{append-nil, append_assoc}
use tradejournal_mt5_cloud_w.Prelude.{
  ℕ, ◌≡◌, refl, sym, ap, ◌∙◌, Bool, true, false, Option, some, List, [], ◌∷◌, ◌++◌, ◌⊎◌, inl, inr,
  All,
}
use tradejournal_mt5_cloud_w.Outbox.{Write, published, refused, interrupted}
use tradejournal_mt5_cloud_w.HistorySync.Run.{
  Item, Run, Environment, next, sink_both, sink_accounting, write_checkpoint, import_window,
  import_windows, through_of,
}
use tradejournal_mt5_cloud_w.HistorySync.Round.{
  IsSunk, next-IsSunk, next_assoc, sink_both-IsSunk, sink_accounting-IsSunk, window_items,
  all_items, IsReadable,
}

-- The end of the last window, or what was there before.
unfoldable pub last_end : Option ℕ → List (ℕ × ℕ) → Option ℕ
last_end through [] = through
last_end through (window ∷ windows_) = last_end (some window.1) windows_

module _ (env : Environment) where
  -- A window is imported as a whole and in the checkpoint, or the checkpoint is not moved.
  IsRound : ℕ × ℕ → Run → Bool × Run → Type 0
  IsRound window run step =
      ((through_of step.1.checkpoint ≡ some window.1)
        × (step.1.sunk ≡ run.sunk ++ window_items env window)
        × IsReadable env window)
      ⊎ ((step.0 ≡ false)
          × (step.1.checkpoint ≡ run.checkpoint)
          × (extra : List Item) × (left : List Item) × (window_items env window ≡ extra ++ left)
          × (step.1.sunk ≡ run.sunk ++ extra))

  checkpoint-IsRound :
      (window : ℕ × ℕ) (run : Run) (write : Write) (step : Bool × Run)
      → IsSunk (window_items env window) (IsReadable env window) run step
      → IsRound window run (next step (write_checkpoint env write window.1))
  unfolding next write_checkpoint IsRound through_of
  checkpoint-IsRound window run write (false, r) s =
      inr (refl, s.same_checkpoint, s.extra, s.left, s.split, s.sunk_is)
  checkpoint-IsRound window run published (true, r) s =
      inl (refl, s.sunk_is ∙ rw (s.whole refl).0 refl, (s.whole refl).1)
  checkpoint-IsRound window run refused (true, r) s =
      inr (refl, s.same_checkpoint, s.extra, s.left, s.split, s.sunk_is)
  checkpoint-IsRound window run interrupted (true, r) s =
      inl (refl, s.sunk_is ∙ rw (s.whole refl).0 refl, (s.whole refl).1)

  import_window-IsRound :
      (window : ℕ × ℕ) (run : Run) → IsRound window run (import_window env window run)
  unfolding import_window window_items
  import_window-IsRound window run =
      rw
        (next_assoc (sink_both env (env.history_orders window) (env.history_deals window) run)
          (sink_accounting env env.history_accounting_deals window)
          (write_checkpoint env (env.write window.1) window.1))
        (checkpoint-IsRound window run (env.write window.1) _ (
          next-IsSunk _ _ _ _ run _ (sink_accounting env env.history_accounting_deals window)
            (sink_both-IsSunk env (env.history_orders window) (env.history_deals window) run)
            (sink_accounting-IsSunk env env.history_accounting_deals window)))

  -- Nothing, or the first of the records of the next window.
  pub data IsPartOfNext : List (ℕ × ℕ) → List Item → Type 0 where
    nothing : (todo : List (ℕ × ℕ)) → IsPartOfNext todo []
    part :
        (window : ℕ × ℕ) (todo : List (ℕ × ℕ)) (extra left : List Item)
        → window_items env window ≡ extra ++ left
        → IsPartOfNext (window ∷ todo) extra

  -- What a run over some windows leaves: the checkpoint is at the end of the last window whose
  -- readers all returned and whose records the sinks all took, and of the next one they took a part,
  -- or nothing if the run returned.
  pub record IsResumable (windows_ : List (ℕ × ℕ)) (before : Run) (step : Bool × Run) : Type 0 where
    pub done : List (ℕ × ℕ)
    pub todo : List (ℕ × ℕ)
    pub extra : List Item
    pub split : windows_ ≡ done ++ todo
    pub read : All (IsReadable env) done
    pub reached : through_of step.1.checkpoint ≡ last_end (through_of before.checkpoint) done
    pub sunk_is : step.1.sunk ≡ before.sunk ++ (all_items env done ++ extra)
    pub behind : IsPartOfNext todo extra
    pub finished : step.0 ≡ true → (todo ≡ []) × (extra ≡ [])

  stopped-IsResumable :
      (window : ℕ × ℕ) (windows_ : List (ℕ × ℕ)) (run r : Run)
      → IsRound window run (false, r)
      → IsResumable (window ∷ windows_) run (false, r)
  unfolding IsRound all_items last_end
  stopped-IsResumable window windows_ run r (inl (moved, taken, read)) = record {
    done = window ∷ [];
    todo = windows_;
    extra = [];
    split = refl;
    read = (read, tt);
    reached = moved;
    sunk_is =
        taken
        ∙ sym (
            ap (λ (l : List Item). run.sunk ++ l)
              (append-nil (window_items env window ++ []) ∙ append-nil (window_items env window)));
    behind = nothing windows_;
    finished = λ h. cc;
  }
  stopped-IsResumable window windows_ run r (inr (_, stays, extra, left, split, taken)) = record {
    done = [];
    todo = window ∷ windows_;
    extra = extra;
    split = refl;
    read = tt;
    reached = ap through_of stays;
    sunk_is = taken;
    behind = part window windows_ extra left split;
    finished = λ h. cc;
  }

  cons-IsResumable :
      (window : ℕ × ℕ) (windows_ : List (ℕ × ℕ)) (run r : Run) (step : Bool × Run)
      → IsRound window run (true, r)
      → IsResumable windows_ r step
      → IsResumable (window ∷ windows_) run step
  unfolding IsRound all_items last_end
  cons-IsResumable window windows_ run r step (inr (raises, _, _, _, _, _)) later = cc
  cons-IsResumable window windows_ run r step (inl (moved, taken, read)) later = record {
    done = window ∷ later.done;
    todo = later.todo;
    extra = later.extra;
    split = ap (λ (l : List (ℕ × ℕ)). window ∷ l) later.split;
    read = (read, later.read);
    reached = later.reached ∙ ap (λ (t : Option ℕ). last_end t later.done) moved;
    sunk_is =
        later.sunk_is
        ∙ ap (λ (l : List Item). l ++ (all_items env later.done ++ later.extra)) taken
        ∙ append_assoc run.sunk (window_items env window) (all_items env later.done ++ later.extra)
        ∙ ap (λ (l : List Item). run.sunk ++ l)
            (sym (append_assoc (window_items env window) (all_items env later.done) later.extra));
    behind = later.behind;
    finished = later.finished;
  }

  -- The checkpoint never runs ahead of the sinks, and never falls behind by more than a window. After
  -- a run over any windows, however the readers, the sinks and the writes behave and whether it
  -- raises or not, the windows split into those done and those to do: the checkpoint stands at the
  -- end of the last one done, or is as before; all readers of those done returned, and the sinks took
  -- all their records, in their order; of the records of the next window the sinks took the first
  -- ones at most; and if the run returned, all windows are done.
  pub import_windows-IsResumable :
      (windows_ : List (ℕ × ℕ)) (run : Run)
      → IsResumable windows_ run (import_windows env windows_ run)
  unfolding import_windows next last_end through_of
  import_windows-IsResumable [] run = record {
    done = [];
    todo = [];
    extra = [];
    split = refl;
    read = tt;
    reached = refl;
    sunk_is = unfold all_items in sym (append-nil run.sunk);
    behind = nothing [];
    finished = λ h. (refl, refl);
  }
  import_windows-IsResumable (window ∷ windows_) run =
      by_round (import_window env window run) (import_window-IsRound window run)
        (import_windows-IsResumable windows_)
    where
      by_round :
          (step : Bool × Run)
          → IsRound window run step
          → ((r : Run) → IsResumable windows_ r (import_windows env windows_ r))
          → IsResumable (window ∷ windows_) run (next step (import_windows env windows_))
      by_round (false, r) round_ later = stopped-IsResumable window windows_ run r round_
      by_round (true, r) round_ later = cons-IsResumable window windows_ run r _ round_ (later r)
