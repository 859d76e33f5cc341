-- ===== src/LiveSync/Windows.antt =====
-- windows_agent/worker/live_sync.py: `detect_windows_events`, the events between two snapshots with
-- changed volumes and new deals.
use mathlib.Core.List.{flat_map}
use tradejournal_mt5_cloud_w.Prelude.{ℕ, ◌≡◌, String, true, List, [], ◌∷◌, ◌++◌, if◌then◌else◌}
use tradejournal_mt5_cloud_w.Prelude.Int.{pos}
use tradejournal_mt5_cloud_w.Prelude.Dict.{elem, contains, keys, merge}
use tradejournal_mt5_cloud_w.Prelude.Sort.{sorted, elem-sorted}
use tradejournal_mt5_cloud_w.Value.{Row, get, or_else, bool, int, str}
use tradejournal_mt5_cloud_w.Value.Compare.{lt}
use tradejournal_mt5_cloud_w.Detector.{Snapshot, row_at, differs, detect_events}
use tradejournal_mt5_cloud_w.Detector.Quiet.{
  HasNoNan, flat_map-nil, get_not_nan, row_at_not_nan, differs_self, detect_events_self,
}

unfoldable pub volume_event : String → Row → Row → Row
volume_event ticket old new =
    ("event_type", str "trade_volume_changed")
    ∷ ("ticket", str ticket)
    ∷ ("symbol", get "symbol" new)
    ∷ ("direction", get "direction" new)
    ∷ ("volume", get "volume" new)
    ∷ ("previous_volume", get "volume" old)
    ∷ (
      "partial_close",
      bool (
          lt (or_else (get "volume" new) (int (pos 0))) (or_else (get "volume" old) (int (pos 0)))),
    )
    ∷ []

-- The round for one ticket of the previous positions.
unfoldable pub volume_changed : Snapshot → Snapshot → String → List Row
volume_changed previous current ticket =
    if contains ticket current.positions
    then if differs "volume" (row_at ticket previous.positions) (row_at ticket current.positions)
      then volume_event ticket (row_at ticket previous.positions) (row_at ticket current.positions)
        ∷ []
      else []
    else []

-- `{"event_type": "deal_recorded", "ticket": ticket, **deal}`
unfoldable pub deal_recorded : Snapshot → Snapshot → String → List Row
deal_recorded previous current ticket =
    if contains ticket previous.deals
    then []
    else merge (("event_type", str "deal_recorded") ∷ ("ticket", str ticket) ∷ [])
        (row_at ticket current.deals)
      ∷ []

volume_self :
    (s : Snapshot) (h : HasNoNan s) (t : String)
    → elem t (sorted (keys s.positions)) ≡ true
    → volume_changed s s t ≡ []
unfolding volume_changed contains
volume_self s h t known = rw (
  (rw elem-sorted at known),
  differs_self "volume" (row_at t s.positions)
      (get_not_nan "volume" _ (row_at_not_nan t s.positions h.of_positions)),
)

module _ (float_repr : ℕ → String) where
  unfoldable pub detect_windows_events : Snapshot → Snapshot → List Row
  detect_windows_events previous current =
      detect_events float_repr previous current
      ++ flat_map (volume_changed previous current) (sorted (keys previous.positions))
      ++ flat_map (deal_recorded previous current) (sorted (keys current.deals))

  -- Two equal snapshots in which no value is NaN yield no event of `detect_windows_events`: no
  -- modification, no volume change and no deal.
  pub detect_windows_events_self : (s : Snapshot) → HasNoNan s → detect_windows_events s s ≡ []
  unfolding detect_windows_events
  detect_windows_events_self s h = simp (
    detect_events_self s h float_repr,
    flat_map-nil (volume_changed s s) (sorted (keys s.positions)) (volume_self s h),
    flat_map-nil (deal_recorded s s) (sorted (keys s.deals))
        (λ t known. unfold deal_recorded contains in rw (rw elem-sorted at known)),
  )
