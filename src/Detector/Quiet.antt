-- ===== src/Detector/Quiet.antt =====
-- worker/event_detector.py: a snapshot that has not changed yields no event.
use mathlib.Core.List.{flat_map}
use tradejournal_mt5_cloud_w.Prelude.{
  ℕ, String, ◌≡◌, refl, ap, true, false, not, List, [], ◌∷◌, arith, str_eq, eq_refl, Bool-cases,
  inl, inr, All,
}
use tradejournal_mt5_cloud_w.Prelude.Dict.{Dict, contains, keys, elem, lookup}
use tradejournal_mt5_cloud_w.Prelude.Sort.{sorted, elem-sorted}
use tradejournal_mt5_cloud_w.Value.{Row, get}
use tradejournal_mt5_cloud_w.Value.Compare.{eq_self, is_nan_value}
use tradejournal_mt5_cloud_w.Detector.{
  Snapshot, row_at, differs, opened_or_modified, closed, order_changed, order_created_or_modified,
  order_cancelled, detect_events,
}

-- A loop whose rounds on the keys append nothing.
pub flat_map-nil :
    {A : Type 0} (body : String → List A) (ks : List String)
    → ((k : String) → elem k ks ≡ true → body k ≡ [])
    → flat_map body ks ≡ []
unfolding flat_map elem
flat_map-nil body [] h = refl
flat_map-nil body (k ∷ ks) h =
    rw (h k (rw (eq_refl k)), flat_map-nil body ks (λ j e. h j (ground arith)))

-- No value of the row is the float NaN.
abbrev pub RowHasNoNan : Row → Type 0
RowHasNoNan row = All (λ entry. is_nan_value (entry.1) ≡ false) row

-- No value in a position or an order is the float NaN.
pub record HasNoNan (s : Snapshot) : Type 0 where
  pub of_positions : All (λ entry. RowHasNoNan (entry.1)) s.positions
  pub of_orders : All (λ entry. RowHasNoNan (entry.1)) s.orders

pub get_not_nan : (f : String) (row : Row) → RowHasNoNan row → is_nan_value (get f row) ≡ false
unfolding get lookup is_nan_value
get_not_nan f [] h = refl
get_not_nan f ((k, v) ∷ row) h = elim (Bool-cases (str_eq k f)) [
  | inl same ↦ rw same (h.0)
  | inr other ↦ rw other (get_not_nan f row h.1)
]

pub row_at_not_nan :
    (t : String) (rows : Dict Row)
    → All (λ entry. RowHasNoNan (entry.1)) rows
    → RowHasNoNan (row_at t rows)
unfolding row_at
row_at_not_nan t [] h = tt
row_at_not_nan t ((k, row) ∷ rows) h = elim (Bool-cases (str_eq k t)) [
  | inl same ↦ rw same (h.0)
  | inr other ↦ rw other (row_at_not_nan t rows h.1)
]

pub differs_self : (f : String) (r : Row) → is_nan_value (get f r) ≡ false → differs f r r ≡ false
unfolding differs
differs_self f r h = ap not (eq_self (get f r) h)

module _ (s : Snapshot) (h : HasNoNan s) where
  opened_or_modified_self :
      (t : String) → elem t (sorted (keys s.positions)) ≡ true → opened_or_modified s s t ≡ []
  unfolding opened_or_modified contains
  opened_or_modified_self t known = rw (
    (rw elem-sorted at known),
    differs_self "stop_loss" (row_at t s.positions)
        (get_not_nan "stop_loss" _ (row_at_not_nan t s.positions h.of_positions)),
    differs_self "take_profit" (row_at t s.positions)
        (get_not_nan "take_profit" _ (row_at_not_nan t s.positions h.of_positions)),
  )

  order_self :
      (t : String) → elem t (sorted (keys s.orders)) ≡ true → order_created_or_modified s s t ≡ []
  unfolding order_created_or_modified order_changed contains
  order_self t known = rw (
    (rw elem-sorted at known),
    differs_self "price" (row_at t s.orders)
        (get_not_nan "price" _ (row_at_not_nan t s.orders h.of_orders)),
    differs_self "stop_loss" (row_at t s.orders)
        (get_not_nan "stop_loss" _ (row_at_not_nan t s.orders h.of_orders)),
    differs_self "take_profit" (row_at t s.orders)
        (get_not_nan "take_profit" _ (row_at_not_nan t s.orders h.of_orders)),
  )

  -- Two equal snapshots in which no value is NaN yield no event.
  pub detect_events_self : (float_repr : ℕ → String) → detect_events float_repr s s ≡ []
  unfolding detect_events
  detect_events_self float_repr = simp (
    flat_map-nil (opened_or_modified s s) (sorted (keys s.positions)) opened_or_modified_self,
    flat_map-nil (closed float_repr s s) (sorted (keys s.positions))
        (λ t known. unfold closed contains in rw (rw elem-sorted at known)),
    flat_map-nil (order_created_or_modified s s) (sorted (keys s.orders)) order_self,
    flat_map-nil (order_cancelled s s) (sorted (keys s.orders))
        (λ t known. unfold order_cancelled contains in rw (rw elem-sorted at known)),
  )
