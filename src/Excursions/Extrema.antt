-- ===== src/Excursions/Extrema.antt =====
-- windows_agent/worker/excursion_tracker.py: `_observe_value` keeps the extrema of what it observed.
use tradejournal_mt5_cloud_w.Prelude.{
  ℕ, ◌≡◌, refl, ◌∙◌, String, true, false, Option, none, some, List, [], ◌∷◌, map, Bool-cases, inl,
  inr, All, str_eq,
}
use tradejournal_mt5_cloud_w.Prelude.Dict.{insert, lookup-insert, lookup-insert_self}
use tradejournal_mt5_cloud_w.Value.{Value, Row, get, float, str}
use tradejournal_mt5_cloud_w.Value.Compare.{is_finite}
use tradejournal_mt5_cloud_w.Value.Order.{is_finite-fneg}
use tradejournal_mt5_cloud_w.Value.Float.{fneg, to_float}
use tradejournal_mt5_cloud_w.Excursions.{
  flt, fmax, number, number_at, raise_to, set_points, set_money, observe_value,
}
use tradejournal_mt5_cloud_w.Excursions.Peak.{
  IsPeak, raise, fmax-finite, raise-IsPeak, nothing-IsPeak,
}

get-insert_self : (key : String) (v : Value) (row : Row) → get key (insert key v row) ≡ v
unfolding get
get-insert_self key v row = rw (lookup-insert_self key v row) refl

get-insert_other :
    (other key : String) (v : Value) (row : Row)
    → str_eq other key ≡ false
    → get key (insert other v row) ≡ get key row
unfolding get
get-insert_other other key v row h = rw (lookup-insert other key v row, h) refl

-- A field that only `raise_to` writes.
record IsDelta (key : String) : Type 0 where
  not_mfe_points : str_eq "mfe_points" key ≡ false
  not_mae_points : str_eq "mae_points" key ≡ false
  not_mfe_money : str_eq "mfe_money" key ≡ false
  not_mae_money : str_eq "mae_money" key ≡ false
  not_samples : str_eq "samples" key ≡ false

mfe-IsDelta : IsDelta "mfe_price_delta"
mfe-IsDelta = record {
  not_mfe_points = refl;
  not_mae_points = refl;
  not_mfe_money = refl;
  not_mae_money = refl;
  not_samples = refl;
}

mae-IsDelta : IsDelta "mae_price_delta"
mae-IsDelta = record {
  not_mfe_points = refl;
  not_mae_points = refl;
  not_mfe_money = refl;
  not_mae_money = refl;
  not_samples = refl;
}

-- The arguments of one call of `_observe_value`.
pub record Observation : Type 0 where
  pub favorable_delta : ℕ
  pub point : Option ℕ
  pub profit : Option ℕ
  pub observed_at : String

module _ (lower : String → String) (float_repr : ℕ → String) (parse_float : String → Option ℕ) where
  get-set_points :
      (key : String) (point : Option ℕ) (state : Row)
      → IsDelta key
      → get key (set_points lower float_repr parse_float point state) ≡ get key state
  unfolding set_points
  get-set_points key none state d = refl
  get-set_points key (some point) state d = elim (Bool-cases (flt 0 point)) [
    | inl positive ↦
        rw (positive, get-insert_other "mae_points" key _ _ d.not_mae_points)
          (get-insert_other "mfe_points" key _ _ d.not_mfe_points)
    | inr other ↦ rw other refl
  ]

  get-set_money :
      (key : String) (profit : Option ℕ) (state : Row)
      → IsDelta key
      → get key (set_money lower float_repr parse_float profit state) ≡ get key state
  unfolding set_money
  get-set_money key none state d = refl
  get-set_money key (some profit) state d =
      get-insert_other "mae_money" key _ _ d.not_mae_money
      ∙ get-insert_other "mfe_money" key _ _ d.not_mfe_money

  number_at-raise_to :
      (delta at observed_at : String) (value : ℕ) (state : Row)
      → str_eq at delta ≡ false
      → is_finite (float value) ≡ true
      → number_at lower float_repr parse_float delta
          (raise_to lower float_repr parse_float delta at value observed_at state)
        ≡ raise (number_at lower float_repr parse_float delta state) value
  unfolding raise_to raise number_at
  number_at-raise_to delta at observed_at value state apart f =
      elim (Bool-cases (flt value (number_at lower float_repr parse_float delta state))) [
        | inl lower_ ↦ rw lower_ refl
        | inr higher ↦
            rw
              (
                higher,
                get-insert_other at delta (str observed_at) (insert delta (float value) state)
                    apart,
                get-insert_self delta (float value) state,
              )
              (unfold number in unfold to_float in rw f refl)
      ]

  get-raise_to_other :
      (delta at observed_at key : String) (value : ℕ) (state : Row)
      → str_eq at key ≡ false
      → str_eq delta key ≡ false
      → get key (raise_to lower float_repr parse_float delta at value observed_at state)
        ≡ get key state
  unfolding raise_to
  get-raise_to_other delta at observed_at key value state apart_at apart =
      elim (Bool-cases (flt value (number_at lower float_repr parse_float delta state))) [
        | inl lower_ ↦ rw lower_ refl
        | inr higher ↦ rw higher (
            get-insert_other at key (str observed_at) (insert delta (float value) state) apart_at
            ∙ get-insert_other delta key (float value) state apart)
      ]

  number_at-get :
      (key : String) (a b : Row)
      → get key a ≡ get key b
      → number_at lower float_repr parse_float key a ≡ number_at lower float_repr parse_float key b
  unfolding number_at
  number_at-get key a b e = rw e refl

  -- `_observe_value` raises the two extrema, each by its own value.
  number_at-observe_value :
      (o : Observation) (state : Row)
      → is_finite (float o.favorable_delta) ≡ true
      → (number_at lower float_repr parse_float "mfe_price_delta" (
            observe_value lower float_repr parse_float o.favorable_delta o.point o.profit
              o.observed_at state)
          ≡ raise
              (number_at lower float_repr parse_float "mfe_price_delta" state)
              (fmax 0 o.favorable_delta))
        × (number_at lower float_repr parse_float "mae_price_delta" (
              observe_value lower float_repr parse_float o.favorable_delta o.point o.profit
                o.observed_at state)
            ≡ raise
                (number_at lower float_repr parse_float "mae_price_delta" state)
                (fmax 0 (fneg o.favorable_delta)))
  unfolding observe_value
  number_at-observe_value o state f =
      let favorable = fmax 0 o.favorable_delta in
      let adverse = fmax 0 (fneg o.favorable_delta) in
      let once =
        raise_to lower float_repr parse_float "mfe_price_delta" "mfe_at" favorable o.observed_at
          state in
      let raised =
        raise_to lower float_repr parse_float "mae_price_delta" "mae_at" adverse o.observed_at
          once in
      let after : (key : String)
          → IsDelta key
          → get key (
              observe_value lower float_repr parse_float o.favorable_delta o.point o.profit
                o.observed_at state)
            ≡ get key raised =
        λ key d.
          get-insert_other "samples" key _ _ d.not_samples
          ∙ get-set_money key o.profit _ d
          ∙ get-set_points key o.point raised d in
      (
        number_at-get "mfe_price_delta" _ once (
              after "mfe_price_delta" mfe-IsDelta
              ∙ get-raise_to_other "mae_price_delta" "mae_at" o.observed_at "mfe_price_delta"
                  adverse once refl refl)
            ∙ number_at-raise_to "mfe_price_delta" "mfe_at" o.observed_at favorable state refl
                (fmax-finite o.favorable_delta f),
        number_at-get "mae_price_delta" _ raised (after "mae_price_delta" mae-IsDelta)
            ∙ number_at-raise_to "mae_price_delta" "mae_at" o.observed_at adverse once refl
                (fmax-finite (fneg o.favorable_delta) (is_finite-fneg o.favorable_delta ∙ f))
            ∙ rw
                (number_at-get "mae_price_delta" once state (
                  get-raise_to_other "mfe_price_delta" "mfe_at" o.observed_at "mae_price_delta"
                    favorable state refl refl))
                refl,
      )

  -- The state after a list of observations, the latest first.
  unfoldable pub observe_values : List Observation → Row → Row
  observe_values [] state = state
  observe_values (o ∷ observations) state =
      observe_value lower float_repr parse_float o.favorable_delta o.point o.profit o.observed_at
        (observe_values observations state)

  -- The extrema of a position are those of its whole history. From a state without extrema, after
  -- any list of observations whose deltas are finite, the MFE is the greatest of zero and the
  -- deltas, and the MAE the greatest of zero and the negated deltas.
  pub observe_values-IsPeak :
      (observations : List Observation) (state : Row)
      → number_at lower float_repr parse_float "mfe_price_delta" state ≡ 0
      → number_at lower float_repr parse_float "mae_price_delta" state ≡ 0
      → All (λ o. is_finite (float o.favorable_delta) ≡ true) observations
      → IsPeak
          (number_at lower float_repr parse_float "mfe_price_delta"
            (observe_values observations state))
          (map (λ o. o.favorable_delta) observations)
        × IsPeak
            (number_at lower float_repr parse_float "mae_price_delta"
              (observe_values observations state))
            (map (λ o. fneg o.favorable_delta) observations)
  unfolding observe_values
  observe_values-IsPeak [] state mfe mae h = (rw mfe nothing-IsPeak, rw mae nothing-IsPeak)
  observe_values-IsPeak (o ∷ observations) state mfe mae h =
      let (favorable, adverse) = observe_values-IsPeak observations state mfe mae h.1 in
      let (raised_mfe, raised_mae) =
        number_at-observe_value o (observe_values observations state) h.0 in
      (
        rw raised_mfe (raise-IsPeak _ o.favorable_delta _ favorable h.0),
        rw raised_mae (
            raise-IsPeak _ (fneg o.favorable_delta) _ adverse
              (is_finite-fneg o.favorable_delta ∙ h.0)),
      )
