-- ===== src/Excursions.antt =====
-- windows_agent/worker/excursion_tracker.py: the extrema of each open position, in memory. A state
-- is a row of `self.positions`; each operation also says whether it persists.
pub mod Peak
pub mod Extrema
use mathlib.Core.List.{foldl}
use tradejournal_mt5_cloud_w.Prelude.{
  ℕ, ◌+◌, String, Bool, true, false, not, ◌&&◌, ◌||◌, Option, none, some, List, [], ◌∷◌, ◌++◌, ltb,
  str_eq, if◌then◌else◌,
}
use tradejournal_mt5_cloud_w.Prelude.Int.{ℤ, pos, ◌+ℤ◌}
use tradejournal_mt5_cloud_w.Prelude.Dict.{Dict, lookup, insert, remove, contains, merge}
use tradejournal_mt5_cloud_w.Value.{
  Value, Row, get, is_some, or_else, truthy, null, bool, int, float, str,
}
use tradejournal_mt5_cloud_w.Value.Compare.{eq, lt, is_finite}
use tradejournal_mt5_cloud_w.Value.Float.{fadd, fsub, fmul, fdiv, fneg, to_float}
use tradejournal_mt5_cloud_w.Value.Text.{to_str}

abbrev pub flt : ℕ → ℕ → Bool
flt a b = lt (float a) (float b)

-- `max(a, b)`: the first, unless the second is greater
unfoldable pub fmax : ℕ → ℕ → ℕ
fmax a b = if flt a b then b else a

-- `number or 0.0`
unfoldable pub or_zero : Option ℕ → ℕ
or_zero none = 0
or_zero (some b) = if truthy (float b) then b else 0

finite_or_none : Option ℕ → Option ℕ
finite_or_none none = none
finite_or_none (some b) = if is_finite (float b) then some b else none

value_of : Option ℕ → Value
value_of none = null
value_of (some b) = float b

-- `state[key] = value` for the keys whose value is known
unfoldable pub set_known : List String → Row → Row → Row
set_known [] row state = state
set_known (key ∷ keys) row state =
    set_known keys row (if is_some (get key row) then insert key (get key row) state else state)

-- The same for the keys that the state does not know yet, and whether there was one.
unfoldable pub set_missing : List String → Row → Row × Bool → Row × Bool
set_missing [] row (state, changed) = (state, changed)
set_missing (key ∷ keys) row (state, changed) = set_missing keys row (
    if is_some (get key row) && not (is_some (get key state))
    then (insert key (get key row) state, true)
    else (state, changed))

row_or_empty : Option Row → Row
row_or_empty none = []
row_or_empty (some row) = row

-- `self.positions.setdefault(ticket, {})`, and `positions.get(ticket)` where there is one
unfoldable pub state_of : String → Dict Row → Row
unfolding row_or_empty
state_of ticket positions = row_or_empty (lookup ticket positions)

set_default : String → Value → Row → Row
set_default key v row = if contains key row then row else insert key v row

-- `int(state.get("samples") or 0)`, for what the tracker writes there, an int; what `int` makes of a
-- value of another type is not modelled, and it counts as 0 here
samples_of : Value → ℤ
samples_of (int n) = n
samples_of _ = pos 0

module _ (lower : String → String) (float_repr : ℕ → String) (parse_float : String → Option ℕ) where
  -- `_number`
  unfoldable pub number : Value → Option ℕ
  unfolding finite_or_none
  number (bool b) = none
  number v = finite_or_none (to_float parse_float v)

  unfoldable pub number_at : String → Row → ℕ
  unfolding or_zero
  number_at key state = or_zero (number (get key state))

  -- `str(row.get("ticket") or "")`
  unfoldable pub ticket_text : Row → String
  ticket_text event = to_str float_repr (or_else (get "ticket" event) (str ""))

  -- One extremum with its time: `>=` of two floats of which neither is NaN.
  unfoldable pub raise_to : String → String → ℕ → String → Row → Row
  raise_to delta at value observed_at state =
      if flt value (number_at delta state)
      then state
      else insert at (str observed_at) (insert delta (float value) state)

  quotient : Option ℕ → Value
  quotient none = null
  quotient (some b) = float b

  unfoldable pub set_points : Option ℕ → Row → Row
  unfolding quotient
  set_points none state = state
  set_points (some point) state =
      if flt 0 point
      then insert "mae_points" (quotient (fdiv (number_at "mae_price_delta" state) point))
          (insert "mfe_points" (quotient (fdiv (number_at "mfe_price_delta" state) point)) state)
      else state

  unfoldable pub set_money : Option ℕ → Row → Row
  set_money none state = state
  set_money (some profit) state =
      let mfe = fmax (fmax (number_at "mfe_money" state) profit) 0 in
      let mae = fmax (fmax (number_at "mae_money" state) (fneg profit)) 0 in
      insert "mae_money" (float mae) (insert "mfe_money" (float mfe) state)

  -- `_observe_value`
  unfoldable pub observe_value : ℕ → Option ℕ → Option ℕ → String → Row → Row
  unfolding set_points set_money samples_of
  observe_value favorable_delta point profit observed_at state =
      let favorable = fmax 0 favorable_delta in
      let adverse = fmax 0 (fneg favorable_delta) in
      let raised =
        raise_to "mae_price_delta" "mae_at" adverse observed_at
          (raise_to "mfe_price_delta" "mfe_at" favorable observed_at state) in
      let priced = set_money profit (set_points point raised) in
      insert "samples" (int (samples_of (get "samples" priced) +ℤ pos 1)) priced

  -- `-1.0 if direction in ("sell", "short") else 1.0`
  factor : Value → ℕ
  factor direction =
      let text = lower (to_str float_repr (or_else direction (str ""))) in
      if str_eq text "sell" || str_eq text "short" then 0xBFF0000000000000 else 0x3FF0000000000000

  unfoldable pub observe_prices :
      Value → Option ℕ → Option ℕ → Option ℕ → Option ℕ → String → Row → Row
  unfolding factor
  observe_prices direction (some open_price) (some price) point profit observed_at state =
      observe_value (fmul (fsub price open_price) (factor direction)) point profit observed_at state
  observe_prices direction _ _ point profit observed_at state = state

  both_known : Option ℕ → Option ℕ → Bool
  both_known (some a) (some b) = true
  both_known _ _ = false

  -- The round for one event of `observe_open_events`.
  unfoldable pub observe_open : Row → Dict Row × Bool → Dict Row × Bool
  unfolding set_default
  observe_open event (positions, changed) =
      let ticket = ticket_text event in
      let (state, changed') =
        set_missing ("symbol" ∷ "direction" ∷ "open_price" ∷ "balance_before_open" ∷ []) event
          (state_of ticket positions, changed) in
      if not (eq (get "event_type" event) (str "trade_opened")) || str_eq ticket ""
      then (positions, changed)
      else (insert ticket (set_default "samples" (int (pos 0)) state) positions, changed')

  unfoldable pub observe_open_events : List Row → Dict Row × Bool → Dict Row × Bool
  observe_open_events [] state = state
  observe_open_events (event ∷ events) state = observe_open_events events (observe_open event state)

  -- The round for one position of `observe_snapshot`.
  unfoldable pub observe_position : String → String × Row → Dict Row × Bool → Dict Row × Bool
  unfolding both_known
  observe_position observed_at (ticket, position) (positions, changed) =
      let key = to_str float_repr (or_else (get "position_id" position) (str ticket)) in
      let state =
        set_known ("symbol" ∷ "direction" ∷ "open_price" ∷ "point" ∷ "digits" ∷ []) position
          (state_of key positions) in
      let open_price = number (get "open_price" state) in
      let price = number (get "current_price" position) in
      (
        insert key
            (observe_prices (get "direction" state) open_price price (number (get "point" position))
              (number (get "floating_profit" position)) observed_at state)
            positions,
        changed || both_known open_price price,
      )

  unfoldable pub observe_snapshot : String → Dict Row → Dict Row × Bool → Dict Row × Bool
  observe_snapshot observed_at [] state = state
  observe_snapshot observed_at (position ∷ rest) state =
      observe_snapshot observed_at rest (observe_position observed_at position state)

  hundred_times : Option ℕ → Value
  hundred_times none = null
  hundred_times (some ratio) = float (fmul ratio 0x4059000000000000)

  -- `money / balance * 100.0`, for a balance that is positive
  unfoldable pub percentage : Option ℕ → ℕ → Value
  unfolding hundred_times
  percentage none money = null
  percentage (some balance) money =
      if flt 0 balance then hundred_times (fdiv money balance) else null

  -- What `enrich_close_events` adds to the event of a close.
  unfoldable pub excursions : ℕ → Row → Row
  unfolding value_of samples_of
  excursions sample_ms state =
      let balance = number (get "balance_before_open" state) in
      ("mae_price_delta", value_of (number (get "mae_price_delta" state)))
      ∷ ("mfe_price_delta", value_of (number (get "mfe_price_delta" state)))
      ∷ ("mae_points", value_of (number (get "mae_points" state)))
      ∷ ("mfe_points", value_of (number (get "mfe_points" state)))
      ∷ ("mae_money", value_of (number (get "mae_money" state)))
      ∷ ("mfe_money", value_of (number (get "mfe_money" state)))
      ∷ ("mae_pct", percentage balance (number_at "mae_money" state))
      ∷ ("mfe_pct", percentage balance (number_at "mfe_money" state))
      ∷ ("mae_at", get "mae_at" state)
      ∷ ("mfe_at", get "mfe_at" state)
      ∷ ("excursion_samples", int (samples_of (get "samples" state)))
      ∷ ("excursion_sample_ms", int (pos sample_ms))
      ∷ ("excursion_source", str "mt5_snapshot")
      ∷ []

  -- The state of a position with the price of its close.
  unfoldable pub observe_close : String → Row → Row → Row
  observe_close now event state =
      observe_prices (or_else (get "direction" state) (get "direction" event))
        (number (get "open_price" state)) (number (get "close_price" event))
        (number (get "point" state)) (number (get "profit" event))
        (to_str float_repr
          (or_else (get "close_time" event) (or_else (get "event_time" event) (str now))))
        state

  is_empty : Row → Bool
  is_empty [] = true
  is_empty (entry ∷ row) = false

  -- The round for one event of `enrich_close_events`: the event, the positions and the ticket.
  unfoldable pub enrich_close : ℕ → String → Row → Dict Row → Row × Dict Row × List String
  unfolding is_empty
  enrich_close sample_ms now event positions =
      let ticket = ticket_text event in
      let state = observe_close now event (state_of ticket positions) in
      if not (eq (get "event_type" event) (str "trade_closed"))
        || str_eq ticket ""
        || is_empty (state_of ticket positions)
      then (event, positions, [])
      else (merge event (excursions sample_ms state), insert ticket state positions, ticket ∷ [])

  unfoldable pub enrich_close_events :
      ℕ → String → List Row → Dict Row → List Row × Dict Row × List String
  enrich_close_events sample_ms now [] positions = ([], positions, [])
  enrich_close_events sample_ms now (event ∷ events) positions =
      let (event', positions', closed) = enrich_close sample_ms now event positions in
      let (events', positions'', closed') = enrich_close_events sample_ms now events positions' in
      (event' ∷ events', positions'', closed ++ closed')

-- `discard`
unfoldable pub discard : List String → Dict Row × Bool → Dict Row × Bool
discard [] state = state
discard (ticket ∷ tickets) (positions, changed) =
    discard tickets
      (if contains ticket positions then (remove ticket positions, true) else (positions, changed))
