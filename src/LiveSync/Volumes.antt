-- ===== src/LiveSync/Volumes.antt =====
-- windows_agent/worker/live_sync.py: the volumes and opening prices that
-- `_merge_event_stream_with_snapshot` tracks while it replays the fills of one batch.
use tradejournal_mt5_cloud_w.Prelude.{
  ℕ, String, Bool, not, ◌&&◌, ◌||◌, Option, none, some, [], ◌∷◌, str_eq, if◌then◌else◌,
}
use tradejournal_mt5_cloud_w.Prelude.Dict.{Dict, lookup, insert, remove}
use tradejournal_mt5_cloud_w.Value.{Value, Row, get, is_some, or_else, truthy, null, float}
use tradejournal_mt5_cloud_w.Value.Compare.{lt}
use tradejournal_mt5_cloud_w.Value.Float.{fadd, fsub, fmul, fdiv, to_float}
use tradejournal_mt5_cloud_w.Value.Text.{to_str}
use tradejournal_mt5_cloud_w.LiveSync.Symbols.{upper_text}
use tradejournal_mt5_cloud_w.LiveSync.Records.{Positions}

-- `tracked_volumes` and `tracked_open_prices`, floats by position
pub record Tracked : Type 0 where
  pub volumes : Dict ℕ
  pub prices : Dict ℕ

-- The positions that an event is classified by, before and after its fill.
pub record Replay : Type 0 where
  pub tracked : Tracked
  pub before : Positions
  pub after : Positions

-- `a < b` of floats
abbrev pub flt : ℕ → ℕ → Bool
flt a b = lt (float a) (float b)

-- `1e-8`
abbrev pub tolerance : ℕ
tolerance = 0x3E45798EE2308C3A

value_of : Option ℕ → Value
value_of none = null
value_of (some b) = float b

-- `volume or 0.0`
or_zero : Option ℕ → ℕ
or_zero none = 0
or_zero (some b) = if truthy (float b) then b else 0

-- A position with a volume and an opening price.
sized : Option ℕ → Option ℕ → Row
unfolding value_of
sized volume price = ("volume", value_of volume) ∷ ("open_price", value_of price) ∷ []

-- `{key: ...}` where the volume is known, and `{}` where it is not
standing : String → Option ℕ → Option ℕ → Positions
unfolding sized
standing key none price = []
standing key (some volume) price = (key, sized (some volume) price) ∷ []

-- The average opening price after a fill. What it divides by is positive.
unfoldable pub average_price : Option ℕ → Option ℕ → ℕ → Option ℕ → ℕ → Option ℕ
average_price (some volume) (some price) fill_volume (some fill_price) remaining =
    if flt 0 volume
    then fdiv (fadd (fmul volume price) (fmul fill_volume fill_price)) remaining
    else some fill_price
average_price _ _ fill_volume fill_price remaining = fill_price

unfoldable pub set_price : String → Option ℕ → Dict ℕ → Dict ℕ
set_price key none prices = prices
set_price key (some price) prices = insert key price prices

-- A fill that enters.
unfoldable pub enter : String → ℕ → Option ℕ → Tracked → Replay
unfolding or_zero sized standing set_price
enter key fill_volume fill_price tracked =
    let prior_volume = lookup key tracked.volumes in
    let prior_price = lookup key tracked.prices in
    let remaining = fadd (or_zero prior_volume) fill_volume in
    let average = average_price prior_volume prior_price fill_volume fill_price remaining in
    record {
      tracked = record {
        volumes = insert key remaining tracked.volumes;
        prices = set_price key average tracked.prices;
      };
      before = standing key prior_volume prior_price;
      after = (key, sized (some remaining) average) ∷ [];
    }

leave_known : String → ℕ → ℕ → Tracked → Replay
unfolding sized standing
leave_known key volume fill_volume tracked =
    let remaining = fsub volume fill_volume in
    let prior_price = lookup key tracked.prices in
    let before = standing key (some volume) prior_price in
    if flt tolerance remaining
    then record {
      tracked = record { volumes = insert key remaining tracked.volumes; prices = tracked.prices };
      before = before;
      after = (key, sized (some remaining) prior_price) ∷ [];
    }
    else record {
      tracked = record { volumes = remove key tracked.volumes; prices = remove key tracked.prices };
      before = before;
      after = [];
    }

-- A fill that leaves: a position that is not tracked is classified by the snapshots.
unfoldable pub leave : String → ℕ → Replay → Replay
unfolding leave_known
leave key fill_volume unchanged = elim (lookup key unchanged.tracked.volumes) [
  | none ↦ unchanged
  | some volume ↦ leave_known key volume fill_volume unchanged.tracked
]

fill_or_zero : Option ℕ → ℕ
fill_or_zero none = 0
fill_or_zero (some b) = b

key_text : (ℕ → String) → Value → String
key_text float_repr v = if is_some v then to_str float_repr v else ""

module _ (upper : String → String) (float_repr : ℕ → String) (parse_float : String → Option ℕ) where
  unfoldable pub track_position : String × Row → Tracked → Tracked
  track_position (ticket, position) tracked = elim (to_float parse_float (get "volume" position)) [
    | none ↦ tracked
    | some volume ↦ record {
      volumes = insert ticket volume tracked.volumes;
      prices = set_price ticket (to_float parse_float (get "open_price" position)) tracked.prices;
    }
  ]

  unfoldable pub track_positions : Positions → Tracked → Tracked
  track_positions [] tracked = tracked
  track_positions (position ∷ positions) tracked =
      track_positions positions (track_position position tracked)

  -- `position_key`
  unfoldable pub position_key : Row → String
  unfolding key_text
  position_key record_ =
      key_text float_repr (or_else (get "position_id" record_) (get "position_ticket" record_))

  -- The state after one DEAL_ADD record, with the positions that its event is classified by.
  unfoldable pub replay_deal : Row → Replay → Replay
  unfolding fill_or_zero position_key
  replay_deal record_ unchanged =
      let key = position_key record_ in
      let fill_volume = fill_or_zero (to_float parse_float (get "volume" record_)) in
      let entry = upper_text upper float_repr "entry" record_ in
      if not (str_eq key "") && flt 0 fill_volume
      then if str_eq entry "IN"
        then enter key fill_volume (to_float parse_float (get "price" record_)) unchanged.tracked
        else if str_eq entry "OUT" || str_eq entry "OUT_BY"
        then leave key fill_volume unchanged
        else unchanged
      else unchanged

  -- The same for any record: others than DEAL_ADD leave the state alone.
  unfoldable pub replay_record : Row → Replay → Replay
  replay_record record_ unchanged =
      if str_eq (upper_text upper float_repr "event_type" record_) "DEAL_ADD"
      then replay_deal record_ unchanged
      else unchanged
