-- ===== src/Normalizer.antt =====
-- worker/event_normalizer.py: from a detected event to the payload of the ingestion API. The
-- parameters are the language's: the text of a float, `json.dumps` with sorted keys, the first 16
-- hexadecimal digits of SHA-256, and the current time as text.
pub mod Identity
pub mod Forward
pub mod Payload
mod Fields
unfoldable pub use Fields.{fingerprint_fields, is_native_deal_event, excursion_fields}
use Prim.Native.String.{count, ◌++◌ as text_append}
use tradejournal_mt5_cloud_w.Prelude.{
  ℕ, ◌^◌, ◌-◌, String, Bool, true, false, not, ◌&&◌, ◌||◌, Option, none, some, List, [], ◌∷◌, ltb,
  str_eq, if◌then◌else◌,
}
use tradejournal_mt5_cloud_w.Prelude.Int.{ℤ, pos, negsuc, ltb_ℤ}
use tradejournal_mt5_cloud_w.Prelude.Dict.{lookup, insert}
use tradejournal_mt5_cloud_w.Value.{
  Value, Row, get, is_some, or_else, truthy, null, bool, int, float, str,
}
use tradejournal_mt5_cloud_w.Value.Compare.{eq, lt, is_finite}
use tradejournal_mt5_cloud_w.Value.Spaces.{strip, has_control}
use tradejournal_mt5_cloud_w.Value.Text.{to_str}

pub data Problem : Type 0 where
  symbol_unavailable direction_unavailable volume_unavailable : Problem
  key_error : Problem

pub data Result (A : Type 0) : Type 0 where
  ok : A → Result A
  err : Problem → Result A

infixl 5 ◌>>=◌
abbrev pub ◌>>=◌ : {A B : Type 0} → Result A → (A → Result B) → Result B
ok a >>= f = f a
err e >>= f = err e

-- `isinstance(symbol, str)` and the tests that follow
unfoldable pub is_usable_symbol : Value → Bool
is_usable_symbol (str s) =
    not (str_eq s "" || not (str_eq s (strip s)) || ltb 64 (count s) || has_control s)
is_usable_symbol _ = false

-- A number that is no bool, finite as a float and positive. An int of at least
-- 2^1024 - 2^970 overflows in `float`.
unfoldable pub is_usable_volume : Value → Bool
is_usable_volume (int n) = ltb_ℤ (pos 0) n && ltb_ℤ n (pos (2 ^ 1024 - 2 ^ 970))
is_usable_volume (float b) = is_finite (float b) && lt (int (pos 0)) (float b)
is_usable_volume _ = false

unfoldable pub is_usable_direction : Value → Bool
is_usable_direction v = eq v (str "buy") || eq v (str "sell")

unfoldable pub validate_event_preflight : Row → Result (Unit {0})
validate_event_preflight raw_event =
    if not (eq (get "event_type" raw_event) (str "trade_opened"))
    then ok tt
    else if not (is_usable_symbol (get "symbol" raw_event))
    then err symbol_unavailable
    else if not (is_usable_direction (get "direction" raw_event))
    then err direction_unavailable
    else if not (is_usable_volume (get "volume" raw_event))
    then err volume_unavailable
    else ok tt

-- `{name: event.get(name) for name in fields}`
unfoldable pub select : List String → Row → Row
select [] event = []
select (name ∷ fields) event = (name, get name event) ∷ select fields event

-- `account_number or "unknown"`
unfoldable pub account_part : Option String → String
account_part none = "unknown"
account_part (some account) = if str_eq account "" then "unknown" else account

unfoldable pub or_empty : Option Value → Value
or_empty none = str ""
or_empty (some v) = v

-- `payload[field] = event[field]`, where the event has a value
unfoldable pub forward : String → Row → Row → Row
forward field event payload =
    if is_some (get field event) then insert field (get field event) payload else payload

-- The same with the value converted.
unfoldable pub forward_as : (Value → Value) → String → Row → Row → Row
forward_as convert field event payload =
    if is_some (get field event) then insert field (convert (get field event)) payload else payload

unfoldable pub forward_all : List String → Row → Row → Row
forward_all [] event payload = payload
forward_all (field ∷ fields) event payload = forward_all fields event (forward field event payload)

-- The account snapshot goes along whole or not at all.
unfoldable pub forward_account : Row → Row → Row
forward_account event payload =
    if is_some (get "balance" event)
      && is_some (get "equity" event)
      && is_some (get "currency" event)
      && is_some (get "leverage" event)
    then insert "leverage" (get "leverage" event) (
        insert "currency" (get "currency" event)
          (insert "equity" (get "equity" event) (insert "balance" (get "balance" event) payload)))
    else payload

abbrev pub as_bool : Value → Value
as_bool v = bool (truthy v)

-- The fields that make the identity of an event.
unfoldable pub identity_fields : String → Row → List String
identity_fields event_type event =
    if is_native_deal_event event_type && is_some (get "native_deal_ticket" event)
    then "native_deal_ticket" ∷ []
    else fingerprint_fields event_type

module _ (float_repr : ℕ → String) (dumps : Row → String) (sha256_16 : String → String) where
  -- The id of an event whose type is the given text.
  unfoldable pub event_id_of : Option String → String → Row → String
  unfolding select account_part
  event_id_of account event_type event = text_append "mt5-" (
      text_append (account_part account) (
        text_append "-" (
          text_append event_type (
            text_append "-" (
              text_append (to_str float_repr (or_empty (lookup "ticket" event))) (
                text_append "-"
                  (sha256_16 (dumps (select (identity_fields event_type event) event)))))))))

  unfoldable pub build_event_id : Option String → Row → Result String
  build_event_id account event = elim (lookup "event_type" event) [
    | none ↦ err key_error
    | some event_type ↦ ok (event_id_of account (to_str float_repr event_type) event)
  ]

  text_value : Option String → Value
  text_value none = null
  text_value (some s) = str s

  -- The fields that every payload has.
  unfoldable pub base_payload : String → Option String → Option String → String → Row → Row
  unfolding text_value
  base_payload event_id account server platform event =
      ("event_id", str event_id)
      ∷ ("event_type", get "event_type" event)
      ∷ ("platform", str platform)
      ∷ ("account_number", text_value account)
      ∷ ("server", text_value server)
      ∷ ("external_trade_id", str (to_str float_repr (get "ticket" event)))
      ∷ ("symbol", get "symbol" event)
      ∷ ("direction", get "direction" event)
      ∷ ("volume", get "volume" event)
      ∷ ("price", get "price" event)
      ∷ ("open_price", get "open_price" event)
      ∷ ("close_price", get "close_price" event)
      ∷ ("stop_loss", get "stop_loss" event)
      ∷ ("take_profit", get "take_profit" event)
      ∷ ("previous_stop_loss", get "previous_stop_loss" event)
      ∷ ("previous_take_profit", get "previous_take_profit" event)
      ∷ ("profit", get "profit" event)
      ∷ ("commission", get "commission" event)
      ∷ ("total_commission", get "total_commission" event)
      ∷ ("swap", get "swap" event)
      ∷ ("open_time", get "open_time" event)
      ∷ ("close_time", get "close_time" event)
      ∷ ("event_time", get "event_time" event)
      ∷ []

  -- What `normalize_event` adds to those where the event has it.
  unfoldable pub optional_payload : Row → Row → Row
  unfolding forward forward_as forward_all forward_account
  optional_payload event base = forward "fee" event (
      forward_as as_bool "partial_close" event (
        forward "previous_volume" event (
          forward_as as_bool "commission_complete" event (
            forward "time_basis" event (
              forward "time_msc" event (
                forward_as (λ v. str (to_str float_repr v)) "native_deal_ticket" event
                  (forward "balance_before_open" event
                    (forward_account event (forward_all excursion_fields event base)))))))))

  unfoldable pub normalize_event :
      String → Row → Option String → Option String → String → Result Row
  normalize_event now raw_event account server platform = do
    _ ← validate_event_preflight raw_event
    let event = insert "event_time" (or_else (get "event_time" raw_event) (str now)) raw_event
    event_id ← build_event_id account event
    ok (optional_payload event (base_payload event_id account server platform event))
