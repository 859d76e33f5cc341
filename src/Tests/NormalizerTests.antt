-- ===== src/Tests/NormalizerTests.antt =====
-- Runs of worker/event_normalizer.py, and its theorems at concrete events.
use Prim.Native.String.{◌++◌ as text_append}
use tradejournal_mt5_cloud_w.Prelude.{ℕ, ◌≡◌, refl, String, true, Option, none, some, [], ◌∷◌}
use tradejournal_mt5_cloud_w.Prelude.Int.{pos}
use tradejournal_mt5_cloud_w.Prelude.Dict.{lookup, insert}
use tradejournal_mt5_cloud_w.Value.{Row, get, is_some, str, float, int}
use tradejournal_mt5_cloud_w.Value.Text.{to_str}
use tradejournal_mt5_cloud_w.Prelude.Int.{◌*ℤ◌}
use tradejournal_mt5_cloud_w.Value.Compare.{eq, lt, is_finite}
use tradejournal_mt5_cloud_w.Value.Spaces.{strip, has_control}
use tradejournal_mt5_cloud_w.Normalizer.{
  Result, ok, err, key_error, symbol_unavailable, normalize_event, validate_event_preflight,
  is_usable_symbol, is_usable_direction, is_usable_volume, is_native_deal_event, identity_fields,
  build_event_id,
}
use tradejournal_mt5_cloud_w.Normalizer.Forward.{AccountIsWhole}
use tradejournal_mt5_cloud_w.Normalizer.Payload.{
  normalize_event-AccountIsWhole, normalize_event-opened,
}
use tradejournal_mt5_cloud_w.Normalizer.Identity.{
  normalize_event-same_id, normalize_event-native_id,
}

abbrev repr : ℕ → String
repr b = "0.1"

dumps : Row → String
dumps [] = ""
dumps ((k, v) ∷ row) = text_append k (text_append "=" (text_append (to_str repr v) (dumps row)))

abbrev digest : String → String
digest s = s

abbrev opening : Row
opening =
    ("event_type", str "trade_opened")
    ∷ ("ticket", str "77")
    ∷ ("symbol", str "EURUSD")
    ∷ ("direction", str "buy")
    ∷ ("volume", float 0x3FB999999999999A)
    ∷ ("native_deal_ticket", int (pos 9001))
    ∷ ("balance", int (pos 1000))
    ∷ ("equity", int (pos 1000))
    ∷ ("currency", str "EUR")
    ∷ ("leverage", int (pos 100))
    ∷ []

-- The same fill once its commission is known.
abbrev enriched : Row
enriched = ("commission", int (pos 3)) ∷ opening

payload_of : Result Row → Row
payload_of (ok payload) = payload
payload_of (err e) = []

abbrev login : Option String
login = some "12345"

normalized : String → Row → Result Row
normalized now event = normalize_event repr dumps digest now event login (some "Broker") "mt5"

payload_at : String → Row → Row
payload_at now event = payload_of (normalized now event)

opening-ok :
    normalize_event repr dumps digest "T0" opening login (some "Broker") "mt5"
    ≡ ok (payload_at "T0" opening)
unfolding normalize_event payload_at normalized payload_of validate_event_preflight is_usable_symbol
    is_usable_direction is_usable_volume eq get strip has_control is_finite lt ◌*ℤ◌ build_event_id
    insert
opening-ok = refl

again-ok :
    normalize_event repr dumps digest "T1" opening login (some "Broker") "mt5"
    ≡ ok (payload_at "T1" opening)
unfolding normalize_event payload_at normalized payload_of validate_event_preflight is_usable_symbol
    is_usable_direction is_usable_volume eq get strip has_control is_finite lt ◌*ℤ◌ build_event_id
    insert
again-ok = refl

enriched-ok :
    normalize_event repr dumps digest "T1" enriched login (some "Broker") "mt5"
    ≡ ok (payload_at "T1" enriched)
unfolding normalize_event payload_at normalized payload_of validate_event_preflight is_usable_symbol
    is_usable_direction is_usable_volume eq get strip has_control is_finite lt ◌*ℤ◌ build_event_id
    insert
enriched-ok = refl

normalize_event-AccountIsWhole_example : AccountIsWhole opening (payload_at "T0" opening)
normalize_event-AccountIsWhole_example =
    normalize_event-AccountIsWhole repr dumps digest "T0" opening login (some "Broker") "mt5"
      (payload_at "T0" opening) opening-ok

normalize_event-opened_example :
    (is_usable_symbol (get "symbol" (payload_at "T0" opening)) ≡ true)
    × (is_usable_direction (get "direction" (payload_at "T0" opening)) ≡ true)
    × (is_usable_volume (get "volume" (payload_at "T0" opening)) ≡ true)
unfolding get
normalize_event-opened_example =
    normalize_event-opened repr dumps digest "T0" opening login (some "Broker") "mt5"
      (payload_at "T0" opening) refl opening-ok

-- The second normalization is later.
normalize_event-same_id_example :
    get "event_id" (payload_at "T0" opening) ≡ get "event_id" (payload_at "T1" opening)
unfolding lookup get identity_fields is_native_deal_event to_str is_some
normalize_event-same_id_example =
    normalize_event-same_id repr dumps digest "T0" "T1" login (some "Broker") (some "Broker") "mt5"
      "mt5" (str "trade_opened") opening opening (payload_at "T0" opening) (payload_at "T1" opening)
      refl refl refl refl (refl, tt) opening-ok again-ok

normalize_event-native_id_example :
    get "event_id" (payload_at "T0" opening) ≡ get "event_id" (payload_at "T1" enriched)
unfolding lookup get is_native_deal_event is_some
normalize_event-native_id_example =
    normalize_event-native_id repr dumps digest "T0" "T1" login (some "Broker") (some "Broker")
      "mt5" "mt5" "trade_opened" opening enriched (payload_at "T0" opening)
      (payload_at "T1" enriched) refl refl refl refl refl refl opening-ok enriched-ok

-- An opening whose symbol the terminal did not know yet is refused.
no_symbol :
    normalize_event repr dumps digest "T0" (insert "symbol" (str "") opening) login none "mt5"
    ≡ err symbol_unavailable
unfolding normalize_event validate_event_preflight is_usable_symbol eq get insert
no_symbol = refl

-- An event without a type raises a KeyError.
no_type :
    normalize_event repr dumps digest "T0" (("ticket", str "1") ∷ []) login none "mt5"
    ≡ err key_error
unfolding normalize_event validate_event_preflight build_event_id eq get insert
no_type = refl
