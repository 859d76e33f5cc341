-- ===== src/LiveSync/Symbols.antt =====
-- windows_agent/worker/live_sync.py: `_authoritative_symbol`, which names a missing symbol only
-- from rows that are bound to the event. A set of texts is a list without repetition.
use Prim.Native.Char.{code}
use mathlib.Core.List.{flat_map}
use tradejournal_mt5_cloud_w.Prelude.{
  ℕ, ◌+◌, ◌-◌, ◌*◌, String, Bool, true, false, ◌&&◌, ◌||◌, Option, none, some, List, [], ◌∷◌, ◌++◌,
  leb, str_eq, if◌then◌else◌, ◌==◌,
}
use tradejournal_mt5_cloud_w.Prelude.Dict.{Dict, lookup, elem}
use tradejournal_mt5_cloud_w.Value.{Value, Row, get, null, bool, str}
use tradejournal_mt5_cloud_w.Value.Spaces.{strip}
use tradejournal_mt5_cloud_w.Value.Text.{decimal, to_str}
use tradejournal_mt5_cloud_w.Detector.{Snapshot}
use tradejournal_mt5_cloud_w.Normalizer.{is_usable_symbol, or_empty}

-- `_usable_symbol`: the text, if the preflight of the normalizer would accept it
unfoldable pub usable_symbol : Value → Option String
usable_symbol (str s) = if is_usable_symbol (str s) then some s else none
usable_symbol _ = none

unfoldable pub add_all : List String → List String → List String
add_all set [] = set
add_all set (x ∷ xs) = add_all (if elem x set then set else set ++ x ∷ []) xs

is_digit : ℕ → Bool
is_digit c = leb 48 c && leb c 57

-- ASCII digits, with single underscores between them.
digits : String → ℕ → Bool → Option ℕ
unfolding is_digit
digits String.[] acc after_digit = if after_digit then some acc else none
digits (String.◌∷◌ c s) acc after_digit =
    let rest =
      digits s (if is_digit (code c) then acc * 10 + (code c - 48) else acc) (is_digit (code c)) in
    if is_digit (code c) || (code c == 95 && after_digit) then rest else none

-- `int(text)` where it is positive. Digits outside ASCII and texts of over 4300 digits, which
-- Python refuses, are not modelled.
unfoldable pub positive_int : String → Option ℕ
unfolding digits
positive_int String.[] = none
positive_int (String.◌∷◌ c s) =
    elim (if code c == 43 then digits s 0 false else digits (String.◌∷◌ c s) 0 false) [
      | none ↦ none
      | some n ↦ if n == 0 then none else some n
    ]

or_none : Option ℕ → List String
or_none none = []
or_none (some n) = decimal n ∷ []

unfoldable pub intersects : List String → List String → Bool
intersects [] ys = false
intersects (x ∷ xs) ys = if elem x ys then true else intersects xs ys

unfoldable pub values : List String → Row → List Value
values [] row = []
values (field ∷ fields) row = get field row ∷ values fields row

unfoldable pub option_list : Option String → List String
option_list none = []
option_list (some s) = s ∷ []

-- `next(iter(candidates)) if len(candidates) == 1 else None`
unfoldable pub only : List String → Option String
only (x ∷ []) = some x
only _ = none

module _ (upper : String → String) (float_repr : ℕ → String) where
  unfoldable pub identifier : Value → List String
  unfolding or_none
  identifier null = []
  identifier (bool b) = []
  identifier v = or_none (positive_int (strip (to_str float_repr v)))

  -- `_identifiers`
  unfoldable pub identifiers : List Value → List String
  identifiers vs = add_all [] (flat_map identifier vs)

  -- The symbols of one row of `_symbols_from_rows`.
  unfoldable pub symbol_of_row : List String → List String → Bool → String × Row → List String
  unfolding intersects values option_list
  symbol_of_row ids fields include_key (key, row) =
      if intersects ids
        (identifiers (if include_key then str key ∷ values fields row else values fields row))
      then option_list (usable_symbol (get "symbol" row))
      else []

  -- `_symbols_from_rows`
  unfoldable pub symbols_from_rows : Dict Row → List String → List String → Bool → List String
  symbols_from_rows rows ids fields include_key =
      add_all [] (flat_map (symbol_of_row ids fields include_key) rows)

  -- What one snapshot adds to the candidates.
  unfoldable pub snapshot_symbols : List String → List String → List String → Snapshot → List String
  snapshot_symbols position_ids deal_ids order_ids snapshot =
      symbols_from_rows snapshot.positions position_ids
        ("ticket" ∷ "position_id" ∷ "position_ticket" ∷ []) true
      ++ symbols_from_rows snapshot.deals deal_ids ("ticket" ∷ "deal_id" ∷ []) true
      ++ symbols_from_rows snapshot.orders order_ids ("ticket" ∷ "order_id" ∷ []) true
      ++ symbols_from_rows snapshot.deals position_ids ("position_id" ∷ "position_ticket" ∷ [])
          false
      ++ symbols_from_rows snapshot.orders position_ids ("position_id" ∷ "position_ticket" ∷ [])
          false

  -- `str(record.get(field, "")).upper()`
  unfoldable pub upper_text : String → Row → String
  upper_text field record_ = upper (to_str float_repr (or_empty (lookup field record_)))

  abbrev is_deal : Row → Bool
  is_deal record_ = str_eq (upper_text "event_type" record_) "DEAL_ADD"

  unfoldable pub candidates : Row → Snapshot → Snapshot → List String
  candidates record_ previous current =
      let positions = get "position_id" record_ ∷ get "position_ticket" record_ ∷ [] in
      let position_ids =
        identifiers
          (if is_deal record_ then positions else positions ++ get "ticket" record_ ∷ []) in
      let deal_ids = identifiers (
        if is_deal record_
        then get "deal_id" record_ ∷ get "ticket" record_ ∷ []
        else get "deal_id" record_ ∷ []) in
      let order_ids = identifiers (get "order_id" record_ ∷ []) in
      add_all [] (
        snapshot_symbols position_ids deal_ids order_ids current
        ++ snapshot_symbols position_ids deal_ids order_ids previous)

  -- `_authoritative_symbol`
  unfoldable pub authoritative_symbol : Row → Snapshot → Snapshot → Option String
  authoritative_symbol record_ previous current = elim (usable_symbol (get "symbol" record_)) [
    | some symbol ↦ some symbol
    | none ↦ only (candidates record_ previous current)
  ]
