-- ===== src/Sender/Sanitize.antt =====
-- worker/event_sender.py: the copy of a payload that is logged. `str.lower` and the text of a
-- float are parameters; texts are counted in code points, as Python does.
use Prim.Native.Nat.{pred}
use Prim.Native.String.{count, ◌++◌ as text_append}
use text.Mathlib.Text.{starts_with, find?}
use tradejournal_mt5_cloud_w.Prelude.{
  ℕ, zero, suc, ◌-◌, ◌≡◌, refl, String, Bool, true, false, ◌&&◌, ◌||◌, Option, none, some, [], ◌∷◌,
  arith, leb, str_eq, if◌then◌else◌, Bool-cases, inl, inr, eq_iff,
}
use tradejournal_mt5_cloud_w.Prelude.Dict.{lookup}
use tradejournal_mt5_cloud_w.Value.{Value, Row, get, is_some, str, truthy}
use tradejournal_mt5_cloud_w.Value.Text.{to_str}

-- `text[:n]`
take_text : ℕ → String → String
take_text zero s = ""
take_text (suc n) String.[] = ""
take_text (suc n) (String.◌∷◌ c s) = String.◌∷◌ c (take_text n s)

-- `text[n:]`
drop_text : ℕ → String → String
drop_text zero s = s
drop_text (suc n) String.[] = ""
drop_text (suc n) (String.◌∷◌ c s) = drop_text n s

stars : ℕ → String
stars zero = ""
stars (suc n) = text_append "*" (stars n)

-- `mask_value` of a text
unfoldable pub mask_text : String → String
unfolding take_text drop_text stars
mask_text text =
    if str_eq text ""
    then "<vuoto>"
    else if leb (count text) 4
    then stars (count text)
    else text_append (take_text 2 text)
        (text_append (stars (count text - 4)) (drop_text (count text - 2) text))

unfoldable pub mask_value : Option String → String
unfolding mask_text
mask_value none = "<vuoto>"
mask_value (some text) = mask_text text

-- `text.replace(old, new)` for a text `old` that is not empty: what is left of a hit is skipped.
replace_from : String → String → ℕ → String → String
replace_from old new skip String.[] = ""
replace_from old new skip (String.◌∷◌ c s) =
    let hit = leb skip 0 && starts_with (String.◌∷◌ c s) old in
    let rest = replace_from old new (if hit then count old - 1 else pred skip) s in
    if hit then text_append new rest else if leb skip 0 then String.◌∷◌ c rest else rest

-- With an empty `old` Python puts `new` round every character; `sanitize` never asks for that.
unfoldable pub replace : String → String → String → String
unfolding replace_from
replace text old new = replace_from old new 0 text

is_found : Option ℕ → Bool
is_found none = false
is_found (some n) = true

-- `marker in text`
unfoldable pub holds_marker : String → Bool
unfolding is_found
holds_marker text =
    is_found (find? text "password")
    || is_found (find? text "token")
    || is_found (find? text "secret")

module _ (lower : String → String) (float_repr : ℕ → String) where
  unfoldable pub is_secret_key : String → Bool
  is_secret_key key = holds_marker (lower key)

  -- `None if value is None else str(value)`
  unfoldable pub text_or_none : Value → Option String
  text_or_none value = if is_some value then some (to_str float_repr value) else none

  -- The value that is logged under a key; `account` is the payload's account number.
  unfoldable pub logged_value : Value → String → Value → Value
  logged_value account key value =
      if is_secret_key key
      then str "<redacted>"
      else if str_eq key "account_number" || str_eq key "server"
      then str (mask_value (text_or_none value))
      else if str_eq key "event_id" && truthy account
      then str (
          replace (to_str float_repr value) (to_str float_repr account)
            (mask_value (text_or_none account)))
      else value

  logged_items : Value → Row → Row
  logged_items account [] = []
  logged_items account ((key, value) ∷ payload) =
      (key, logged_value account key value) ∷ logged_items account payload

  unfoldable pub sanitize_payload_for_log : Row → Row
  unfolding logged_items
  sanitize_payload_for_log payload = logged_items (get "account_number" payload) payload

  -- The same keys in the same order, with the same values under every key that is not secret.
  abbrev pub AgreeInPublic : Row → Row → Type 0
  AgreeInPublic [] [] = Unit
  AgreeInPublic [] (_ ∷ _) = ⊥
  AgreeInPublic (_ ∷ _) [] = ⊥
  AgreeInPublic ((k, v) ∷ p) ((j, w) ∷ q) =
      (k ≡ j) × (is_secret_key k ≡ false → v ≡ w) × AgreeInPublic p q

  logged_items-agree :
      (account : Value) (p q : Row)
      → AgreeInPublic p q
      → logged_items account p ≡ logged_items account q
  unfolding logged_items logged_value
  logged_items-agree account [] [] h = refl
  logged_items-agree account [] (_ ∷ _) h = elim h [ ]
  logged_items-agree account (_ ∷ _) [] h = elim h [ ]
  logged_items-agree account ((k, v) ∷ p) ((j, w) ∷ q) h = elim (Bool-cases (is_secret_key k)) [
    | inl secret ↦ rw (← h.0, secret, logged_items-agree account p q h.2)
    | inr public ↦ rw (← h.0, h.1 public, logged_items-agree account p q h.2)
  ]

  get-agree :
      (field : String) (p q : Row)
      → is_secret_key field ≡ false
      → AgreeInPublic p q
      → get field p ≡ get field q
  unfolding get lookup
  get-agree field [] [] public h = refl
  get-agree field [] (_ ∷ _) public h = elim h [ ]
  get-agree field (_ ∷ _) [] public h = elim h [ ]
  get-agree field ((k, v) ∷ p) ((j, w) ∷ q) public h =
      ground (arith, eq_iff k field, h, get-agree field p q public h.2)

  -- If the key of the account number counts as no secret, two payloads that agree under all keys
  -- that are not secret have the same log: nothing of a secret value shows.
  pub sanitize-agree :
      (p q : Row)
      → is_secret_key "account_number" ≡ false
      → AgreeInPublic p q
      → sanitize_payload_for_log p ≡ sanitize_payload_for_log q
  unfolding sanitize_payload_for_log
  sanitize-agree p q public h =
      rw (get-agree "account_number" p q public h)
        (logged_items-agree (get "account_number" q) p q h)
