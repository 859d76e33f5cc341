-- ===== src/Outbox/Load.antt =====
-- `EventOutbox._load` and the checks of a document read from the file. `datetime.fromisoformat` is
-- the parameter `parse_time`. An error is always an `OutboxError`, so `raised` holds no more.
use Prim.Native.Char.{code}
use tradejournal_mt5_cloud_w.Prelude.{
  ℕ, String, Bool, true, false, Option, none, some, List, [], ◌∷◌, str_eq, if◌then◌else◌, ◌==◌,
}
use tradejournal_mt5_cloud_w.Prelude.Int.{ℤ, pos, ltb_ℤ, eq_ℤ}
use tradejournal_mt5_cloud_w.Prelude.Dict.{Dict, lookup, elem}
use tradejournal_mt5_cloud_w.Value.{int, str}
use tradejournal_mt5_cloud_w.Value.Compare.{eq}
use tradejournal_mt5_cloud_w.Json.{Json, scalar, array, object, entries, elements}
use tradejournal_mt5_cloud_w.Outbox.Defs.{
  Payload, State, empty_state, event_id, ids, is_payload, Result, ok, raised,
}

infixl 5 ◌>>=◌ ◌>>◌
abbrev pub ◌>>=◌ : {A B : Type 0} → Result A → (A → Result B) → Result B
ok a >>= f = f a
raised >>= f = raised

abbrev pub ◌>>◌ : {A B : Type 0} → Result A → Result B → Result B
m >> k = m >>= λ _. k

-- `isinstance(value, dict)`
abbrev pub as_object : Option Json → Result (Dict Json)
as_object (some (object fs)) = ok (entries fs)
as_object _ = raised

-- `isinstance(value, list)`
abbrev pub as_array : Option Json → Result (List Json)
as_array (some (array xs)) = ok (elements xs)
as_array _ = raised

-- `_validate_payload`
unfoldable pub valid_payload : Json → Result Payload
unfolding is_payload entries
valid_payload j = do payload ← as_object (some j); if is_payload payload then ok payload else raised

-- `_validate_keyed_payload`
unfoldable pub valid_keyed : String → Json → Result Payload
unfolding valid_payload
valid_keyed key j = do
  payload ← valid_payload j
  if str_eq (event_id payload) key then ok payload else raised

-- The first loop of `_validate_state`, with the ids seen so far.
unfoldable pub valid_pending : List String → List Json → Result (List Payload)
unfolding valid_payload
valid_pending seen [] = ok []
valid_pending seen (j ∷ pending) = valid_payload j >>= λ payload.
    if elem (event_id payload) seen
    then raised
    else (valid_pending (event_id payload ∷ seen) pending >>= λ rest. ok (payload ∷ rest))

abbrev pub present : Option Json → Result Json
present none = raised
present (some j) = ok j

-- One dead letter: an object whose payload has the id that is its key.
unfoldable pub valid_letter : String → Json → Result Payload
unfolding valid_keyed lookup
valid_letter key j = do
  record_ ← as_object (some j)
  valid_keyed key (← present (lookup "payload" record_))
  ok record_

-- The second loop, over the dead letters. The keys of a dictionary are distinct.
unfoldable pub valid_dead_letter : List String → Dict Json → Result (Dict Payload)
unfolding valid_letter
valid_dead_letter pending_ids [] = ok []
valid_dead_letter pending_ids ((key, j) ∷ dead_letter) = valid_letter key j >>= λ record_.
    if elem key pending_ids
    then raised
    else (valid_dead_letter pending_ids dead_letter >>= λ rest. ok ((key, record_) ∷ rest))

-- `_validate_state`
unfoldable pub validate_state : List Json → Dict Json → Result State
unfolding valid_pending valid_dead_letter
validate_state pending dead_letter = do
  payloads ← valid_pending [] pending
  letters ← valid_dead_letter (ids payloads) dead_letter
  ok (record { pending = payloads; dead_letter = letters })

-- The checks of the pending events of format 1, which are keyed by their ids.
unfoldable pub valid_legacy : Dict Json → Result (List Json)
unfolding valid_keyed
valid_legacy [] = ok []
valid_legacy ((key, j) ∷ pending) = do valid_keyed key j; rest ← valid_legacy pending; ok (j ∷ rest)

-- `f"{value[:-1]}+00:00" if value.endswith("Z") else value`
with_offset : String → String
with_offset String.[] = ""
with_offset (String.◌∷◌ c String.[]) = if code c == 0x5A then "+00:00" else String.◌∷◌ c String.[]
with_offset (String.◌∷◌ c (String.◌∷◌ d rest)) = String.◌∷◌ c (with_offset (String.◌∷◌ d rest))

-- A parsed time: the instant, and the offset from UTC if it has one.
pub record Time : Type 0 where
  pub instant : ℤ
  pub utc_offset : Option ℤ

is_utc : Option ℤ → Bool
is_utc none = false
is_utc (some offset) = eq_ℤ offset (pos 0)

module _ (parse_time : String → Option Time) where
  -- The instant of a payload's `event_time`, if it is a UTC time.
  utc_time : Option Json → Option ℤ
  unfolding with_offset is_utc
  utc_time (some (scalar (str value))) = elim (parse_time (with_offset value)) [
    | none ↦ none
    | some time ↦ if is_utc time.utc_offset then some time.instant else none
  ]
  utc_time _ = none

  event_time_of : Json → Option Json
  event_time_of (object fs) = lookup "event_time" (entries fs)
  event_time_of _ = none

  -- `parsed_times`, if every payload has a UTC time.
  timed : List Json → Option (List (ℤ × Json))
  unfolding utc_time event_time_of
  timed [] = some []
  timed (j ∷ payloads) = elim (utc_time (event_time_of j)) [
    | none ↦ none
    | some time ↦ elim (timed payloads) [ none ↦ none | some rest ↦ some ((time, j) ∷ rest) ]
  ]

  -- A stable sort by the time: equal times keep their order, which is that of the indices.
  insert_timed : ℤ × Json → List (ℤ × Json) → List (ℤ × Json)
  insert_timed (t, j) [] = (t, j) ∷ []
  insert_timed (t, j) ((u, k) ∷ rest) =
      if ltb_ℤ u t then (u, k) ∷ insert_timed (t, j) rest else (t, j) ∷ (u, k) ∷ rest

  sort_timed : List (ℤ × Json) → List (ℤ × Json)
  sort_timed [] = []
  sort_timed (x ∷ xs) = insert_timed x (sort_timed xs)

  payloads_of : List (ℤ × Json) → List Json
  payloads_of [] = []
  payloads_of ((t, j) ∷ rest) = j ∷ payloads_of rest

  unfoldable pub order_legacy_pending : List Json → List Json
  unfolding timed insert_timed sort_timed payloads_of
  order_legacy_pending payloads = elim (timed payloads) [
    | none ↦ payloads
    | some times ↦ payloads_of (sort_timed times)
  ]

  unfoldable pub is_version : Option Json → ℕ → Bool
  unfolding eq
  is_version (some (scalar v)) n = eq v (int (pos n))
  is_version _ n = false

  -- Format 1: pending is an object, and gets the causal order back.
  unfoldable pub load_legacy : Dict Json → Dict Json → Result (State × Bool)
  unfolding order_legacy_pending
  load_legacy state dead_letter = do
    legacy ← as_object (lookup "pending" state)
    pending ← valid_legacy legacy
    loaded ← validate_state (order_legacy_pending pending) dead_letter
    ok (loaded, true)

  unfoldable pub load_current : Dict Json → Dict Json → Result (State × Bool)
  load_current state dead_letter = do
    pending ← as_array (lookup "pending" state)
    loaded ← validate_state pending dead_letter
    ok (loaded, false)

  -- The document in the file: the state, and whether it has to be written in the new format.
  unfoldable pub load_document : Dict Json → Result (State × Bool)
  unfolding is_version load_legacy load_current
  load_document state = as_object (lookup "dead_letter" state) >>= λ dead_letter.
      if is_version (lookup "version" state) 1
      then load_legacy state dead_letter
      else if is_version (lookup "version" state) 2
      then load_current state dead_letter
      else raised

  -- `_load`, where `none` is that there is no file.
  unfoldable pub load : Option Json → Result (State × Bool)
  unfolding load_document
  load none = ok (empty_state, false)
  load (some j) = do state ← as_object (some j); load_document state
