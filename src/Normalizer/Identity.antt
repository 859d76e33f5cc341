-- ===== src/Normalizer/Identity.antt =====
-- worker/event_normalizer.py: `build_event_id` gives the same event the same id, whenever it is
-- normalized.
use tradejournal_mt5_cloud_w.Prelude.{
  ℕ, ◌≡◌, refl, ap, ◌∙◌, String, true, false, Option, some, List, [], ◌∷◌, arith, str_eq,
  Bool-cases, eq_iff, inl, inr,
}
use tradejournal_mt5_cloud_w.Prelude.Dict.{lookup, insert, lookup-insert, elem}
use tradejournal_mt5_cloud_w.Value.{Value, Row, get, is_some, or_else, str}
use tradejournal_mt5_cloud_w.Value.Text.{to_str}
use tradejournal_mt5_cloud_w.Normalizer.{
  ok, select, identity_fields, fingerprint_fields, is_native_deal_event, base_payload, event_id_of,
  normalize_event, excursion_fields,
}
use tradejournal_mt5_cloud_w.Normalizer.Forward.{get-insert_other}
use tradejournal_mt5_cloud_w.Normalizer.Payload.{get-optional_payload, normalize_event-ok}

abbrev pub AgreeOn : List String → Row → Row → Type 0
AgreeOn [] event event' = Unit
AgreeOn (field ∷ fields) event event' =
    (get field event ≡ get field event') × AgreeOn fields event event'

select-AgreeOn :
    (fields : List String) (event event' : Row)
    → AgreeOn fields event event'
    → select fields event ≡ select fields event'
unfolding select
select-AgreeOn [] event event' h = refl
select-AgreeOn (field ∷ fields) event event' h =
    rw (h.0, select-AgreeOn fields event event' h.1) refl

-- The time of the event is no part of an identity.
fingerprint_fields-elem :
    (event_type : String) → elem "event_time" (fingerprint_fields event_type) ≡ false
unfolding fingerprint_fields elem
fingerprint_fields-elem event_type = ground arith

identity_fields-elem :
    (event_type : String) (event : Row)
    → elem "event_time" (identity_fields event_type event) ≡ false
unfolding identity_fields elem
identity_fields-elem event_type event = ground (arith, fingerprint_fields-elem event_type)

str_eq-swap : (j k : String) → str_eq j k ≡ false → str_eq k j ≡ false
str_eq-swap j k h = ground (arith, eq_iff j k, eq_iff k j)

select-insert :
    (fields : List String) (v : Value) (event : Row)
    → elem "event_time" fields ≡ false
    → select fields (insert "event_time" v event) ≡ select fields event
unfolding select elem
select-insert [] v event h = refl
select-insert (field ∷ fields) v event h = elim (Bool-cases (str_eq field "event_time")) [
  | inl same ↦ cc
  | inr other ↦
      rw
        (
          get-insert_other "event_time" field v event (str_eq-swap field "event_time" other),
          select-insert fields v event (rw other at h),
        )
        refl
]

module _ (float_repr : ℕ → String) (dumps : Row → String) (sha256_16 : String → String) where
  id_of : Option String → String → Row → String
  id_of = event_id_of float_repr dumps sha256_16

  event_id_of-insert :
      (account : Option String) (event_type : String) (v : Value) (event : Row)
      → id_of account event_type (insert "event_time" v event) ≡ id_of account event_type event
  unfolding id_of event_id_of identity_fields
  event_id_of-insert account event_type v event =
      rw
        (
          get-insert_other "event_time" "native_deal_ticket" v event refl,
          lookup-insert "event_time" "ticket" v event,
          select-insert (identity_fields event_type event) v event
              (identity_fields-elem event_type event),
        )
        refl

  event_id_of-AgreeOn :
      (account : Option String) (event_type : String) (event event' : Row)
      → lookup "ticket" event ≡ lookup "ticket" event'
      → get "native_deal_ticket" event ≡ get "native_deal_ticket" event'
      → AgreeOn (identity_fields event_type event) event event'
      → id_of account event_type event ≡ id_of account event_type event'
  unfolding id_of event_id_of identity_fields
  event_id_of-AgreeOn account event_type event event' t n h =
      rw (t, select-AgreeOn (identity_fields event_type event) event event' h, n) refl

  -- The id in a payload is the id of the raw event, whenever it was normalized.
  get-normalize_event :
      (now : String) (raw_event : Row) (account server : Option String) (platform : String)
      (payload : Row)
      → normalize_event float_repr dumps sha256_16 now raw_event account server platform
        ≡ ok payload
      → (event_type : Value) × (lookup "event_type" raw_event ≡ some event_type)
        × (get "event_id" payload ≡ str (id_of account (to_str float_repr event_type) raw_event))
  unfolding id_of elem excursion_fields base_payload get
  get-normalize_event now raw_event account server platform payload h =
      let (event_type, known, fine, same) =
        normalize_event-ok float_repr dumps sha256_16 now raw_event account server platform payload
          h in
      let time = or_else (get "event_time" raw_event) (str now) in
      (
        event_type,
        known,
        ap (get "event_id") same
            ∙ get-optional_payload float_repr dumps sha256_16 "event_id" _ _ refl refl refl
            ∙ ap str (event_id_of-insert account (to_str float_repr event_type) time raw_event),
      )

  -- Where two raw events of one account have the same type and ticket, the same native deal ticket
  -- and agree on the fields that make the identity of their type, their payloads have the same
  -- `event_id`, whenever and with whatever server they are normalized: a retry repeats the id.
  pub normalize_event-same_id :
      (now now' : String) (account server server' : Option String) (platform platform' : String)
      (event_type : Value) (raw_event raw_event' payload payload' : Row)
      → lookup "event_type" raw_event ≡ some event_type
      → lookup "event_type" raw_event' ≡ some event_type
      → lookup "ticket" raw_event ≡ lookup "ticket" raw_event'
      → get "native_deal_ticket" raw_event ≡ get "native_deal_ticket" raw_event'
      → AgreeOn (identity_fields (to_str float_repr event_type) raw_event) raw_event raw_event'
      → normalize_event float_repr dumps sha256_16 now raw_event account server platform
        ≡ ok payload
      → normalize_event float_repr dumps sha256_16 now' raw_event' account server' platform'
        ≡ ok payload'
      → get "event_id" payload ≡ get "event_id" payload'
  normalize_event-same_id now now' account server server' platform platform' event_type raw_event
        raw_event' payload payload' known known' ticket native agree h h' =
      let (t, is_t, id) = get-normalize_event now raw_event account server platform payload h in
      let (t', is_t', id') =
        get-normalize_event now' raw_event' account server' platform' payload' h' in
      let same : t ≡ event_type = cc in
      let same' : t' ≡ event_type = cc in
      let ids : id_of account (to_str float_repr event_type) raw_event
          ≡ id_of account (to_str float_repr event_type) raw_event' =
        event_id_of-AgreeOn account (to_str float_repr event_type) raw_event raw_event' ticket
          native agree in
      cc

  -- A fill that MT5 has named keeps its id when its economics are corrected: two raw events of one
  -- account with the same type, one of the four types of a native deal, the same ticket and the same
  -- native deal ticket, not null, get the same `event_id`, whatever their other fields are.
  pub normalize_event-native_id :
      (now now' : String) (account server server' : Option String) (platform platform' : String)
      (event_type : String) (raw_event raw_event' payload payload' : Row)
      → is_native_deal_event event_type ≡ true
      → is_some (get "native_deal_ticket" raw_event) ≡ true
      → lookup "event_type" raw_event ≡ some (str event_type)
      → lookup "event_type" raw_event' ≡ some (str event_type)
      → lookup "ticket" raw_event ≡ lookup "ticket" raw_event'
      → get "native_deal_ticket" raw_event ≡ get "native_deal_ticket" raw_event'
      → normalize_event float_repr dumps sha256_16 now raw_event account server platform
        ≡ ok payload
      → normalize_event float_repr dumps sha256_16 now' raw_event' account server' platform'
        ≡ ok payload'
      → get "event_id" payload ≡ get "event_id" payload'
  unfolding identity_fields is_native_deal_event to_str
  normalize_event-native_id now now' account server server' platform platform' event_type raw_event
        raw_event' payload payload' is_native named known known' ticket native h h' =
      normalize_event-same_id now now' account server server' platform platform' (str event_type)
        raw_event raw_event' payload payload' known known' ticket native
        (rw (is_native, named) (native, tt)) h h'
