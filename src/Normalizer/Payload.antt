-- ===== src/Normalizer/Payload.antt =====
-- worker/event_normalizer.py: the payload that `normalize_event` returns.
use tradejournal_mt5_cloud_w.Prelude.{
  ℕ, ◌≡◌, refl, sym, ap, ◌∙◌, String, true, false, Option, none, some, arith, str_eq, Option-cases,
  ◌⊎◌, inl, inr,
}
use tradejournal_mt5_cloud_w.Prelude.Dict.{lookup, insert, lookup-insert, elem}
use tradejournal_mt5_cloud_w.Value.{Value, Row, get, or_else, str}
use tradejournal_mt5_cloud_w.Value.Text.{to_str}
use tradejournal_mt5_cloud_w.Value.Compare.{eq}
use tradejournal_mt5_cloud_w.Normalizer.{
  Problem, key_error, Result, ok, err, is_usable_symbol, is_usable_direction, is_usable_volume,
  validate_event_preflight, forward, forward_as, forward_all, forward_account, base_payload,
  optional_payload, build_event_id, event_id_of, normalize_event, excursion_fields, as_bool,
}
use tradejournal_mt5_cloud_w.Normalizer.Forward.{
  get-insert_other, get-forward, get-forward_as, get-forward_all, get-forward_account,
  account_fields, later_fields, AccountIsWhole, forward_account-AccountIsWhole, AccountIsWhole-same,
}

-- The preflight lets a usable opening through, and no other.
preflight-opened :
    (raw_event : Row)
    → get "event_type" raw_event ≡ str "trade_opened"
    → validate_event_preflight raw_event ≡ ok tt
    → (is_usable_symbol (get "symbol" raw_event) ≡ true)
      × (is_usable_direction (get "direction" raw_event) ≡ true)
      × (is_usable_volume (get "volume" raw_event) ≡ true)
unfolding validate_event_preflight eq
preflight-opened raw_event opened h =
    let known : eq (get "event_type" raw_event) (str "trade_opened") ≡ true = rw opened refl in
    ground arith

Result-cases : {A : Type 0} (r : Result A) → ((e : Problem) × (r ≡ err e)) ⊎ ((a : A) × (r ≡ ok a))
Result-cases (ok a) = inr (a, refl)
Result-cases (err e) = inl (e, refl)

module _ (float_repr : ℕ → String) (dumps : Row → String) (sha256_16 : String → String) where
  -- What `optional_payload` does after the account fields.
  later_payload : Row → Row → Row
  later_payload event payload = forward "fee" event (
      forward_as as_bool "partial_close" event (
        forward "previous_volume" event (
          forward_as as_bool "commission_complete" event (
            forward "time_basis" event (
              forward "time_msc" event (
                forward_as (λ v. str (to_str float_repr v)) "native_deal_ticket" event
                  (forward "balance_before_open" event payload)))))))

  get-later_payload :
      (j : String) (event payload : Row)
      → elem j later_fields ≡ false
      → get j (later_payload event payload) ≡ get j payload
  unfolding later_payload elem
  get-later_payload j event payload h =
      get-forward "fee" j event _ (ground arith)
      ∙ get-forward_as as_bool "partial_close" j event _ (ground arith)
      ∙ get-forward "previous_volume" j event _ (ground arith)
      ∙ get-forward_as as_bool "commission_complete" j event _ (ground arith)
      ∙ get-forward "time_basis" j event _ (ground arith)
      ∙ get-forward "time_msc" j event _ (ground arith)
      ∙ get-forward_as (λ v. str (to_str float_repr v)) "native_deal_ticket" j event _
          (ground arith)
      ∙ get-forward "balance_before_open" j event payload (ground arith)

  pub get-optional_payload :
      (j : String) (event payload : Row)
      → elem j later_fields ≡ false
      → elem j account_fields ≡ false
      → elem j excursion_fields ≡ false
      → get j (optional_payload float_repr dumps sha256_16 event payload) ≡ get j payload
  unfolding optional_payload later_payload
  get-optional_payload j event payload h a e =
      get-later_payload j event _ h
      ∙ get-forward_account j event _ a
      ∙ get-forward_all excursion_fields j event payload e

  build_event_id_known :
      (account : Option String) (event : Row) (event_type : Value)
      → lookup "event_type" event ≡ some event_type
      → build_event_id float_repr dumps sha256_16 account event
        ≡ ok (event_id_of float_repr dumps sha256_16 account (to_str float_repr event_type) event)
  unfolding build_event_id
  build_event_id_known account event event_type h = rw (h, build_event_id) refl

  build_event_id_missing :
      (account : Option String) (event : Row)
      → lookup "event_type" event ≡ none
      → build_event_id float_repr dumps sha256_16 account event ≡ err key_error
  unfolding build_event_id
  build_event_id_missing account event h = rw (h, build_event_id) refl

  -- What `normalize_event` has done where it returns.
  pub normalize_event-ok :
      (now : String) (raw_event : Row) (account server : Option String) (platform : String)
      (payload : Row)
      → normalize_event float_repr dumps sha256_16 now raw_event account server platform
        ≡ ok payload
      → (event_type : Value) × (lookup "event_type" raw_event ≡ some event_type)
        × (validate_event_preflight raw_event ≡ ok tt)
        × (let event =
              insert "event_time" (or_else (get "event_time" raw_event) (str now)) raw_event in
            payload
            ≡ optional_payload float_repr dumps sha256_16 event (
                base_payload float_repr dumps sha256_16
                  (event_id_of float_repr dumps sha256_16 account
                    (to_str float_repr event_type)
                    event)
                  account
                  server
                  platform
                  event))
  unfolding normalize_event
  normalize_event-ok now raw_event account server platform payload h =
      let event = insert "event_time" (or_else (get "event_time" raw_event) (str now)) raw_event in
      let kept : (t : Option Value)
          → lookup "event_type" raw_event ≡ t
          → lookup "event_type" event ≡ t =
        λ t same. lookup-insert "event_time" "event_type" _ raw_event ∙ same in
      elim (Result-cases (validate_event_preflight raw_event)) [
        | inl (e, bad) ↦ cc (rw bad at h)
        | inr (_, fine) ↦ elim (Option-cases (lookup "event_type" raw_event)) [
          | inl missing ↦
              cc (rw (fine, build_event_id_missing account event (kept none missing)) at h)
          | inr (event_type, known) ↦ (
            event_type,
            known,
            fine,
            cc (
                rw
                  (
                    fine,
                    build_event_id_known account event event_type (kept (some event_type) known),
                  )
                  at h),
          )
        ]
      ]

  -- The account snapshot of a payload is whole or missing: where `normalize_event` returns, either
  -- none of balance, equity, currency and leverage is in the payload, or all four are, none is
  -- null, and each is the value of the event.
  pub normalize_event-AccountIsWhole :
      (now : String) (raw_event : Row) (account server : Option String) (platform : String)
      (payload : Row)
      → normalize_event float_repr dumps sha256_16 now raw_event account server platform
        ≡ ok payload
      → AccountIsWhole raw_event payload
  unfolding elem excursion_fields base_payload insert get optional_payload later_payload
  normalize_event-AccountIsWhole now raw_event account server platform payload h =
      let (event_type, known, fine, same) =
        normalize_event-ok now raw_event account server platform payload h in
      let event = insert "event_time" (or_else (get "event_time" raw_event) (str now)) raw_event in
      let base =
        base_payload float_repr dumps sha256_16
          (event_id_of float_repr dumps sha256_16 account (to_str float_repr event_type) event)
          account server platform event in
      let snapshot = forward_account event (forward_all excursion_fields event base) in
      let clear : (j : String)
          → elem j excursion_fields ≡ false
          → get j (forward_all excursion_fields event base) ≡ get j base =
        λ j out. get-forward_all excursion_fields j event base out in
      AccountIsWhole-same event raw_event snapshot payload
        (λ j out. get-insert_other "event_time" j _ raw_event (ground arith))
        (λ j out. sym (ap (get j) same ∙ get-later_payload j event snapshot (ground arith)))
        (forward_account-AccountIsWhole event (forward_all excursion_fields event base)
          (clear "balance" refl) (clear "equity" refl) (clear "currency" refl)
          (clear "leverage" refl))

  -- What reaches the ingestion API as `trade_opened` can be ingested: where `normalize_event`
  -- returns for such an event, the payload has a symbol that is a stripped text of 1 to 64
  -- characters without control characters, a direction of buy or sell and a positive finite volume.
  pub normalize_event-opened :
      (now : String) (raw_event : Row) (account server : Option String) (platform : String)
      (payload : Row)
      → get "event_type" raw_event ≡ str "trade_opened"
      → normalize_event float_repr dumps sha256_16 now raw_event account server platform
        ≡ ok payload
      → (is_usable_symbol (get "symbol" payload) ≡ true)
        × (is_usable_direction (get "direction" payload) ≡ true)
        × (is_usable_volume (get "volume" payload) ≡ true)
  unfolding elem excursion_fields base_payload insert get
  normalize_event-opened now raw_event account server platform payload opened h =
      let (event_type, known, fine, same) =
        normalize_event-ok now raw_event account server platform payload h in
      let event = insert "event_time" (or_else (get "event_time" raw_event) (str now)) raw_event in
      let sent : (j : String)
          → elem j later_fields ≡ false
          → elem j account_fields ≡ false
          → elem j excursion_fields ≡ false
          → get j payload
            ≡ get j (
                base_payload float_repr dumps sha256_16
                  (event_id_of float_repr dumps sha256_16 account (to_str float_repr event_type)
                    event)
                  account server platform event) =
        λ j l a e. ap (get j) same ∙ get-optional_payload j event _ l a e in
      let kept : (j : String) → str_eq "event_time" j ≡ false → get j event ≡ get j raw_event =
        λ j other. get-insert_other "event_time" j _ raw_event other in
      rw
        (
          sent "symbol" refl refl refl ∙ kept "symbol" refl,
          sent "direction" refl refl refl ∙ kept "direction" refl,
          sent "volume" refl refl refl ∙ kept "volume" refl,
        )
        (preflight-opened raw_event opened fine)
