-- ===== src/Normalizer/Forward.antt =====
-- worker/event_normalizer.py: what the optional fields leave of a payload, and the account snapshot.
use tradejournal_mt5_cloud_w.Prelude.{
  ◌≡◌, refl, sym, ◌∙◌, String, true, false, ◌&&◌, List, [], ◌∷◌, arith, str_eq, if◌then◌else◌,
  Bool-cases, ◌⊎◌, inl, inr,
}
use tradejournal_mt5_cloud_w.Prelude.Dict.{insert, lookup-insert, elem}
use tradejournal_mt5_cloud_w.Value.{Value, Row, get, is_some, null}
use tradejournal_mt5_cloud_w.Normalizer.{forward, forward_as, forward_all, forward_account}

pub get-insert :
    (k j : String) (v : Value) (row : Row)
    → get j (insert k v row) ≡ (if str_eq k j then v else get j row)
unfolding get
get-insert k j v row = rw lookup-insert (ground arith)

pub get-insert_other :
    (k j : String) (v : Value) (row : Row) → str_eq k j ≡ false → get j (insert k v row) ≡ get j row
get-insert_other k j v row h = rw (get-insert, h) refl

pub get-forward :
    (field j : String) (event payload : Row)
    → str_eq field j ≡ false
    → get j (forward field event payload) ≡ get j payload
unfolding forward
get-forward field j event payload h =
    ground (arith, get-insert_other field j (get field event) payload)

pub get-forward_as :
    (convert : Value → Value) (field j : String) (event payload : Row)
    → str_eq field j ≡ false
    → get j (forward_as convert field event payload) ≡ get j payload
unfolding forward_as
get-forward_as convert field j event payload h =
    ground (arith, get-insert_other field j (convert (get field event)) payload)

pub get-forward_all :
    (fields : List String) (j : String) (event payload : Row)
    → elem j fields ≡ false
    → get j (forward_all fields event payload) ≡ get j payload
unfolding forward_all elem
get-forward_all [] j event payload h = refl
get-forward_all (field ∷ fields) j event payload h = elim (Bool-cases (str_eq field j)) [
  | inl same ↦ cc
  | inr other ↦
      get-forward_all fields j event (forward field event payload) (rw other at h)
      ∙ get-forward field j event payload other
]

abbrev pub account_fields : List String
account_fields = "balance" ∷ "equity" ∷ "currency" ∷ "leverage" ∷ []

pub get-forward_account :
    (j : String) (event payload : Row)
    → elem j account_fields ≡ false
    → get j (forward_account event payload) ≡ get j payload
unfolding forward_account elem
get-forward_account j event payload h =
    let p1 = insert "balance" (get "balance" event) payload in
    let p2 = insert "equity" (get "equity" event) p1 in
    let p3 = insert "currency" (get "currency" event) p2 in
    ground (
      arith,
      get-insert_other "balance" j (get "balance" event) payload,
      get-insert_other "equity" j (get "equity" event) p1,
      get-insert_other "currency" j (get "currency" event) p2,
      get-insert_other "leverage" j (get "leverage" event) p3,
    )

-- The fields that `optional_payload` may set, but for those of `excursion_fields` and of the
-- account.
abbrev pub later_fields : List String
later_fields =
    "fee" ∷ "partial_close" ∷ "previous_volume" ∷ "commission_complete" ∷ "time_basis" ∷ "time_msc"
    ∷ "native_deal_ticket" ∷ "balance_before_open" ∷ []

-- A payload carries the whole account snapshot of its event, with no part of it missing, or no
-- field of it.
pub AccountIsWhole : Row → Row → Type 0
AccountIsWhole event payload =
    ((get "balance" payload ≡ null)
      × (get "equity" payload ≡ null)
      × (get "currency" payload ≡ null)
      × (get "leverage" payload ≡ null))
    ⊎ ((is_some (get "balance" event) ≡ true)
        × (is_some (get "equity" event) ≡ true)
        × (is_some (get "currency" event) ≡ true)
        × (is_some (get "leverage" event) ≡ true)
        × (get "balance" payload ≡ get "balance" event)
        × (get "equity" payload ≡ get "equity" event)
        × (get "currency" payload ≡ get "currency" event)
        × (get "leverage" payload ≡ get "leverage" event))

pub forward_account-AccountIsWhole :
    (event payload : Row)
    → get "balance" payload ≡ null
    → get "equity" payload ≡ null
    → get "currency" payload ≡ null
    → get "leverage" payload ≡ null
    → AccountIsWhole event (forward_account event payload)
unfolding forward_account AccountIsWhole
forward_account-AccountIsWhole event payload b e c l =
    elim (Bool-cases (
      is_some (get "balance" event)
      && is_some (get "equity" event)
      && is_some (get "currency" event)
      && is_some (get "leverage" event))) [
        | inr part ↦ rw part (inl (b, e, c, l))
        | inl whole ↦ rw whole (
            inr (
              ground arith,
              ground arith,
              ground arith,
              ground arith,
              simp get-insert,
              simp get-insert,
              simp get-insert,
              simp get-insert,
            ))
      ]

pub AccountIsWhole-same :
    (event event' payload payload' : Row)
    → ((j : String) → elem j ("event_time" ∷ later_fields) ≡ false → get j event ≡ get j event')
    → ((j : String) → elem j ("event_time" ∷ later_fields) ≡ false → get j payload ≡ get j payload')
    → AccountIsWhole event payload
    → AccountIsWhole event' payload'
unfolding AccountIsWhole elem
AccountIsWhole-same event event' payload payload' e p h =
    rw
      (
        sym (e "balance" refl),
        sym (e "equity" refl),
        sym (e "currency" refl),
        sym (e "leverage" refl),
        sym (p "balance" refl),
        sym (p "equity" refl),
        sym (p "currency" refl),
        sym (p "leverage" refl),
      )
      h
