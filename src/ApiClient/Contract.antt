-- ===== src/ApiClient/Contract.antt =====
-- windows_agent/api_client.py against windows_agent/job_runner.py: an answer that the client lets
-- through means the same to the job runner.
use tradejournal_mt5_cloud_w.Prelude.{
  ◌≡◌, refl, sym, ap, ◌∙◌, String, Bool, true, false, not, some, arith, Bool-cases, ◌⊎◌, inl, inr,
}
use tradejournal_mt5_cloud_w.Value.{Value, Row, get, bool, str, truthy}
use tradejournal_mt5_cloud_w.Value.Compare.{eq}
use tradejournal_mt5_cloud_w.ApiClient.{
  accept_if, heartbeat_of, validate_heartbeat, is_v1, is_lost, confirmed_status,
  validate_transition,
}
use tradejournal_mt5_cloud_w.JobRunner.{object, is_acknowledged, is_lease_valid}

accept_if-some :
    (b : Bool) (response answer : Row)
    → accept_if b response ≡ some answer
    → (b ≡ true) × (response ≡ answer)
unfolding accept_if
accept_if-some true response answer h = (refl, cc)
accept_if-some false response answer h = cc

-- An answer to a transition that passes the client's check is an acknowledgement to the job runner,
-- of the status that was asked for, exactly where it does not say that the lease is lost.
pub validate_transition-is_acknowledged :
    (response answer : Row) (requested : String)
    → validate_transition response requested ≡ some answer
    → is_acknowledged (object answer) (confirmed_status requested)
      ≡ not (eq (get "error_code" answer) (str "lease_lost"))
unfolding validate_transition is_acknowledged is_lost
validate_transition-is_acknowledged response answer requested h =
    elim (Bool-cases (is_v1 response)) [
      | inr other ↦ cc (rw other at h)
      | inl v1 ↦ elim (Bool-cases (is_lost response)) [
        | inl lost ↦
            let (fine, same) = accept_if-some _ response answer (rw (v1, lost) at h) in
            let gone : eq (get "error_code" answer) (str "lease_lost") ≡ true =
              ap (λ (r : Row). eq (get "error_code" r) (str "lease_lost")) (sym same) ∙ lost in
            rw gone refl
        | inr kept ↦
            let (fine, same) = accept_if-some _ response answer (rw (v1, kept) at h) in
            let held : eq (get "error_code" answer) (str "lease_lost") ≡ false =
              ap (λ (r : Row). eq (get "error_code" r) (str "lease_lost")) (sym same) ∙ kept in
            let status : eq (get "status" response) (str (confirmed_status requested)) ≡ true =
              ground arith in
            let status' : eq (get "status" answer) (str (confirmed_status requested)) ≡ true =
              ap (λ (r : Row). eq (get "status" r) (str (confirmed_status requested))) (sym same)
              ∙ status in
            rw (held, status') refl
      ]
    ]

heartbeat_of_sound :
    (v : Value) (response answer : Row)
    → get "lease_valid" response ≡ v
    → heartbeat_of v response ≡ some answer
    → (is_lease_valid answer ≡ true)
      ⊎ ((is_lease_valid answer ≡ false) × (eq (get "error_code" answer) (str "lease_lost") ≡ true))
unfolding heartbeat_of is_lease_valid is_lost truthy
heartbeat_of_sound (bool true) response answer e h =
    let (fine, same) = accept_if-some _ response answer h in
    let valid : get "lease_valid" answer ≡ bool true =
      ap (λ (r : Row). get "lease_valid" r) (sym same) ∙ e in
    inl (rw valid refl)
heartbeat_of_sound (bool false) response answer e h =
    let (fine, same) = accept_if-some _ response answer h in
    let invalid : get "lease_valid" answer ≡ bool false =
      ap (λ (r : Row). get "lease_valid" r) (sym same) ∙ e in
    let lost : eq (get "error_code" response) (str "lease_lost") ≡ true = ground arith in
    inr (
      rw invalid refl,
      ap (λ (r : Row). eq (get "error_code" r) (str "lease_lost")) (sym same) ∙ lost,
    )
heartbeat_of_sound _ response answer e h = cc

-- A heartbeat's answer that passes the client's check is read by the job runner as a valid lease, or
-- as a lost one, and then it says so in its error code.
pub validate_heartbeat_sound :
    (response answer : Row)
    → validate_heartbeat response ≡ some answer
    → (is_lease_valid answer ≡ true)
      ⊎ ((is_lease_valid answer ≡ false) × (eq (get "error_code" answer) (str "lease_lost") ≡ true))
unfolding validate_heartbeat
validate_heartbeat_sound response answer h = elim (Bool-cases (is_v1 response)) [
  | inr other ↦ cc (rw other at h)
  | inl v1 ↦ heartbeat_of_sound (get "lease_valid" response) response answer refl (rw v1 at h)
]
