-- ===== src/JobRunner/Lease.antt =====
-- windows_agent/job_runner.py: what a run knows of its lease when it asks for the completion.
use tradejournal_mt5_cloud_w.Prelude.{◌≡◌, refl, List, true, false, ◌∷◌, [], Bool-cases, inl, inr}
use tradejournal_mt5_cloud_w.Value.{Row}
use tradejournal_mt5_cloud_w.StateStore.{returned}
use tradejournal_mt5_cloud_w.JobRunner.{
  Reply, failure, no_object, object, is_lease_valid, Environment, keeper_lost, check_lease,
}

-- The replies that the keeper's thread got while the handler ran, where it did not report the lease
-- as lost: each is an object with a valid lease, up to the last one or up to a reply that is no
-- object. With such a reply the thread ends, and it reports nothing of the later ones.
pub data IsUnreported : List Reply → Type 0 where
  quiet : IsUnreported []
  ended : (beats : List Reply) → IsUnreported (no_object ∷ beats)
  valid :
      (response : Row) (beats : List Reply)
      → is_lease_valid response ≡ true
      → IsUnreported beats
      → IsUnreported (object response ∷ beats)

pub keeper_lost-IsUnreported : (beats : List Reply) → keeper_lost beats ≡ false → IsUnreported beats
unfolding keeper_lost
keeper_lost-IsUnreported [] h = quiet
keeper_lost-IsUnreported (failure e ∷ beats) h = cc
keeper_lost-IsUnreported (no_object ∷ beats) h = ended beats
keeper_lost-IsUnreported (object response ∷ beats) h = elim (Bool-cases (is_lease_valid response)) [
  | inl fine ↦
      valid response beats fine (keeper_lost-IsUnreported beats (rw (fine, keeper_lost) at h))
  | inr lost ↦ cc (rw (lost, keeper_lost) at h)
]

-- A reply that says that the lease is valid.
abbrev pub IsValidLease : Reply → Type 0
IsValidLease reply = (response : Row) × (reply ≡ object response) × (is_lease_valid response ≡ true)

pub check_lease-IsValidLease :
    (env : Environment) → check_lease env ≡ returned tt → IsValidLease env.heartbeat
unfolding check_lease
check_lease-IsValidLease env h = by_reply env.heartbeat refl
  where
    by_reply : (reply : Reply) → env.heartbeat ≡ reply → IsValidLease env.heartbeat
    by_reply (failure e) is_ = cc (rw (is_, check_lease) at h)
    by_reply no_object is_ = cc (rw (is_, check_lease) at h)
    by_reply (object response) is_ = elim (Bool-cases (is_lease_valid response)) [
      | inl fine ↦ (response, is_, fine)
      | inr lost ↦ cc (rw (is_, check_lease, lost) at h)
    ]
