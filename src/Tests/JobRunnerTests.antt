-- ===== src/Tests/JobRunnerTests.antt =====
-- Runs of windows_agent/job_runner.py, and its theorems at a concrete environment.
use tradejournal_mt5_cloud_w.Prelude.{
  ◌≡◌, refl, str_eq, true, false, none, some, [], ◌∷◌, if◌then◌else◌,
}
use tradejournal_mt5_cloud_w.Value.{Row, str, bool, get, truthy}
use tradejournal_mt5_cloud_w.Value.Compare.{eq}
use tradejournal_mt5_cloud_w.StateStore.{
  other, returned, Write, published, refused, atomic_json, written, holds_secret,
}
use tradejournal_mt5_cloud_w.JobRunner.{
  Reply, no_object, object, Request, running, complete, fail, Job, Environment, World, with_status,
  failed_record, run_once, attempt, conclude, run_job, is_acknowledged, call_handler, keeper_lost,
  is_lease_valid, check_lease, start, expected, report, after_fail, or_redacted, error_code,
  class_name, ◌>>=◌, next, transition, save,
}
use tradejournal_mt5_cloud_w.JobRunner.Entitled.{IsSafe, run_once-IsSafe}
use tradejournal_mt5_cloud_w.JobRunner.Truthful.{Told, run_once-Told}

abbrev job : Job
job = record { job_id = "j1"; action = "live_sync"; connection_id = "c1"; lease_id = "l1" }

confirm : Request → Reply
confirm running = object (("status", str "running") ∷ [])
confirm (complete result) = object (("status", str "complete") ∷ [])
confirm (fail code) = object (("status", str "failed") ∷ [])

abbrev valid : Reply
valid = object (("lease_valid", bool true) ∷ [])

abbrev outcome : Row
outcome = ("events", str "2") ∷ []

abbrev good : Environment
good = record {
  claim = returned (some job);
  transition = confirm;
  beats = valid ∷ valid ∷ [];
  heartbeat = valid;
  handlers = ("live_sync", returned outcome) ∷ [];
  dumps = λ row. "{\"action\":\"live_sync\"}";
  lower = λ s. s;
  disk = λ row. published;
  is_value_error = λ name. str_eq name "ValueError";
}

abbrev before : World
before = record { file = none; requests = [] }

good_completes : run_once good before ≡ (
  returned true,
  record { file = some (with_status "complete" job); requests = running ∷ complete outcome ∷ [] },
)
unfolding run_once start run_job next attempt ◌>>=◌ transition expected save atomic_json conclude
    confirm is_acknowledged eq get call_handler keeper_lost is_lease_valid truthy check_lease
    holds_secret written
good_completes = refl

run_once-Told_example : Told good job none (run_once good before).0 (run_once good before).1.file
run_once-Told_example = run_once-Told good job before refl

abbrev invalid : Reply
invalid = object (("lease_valid", bool false) ∷ [])

-- The keeper's thread ends with a reply that is no object, and does not see that the lease is lost.
abbrev blind : Environment
blind = record good { beats = no_object ∷ invalid ∷ [] }

blind_completes : run_once blind before ≡ (
  returned true,
  record { file = some (with_status "complete" job); requests = running ∷ complete outcome ∷ [] },
)
unfolding run_once start run_job next attempt ◌>>=◌ transition expected save atomic_json conclude
    confirm is_acknowledged eq get call_handler keeper_lost is_lease_valid truthy check_lease
    holds_secret written
blind_completes = refl

-- A disk that refuses the record of the completion.
full_disk : Row → Write
full_disk row =
    if eq (get "status" row) (str "complete") then refused (other "OSError" none) else published

abbrev full : Environment
full = record good { disk = full_disk }

-- The control plane has acknowledged the completion, and then is told that the job failed.
failure_after_completion : run_once full before ≡ (
  returned true,
  record {
    file = some (failed_record "OSError" job);
    requests = running ∷ complete outcome ∷ fail "OSError" ∷ [];
  },
)
unfolding run_once start run_job next attempt ◌>>=◌ transition expected save atomic_json conclude
    confirm is_acknowledged eq get call_handler keeper_lost is_lease_valid truthy check_lease
    holds_secret report after_fail or_redacted error_code class_name with_status failed_record
    written full_disk
failure_after_completion = refl

run_once-IsSafe_example : IsSafe good job (run_once good before).1
run_once-IsSafe_example = run_once-IsSafe good job before refl (record { requests = tt })
