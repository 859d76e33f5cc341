-- ===== src/JobRunner/Truthful.antt =====
-- windows_agent/job_runner.py: what `run_once` leaves in the local state file is never more than
-- what the control plane has acknowledged.
use mathlib.Core.Path.{subst}
use tradejournal_mt5_cloud_w.Prelude.{
  ◌≡◌, refl, sym, String, Bool, true, false, Option, none, some, ◌∷◌, ◌++◌, [], Bool-cases, ◌⊎◌,
  inl, inr,
}
use tradejournal_mt5_cloud_w.Value.{Row}
use tradejournal_mt5_cloud_w.StateStore.{
  Exception, lease_lost, other, Outcome, returned, raised, Write, published, refused, interrupted,
  atomic_json, written, holds_secret,
}
use tradejournal_mt5_cloud_w.JobRunner.{
  Request, running, complete, fail, Job, Environment, World, next, ◌>>=◌, with_status,
  failed_record, expected, class_name, is_acknowledged, keeper_lost, error_code, save, transition,
  call_handler, check_lease, attempt, to_file, done, or_redacted, lose, after_fail, report,
  conclude, run_job, start, run_once,
}
use tradejournal_mt5_cloud_w.JobRunner.Lease.{
  IsUnreported, keeper_lost-IsUnreported, IsValidLease, check_lease-IsValidLease,
}

pub Outcome-cases :
    {A : Type 0} (o : Outcome A) → ((e : Exception) × (o ≡ raised e)) ⊎ ((a : A) × (o ≡ returned a))
Outcome-cases (returned a) = inr (a, refl)
Outcome-cases (raised e) = inl (e, refl)

module _ (env : Environment) (job : Job) where
  Acknowledged : Request → Type 0
  Acknowledged request = is_acknowledged (env.transition request) (expected request) ≡ true

  -- All that a completed job takes: the start is acknowledged, the handler has returned, the keeper
  -- did not report the lease as lost, the heartbeat after the handler says that it is valid, and the
  -- completion is acknowledged.
  pub record Worked : Type 0 where
    pub result : Row
    pub started : is_acknowledged (env.transition running) "running" ≡ true
    pub handled : call_handler env job.action ≡ returned result
    pub kept : IsUnreported env.beats
    pub last : IsValidLease env.heartbeat
    pub acknowledged : is_acknowledged (env.transition (complete result)) "complete" ≡ true

  -- The control plane has acknowledged a failure.
  pub record FailedRemotely : Type 0 where
    pub code : String
    pub acknowledged : is_acknowledged (env.transition (fail code)) "failed" ≡ true

  -- A local record of success needs a completed job, a local record of failure an acknowledged one.
  pub data Recorded (before : Option Row) : Option Row → Type 0 where
    untouched : (file : Option Row) → file ≡ before → Recorded before file
    begun : (file : Option Row) → file ≡ some (with_status "running" job) → Recorded before file
    lost : (file : Option Row) → file ≡ some (with_status "lease_lost" job) → Recorded before file
    completed :
        (file : Option Row)
        → file ≡ some (with_status "complete" job)
        → Worked
        → Recorded before file
    failed :
        (file : Option Row) (name : String)
        → file ≡ some (failed_record name job)
        → FailedRemotely
        → Recorded before file

  -- What the run says, against the file.
  pub Told : Option Row → Outcome Bool → Option Row → Type 0
  Told before (returned true) file =
      ((file ≡ some (with_status "complete" job)) × Worked)
      ⊎ ((name : String) × (file ≡ some (failed_record name job)) × FailedRemotely)
  Told before (returned false) file = file ≡ some (with_status "lease_lost" job)
  Told before (raised e) file = Recorded before file

  abbrev replaced : Option Row → World → World
  replaced file world = record { file = file; requests = world.requests }

  -- How a write of the file can end.
  pub save-cases :
      (row : Row) (world : World) (P : Outcome (Unit {0}) × World → Type 0)
      → P (returned tt, replaced (some row) world)
      → ((e : Exception) → P (raised e, world))
      → ((e : Exception) → P (raised e, replaced (some row) world))
      → P (save env row world)
  unfolding save atomic_json written
  save-cases row world P fine bad late =
      elim (Bool-cases (holds_secret (env.lower (env.dumps row)))) [
        | inl secret ↦ rw secret (bad (other "ValueError" none))
        | inr clean ↦ rw clean (by_write (env.disk row))
      ]
    where
      by_write : (w : Write) → P (to_file world (written w row world.file))
      by_write published = fine
      by_write (refused e) = bad e
      by_write (interrupted e) = late e

  lose-Told :
      (before : Option Row) (world : World)
      → Recorded before world.file
      → Told before (lose env job world).0 (lose env job world).1.file
  unfolding lose next Told
  lose-Told before world known =
      save-cases (with_status "lease_lost" job) world
        (λ o. Told before (next o (λ _. done false)).0 (next o (λ _. done false)).1.file) refl
        (λ e. known) (λ e. lost _ refl)

  or_redacted-Told :
      (before : Option Row) (name : String) (world : World)
      → FailedRemotely
      → Recorded before world.file
      → (let o = or_redacted env job (save env (failed_record name job) world) in
          Told before o.0 o.1.file)
  unfolding or_redacted next Told
  or_redacted-Told before name world remote known =
      save-cases (failed_record name job) world
        (λ o. Told before (or_redacted env job o).0 (or_redacted env job o).1.file)
        (inr (name, refl, remote)) (λ e. again e world known)
        (λ e. again e (replaced _ world) (failed _ name refl remote))
    where
      again :
          (e : Exception) (w : World)
          → Recorded before w.file
          → Told before
              (or_redacted env job (raised e, w)).0
              (or_redacted env job (raised e, w)).1.file
      again lease_lost w left = left
      again (other class code) w left = elim (Bool-cases (env.is_value_error class)) [
        | inr os ↦ rw os left
        | inl value ↦ rw value (
            save-cases (failed_record "redacted" job) w
              (λ o. Told before (next o (λ _. done true)).0 (next o (λ _. done true)).1.file)
              (inr ("redacted", refl, remote)) (λ e. left) (λ e. failed _ "redacted" refl remote))
      ]

  report-Told :
      (before : Option Row) (e : Exception) (world : World)
      → Recorded before world.file
      → Told before (report env job e world).0 (report env job e world).1.file
  unfolding report after_fail transition expected Told
  report-Told before e world known =
      let code = error_code env.lower e in
      elim (Bool-cases (is_acknowledged (env.transition (fail code)) "failed")) [
        | inl confirmed ↦ rw confirmed (
            or_redacted-Told before (class_name e)
              (record { file = world.file; requests = world.requests ++ fail code ∷ [] })
              (record { code = code; acknowledged = confirmed }) known)
        | inr doubtful ↦ rw doubtful (lose-Told before _ known)
      ]

  attempt-cases :
      (world : World) (P : Outcome (Unit {0}) × World → Type 0)
      → (Worked → (w : World) → w.file ≡ some (with_status "complete" job) → P (returned tt, w))
      → ((e : Exception) (w : World) → w.file ≡ world.file → P (raised e, w))
      → (Worked
          → (e : Exception) (w : World) → w.file ≡ some (with_status "complete" job)
          → P (raised e, w))
      → P (attempt env job world)
  unfolding attempt ◌>>=◌ next transition expected
  attempt-cases world P fine bad late =
      elim (Bool-cases (is_acknowledged (env.transition running) "running")) [
        | inr doubtful ↦ rw doubtful (bad _ _ refl)
        | inl started ↦ rw started (elim (Outcome-cases (call_handler env job.action)) [
          | inl (e, failing) ↦ rw failing (bad e _ refl)
          | inr (result, handled) ↦ rw handled (elim (Bool-cases (keeper_lost env.beats)) [
            | inl gone ↦ rw gone (bad _ _ refl)
            | inr kept ↦ rw kept (elim (Outcome-cases (check_lease env)) [
              | inl (e, invalid) ↦ rw invalid (bad e _ refl)
              | inr (_, valid_) ↦
                  rw valid_
                    (elim (Bool-cases
                      (is_acknowledged (env.transition (complete result)) "complete")) [
                        | inr doubtful ↦ rw doubtful (bad _ _ refl)
                        | inl acknowledged ↦
                            let worked : Worked = record {
                              result = result;
                              started = started;
                              handled = handled;
                              kept = keeper_lost-IsUnreported env.beats kept;
                              last = check_lease-IsValidLease env valid_;
                              acknowledged = acknowledged;
                            } in
                            rw acknowledged (
                              save-cases (with_status "complete" job) _ P (fine worked _ refl)
                                (λ e. bad e _ refl) (λ e. late worked e _ refl))
                      ])
            ])
          ])
        ])
      ]

  conclude-Told :
      (before : Option Row) (world : World)
      → Recorded before world.file
      → Told before
          (conclude env job (attempt env job world)).0
          (conclude env job (attempt env job world)).1.file
  unfolding conclude Told
  conclude-Told before world known =
      attempt-cases world (λ o. Told before (conclude env job o).0 (conclude env job o).1.file)
        (λ worked w same. inl (same, worked))
        (λ e w same. raise e w (subst (Recorded before) (sym same) known))
        (λ worked e w same. raise e w (completed _ same worked))
    where
      raise :
          (e : Exception) (w : World)
          → Recorded before w.file
          → Told before (conclude env job (raised e, w)).0 (conclude env job (raised e, w)).1.file
      raise lease_lost w left = lose-Told before w left
      raise (other name code) w left = report-Told before (other name code) w left

  run_job-Told :
      (world : World) → Told world.file (run_job env job world).0 (run_job env job world).1.file
  unfolding run_job next Told
  run_job-Told world =
      save-cases (with_status "running" job) world
        (λ o.
          let c = next o (λ _ w. conclude env job (attempt env job w)) in
          Told world.file c.0 c.1.file)
        (conclude-Told world.file _ (begun _ refl)) (λ e. untouched _ refl) (λ e. begun _ refl)

  -- The file and the answer of a run are true to the control plane. After a run that claimed the
  -- job, from any world: if it returns True, then either the file says complete, the handler has
  -- returned, start and completion are acknowledged, the heartbeat after the handler said that the
  -- lease is valid, and so did each one that the keeper's thread got while the handler ran, up to a
  -- reply that is no object, with which the thread ends, or the file says failed and a failure is
  -- acknowledged; if it returns False, the file says lease_lost; if it raises, the file is the old
  -- one, says running or lease_lost, or says complete or failed under the same conditions.
  pub run_once-Told :
      (world : World)
      → env.claim ≡ returned (some job)
      → Told world.file (run_once env world).0 (run_once env world).1.file
  unfolding run_once start
  run_once-Told world claimed =
      subst
        (λ (c : Outcome (Option Job)).
          Told world.file (start env c world).0 (start env c world).1.file)
        (sym claimed) (run_job-Told world)
