-- ===== src/JobRunner/Entitled.antt =====
-- windows_agent/job_runner.py: what a run asks the control plane for.
use mathlib.Core.Path.{subst}
use tradejournal_mt5_cloud_w.Prelude.{
  ◌≡◌, sym, true, false, Option, some, [], ◌∷◌, ◌++◌, Bool-cases, inl, inr, All, All-append,
}
use tradejournal_mt5_cloud_w.Value.{Row}
use tradejournal_mt5_cloud_w.StateStore.{Exception, lease_lost, other, Outcome, returned, raised}
use tradejournal_mt5_cloud_w.JobRunner.{
  Request, running, complete, fail, Job, Environment, World, next, ◌>>=◌, with_status,
  failed_record, is_acknowledged, expected, keeper_lost, save, transition, call_handler,
  check_lease, attempt, or_redacted, lose, after_fail, report, conclude, run_job, start, run_once,
}
use tradejournal_mt5_cloud_w.JobRunner.Truthful.{Outcome-cases, save-cases}
use tradejournal_mt5_cloud_w.JobRunner.Lease.{
  IsUnreported, keeper_lost-IsUnreported, IsValidLease, check_lease-IsValidLease,
}

module _ (env : Environment) (job : Job) where
  -- A completion may be asked for with what the handler of the job has returned, once the start is
  -- acknowledged, where the keeper did not report the lease as lost and the heartbeat after the
  -- handler says that it is valid.
  abbrev pub IsEntitled : Request → Type 0
  IsEntitled (complete result) =
      (is_acknowledged (env.transition running) "running" ≡ true)
      × (call_handler env job.action ≡ returned result)
      × IsUnreported env.beats
      × IsValidLease env.heartbeat
  IsEntitled running = Unit
  IsEntitled (fail code) = Unit

  abbrev AllEntitled : World → Type 0
  AllEntitled world = All IsEntitled world.requests

  save-AllEntitled :
      (row : Row) (world : World) → AllEntitled world → AllEntitled (save env row world).1
  save-AllEntitled row world safe =
      save-cases env job row world (λ o. AllEntitled o.1) safe (λ e. safe) (λ e. safe)

  next-AllEntitled :
      {A : Type 0} (o : Outcome (Unit {0}) × World) (a : A)
      → AllEntitled o.1
      → AllEntitled (next o (λ _ w. (returned a, w))).1
  unfolding next
  next-AllEntitled (returned _, w) a safe = safe
  next-AllEntitled (raised e, w) a safe = safe

  lose-AllEntitled : (world : World) → AllEntitled world → AllEntitled (lose env job world).1
  unfolding lose
  lose-AllEntitled world safe =
      next-AllEntitled (save env (with_status "lease_lost" job) world) false
        (save-AllEntitled (with_status "lease_lost" job) world safe)

  or_redacted-AllEntitled :
      (o : Outcome (Unit {0}) × World) → AllEntitled o.1 → AllEntitled (or_redacted env job o).1
  unfolding or_redacted
  or_redacted-AllEntitled (returned _, w) safe = safe
  or_redacted-AllEntitled (raised lease_lost, w) safe = safe
  or_redacted-AllEntitled (raised (other name code), w) safe =
      elim (Bool-cases (env.is_value_error name)) [
        | inr os ↦ rw os safe
        | inl value ↦ rw value (
            next-AllEntitled (save env (failed_record "redacted" job) w) true
              (save-AllEntitled (failed_record "redacted" job) w safe))
      ]

  after_fail-AllEntitled :
      (e : Exception) (o : Outcome (Unit {0}) × World)
      → AllEntitled o.1
      → AllEntitled (after_fail env job e o).1
  unfolding after_fail
  after_fail-AllEntitled e (returned _, w) safe =
      or_redacted-AllEntitled _ (save-AllEntitled _ w safe)
  after_fail-AllEntitled e (raised _, w) safe = lose-AllEntitled w safe

  transition-AllEntitled :
      (request : Request) (world : World)
      → IsEntitled request
      → AllEntitled world
      → AllEntitled (transition env request world).1
  unfolding transition
  transition-AllEntitled request world entitled safe =
      All-append IsEntitled world.requests (request ∷ []) safe (entitled, tt)

  conclude-AllEntitled :
      (o : Outcome (Unit {0}) × World) → AllEntitled o.1 → AllEntitled (conclude env job o).1
  unfolding conclude report
  conclude-AllEntitled (returned _, w) safe = safe
  conclude-AllEntitled (raised lease_lost, w) safe = lose-AllEntitled w safe
  conclude-AllEntitled (raised (other name code), w) safe =
      after_fail-AllEntitled (other name code) _ (transition-AllEntitled (fail _) w tt safe)

  attempt-AllEntitled : (world : World) → AllEntitled world → AllEntitled (attempt env job world).1
  unfolding attempt ◌>>=◌ next transition expected
  attempt-AllEntitled world safe =
      let begun = transition-AllEntitled running world tt safe in
      elim (Bool-cases (is_acknowledged (env.transition running) "running")) [
        | inr doubtful ↦ rw doubtful begun
        | inl started ↦ rw started (elim (Outcome-cases (call_handler env job.action)) [
          | inl (e, failing) ↦ rw failing begun
          | inr (result, handled) ↦ rw handled (elim (Bool-cases (keeper_lost env.beats)) [
            | inl gone ↦ rw gone begun
            | inr kept ↦ rw kept (elim (Outcome-cases (check_lease env)) [
              | inl (e, invalid) ↦ rw invalid begun
              | inr (_, valid) ↦
                  let asked =
                    All-append IsEntitled (world.requests ++ running ∷ []) (complete result ∷ [])
                      begun
                      (
                        (
                          started,
                          handled,
                          keeper_lost-IsUnreported env.beats kept,
                          check_lease-IsValidLease env valid,
                        ),
                        tt,
                      ) in
                  rw valid
                    (elim (Bool-cases
                      (is_acknowledged (env.transition (complete result)) "complete")) [
                        | inr doubtful ↦ rw doubtful asked
                        | inl done_ ↦
                            rw done_ (save-AllEntitled (with_status "complete" job) _ asked)
                      ])
            ])
          ])
        ])
      ]

  run_job-AllEntitled : (world : World) → AllEntitled world → AllEntitled (run_job env job world).1
  unfolding run_job next
  run_job-AllEntitled world safe =
      begin-AllEntitled (save env (with_status "running" job) world)
        (save-AllEntitled (with_status "running" job) world safe)
    where
      begin-AllEntitled :
          (o : Outcome (Unit {0}) × World)
          → AllEntitled o.1
          → AllEntitled (next o (λ _ w. conclude env job (attempt env job w))).1
      begin-AllEntitled (returned _, w) safe_ =
          conclude-AllEntitled (attempt env job w) (attempt-AllEntitled w safe_)
      begin-AllEntitled (raised e, w) safe_ = safe_

  -- All requests that were made are due.
  pub record IsSafe (world : World) : Type 0 where
    pub requests : All IsEntitled world.requests

  -- A completion is only asked for when it is due: if that holds of the requests made before, it
  -- holds of all requests after a run that claimed the job, however the run ends: the result is what
  -- the job's handler has returned, the start is acknowledged, the heartbeat after the handler said
  -- that the lease is valid, and so did each one that the keeper's thread got while the handler ran,
  -- up to a reply that is no object, with which the thread ends.
  pub run_once-IsSafe :
      (world : World)
      → env.claim ≡ returned (some job)
      → IsSafe world
      → IsSafe (run_once env world).1
  unfolding run_once start
  run_once-IsSafe world claimed safe = record {
    requests =
        subst (λ (c : Outcome (Option Job)). AllEntitled (start env c world).1) (sym claimed)
          (run_job-AllEntitled world safe.requests);
  }
