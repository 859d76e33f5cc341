-- ===== src/JobRunner.antt =====
-- windows_agent/job_runner.py: one run of the agent's job loop, `JobRunner.run_once`. The control
-- plane, the handlers and the disk are an environment that answers each call; what the run leaves
-- behind is the local state file and the transitions that it asked the control plane for.
pub mod Lease
pub mod Truthful
pub mod Entitled
use tradejournal_mt5_cloud_w.Prelude.{
  String, Bool, true, false, Option, none, some, List, [], ◌∷◌, ◌++◌, str_eq, if◌then◌else◌,
}
use tradejournal_mt5_cloud_w.Prelude.Dict.{Dict, lookup, insert}
use tradejournal_mt5_cloud_w.Value.{Value, Row, null, str, get, truthy}
use tradejournal_mt5_cloud_w.Value.Compare.{eq}
use tradejournal_mt5_cloud_w.StateStore.{
  Exception, lease_lost, other, Outcome, returned, raised, Write, atomic_json,
}

-- What a call of the control plane ends with.
pub data Reply : Type 0 where
  failure : Exception → Reply
  no_object : Reply
  object : Row → Reply

-- The transition that is asked for, with its result.
pub data Request : Type 0 where
  running : Request
  complete : Row → Request
  fail : String → Request

pub record Job : Type 0 where
  pub job_id : String
  pub action : String
  pub connection_id : String
  pub lease_id : String

pub record Environment : Type 0 where
  pub claim : Outcome (Option Job)
  pub transition : Request → Reply
  -- The heartbeats of the background thread while the handler runs, and the last one.
  pub beats : List Reply
  pub heartbeat : Reply
  pub handlers : Dict (Outcome Row)
  pub dumps : Row → String
  pub lower : String → String
  pub disk : Row → Write
  -- Whether the exception class of this name is ValueError or derives from it.
  pub is_value_error : String → Bool

pub record World : Type 0 where
  pub file : Option Row
  pub requests : List Request

abbrev pub Action : Type 0 → Type 0
Action A = World → Outcome A × World

unfoldable pub next : {A B : Type 0} → Outcome A × World → (A → Action B) → Outcome B × World
next (returned a, world) continue = continue a world
next (raised e, world) continue = (raised e, world)

infixl 5 ◌>>=◌
unfoldable pub ◌>>=◌ : {A B : Type 0} → Action A → (A → Action B) → Action B
unfolding next
(first >>= continue) world = next (first world) continue

abbrev pub done : {A : Type 0} → A → Action A
done a world = (returned a, world)

abbrev pub throw : {A : Type 0} → Exception → Action A
throw e world = (raised e, world)

abbrev pub to_file : World → Outcome (Unit {0}) × Option Row → Outcome (Unit {0}) × World
to_file world (outcome, file) = (outcome, record { file = file; requests = world.requests })

-- `{**minimal, "status": status}`
unfoldable pub with_status : String → Job → Row
with_status status job =
    ("job_id", str job.job_id)
    ∷ ("action", str job.action)
    ∷ ("connection_id", str job.connection_id)
    ∷ ("lease_id", str job.lease_id)
    ∷ ("status", str status)
    ∷ []

-- `{**minimal, "status": "failed", "error": name}`
unfoldable pub failed_record : String → Job → Row
failed_record name job = with_status "failed" job ++ ("error", str name) ∷ []

-- The status that the control plane confirms a request with.
unfoldable pub expected : Request → String
expected running = "running"
expected (complete result) = "complete"
expected (fail error_code) = "failed"

-- `_require_transition`, as a test of the reply.
unfoldable pub is_acknowledged : Reply → String → Bool
is_acknowledged (failure e) status = false
is_acknowledged no_object status = false
is_acknowledged (object response) status =
    if eq (get "error_code" response) (str "lease_lost")
    then false
    else eq (get "status" response) (str status)

-- `response.get("lease_valid", False)`
unfoldable pub is_lease_valid : Row → Bool
is_lease_valid response = truthy (get "lease_valid" response)

-- `_LeaseKeeper._run`: whether the thread has set `_lease_lost`. An exception or an invalid lease
-- sets it; a reply that is no object ends the thread and leaves it.
unfoldable pub keeper_lost : List Reply → Bool
keeper_lost [] = false
keeper_lost (failure e ∷ beats) = true
keeper_lost (no_object ∷ beats) = false
keeper_lost (object response ∷ beats) = if is_lease_valid response then keeper_lost beats else true

-- `getattr(exc, "error_code", None) or type(exc).__name__.lower()`
unfoldable pub error_code : (String → String) → Exception → String
error_code lower lease_lost = lower "LeaseLost"
error_code lower (other name none) = lower name
error_code lower (other name (some code)) = if str_eq code "" then lower name else code

unfoldable pub class_name : Exception → String
class_name lease_lost = "LeaseLost"
class_name (other name code) = name

module _ (env : Environment) where
  unfoldable pub save : Row → Action (Unit {0})
  save row world = to_file world (atomic_json env.dumps env.lower env.disk row world.file)

  -- `_transition`: whatever leaves the acknowledgement uncertain is a lost lease.
  unfoldable pub transition : Request → Action (Unit {0})
  transition request world = (
    if is_acknowledged (env.transition request) (expected request)
        then returned tt
        else raised lease_lost,
    record { file = world.file; requests = world.requests ++ request ∷ [] },
  )

  -- `self.handlers[action](job)`
  unfoldable pub call_handler : String → Outcome Row
  call_handler action = elim (lookup action env.handlers) [
    | none ↦ raised (other "KeyError" none)
    | some outcome ↦ outcome
  ]

  abbrev handle : Job → Action Row
  handle job world = (call_handler job.action, world)

  -- `keeper.require_valid()`
  abbrev require_valid : Action (Unit {0})
  require_valid = if keeper_lost env.beats then throw lease_lost else done tt

  -- The heartbeat after the handler.
  unfoldable pub check_lease : Outcome (Unit {0})
  check_lease = elim env.heartbeat [
    | failure e ↦ raised e
    | no_object ↦ raised (other "AttributeError" none)
    | object response ↦ if is_lease_valid response then returned tt else raised lease_lost
  ]

  -- The body of the `try`.
  unfoldable pub attempt : Job → Action (Unit {0})
  attempt job = do
    _ ← transition running
    result ← handle job
    _ ← require_valid
    _ ← (λ (world : World). (check_lease, world))
    _ ← transition (complete result)
    save (with_status "complete" job)

  -- After the write of the local record of a failure: a ValueError, which is how `atomic_json`
  -- refuses a class name that looks like a secret, writes the record without it.
  unfoldable pub or_redacted : Job → Outcome (Unit {0}) × World → Outcome Bool × World
  or_redacted job (returned _, world) = (returned true, world)
  or_redacted job (raised lease_lost, world) = (raised lease_lost, world)
  or_redacted job (raised (other name code), world) =
      if env.is_value_error name
      then next (save (failed_record "redacted" job) world) (λ _. done true)
      else (raised (other name code), world)

  unfoldable pub lose : Job → Action Bool
  lose job world = next (save (with_status "lease_lost" job) world) (λ _. done false)

  -- After the transition to `fail`.
  unfoldable pub after_fail : Job → Exception → Outcome (Unit {0}) × World → Outcome Bool × World
  after_fail job e (returned _, world) =
      or_redacted job (save (failed_record (class_name e) job) world)
  after_fail job e (raised _, world) = lose job world

  unfoldable pub report : Job → Exception → Action Bool
  report job e world = after_fail job e (transition (fail (error_code env.lower e)) world)

  -- The `except` clauses, and the return.
  unfoldable pub conclude : Job → Outcome (Unit {0}) × World → Outcome Bool × World
  conclude job (returned _, world) = (returned true, world)
  conclude job (raised lease_lost, world) = lose job world
  conclude job (raised e, world) = report job e world

  -- The work on a claimed job.
  unfoldable pub run_job : Job → Action Bool
  run_job job world =
      next (save (with_status "running" job) world) (λ _ world'. conclude job (attempt job world'))

  -- The run from what `claim` ends with.
  unfoldable pub start : Outcome (Option Job) → Action Bool
  start (raised e) world = (raised e, world)
  start (returned none) world = (returned false, world)
  start (returned (some job)) world = run_job job world

  unfoldable pub run_once : Action Bool
  run_once world = start env.claim world
