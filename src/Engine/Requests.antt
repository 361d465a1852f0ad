-- ===== src/Engine/Requests.antt =====
-- What an operator or an event asks of the engine, up to the call of `dispatch`: `Enqueue` and
-- `RunNow` of internal/engine/engine.go.
pub mod Accepted
mod Tests
use Prim.Native.String.{◌++◌}
use herdr_bots.Base.{
  ℕ, ℤ, String, Bool, true, false, not, ◌&&◌, ◌==◌, List, [], ◌∷◌, Option, none, some, Result, ok,
  err, message, refuse_if, if◌then◌else◌,
}
use herdr_bots.Config.{Definition, Job}
use herdr_bots.Config.Defaults.{is_enabled, unread_limit}
use herdr_bots.Config.Ids.{validate_event_id}
use herdr_bots.Config.Validate.{Config}
use herdr_bots.Store.Schema.{Run, Database, AcceptRequest, AcceptResult, JobState}
use herdr_bots.Store.Jobs.{sync_job_authority}
use herdr_bots.Store.Creation.{enqueue_event, create_manual_run_if_authority, create_canary_run}
use herdr_bots.Engine.Steps.{Stateful, call, value, ◌then◌}
use herdr_bots.Engine.Evaluate.{Outside}

-- The first job with the identifier.
unfoldable pub select_job : String → List Job → Result Job
select_job id [] = err (message "no job of that name")
select_job id (j ∷ js) = let rest = select_job id js in if j.id == id then ok j else rest

unfoldable pub event_answer : Option Run → AcceptResult → Result AcceptResult
event_answer none result = err (message ("event not accepted: " ++ result.outcome))
event_answer (some _) result = ok result

-- `EventNotAcceptedError`, where the store gives an outcome without a run.
unfoldable pub accepted_event : AcceptResult → Result AcceptResult
unfolding event_answer
accepted_event result = event_answer result.run result

module _ (o : Outside) (now : ℕ) where
  abbrev event_accept_request : Job → Definition × String → (event_id : String) → AcceptRequest
  event_accept_request j snapshot event_id = record {
    job_id = j.id;
    job_config_revision = j.revision;
    job_revision = snapshot.1;
    job_enabled = is_enabled j;
    occurrence_key = "event:" ++ event_id;
    definition = snapshot.0;
    trigger = "event";
    scheduled_for = now;
    overlap = j.overlap;
    day_start = (o.day_of j.schedule.timezone now).0;
    day_end = (o.day_of j.schedule.timezone now).1;
    max_runs_per_day = j.limits.max_runs_per_day;
    source_base_revision = "";
    source_revision = "";
    input_context = "";
    now = now;
    max_unread_terminal_runs = unread_limit j.attention;
  }

  -- `Enqueue`
  unfoldable pub enqueue : Result Config → (job_id event_id : String) → Stateful AcceptResult
  enqueue config job_id event_id = value (validate_event_id event_id) then λ _.
      value config then λ c. value (select_job job_id c.jobs) then λ j.
      value (refuse_if (not (j.schedule.kind == "event")) (message "not an event job")) then λ _.
      value (o.snapshot j) then λ snapshot.
      call (
        enqueue_event (o.new_run_id j.id ("event:" ++ event_id))
          (event_accept_request j snapshot event_id))
      then λ result. value (accepted_event result)

  abbrev manual_run_request : Job → Definition × String → AcceptRequest
  manual_run_request j snapshot = record {
    job_id = j.id;
    job_config_revision = j.revision;
    job_revision = snapshot.1;
    job_enabled = is_enabled j;
    occurrence_key = "";
    definition = snapshot.0;
    trigger = "manual";
    scheduled_for = 0;
    overlap = "";
    day_start = 0;
    day_end = 0;
    max_runs_per_day = ℤ.pos 0;
    source_base_revision = "";
    source_revision = "";
    input_context = "";
    now = now;
    max_unread_terminal_runs = unread_limit j.attention;
  }

  -- `RunNow` up to its call of `dispatch`.
  unfoldable pub create_run_now : Result Config → (job_id : String) (canary : Bool) → Stateful Run
  create_run_now config job_id canary = value config then λ c.
      value (select_job job_id c.jobs) then λ j.
      value (
        refuse_if (j.schedule.kind == "event" && not canary)
          (message "an event job runs by hand only as a canary"))
      then λ _. value (o.snapshot j) then λ snapshot.
          call (sync_job_authority j.id j.revision snapshot.1 snapshot.0 (is_enabled j) now)
          then λ _.
              if j.schedule.kind == "event" && canary
              then call
                  (create_canary_run (o.new_run_id j.id "canary") j.id snapshot.1 snapshot.0 now)
              else call (
                  create_manual_run_if_authority (o.new_run_id j.id "manual")
                    (manual_run_request j snapshot))
