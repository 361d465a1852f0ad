-- ===== src/Store/Creation.antt =====
-- The other ways into the queue: `RecordOccurrence`, `EnqueueEvent`, `CreateManualRunIfAuthority`
-- and `createAttendedRun` of internal/store/store.go. The identifier of `newRunID` is an argument.
pub mod Steps
pub mod Retry
use herdr_bots.Base.{
  ℕ, ℤ, pos, lt_int, String, Bool, true, false, not, ◌&&◌, ◌||◌, Option, none, some, ◌==◌, is_empty,
  if◌then◌else◌, Result, ok, err, Error, job_revision_changed, job_unread_paused, message, ◌>>=◌,
  ◌>>◌, refuse_if,
}
use herdr_bots.Config.{Definition}
use herdr_bots.Store.Schema.{Run, Occurrence, Database, AcceptRequest, AcceptResult}
use herdr_bots.Store.Table.{
  Body, in_tx, commit, commit_refusal, found, get_job, get_occurrence, lock_authority_writes,
  lock_occurrence_writes,
}
use herdr_bots.Store.Jobs.{
  require_job_authority, runnable_refusal, sync_job_authority_tx, update_job,
}
use herdr_bots.Store.Occurrences.{
  insert_or_ignore, existing_occurrence, accept_occurrence_tx, new_run, create_run, returned_run,
  is_guard_tripped, pause_unread,
}

unfoldable pub record_occurrence :
    String → String → ℕ → ℕ → String → String → Database → Result Bool × Database
record_occurrence job_id key at now outcome detail d = in_tx d (
    insert_or_ignore (get_occurrence job_id key d)
      (record {
        job_id = job_id;
        occurrence_key = key;
        scheduled_for = at;
        outcome = outcome;
        run_id = none;
        detail = detail;
        created_at = now;
        created_unix_nano = now;
      })
      d)

unfoldable pub record_missed : String → String → ℕ → ℕ → String → Database → Result Bool × Database
record_missed job_id key at now detail = record_occurrence job_id key at now "missed" detail

is_revision_changed : Error → Bool
is_revision_changed job_revision_changed = true
is_revision_changed _ = false

-- A retry of an event that exists: the synchronization is kept if it succeeds, and dropped with no
-- error if the revision conflicts; any other error is returned.
retry_event : AcceptResult → Result Database → Database → Body AcceptResult
retry_event existing (ok d') d = commit existing d'
retry_event existing (err e) d = if is_revision_changed e then commit existing d else err e

refuse_or : Result (Unit {0}) → Database → Body AcceptResult → Body AcceptResult
refuse_or (err e) d m = commit_refusal e d
refuse_or (ok _) d m = m

-- A new event: the synchronized authority is committed also where the event is refused.
new_event : String → AcceptRequest → Database → Body AcceptResult
unfolding refuse_or
new_event id req d = do
  d' ←
      sync_job_authority_tx req.job_id req.job_config_revision req.job_revision req.definition
        req.job_enabled req.now d
  job ← found (get_job req.job_id d')
  refuse_or (runnable_refusal job d') d' (accept_occurrence_tx d id req d')

enqueue_existing : Option AcceptResult → String → AcceptRequest → Database → Body AcceptResult
unfolding retry_event is_revision_changed new_event
enqueue_existing (some existing) id req d =
    retry_event existing
      (sync_job_authority_tx req.job_id req.job_config_revision req.job_revision req.definition
        req.job_enabled req.now d)
      d
enqueue_existing none id req d = new_event id req d

unfoldable pub enqueue_event : String → AcceptRequest → Database → Result AcceptResult × Database
unfolding enqueue_existing
enqueue_event id req d = in_tx d do
  refuse_if (not (req.trigger == "event") || is_empty req.occurrence_key)
      (message "event enqueue requires an event occurrence key and trigger")
  lock_authority_writes d
  lock_occurrence_writes d
  existing ← existing_occurrence (get_occurrence req.job_id req.occurrence_key d) d
  enqueue_existing existing id req d

-- A manual run has no source context.
manual_request : AcceptRequest → AcceptRequest
manual_request req = record req {
  source_base_revision = "";
  source_revision = "";
  input_context = "";
}

admit_attended : Run → String → Database → Body Run
admit_attended run detail d = do d' ← create_run run detail d; commit (returned_run run) d'

unfoldable pub create_manual_run_if_authority :
    String → AcceptRequest → Database → Result Run × Database
unfolding admit_attended manual_request
create_manual_run_if_authority id req d = in_tx d do
  lock_authority_writes d
  require_job_authority req.job_id req.job_config_revision req.job_revision true d
  if is_guard_tripped req d
      then commit_refusal job_unread_paused (update_job req.job_id (pause_unread req.now) d).1
      else admit_attended (new_run id (manual_request req) "manual" none) "manual run accepted" d

attended_request : String → String → Definition → ℕ → AcceptRequest
attended_request job_id revision definition now = record {
  job_id = job_id;
  job_config_revision = pos 0;
  job_revision = revision;
  job_enabled = false;
  occurrence_key = "";
  definition = definition;
  trigger = "";
  scheduled_for = 0;
  overlap = "";
  day_start = 0;
  day_end = 0;
  max_runs_per_day = pos 0;
  source_base_revision = "";
  source_revision = "";
  input_context = "";
  now = now;
  max_unread_terminal_runs = pos 0;
}

attended_detail : String → String
attended_detail trigger =
    if trigger == "manual" then "manual run accepted" else "canary run accepted"

unfoldable pub create_attended_run :
    String → String → String → Definition → String → ℕ → Database → Result Run × Database
unfolding admit_attended attended_request attended_detail
create_attended_run id job_id revision definition trigger now d = in_tx d do
  refuse_if (not (trigger == "manual") && not (trigger == "canary"))
      (message "unsupported attended trigger")
  admit_attended (new_run id (attended_request job_id revision definition now) trigger none)
      (attended_detail trigger) d

unfoldable pub create_manual_run :
    String → String → String → Definition → ℕ → Database → Result Run × Database
create_manual_run id job_id revision definition =
    create_attended_run id job_id revision definition "manual"

unfoldable pub create_canary_run :
    String → String → String → Definition → ℕ → Database → Result Run × Database
create_canary_run id job_id revision definition =
    create_attended_run id job_id revision definition "canary"
