-- ===== src/Store/Occurrences.antt =====
-- Admission of occurrences: internal/store/store.go, `AcceptScheduledOccurrence`, `EnqueueEvent`,
-- `acceptOccurrenceTx` and the records of missed occurrences. The identifier of `newRunID` is an
-- argument.
pub mod Steps
pub mod Promises
pub mod Guard
pub mod Accepted
use herdr_bots.Base.{
  ℕ, ◌+◌, ℤ, pos, lt_int, eq_int, String, Bool, true, false, not, ◌&&◌, ◌||◌, Option, none, some,
  List, ◌==◌, is_empty, eqb, ltb, if◌then◌else◌, Result, ok, err, Error, job_revision_changed,
  message, ◌>>=◌, ◌>>◌, refuse_if,
}
use herdr_bots.Store.State
use herdr_bots.Store.PauseReason
use herdr_bots.Store.Schema.{JobState, Run, Occurrence, Database, AcceptRequest, AcceptResult}
use herdr_bots.Store.Table.{
  Body, in_tx, commit, commit_refusal, found, get_job, get_run, get_occurrence, insert_occurrence,
  insert_run, insert_event, lock_authority_writes, lock_occurrence_writes,
}
use herdr_bots.Store.Queries.{day_count, executing_count, queued_count, count_unread_terminal_runs}
use herdr_bots.Store.Jobs.{
  require_job_authority, runnable_refusal, sync_job_authority_tx, update_job,
}

nullable : String → Option String
nullable v = if is_empty v then none else some v

occurrence_row : AcceptRequest → String → Option String → String → Occurrence
occurrence_row req outcome run_id detail = record {
  job_id = req.job_id;
  occurrence_key = req.occurrence_key;
  scheduled_for = req.scheduled_for;
  outcome = outcome;
  run_id = run_id;
  detail = detail;
  created_at = req.now;
  created_unix_nano = req.now;
}

-- `finishOccurrence`, with the run that the caller puts into the result.
finish_occurrence :
    AcceptRequest → String → String → String → Option Run → Database → Body AcceptResult
unfolding occurrence_row nullable
finish_occurrence req outcome detail run_id run d = do
  d' ← insert_occurrence (occurrence_row req outcome (nullable run_id) detail) d
  commit (record { inserted = true; outcome = outcome; run = run; detail = detail }) d'

-- The columns of a new run: those of the INSERT, and the defaults of the table.
unfoldable pub new_run : String → AcceptRequest → String → Option ℕ → Run
new_run id req trigger scheduled_for = record {
  id = id;
  job_id = req.job_id;
  job_revision = req.job_revision;
  definition = req.definition;
  trigger = trigger;
  scheduled_for = scheduled_for;
  state = State.accepted;
  infrastructure_result = "";
  agent_result = "";
  task_verdict = "unverified";
  accepted_at = req.now;
  accepted_unix_nano = req.now;
  updated_at = req.now;
  workspace_id = "";
  pane_id = "";
  branch = "";
  worktree_path = "";
  execution_mode = "agent";
  completion_marker = "";
  source_base_revision = req.source_base_revision;
  source_revision = req.source_revision;
  input_context = req.input_context;
  error_code = "";
  error_detail = "";
  provisioning_owner = "";
  provisioning_lease_until = 0;
  effect_owner = "";
  effect_claim = "";
  effect_kind = "";
  effect_lease_until = 0;
  effect_receipt = "";
  disk_device = "";
  disk_reserve_gib = 0;
  acceptance_lane = "";
  acceptance_reason = "";
  unread = true;
  model_attestation = "";
  input_receipt = "";
  change_receipt = "";
}

-- INSERT INTO runs and its event.
unfoldable pub create_run : Run → String → Database → Result Database
create_run run detail d = do
  d' ← insert_run run d
  ok (insert_event run.id "" State.accepted run.accepted_at "" detail d')

-- The `Run` value that Go builds beside the row leaves the execution mode empty.
unfoldable pub returned_run : Run → Run
returned_run run = record run { execution_mode = "" }

admit_occurrence : String → AcceptRequest → Database → Body AcceptResult
admit_occurrence id req d = do
  let run = new_run id req req.trigger (some req.scheduled_for)
  d' ← create_run run "occurrence accepted" d
  finish_occurrence req "accepted" "" id (some (returned_run run)) d'

-- The zero time of `DayEnd` stands for a day of 24 hours.
unfoldable pub day_end_of : AcceptRequest → ℕ
day_end_of req = if eqb req.day_end 0 then req.day_start + 86_400_000_000_000 else req.day_end

-- Which rule skips an occurrence: its outcome and detail.
unfoldable pub skip_reason : AcceptRequest → Database → Option (String × String)
unfolding day_end_of
skip_reason req d =
    if not
      (lt_int (pos (day_count req.job_id req.day_start (day_end_of req) d)) req.max_runs_per_day)
    then some ("skipped_limit", "daily run limit reached")
    else if req.overlap == "forbid"
        && ltb 0 (executing_count req.job_id d + queued_count req.job_id d)
    then some ("skipped_overlap", "previous run is still active")
    else if req.overlap == "queue_one" && ltb 0 (queued_count req.job_id d)
    then some ("skipped_overlap", "one run is already queued")
    else none

unfoldable pub pause_unread : ℕ → JobState → JobState
pause_unread now j = record j {
  paused = true;
  pause_reason = PauseReason.unread_terminal_runs;
  pause_at = now;
  updated_at = now;
}

-- Whether the unread-work guard trips.
unfoldable pub is_guard_tripped : AcceptRequest → Database → Bool
is_guard_tripped req d =
    lt_int (pos 0) req.max_unread_terminal_runs
    && not (lt_int (pos (count_unread_terminal_runs req.job_id d)) req.max_unread_terminal_runs)

abbrev unread_detail : String
unread_detail =
    "unread terminal runs reached the configured limit; job paused until explicit resume"

admit_or_skip : Option (String × String) → String → AcceptRequest → Database → Body AcceptResult
unfolding admit_occurrence finish_occurrence
admit_or_skip none id req d = admit_occurrence id req d
admit_or_skip (some (outcome, detail)) id req d = finish_occurrence req outcome detail "" none d

decide_occurrence : String → AcceptRequest → Database → Body AcceptResult
unfolding admit_or_skip
decide_occurrence id req d =
    if is_guard_tripped req d
    then commit
        (record {
          inserted = false;
          outcome = "paused_unread_limit";
          run = none;
          detail = unread_detail;
        })
        (update_job req.job_id (pause_unread req.now) d).1
    else admit_or_skip (skip_reason req d) id req d

-- The run of an occurrence that was accepted must be found.
unfoldable pub run_of : Option String → Database → Result (Option Run)
run_of none d = ok none
run_of (some id) d = do r ← found (get_run id d); ok (some r)

unfoldable pub existing_result : Occurrence → Database → Result AcceptResult
existing_result o d = do
  run ← run_of o.run_id d
  ok (record { inserted = false; outcome = o.outcome; run = run; detail = o.detail })

-- `existingOccurrence`
unfoldable pub existing_occurrence : Option Occurrence → Database → Result (Option AcceptResult)
unfolding existing_result run_of
existing_occurrence none d = ok none
existing_occurrence (some o) d = do r ← existing_result o d; ok (some r)

-- An existing occurrence ends the transaction with no commit, in the database that it began in.
accept_existing :
    Option AcceptResult → Database → String → AcceptRequest → Database → Body AcceptResult
unfolding decide_occurrence
accept_existing (some r) start id req d = commit r start
accept_existing none start id req d = decide_occurrence id req d

unfoldable pub accept_occurrence_tx :
    Database → String → AcceptRequest → Database → Body AcceptResult
unfolding accept_existing existing_occurrence
accept_occurrence_tx start id req d = do
  existing ← existing_occurrence (get_occurrence req.job_id req.occurrence_key d) d
  accept_existing existing start id req d

unfoldable pub accept_occurrence :
    String → AcceptRequest → Database → Result AcceptResult × Database
unfolding accept_occurrence_tx
accept_occurrence id req d = in_tx d do
  refuse_if (is_empty req.occurrence_key) (message "occurrence key is required")
  refuse_if (not (eq_int req.max_unread_terminal_runs (pos 0)))
      (message "unread terminal-run guard requires authority-fenced admission")
  lock_occurrence_writes d
  accept_occurrence_tx d id req d

unfoldable pub accept_scheduled_occurrence :
    String → AcceptRequest → Database → Result AcceptResult × Database
unfolding accept_occurrence_tx
accept_scheduled_occurrence id req d = in_tx d do
  refuse_if (is_empty req.occurrence_key || req.trigger == "event")
      (message "scheduled acceptance requires a non-event occurrence key")
  lock_authority_writes d
  lock_occurrence_writes d
  require_job_authority req.job_id req.job_config_revision req.job_revision true d
  accept_occurrence_tx d id req d

-- INSERT OR IGNORE INTO occurrences: whether a row was inserted. A missing job is an error.
unfoldable pub insert_or_ignore : Option Occurrence → Occurrence → Database → Body Bool
insert_or_ignore (some _) o d = commit false d
insert_or_ignore none o d = do d' ← insert_occurrence o d; commit true d'

unfoldable pub record_occurrence_if_authority :
    AcceptRequest → String → String → Database → Result Bool × Database
unfolding insert_or_ignore occurrence_row
record_occurrence_if_authority req outcome detail d = in_tx d do
  refuse_if (is_empty req.occurrence_key) (message "occurrence key is required")
  lock_authority_writes d
  lock_occurrence_writes d
  require_job_authority req.job_id req.job_config_revision req.job_revision true d
  insert_or_ignore (get_occurrence req.job_id req.occurrence_key d)
      (occurrence_row req outcome none detail) d
