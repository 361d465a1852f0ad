-- ===== src/Engine/Evaluate.antt =====
-- One evaluation of the schedules, up to its call of `Dispatch`: `Evaluate` of
-- internal/engine/engine.go, over the store's methods and the schedule's `Between`.
pub mod Fenced
mod Tests
use Prim.Native.String.{◌++◌}
use herdr_bots.Base.{
  ℕ, suc, ℤ, String, Bool, true, false, not, ◌&&◌, ◌||◌, ◌==◌, is_empty, List, [], ◌∷◌, Option,
  none, some, Result, ok, err, message, refuse_if, ◌>>=◌, ◌>>◌, if◌then◌else◌,
}
use herdr_bots.Config.{Definition, Job}
use herdr_bots.Config.Defaults.{is_enabled, unread_limit}
use herdr_bots.Schedule
use herdr_bots.Config.Validate.{Config}
use herdr_bots.Schedule.{between}
use herdr_bots.Store.Schema.{JobState, Database, AcceptRequest, AcceptResult}
use herdr_bots.Store.Jobs.{
  sync_job_authority, is_global_paused, set_cursor_if_authority, set_completed_if_authority,
}
use herdr_bots.Store.Occurrences.{accept_scheduled_occurrence, record_occurrence_if_authority}
use herdr_bots.Engine.Source.{SourceInput, no_source, source_input}
use herdr_bots.Engine.Steps.{Stateful, call, value, returning, ◌then◌}

-- What the evaluation takes from outside the repository.
pub record Outside : Type 0 where
  -- The program git.
  pub git_output : (repository : String) → List String → Result String
  -- `Job.Snapshot`: the encoded job and its hash.
  pub snapshot : Job → Result (Definition × String)
  -- The cron parser's schedule of an expression, and `time.Parse` of an instant.
  pub parse_cron : String → Option (ℕ → ℕ)
  pub parse_at : String → Option ℕ
  -- The texts of a lateness.
  pub started : ℕ → String
  pub due_ago : ℕ → String
  -- The format of an instant in a time zone, and the two ends of its day there.
  pub wall_clock : (timezone : String) → ℕ → String
  pub day_of : (timezone : String) → ℕ → ℕ × ℕ
  -- The identifier drawn for the run of a job's occurrence.
  pub new_run_id : (job_id key : String) → String
  -- The clock that the store reads.
  pub clock : ℕ

module _ (o : Outside) (now : ℕ) where
  abbrev occurrence_request :
      Job → Definition × String → Schedule.Occurrence → SourceInput → AcceptRequest
  occurrence_request j snapshot occ source = record {
    job_id = j.id;
    job_config_revision = j.revision;
    job_revision = snapshot.1;
    job_enabled = is_enabled j;
    occurrence_key = occ.key;
    definition = snapshot.0;
    trigger = occ.trigger;
    scheduled_for = occ.scheduled_for;
    overlap = j.overlap;
    day_start = (o.day_of j.schedule.timezone now).0;
    day_end = (o.day_of j.schedule.timezone now).1;
    max_runs_per_day = j.limits.max_runs_per_day;
    source_base_revision = source.base_revision;
    source_revision = source.revision;
    input_context = source.context;
    now = now;
    max_unread_terminal_runs = unread_limit j.attention;
  }

  -- A one-shot job is complete behind its occurrence.
  unfoldable pub complete_once : Job → (hash : String) → Stateful (Unit {0})
  unfolding call value
  complete_once j hash =
      if j.schedule.kind == "once"
      then call (set_completed_if_authority j.id j.revision hash true o.clock)
      else value (ok tt)

  unfoldable pub record_and_complete :
      Job → Definition × String → Schedule.Occurrence → (outcome detail : String) → Stateful Bool
  unfolding complete_once ◌then◌
  record_and_complete j snapshot occ outcome detail =
      call (
        record_occurrence_if_authority (occurrence_request j snapshot occ no_source) outcome detail)
      then λ _. complete_once j snapshot.1 then λ _. value (ok false)

  unfoldable pub accept_due :
      Job → Definition × String → Schedule.Occurrence → SourceInput → Stateful Bool
  unfolding complete_once ◌then◌
  accept_due j snapshot occ source =
      call (
        accept_scheduled_occurrence (o.new_run_id j.id occ.key)
          (occurrence_request j snapshot occ source))
      then λ result.
          if result.outcome == "paused_unread_limit"
          then value (ok true)
          else complete_once j snapshot.1 then λ _. value (ok false)

  source_of_job : Job → (hash : String) → Stateful SourceInput
  unfolding value
  source_of_job j hash d =
      value (if j.run_if_changed then source_input o.git_output j hash d else ok no_source) d

  -- One due or missed occurrence; whether the guard of unread runs paused the job.
  unfoldable pub evaluate_occurrence :
      Job → Definition × String → Schedule.Occurrence → Stateful Bool
  unfolding record_and_complete accept_due source_of_job ◌then◌
  evaluate_occurrence j snapshot occ =
      if occ.outcome == "missed"
      then record_and_complete j snapshot occ "missed" occ.detail
      else source_of_job j snapshot.1 then λ source.
          if j.run_if_changed
            && not (is_empty source.base_revision)
            && source.base_revision == source.revision
          then record_and_complete j snapshot occ "skipped_unchanged"
              ("source revision unchanged at " ++ source.revision)
          else accept_due j snapshot occ source

  unfoldable pub evaluate_occurrences :
      Job → Definition × String → List Schedule.Occurrence → Stateful Bool
  unfolding evaluate_occurrence ◌then◌
  evaluate_occurrences j snapshot [] = value (ok false)
  evaluate_occurrences j snapshot (occ ∷ occs) = evaluate_occurrence j snapshot occ then λ paused.
      if paused then value (ok true) else evaluate_occurrences j snapshot occs

  due_occurrences : Job → (cursor : ℕ) → Stateful (List Schedule.Occurrence)
  due_occurrences j cursor d = returning d (
      between o.started o.due_ago (o.wall_clock j.schedule.timezone) now
        (o.parse_cron j.schedule.expression) (o.parse_at j.schedule.at) j (suc (suc now)) cursor)

  move_cursor : Job → (hash : String) → (require_runnable : Bool) → Stateful (Unit {0})
  unfolding call
  move_cursor j hash require_runnable =
      call (set_cursor_if_authority j.id j.revision hash now require_runnable o.clock)

  -- The body of the loop over the jobs. Disabled time is discarded; paused time is held.
  unfoldable pub evaluate_job : (global_pause : Bool) → Job → Stateful (Unit {0})
  unfolding evaluate_occurrences due_occurrences move_cursor ◌then◌ value call
  evaluate_job global_pause j = value (o.snapshot j) then λ snapshot.
      call (sync_job_authority j.id j.revision snapshot.1 snapshot.0 (is_enabled j) now)
      then λ state.
          if not (is_enabled j)
          then move_cursor j snapshot.1 false
          else if state.completed || state.paused || global_pause
          then value (ok tt)
          else due_occurrences j state.cursor then λ occs.
              evaluate_occurrences j snapshot occs then λ paused.
              if paused then value (ok tt) else move_cursor j snapshot.1 true

  unfoldable pub evaluate_jobs : (global_pause : Bool) → List Job → Stateful (Unit {0})
  unfolding evaluate_job ◌then◌
  evaluate_jobs global_pause [] = value (ok tt)
  evaluate_jobs global_pause (j ∷ js) =
      evaluate_job global_pause j then λ _. evaluate_jobs global_pause js

  -- `Evaluate` up to `Dispatch`, on what `config.Load` gives; the global pause is read once.
  unfoldable pub evaluate : Result Config → Stateful (Unit {0})
  unfolding evaluate_jobs
  evaluate config d = (value config then λ c. evaluate_jobs (is_global_paused d) c.jobs) d
