-- ===== src/Engine/Evaluate/Tests.antt =====
-- An evaluation of one nightly job, on a concrete store.
use herdr_bots.Base.{
  ◌+◌, ℤ, ◌≡◌, refl, Option, none, some, [], ◌∷◌, Result, ok, err, message, length,
}
use herdr_bots.Store.Jobs.{
  sync_job_authority, sync_job_authority_tx, is_global_paused, require_job_authority,
  runnable_refusal, set_cursor_if_authority, update_job,
}
use herdr_bots.Store.Table.{
  in_tx, lock_authority_writes, lock_occurrence_writes, get_metadata, get_job, put_job, find_run,
  get_occurrence, get_run, insert_event, insert_job, insert_occurrence, insert_run, lock_row,
}
use herdr_bots.Base.{◌>>=◌, refuse_if, count_by, filter_by}
use herdr_bots.Config.Defaults.{is_enabled, unread_limit}
use herdr_bots.Engine.Steps.{returning}
use herdr_bots.Schedule.{between}
use herdr_bots.Text.{is_any_of}
use herdr_bots.Store.Occurrences.{
  accept_scheduled_occurrence, create_run, day_end_of, existing_occurrence, is_guard_tripped,
  new_run, returned_run, skip_reason,
}
use herdr_bots.Store.Queries.{count_unread_terminal_runs, day_count, executing_count, queued_count}
use herdr_bots.Store.State.{is_executing, is_terminal}
use herdr_bots.Config.Validate.{Config}
use herdr_bots.Store.Schema.{Database}
use herdr_bots.Store.Tests.{nightly, snapshot, holding}
use herdr_bots.Engine.Steps.Fenced.{IsFencedRun}
use herdr_bots.Engine.Evaluate.{Outside, evaluate}
use herdr_bots.Engine.Evaluate.Fenced.{evaluate-IsFencedRun}

-- The schedule fires every 50 ns.
abbrev outside : Outside
outside = record {
  git_output = λ repository args. err (message "no git");
  snapshot = λ j. ok (snapshot, "hash");
  parse_cron = λ expression. some (λ t. t + 50);
  parse_at = λ text. none;
  started = λ late. "late";
  due_ago = λ late. "late";
  wall_clock = λ timezone t. "02:00";
  day_of = λ timezone t. (0, 1000);
  new_run_id = λ job_id key. "r1";
  clock = 100;
}

abbrev config : Config
config = record {
  version = ℤ.pos 1;
  capacity = record { max_concurrent_runs = none; min_free_disk_gib = none };
  jobs = nightly ∷ [];
}

abbrev left_by : {A : Type 0} → Option (Result A × Database) → Database
left_by none = holding []
left_by (some (r, d)) = d

abbrev evaluated : Database
evaluated = left_by (evaluate outside 100 (ok config) (holding []))

nightly_starts : evaluate outside 100 (ok config) (holding []) ≡ some (ok tt, evaluated)
unfolding evaluate sync_job_authority sync_job_authority_tx is_global_paused require_job_authority
    runnable_refusal set_cursor_if_authority update_job in_tx lock_authority_writes
    lock_occurrence_writes get_metadata get_job put_job find_run get_occurrence get_run insert_event
    insert_job insert_occurrence insert_run lock_row ◌>>=◌ refuse_if count_by filter_by is_enabled
    unread_limit returning between is_any_of accept_scheduled_occurrence create_run day_end_of
    existing_occurrence is_guard_tripped new_run returned_run skip_reason count_unread_terminal_runs
    day_count executing_count queued_count is_executing is_terminal
nightly_starts = refl

one_run : length (evaluated.runs) ≡ 1
unfolding evaluate sync_job_authority sync_job_authority_tx is_global_paused require_job_authority
    runnable_refusal set_cursor_if_authority update_job in_tx lock_authority_writes
    lock_occurrence_writes get_metadata get_job put_job find_run get_occurrence get_run insert_event
    insert_job insert_occurrence insert_run lock_row ◌>>=◌ refuse_if count_by filter_by is_enabled
    unread_limit returning between is_any_of accept_scheduled_occurrence create_run day_end_of
    existing_occurrence is_guard_tripped new_run returned_run skip_reason count_unread_terminal_runs
    day_count executing_count queued_count is_executing is_terminal
one_run = refl

nightly-IsFencedRun : IsFencedRun (holding []) evaluated
nightly-IsFencedRun =
    evaluate-IsFencedRun outside 100 (ok config) (holding []) evaluated (ok tt) nightly_starts
