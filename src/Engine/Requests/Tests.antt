-- ===== src/Engine/Requests/Tests.antt =====
-- An event of one event job, on a concrete store.
use herdr_bots.Base.{ℤ, false, ◌≡◌, refl, Option, none, some, [], ◌∷◌, Result, ok, err, message}
use herdr_bots.Config.{Job}
use herdr_bots.Store.Jobs.{
  sync_job_authority_tx, is_global_paused, require_job_authority, runnable_refusal, update_job,
}
use herdr_bots.Store.Table.{
  in_tx, lock_authority_writes, lock_occurrence_writes, get_metadata, get_job, put_job, find_run,
  get_occurrence, get_run, insert_event, insert_job, insert_occurrence, insert_run, lock_row,
}
use herdr_bots.Base.{◌>>=◌, refuse_if, count_by, filter_by}
use herdr_bots.Config.Defaults.{is_enabled, unread_limit}
use herdr_bots.Config.Ids.{validate_event_id}
use herdr_bots.Text.{has_prefix, has_suffix, contains}
use herdr_bots.Store.Occurrences.{
  accept_occurrence_tx, create_run, day_end_of, existing_occurrence, is_guard_tripped, new_run,
  returned_run, skip_reason,
}
use herdr_bots.Store.Creation.{enqueue_event}
use herdr_bots.Store.Queries.{count_unread_terminal_runs, day_count, executing_count, queued_count}
use herdr_bots.Store.State.{is_executing, is_terminal}
use herdr_bots.Engine.Steps.{call, value, ◌then◌, continue}
use herdr_bots.Config.Validate.{Config}
use herdr_bots.Store.Schema.{Database, AcceptResult}
use herdr_bots.Store.Tests.{nightly, snapshot, holding}
use herdr_bots.Engine.Evaluate.{Outside}
use herdr_bots.Engine.Requests.{enqueue, select_job, accepted_event}
use herdr_bots.Engine.Requests.Accepted.{IsEnqueued, enqueue-IsEnqueued}

abbrev outside : Outside
outside = record {
  git_output = λ repository args. err (message "no git");
  snapshot = λ j. ok (snapshot, "hash");
  parse_cron = λ expression. none;
  parse_at = λ text. none;
  started = λ late. "late";
  due_ago = λ late. "late";
  wall_clock = λ timezone t. "02:00";
  day_of = λ timezone t. (0, 1000);
  new_run_id = λ job_id key. "r1";
  clock = 100;
}

abbrev on_event : Job
on_event = record nightly {
  schedule = record {
    kind = "event";
    expression = "";
    at = "";
    timezone = "UTC";
    catch_up_grace_minutes = none;
  };
}

abbrev config : Config
config = record {
  version = ℤ.pos 1;
  capacity = record { max_concurrent_runs = none; min_free_disk_gib = none };
  jobs = on_event ∷ [];
}

abbrev refused : AcceptResult
refused = record { inserted = false; outcome = "refused"; run = none; detail = "" }

abbrev answer_of : Option (Result AcceptResult × Database) → AcceptResult × Database
answer_of none = (refused, holding [])
answer_of (some (err e, d)) = (refused, d)
answer_of (some (ok result, d)) = (result, d)

abbrev answer : AcceptResult × Database
answer = answer_of (enqueue outside 100 (ok config) "nightly" "push-1" (holding []))

event_starts :
    enqueue outside 100 (ok config) "nightly" "push-1" (holding []) ≡ some (ok answer.0, answer.1)
unfolding enqueue select_job accepted_event sync_job_authority_tx is_global_paused
    require_job_authority runnable_refusal update_job in_tx lock_authority_writes
    lock_occurrence_writes get_metadata get_job put_job find_run get_occurrence get_run insert_event
    insert_job insert_occurrence insert_run lock_row ◌>>=◌ refuse_if count_by filter_by is_enabled
    unread_limit validate_event_id has_prefix has_suffix contains create_run day_end_of
    existing_occurrence is_guard_tripped new_run returned_run skip_reason enqueue_event
    count_unread_terminal_runs day_count executing_count queued_count is_executing is_terminal call
    value ◌then◌ continue accept_occurrence_tx
event_starts = refl

push-IsEnqueued : IsEnqueued outside 100 config "nightly" "push-1" answer.0 (holding []) answer.1
push-IsEnqueued =
    enqueue-IsEnqueued outside 100 config "nightly" "push-1" answer.0 (holding []) answer.1
      event_starts
