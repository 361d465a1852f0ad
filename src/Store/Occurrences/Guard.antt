-- ===== src/Store/Occurrences/Guard.antt =====
-- The guard against unread work: `enforceUnreadGuardTx` of internal/store/store.go.
use herdr_bots.Base.{
  ℕ, ◌≤◌, ◌<◌, pos, String, true, false, ◌==◌, is_empty, ◌≡◌, refl, none, some, Result, ok, ◌>>=◌,
  refuse_if, arith,
}
use herdr_bots.Store.PauseReason
use herdr_bots.Store.Schema.{JobState, Database, AcceptRequest, AcceptResult}
use herdr_bots.Store.Table.{
  in_tx, get_job, put_job, get_occurrence, lock_authority_writes, lock_occurrence_writes,
}
use herdr_bots.Store.Table.JobLaws.{get_job-put_job}
use herdr_bots.Store.Jobs.{update_job, require_job_authority}
use herdr_bots.Store.Queries.{count_unread_terminal_runs}
use herdr_bots.Store.Occurrences.{
  accept_existing, existing_occurrence, accept_occurrence_tx, accept_scheduled_occurrence,
  decide_occurrence, is_guard_tripped, pause_unread, unread_detail,
}

-- The guard refused the occurrence and paused the job; no run, entry or event was written.
pub record IsPaused (req : AcceptRequest) (d : Database) (a : Result AcceptResult) (d' : Database)
    : Type 0 where
  pub answer :
      a
      ≡ ok (record {
        inserted = false;
        outcome = "paused_unread_limit";
        run = none;
        detail = unread_detail;
      })
  pub job : JobState
  pub stored : get_job req.job_id d' ≡ some job
  pub paused : job.paused ≡ true
  pub reason : job.pause_reason ≡ PauseReason.unread_terminal_runs
  pub at : job.pause_at ≡ req.now
  pub runs : d'.runs ≡ d.runs
  pub events : d'.events ≡ d.events
  pub occurrences : d'.occurrences ≡ d.occurrences

-- A scheduled occurrence that is not recorded yet, under the job's current and runnable authority.
pub record IsFresh (req : AcceptRequest) (d : Database) : Type 0 where
  pub key : is_empty req.occurrence_key ≡ false
  pub scheduled : (req.trigger == "event") ≡ false
  pub authority_lock : lock_authority_writes d ≡ ok tt
  pub occurrence_lock : lock_occurrence_writes d ≡ ok tt
  pub authority :
      require_job_authority req.job_id req.job_config_revision req.job_revision true d ≡ ok tt
  pub unrecorded : get_occurrence req.job_id req.occurrence_key d ≡ none

trips :
    (req : AcceptRequest) (d : Database) (limit : ℕ)
    → req.max_unread_terminal_runs ≡ pos limit
    → 0 < limit
    → limit ≤ count_unread_terminal_runs req.job_id d
    → is_guard_tripped req d ≡ true
unfolding is_guard_tripped
trips req d limit bound positive reached = rw bound (ground (arith, positive, reached))

-- Where the unread terminal runs of a job are at least as many as the limit of the request, a
-- positive number, a scheduled occurrence that is not recorded yet is refused, under current and
-- runnable authority: the job is paused for that reason, and no run, event or entry is written.
pub tripped-IsPaused :
    (id : String) (req : AcceptRequest) (d : Database) (j : JobState) (limit : ℕ)
    → IsFresh req d
    → get_job req.job_id d ≡ some j
    → req.max_unread_terminal_runs ≡ pos limit
    → 0 < limit
    → limit ≤ count_unread_terminal_runs req.job_id d
    → IsPaused req d
        (accept_scheduled_occurrence id req d).0
        (accept_scheduled_occurrence id req d).1
unfolding accept_scheduled_occurrence in_tx ◌>>=◌ refuse_if accept_occurrence_tx existing_occurrence
    accept_existing decide_occurrence update_job pause_unread put_job
tripped-IsPaused id req d j limit fresh here bound positive reached =
    let tripped : is_guard_tripped req d ≡ true = trips req d limit bound positive reached in
    rw fresh.key (
      rw fresh.scheduled (
        rw fresh.authority_lock (
          rw fresh.occurrence_lock (
            rw fresh.authority (
              rw fresh.unrecorded (
                rw tripped (
                  rw here (record {
                    answer = refl;
                    job = pause_unread req.now j;
                    stored = get_job-put_job req.job_id j (pause_unread req.now j) d here refl;
                    paused = refl;
                    reason = refl;
                    at = refl;
                    runs = refl;
                    events = refl;
                    occurrences = refl;
                  }))))))))
