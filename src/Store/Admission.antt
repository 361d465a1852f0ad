-- ===== src/Store/Admission.antt =====
-- The serialized capacity decision: `DecideAdmission` and `finishAdmissionTx` of
-- internal/store/store.go. `check` is the caller's callback over the active rows.
pub mod Steps
pub mod Promises
use herdr_bots.Base.{
  ℕ, String, Bool, true, false, not, ◌&&◌, ◌||◌, Option, none, some, List, ◌==◌, is_empty, ltb,
  if◌then◌else◌, Result, ok, err, message, ◌>>=◌, ◌>>◌, refuse_if,
}
use herdr_bots.Store.State
use herdr_bots.Store.Schema.{JobState, Run, Database, AdmissionDecision}
use herdr_bots.Store.Table.{Body, in_tx, commit, get_job, get_run, lock_row, answer, update_logged}
use herdr_bots.Store.Classify.{Ending, set_ending, terminal_acceptance}
use herdr_bots.Store.Queries.{executing_runs, conflicting_count}
use herdr_bots.Store.Jobs.{is_global_paused}
use herdr_bots.Store.Lease.{validate_provisioning_lease}

-- The ending of a candidate that does not start; its verdict is `unverified`.
unfoldable pub not_started : String → String → String → String → Ending
not_started state infrastructure code detail = record {
  state = state;
  infrastructure = infrastructure;
  agent = "not_started";
  verdict = "unverified";
  code = code;
  detail = detail;
}

-- `finishAdmissionTx`; the caller answers false beside it.
unfoldable pub finish_admission : String → Ending → ℕ → Database → Body Bool
finish_admission id e now d = do
  lane ← terminal_acceptance id e.state "unverified" d
  answer false false (
      update_logged id (λ r. r.state == State.accepted) (set_ending e lane now) State.accepted
        e.state now e.code e.detail d)

-- A canary that cannot start is blocked; any other run waits in the queue.
hold_or_block : Run → String → String → ℕ → Database → Body Bool
hold_or_block run code detail now d =
    if run.trigger == "canary"
    then finish_admission run.id (not_started State.blocked "not_started" code detail) now d
    else commit false d

-- What the caller passes to `DecideAdmission` beside the run.
pub record Candidate : Type 0 where
  pub owner : String
  pub disk_device : String
  pub disk_reserve_gib : ℕ
  pub now : ℕ
  pub lease_until : ℕ

claim_candidate : Run → Candidate → Database → Body Bool
claim_candidate run c d = answer true false (
    update_logged run.id (λ r. r.state == State.accepted)
      (λ r. record r {
        state = State.provisioning;
        provisioning_owner = c.owner;
        provisioning_lease_until = c.lease_until;
        disk_device = c.disk_device;
        disk_reserve_gib = c.disk_reserve_gib;
        updated_at = c.now;
      })
      State.accepted State.provisioning c.now "" "capacity admitted; route validation pending" d)

apply_decision : AdmissionDecision → Run → Candidate → Database → Body Bool
unfolding hold_or_block claim_candidate
apply_decision decision run c d = do
  refuse_if
      (decision.admit
        && (not (is_empty decision.failure_code) || not (is_empty decision.hold_code)))
      (message "admission decision cannot both admit and refuse")
  refuse_if (not (is_empty decision.failure_code) && not (is_empty decision.hold_code))
      (message "admission decision cannot both fail and hold")
  if not (is_empty decision.failure_code)
      then finish_admission run.id
          (not_started State.failed "failed" decision.failure_code decision.failure_detail) c.now d
      else if not decision.admit
      then (if is_empty decision.hold_code
          then hold_or_block run "admission_hold"
              "attended canary could not be claimed during this call" c.now d
          else hold_or_block run decision.hold_code decision.hold_detail c.now d)
      else claim_candidate run c d

capacity_check : (List Run → Result AdmissionDecision) → Run → Candidate → Database → Body Bool
unfolding apply_decision
capacity_check check run c d = do
  decision ← check (executing_runs d)
  apply_decision decision run c d

-- An absent overlap in the snapshot stands for "forbid".
overlap_conflicts : Run → String → Database → Bool
overlap_conflicts run overlap d =
    not ((if is_empty overlap then "forbid" else overlap) == "allow")
    && ltb 0 (conflicting_count run.job_id run.id d)

-- A canary's overlap is decided here, from its own snapshot.
canary_overlap :
    Option String → (List Run → Result AdmissionDecision) → Run → Candidate → Database → Body Bool
unfolding overlap_conflicts capacity_check
canary_overlap none check run c d =
    finish_admission run.id
      (not_started State.failed "failed" "snapshot_invalid" "the definition cannot be decoded")
      c.now d
canary_overlap (some overlap) check run c d =
    if overlap_conflicts run overlap d
    then finish_admission run.id
        (not_started State.blocked "not_started" "overlap_hold"
          "another run for this job is nonterminal")
        c.now d
    else capacity_check check run c d

-- The candidate joined with its job.
decide_candidate :
    (List Run → Result AdmissionDecision) → Run → JobState → Candidate → Database → Body Bool
unfolding canary_overlap
decide_candidate check run job c d =
    if not (run.state == State.accepted)
    then commit false d
    else if not job.enabled
    then hold_or_block run "job_disabled" "current job authority is disabled" c.now d
    else if job.paused
    then hold_or_block run "job_paused" "current job authority is paused" c.now d
    else if is_global_paused d
    then hold_or_block run "global_paused" "automation execution is globally paused" c.now d
    else if run.trigger == "canary"
    then canary_overlap run.definition.as_overlap check run c d
    else capacity_check check run c d

decide_job :
    (List Run → Result AdmissionDecision) → Run → Option JobState → Candidate → Database → Body Bool
decide_job check run none c d = commit false d
decide_job check run (some job) c d = decide_candidate check run job c d

decide_run : (List Run → Result AdmissionDecision) → Option Run → Candidate → Database → Body Bool
decide_run check none c d = commit false d
decide_run check (some run) c d = decide_job check run (get_job run.job_id d) c d

unfoldable pub decide_admission :
    (List Run → Result AdmissionDecision) → String → Candidate → Database → Result Bool × Database
unfolding decide_candidate decide_job decide_run
decide_admission check id c d = in_tx d do
  validate_provisioning_lease c.owner c.now c.lease_until
  lock_row "admission_lock" "admission lock row is missing; run admission fails closed" d
  decide_run check (get_run id d) c d
