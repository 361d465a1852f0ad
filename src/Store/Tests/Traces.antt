-- ===== src/Store/Tests/Traces.antt =====
-- The invariants on concrete sequences of operations.
use herdr_bots.Base.{
  false, ◌&&◌, pos, true, ◌≡◌, refl, some, List, [], ◌∷◌, ◌>>=◌, refuse_if, count_by,
}
use herdr_bots.Store.State
use herdr_bots.Store.State.{is_terminal}
use herdr_bots.Store.Schema.{Run}
use herdr_bots.Store.Table.{
  get_run, in_tx, must_hit, update_logged, update_run, lock_authority_writes, get_metadata, get_job,
  insert_job, lock_occurrence_writes, get_occurrence, insert_run, insert_event, insert_occurrence,
  put_run,
}
use herdr_bots.Store.Runs
use herdr_bots.Store.Jobs
use herdr_bots.Store.Queries
use herdr_bots.Store.Occurrences
use herdr_bots.Store.Receipts.{attestation_column, receipt_of}
use herdr_bots.Store.Spec.{Step, IsSealed, IsCoherent}
use herdr_bots.Store.Spec.Entries.{mentions, is_absent}
use herdr_bots.Store.Spec.Journal.{replay, state_of}
use herdr_bots.Store.Trace.{Operation, perform, perform_all, opened}
use herdr_bots.Store.Trace.Refines.{perform-Step}
use herdr_bots.Store.Trace.Invariant.{
  terminal-IsSealed, receipts_written_once, events_replay_to_state, effects-IsCoherent,
}
use herdr_bots.Store.Tests.{
  snapshot, holding, queued_run, settled_run, succeeded_run, token_a, token_a_drawn, request,
  passed,
}

-- From an empty store: a job, a run of it, and its start.
abbrev start : List Operation
start =
    Operation.sync_job_authority_call "nightly" (pos 1) "hash" snapshot true 10
    ∷ Operation.accept_scheduled_occurrence_call "r1" request
    ∷ Operation.transition_call "r1" State.accepted State.provisioning "picked" 220
    ∷ []

-- Writes that a finished run meets.
abbrev late : List Operation
late =
    Operation.mark_read_call "r1"
    ∷ Operation.transition_call "r1" State.succeeded State.running "again" 300
    ∷ Operation.finish_call "r1" State.settled passed 310
    ∷ []

claim-Step : Step (holding (settled_run ∷ [])) (
    perform
      (Operation.claim_verifier_call "/s" "r1" "p1" token_a 300 400)
      (holding (settled_run ∷ [])))
claim-Step =
    perform-Step (Operation.claim_verifier_call "/s" "r1" "p1" token_a 300 400)
      (holding (settled_run ∷ [])) token_a_drawn

late-IsSealed :
    (s : Run) × (get_run "r1" (perform_all late (holding (succeeded_run ∷ []))) ≡ some s)
    × IsSealed succeeded_run s
unfolding get_run is_terminal
late-IsSealed =
    terminal-IsSealed late (holding (succeeded_run ∷ [])) "r1" succeeded_run (tt, (tt, (tt, tt)))
      refl refl

attested_late :
    (s : Run) × (get_run "r1" (perform_all late (holding (settled_run ∷ []))) ≡ some s)
    × (receipt_of attestation_column s ≡ receipt_of attestation_column settled_run)
unfolding get_run receipt_of
attested_late =
    receipts_written_once late (holding (settled_run ∷ [])) "r1" settled_run attestation_column
      (tt, (tt, (tt, tt))) refl refl

start_replays :
    (replay "r1" (perform_all start opened).events
      ≡ some (state_of "r1" (perform_all start opened)))
    × ((mentions "r1" (perform_all start opened).events
          && is_absent "r1" (perform_all start opened))
        ≡ false)
start_replays = events_replay_to_state start "r1" (tt, (tt, (tt, tt)))

-- The run that those operations leave.
abbrev started_run : Run
started_run = record queued_run {
  state = State.provisioning;
  scheduled_for = some 200;
  accepted_at = 210;
  accepted_unix_nano = 210;
  updated_at = 220;
}

started : get_run "r1" (perform_all start opened) ≡ some started_run
unfolding perform_all get_run Runs.transition in_tx ◌>>=◌ refuse_if is_terminal must_hit
    update_logged update_run Occurrences.accept_scheduled_occurrence lock_authority_writes
    get_metadata Jobs.sync_job_authority Jobs.sync_job_authority_tx get_job insert_job
    lock_occurrence_writes Jobs.require_job_authority Jobs.runnable_refusal Jobs.is_global_paused
    Occurrences.accept_occurrence_tx Occurrences.existing_occurrence get_occurrence
    Occurrences.is_guard_tripped Queries.count_unread_terminal_runs Occurrences.skip_reason
    Queries.day_count Queries.executing_count Queries.queued_count Occurrences.create_run insert_run
    insert_event insert_occurrence Occurrences.new_run put_run count_by
started = refl

started-IsCoherent : IsCoherent started_run
started-IsCoherent = effects-IsCoherent start "r1" started_run (tt, (tt, (tt, tt))) started
