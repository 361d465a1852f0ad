-- ===== src/Store/Tests/Guards.antt =====
-- The guards on concrete rows.
use herdr_bots.Base.{true, ◌≡◌, refl, none, [], ◌∷◌, ok, arith, ◌>>=◌, refuse_if, count_by}
use herdr_bots.Config.Accept.{classify_terminal_run, normalize_verdict, trim_space}
use herdr_bots.Config.Accept.Sound.{IsQuiet, classify_terminal_run-IsQuiet}
use herdr_bots.Store.State
use herdr_bots.Store.State.{is_terminal}
use herdr_bots.Store.EffectKind
use herdr_bots.Store.Schema.{Database}
use herdr_bots.Store.Table.{
  get_run, get_occurrence, in_tx, answer, update_logged, update_run, lock_occurrence_writes,
  get_metadata, lock_authority_writes, lock_row, get_job, insert_run, insert_event,
  insert_occurrence,
}
use herdr_bots.Store.Jobs
use herdr_bots.Store.Queries
use herdr_bots.Store.Occurrences
use herdr_bots.Store.Classify.{classify_finished, terminal_acceptance}
use herdr_bots.Store.Classify.Agrees.{classify_finished_agrees}
use herdr_bots.Store.Lease.{
  validate_effect_lease, validate_provisioning_lease, new_effect_claim, valid_effect_claim,
}
use herdr_bots.Store.Lease.Tokens.{new_effect_claim_valid}
use herdr_bots.Store.Claims.{claim_effect, claim_workspace_close, claim_verifier, reclaim_effect}
use herdr_bots.Store.Claims.Exclusive.{
  is_claimed, is_verifier_claimed, IsLost, IsClaimWon, held_effect-IsLost, claim_effect-IsClaimWon,
}
use herdr_bots.Store.Ends.{finish_effect}
use herdr_bots.Store.Ends.Fencing.{IsEndedByHolder, finish_effect-IsEndedByHolder}
use herdr_bots.Store.Expiry.{
  interrupt_expired_provisioning, interrupt_expired_starting, confirm_expired_command_start,
  interrupt_recovered_provisioning,
}
use herdr_bots.Store.Expiry.Live.{live_claim_rests}
use herdr_bots.Store.Occurrences.{accept_occurrence, accept_scheduled_occurrence}
use herdr_bots.Store.Occurrences.Promises.{Rests, duplicate-Rests}
use herdr_bots.Store.Occurrences.Accepted.{is_accepted, IsAccepted, accept_scheduled-IsAccepted}
use herdr_bots.Store.Admission.{Candidate, decide_admission}
use herdr_bots.Store.Admission.Promises.{IsAdmitted, decide_admission-IsAdmitted}
use herdr_bots.Store.Tests.{
  nightly, snapshot, queued_run, holding, settled_run, verifying_run, provisioning_run, token_a,
  token_a_drawn, claim_a, passed, request, admit_all,
}

abbrev settled_store : Database
settled_store = holding (settled_run ∷ [])

abbrev verifying_store : Database
verifying_store = holding (verifying_run ∷ [])

claim_passes :
    is_claimed
      (claim_effect "r1" State.settled EffectKind.verifier "p1" token_a 300 400 settled_store).0
    ≡ true
unfolding is_claimed claim_effect in_tx ◌>>=◌ refuse_if is_terminal validate_effect_lease answer
    update_run get_run new_effect_claim
claim_passes = refl

settled_claim_wins :
    IsClaimWon "r1" State.settled EffectKind.verifier "p1" token_a 300 400 settled_store
      (claim_effect "r1" State.settled EffectKind.verifier "p1" token_a 300 400 settled_store).1
settled_claim_wins =
    claim_effect-IsClaimWon "r1" State.settled EffectKind.verifier "p1" token_a 300 400
      settled_store claim_passes

verifying_excludes :
    IsLost is_claimed verifying_store
      (claim_effect "r1" State.verifying EffectKind.verifier "p2" token_a 300 400 verifying_store).0
      (claim_effect "r1" State.verifying EffectKind.verifier "p2" token_a 300 400 verifying_store).1
    × IsLost is_claimed verifying_store
        (claim_workspace_close "r1" State.verifying "p2" "intent" token_a 300 400 verifying_store).0
        (claim_workspace_close "r1" State.verifying "p2" "intent" token_a 300 400 verifying_store).1
    × IsLost is_verifier_claimed verifying_store
        (claim_verifier "/s" "r1" "p2" token_a 300 400 verifying_store).0
        (claim_verifier "/s" "r1" "p2" token_a 300 400 verifying_store).1
    × IsLost is_claimed verifying_store
        (reclaim_effect "r1" State.verifying EffectKind.verifier "p2" token_a 499 400
          verifying_store).0
        (reclaim_effect "r1" State.verifying EffectKind.verifier "p2" token_a 499 400
          verifying_store).1
unfolding get_run
verifying_excludes =
    held_effect-IsLost "r1" verifying_store verifying_run refl refl 499 (omega arith)
      State.verifying EffectKind.verifier "p2" "intent" "/s" token_a 300 400

finish_passes :
    (finish_effect "r1" State.verifying "p1" claim_a EffectKind.verifier passed 450
      verifying_store).0
    ≡ ok true
unfolding finish_effect in_tx ◌>>=◌ refuse_if is_terminal lock_occurrence_writes get_metadata
    terminal_acceptance get_run answer update_logged update_run
finish_passes = refl

verifier_ends :
    IsEndedByHolder "r1" State.verifying "p1" claim_a EffectKind.verifier passed 450 verifying_store
      (finish_effect "r1" State.verifying "p1" claim_a EffectKind.verifier passed 450
        verifying_store).1
verifier_ends =
    finish_effect-IsEndedByHolder "r1" State.verifying "p1" claim_a EffectKind.verifier passed 450
      verifying_store finish_passes

abbrev provisioning_store : Database
provisioning_store = holding (provisioning_run ∷ [])

live_claim_stands :
    ((interrupt_expired_provisioning "r1" 399 provisioning_store).1 ≡ provisioning_store)
    × ((interrupt_expired_starting "r1" "c" "d" 399 provisioning_store).1 ≡ provisioning_store)
    × ((confirm_expired_command_start "r1" "d" 399 provisioning_store).1 ≡ provisioning_store)
    × ((interrupt_recovered_provisioning provisioning_run 399 provisioning_store).1
        ≡ provisioning_store)
unfolding get_run
live_claim_stands =
    live_claim_rests provisioning_store provisioning_run provisioning_run 399 "r1" "c" "d" refl refl
      (record { owned = refl; later = omega arith })

abbrev duplicate_store : Database
duplicate_store = record (holding []) {
  occurrences =
      record {
        job_id = "nightly";
        occurrence_key = request.occurrence_key;
        scheduled_for = 200;
        outcome = "missed";
        run_id = none;
        detail = "late";
        created_at = 205;
        created_unix_nano = 205;
      }
      ∷ [];
}

duplicate_stands :
    Rests duplicate_store
      (accept_occurrence "r2" request duplicate_store).0
      (accept_occurrence "r2" request duplicate_store).1
    × Rests duplicate_store
        (accept_scheduled_occurrence "r2" request duplicate_store).0
        (accept_scheduled_occurrence "r2" request duplicate_store).1
unfolding get_occurrence
duplicate_stands = duplicate-Rests "r2" request duplicate_store _ refl

acceptance_passes : is_accepted (accept_scheduled_occurrence "r2" request (holding [])).0 ≡ true
unfolding is_accepted accept_scheduled_occurrence in_tx ◌>>=◌ refuse_if lock_authority_writes
    get_metadata lock_occurrence_writes Jobs.require_job_authority get_job Jobs.runnable_refusal
    Jobs.is_global_paused get_occurrence Occurrences.is_guard_tripped
    Occurrences.accept_occurrence_tx Occurrences.existing_occurrence
    Queries.count_unread_terminal_runs Occurrences.skip_reason Queries.day_count
    Queries.executing_count Queries.queued_count Occurrences.create_run insert_run insert_event
    insert_occurrence Occurrences.new_run get_run count_by
acceptance_passes = refl

occurrence-IsAccepted :
    IsAccepted "r2" request (holding []) (accept_scheduled_occurrence "r2" request (holding [])).1
occurrence-IsAccepted = accept_scheduled-IsAccepted "r2" request (holding []) acceptance_passes

abbrev candidate : Candidate
candidate = record {
  owner = "p1";
  disk_device = "dev";
  disk_reserve_gib = 3;
  now = 300;
  lease_until = 400;
}

abbrev queued_store : Database
queued_store = holding (queued_run ∷ [])

admission_passes : (decide_admission admit_all "r1" candidate queued_store).0 ≡ ok true
unfolding decide_admission in_tx ◌>>=◌ validate_provisioning_lease lock_row get_metadata get_run
    get_job Jobs.is_global_paused answer update_logged update_run
admission_passes = refl

run-IsAdmitted :
    IsAdmitted admit_all "r1" candidate queued_store
      (decide_admission admit_all "r1" candidate queued_store).1
run-IsAdmitted = decide_admission-IsAdmitted admit_all "r1" candidate queued_store admission_passes

token_claim_valid : valid_effect_claim (new_effect_claim token_a) ≡ true
token_claim_valid = new_effect_claim_valid token_a token_a_drawn

lane_agrees :
    classify_finished "r1" snapshot State.succeeded " passed "
    ≡ classify_terminal_run nightly "r1" State.succeeded " passed "
unfolding is_terminal
lane_agrees = classify_finished_agrees "r1" snapshot nightly State.succeeded " passed " refl refl

nightly-IsQuiet :
    (State.succeeded ≡ "succeeded") × (normalize_verdict "passed" ≡ "passed") × IsQuiet nightly "r1"
unfolding classify_terminal_run normalize_verdict trim_space
nightly-IsQuiet = classify_terminal_run-IsQuiet nightly "r1" State.succeeded "passed" refl
