-- ===== src/Store/Trace/Refines.antt =====
-- Every operation makes a step of the specification.
use herdr_bots.Store.Schema.{Database}
use herdr_bots.Store.Spec.{Step}
use herdr_bots.Store.Runs.Steps as RunsSteps
use herdr_bots.Store.Claims.Steps as ClaimsSteps
use herdr_bots.Store.Ends.Steps as EndsSteps
use herdr_bots.Store.Provisioning.Steps as ProvisioningSteps
use herdr_bots.Store.Expiry.Steps as ExpirySteps
use herdr_bots.Store.Receipts.Steps as ReceiptsSteps
use herdr_bots.Store.Jobs.Steps as JobsSteps
use herdr_bots.Store.Occurrences.Steps as OccurrencesSteps
use herdr_bots.Store.Creation.Steps as CreationSteps
use herdr_bots.Store.Admission.Steps as AdmissionSteps
use herdr_bots.Store.Trace.{Operation, perform, IsDrawn}

-- Each writing method of the store, with any arguments and on any database, does nothing to the
-- runs and events; or changes one run within `Keeps`, with no event where its state stands, or with
-- one event that has the run and its two states; or creates one accepted run, with one event of it.
-- The random bytes of a claim are sixteen bytes.
pub perform-Step : (op : Operation) (d : Database) → IsDrawn op → Step d (perform op d)
unfolding perform
perform-Step (Operation.transition_call id from to detail now) d _ =
    RunsSteps.transition-Step id from to detail now d
perform-Step (Operation.finish_call id from e now) d _ = RunsSteps.finish-Step id from e now d
perform-Step (Operation.claim_effect_call id from kind owner token now until) d t =
    ClaimsSteps.claim_effect-Step id owner token now until d t from kind
perform-Step (Operation.claim_workspace_close_call id from owner intent token now until) d t =
    ClaimsSteps.claim_workspace_close-Step id owner token now until d t from intent
perform-Step (Operation.reclaim_effect_call id from kind owner token now until) d t =
    ClaimsSteps.reclaim_effect-Step id owner token now until d t from kind
perform-Step (Operation.claim_verifier_call state_dir id owner token now until) d t =
    ClaimsSteps.claim_verifier-Step id owner token now until d t state_dir
perform-Step (Operation.claim_late_provisioning_cleanup_call encode id owner w e token now until) d
      t =
    ClaimsSteps.claim_late_provisioning_cleanup-Step id owner token now until d t encode w e
perform-Step (Operation.finish_effect_call id from owner claim kind e now) d _ =
    EndsSteps.finish_effect-Step id from owner claim kind e now d
perform-Step (Operation.finish_expired_verifier_call id e now) d _ =
    EndsSteps.finish_expired_verifier-Step id e now d
perform-Step (Operation.release_effect_call id from owner claim kind now) d _ =
    EndsSteps.release_effect-Step id from owner claim kind now d
perform-Step (Operation.save_provisioning_plan_call id owner branch now) d _ =
    ProvisioningSteps.save_provisioning_plan-Step id owner now d branch
perform-Step (Operation.recover_provisioning_workspace_call id branch workspace_id path now) d _ =
    ProvisioningSteps.recover_provisioning_workspace-Step id branch workspace_id path now d
perform-Step
      (Operation.save_partial_provisioning_receipt_call id owner workspace_id pane_id branch now) d
      _ =
    ProvisioningSteps.save_partial_provisioning_receipt-Step id owner now d workspace_id pane_id
      branch
perform-Step (Operation.save_provisioning_receipt_call id owner w mode marker now) d _ =
    ProvisioningSteps.save_provisioning_receipt-Step id owner now d w mode marker
perform-Step (Operation.renew_provisioning_claim_call id owner now until) d _ =
    ProvisioningSteps.renew_provisioning_claim-Step id owner now d until
perform-Step (Operation.confirm_starting_claim_call id owner detail now) d _ =
    ProvisioningSteps.confirm_starting_claim-Step id owner now d detail
perform-Step (Operation.finish_starting_claim_call id owner e now) d _ =
    ProvisioningSteps.finish_starting_claim-Step id owner now d e
perform-Step (Operation.finish_provisioning_claim_call id owner e now) d _ =
    ProvisioningSteps.finish_provisioning_claim-Step id owner now d e
perform-Step (Operation.interrupt_expired_provisioning_call id now) d _ =
    ExpirySteps.interrupt_expired_provisioning-Step id now d
perform-Step (Operation.interrupt_expired_starting_call id code detail now) d _ =
    ExpirySteps.interrupt_expired_starting-Step id now d code detail
perform-Step (Operation.confirm_expired_command_start_call id detail now) d _ =
    ExpirySteps.confirm_expired_command_start-Step id now d detail
perform-Step (Operation.interrupt_recovered_provisioning_call observed now) d _ =
    ExpirySteps.interrupt_recovered_provisioning-Step observed now d
perform-Step (Operation.set_receipt_call id w mode marker clock) d _ =
    ReceiptsSteps.set_receipt-Step id clock d w mode marker
perform-Step (Operation.set_source_context_call id base_revision revision input_context clock) d _ =
    ReceiptsSteps.set_source_context-Step id clock d base_revision revision input_context
perform-Step (Operation.set_once_call c id receipt clock) d _ =
    ReceiptsSteps.set_once-Step id clock d c receipt
perform-Step (Operation.record_run_event_call id code detail now) d _ =
    ReceiptsSteps.record_run_event-Step id now d code detail
perform-Step (Operation.mark_read_call id) d _ = ReceiptsSteps.mark_read-Step id d
perform-Step (Operation.sync_job_authority_call id revision hash definition enabled now) d _ =
    JobsSteps.sync_job_authority-Step id revision hash definition enabled now d
perform-Step (Operation.set_cursor_call id cursor clock) d _ =
    JobsSteps.set_cursor-Step id d cursor clock
perform-Step (Operation.set_cursor_if_authority_call id revision hash cursor runnable clock) d _ =
    JobsSteps.set_cursor_if_authority-Step id revision hash d cursor runnable clock
perform-Step (Operation.set_completed_call id completed clock) d _ =
    JobsSteps.set_completed-Step id d completed clock
perform-Step (Operation.set_completed_if_authority_call id revision hash completed clock) d _ =
    JobsSteps.set_completed_if_authority-Step id revision hash d completed clock
perform-Step (Operation.set_paused_call id paused clock) d _ =
    JobsSteps.set_paused-Step id d paused clock
perform-Step (Operation.set_global_paused_call paused) d _ =
    JobsSteps.set_global_paused-Step paused d
perform-Step (Operation.accept_occurrence_call id req) d _ =
    OccurrencesSteps.accept_occurrence-Step id req d
perform-Step (Operation.accept_scheduled_occurrence_call id req) d _ =
    OccurrencesSteps.accept_scheduled_occurrence-Step id req d
perform-Step (Operation.record_occurrence_if_authority_call req outcome detail) d _ =
    OccurrencesSteps.record_occurrence_if_authority-Step req outcome detail d
perform-Step (Operation.record_occurrence_call job_id key at now outcome detail) d _ =
    CreationSteps.record_occurrence-Step job_id key at now outcome detail d
perform-Step (Operation.enqueue_event_call id req) d _ = CreationSteps.enqueue_event-Step id req d
perform-Step (Operation.create_manual_run_if_authority_call id req) d _ =
    CreationSteps.create_manual_run_if_authority-Step id req d
perform-Step (Operation.create_attended_run_call id job_id revision definition trigger now) d _ =
    CreationSteps.create_attended_run-Step id job_id revision definition trigger now d
perform-Step (Operation.decide_admission_call check id c) d _ =
    AdmissionSteps.decide_admission-Step check c d id
