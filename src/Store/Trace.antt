-- ===== src/Store/Trace.antt =====
-- Every writing method of the store as an operation, and the database after a sequence of them in
-- any order: what concurrent processes do to the one database, since SQLite runs their transactions
-- one after another.
pub mod Refines
pub mod Invariant
use herdr_bots.Base.{ℕ, ℤ, String, Bool, List, [], ◌∷◌, Result, All}
use herdr_bots.Config.{Definition}
use herdr_bots.Store.Schema.{Run, Database, AcceptRequest, AdmissionDecision}
use herdr_bots.Store.Classify.{Ending}
use herdr_bots.Store.Runs
use herdr_bots.Store.Lease.Tokens.{IsToken}
use herdr_bots.Store.Claims.{Workspace, CloseIntent}
use herdr_bots.Store.Claims
use herdr_bots.Store.Ends
use herdr_bots.Store.Provisioning
use herdr_bots.Store.Expiry
use herdr_bots.Store.Receipts.{ReceiptColumn}
use herdr_bots.Store.Receipts
use herdr_bots.Store.Jobs
use herdr_bots.Store.Occurrences
use herdr_bots.Store.Creation
use herdr_bots.Store.Admission.{Candidate}
use herdr_bots.Store.Admission

pub data Operation : Type 0 where
  transition_call : (id from to detail : String) (now : ℕ) → Operation
  finish_call : (id from : String) (e : Ending) (now : ℕ) → Operation
  claim_effect_call : (id from kind owner : String) (token : List ℕ) (now until : ℕ) → Operation
  claim_workspace_close_call :
      (id from owner intent : String) (token : List ℕ) (now until : ℕ) → Operation
  reclaim_effect_call : (id from kind owner : String) (token : List ℕ) (now until : ℕ) → Operation
  claim_verifier_call : (state_dir id owner : String) (token : List ℕ) (now until : ℕ) → Operation
  claim_late_provisioning_cleanup_call :
      (encode : CloseIntent → String) (id owner : String) (w : Workspace) (e : Ending)
      (token : List ℕ) (now until : ℕ)
      → Operation
  finish_effect_call : (id from owner claim kind : String) (e : Ending) (now : ℕ) → Operation
  finish_expired_verifier_call : (id : String) (e : Ending) (now : ℕ) → Operation
  release_effect_call : (id from owner claim kind : String) (now : ℕ) → Operation
  save_provisioning_plan_call : (id owner branch : String) (now : ℕ) → Operation
  recover_provisioning_workspace_call : (id branch workspace_id path : String) (now : ℕ) → Operation
  save_partial_provisioning_receipt_call :
      (id owner workspace_id pane_id branch : String) (now : ℕ) → Operation
  save_provisioning_receipt_call :
      (id owner : String) (w : Workspace) (mode marker : String) (now : ℕ) → Operation
  renew_provisioning_claim_call : (id owner : String) (now until : ℕ) → Operation
  confirm_starting_claim_call : (id owner detail : String) (now : ℕ) → Operation
  finish_starting_claim_call : (id owner : String) (e : Ending) (now : ℕ) → Operation
  finish_provisioning_claim_call : (id owner : String) (e : Ending) (now : ℕ) → Operation
  interrupt_expired_provisioning_call : (id : String) (now : ℕ) → Operation
  interrupt_expired_starting_call : (id code detail : String) (now : ℕ) → Operation
  confirm_expired_command_start_call : (id detail : String) (now : ℕ) → Operation
  interrupt_recovered_provisioning_call : (observed : Run) (now : ℕ) → Operation
  set_receipt_call : (id : String) (w : Workspace) (mode marker : String) (clock : ℕ) → Operation
  set_source_context_call :
      (id base_revision revision input_context : String) (clock : ℕ) → Operation
  set_once_call : (c : ReceiptColumn) (id receipt : String) (clock : ℕ) → Operation
  record_run_event_call : (id code detail : String) (now : ℕ) → Operation
  mark_read_call : (id : String) → Operation
  sync_job_authority_call :
      (id : String) (revision : ℤ) (hash : String) (definition : Definition) (enabled : Bool)
      (now : ℕ)
      → Operation
  set_cursor_call : (id : String) (cursor clock : ℕ) → Operation
  set_cursor_if_authority_call :
      (id : String) (revision : ℤ) (hash : String) (cursor : ℕ) (runnable : Bool) (clock : ℕ)
      → Operation
  set_completed_call : (id : String) (completed : Bool) (clock : ℕ) → Operation
  set_completed_if_authority_call :
      (id : String) (revision : ℤ) (hash : String) (completed : Bool) (clock : ℕ) → Operation
  set_paused_call : (id : String) (paused : Bool) (clock : ℕ) → Operation
  set_global_paused_call : (paused : Bool) → Operation
  accept_occurrence_call : (id : String) (req : AcceptRequest) → Operation
  accept_scheduled_occurrence_call : (id : String) (req : AcceptRequest) → Operation
  record_occurrence_if_authority_call : (req : AcceptRequest) (outcome detail : String) → Operation
  record_occurrence_call : (job_id key : String) (at now : ℕ) (outcome detail : String) → Operation
  enqueue_event_call : (id : String) (req : AcceptRequest) → Operation
  create_manual_run_if_authority_call : (id : String) (req : AcceptRequest) → Operation
  create_attended_run_call :
      (id job_id revision : String) (definition : Definition) (trigger : String) (now : ℕ)
      → Operation
  decide_admission_call :
      (check : List Run → Result AdmissionDecision) (id : String) (c : Candidate) → Operation

-- The database that an operation leaves.
unfoldable pub perform : Operation → Database → Database
perform (Operation.transition_call id from to detail now) d =
    (Runs.transition id from to detail now d).1
perform (Operation.finish_call id from e now) d = (Runs.finish id from e now d).1
perform (Operation.claim_effect_call id from kind owner token now until) d =
    (Claims.claim_effect id from kind owner token now until d).1
perform (Operation.claim_workspace_close_call id from owner intent token now until) d =
    (Claims.claim_workspace_close id from owner intent token now until d).1
perform (Operation.reclaim_effect_call id from kind owner token now until) d =
    (Claims.reclaim_effect id from kind owner token now until d).1
perform (Operation.claim_verifier_call state_dir id owner token now until) d =
    (Claims.claim_verifier state_dir id owner token now until d).1
perform (Operation.claim_late_provisioning_cleanup_call encode id owner w e token now until) d =
    (Claims.claim_late_provisioning_cleanup encode id owner w e token now until d).1
perform (Operation.finish_effect_call id from owner claim kind e now) d =
    (Ends.finish_effect id from owner claim kind e now d).1
perform (Operation.finish_expired_verifier_call id e now) d =
    (Ends.finish_expired_verifier id e now d).1
perform (Operation.release_effect_call id from owner claim kind now) d =
    (Ends.release_effect id from owner claim kind now d).1
perform (Operation.save_provisioning_plan_call id owner branch now) d =
    (Provisioning.save_provisioning_plan id owner branch now d).1
perform (Operation.recover_provisioning_workspace_call id branch workspace_id path now) d =
    (Provisioning.recover_provisioning_workspace id branch workspace_id path now d).1
perform (Operation.save_partial_provisioning_receipt_call id owner workspace_id pane_id branch now)
      d =
    (Provisioning.save_partial_provisioning_receipt id owner workspace_id pane_id branch now d).1
perform (Operation.save_provisioning_receipt_call id owner w mode marker now) d =
    (Provisioning.save_provisioning_receipt id owner w mode marker now d).1
perform (Operation.renew_provisioning_claim_call id owner now until) d =
    (Provisioning.renew_provisioning_claim id owner now until d).1
perform (Operation.confirm_starting_claim_call id owner detail now) d =
    (Provisioning.confirm_starting_claim id owner detail now d).1
perform (Operation.finish_starting_claim_call id owner e now) d =
    (Provisioning.finish_starting_claim id owner e now d).1
perform (Operation.finish_provisioning_claim_call id owner e now) d =
    (Provisioning.finish_provisioning_claim id owner e now d).1
perform (Operation.interrupt_expired_provisioning_call id now) d =
    (Expiry.interrupt_expired_provisioning id now d).1
perform (Operation.interrupt_expired_starting_call id code detail now) d =
    (Expiry.interrupt_expired_starting id code detail now d).1
perform (Operation.confirm_expired_command_start_call id detail now) d =
    (Expiry.confirm_expired_command_start id detail now d).1
perform (Operation.interrupt_recovered_provisioning_call observed now) d =
    (Expiry.interrupt_recovered_provisioning observed now d).1
perform (Operation.set_receipt_call id w mode marker clock) d =
    (Receipts.set_receipt id w mode marker clock d).1
perform (Operation.set_source_context_call id base_revision revision input_context clock) d =
    (Receipts.set_source_context id base_revision revision input_context clock d).1
perform (Operation.set_once_call c id receipt clock) d = (Receipts.set_once c id receipt clock d).1
perform (Operation.record_run_event_call id code detail now) d =
    (Receipts.record_run_event id code detail now d).1
perform (Operation.mark_read_call id) d = (Receipts.mark_read id d).1
perform (Operation.sync_job_authority_call id revision hash definition enabled now) d =
    (Jobs.sync_job_authority id revision hash definition enabled now d).1
perform (Operation.set_cursor_call id cursor clock) d = (Jobs.set_cursor id cursor clock d).1
perform (Operation.set_cursor_if_authority_call id revision hash cursor runnable clock) d =
    (Jobs.set_cursor_if_authority id revision hash cursor runnable clock d).1
perform (Operation.set_completed_call id completed clock) d =
    (Jobs.set_completed id completed clock d).1
perform (Operation.set_completed_if_authority_call id revision hash completed clock) d =
    (Jobs.set_completed_if_authority id revision hash completed clock d).1
perform (Operation.set_paused_call id paused clock) d = (Jobs.set_paused id paused clock d).1
perform (Operation.set_global_paused_call paused) d = (Jobs.set_global_paused paused d).1
perform (Operation.accept_occurrence_call id req) d = (Occurrences.accept_occurrence id req d).1
perform (Operation.accept_scheduled_occurrence_call id req) d =
    (Occurrences.accept_scheduled_occurrence id req d).1
perform (Operation.record_occurrence_if_authority_call req outcome detail) d =
    (Occurrences.record_occurrence_if_authority req outcome detail d).1
perform (Operation.record_occurrence_call job_id key at now outcome detail) d =
    (Creation.record_occurrence job_id key at now outcome detail d).1
perform (Operation.enqueue_event_call id req) d = (Creation.enqueue_event id req d).1
perform (Operation.create_manual_run_if_authority_call id req) d =
    (Creation.create_manual_run_if_authority id req d).1
perform (Operation.create_attended_run_call id job_id revision definition trigger now) d =
    (Creation.create_attended_run id job_id revision definition trigger now d).1
perform (Operation.decide_admission_call check id c) d = (Admission.decide_admission check id c d).1

unfoldable pub perform_all : List Operation → Database → Database
unfolding perform
perform_all [] d = d
perform_all (op ∷ ops) d = perform_all ops (perform op d)

-- The tables that `migrate` creates: empty, but for the two lock rows.
abbrev pub opened : Database
opened = record {
  jobs = [];
  occurrences = [];
  runs = [];
  events = [];
  metadata = ("admission_lock", "0") ∷ ("authority_lock", "0") ∷ [];
}

-- The random bytes of a claim are sixteen bytes.
abbrev pub IsDrawn : Operation → Type 0
IsDrawn (Operation.claim_effect_call _ _ _ _ token _ _) = IsToken token
IsDrawn (Operation.claim_workspace_close_call _ _ _ _ token _ _) = IsToken token
IsDrawn (Operation.reclaim_effect_call _ _ _ _ token _ _) = IsToken token
IsDrawn (Operation.claim_verifier_call _ _ _ token _ _) = IsToken token
IsDrawn (Operation.claim_late_provisioning_cleanup_call _ _ _ _ _ token _ _) = IsToken token
IsDrawn _ = Unit
