-- ===== src/Store/Creation/Steps.antt =====
-- Events, manual runs and canaries make steps: nothing, or one new accepted run.
use herdr_bots.Base.{ℕ, String, ◌≡◌, refl, Option, none, some, Result, ok, err}
use herdr_bots.Config.{Definition}
use herdr_bots.Store.Schema.{Run, Database, AcceptRequest, AcceptResult}
use herdr_bots.Store.Table.{Body, in_tx}
use herdr_bots.Store.Jobs.Steps.{update_job-IsSame, sync_job_authority_tx-IsSame}
use herdr_bots.Store.Jobs.{runnable_refusal}
use herdr_bots.Store.Occurrences.{is_guard_tripped}
use herdr_bots.Store.Occurrences.Steps.{
  create_run-Step, new_run-IsNew, accept_occurrence_tx-Settles, insert_or_ignore-Settles,
}
use herdr_bots.Store.Creation.{
  record_occurrence, is_revision_changed, retry_event, refuse_or, new_event, enqueue_existing,
  enqueue_event, manual_request, admit_attended, create_manual_run_if_authority,
  create_attended_run,
}
use herdr_bots.Store.Spec.{Step, IsNew}
use herdr_bots.Store.Spec.Rules.{
  IsSame, Settles, Step-refl, Step-same, Settles-refuse_if, Settles-bind, Settles-if,
  Settles-commit, Settles-commit_refusal, Settles-err,
}

pub record_occurrence-Step :
    (job_id key : String) (at now : ℕ) (outcome detail : String) (d : Database)
    → Step d (record_occurrence job_id key at now outcome detail d).1
unfolding record_occurrence
record_occurrence-Step job_id key at now outcome detail d = insert_or_ignore-Settles _ _ d

retry_event-Settles :
    (existing : AcceptResult) (r : Result Database) (d : Database)
    → ((d' : Database) → r ≡ ok d' → IsSame d d')
    → Settles d (retry_event existing r d)
unfolding retry_event
retry_event-Settles existing (ok d') d k = Settles-commit d _ d' (Step-same d d' (k d' refl))
retry_event-Settles existing (err e) d k =
    Settles-if d (is_revision_changed e) _ _ (λ _. Settles-commit d _ d (Step-refl d))
      (λ _. Settles-err _ d e)

-- A refusal is returned after the synchronized authority is committed.
refuse_or-Settles :
    (r : Result (Unit {0})) (d d' : Database) (m : Body AcceptResult)
    → IsSame d d'
    → Settles d m
    → Settles d (refuse_or r d' m)
unfolding refuse_or in_tx
refuse_or-Settles (err e) d d' m s k = Step-same d d' s
refuse_or-Settles (ok _) d d' m s k = k

module _ (id : String) (req : AcceptRequest) (d : Database) where
  new_event-Settles : Settles d (new_event id req d)
  unfolding new_event
  new_event-Settles = Settles-bind d _ _ λ d' h. Settles-bind d _ _ λ job _.
      let same : IsSame d d' =
        sync_job_authority_tx-IsSame req.job_id req.job_config_revision req.job_revision
          req.definition req.job_enabled req.now d d' h in
      refuse_or-Settles (runnable_refusal job d') d d' _ same
        (accept_occurrence_tx-Settles id req d d' same)

  enqueue_existing-Settles : (o : Option AcceptResult) → Settles d (enqueue_existing o id req d)
  unfolding enqueue_existing
  enqueue_existing-Settles (some existing) = retry_event-Settles existing _ d (
      sync_job_authority_tx-IsSame req.job_id req.job_config_revision req.job_revision
        req.definition req.job_enabled req.now d)
  enqueue_existing-Settles none = new_event-Settles

  pub enqueue_event-Step : Step d (enqueue_event id req d).1
  unfolding enqueue_event
  enqueue_event-Step = Settles-refuse_if d _ _ _ λ _. Settles-bind d _ _ λ _ _.
      Settles-bind d _ _ λ _ _. Settles-bind d _ _ λ existing _. enqueue_existing-Settles existing

admit_attended-Settles :
    (run : Run) (detail : String) (d : Database)
    → IsNew run
    → Settles d (admit_attended run detail d)
unfolding admit_attended
admit_attended-Settles run detail d new =
    Settles-bind d _ _ λ d' h. Settles-commit d _ d' (create_run-Step run detail d d' new h)

pub create_manual_run_if_authority-Step :
    (id : String) (req : AcceptRequest) (d : Database)
    → Step d (create_manual_run_if_authority id req d).1
unfolding create_manual_run_if_authority
create_manual_run_if_authority-Step id req d = Settles-bind d _ _ λ _ _. Settles-bind d _ _ λ _ _.
    Settles-if d (is_guard_tripped req d) _ _
      (λ _. Settles-commit_refusal Run d _ _ (Step-same d _ (update_job-IsSame req.job_id _ d)))
      (λ _. admit_attended-Settles _ _ d (new_run-IsNew id (manual_request req) _ _))

pub create_attended_run-Step :
    (id job_id revision : String) (definition : Definition) (trigger : String) (now : ℕ)
    (d : Database)
    → Step d (create_attended_run id job_id revision definition trigger now d).1
unfolding create_attended_run
create_attended_run-Step id job_id revision definition trigger now d =
    Settles-refuse_if d _ _ _ λ _. admit_attended-Settles _ _ d (new_run-IsNew id _ trigger none)
