-- ===== src/Store/Occurrences/Steps.antt =====
-- Admission of an occurrence makes a step: nothing, or one new accepted run.
use herdr_bots.Base.{
  ℕ, String, true, false, ◌≡◌, refl, sym, ap, ◌∙◌, Option, none, some, ◌∷◌, ok, >>=-eq-ok, arith,
}
use herdr_bots.Store.State
use herdr_bots.Store.Schema.{Run, Occurrence, Event, Database, AcceptRequest, AcceptResult}
use herdr_bots.Store.Table.{get_run, insert_occurrence, insert_run, insert_event}
use herdr_bots.Store.Jobs.Steps.{update_job-IsSame}
use herdr_bots.Store.Occurrences.{
  finish_occurrence, new_run, create_run, admit_occurrence, is_guard_tripped, skip_reason,
  admit_or_skip, decide_occurrence, accept_existing, accept_occurrence_tx, accept_occurrence,
  accept_scheduled_occurrence, insert_or_ignore, record_occurrence_if_authority,
}
use herdr_bots.Store.Spec.{Step, IsNew, create}
use herdr_bots.Store.Spec.Rules.{
  IsSame, Settles, Step-refl, Step-same, Step-then, Settles-after, Settles-refuse_if, Settles-bind,
  Settles-seq, Settles-if, Settles-commit,
}

pub insert_occurrence-IsSame :
    (o : Occurrence) (d d' : Database) → insert_occurrence o d ≡ ok d' → IsSame d d'
unfolding insert_occurrence
insert_occurrence-IsSame o d d' h = ground arith

-- An inserted run had no row before, and is written with its event.
pub insert_run_lem :
    (run : Run) (d d' : Database)
    → insert_run run d ≡ ok d'
    → (get_run run.id d ≡ none) × (d'.runs ≡ run ∷ d.runs) × (d'.events ≡ d.events)
unfolding insert_run
insert_run_lem run d d' h = ground arith

pub create_run-Step :
    (run : Run) (detail : String) (d d' : Database)
    → IsNew run
    → create_run run detail d ≡ ok d'
    → Step d d'
unfolding create_run insert_event
create_run-Step run detail d d' new h =
    let (x, q, p) = >>=-eq-ok _ (insert_run run d) h in
    let (fresh, runs, events) = insert_run_lem run d x q in
    let e : insert_event run.id "" State.accepted run.accepted_at "" detail x ≡ d' = cc in
    let logged : Event = record {
      run_id = run.id;
      from_state = "";
      to_state = State.accepted;
      at = run.accepted_at;
      code = "";
      detail = detail;
    } in
    create run logged fresh new (ap (λ y. y.runs) (sym e) ∙ runs) refl refl refl
      (ap (λ y. y.events) (sym e) ∙ ap (λ es. logged ∷ es) events)

pub new_run-IsNew :
    (id : String) (req : AcceptRequest) (trigger : String) (scheduled_for : Option ℕ)
    → IsNew (new_run id req trigger scheduled_for)
unfolding new_run
new_run-IsNew id req trigger scheduled_for = record {
  state = refl;
  coherent = record { claim_owner = refl; kind_owner = refl };
  unattested = refl;
  unowned = refl;
}

-- A step, and then an occurrence.
finish-Settles :
    (req : AcceptRequest) (outcome detail run_id : String) (run : Option Run) (d d' : Database)
    → Step d d'
    → Settles d (finish_occurrence req outcome detail run_id run d')
unfolding finish_occurrence
finish-Settles req outcome detail run_id run d d' s =
    Settles-bind d _ _
      λ x h. Settles-commit d _ x (Step-then d d' x s (insert_occurrence-IsSame _ d' x h))

module _ (id : String) (req : AcceptRequest) where
  admit_or_skip-Settles :
      (o : Option (String × String)) (d : Database) → Settles d (admit_or_skip o id req d)
  unfolding admit_or_skip admit_occurrence
  admit_or_skip-Settles none d = Settles-bind d _ _ λ d' h.
      finish-Settles req _ _ id _ d d' (create_run-Step _ _ d d' (new_run-IsNew id req _ _) h)
  admit_or_skip-Settles (some (outcome, detail)) d =
      finish-Settles req outcome detail "" none d d (Step-refl d)

  decide_occurrence-Settles : (d : Database) → Settles d (decide_occurrence id req d)
  unfolding decide_occurrence
  decide_occurrence-Settles d =
      Settles-if d (is_guard_tripped req d) _ _
        (λ _. Settles-commit d _ _ (Step-same d _ (update_job-IsSame req.job_id _ d)))
        (λ _. admit_or_skip-Settles (skip_reason req d) d)

  accept_existing-Settles :
      (o : Option AcceptResult) (start d : Database)
      → IsSame start d
      → Settles start (accept_existing o start id req d)
  unfolding accept_existing
  accept_existing-Settles (some r) start d s = Settles-commit start r start (Step-refl start)
  accept_existing-Settles none start d s = Settles-after start d _ s (decide_occurrence-Settles d)

  pub accept_occurrence_tx-Settles :
      (start d : Database) → IsSame start d → Settles start (accept_occurrence_tx start id req d)
  unfolding accept_occurrence_tx
  accept_occurrence_tx-Settles start d s =
      Settles-bind start _ _ λ o _. accept_existing-Settles o start d s

  pub accept_occurrence-Step : (d : Database) → Step d (accept_occurrence id req d).1
  unfolding accept_occurrence
  accept_occurrence-Step d = Settles-refuse_if d _ _ _ λ _.
      Settles-refuse_if d _ _ _
        λ _. Settles-bind d _ _ λ _ _. accept_occurrence_tx-Settles d d (refl, refl)

  pub accept_scheduled_occurrence-Step :
      (d : Database) → Step d (accept_scheduled_occurrence id req d).1
  unfolding accept_scheduled_occurrence
  accept_scheduled_occurrence-Step d = Settles-refuse_if d _ _ _ λ _. Settles-seq d _ _ λ _.
      Settles-seq d _ _ λ _. Settles-seq d _ _ λ _. accept_occurrence_tx-Settles d d (refl, refl)

pub insert_or_ignore-Settles :
    (q : Option Occurrence) (o : Occurrence) (d : Database) → Settles d (insert_or_ignore q o d)
unfolding insert_or_ignore
insert_or_ignore-Settles (some _) o d = Settles-commit d false d (Step-refl d)
insert_or_ignore-Settles none o d =
    Settles-bind d _ _
      λ d' h. Settles-commit d true d' (Step-same d d' (insert_occurrence-IsSame o d d' h))

pub record_occurrence_if_authority-Step :
    (req : AcceptRequest) (outcome detail : String) (d : Database)
    → Step d (record_occurrence_if_authority req outcome detail d).1
unfolding record_occurrence_if_authority
record_occurrence_if_authority-Step req outcome detail d = Settles-refuse_if d _ _ _ λ _.
    Settles-seq d _ _
      λ _. Settles-seq d _ _ λ _. Settles-seq d _ _ λ _. insert_or_ignore-Settles _ _ d
