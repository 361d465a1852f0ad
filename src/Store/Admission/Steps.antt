-- ===== src/Store/Admission/Steps.antt =====
-- The capacity decision makes a step, whatever the callback answers.
use herdr_bots.Base.{
  ℕ, String, true, false, not, ◌≡◌, Option, none, some, List, ◌==◌, is_empty, eq_iff, Result, arith,
}
use herdr_bots.Config.Accept.{Lane}
use herdr_bots.Store.State
use herdr_bots.Store.State.{live_accepted}
use herdr_bots.Store.Schema.{JobState, Run, Database, AdmissionDecision}
use herdr_bots.Store.Table.{commit, get_run, get_job}
use herdr_bots.Store.Classify.{Ending, set_ending}
use herdr_bots.Store.Jobs.{is_global_paused}
use herdr_bots.Store.Admission.{
  Candidate, finish_admission, hold_or_block, claim_candidate, apply_decision, capacity_check,
  overlap_conflicts, canary_overlap, decide_candidate, decide_job, decide_run, decide_admission,
}
use herdr_bots.Store.Spec.{Keeps, Step}
use herdr_bots.Store.Spec.Rules.{
  Settles, Step-refl, Step-update_logged, Settles-refuse_if, Settles-bind, Settles-seq, Settles-if,
  Settles-commit, Settles-answer,
}

-- An accepted row ends, or is claimed.
end-Keeps :
    (e : Ending) (lane : Lane) (now : ℕ) (r : Run)
    → (r.state == State.accepted) ≡ true
    → let s = set_ending e lane now r in
      Keeps r s × (r.state ≡ State.accepted) × (s.state ≡ e.state)
end-Keeps e lane now r g = ground (arith, eq_iff r.state State.accepted, live_accepted)

claim-Keeps :
    (c : Candidate) (r : Run)
    → (r.state == State.accepted) ≡ true
    → let s = record r {
      state = State.provisioning;
      provisioning_owner = c.owner;
      provisioning_lease_until = c.lease_until;
      disk_device = c.disk_device;
      disk_reserve_gib = c.disk_reserve_gib;
      updated_at = c.now;
    } in
      Keeps r s × (r.state ≡ State.accepted) × (s.state ≡ State.provisioning)
claim-Keeps c r g = ground (arith, eq_iff r.state State.accepted, live_accepted)

module _ (d : Database) where
  leave-Settles : Settles d (commit false d)
  leave-Settles = Settles-commit d false d (Step-refl d)

  finish_admission-Settles :
      (id : String) (e : Ending) (now : ℕ) → Settles d (finish_admission id e now d)
  unfolding finish_admission
  finish_admission-Settles id e now = Settles-bind d _ _ λ lane _. Settles-answer d _ _ _ (
      Step-update_logged id _ _ State.accepted e.state now e.code e.detail d
        λ r _ g. end-Keeps e lane now r g)

  hold_or_block-Settles :
      (run : Run) (code detail : String) (now : ℕ) → Settles d (hold_or_block run code detail now d)
  unfolding hold_or_block
  hold_or_block-Settles run code detail now =
      Settles-if d (run.trigger == "canary") _ _ (λ _. finish_admission-Settles run.id _ now)
        (λ _. leave-Settles)

module _ (check : List Run → Result AdmissionDecision) (run : Run) (c : Candidate)
    (d : Database) where
  claim_candidate-Settles : Settles d (claim_candidate run c d)
  unfolding claim_candidate
  claim_candidate-Settles = Settles-answer d _ _ _ (
      Step-update_logged run.id _ _ State.accepted State.provisioning c.now ""
        "capacity admitted; route validation pending" d λ r _ g. claim-Keeps c r g)

  apply_decision-Settles : (a : AdmissionDecision) → Settles d (apply_decision a run c d)
  unfolding apply_decision
  apply_decision-Settles a = Settles-refuse_if d _ _ _ λ _. Settles-refuse_if d _ _ _ λ _.
      Settles-if d (not (is_empty a.failure_code)) _ _
        (λ _. finish_admission-Settles d run.id _ c.now)
        λ _.
          Settles-if d (not a.admit) _ _
            (λ _.
              Settles-if d (is_empty a.hold_code) _ _ (λ _. hold_or_block-Settles d run _ _ c.now)
                (λ _. hold_or_block-Settles d run _ _ c.now))
            (λ _. claim_candidate-Settles)

  capacity_check-Settles : Settles d (capacity_check check run c d)
  unfolding capacity_check
  capacity_check-Settles = Settles-bind d _ _ λ a _. apply_decision-Settles a

  canary_overlap-Settles : (o : Option String) → Settles d (canary_overlap o check run c d)
  unfolding canary_overlap
  canary_overlap-Settles none = finish_admission-Settles d run.id _ c.now
  canary_overlap-Settles (some overlap) =
      Settles-if d (overlap_conflicts run overlap d) _ _
        (λ _. finish_admission-Settles d run.id _ c.now) (λ _. capacity_check-Settles)

  decide_candidate-Settles : (job : JobState) → Settles d (decide_candidate check run job c d)
  unfolding decide_candidate
  decide_candidate-Settles job =
      Settles-if d (not (run.state == State.accepted)) _ _ (λ _. leave-Settles d)
        λ _.
          Settles-if d (not job.enabled) _ _ (λ _. hold_or_block-Settles d run _ _ c.now)
            λ _.
              Settles-if d job.paused _ _ (λ _. hold_or_block-Settles d run _ _ c.now)
                λ _.
                  Settles-if d (is_global_paused d) _ _ (λ _. hold_or_block-Settles d run _ _ c.now)
                    λ _.
                      Settles-if d (run.trigger == "canary") _ _
                        (λ _. canary_overlap-Settles run.definition.as_overlap)
                        (λ _. capacity_check-Settles)

  decide_job-Settles : (o : Option JobState) → Settles d (decide_job check run o c d)
  unfolding decide_job
  decide_job-Settles none = leave-Settles d
  decide_job-Settles (some job) = decide_candidate-Settles job

module _ (check : List Run → Result AdmissionDecision) (c : Candidate) (d : Database) where
  decide_run-Settles : (o : Option Run) → Settles d (decide_run check o c d)
  unfolding decide_run
  decide_run-Settles none = leave-Settles d
  decide_run-Settles (some run) = decide_job-Settles check run c d (get_job run.job_id d)

  pub decide_admission-Step : (id : String) → Step d (decide_admission check id c d).1
  unfolding decide_admission
  decide_admission-Step id =
      Settles-seq d _ _ λ _. Settles-seq d _ _ λ _. decide_run-Settles (get_run id d)
