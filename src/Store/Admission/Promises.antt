-- ===== src/Store/Admission/Promises.antt =====
-- What a capacity admission promises: `DecideAdmission` of internal/store/store.go.
use herdr_bots.Base.{
  ℕ, String, Bool, true, false, not, ◌≡◌, refl, sym, ap, ◌∙◌, Option, none, some, List, ◌==◌,
  eq_iff, is_empty, Result, ok, err, Error, arith,
}
use herdr_bots.Store.State
use herdr_bots.Store.Schema.{JobState, Run, Database, AdmissionDecision}
use herdr_bots.Store.Table.{Body, in_tx, get_job, get_run, put_run, insert_event}
use herdr_bots.Store.Table.Laws.{get_run-logged, get_run-id, missed}
use herdr_bots.Store.Queries.{executing_runs}
use herdr_bots.Store.Jobs.{is_global_paused}
use herdr_bots.Store.Classify.{Ending}
use herdr_bots.Store.Admission.{
  finish_admission, hold_or_block, Candidate, claim_candidate, apply_decision, capacity_check,
  overlap_conflicts, canary_overlap, decide_candidate, decide_job, decide_run, decide_admission,
}
use herdr_bots.Store.Spec.Post.{Post-refuse_if, Post-bind, Post-if, Post-commit, Post-answer_logged}

-- A run was admitted: it was queued, its job was enabled and not paused, nor was the automation, the
-- capacity check admitted it, and its row is provisioning under the candidate's owner and lease.
pub record IsAdmitted (check : List Run → Result AdmissionDecision) (id : String) (c : Candidate)
    (d d' : Database) : Type 0 where
  pub run : Run
  pub job : JobState
  pub after : Run
  pub decision : AdmissionDecision
  pub found : get_run id d ≡ some run
  pub job_found : get_job run.job_id d ≡ some job
  pub queued : run.state ≡ State.accepted
  pub enabled : job.enabled ≡ true
  pub unpaused : job.paused ≡ false
  pub going : is_global_paused d ≡ false
  pub checked : check (executing_runs d) ≡ ok decision
  pub admits : decision.admit ≡ true
  pub stored : get_run id d' ≡ some after
  pub written : d'.runs ≡ (put_run after d).runs
  pub state : after.state ≡ State.provisioning
  pub owner : after.provisioning_owner ≡ c.owner
  pub lease : after.provisioning_lease_until ≡ c.lease_until
  pub device : after.disk_device ≡ c.disk_device
  pub reserve : after.disk_reserve_gib ≡ c.disk_reserve_gib

abbrev Answers : (Database → Type 0) → Result Bool → Database → Type 0
Answers Q a d' = a ≡ ok true → Q d'

module _ (Q : Database → Type 0) (d : Database) where
  abbrev Sound : Body Bool → Type 0
  Sound m = Answers Q (in_tx d m).0 (in_tx d m).1

  refused : (e : Error) → Answers Q (err e) d
  refused e h = cc

  finish_admission_never :
      (id : String) (e : Ending) (now : ℕ) → Sound (finish_admission id e now d)
  unfolding finish_admission
  finish_admission_never id e now = Post-bind (Answers Q) d refused _ _ λ lane _.
      Post-answer_logged (Answers Q) d refused _ _ _ _ _ _ _ _ _ _ (λ h. missed h)
        λ r q g h. missed h

  hold_or_block_never :
      (run : Run) (code detail : String) (now : ℕ) → Sound (hold_or_block run code detail now d)
  unfolding hold_or_block
  hold_or_block_never run code detail now =
      Post-if (Answers Q) d refused (run.trigger == "canary") _ _
        (λ _. finish_admission_never run.id _ now)
        λ _. Post-commit (Answers Q) d refused _ _ λ h. missed h

module _ (check : List Run → Result AdmissionDecision) (id : String) (c : Candidate) (d : Database)
    (run : Run) (job : JobState) (found : get_run id d ≡ some run)
    (job_found : get_job run.job_id d ≡ some job) where
  abbrev Q : Database → Type 0
  Q = IsAdmitted check id c d

  module _ (queued : run.state ≡ State.accepted) (enabled : job.enabled ≡ true)
      (unpaused : job.paused ≡ false) (going : is_global_paused d ≡ false) where
    capacity_check-Sound : Sound Q d (capacity_check check run c d)
    unfolding capacity_check apply_decision claim_candidate insert_event
    capacity_check-Sound =
        let P = Answers Q in
        let no = refused Q d in
        Post-bind P d no _ _ λ decision checked. Post-refuse_if P d no _ _ _ λ _.
          Post-refuse_if P d no _ _ _ λ _.
            Post-if P d no (not (is_empty decision.failure_code)) _ _
              (λ _. finish_admission_never Q d run.id _ c.now)
              λ _.
                Post-if P d no (not decision.admit) _ _
                  (λ _.
                    Post-if P d no (is_empty decision.hold_code) _ _
                      (λ _. hold_or_block_never Q d run _ _ c.now)
                      λ _. hold_or_block_never Q d run _ _ c.now)
                  λ admits.
                    Post-answer_logged P d no _ _ _ _ _ _ _ _ _ _ (λ h. missed h)
                      λ r q g h.
                        let q' : get_run id d ≡ some r =
                          ap (λ k. get_run k d) (sym (get_run-id id d run found)) ∙ q in
                        record {
                          run = run;
                          job = job;
                          after = _;
                          decision = decision;
                          found = found;
                          job_found = job_found;
                          queued = queued;
                          enabled = enabled;
                          unpaused = unpaused;
                          going = going;
                          checked = checked;
                          admits = ground arith;
                          stored = get_run-logged id d r _ _ _ _ _ _ _ q' refl;
                          written = refl;
                          state = refl;
                          owner = refl;
                          lease = refl;
                          device = refl;
                          reserve = refl;
                        }

    canary_overlap-Sound :
        (overlap : Option String) → Sound Q d (canary_overlap overlap check run c d)
    unfolding canary_overlap
    canary_overlap-Sound none = finish_admission_never Q d run.id _ c.now
    canary_overlap-Sound (some overlap) =
        Post-if (Answers Q) d (refused Q d) (overlap_conflicts run overlap d) _ _
          (λ _. finish_admission_never Q d run.id _ c.now) λ _. capacity_check-Sound

  decide_candidate-Sound : Sound Q d (decide_candidate check run job c d)
  unfolding decide_candidate
  decide_candidate-Sound =
      let P = Answers Q in
      let no = refused Q d in
      Post-if P d no (not (run.state == State.accepted)) _ _
        (λ _. Post-commit P d no _ _ λ h. missed h)
        λ s.
          Post-if P d no (not job.enabled) _ _ (λ _. hold_or_block_never Q d run _ _ c.now)
            λ e.
              Post-if P d no job.paused _ _ (λ _. hold_or_block_never Q d run _ _ c.now)
                λ u.
                  Post-if P d no (is_global_paused d) _ _
                    (λ _. hold_or_block_never Q d run _ _ c.now)
                    λ g.
                      let queued : run.state ≡ State.accepted =
                        ground (arith, eq_iff run.state State.accepted) in
                      let enabled : job.enabled ≡ true = ground arith in
                      Post-if P d no (run.trigger == "canary") _ _
                        (λ _. canary_overlap-Sound queued enabled u g run.definition.as_overlap)
                        λ _. capacity_check-Sound queued enabled u g

module _ (check : List Run → Result AdmissionDecision) (id : String) (c : Candidate)
    (d : Database) where
  decide_job-Sound :
      (run : Run) (job : Option JobState)
      → get_run id d ≡ some run
      → get_job run.job_id d ≡ job
      → Sound (IsAdmitted check id c d) d (decide_job check run job c d)
  unfolding decide_job
  decide_job-Sound run none f g =
      Post-commit (Answers (IsAdmitted check id c d)) d (refused (IsAdmitted check id c d) d) _ _
        λ h. missed h
  decide_job-Sound run (some job) f g = decide_candidate-Sound check id c d run job f g

  decide_run-Sound :
      (run : Option Run)
      → get_run id d ≡ run
      → Sound (IsAdmitted check id c d) d (decide_run check run c d)
  unfolding decide_run
  decide_run-Sound none f =
      Post-commit (Answers (IsAdmitted check id c d)) d (refused (IsAdmitted check id c d) d) _ _
        λ h. missed h
  decide_run-Sound (some run) f = decide_job-Sound run _ f refl

-- A run is admitted only if it was queued, its job enabled and not paused, nor the automation
-- paused, and the capacity check, given all rows that execute, admitted it; and then its row is
-- provisioning, with the candidate's owner, lease, device and reserve.
pub decide_admission-IsAdmitted :
    (check : List Run → Result AdmissionDecision) (id : String) (c : Candidate) (d : Database)
    → (decide_admission check id c d).0 ≡ ok true
    → IsAdmitted check id c d (decide_admission check id c d).1
unfolding decide_admission
decide_admission-IsAdmitted check id c d =
    let Q = IsAdmitted check id c d in
    Post-bind (Answers Q) d (refused Q d) _ _
      λ _ _. Post-bind (Answers Q) d (refused Q d) _ _ λ _ _. decide_run-Sound check id c d _ refl
