-- ===== src/Config/Validate/Policy.antt =====
-- The acceptance policies that the configuration accepts, under the classification of finished
-- runs: `Job.validate` and `ClassifyTerminalRun` of internal/config/config.go.
use herdr_bots.Base.{
  refl, sym, subst, ℤ, pos, eq_int, lt_int, String, Bool, true, false, ◌||◌, ◌≡◌, inl, inr, List,
  [], ◌∷◌, ◌==◌, Option, none, some, ok, ◌>>=◌, refuse_if, if◌then◌else◌, Bool-cases, arith, eq_iff,
}
use herdr_bots.Text.{is_any_of}
use herdr_bots.Config.{Job, Verifier, Acceptance}
use herdr_bots.Config.Accept.{
  Lane, classify_passed, has_deterministic_verifier, acceptance_sampled, no_empty_argument,
  acceptance_mandatory, acceptance_auto, acceptance_sample,
}
use herdr_bots.Config.Validate.{validate_verifier, no_empty_arguments, validate_acceptance}
use herdr_bots.Config.Validate.Sound.{job_checks-All, validate}

no_empty_arguments-argument :
    (arguments : List String)
    → no_empty_arguments arguments ≡ ok tt
    → no_empty_argument arguments ≡ true
unfolding no_empty_arguments no_empty_argument ◌>>=◌ refuse_if
no_empty_arguments-argument [] h = refl
no_empty_arguments-argument (argument ∷ arguments) h =
    ground (arith, no_empty_arguments-argument arguments (ground arith))

verifier-has :
    (v : Verifier) → validate_verifier (some v) ≡ ok tt → has_deterministic_verifier (some v) ≡ true
unfolding validate_verifier has_deterministic_verifier
verifier-has v h = command-has v.command h
  where
    command-has :
        (command : List String)
        → validate_verifier (some (record { command = command })) ≡ ok tt
        → has_deterministic_verifier (some (record { command = command })) ≡ true
    command-has [] h = cc
    command-has (argument ∷ arguments) h = no_empty_arguments-argument (argument ∷ arguments) h

-- The reasons by which a passed run needs a human because its job is ill-formed.
abbrev pub ill_formed_reasons : List String
ill_formed_reasons = "acceptance_invalid" ∷ "verifier_missing" ∷ "acceptance_unknown" ∷ []

validate_acceptance-mode :
    (a : Acceptance) (v : Option Verifier)
    → validate_acceptance (some a) v ≡ ok tt
    → is_any_of a.mode (acceptance_mandatory ∷ acceptance_auto ∷ acceptance_sample ∷ []) ≡ true
unfolding validate_acceptance ◌>>=◌ refuse_if is_any_of
validate_acceptance-mode a v h = ground arith

sampled-reason :
    (sampled : Bool)
    → is_any_of
        (if◌then◌else◌ {A = Lane} sampled
          (record { lane = acceptance_sample; reason = "sampled"; unread = true })
          (record { lane = acceptance_auto; reason = "unsampled"; unread = false })).reason
        ill_formed_reasons
      ≡ false
unfolding is_any_of
sampled-reason true = refl
sampled-reason false = refl

-- One lemma for each mode that the validation accepts.
module _ (j : Job) (run_id : String) (percent : ℤ) where
  abbrev policy : String → Acceptance
  policy mode = record { mode = mode; sample_percent = percent }

  abbrev IsAccepting : Option Verifier → String → Type 0
  IsAccepting v mode =
      validate_verifier v ≡ ok tt
      → validate_acceptance (some (policy mode)) v ≡ ok tt
      → is_any_of
          (classify_passed (record j { acceptance = some (policy mode); verifier = v })
            run_id).reason
          ill_formed_reasons
        ≡ false

  auto_percent :
      (v : Option Verifier)
      → validate_acceptance (some (policy acceptance_auto)) v ≡ ok tt
      → eq_int percent (pos 0) ≡ true
  unfolding validate_acceptance ◌>>=◌ refuse_if
  auto_percent v h = ground arith

  sample_percent_in :
      (v : Option Verifier)
      → validate_acceptance (some (policy acceptance_sample)) v ≡ ok tt
      → (lt_int percent (pos 1) || lt_int (pos 100) percent) ≡ false
  unfolding validate_acceptance ◌>>=◌ refuse_if
  sample_percent_in v h = ground arith

  mandatory-IsAccepting : (v : Option Verifier) → IsAccepting v acceptance_mandatory
  unfolding classify_passed is_any_of
  mandatory-IsAccepting v h k = refl

  auto-IsAccepting : (v : Option Verifier) → IsAccepting v acceptance_auto
  unfolding classify_passed validate_acceptance is_any_of ◌>>=◌ refuse_if
  auto-IsAccepting none h k = ground arith
  auto-IsAccepting (some v) h k = rw (auto_percent (some v) k, verifier-has v h)

  sample-IsAccepting : (v : Option Verifier) → IsAccepting v acceptance_sample
  unfolding classify_passed validate_acceptance is_any_of ◌>>=◌ refuse_if
  sample-IsAccepting none h k = ground arith
  sample-IsAccepting (some v) h k =
      rw (sample_percent_in (some v) k, verifier-has v h)
        (sampled-reason (acceptance_sampled run_id percent))

  mode-IsAccepting :
      (v : Option Verifier) (mode : String)
      → is_any_of mode (acceptance_mandatory ∷ acceptance_auto ∷ acceptance_sample ∷ []) ≡ true
      → IsAccepting v mode
  unfolding is_any_of
  mode-IsAccepting v mode h = elim (Bool-cases (mode == acceptance_mandatory)) [
    | inl e ↦
        subst (IsAccepting v) (sym ((eq_iff mode acceptance_mandatory).0 e))
          (mandatory-IsAccepting v)
    | inr n ↦ elim (Bool-cases (mode == acceptance_auto)) [
      | inl e ↦ subst (IsAccepting v) (sym ((eq_iff mode acceptance_auto).0 e)) (auto-IsAccepting v)
      | inr m ↦
          subst (IsAccepting v) (sym ((eq_iff mode acceptance_sample).0 (ground (arith, h, n, m))))
            (sample-IsAccepting v)
    ]
  ]

passed-IsWellFormed :
    (j : Job) (run_id : String) (a : Option Acceptance) (v : Option Verifier)
    → validate_verifier v ≡ ok tt
    → validate_acceptance a v ≡ ok tt
    → is_any_of
        (classify_passed (record j { acceptance = a; verifier = v }) run_id).reason
        ill_formed_reasons
      ≡ false
unfolding classify_passed is_any_of
passed-IsWellFormed j run_id none v h k = refl
passed-IsWellFormed j run_id (some a) v h k =
    mode-IsAccepting j run_id a.sample_percent v a.mode (validate_acceptance-mode a v k) h k

module _ (location_loads cron_parses rfc3339_parses : String → Bool) where
  -- A finished run of an accepted job is never sent to a human because the job's own acceptance policy
  -- is ill-formed: for a passed run the lane's reason is none of "acceptance_invalid",
  -- "verifier_missing" and "acceptance_unknown".
  pub validate_job-accepts :
      (j : Job) (run_id : String)
      → validate location_loads cron_parses rfc3339_parses j ≡ ok tt
      → is_any_of (classify_passed j run_id).reason ill_formed_reasons ≡ false
  validate_job-accepts j run_id h =
      let checks =
        (job_checks-All location_loads cron_parses rfc3339_parses j h).1.1.1.1.1.1.1.1.1.1.1.1.1 in
      passed-IsWellFormed j run_id j.acceptance j.verifier checks.0 checks.1.0
