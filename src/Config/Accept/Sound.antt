-- ===== src/Config/Accept/Sound.antt =====
-- Which terminal runs skip a human's acceptance: internal/config/config.go, `ClassifyTerminalRun`.
use herdr_bots.Base.{String, true, false, ◌≡◌, ◌⊎◌, eq_iff, arith}
use herdr_bots.Config.{Job}
use herdr_bots.Config.Accept.{
  acceptance_auto, acceptance_sample, acceptance_mode, has_deterministic_verifier,
  acceptance_sampled, normalize_verdict, classify_passed, classify_terminal_run, sample_percent_of,
}

-- What lets a run through unread: the mode, the verifier and the sample.
pub record IsQuiet (j : Job) (run_id : String) : Type 0 where
  pub verified : has_deterministic_verifier j.verifier ≡ true
  pub mode :
      (acceptance_mode j.acceptance ≡ acceptance_auto)
      ⊎ ((acceptance_mode j.acceptance ≡ acceptance_sample)
          × (acceptance_sampled run_id (sample_percent_of j.acceptance) ≡ false))

pub classify_passed-IsQuiet :
    (j : Job) (run_id : String) → (classify_passed j run_id).unread ≡ false → IsQuiet j run_id
unfolding classify_passed
classify_passed-IsQuiet j run_id h = record {
  verified = ground arith;
  mode = ground (
    arith,
    eq_iff (acceptance_mode j.acceptance) acceptance_auto,
    eq_iff (acceptance_mode j.acceptance) acceptance_sample,
  );
}

-- A finished run stays out of the unread inbox only if it succeeded with the verdict passed, under
-- a verifier with a command, in the mode auto, or in the mode sample and outside the sample.
pub classify_terminal_run-IsQuiet :
    (j : Job) (run_id state verdict : String)
    → (classify_terminal_run j run_id state verdict).unread ≡ false
    → (state ≡ "succeeded") × (normalize_verdict verdict ≡ "passed") × IsQuiet j run_id
unfolding classify_terminal_run
classify_terminal_run-IsQuiet j run_id state verdict h = (
  ground (arith, eq_iff state "succeeded"),
  ground (arith, eq_iff (normalize_verdict verdict) "passed"),
  classify_passed-IsQuiet j run_id (ground arith),
)
