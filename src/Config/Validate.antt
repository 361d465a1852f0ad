-- ===== src/Config/Validate.antt =====
-- What `Load` of internal/config/config.go refuses: the checks of the capacity, of each job, its
-- schedule and its execution, and of repeated identifiers. The texts of the errors are shortened.
-- `time.LoadLocation`, the cron parser and `time.Parse` are tests on a text.
pub mod Sound
pub mod Policy
use Prim.Native.String.{len}
use herdr_bots.Base.{
  ℕ, ℤ, pos, lt_int, eq_int, String, Bool, true, false, not, ◌&&◌, ◌||◌, ◌==◌, is_empty, ltb, leb,
  List, [], ◌∷◌, Option, none, some, Result, ok, err, message, refuse_if, ◌>>=◌, ◌>>◌, all_checks,
  if◌then◌else◌,
}
use herdr_bots.Text.{has_prefix, contains_any, is_any_of}
use herdr_bots.Text.Path.{is_abs}
use herdr_bots.Config.{
  Job, Schedule, Execution, Verifier, Acceptance, Attention, Capacity, Gib, mib, below_zero,
  not_a_number, infinite,
}
use herdr_bots.Config.Accept.{trim_space, acceptance_mandatory, acceptance_auto, acceptance_sample}
use herdr_bots.Config.Defaults.{
  disk_reserve_gib, max_concurrent, min_free_disk_gib, apply_capacity_defaults, apply_job_defaults,
}
use herdr_bots.Config.Disk.{gib_outside}
use herdr_bots.Config.Ids.{valid_id}
use herdr_bots.Config.Scope.{
  permission_read_only, permission_repo_write, validate_allowed_write_paths,
}
use herdr_bots.Config.Inputs.{validate_inputs}

-- A version, and what the file says of capacity and jobs.
pub record Config : Type 0 where
  pub version : ℤ
  pub capacity : Capacity
  pub jobs : List Job

abbrev outside_of : ℤ → ℕ → ℕ → Bool
outside_of n low high = lt_int n (pos low) || lt_int (pos high) n

unfoldable pub validate_capacity : Capacity → Result (Unit {0})
unfolding max_concurrent min_free_disk_gib gib_outside
validate_capacity c =
    refuse_if (outside_of (max_concurrent c) 1 32)
      (message "capacity.max_concurrent_runs must be between 1 and 32")
    >> refuse_if (gib_outside (min_free_disk_gib c) 512 1048576)
        (message "capacity.min_free_disk_gib must be between 0.5 and 1024")

negative_or_none : Option ℤ → Bool
negative_or_none none = true
negative_or_none (some n) = lt_int n (pos 0)

module _ (location_loads cron_parses rfc3339_parses : String → Bool) where
  validate_schedule_kind : Schedule → Result (Unit {0})
  validate_schedule_kind s =
      if s.kind == "cron"
      then refuse_if (is_empty (trim_space s.expression) || not (is_empty s.at))
          (message "cron schedule requires expression and forbids at")
        >> refuse_if (not (cron_parses s.expression)) (message "invalid cron expression")
      else if s.kind == "once"
      then refuse_if (is_empty s.at || not (is_empty s.expression))
          (message "once schedule requires at and forbids expression")
        >> refuse_if (not (rfc3339_parses s.at)) (message "schedule.at must be RFC3339")
      else refuse_if (not (is_empty s.expression) || not (is_empty s.at))
          (message "event schedule forbids expression and at")

  -- `Schedule.validate`
  unfoldable pub validate_schedule : Schedule → Result (Unit {0})
  unfolding negative_or_none validate_schedule_kind trim_space
  validate_schedule s =
      refuse_if (not (is_any_of s.kind ("cron" ∷ "once" ∷ "event" ∷ [])))
        (message "schedule.kind must be cron, once, or event")
      >> refuse_if (is_empty s.timezone) (message "schedule.timezone is required")
      >> refuse_if (not (location_loads s.timezone)) (message "invalid timezone")
      >> refuse_if (negative_or_none s.catch_up_grace_minutes)
          (message "catch_up_grace_minutes must be zero or positive")
      >> validate_schedule_kind s

abbrev model_aliases : List String
model_aliases = "opus" ∷ "sonnet" ∷ "fable" ∷ "haiku" ∷ []

-- The attestation that a job asks for.
unfoldable pub validate_attestation : Option Bool → (harness model : String) → Result (Unit {0})
validate_attestation none harness model = ok tt
validate_attestation (some wanted) harness model =
    refuse_if (not (harness == "claude-code"))
      (message "require_model_attestation is only valid with the claude-code harness")
    >> refuse_if (wanted && model == "harness-default")
        (message "require_model_attestation requires an explicit full model name")
    >> refuse_if (wanted && is_any_of model model_aliases)
        (message "require_model_attestation rejects the model alias")
    >> refuse_if (wanted && (not (has_prefix model "claude-") || leb (len model) 7))
        (message "require_model_attestation requires a full model name beginning with claude-")

-- The checks of `Execution.validate`, in its order.
abbrev pub execution_checks : Execution → List (Result (Unit {0}))
execution_checks e =
    (refuse_if (not (is_abs e.repository)) (message "repository must resolve to an absolute path"))
    ∷ (refuse_if (not (e.workspace == "worktree")) (message "workspace must be worktree"))
    ∷ (refuse_if
        (not (trim_space e.base_ref == e.base_ref)
          || has_prefix e.base_ref "-"
          || contains_any e.base_ref "\0\r\n")
        (message "base_ref is invalid"))
    ∷ (refuse_if (not (is_any_of e.harness ("claude-code" ∷ "pi" ∷ [])))
        (message "harness must be claude-code or pi"))
    ∷ (refuse_if (is_empty e.model) (message "model is required"))
    ∷ (refuse_if (e.harness == "pi" && is_empty e.provider)
        (message "pi execution requires an explicit provider"))
    ∷ (refuse_if (e.harness == "claude-code" && not (is_empty e.provider))
        (message "claude-code execution does not accept provider"))
    ∷ (validate_attestation e.require_model_attestation e.harness e.model)
    ∷ (refuse_if
        (not (
          is_any_of e.thinking
            ("off" ∷ "minimal" ∷ "low" ∷ "medium" ∷ "high" ∷ "xhigh" ∷ "max" ∷ [])))
        (message "unsupported thinking level"))
    ∷ (refuse_if (e.harness == "claude-code" && (e.thinking == "off" || e.thinking == "minimal"))
        (message "claude-code thinking must be low, medium, high, xhigh, or max"))
    ∷ (refuse_if
        (not (is_any_of e.permission_profile (permission_read_only ∷ permission_repo_write ∷ [])))
        (message "permission_profile must be read-only or repo-write"))
    ∷ (validate_inputs e)
    ∷ (validate_allowed_write_paths e)
    ∷ []

unfoldable pub validate_execution : Execution → Result (Unit {0})
unfolding validate_attestation validate_inputs validate_allowed_write_paths
validate_execution e = all_checks (execution_checks e)

unfoldable pub no_empty_arguments : List String → Result (Unit {0})
no_empty_arguments [] = ok tt
no_empty_arguments (argument ∷ arguments) =
    refuse_if (is_empty argument) (message "verifier.command contains an empty argument")
    >> no_empty_arguments arguments

validate_command : List String → Result (Unit {0})
validate_command [] = err (message "verifier.command must not be empty")
validate_command (argument ∷ arguments) = no_empty_arguments (argument ∷ arguments)

unfoldable pub validate_verifier : Option Verifier → Result (Unit {0})
unfolding no_empty_arguments validate_command
validate_verifier none = ok tt
validate_verifier (some v) = validate_command v.command

unread_given : Option ℤ → Bool
unread_given none = false
unread_given (some n) = outside_of n 1 1000

unfoldable pub unread_out_of_range : Option Attention → Bool
unfolding unread_given
unread_out_of_range none = false
unread_out_of_range (some a) = unread_given a.max_unread_terminal_runs

is_missing {ℓ} : {A : Type ℓ} → Option A → Bool
is_missing none = true
is_missing (some _) = false

unfoldable pub validate_acceptance : Option Acceptance → Option Verifier → Result (Unit {0})
unfolding is_missing
validate_acceptance none verifier = ok tt
validate_acceptance (some a) verifier =
    if a.mode == acceptance_mandatory
    then refuse_if (not (eq_int a.sample_percent (pos 0)))
        (message "sample_percent is allowed only for sample mode")
    else if a.mode == acceptance_auto
    then refuse_if (not (eq_int a.sample_percent (pos 0)))
        (message "sample_percent is allowed only for sample mode")
      >> refuse_if (is_missing verifier) (message "auto mode requires a verifier")
    else if a.mode == acceptance_sample
    then refuse_if (is_missing verifier) (message "sample mode requires a verifier")
      >> refuse_if (outside_of a.sample_percent 1 100)
          (message "sample_percent must be between 1 and 100")
    else err (message "mode must be mandatory, auto, or sample")

module _ (location_loads cron_parses rfc3339_parses : String → Bool) where
  -- The checks of `Job.validate`, in its order.
  abbrev pub job_checks : Job → List (Result (Unit {0}))
  job_checks j =
      (refuse_if (is_empty j.id) (message "job without an id"))
      ∷ (refuse_if (not (valid_id j.id)) (message "invalid id"))
      ∷ (refuse_if (lt_int j.revision (pos 1)) (message "revision must be at least 1"))
      ∷ (refuse_if (is_empty (trim_space j.prompt)) (message "prompt is required"))
      ∷ (refuse_if (outside_of j.timeout_minutes 1 1440)
          (message "timeout_minutes must be between 1 and 1440"))
      ∷ (refuse_if (not (is_any_of j.overlap ("forbid" ∷ "queue_one" ∷ "allow" ∷ [])))
          (message "overlap must be forbid, queue_one, or allow"))
      ∷ (refuse_if (lt_int j.limits.max_runs_per_day (pos 1))
          (message "max_runs_per_day must be positive"))
      ∷ (refuse_if (gib_outside (disk_reserve_gib j) 256 65536)
          (message "disk_reserve_gib must be between 0.25 and 64"))
      ∷ (refuse_if (unread_out_of_range j.attention)
          (message "attention.max_unread_terminal_runs must be between 1 and 1000"))
      ∷ (validate_schedule location_loads cron_parses rfc3339_parses j.schedule)
      ∷ (validate_execution j.execution)
      ∷ (refuse_if (j.run_if_changed && j.schedule.kind == "event")
          (message "event schedules forbid run_if_changed"))
      ∷ (refuse_if (j.run_if_changed && is_empty j.execution.base_ref)
          (message "run_if_changed requires execution.base_ref"))
      ∷ (validate_verifier j.verifier)
      ∷ (validate_acceptance j.acceptance j.verifier)
      ∷ []

  -- `Job.validate`
  unfoldable pub validate_job : Job → Result (Unit {0})
  unfolding validate_schedule validate_execution validate_verifier validate_acceptance
      unread_out_of_range disk_reserve_gib gib_outside valid_id
  validate_job j = all_checks (job_checks j)

  -- The loop over the jobs, with the identifiers seen so far; it gives the jobs with their defaults.
  unfoldable pub load_jobs : (home : String) → List Job → (seen : List String) → Result (List Job)
  unfolding validate_job apply_job_defaults
  load_jobs home [] seen = ok []
  load_jobs home (job ∷ jobs) seen =
      let j = apply_job_defaults home job in
      validate_job j
      >> refuse_if (is_any_of j.id seen) (message "duplicate job id")
      >> load_jobs home jobs (j.id ∷ seen)
      >>= λ loaded. ok (j ∷ loaded)

  -- `Load` from the decoded file on: a version of 0 is the current one, 1.
  unfoldable pub load : (home : String) → Config → Result Config
  unfolding load_jobs validate_capacity apply_capacity_defaults
  load home c =
      let version = if eq_int c.version (pos 0) then pos 1 else c.version in
      let capacity = apply_capacity_defaults c.capacity in
      refuse_if (not (eq_int version (pos 1))) (message "unsupported config version")
      >> validate_capacity capacity
      >> load_jobs home c.jobs []
      >>= λ jobs. ok (record { version = version; capacity = capacity; jobs = jobs })
