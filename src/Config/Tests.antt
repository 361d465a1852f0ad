-- ===== src/Config/Tests.antt =====
-- The validation of a configuration on concrete jobs.
use herdr_bots.Base.{
  ◌>>=◌, refuse_if, all_checks, pos, String, Bool, true, false, ◌≡◌, refl, none, some, [], ◌∷◌, All,
  ok, is_empty, not,
}
use herdr_bots.Text.{
  is_any_of, has_prefix, has_suffix, trim_suffix, contains, contains_any, contains_rune, split_on,
}
use herdr_bots.Text.Path.{clean, join_path}
use herdr_bots.Config.{Job, mib}
use herdr_bots.Config.Accept.{classify_passed, trim_space}
use herdr_bots.Config.Scope.{
  has_traversal_segment, validate_scope_entries, validate_scope_entry, validate_scope_path,
}
use herdr_bots.Base.{lt_int}
use herdr_bots.Config.Defaults.{catch_up_grace}
use herdr_bots.Config.Inputs.{expand_input_samples}
use herdr_bots.Config.Validate.{validate_execution, Config, validate_job, load}
use herdr_bots.Config.Validate.Sound.{IsInRange, IsLoaded, IsBounded, load-IsSound}
use herdr_bots.Config.Validate.Policy.{ill_formed_reasons, validate_job-accepts}

-- A test of the text alone stands for the clock's database and the parsers.
abbrev pub known : String → Bool
known text = not (is_empty text)

-- As it stands in the file, before the defaults.
abbrev pub reviewer : Job
reviewer = record {
  id = "review-notes";
  revision = pos 0;
  enabled = none;
  schedule = record {
    kind = "cron";
    expression = "0 6 * * *";
    at = "";
    timezone = "Europe/London";
    catch_up_grace_minutes = none;
  };
  execution = record {
    repository = "~/notes";
    workspace = "";
    base_ref = "main";
    harness = "claude-code";
    provider = "";
    model = "claude-opus-4";
    thinking = "";
    permission_profile = "repo-write-no-network";
    require_model_attestation = some true;
    inputs = record { source = "/data/{date}.md"; destination = ".herdr-bots/inputs/day.md" } ∷ [];
    allowed_write_paths = "docs/" ∷ "README.md" ∷ [];
  };
  run_if_changed = false;
  prompt = "Review the notes.";
  timeout_minutes = pos 0;
  overlap = "";
  verifier = some (record { command = "make" ∷ "check" ∷ [] });
  acceptance = some (record { mode = "sample"; sample_percent = pos 25 });
  limits = record { max_runs_per_day = pos 0; disk_reserve_gib = none };
  attention = none;
}

abbrev file : Config
file = record {
  version = pos 0;
  capacity = record { max_concurrent_runs = none; min_free_disk_gib = none };
  jobs = reviewer ∷ [];
}

dates_expand : expand_input_samples "/d/{year}/{month}/{date}.md" ≡ some "/d/2026/01/2026-01-02.md"
unfolding expand_input_samples contains_any
dates_expand = refl

cleaned : clean "a//b/./../c/" ≡ "a/c"
unfolding clean has_prefix split_on
cleaned = refl

cleaned_root : clean "/../x" ≡ "/x"
unfolding clean has_prefix split_on
cleaned_root = refl

abbrev pub loaded_job : Job
loaded_job = record reviewer {
  revision = pos 1;
  enabled = some true;
  schedule = record (reviewer.schedule) { catch_up_grace_minutes = some (pos 120) };
  execution = record (reviewer.execution) {
    repository = "/home/u/notes";
    workspace = "worktree";
    thinking = "high";
  };
  timeout_minutes = pos 60;
  overlap = "forbid";
  limits = record { max_runs_per_day = pos 10; disk_reserve_gib = some (mib 1280) };
}

abbrev loaded_file : Config
loaded_file = record {
  version = pos 1;
  capacity = record { max_concurrent_runs = some (pos 2); min_free_disk_gib = some (mib 3072) };
  jobs = loaded_job ∷ [];
}

file_loads : load known known known "/home/u" file ≡ ok loaded_file
unfolding load has_prefix has_suffix trim_suffix contains contains_any contains_rune split_on clean
    is_any_of ◌>>=◌ refuse_if all_checks join_path has_traversal_segment validate_scope_entries
    validate_scope_entry validate_scope_path
file_loads = refl

job_passes : validate_job known known known loaded_job ≡ ok tt
unfolding validate_job has_prefix has_suffix trim_suffix contains contains_any contains_rune
    split_on clean is_any_of ◌>>=◌ refuse_if all_checks join_path has_traversal_segment
    validate_scope_entries validate_scope_entry validate_scope_path
job_passes = refl

file-IsSound :
    IsInRange loaded_file.capacity
    × IsLoaded known known known [] (loaded_job ∷ [])
    × All IsBounded (loaded_job ∷ [])
file-IsSound = load-IsSound known known known "/home/u" file loaded_file file_loads

job_accepts : is_any_of (classify_passed loaded_job "run-1").reason ill_formed_reasons ≡ false
job_accepts = validate_job-accepts known known known loaded_job "run-1" job_passes

pub execution_passes : validate_execution (loaded_job.execution) ≡ ok tt
unfolding validate_execution trim_space has_prefix has_suffix trim_suffix contains contains_any
    contains_rune split_on clean is_any_of ◌>>=◌ refuse_if all_checks has_traversal_segment
    validate_scope_entries validate_scope_entry validate_scope_path
execution_passes = refl

-- A grace of 153722868 minutes has wrapped to a negative one, though validation accepts it.
grace_wraps : lt_int (catch_up_grace (some (pos 153722868))) (pos 0) ≡ true
unfolding catch_up_grace
grace_wraps = refl
