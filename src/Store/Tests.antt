-- ===== src/Store/Tests.antt =====
-- The store on concrete rows: one job, and runs of it in the states that its methods meet.
pub mod Traces
pub mod Guards
pub mod Recovery
pub mod Events
pub mod Authority
pub mod Quiet
use herdr_bots.Base.{
  ℕ, ℤ, pos, String, Bool, true, false, ◌≡◌, refl, Option, none, some, List, [], ◌∷◌, ◌<◌, Result,
  ok, arith, ◌>>=◌, refuse_if,
}
use herdr_bots.Config.{Job, Definition, Verifier, Acceptance}
use herdr_bots.Config.Accept.{Lane, acceptance_auto}
use herdr_bots.Config.Accept.Sound.{IsQuiet, classify_terminal_run-IsQuiet}
use herdr_bots.Store.State
use herdr_bots.Store.EffectKind
use herdr_bots.Store.Schema.{
  JobState, Run, Occurrence, Event, Database, AcceptRequest, AdmissionDecision,
}
use herdr_bots.Store.Table.{get_run, in_tx, answer}
use herdr_bots.Store.Classify.{Ending}
use herdr_bots.Store.Lease.Tokens.{IsToken}

-- A job that is verified by `make check` and accepted without a reader.
abbrev pub nightly : Job
nightly = record {
  id = "nightly";
  revision = pos 1;
  enabled = some true;
  schedule = record {
    kind = "cron";
    expression = "0 3 * * *";
    at = "";
    timezone = "UTC";
    catch_up_grace_minutes = none;
  };
  execution = record {
    repository = "/src/app";
    workspace = "app";
    base_ref = "main";
    harness = "codex";
    provider = "openai";
    model = "m";
    thinking = "high";
    permission_profile = "workspace";
    require_model_attestation = none;
    inputs = [];
    allowed_write_paths = [];
  };
  run_if_changed = false;
  prompt = "update the changelog";
  timeout_minutes = pos 30;
  overlap = "forbid";
  verifier = some (record { command = "make" ∷ "check" ∷ [] });
  acceptance = some (record { mode = acceptance_auto; sample_percent = pos 0 });
  limits = record { max_runs_per_day = pos 2; disk_reserve_gib = none };
  attention = none;
}

abbrev pub snapshot : Definition
snapshot = record {
  bytes = "nightly-v1";
  as_job = some nightly;
  as_overlap = some "forbid";
  as_revision = some (pos 1);
}

abbrev pub nightly_row : JobState
nightly_row = record {
  id = "nightly";
  config_revision = pos 1;
  revision = "hash";
  definition = snapshot;
  enabled = true;
  paused = false;
  pause_reason = "";
  pause_at = 0;
  completed = false;
  cursor = 10;
  updated_at = 10;
}

abbrev pub queued_run : Run
queued_run = record {
  id = "r1";
  job_id = "nightly";
  job_revision = "hash";
  definition = snapshot;
  trigger = "schedule";
  scheduled_for = some 100;
  state = State.accepted;
  infrastructure_result = "";
  agent_result = "";
  task_verdict = "unverified";
  accepted_at = 100;
  accepted_unix_nano = 100;
  updated_at = 100;
  workspace_id = "";
  pane_id = "";
  branch = "";
  worktree_path = "";
  execution_mode = "agent";
  completion_marker = "";
  source_base_revision = "";
  source_revision = "";
  input_context = "";
  error_code = "";
  error_detail = "";
  provisioning_owner = "";
  provisioning_lease_until = 0;
  effect_owner = "";
  effect_claim = "";
  effect_kind = "";
  effect_lease_until = 0;
  effect_receipt = "";
  disk_device = "";
  disk_reserve_gib = 0;
  acceptance_lane = "";
  acceptance_reason = "";
  unread = true;
  model_attestation = "";
  input_receipt = "";
  change_receipt = "";
}

-- A store with the job and these runs.
abbrev pub holding : List Run → Database
holding rs = record {
  jobs = nightly_row ∷ [];
  occurrences = [];
  runs = rs;
  events = [];
  metadata = ("admission_lock", "0") ∷ ("authority_lock", "0") ∷ [];
}

abbrev pub settled_run : Run
settled_run = record queued_run {
  state = State.settled;
  workspace_id = "w1";
  model_attestation = "m";
}

abbrev pub token_a : List ℕ
token_a = 0 ∷ 1 ∷ 2 ∷ 3 ∷ 4 ∷ 5 ∷ 6 ∷ 7 ∷ 8 ∷ 9 ∷ 10 ∷ 11 ∷ 12 ∷ 13 ∷ 14 ∷ 255 ∷ []

-- The claim that the token gives.
abbrev pub claim_a : String
claim_a = "000102030405060708090a0b0c0d0eff"

abbrev pub verifying_run : Run
verifying_run = record settled_run {
  state = State.verifying;
  effect_owner = "p1";
  effect_claim = claim_a;
  effect_kind = EffectKind.verifier;
  effect_lease_until = 500;
  effect_receipt = "/s/verifiers/verifier-x.result";
}

abbrev pub succeeded_run : Run
succeeded_run = record settled_run {
  state = State.succeeded;
  task_verdict = "passed";
  acceptance_lane = acceptance_auto;
  acceptance_reason = "verifier_passed";
  unread = false;
}

abbrev pub provisioning_run : Run
provisioning_run = record queued_run {
  state = State.provisioning;
  provisioning_owner = "p1";
  provisioning_lease_until = 400;
}

abbrev pub passed : Ending
passed = record {
  state = State.succeeded;
  infrastructure = "completed";
  agent = "completed";
  verdict = "passed";
  code = "";
  detail = "verified";
}

abbrev pub request : AcceptRequest
request = record {
  job_id = "nightly";
  job_config_revision = pos 1;
  job_revision = "hash";
  job_enabled = true;
  occurrence_key = "2026-01-01T03:00:00Z";
  definition = snapshot;
  trigger = "schedule";
  scheduled_for = 200;
  overlap = "forbid";
  day_start = 0;
  day_end = 86_400_000_000_000;
  max_runs_per_day = pos 2;
  source_base_revision = "";
  source_revision = "";
  input_context = "";
  now = 210;
  max_unread_terminal_runs = pos 1;
}

abbrev pub admit_all : List Run → Result AdmissionDecision
admit_all rs = ok (record {
  admit = true;
  failure_code = "";
  failure_detail = "";
  hold_code = "";
  hold_detail = "";
})

pub token_a_drawn : IsToken token_a
token_a_drawn = ground arith
