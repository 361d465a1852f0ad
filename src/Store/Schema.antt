-- ===== src/Store/Schema.antt =====
-- The rows and requests of internal/store/store.go. An instant is its Unix nanoseconds; where Go has
-- the zero time, the column has 0.
use herdr_bots.Base.{ℕ, ℤ, String, Bool, List, Option}
use herdr_bots.Config.{Definition}

abbrev pub max_provisioning_lease : ℕ
max_provisioning_lease = 120_000_000_000

abbrev pub max_effect_lease : ℕ
max_effect_lease = 600_000_000_000

pub record JobState : Type 0 where
  pub id : String
  pub config_revision : ℤ
  pub revision : String
  pub definition : Definition
  pub enabled : Bool
  pub paused : Bool
  pub pause_reason : String
  pub pause_at : ℕ
  pub completed : Bool
  pub cursor : ℕ
  pub updated_at : ℕ

pub record Run : Type 0 where
  pub id : String
  pub job_id : String
  pub job_revision : String
  pub definition : Definition
  pub trigger : String
  pub scheduled_for : Option ℕ
  pub state : String
  pub infrastructure_result : String
  pub agent_result : String
  pub task_verdict : String
  pub accepted_at : ℕ
  pub accepted_unix_nano : ℕ
  pub updated_at : ℕ
  pub workspace_id : String
  pub pane_id : String
  pub branch : String
  pub worktree_path : String
  pub execution_mode : String
  pub completion_marker : String
  pub source_base_revision : String
  pub source_revision : String
  pub input_context : String
  pub error_code : String
  pub error_detail : String
  pub provisioning_owner : String
  pub provisioning_lease_until : ℕ
  pub effect_owner : String
  pub effect_claim : String
  pub effect_kind : String
  pub effect_lease_until : ℕ
  pub effect_receipt : String
  pub disk_device : String
  pub disk_reserve_gib : ℕ
  pub acceptance_lane : String
  pub acceptance_reason : String
  pub unread : Bool
  pub model_attestation : String
  pub input_receipt : String
  pub change_receipt : String

pub record Occurrence : Type 0 where
  pub job_id : String
  pub occurrence_key : String
  pub scheduled_for : ℕ
  pub outcome : String
  pub run_id : Option String
  pub detail : String
  pub created_at : ℕ
  pub created_unix_nano : ℕ

-- The `id` column is the number of events before this one, plus one.
pub record Event : Type 0 where
  pub run_id : String
  pub from_state : String
  pub to_state : String
  pub at : ℕ
  pub code : String
  pub detail : String

-- The tables. Events stand newest first, in the order `id DESC`.
pub record Database : Type 0 where
  pub jobs : List JobState
  pub occurrences : List Occurrence
  pub runs : List Run
  pub events : List Event
  pub metadata : List (String × String)

pub record AcceptRequest : Type 0 where
  pub job_id : String
  pub job_config_revision : ℤ
  pub job_revision : String
  pub job_enabled : Bool
  pub occurrence_key : String
  pub definition : Definition
  pub trigger : String
  pub scheduled_for : ℕ
  pub overlap : String
  pub day_start : ℕ
  pub day_end : ℕ
  pub max_runs_per_day : ℤ
  pub source_base_revision : String
  pub source_revision : String
  pub input_context : String
  pub now : ℕ
  pub max_unread_terminal_runs : ℤ

pub record AcceptResult : Type 0 where
  pub inserted : Bool
  pub outcome : String
  pub run : Option Run
  pub detail : String

pub record AdmissionDecision : Type 0 where
  pub admit : Bool
  pub failure_code : String
  pub failure_detail : String
  pub hold_code : String
  pub hold_detail : String
