-- ===== src/Config.antt =====
-- The saved job definition: the types of internal/config/config.go and the accessors that the
-- store and the engine call. An optional pointer field is an `Option`; a `float64` of GiB is a
-- whole number of MiB.
pub mod Accept
pub mod Defaults
pub mod Disk
pub mod Scope
pub mod Ids
pub mod Inputs
pub mod Validate
pub mod Tests
use herdr_bots.Base.{ℕ, ℤ, String, Bool, List, Option}

pub record Attention : Type 0 where
  pub max_unread_terminal_runs : Option ℤ

pub record Schedule : Type 0 where
  pub kind : String
  pub expression : String
  pub at : String
  pub timezone : String
  pub catch_up_grace_minutes : Option ℤ

pub record InputSnapshot : Type 0 where
  pub source : String
  pub destination : String

pub record Execution : Type 0 where
  pub repository : String
  pub workspace : String
  pub base_ref : String
  pub harness : String
  pub provider : String
  pub model : String
  pub thinking : String
  pub permission_profile : String
  pub require_model_attestation : Option Bool
  pub inputs : List InputSnapshot
  pub allowed_write_paths : List String

pub record Verifier : Type 0 where
  pub command : List String

pub record Acceptance : Type 0 where
  pub mode : String
  pub sample_percent : ℤ

-- An amount of disk, Go's floating point in GiB: a whole number of MiB, a negative amount, or one of
-- the values that are no amount.
pub data Gib : Type 0 where
  mib : ℕ → Gib
  below_zero : Gib
  not_a_number : Gib
  infinite : (negative : Bool) → Gib

pub record Limits : Type 0 where
  pub max_runs_per_day : ℤ
  pub disk_reserve_gib : Option Gib

pub record Job : Type 0 where
  pub id : String
  pub revision : ℤ
  pub enabled : Option Bool
  pub schedule : Schedule
  pub execution : Execution
  pub run_if_changed : Bool
  pub prompt : String
  pub timeout_minutes : ℤ
  pub overlap : String
  pub verifier : Option Verifier
  pub acceptance : Option Acceptance
  pub limits : Limits
  pub attention : Option Attention

pub record Capacity : Type 0 where
  pub max_concurrent_runs : Option ℤ
  pub min_free_disk_gib : Option Gib

-- The bytes of a stored job snapshot, with what `json.Unmarshal` reads from them into each of the
-- three shapes that the program decodes: a whole job, `struct{Overlap}`, `struct{Revision}`.
-- `none` is a decoding error.
pub record Definition : Type 0 where
  pub bytes : String
  pub as_job : Option Job
  pub as_overlap : Option String
  pub as_revision : Option ℤ
