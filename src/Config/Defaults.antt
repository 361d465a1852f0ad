-- ===== src/Config/Defaults.antt =====
-- The defaults of a configuration: `applyDefaults` and the accessors of optional values of
-- internal/config/config.go. An amount of disk is in MiB, so that the defaults of 3 and 1.25 GiB
-- are whole.
use herdr_bots.Base.{
  ℕ, ◌+◌, ◌*◌, ℤ, pos, negsuc, eq_int, String, Bool, true, false, Option, none, some, is_empty,
  if◌then◌else◌,
}
use herdr_bots.Base.{ltb}
use Prim.Native.Nat.{◌-◌, ◌%◌, ◌^◌}
use herdr_bots.Text.{has_prefix}
use herdr_bots.Text.Path.{join_path}
use herdr_bots.Config.{Job, Capacity, Attention, Gib, mib, below_zero, not_a_number, infinite}

abbrev default_disk_reserve : Gib
default_disk_reserve = mib 1280

abbrev default_min_free_disk : Gib
default_min_free_disk = mib 3072

unfoldable pub or_default {ℓ} : {A : Type ℓ} → Option A → A → A
or_default none a = a
or_default (some x) a = x

-- `Job.DiskReserve`
unfoldable pub disk_reserve_gib : Job → Gib
unfolding or_default
disk_reserve_gib j = or_default j.limits.disk_reserve_gib default_disk_reserve

-- `Capacity.MinFreeDisk`
unfoldable pub min_free_disk_gib : Capacity → Gib
unfolding or_default
min_free_disk_gib c = or_default c.min_free_disk_gib default_min_free_disk

-- An accepted amount in MiB. Validation refuses the others, and JSON cannot carry them.
unfoldable pub mib_of : Gib → ℕ
mib_of (mib n) = n
mib_of below_zero = 0
mib_of not_a_number = 0
mib_of (infinite _) = 0

unfoldable pub disk_reserve : Job → ℕ
unfolding mib_of disk_reserve_gib
disk_reserve j = mib_of (disk_reserve_gib j)

unfoldable pub max_concurrent : Capacity → ℤ
unfolding or_default
max_concurrent c = or_default c.max_concurrent_runs (pos 2)

unfoldable pub min_free_disk : Capacity → ℕ
unfolding mib_of min_free_disk_gib
min_free_disk c = mib_of (min_free_disk_gib c)

-- `Capacity.applyDefaults`
unfoldable pub apply_capacity_defaults : Capacity → Capacity
unfolding or_default
apply_capacity_defaults c = record {
  max_concurrent_runs = some (or_default c.max_concurrent_runs (pos 2));
  min_free_disk_gib = some (or_default c.min_free_disk_gib default_min_free_disk);
}

-- `path[2:]` behind the two characters of the prefix.
unfoldable pub after_two : String → String
after_two String.[] = ""
after_two (String.◌∷◌ c String.[]) = ""
after_two (String.◌∷◌ c (String.◌∷◌ d s)) = s

-- The home directory is what `os.UserHomeDir` gives.
unfoldable pub expand_home : (home path : String) → String
unfolding after_two has_prefix
expand_home home path = if has_prefix path "~/" then join_path home (after_two path) else path

unfoldable pub or_text : String → String → String
or_text s default = if is_empty s then default else s

unfoldable pub or_number : ℤ → ℤ → ℤ
or_number n default = if eq_int n (pos 0) then default else n

-- `Job.applyDefaults`
unfoldable pub apply_job_defaults : (home : String) → Job → Job
unfolding or_default or_text or_number expand_home
apply_job_defaults home j = record j {
  enabled = some (or_default j.enabled true);
  revision = or_number j.revision (pos 1);
  timeout_minutes = or_number j.timeout_minutes (pos 60);
  overlap = or_text j.overlap "forbid";
  schedule = record (j.schedule) {
    catch_up_grace_minutes = some (or_default j.schedule.catch_up_grace_minutes (pos 120));
  };
  limits = record {
    max_runs_per_day = or_number j.limits.max_runs_per_day (pos 10);
    disk_reserve_gib = some (or_default j.limits.disk_reserve_gib default_disk_reserve);
  };
  execution = record (j.execution) {
    repository = expand_home home j.execution.repository;
    workspace = or_text j.execution.workspace "worktree";
    thinking = or_text j.execution.thinking "high";
  };
}

-- `Job.MaxUnreadTerminalRuns`: 0 where no policy is configured.
unfoldable pub unread_limit : Option Attention → ℤ
unfolding or_default
unread_limit none = pos 0
unread_limit (some a) = or_default a.max_unread_terminal_runs (pos 0)

unfoldable pub is_enabled : Job → Bool
unfolding or_default
is_enabled j = or_default j.enabled false

-- The int64 whose 64 bits are those of a natural number.
unfoldable pub int64_of : ℕ → ℤ
int64_of n =
    let bits = n % 2 ^ 64 in if ltb bits (2 ^ 63) then pos bits else negsuc (2 ^ 64 - 1 - bits)

abbrev minute : ℕ
minute = 60 * 1000000000

-- `Job.CatchUpGrace`, in nanoseconds: the product of a number of minutes, itself an int64, wraps.
unfoldable pub catch_up_grace : Option ℤ → ℤ
unfolding int64_of
catch_up_grace none = pos 0
catch_up_grace (some (pos m)) = int64_of (m * minute)
catch_up_grace (some (negsuc m)) = int64_of ((2 ^ 64 - (m + 1)) * minute)
