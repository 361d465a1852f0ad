-- ===== src/Config/Validate/Sound.antt =====
-- What a configuration that `Load` accepts is known to satisfy: internal/config/config.go.
use herdr_bots.Base.{
  refl, ℕ, subst, ◌≤◌, ℤ, pos, ◌≤ℤ◌, eq_int, lt_int, String, Bool, false, not, ◌≡◌, List, [], ◌∷◌,
  ◌==◌, ok, ◌>>=◌, >>=-eq-ok, all_checks-All, refuse_if-ok, then_then-ok, message, refuse_if,
  if◌then◌else◌, All, arith, Result, ◌>>◌,
}
use herdr_bots.Text.{is_any_of}
use herdr_bots.Config.{Job, Capacity, Gib, mib, below_zero, not_a_number, infinite}
use herdr_bots.Config.Defaults.{
  disk_reserve_gib, max_concurrent, min_free_disk_gib, apply_job_defaults, apply_capacity_defaults,
}
use herdr_bots.Config.Disk.{gib_outside}
use herdr_bots.Config.Validate.{
  Config, validate_capacity, validate_job, job_checks, load_jobs, load,
}

-- A finite amount of disk within two bounds in MiB.
abbrev pub IsAmount : Gib → (low high : ℕ) → Type 0
IsAmount g low high = (n : ℕ) × (g ≡ mib n) × (low ≤ n) × (n ≤ high)

gib_outside-IsAmount :
    (g : Gib) (low high : ℕ) → gib_outside g low high ≡ false → IsAmount g low high
unfolding gib_outside
gib_outside-IsAmount (mib n) low high h = (n, refl, ground (arith, h), ground (arith, h))
gib_outside-IsAmount below_zero low high h = cc
gib_outside-IsAmount not_a_number low high h = cc
gib_outside-IsAmount (infinite b) low high h = cc

-- The bounds of a job.
pub record IsBounded (j : Job) : Type 0 where
  pub revision : pos 1 ≤ℤ j.revision
  pub timeout : (pos 1 ≤ℤ j.timeout_minutes) × (j.timeout_minutes ≤ℤ pos 1440)
  pub runs : pos 1 ≤ℤ j.limits.max_runs_per_day
  pub reserve : IsAmount (disk_reserve_gib j) 256 65536

-- The bounds of the capacity, in runs and MiB.
pub record IsInRange (c : Capacity) : Type 0 where
  pub runs : (pos 1 ≤ℤ max_concurrent c) × (max_concurrent c ≤ℤ pos 32)
  pub disk : IsAmount (min_free_disk_gib c) 512 1048576

validate_capacity-IsInRange : (c : Capacity) → validate_capacity c ≡ ok tt → IsInRange c
unfolding validate_capacity ◌>>=◌ refuse_if
validate_capacity-IsInRange c h = record {
  runs = (ground arith, ground arith);
  disk = gib_outside-IsAmount (min_free_disk_gib c) 512 1048576 (ground arith);
}

lt_int-false : (a b : ℤ) → lt_int a b ≡ false → b ≤ℤ a
lt_int-false a b h = ground arith

-- No identifier stands twice.
abbrev pub IsDistinct : List Job → Type 0
IsDistinct [] = Unit
IsDistinct (j ∷ js) = All (λ other. (other.id == j.id) ≡ false) js × IsDistinct js

ok-injective {ℓ} : {A : Type ℓ} (x y : A) → ok x ≡ ok y → x ≡ y
ok-injective x y h = cc

module _ (location_loads cron_parses rfc3339_parses : String → Bool) where
  abbrev pub validate : Job → Result (Unit {0})
  validate = validate_job location_loads cron_parses rfc3339_parses

  -- What each check of an accepted job says: the one at position n is `.1` n times and then `.0`.
  pub job_checks-All :
      (j : Job)
      → validate j ≡ ok tt
      → All (λ check. check ≡ ok tt) (job_checks location_loads cron_parses rfc3339_parses j)
  unfolding validate_job
  job_checks-All j h = all_checks-All (job_checks location_loads cron_parses rfc3339_parses j) h

  pub validate_job-IsBounded : (j : Job) → validate j ≡ ok tt → IsBounded j
  validate_job-IsBounded j h =
      let checks = job_checks-All j h in
      let timeout = refuse_if-ok _ _ checks.1.1.1.1.0 in
      let reserve = refuse_if-ok _ _ checks.1.1.1.1.1.1.1.0 in
      record {
        revision = lt_int-false j.revision (pos 1) (refuse_if-ok _ _ checks.1.1.0);
        timeout = (ground (arith, timeout), ground (arith, timeout));
        runs =
            lt_int-false j.limits.max_runs_per_day (pos 1) (refuse_if-ok _ _ checks.1.1.1.1.1.1.0);
        reserve = gib_outside-IsAmount (disk_reserve_gib j) 256 65536 reserve;
      }

  abbrev pub IsLoaded : List String → List Job → Type 0
  IsLoaded seen jobs =
      All (λ j. (validate j ≡ ok tt) × (is_any_of j.id seen ≡ false)) jobs × IsDistinct jobs

  not_seen :
      (id : String) (seen : List String) (jobs : List Job)
      → All (λ j. (validate j ≡ ok tt) × (is_any_of j.id (id ∷ seen) ≡ false)) jobs
      → All (λ other. (other.id == id) ≡ false) jobs
  unfolding is_any_of
  not_seen id seen [] h = tt
  not_seen id seen (j ∷ js) (h, hs) = (ground (arith, h.1), not_seen id seen js hs)

  seen_before :
      (id : String) (seen : List String) (jobs : List Job)
      → All (λ j. (validate j ≡ ok tt) × (is_any_of j.id (id ∷ seen) ≡ false)) jobs
      → All (λ j. (validate j ≡ ok tt) × (is_any_of j.id seen ≡ false)) jobs
  unfolding is_any_of
  seen_before id seen [] h = tt
  seen_before id seen (j ∷ js) (h, hs) = ((h.0, ground (arith, h.1)), seen_before id seen js hs)

  -- What `load_jobs` gives: every job passed `validate_job`, and no identifier stands twice.
  load_jobs-IsLoaded :
      (home : String) (jobs loaded : List Job) (seen : List String)
      → load_jobs location_loads cron_parses rfc3339_parses home jobs seen ≡ ok loaded
      → IsLoaded seen loaded
  unfolding load_jobs ◌>>=◌ refuse_if
  load_jobs-IsLoaded home [] loaded seen h =
      subst (IsLoaded seen) (ok-injective [] loaded h) (tt, tt)
  load_jobs-IsLoaded home (job ∷ jobs) loaded seen h =
      let j = apply_job_defaults home job in
      let (rest, chain, same) =
        >>=-eq-ok (λ rest. ok (j ∷ rest))
          (validate j
            >> refuse_if (is_any_of j.id seen) (message "duplicate job id")
            >> load_jobs location_loads cron_parses rfc3339_parses home jobs (j.id ∷ seen))
          h in
      let (valid, new, loads) = then_then-ok (validate j) _ _ rest chain in
      let (others, distinct) = load_jobs-IsLoaded home jobs rest (j.id ∷ seen) loads in
      subst (IsLoaded seen) (ok-injective (j ∷ rest) loaded same) (
        ((valid, refuse_if-ok _ _ new), seen_before j.id seen rest others),
        (not_seen j.id seen rest others, distinct),
      )

  jobs-IsBounded :
      (seen : List String) (jobs : List Job)
      → All (λ j. (validate j ≡ ok tt) × (is_any_of j.id seen ≡ false)) jobs
      → All IsBounded jobs
  jobs-IsBounded seen [] h = tt
  jobs-IsBounded seen (j ∷ js) (h, hs) = (validate_job-IsBounded j h.0, jobs-IsBounded seen js hs)

  -- A configuration that `load` accepts has a capacity of 1 to 32 runs and of 0.5 to 1024 GiB of free
  -- disk, a finite number; each of
  -- its jobs passed `validate_job` and is within its bounds, and no identifier stands twice.
  pub load-IsSound :
      (home : String) (c loaded : Config)
      → load location_loads cron_parses rfc3339_parses home c ≡ ok loaded
      → IsInRange loaded.capacity × IsLoaded [] loaded.jobs × All IsBounded loaded.jobs
  unfolding load
  load-IsSound home c loaded h =
      let version = if eq_int c.version (pos 0) then pos 1 else c.version in
      let capacity = apply_capacity_defaults c.capacity in
      let (jobs, chain, same) =
        >>=-eq-ok (λ jobs. ok (record { version = version; capacity = capacity; jobs = jobs }))
          (refuse_if (not (eq_int version (pos 1))) (message "unsupported config version")
            >> validate_capacity capacity
            >> load_jobs location_loads cron_parses rfc3339_parses home c.jobs [])
          h in
      let (_, in_range, loads) = then_then-ok _ (validate_capacity capacity) _ jobs chain in
      let (checked, distinct) = load_jobs-IsLoaded home c.jobs jobs [] loads in
      subst (λ l. IsInRange l.capacity × IsLoaded [] l.jobs × All IsBounded l.jobs)
        (ok-injective (record { version = version; capacity = capacity; jobs = jobs }) loaded same)
        (
          validate_capacity-IsInRange capacity in_range,
          (checked, distinct),
          jobs-IsBounded [] jobs checked,
        )
