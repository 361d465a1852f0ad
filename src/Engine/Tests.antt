-- ===== src/Engine/Tests.antt =====
-- The engine's admission on a concrete store.
use herdr_bots.Base.{
  ℕ, ◌+◌, ◌≤◌, pos, ◌≤ℤ◌, String, true, ◌≡◌, refl, none, [], ◌∷◌, ok, ◌>>=◌, refuse_if,
  if◌then◌else◌, eqb,
}
use herdr_bots.Config.{Capacity}
use herdr_bots.Store.Schema.{Database}
use herdr_bots.Store.State.{is_executing}
use herdr_bots.Store.Table.{
  in_tx, lock_row, get_metadata, get_run, get_job, answer, update_logged, update_run,
}
use herdr_bots.Store.Lease.{validate_provisioning_lease}
use herdr_bots.Store.Jobs.{is_global_paused}
use herdr_bots.Store.Queries.{executing_runs}
use herdr_bots.Store.Admission.{Candidate, decide_admission}
use herdr_bots.Store.Tests.{nightly, queued_run, provisioning_run, holding}
use herdr_bots.Config.Defaults.{disk_reserve, max_concurrent, min_free_disk}
use herdr_bots.Engine.Admission.{probed, scan_active, is_charged, admission_decision}
use herdr_bots.Engine.Admission.Limits.{reserved_on, legacy_reserve}
use herdr_bots.Engine.Admission.Bound.{executing_total, engine_admission_bounded}

-- Two names of devices are enough for the test.
abbrev device_name : ℕ → String
device_name n = if eqb n 1 then "1" else "2"

abbrev no_detail : ℕ → ℕ → String
no_detail free required = "short of disk"

abbrev limits : Capacity
limits = record { max_concurrent_runs = none; min_free_disk_gib = none }

abbrev candidate : Candidate
candidate = record {
  owner = "p1";
  disk_device = "1";
  disk_reserve_gib = 1280;
  now = 300;
  lease_until = 400;
}

-- One run holds 1.25 GiB of the same device.
abbrev busy_store : Database
busy_store = holding (
    queued_run
    ∷ record provisioning_run { id = "r0"; disk_device = "1"; disk_reserve_gib = 1280 }
    ∷ [])

admission_passes :
    (decide_admission
      (admission_decision device_name no_detail limits nightly (probed 6000 1))
      "r1"
      candidate
      busy_store).0
    ≡ ok true
unfolding decide_admission admission_decision in_tx ◌>>=◌ refuse_if validate_provisioning_lease
    lock_row get_metadata get_run get_job is_global_paused executing_runs is_executing
    max_concurrent min_free_disk disk_reserve scan_active is_charged answer update_logged update_run
admission_passes = refl

admission_bounded :
    (pos (
        executing_total
          (decide_admission
            (admission_decision device_name no_detail limits nightly (probed 6000 1))
            "r1"
            candidate
            busy_store).1)
      ≤ℤ max_concurrent limits)
    × (free : ℕ) × (device : ℕ) × (probed 6000 1 ≡ probed free device)
    × (min_free_disk limits
          + reserved_on (device_name device) (executing_runs busy_store)
          + legacy_reserve (executing_runs busy_store)
          + disk_reserve nightly
        ≤ free)
admission_bounded =
    engine_admission_bounded device_name no_detail limits nightly (probed 6000 1) "r1" candidate
      busy_store admission_passes
