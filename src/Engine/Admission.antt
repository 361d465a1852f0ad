-- ===== src/Engine/Admission.antt =====
-- The capacity check that the engine hands to `DecideAdmission`: `admissionDecision` of
-- internal/engine/engine.go.
pub mod Limits
pub mod Bound
use herdr_bots.Base.{
  ℕ, ◌+◌, ℤ, pos, lt_int, String, Bool, true, false, not, ◌&&◌, Option, none, some, List, [], ◌∷◌,
  ◌==◌, is_empty, ltb, length, if◌then◌else◌, Result, ok, err, message, ◌>>=◌,
}
use herdr_bots.Config.{Job, Capacity}
use herdr_bots.Config.Defaults.{disk_reserve, max_concurrent, min_free_disk}
use herdr_bots.Store.Schema.{Run, AdmissionDecision}

-- What the probe of the candidate's repository gives: an error's text, or the free disk and the
-- number of the device.
pub data Probe : Type 0 where
  probe_failed : String → Probe
  probed : (free device : ℕ) → Probe

-- The loop over the active rows ends early at an overlap, or with the two sums.
pub data Scan : Type 0 where
  overlapped : Scan
  summed : (reserved legacy : ℕ) → Scan

-- A durable claim carries its device and reserve.
unfoldable pub is_charged : Run → Bool
is_charged r = not (is_empty r.disk_device) && ltb 0 r.disk_reserve_gib

unfoldable pub scan_active : Job → String → List Run → ℕ → ℕ → Result Scan
scan_active c device [] reserved legacy = ok (summed reserved legacy)
scan_active c device (r ∷ rs) reserved legacy =
    if c.overlap == "queue_one" && r.job_id == c.id
    then ok overlapped
    else if is_charged r
    then scan_active c device rs
        (if r.disk_device == device then reserved + r.disk_reserve_gib else reserved) legacy
    else elim r.definition.as_job [
      | none ↦ err (message "active run has invalid snapshot")
      | some j ↦ scan_active c device rs reserved (legacy + disk_reserve j)
    ]

abbrev hold : String → String → AdmissionDecision
hold code detail = record {
  admit = false;
  failure_code = "";
  failure_detail = "";
  hold_code = code;
  hold_detail = detail;
}

abbrev admitted : AdmissionDecision
admitted = record {
  admit = true;
  failure_code = "";
  failure_detail = "";
  hold_code = "";
  hold_detail = "";
}

-- `strconv.FormatUint` in base 10, and the text that `fmt.Sprintf` gives of the free and the
-- required disk.
module _ (format_uint : ℕ → String) (disk_detail : ℕ → ℕ → String) where
  after_scan : Capacity → Job → ℕ → Scan → Result AdmissionDecision
  after_scan limits c free overlapped =
      ok (hold "overlap_hold" "another run for this job is already active")
  after_scan limits c free (summed reserved legacy) =
      let required = min_free_disk limits + reserved + legacy + disk_reserve c in
      if ltb free required then ok (hold "disk_hold" (disk_detail free required)) else ok admitted

  unfoldable pub admission_decision : Capacity → Job → Probe → List Run → Result AdmissionDecision
  unfolding after_scan
  admission_decision limits c (probe_failed detail) active = ok (record {
    admit = false;
    failure_code = "capacity_probe_failed";
    failure_detail = detail;
    hold_code = "";
    hold_detail = "";
  })
  admission_decision limits c (probed free device) active =
      if not (lt_int (pos (length active)) (max_concurrent limits))
      then ok (hold "capacity_hold" "maximum concurrent runs are already active")
      else scan_active c (format_uint device) active 0 0 >>= after_scan limits c free
