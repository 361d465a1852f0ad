-- ===== src/Engine/Admission/Limits.antt =====
-- The bounds that an admission keeps: the number of runs that execute, and the disk that they hold.
use herdr_bots.Base.{
  ℕ, suc, ◌+◌, ◌≤◌, pos, lt_int, ◌≤ℤ◌, String, Bool, true, false, not, ◌&&◌, ◌≡◌, refl, ap, ◌∙◌,
  Option, none, some, List, [], ◌∷◌, ◌==◌, length, if◌then◌else◌, Result, ok, >>=-eq-ok,
  Option-cases, inl, inr, arith,
}
use herdr_bots.Config.{Job, Capacity}
use herdr_bots.Store.Schema.{Run, AdmissionDecision}
use herdr_bots.Config.Defaults.{disk_reserve, max_concurrent, min_free_disk}
use herdr_bots.Engine.Admission.{
  Probe, probe_failed, probed, Scan, overlapped, summed, hold, is_charged, scan_active, after_scan,
  admission_decision,
}

-- The disk that durable claims hold on a device.
unfoldable pub reserved_on : String → List Run → ℕ
reserved_on device [] = 0
reserved_on device (r ∷ rs) =
    let rest = reserved_on device rs in
    if is_charged r && r.disk_device == device then r.disk_reserve_gib + rest else rest

legacy_of : Option Job → ℕ
legacy_of none = 0
legacy_of (some j) = disk_reserve j

-- The reserves of the rows without such a claim, by their snapshots.
unfoldable pub legacy_reserve : List Run → ℕ
unfolding legacy_of
legacy_reserve [] = 0
legacy_reserve (r ∷ rs) =
    let rest = legacy_reserve rs in
    if is_charged r then rest else legacy_of r.definition.as_job + rest

-- A candidate that queues behind its own job has no active run.
unfoldable pub is_clear : Job → List Run → Bool
is_clear c [] = true
is_clear c (r ∷ rs) =
    let rest = is_clear c rs in not (c.overlap == "queue_one" && r.job_id == c.id) && rest

scan_active_sums :
    (c : Job) (device : String) (rs : List Run) (a b x y : ℕ)
    → scan_active c device rs a b ≡ ok (summed x y)
    → (x ≡ a + reserved_on device rs) × (y ≡ b + legacy_reserve rs) × (is_clear c rs ≡ true)
unfolding scan_active reserved_on legacy_reserve is_clear
scan_active_sums c device [] a b x y h = ground arith
scan_active_sums c device (r ∷ rs) a b x y h = elim (Option-cases r.definition.as_job) [
  | inl e ↦ ground (
    arith,
    e,
    scan_active_sums c device rs (a + r.disk_reserve_gib) b x y,
    scan_active_sums c device rs a b x y,
  )
  | inr (j, e) ↦ ground (
    arith,
    e,
    scan_active_sums c device rs (a + r.disk_reserve_gib) b x y,
    scan_active_sums c device rs a b x y,
    scan_active_sums c device rs a (b + disk_reserve j) x y,
  )
]

-- The candidate fits: a run more is within the concurrency limit, and the free disk covers the
-- minimum, the claims on its device, the legacy rows and its own reserve.
pub record IsFitting (limits : Capacity) (c : Job) (device : String) (free : ℕ) (active : List Run)
    : Type 0 where
  pub slot : pos (suc (length active)) ≤ℤ max_concurrent limits
  pub disk :
      min_free_disk limits + reserved_on device active + legacy_reserve active + disk_reserve c
      ≤ free
  pub clear : is_clear c active ≡ true

module _ (format_uint : ℕ → String) (disk_detail : ℕ → ℕ → String) (limits : Capacity)
    (c : Job) where
  after_scan_fits :
      (free : ℕ) (s : Scan) (decision : AdmissionDecision)
      → after_scan format_uint disk_detail limits c free s ≡ ok decision
      → decision.admit ≡ true
      → (x : ℕ) × (y : ℕ) × (s ≡ summed x y)
        × (min_free_disk limits + x + y + disk_reserve c ≤ free)
  unfolding after_scan
  after_scan_fits free overlapped decision h a = ground arith
  after_scan_fits free (summed x y) decision h a = (x, y, refl, ground arith)

  unheld :
      (b : Bool) (m : Result AdmissionDecision) (decision : AdmissionDecision)
      → (if not b
          then ok (hold "capacity_hold" "maximum concurrent runs are already active")
          else m)
        ≡ ok decision
      → decision.admit ≡ true
      → (b ≡ true) × (m ≡ ok decision)
  unheld true m decision h a = (refl, h)
  unheld false m decision h a = ground arith

  -- The check admits only a probed candidate that fits among the active rows.
  pub admission_decision-IsFitting :
      (probe : Probe) (active : List Run) (decision : AdmissionDecision)
      → admission_decision format_uint disk_detail limits c probe active ≡ ok decision
      → decision.admit ≡ true
      → (free : ℕ) × (device : ℕ) × (probe ≡ probed free device)
        × IsFitting limits c (format_uint device) free active
  unfolding admission_decision
  admission_decision-IsFitting (probe_failed detail) active decision h a = ground arith
  admission_decision-IsFitting (probed free device) active decision h a =
      let (t, m) = unheld (lt_int (pos (length active)) (max_concurrent limits)) _ decision h a in
      let (s, e, k) =
        >>=-eq-ok (after_scan format_uint disk_detail limits c free)
          (scan_active c (format_uint device) active 0 0) m in
      let (x, y, i, l) = after_scan_fits free s decision k a in
      let (p, q, r) = scan_active_sums c (format_uint device) active 0 0 x y (e ∙ ap ok i) in
      (free, device, refl, record { slot = ground arith; disk = omega (arith, p, q, l); clear = r })
