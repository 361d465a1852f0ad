-- ===== src/Engine/Admission/Bound.antt =====
-- The engine's check inside the store's transaction: `dispatch` of internal/engine/engine.go.
use herdr_bots.Base.{
  ℕ, suc, ◌+◌, ◌≤◌, pos, ◌≤ℤ◌, String, true, false, ◌≡◌, refl, sym, ap, ◌∙◌, some, ok, count_by,
  length, arith,
}
use herdr_bots.Config.{Job, Capacity}
use herdr_bots.Store.State
use herdr_bots.Store.State.{is_executing}
use herdr_bots.Store.Schema.{Run, Database}
use herdr_bots.Store.Table.{put_run, get_run}
use herdr_bots.Store.Table.Laws.{count_by-put_run, get_run-id}
use herdr_bots.Store.Queries.{executing_runs}
use herdr_bots.Store.Queries.Counts.{length-executing_runs}
use herdr_bots.Store.Admission.{Candidate, decide_admission}
use herdr_bots.Store.Admission.Promises.{decide_admission-IsAdmitted}
use herdr_bots.Config.Defaults.{disk_reserve, max_concurrent, min_free_disk}
use herdr_bots.Engine.Admission.{Probe, probed, admission_decision}
use herdr_bots.Engine.Admission.Limits.{reserved_on, legacy_reserve, admission_decision-IsFitting}

-- How many runs execute.
unfoldable pub executing_total : Database → ℕ
unfolding count_by
executing_total d = count_by (λ r. is_executing r.state) d.runs

idle : is_executing State.accepted ≡ false
unfolding is_executing
idle = refl

busy : is_executing State.provisioning ≡ true
unfolding is_executing
busy = refl

one_more :
    (r s : Run) (d : Database)
    → get_run s.id d ≡ some r
    → r.state ≡ State.accepted
    → s.state ≡ State.provisioning
    → count_by (λ r. is_executing r.state) (put_run s d).runs
      ≡ suc (count_by (λ r. is_executing r.state) d.runs)
one_more r s d h a b =
    let x : is_executing r.state ≡ false = ap is_executing a ∙ idle in
    let y : is_executing s.state ≡ true = ap is_executing b ∙ busy in
    ground (arith, x, y, count_by-put_run (λ r. is_executing r.state) r s d h)

-- Where the engine's check decides, an admission leaves at most the configured number of runs
-- executing in the whole store, the new one counted, and the probed free disk covers the minimum,
-- the durable claims on the device, the reserves of rows without one, and the candidate's own.
pub engine_admission_bounded :
    (format_uint : ℕ → String) (disk_detail : ℕ → ℕ → String) (limits : Capacity) (job : Job)
    (probe : Probe) (id : String) (c : Candidate) (d : Database)
    → (decide_admission (admission_decision format_uint disk_detail limits job probe) id c d).0
      ≡ ok true
    → (pos (
          executing_total
            (decide_admission
              (admission_decision format_uint disk_detail limits job probe)
              id
              c
              d).1)
        ≤ℤ max_concurrent limits)
      × (free : ℕ) × (device : ℕ) × (probe ≡ probed free device)
      × (min_free_disk limits
            + reserved_on (format_uint device) (executing_runs d)
            + legacy_reserve (executing_runs d)
            + disk_reserve job
          ≤ free)
unfolding executing_total
engine_admission_bounded format_uint disk_detail limits job probe id c d h =
    let check = admission_decision format_uint disk_detail limits job probe in
    let w = decide_admission-IsAdmitted check id c d h in
    let (free, device, p, f) =
      admission_decision-IsFitting format_uint disk_detail limits job probe (executing_runs d)
        w.decision w.checked w.admits in
    let d' = (decide_admission check id c d).1 in
    let i : w.after.id ≡ id = get_run-id id d' w.after w.stored in
    let at : get_run w.after.id d ≡ some w.run = ap (λ k. get_run k d) i ∙ w.found in
    let more = one_more w.run w.after d at w.queued w.state in
    let after : executing_total d' ≡ suc (length (executing_runs d)) =
      ap (count_by (λ r. is_executing r.state)) w.written
      ∙ more
      ∙ ap suc (sym (length-executing_runs d)) in
    (omega (arith, f.slot, after), free, device, p, f.disk)
