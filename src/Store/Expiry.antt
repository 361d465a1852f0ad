-- ===== src/Store/Expiry.antt =====
-- Recovery of expired claims: `InterruptExpiredProvisioning`, `InterruptExpiredStarting` and
-- `ConfirmExpiredCommandStart` of internal/store/store.go, and internal/store/recovery.go.
pub mod Steps
pub mod Live
pub mod Retires
use herdr_bots.Base.{
  ℕ, String, Bool, true, false, not, ◌&&◌, ◌||◌, ◌==◌, eqb, ltb, leb, is_empty, Result, message,
  ◌>>=◌, ◌>>◌, refuse_if,
}
use herdr_bots.Store.State
use herdr_bots.Store.Schema.{Run, Database}
use herdr_bots.Store.Table.{in_tx, answer, update_run, update_logged, lock_occurrence_writes}
use herdr_bots.Store.Classify.{Ending, set_ending, clear_provisioning, terminal_acceptance}
use herdr_bots.Store.Lease.{is_unprovisioned}

-- infrastructure_result='uncertain',agent_result='not_started',task_verdict='unverified'
abbrev pub uncertain : String → String → Ending
uncertain code detail = record {
  state = State.interrupted;
  infrastructure = "uncertain";
  agent = "not_started";
  verdict = "unverified";
  code = code;
  detail = detail;
}

abbrev expired_detail : String
expired_detail =
    "service restarted after the provisioning claim expired before a durable Herdr receipt"

unfoldable pub interrupt_expired_provisioning : String → ℕ → Database → Result Bool × Database
interrupt_expired_provisioning id now d = in_tx d do
  lock_occurrence_writes d
  lane ← terminal_acceptance id State.interrupted "unverified" d
  answer true false (
      update_logged id
        (λ r.
          r.state == State.provisioning
          && is_empty r.workspace_id
          && is_unprovisioned now r
          && is_empty r.effect_owner)
        (λ r.
          set_ending (uncertain "restart_during_provisioning" expired_detail) lane now
            (clear_provisioning r))
        State.provisioning State.interrupted now "" expired_detail d)

unfoldable pub interrupt_expired_starting :
    String → String → String → ℕ → Database → Result Bool × Database
interrupt_expired_starting id code detail now d = in_tx d do
  lock_occurrence_writes d
  lane ← terminal_acceptance id State.interrupted "unverified" d
  answer true false (
      update_logged id
        (λ r. r.state == State.starting && is_unprovisioned now r && is_empty r.effect_owner)
        (λ r. set_ending (uncertain code detail) lane now (clear_provisioning r)) State.starting
        State.interrupted now code detail d)

unfoldable pub confirm_expired_command_start :
    String → String → ℕ → Database → Result Bool × Database
confirm_expired_command_start id detail now d = in_tx d do
  answer true false (
      update_logged id
        (λ r. r.state == State.starting && is_unprovisioned now r && is_empty r.effect_owner)
        (λ r. record (clear_provisioning r) { state = State.running; updated_at = now })
        State.starting State.running now "" detail d)

abbrev recovery_code_provisioning : String
recovery_code_provisioning = "explicit_provisioning_recovery"

abbrev recovery_detail_provisioning : String
recovery_detail_provisioning =
    "explicit recovery verified the planned branch no longer names a workspace or worktree and retired the run as interrupted"

-- The columns of the observed row that the compare-and-set binds.
same_row : Run → Run → Bool
same_row observed r =
    r.state == observed.state
    && r.workspace_id == observed.workspace_id
    && r.pane_id == observed.pane_id
    && r.worktree_path == observed.worktree_path
    && r.branch == observed.branch
    && r.definition.bytes == observed.definition.bytes
    && eqb r.updated_at observed.updated_at
    && r.provisioning_owner == observed.provisioning_owner
    && eqb r.provisioning_lease_until observed.provisioning_lease_until
    && r.effect_owner == observed.effect_owner
    && r.effect_claim == observed.effect_claim
    && r.effect_kind == observed.effect_kind
    && r.effect_receipt == observed.effect_receipt
    && eqb r.effect_lease_until observed.effect_lease_until

-- No receipt, no effect, and no live lease, checked again at the update.
is_bare : ℕ → Run → Bool
is_bare now r =
    is_empty r.workspace_id
    && is_empty r.pane_id
    && is_empty r.worktree_path
    && is_empty r.effect_owner
    && is_empty r.effect_claim
    && is_empty r.effect_kind
    && is_empty r.effect_receipt
    && leb r.provisioning_lease_until now

unfoldable pub interrupt_recovered_provisioning : Run → ℕ → Database → Result Bool × Database
unfolding same_row is_bare
interrupt_recovered_provisioning observed now d = in_tx d do
  refuse_if (is_empty observed.id) (message "explicit recovery requires the observed run row")
  refuse_if (not (observed.state == State.provisioning))
      (message "explicit recovery target is not provisioning")
  refuse_if
      (not (is_empty observed.workspace_id)
        || not (is_empty observed.pane_id)
        || not (is_empty observed.worktree_path))
      (message "explicit recovery target already carries a workspace, pane, or worktree receipt")
  refuse_if
      (not (is_empty observed.effect_owner)
        || not (is_empty observed.effect_claim)
        || not (is_empty observed.effect_kind)
        || not (is_empty observed.effect_receipt))
      (message "explicit recovery target already carries a run effect")
  refuse_if (ltb now observed.effect_lease_until)
      (message "explicit recovery target has a live effect lease")
  refuse_if (ltb now observed.provisioning_lease_until)
      (message "explicit recovery target has a live provisioning lease")
  lock_occurrence_writes d
  lane ← terminal_acceptance observed.id State.interrupted "unverified" d
  answer true false (
      update_logged observed.id (λ r. same_row observed r && is_bare now r)
        (λ r.
          set_ending (uncertain recovery_code_provisioning recovery_detail_provisioning) lane now
            (clear_provisioning r))
        State.provisioning State.interrupted now recovery_code_provisioning
        recovery_detail_provisioning d)
