-- ===== src/Store/Provisioning.antt =====
-- The provisioning claim while it is live: internal/store/store.go, from `SaveProvisioningPlan` to
-- `FinishProvisioningClaim`.
pub mod Steps
use herdr_bots.Base.{
  ℕ, String, Bool, true, false, not, ◌&&◌, ◌||◌, ◌==◌, is_empty, Result, message, ◌>>=◌, ◌>>◌,
  refuse_if,
}
use herdr_bots.Store.State
use herdr_bots.Store.State.{is_terminal}
use herdr_bots.Store.Schema.{Run, Database}
use herdr_bots.Store.Table.{in_tx, answer, update_run, update_logged, lock_occurrence_writes}
use herdr_bots.Store.Classify.{Ending, set_ending, clear_provisioning, terminal_acceptance}
use herdr_bots.Store.Lease.{validate_provisioning_lease, is_unprovisioned, is_live_owner}
use herdr_bots.Store.Claims.{Workspace}

unfoldable pub save_provisioning_plan :
    String → String → String → ℕ → Database → Result Bool × Database
save_provisioning_plan id owner branch now d = in_tx d do
  refuse_if (is_empty owner || is_empty branch)
      (message "provisioning owner and planned branch are required")
  answer true false (
      update_run id (λ r. r.state == State.provisioning && is_live_owner owner now r)
        (λ r. record r { branch = branch; updated_at = now }) d)

unfoldable pub recover_provisioning_workspace :
    String → String → String → String → ℕ → Database → Result Bool × Database
recover_provisioning_workspace id branch workspace_id path now d = in_tx d do
  refuse_if (is_empty branch || is_empty workspace_id)
      (message "planned branch and recovered workspace identity are required")
  answer true false (
      update_run id
        (λ r.
          r.state == State.provisioning
          && r.branch == branch
          && is_unprovisioned now r
          && is_empty r.effect_owner)
        (λ r. record r { workspace_id = workspace_id; worktree_path = path; updated_at = now }) d)

unfoldable pub save_partial_provisioning_receipt :
    String → String → String → String → String → ℕ → Database → Result Bool × Database
save_partial_provisioning_receipt id owner workspace_id pane_id branch now d = in_tx d do
  refuse_if (is_empty owner || is_empty workspace_id || is_empty branch)
      (message "owner, workspace, and branch are required for a partial provisioning receipt")
  answer true false (
      update_run id (λ r. r.state == State.provisioning && is_live_owner owner now r)
        (λ r. record r {
          workspace_id = workspace_id;
          pane_id = pane_id;
          branch = branch;
          updated_at = now;
        })
        d)

-- The receipt and the move to starting are one transaction, under the same live claim.
unfoldable pub save_provisioning_receipt :
    String → String → Workspace → String → String → ℕ → Database → Result Bool × Database
save_provisioning_receipt id owner w mode marker now d = in_tx d do
  refuse_if (is_empty owner) (message "provisioning owner is required")
  answer true false (
      update_logged id (λ r. r.state == State.provisioning && is_live_owner owner now r)
        (λ r. record r {
          state = State.starting;
          workspace_id = w.workspace_id;
          pane_id = w.pane_id;
          branch = w.branch;
          worktree_path = w.worktree_path;
          execution_mode = mode;
          completion_marker = marker;
          updated_at = now;
        })
        State.provisioning State.starting now "" "workspace provisioned and receipt persisted" d)

unfoldable pub renew_provisioning_claim :
    String → String → ℕ → ℕ → Database → Result Bool × Database
renew_provisioning_claim id owner now lease_until d = in_tx d do
  validate_provisioning_lease owner now lease_until
  answer true false (
      update_run id
        (λ r.
          (r.state == State.provisioning || r.state == State.starting) && is_live_owner owner now r)
        (λ r. record r { provisioning_lease_until = lease_until; updated_at = now }) d)

unfoldable pub confirm_starting_claim :
    String → String → String → ℕ → Database → Result Bool × Database
confirm_starting_claim id owner detail now d = in_tx d do
  refuse_if (is_empty owner) (message "provisioning owner is required")
  answer true false (
      update_logged id
        (λ r. r.state == State.starting && is_live_owner owner now r && is_empty r.effect_owner)
        (λ r. record (clear_provisioning r) { state = State.running; updated_at = now })
        State.starting State.running now "" detail d)

unfoldable pub finish_starting_claim :
    String → String → Ending → ℕ → Database → Result Bool × Database
finish_starting_claim id owner e now d = in_tx d do
  refuse_if (is_empty owner) (message "provisioning owner is required")
  refuse_if (not (is_terminal e.state)) (message "the state is not terminal")
  lock_occurrence_writes d
  lane ← terminal_acceptance id e.state e.verdict d
  answer true false (
      update_logged id (λ r. r.state == State.starting && is_live_owner owner now r)
        (λ r. set_ending e lane now (clear_provisioning r)) State.starting e.state now e.code
        e.detail d)

unfoldable pub finish_provisioning_claim :
    String → String → Ending → ℕ → Database → Result Bool × Database
finish_provisioning_claim id owner e now d = in_tx d do
  refuse_if (is_empty owner) (message "provisioning owner is required")
  refuse_if (not (is_terminal e.state)) (message "the state is not terminal")
  lock_occurrence_writes d
  lane ← terminal_acceptance id e.state e.verdict d
  answer true false (
      update_logged id (λ r. r.state == State.provisioning && is_live_owner owner now r)
        (λ r. set_ending e lane now (clear_provisioning r)) State.provisioning e.state now ""
        e.detail d)
