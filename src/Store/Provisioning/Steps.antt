-- ===== src/Store/Provisioning/Steps.antt =====
-- The methods of a live provisioning claim make steps of the specification.
use herdr_bots.Base.{ℕ, String, true, false, ◌≡◌, refl, ◌&&◌, ◌==◌, is_empty, eq_iff, arith}
use herdr_bots.Config.Accept.{Lane}
use herdr_bots.Store.State
use herdr_bots.Store.State.{is_terminal, live_provisioning, live_starting}
use herdr_bots.Store.Schema.{Run, Database}
use herdr_bots.Store.Classify.{Ending, set_ending, clear_provisioning}
use herdr_bots.Store.Lease.{is_live_owner}
use herdr_bots.Store.Claims.{Workspace}
use herdr_bots.Store.Provisioning.{
  save_provisioning_plan, recover_provisioning_workspace, save_partial_provisioning_receipt,
  save_provisioning_receipt, renew_provisioning_claim, confirm_starting_claim,
  finish_starting_claim, finish_provisioning_claim,
}
use herdr_bots.Store.Spec.{Keeps, Step}
use herdr_bots.Store.Spec.Rules.{
  Step-update_run, Step-update_logged, Settles-refuse_if, Settles-bind, Settles-answer,
}

-- A workspace's identity, its branch and the lease are no part of what a row keeps.
place-Keeps :
    (workspace_id pane_id branch path : String) (until now : ℕ) (r : Run)
    → Keeps r (record r {
      workspace_id = workspace_id;
      pane_id = pane_id;
      branch = branch;
      worktree_path = path;
      provisioning_lease_until = until;
      updated_at = now;
    })
place-Keeps workspace_id pane_id branch path until now r = ground arith

module _ (id owner : String) (now : ℕ) (d : Database) where
  pub save_provisioning_plan-Step :
      (branch : String) → Step d (save_provisioning_plan id owner branch now d).1
  unfolding save_provisioning_plan
  save_provisioning_plan-Step branch = Settles-refuse_if d _ _ _ λ _. Settles-answer d _ _ _ (
      Step-update_run id _ _ d
        (λ r _ _. place-Keeps r.workspace_id r.pane_id branch r.worktree_path _ now r) (λ r. refl))

  pub save_partial_provisioning_receipt-Step :
      (workspace_id pane_id branch : String)
      → Step d (save_partial_provisioning_receipt id owner workspace_id pane_id branch now d).1
  unfolding save_partial_provisioning_receipt
  save_partial_provisioning_receipt-Step workspace_id pane_id branch =
      Settles-refuse_if d _ _ _ λ _. Settles-answer d _ _ _ (
        Step-update_run id _ _ d
          (λ r _ _. place-Keeps workspace_id pane_id branch r.worktree_path _ now r) (λ r. refl))

  receipt-Keeps :
      (w : Workspace) (mode marker : String) (r : Run)
      → (r.state == State.provisioning && is_live_owner owner now r) ≡ true
      → let s = record r {
        state = State.starting;
        workspace_id = w.workspace_id;
        pane_id = w.pane_id;
        branch = w.branch;
        worktree_path = w.worktree_path;
        execution_mode = mode;
        completion_marker = marker;
        updated_at = now;
      } in
        Keeps r s × (r.state ≡ State.provisioning) × (s.state ≡ State.starting)
  receipt-Keeps w mode marker r g =
      ground (arith, eq_iff r.state State.provisioning, live_provisioning)

  pub save_provisioning_receipt-Step :
      (w : Workspace) (mode marker : String)
      → Step d (save_provisioning_receipt id owner w mode marker now d).1
  unfolding save_provisioning_receipt
  save_provisioning_receipt-Step w mode marker = Settles-refuse_if d _ _ _ λ _.
      Settles-answer d _ _ _ (
        Step-update_logged id _ _ State.provisioning State.starting now ""
          "workspace provisioned and receipt persisted" d λ r _ g. receipt-Keeps w mode marker r g)

  pub renew_provisioning_claim-Step :
      (lease_until : ℕ) → Step d (renew_provisioning_claim id owner now lease_until d).1
  unfolding renew_provisioning_claim
  renew_provisioning_claim-Step lease_until = Settles-bind d _ _ λ _ _. Settles-answer d _ _ _ (
      Step-update_run id _ _ d
        (λ r _ _. place-Keeps r.workspace_id r.pane_id r.branch r.worktree_path lease_until now r)
        (λ r. refl))

  confirm-Keeps :
      (r : Run)
      → (r.state == State.starting && is_live_owner owner now r && is_empty r.effect_owner) ≡ true
      → let s = record (clear_provisioning r) { state = State.running; updated_at = now } in
        Keeps r s × (r.state ≡ State.starting) × (s.state ≡ State.running)
  confirm-Keeps r g = ground (arith, eq_iff r.state State.starting, live_starting)

  pub confirm_starting_claim-Step :
      (detail : String) → Step d (confirm_starting_claim id owner detail now d).1
  unfolding confirm_starting_claim
  confirm_starting_claim-Step detail = Settles-refuse_if d _ _ _ λ _. Settles-answer d _ _ _ (
      Step-update_logged id _ _ State.starting State.running now "" detail d
        λ r _ g. confirm-Keeps r g)

  claim_end-Keeps :
      (from : String) (e : Ending) (lane : Lane) (r : Run)
      → is_terminal from ≡ false
      → (r.state == from && is_live_owner owner now r) ≡ true
      → let s = set_ending e lane now (clear_provisioning r) in
        Keeps r s × (r.state ≡ from) × (s.state ≡ e.state)
  claim_end-Keeps from e lane r h g = ground (arith, eq_iff r.state from)

  pub finish_starting_claim-Step : (e : Ending) → Step d (finish_starting_claim id owner e now d).1
  unfolding finish_starting_claim
  finish_starting_claim-Step e = Settles-refuse_if d _ _ _ λ _. Settles-refuse_if d _ _ _ λ _.
      Settles-bind d _ _ λ _ _. Settles-bind d _ _ λ lane _. Settles-answer d _ _ _ (
        Step-update_logged id _ _ State.starting e.state now e.code e.detail d
          λ r _ g. claim_end-Keeps State.starting e lane r live_starting g)

  pub finish_provisioning_claim-Step :
      (e : Ending) → Step d (finish_provisioning_claim id owner e now d).1
  unfolding finish_provisioning_claim
  finish_provisioning_claim-Step e = Settles-refuse_if d _ _ _ λ _. Settles-refuse_if d _ _ _ λ _.
      Settles-bind d _ _ λ _ _. Settles-bind d _ _ λ lane _. Settles-answer d _ _ _ (
        Step-update_logged id _ _ State.provisioning e.state now "" e.detail d
          λ r _ g. claim_end-Keeps State.provisioning e lane r live_provisioning g)

pub recover_provisioning_workspace-Step :
    (id branch workspace_id path : String) (now : ℕ) (d : Database)
    → Step d (recover_provisioning_workspace id branch workspace_id path now d).1
unfolding recover_provisioning_workspace
recover_provisioning_workspace-Step id branch workspace_id path now d =
    Settles-refuse_if d _ _ _ λ _. Settles-answer d _ _ _ (
      Step-update_run id _ _ d
        (λ r _ _. place-Keeps workspace_id r.pane_id r.branch path r.provisioning_lease_until now r)
        (λ r. refl))
