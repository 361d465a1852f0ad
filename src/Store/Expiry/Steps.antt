-- ===== src/Store/Expiry/Steps.antt =====
-- The recoveries of expired claims make steps of the specification.
use herdr_bots.Base.{ℕ, String, true, false, ◌≡◌, ◌&&◌, ◌==◌, is_empty, eq_iff, arith}
use herdr_bots.Config.Accept.{Lane}
use herdr_bots.Store.State
use herdr_bots.Store.State.{is_terminal, live_provisioning, live_starting}
use herdr_bots.Store.Schema.{Run, Database}
use herdr_bots.Store.Classify.{Ending, set_ending, clear_provisioning}
use herdr_bots.Store.Lease.{is_unprovisioned}
use herdr_bots.Store.Expiry.{
  interrupt_expired_provisioning, interrupt_expired_starting, confirm_expired_command_start,
  interrupt_recovered_provisioning, expired_detail, recovery_code_provisioning,
  recovery_detail_provisioning, same_row, is_bare,
}
use herdr_bots.Store.Spec.{Keeps, Step}
use herdr_bots.Store.Spec.Rules.{
  Step-update_logged, Settles-refuse_if, Settles-bind, Settles-answer,
}

-- A live row that ends, its claim cleared.
expiry-Keeps :
    (from : String) (e : Ending) (lane : Lane) (now : ℕ) (r : Run)
    → is_terminal from ≡ false
    → r.state ≡ from
    → let s = set_ending e lane now (clear_provisioning r) in
      Keeps r s × (r.state ≡ from) × (s.state ≡ e.state)
expiry-Keeps from e lane now r h g = ground arith

module _ (id : String) (now : ℕ) (d : Database) where
  bare_state :
      (r : Run)
      → (r.state == State.provisioning
          && is_empty r.workspace_id
          && is_unprovisioned now r
          && is_empty r.effect_owner)
        ≡ true
      → r.state ≡ State.provisioning
  bare_state r g = ground (arith, eq_iff r.state State.provisioning)

  pub interrupt_expired_provisioning-Step : Step d (interrupt_expired_provisioning id now d).1
  unfolding interrupt_expired_provisioning
  interrupt_expired_provisioning-Step = Settles-bind d _ _ λ _ _. Settles-bind d _ _ λ lane _.
      Settles-answer d _ _ _ (
        Step-update_logged id _ _ State.provisioning State.interrupted now "" expired_detail d
          λ r _ g. expiry-Keeps State.provisioning _ lane now r live_provisioning (bare_state r g))

  starting_state :
      (r : Run)
      → (r.state == State.starting && is_unprovisioned now r && is_empty r.effect_owner) ≡ true
      → r.state ≡ State.starting
  starting_state r g = ground (arith, eq_iff r.state State.starting)

  pub interrupt_expired_starting-Step :
      (code detail : String) → Step d (interrupt_expired_starting id code detail now d).1
  unfolding interrupt_expired_starting
  interrupt_expired_starting-Step code detail = Settles-bind d _ _ λ _ _.
      Settles-bind d _ _ λ lane _. Settles-answer d _ _ _ (
        Step-update_logged id _ _ State.starting State.interrupted now code detail d
          λ r _ g. expiry-Keeps State.starting _ lane now r live_starting (starting_state r g))

  confirm-Keeps :
      (r : Run)
      → r.state ≡ State.starting
      → let s = record (clear_provisioning r) { state = State.running; updated_at = now } in
        Keeps r s × (r.state ≡ State.starting) × (s.state ≡ State.running)
  confirm-Keeps r g = ground (arith, live_starting)

  pub confirm_expired_command_start-Step :
      (detail : String) → Step d (confirm_expired_command_start id detail now d).1
  unfolding confirm_expired_command_start
  confirm_expired_command_start-Step detail = Settles-answer d _ _ _ (
      Step-update_logged id _ _ State.starting State.running now "" detail d
        λ r _ g. confirm-Keeps r (starting_state r g))

module _ (observed : Run) (now : ℕ) (d : Database) where
  same_state :
      (r : Run)
      → (same_row observed r && is_bare now r) ≡ true
      → (observed.state == State.provisioning) ≡ true
      → r.state ≡ State.provisioning
  unfolding same_row
  same_state r g h =
      ground (arith, eq_iff r.state observed.state, eq_iff observed.state State.provisioning)

  pub interrupt_recovered_provisioning-Step :
      Step d (interrupt_recovered_provisioning observed now d).1
  unfolding interrupt_recovered_provisioning
  interrupt_recovered_provisioning-Step = Settles-refuse_if d _ _ _ λ _.
      Settles-refuse_if d _ _ _ λ h. Settles-refuse_if d _ _ _ λ _. Settles-refuse_if d _ _ _ λ _.
        Settles-refuse_if d _ _ _ λ _. Settles-refuse_if d _ _ _ λ _. Settles-bind d _ _ λ _ _.
          Settles-bind d _ _ λ lane _. Settles-answer d _ _ _ (
            Step-update_logged observed.id _ _ State.provisioning State.interrupted now
              recovery_code_provisioning recovery_detail_provisioning d
              λ r _ g.
                expiry-Keeps State.provisioning _ lane now r live_provisioning
                  (same_state r g (ground (arith, h))))
