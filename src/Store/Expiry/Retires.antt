-- ===== src/Store/Expiry/Retires.antt =====
-- An expired provisioning claim is retired: `InterruptExpiredProvisioning` of
-- internal/store/store.go.
use herdr_bots.Base.{
  ℕ, ◌≤◌, String, true, ◌&&◌, ◌≡◌, refl, some, ◌==◌, eq_iff, is_empty, ok, ◌>>=◌, arith,
}
use herdr_bots.Config.{Definition}
use herdr_bots.Config.Accept.{normalize_verdict, trim_space}
use herdr_bots.Store.State
use herdr_bots.Store.Schema.{Run, Database}
use herdr_bots.Store.Table.{in_tx, answer, get_run, lock_occurrence_writes}
use herdr_bots.Store.Table.Laws.{get_run-logged, update_logged_hit}
use herdr_bots.Store.Lease.{is_unprovisioned}
use herdr_bots.Store.Classify.{
  classify_finished, terminal_acceptance, set_ending, clear_provisioning,
}
use herdr_bots.Store.Expiry.{uncertain, expired_detail, interrupt_expired_provisioning}

interrupted_unread :
    (run_id : String) (definition : Definition)
    → (classify_finished run_id definition State.interrupted "unverified").unread ≡ true
unfolding classify_finished normalize_verdict trim_space
interrupted_unread run_id definition = refl

lane_of_run :
    (id state verdict : String) (d : Database) (r : Run)
    → get_run id d ≡ some r
    → terminal_acceptance id state verdict d
      ≡ ok (classify_finished r.id r.definition state verdict)
unfolding terminal_acceptance
lane_of_run id state verdict d r h = rw h refl

-- A provisioning run whose claim has expired with no workspace and no effect.
pub record IsExpired (now : ℕ) (r : Run) : Type 0 where
  pub state : r.state ≡ State.provisioning
  pub bare : is_empty r.workspace_id ≡ true
  pub late : r.provisioning_lease_until ≤ now
  pub free : is_empty r.effect_owner ≡ true

-- Where the store's lock row is there, `InterruptExpiredProvisioning` retires a provisioning run whose
-- claim has expired and that has no workspace and no effect: it answers true, and the run is
-- interrupted, unread and unowned.
pub expired_claim_retires :
    (id : String) (now : ℕ) (d : Database) (r : Run)
    → get_run id d ≡ some r
    → IsExpired now r
    → lock_occurrence_writes d ≡ ok tt
    → ((interrupt_expired_provisioning id now d).0 ≡ ok true)
      × (s : Run) × (get_run id (interrupt_expired_provisioning id now d).1 ≡ some s)
      × (s.state ≡ State.interrupted)
      × (s.unread ≡ true)
      × (s.provisioning_owner ≡ "")
unfolding interrupt_expired_provisioning in_tx ◌>>=◌ answer
expired_claim_retires id now d r h e l =
    let lane = classify_finished r.id r.definition State.interrupted "unverified" in
    let s : Run =
      set_ending (uncertain "restart_during_provisioning" expired_detail) lane now
        (clear_provisioning r) in
    let passes : (r.state == State.provisioning
          && is_empty r.workspace_id
          && is_unprovisioned now r
          && is_empty r.effect_owner)
        ≡ true =
      ground (arith, eq_iff r.state State.provisioning, e.state, e.bare, e.late, e.free) in
    rw l (
      rw (lane_of_run id State.interrupted "unverified" d r h) (
        rw (update_logged_hit id _ _ _ _ _ _ _ d r h passes) (
          refl,
          s,
          get_run-logged id d r s _ _ _ _ _ _ h refl,
          refl,
          interrupted_unread r.id r.definition,
          refl,
        )))
