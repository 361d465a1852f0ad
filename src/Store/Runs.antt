-- ===== src/Store/Runs.antt =====
-- The state machine of a run: `Transition` and `Finish` of internal/store/store.go.
pub mod Steps
pub mod Quiet
pub mod Ended
use herdr_bots.Base.{
  ℕ, String, Bool, true, false, not, ◌&&◌, ◌==◌, is_empty, if◌then◌else◌, Result, ok, err,
  state_conflict, message, ◌>>=◌, ◌>>◌, refuse_if,
}
use herdr_bots.Store.State.{is_terminal}
use herdr_bots.Store.Schema.{Run, Database}
use herdr_bots.Store.Table.{in_tx, must_hit, lock_occurrence_writes, update_logged}
use herdr_bots.Store.Classify.{
  Ending, set_ending, clear_provisioning, clear_effect, terminal_acceptance,
}

unfoldable pub transition :
    String → String → String → String → ℕ → Database → Result (Unit {0}) × Database
transition id from to detail now d = in_tx d do
  refuse_if (is_terminal from) (message "run is terminal")
  refuse_if (is_terminal to) (message "run cannot transition to a terminal state; use Finish")
  must_hit state_conflict (
      update_logged id (λ r. r.state == from && is_empty r.effect_owner)
        (λ r. record r { state = to; updated_at = now }) from to now "" detail d)

unfoldable pub finish : String → String → Ending → ℕ → Database → Result (Unit {0}) × Database
finish id from e now d = in_tx d do
  refuse_if (not (is_terminal e.state)) (message "the state is not terminal")
  refuse_if (is_terminal from) (message "run is already terminal")
  lock_occurrence_writes d
  lane ← terminal_acceptance id e.state e.verdict d
  must_hit state_conflict (
      update_logged id (λ r. r.state == from && is_empty r.effect_owner)
        (λ r. set_ending e lane now (clear_provisioning (clear_effect r))) from e.state now ""
        e.detail d)
