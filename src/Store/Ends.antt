-- ===== src/Store/Ends.antt =====
-- The ends of an effect: `FinishEffect`, `FinishExpiredVerifier`, `InterruptExpiredVerifier` and
-- `ReleaseEffect` of internal/store/store.go.
pub mod Steps
pub mod Fencing
use herdr_bots.Base.{
  ℕ, String, Bool, true, false, not, ◌&&◌, ◌||◌, ◌==◌, is_empty, ltb, leb, if◌then◌else◌, Result,
  ok, message, ◌>>=◌, ◌>>◌, refuse_if,
}
use herdr_bots.Config.Accept.{Lane, mandatory}
use herdr_bots.Store.State
use herdr_bots.Store.State.{is_terminal}
use herdr_bots.Store.EffectKind
use herdr_bots.Store.Schema.{Run, Database}
use herdr_bots.Store.Table.{
  Body, in_tx, found, get_run, answer, update_run, update_logged, lock_occurrence_writes,
}
use herdr_bots.Store.Classify.{
  Ending, set_ending, clear_provisioning, clear_effect, terminal_acceptance,
}

-- state=? AND effect_owner=? AND effect_claim=? AND effect_kind=? AND effect_lease_until>?
abbrev pub holds_effect : String → String → String → String → ℕ → Run → Bool
holds_effect from owner claim kind now r =
    r.state == from
    && r.effect_owner == owner
    && r.effect_claim == claim
    && r.effect_kind == kind
    && ltb now r.effect_lease_until

-- What a terminal run has already, written again by a workspace close.
abbrev pub ending_of : Run → Ending
ending_of r = record {
  state = r.state;
  infrastructure = r.infrastructure_result;
  agent = r.agent_result;
  verdict = r.task_verdict;
  code = r.error_code;
  detail = r.error_detail;
}

abbrev pub lane_of : Run → Lane
lane_of r = record { lane = r.acceptance_lane; reason = r.acceptance_reason; unread = r.unread }

-- A workspace close of a run that is terminal already.
close_terminal : String → String → String → String → String → Ending → ℕ → Database → Body Bool
close_terminal id from owner claim kind e now d = do
  refuse_if (not (kind == EffectKind.workspace_close)) (message "run is terminal")
  refuse_if (not (e.state == from)) (message "terminal state cannot change during workspace close")
  current ← found (get_run id d)
  answer true false (
      update_logged id (holds_effect from owner claim kind now)
        (λ r.
          set_ending (ending_of current) (lane_of current) now
            (clear_provisioning (clear_effect r)))
        from e.state now e.code e.detail d)

finish_nonterminal : String → String → String → String → String → Ending → ℕ → Database → Body Bool
finish_nonterminal id from owner claim kind e now d = do
  lane ← terminal_acceptance id e.state e.verdict d
  answer true false (
      update_logged id (holds_effect from owner claim kind now)
        (λ r. set_ending e lane now (clear_provisioning (clear_effect r))) from e.state now e.code
        e.detail d)

unfoldable pub finish_effect :
    String → String → String → String → String → Ending → ℕ → Database → Result Bool × Database
unfolding close_terminal finish_nonterminal
finish_effect id from owner claim kind e now d = in_tx d do
  refuse_if (is_empty claim) (message "effect claim is required")
  refuse_if (not (is_terminal e.state)) (message "the state is not terminal")
  lock_occurrence_writes d
  if is_terminal from
      then close_terminal id from owner claim kind e now d
      else finish_nonterminal id from owner claim kind e now d

expired_lane : String → String → String → String → Database → Result Lane
expired_lane id kind state verdict d =
    if kind == EffectKind.verifier
    then terminal_acceptance id state verdict d
    else ok (mandatory "legacy_verifier")

unfoldable pub finish_expired_verifier : String → Ending → ℕ → Database → Result Bool × Database
unfolding expired_lane
finish_expired_verifier id e now d = in_tx d do
  refuse_if (not (is_terminal e.state)) (message "the state is not terminal")
  lock_occurrence_writes d
  run ← found (get_run id d)
  lane ← expired_lane id run.effect_kind e.state e.verdict d
  answer true false (
      update_logged id
        (λ r.
          r.state == State.verifying
          && ((r.effect_kind == EffectKind.verifier && leb r.effect_lease_until now)
              || (is_empty r.effect_owner && is_empty r.effect_kind)))
        (λ r. set_ending e lane now (clear_effect r)) State.verifying e.state now e.code e.detail d)

unfoldable pub interrupt_expired_verifier : String → String → ℕ → Database → Result Bool × Database
interrupt_expired_verifier id detail = finish_expired_verifier id (record {
  state = State.interrupted;
  infrastructure = "completed";
  agent = "completed";
  verdict = "unverified";
  code = "restart_during_verifier";
  detail = detail;
})

-- A release needs the claim, whatever its lease.
unfoldable pub release_effect :
    String → String → String → String → String → ℕ → Database → Result Bool × Database
release_effect id from owner claim kind now d = in_tx d do
  refuse_if (is_empty claim) (message "effect claim is required")
  answer true false (
      update_run id
        (λ r.
          r.state == from
          && r.effect_owner == owner
          && r.effect_claim == claim
          && r.effect_kind == kind)
        (λ r. record (clear_effect r) { updated_at = now }) d)
