-- ===== src/Engine/Close.antt =====
-- The end of a run whose workspace is closed: `Cancel` and `closeAndFinish` of
-- internal/engine/engine.go, with what these call. A close that fails leaves its claim; a close whose
-- lease has run out is observed, never asked for again. The texts of the evidence are shortened.
pub mod Evidence
pub mod Closed
pub mod Cancelled
mod Tests
use herdr_bots.Base.{
  ℕ, ◌+◌, String, Bool, true, false, not, ◌&&◌, ◌||◌, ◌==◌, is_empty, ltb, List, Option, none, some,
  Result, ok, err, message, state_conflict, refuse_if, if◌then◌else◌,
}
use herdr_bots.Config.{Job}
use herdr_bots.Store.State
use herdr_bots.Store.State.{is_terminal}
use herdr_bots.Store.EffectKind
use herdr_bots.Store.Schema.{Run, Database}
use herdr_bots.Store.Table.{found, get_run}
use herdr_bots.Store.Classify.{Ending}
use herdr_bots.Store.Runs.{finish}
use herdr_bots.Store.Claims.{claim_workspace_close, reclaim_effect}
use herdr_bots.Store.Ends.{finish_effect}
use herdr_bots.Store.Receipts.{record_run_event}
use herdr_bots.Engine.Steps.{Stateful, call, value, ◌then◌}

-- What the engine asks of Herdr here, `encoding/json` on a close intent, the engine's owner, a random
-- token, and the clock at the end.
pub record Surroundings : Type 0 where
  pub close_workspace : (workspace_id : String) → Result (Unit {0})
  pub workspace_exists : (workspace_id : String) → Result Bool
  pub find_workspace_by_branch : (repository branch : String) → Result Bool
  pub status : (pane_id : String) → Result String
  pub intent_text : Ending → String
  pub read_intent : String → Option Ending
  pub owner : String
  pub token : List ℕ
  pub clock : ℕ

-- One minute, in nanoseconds.
abbrev pub workspace_close_lease : ℕ
workspace_close_lease = 60000000000

-- After a failed close only the absence of the workspace proves it.
unfoldable pub close_proved : (workspace_id : String) → Result (Unit {0}) → Result Bool → Bool
close_proved workspace_id (ok _) exists = true
close_proved workspace_id (err _) (err _) = false
close_proved workspace_id (err _) (ok exists) = not (is_empty workspace_id) && not exists

unfoldable pub presence : Result Bool → Result String
presence (err e) = err e
presence (ok true) = ok "present"
presence (ok false) = ok "gone"

unfoldable pub is_gone : Result String → Bool
is_gone (err _) = false
is_gone (ok status) = status == "gone"

-- `if claim == "" { return … }`
unfoldable pub with_claim : (claim : String) → Stateful (Unit {0}) → Stateful (Unit {0})
with_claim claim next = value (refuse_if (is_empty claim) state_conflict) then λ _. next

module _ (s : Surroundings) where
  unfoldable pub branch_presence : Option Job → (branch : String) → Result String
  unfolding presence
  branch_presence none branch = err (message "the saved job does not decode")
  branch_presence (some j) branch =
      presence (s.find_workspace_by_branch j.execution.repository branch)

  -- What is seen of a workspace whose close has expired.
  unfoldable pub observed_status : Run → Result String
  unfolding presence branch_presence
  observed_status run =
      if not (is_empty run.workspace_id)
      then presence (s.workspace_exists run.workspace_id)
      else if is_empty run.pane_id && not (is_empty run.branch)
      then branch_presence run.definition.as_job run.branch
      else if is_empty run.pane_id
      then err (message "workspace-close receipt has no pane id or planned branch")
      else s.status run.pane_id

  unfoldable pub intended : Option Ending → Ending → Ending
  intended none e = e
  intended (some saved) e = if is_terminal saved.state then saved else e

  -- `finishWorkspaceClose`
  unfoldable pub finish_workspace_close : Run → (claim : String) → Ending → Stateful (Unit {0})
  finish_workspace_close run claim e =
      call (finish_effect run.id run.state s.owner claim EffectKind.workspace_close e s.clock)
      then λ finished. value (refuse_if (not finished) state_conflict)

  -- The evidence of a close that is not proved, and the error.
  unfoldable pub close_pending : Run → (code : String) → Stateful (Unit {0})
  close_pending run code =
      call (record_run_event run.id code "the close is not proved" s.clock) then λ _.
      value (err (message "workspace close is pending"))

  -- `executeWorkspaceClose`
  unfoldable pub execute_workspace_close : Run → (claim : String) → Ending → Stateful (Unit {0})
  execute_workspace_close run claim e =
      if close_proved run.workspace_id (s.close_workspace run.workspace_id)
        (s.workspace_exists run.workspace_id)
      then finish_workspace_close run claim e
      else close_pending run "workspace_close_failed"

  unfoldable pub reclaim_and_finish : Run → Ending → (now : ℕ) → Stateful (Unit {0})
  reclaim_and_finish run e now =
      call (
        reclaim_effect run.id run.state EffectKind.workspace_close s.owner s.token now
          (now + workspace_close_lease))
      then λ claim.
          with_claim claim
            (finish_workspace_close run claim (intended (s.read_intent run.effect_receipt) e))

  -- `recoverExpiredWorkspaceClose`
  unfoldable pub recover_expired_workspace_close : Run → Ending → (now : ℕ) → Stateful (Unit {0})
  recover_expired_workspace_close run e now =
      if is_gone (observed_status run)
      then reclaim_and_finish run e now
      else close_pending run "workspace_close_unverified"

  unfoldable pub claim_and_close : Run → Ending → (now : ℕ) → Stateful (Unit {0})
  claim_and_close run e now =
      call (
        claim_workspace_close run.id run.state s.owner (s.intent_text e) s.token now
          (now + workspace_close_lease))
      then λ claim. with_claim claim (execute_workspace_close run claim e)

  unfoldable pub close_claimed : Run → Ending → (now : ℕ) → Stateful (Unit {0})
  close_claimed run e now =
      if not (is_empty run.effect_owner) && ltb now run.effect_lease_until
      then value (err state_conflict)
      else recover_expired_workspace_close run e now

  unfoldable pub close_unclaimed : Run → Ending → (now : ℕ) → Stateful (Unit {0})
  close_unclaimed run e now =
      if not (is_empty run.effect_kind)
      then value (err state_conflict)
      else claim_and_close run e now

  -- `closeAndFinish`
  unfoldable pub close_and_finish : Run → Ending → (now : ℕ) → Stateful (Unit {0})
  close_and_finish run e now =
      if run.effect_kind == EffectKind.workspace_close
      then close_claimed run e now
      else close_unclaimed run e now

  abbrev pub cancelled_ending : (infrastructure detail : String) → Ending
  cancelled_ending infrastructure detail = record {
    state = State.cancelled;
    infrastructure = infrastructure;
    agent = "cancelled";
    verdict = "unverified";
    code = "cancelled";
    detail = detail;
  }

  unfoldable pub is_claimed_start : (now : ℕ) → Run → Bool
  is_claimed_start now run =
      run.state == State.provisioning
      || (run.state == State.starting
          && not (is_empty run.provisioning_owner)
          && ltb now run.provisioning_lease_until)

  unfoldable pub cancel_accepted : Run → (now : ℕ) → Stateful (Unit {0})
  cancel_accepted run now =
      call (
        finish run.id run.state (cancelled_ending "not_started" "cancelled before provisioning")
          now)

  unfoldable pub cancel_started : Run → (now : ℕ) → Stateful (Unit {0})
  cancel_started run now =
      value (refuse_if (is_empty run.workspace_id) (message "run has no workspace receipt"))
      then λ _.
          close_and_finish run
            (cancelled_ending "completed" "workspace closed by explicit cancellation") now

  unfoldable pub cancel_run : Run → (now : ℕ) → Stateful (Unit {0})
  cancel_run run now =
      value (refuse_if (is_terminal run.state) (message "run is already terminal")) then λ _.
      value (refuse_if (is_claimed_start now run) (message "run has an active start claim"))
      then λ _.
          if run.state == State.accepted then cancel_accepted run now else cancel_started run now

  unfoldable pub read_run : (run_id : String) → Database → Result Run × Database
  read_run run_id d = (found (get_run run_id d), d)

  -- `Cancel`
  unfoldable pub cancel : (run_id : String) → (now : ℕ) → Stateful (Unit {0})
  cancel run_id now = call (read_run run_id) then λ run. cancel_run run now
