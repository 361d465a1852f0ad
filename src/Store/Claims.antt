-- ===== src/Store/Claims.antt =====
-- The compare-and-set claims of a run's external effect: internal/store/store.go. A claim that is
-- lost is the empty text.
pub mod Steps
pub mod Exclusive
use herdr_bots.Base.{
  ℕ, String, Bool, true, false, not, ◌&&◌, ◌||◌, List, Option, none, some, ◌==◌, is_empty, ltb, leb,
  if◌then◌else◌, Result, ok, err, message, ◌>>=◌, ◌>>◌, refuse_if,
}
use herdr_bots.Store.State
use herdr_bots.Store.State.{is_terminal}
use herdr_bots.Store.EffectKind
use herdr_bots.Store.Schema.{Run, Database}
use herdr_bots.Store.Table.{
  Body, in_tx, commit, found, get_run, answer, update_run, update_logged, lock_occurrence_writes,
}
use herdr_bots.Store.Classify.{Ending}
use herdr_bots.Store.Lease.{
  validate_effect_lease, is_unclaimed, is_unprovisioned, new_effect_claim, verifier_receipt_path,
}

-- SET effect_owner=?,effect_claim=?,effect_kind=?,effect_lease_until=?,effect_receipt=?,updated_at=?
abbrev pub set_effect : String → String → String → ℕ → String → ℕ → Run → Run
set_effect owner claim kind lease_until receipt now r = record r {
  effect_owner = owner;
  effect_claim = claim;
  effect_kind = kind;
  effect_lease_until = lease_until;
  effect_receipt = receipt;
  updated_at = now;
}

unfoldable pub claim_effect :
    String → String → String → String → List ℕ → ℕ → ℕ → Database → Result String × Database
claim_effect id from kind owner token now lease_until d = in_tx d do
  refuse_if (is_terminal from) (message "run is already terminal")
  validate_effect_lease kind owner now lease_until
  answer (new_effect_claim token) "" (
      update_run id (λ r. r.state == from && is_unclaimed r && is_unprovisioned now r)
        (set_effect owner (new_effect_claim token) kind lease_until "" now) d)

unfoldable pub claim_workspace_close :
    String → String → String → String → List ℕ → ℕ → ℕ → Database → Result String × Database
claim_workspace_close id from owner intent token now lease_until d = in_tx d do
  refuse_if (is_terminal from) (message "run is already terminal")
  refuse_if (is_empty intent) (message "workspace-close intent is required")
  validate_effect_lease EffectKind.workspace_close owner now lease_until
  answer (new_effect_claim token) "" (
      update_run id (λ r. r.state == from && is_unclaimed r && is_unprovisioned now r)
        (set_effect owner (new_effect_claim token) EffectKind.workspace_close lease_until intent
          now)
        d)

-- Only an expired workspace close is reclaimed.
unfoldable pub reclaim_effect :
    String → String → String → String → List ℕ → ℕ → ℕ → Database → Result String × Database
reclaim_effect id from kind owner token now lease_until d = in_tx d do
  refuse_if (not (kind == EffectKind.workspace_close)) (message "effect cannot be reclaimed")
  validate_effect_lease kind owner now lease_until
  answer (new_effect_claim token) "" (
      update_run id
        (λ r.
          r.state == from
          && not (is_empty r.effect_owner)
          && r.effect_kind == kind
          && leb r.effect_lease_until now
          && is_unprovisioned now r)
        (λ r. record r {
          effect_owner = owner;
          effect_claim = new_effect_claim token;
          effect_lease_until = lease_until;
          updated_at = now;
        })
        d)

-- The marker path is derived from the claim before the claim is stored.
unfoldable pub claim_verifier :
    String → String → String → List ℕ → ℕ → ℕ → Database → Result (String × String) × Database
claim_verifier state_dir id owner token now lease_until d = in_tx d do
  validate_effect_lease EffectKind.verifier owner now lease_until
  receipt ← verifier_receipt_path state_dir (new_effect_claim token)
  answer (new_effect_claim token, receipt) ("", "")
      (update_logged id (λ r. r.state == State.settled && is_unclaimed r)
        (λ r.
          record (set_effect owner (new_effect_claim token) EffectKind.verifier lease_until receipt
            now r) { state = State.verifying })
        State.settled State.verifying now "" "deterministic verifier claimed" d)

-- What a late cleanup persists as its receipt, which encoding/json turns into text.
pub record CloseIntent : Type 0 where
  pub ending : Ending
  pub acceptance_lane : String
  pub acceptance_reason : String
  pub unread : Option Bool

-- The workspace that a delayed provisioning result names.
pub record Workspace : Type 0 where
  pub workspace_id : String
  pub pane_id : String
  pub branch : String
  pub worktree_path : String

-- A terminal run keeps the ending that it has; a provisioning run takes the caller's.
late_intent : Run → Ending → CloseIntent
late_intent r e =
    if is_terminal r.state
    then record {
      ending = record {
        state = r.state;
        infrastructure = r.infrastructure_result;
        agent = r.agent_result;
        verdict = r.task_verdict;
        code = r.error_code;
        detail = r.error_detail;
      };
      acceptance_lane = r.acceptance_lane;
      acceptance_reason = r.acceptance_reason;
      unread = some r.unread;
    }
    else record { ending = e; acceptance_lane = ""; acceptance_reason = ""; unread = none }

is_late_eligible : String → ℕ → Run → Bool
is_late_eligible owner now r =
    (r.state == State.provisioning
      && (r.provisioning_owner == owner || not (ltb now r.provisioning_lease_until)))
    || is_terminal r.state

-- The row as the transaction writes it.
abbrev pub adopt : Workspace → String → String → ℕ → String → ℕ → Run → Run
adopt w owner claim lease_until intent now r =
    record (set_effect owner claim EffectKind.workspace_close lease_until intent now r) {
      workspace_id = w.workspace_id;
      pane_id = w.pane_id;
      branch = w.branch;
      worktree_path = w.worktree_path;
      unread = true;
    }

-- The run that the method returns: its instants and its unread flag are those read before.
adopted : Workspace → String → String → ℕ → String → Run → Run
adopted w owner claim lease_until intent r =
    record (adopt w owner claim lease_until intent r.updated_at r) { unread = r.unread }

unfoldable pub claim_late_provisioning_cleanup :
    (encode : CloseIntent → String)
    → String
    → String
    → Workspace
    → Ending
    → List ℕ
    → ℕ
    → ℕ
    → Database
    → Result (Option Run × String) × Database
unfolding late_intent is_late_eligible adopted
claim_late_provisioning_cleanup encode id owner w e token now lease_until d = in_tx d do
  refuse_if (is_empty w.workspace_id || is_empty w.branch)
      (message "late provisioning cleanup requires workspace identity and branch")
  validate_effect_lease EffectKind.workspace_close owner now lease_until
  lock_occurrence_writes d
  run ← found (get_run id d)
  let claim = new_effect_claim token
  let intent = encode (late_intent run e)
  if not (is_empty run.workspace_id) || not (is_empty run.effect_kind)
      then commit (some run, "") d
      else if not (is_late_eligible owner now run)
      then commit (some run, "") d
      else answer (some (adopted w owner claim lease_until intent run), claim) (none, "")
          (update_logged id (λ r. r.state == run.state && is_empty r.workspace_id && is_unclaimed r)
            (adopt w owner claim lease_until intent now) run.state run.state now
            "late_workspace_cleanup_claimed"
            "known provisioning workspace adopted for durable cleanup" d)
