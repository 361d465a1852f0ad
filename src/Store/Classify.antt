-- ===== src/Store/Classify.antt =====
-- The acceptance lane that a finishing transaction stores: `classifyTerminalRun` and
-- `terminalAcceptanceTx` of internal/store/store.go.
pub mod Agrees
use Prim.Native.String.{◌++◌ as str_append}
use herdr_bots.Base.{
  ℕ, String, not, ◌||◌, Option, none, some, ◌==◌, is_empty, if◌then◌else◌, Result, ok, err, no_rows,
}
use herdr_bots.Config.{Job, Definition}
use herdr_bots.Config.Accept.{Lane, mandatory, trim_space, normalize_verdict, classify_terminal_run}
use herdr_bots.Store.State
use herdr_bots.Store.State.{is_nonterminal}
use herdr_bots.Store.Schema.{Run, Database}
use herdr_bots.Store.Table.{get_run}

-- The saved snapshot decides only for a succeeded run whose verifier passed.
classify_snapshot : Option Job → String → String → String → Lane
classify_snapshot none run_id state verdict = mandatory "snapshot_invalid"
classify_snapshot (some j) run_id state verdict = classify_terminal_run j run_id state verdict

-- `classifyTerminalRun`, under the name of its role here.
unfoldable pub classify_finished : String → Definition → String → String → Lane
unfolding classify_snapshot
classify_finished run_id definition state verdict =
    let normalized = normalize_verdict verdict in
    if normalized == "failed"
    then mandatory "verifier_failed"
    else if not (state == State.succeeded)
    then (if is_empty (trim_space state)
        then mandatory "state_unknown"
        else if state == State.failed
            || state == State.blocked
            || state == State.timed_out
            || state == State.cancelled
            || state == State.interrupted
        then mandatory (str_append "state_" state)
        else if is_nonterminal state
        then mandatory "state_nonterminal"
        else mandatory "state_unknown")
    else if not (normalized == "passed")
    then mandatory "unverified"
    else classify_snapshot definition.as_job run_id state normalized

lane_of_row : Option Run → String → String → Result Lane
lane_of_row none state verdict = err no_rows
lane_of_row (some r) state verdict = ok (classify_finished r.id r.definition state verdict)

-- `terminalAcceptanceTx`
unfoldable pub terminal_acceptance : String → String → String → Database → Result Lane
unfolding lane_of_row classify_finished
terminal_acceptance id state verdict d = lane_of_row (get_run id d) state verdict

-- The verdict part of a finishing UPDATE, which several methods take as their arguments.
pub record Ending : Type 0 where
  pub state : String
  pub infrastructure : String
  pub agent : String
  pub verdict : String
  pub code : String
  pub detail : String

-- SET state=?,infrastructure_result=?,…,acceptance_lane=?,acceptance_reason=?,unread=?,updated_at=?
abbrev pub set_ending : Ending → Lane → ℕ → Run → Run
set_ending e lane now r = record r {
  state = e.state;
  infrastructure_result = e.infrastructure;
  agent_result = e.agent;
  task_verdict = e.verdict;
  error_code = e.code;
  error_detail = e.detail;
  acceptance_lane = lane.lane;
  acceptance_reason = lane.reason;
  unread = lane.unread;
  updated_at = now;
}

-- SET provisioning_owner='',provisioning_lease_until=0
abbrev pub clear_provisioning : Run → Run
clear_provisioning r = record r { provisioning_owner = ""; provisioning_lease_until = 0 }

-- SET effect_owner='',effect_claim='',effect_kind='',effect_lease_until=0,effect_receipt=''
abbrev pub clear_effect : Run → Run
clear_effect r = record r {
  effect_owner = "";
  effect_claim = "";
  effect_kind = "";
  effect_lease_until = 0;
  effect_receipt = "";
}
