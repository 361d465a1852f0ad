-- ===== src/Engine/Close/Tests.antt =====
-- A cancellation of a settled run whose workspace Herdr closes.
use herdr_bots.Base.{
  false, ◌≡◌, refl, Option, none, some, [], ◌∷◌, Result, ok, err, message, ◌>>=◌, refuse_if,
}
use herdr_bots.Store.State.{is_terminal}
use herdr_bots.Store.Schema.{Run, Database}
use herdr_bots.Store.Table.{
  in_tx, answer, update_run, update_logged, get_run, lock_occurrence_writes, get_metadata, put_run,
}
use herdr_bots.Store.Lease.{validate_effect_lease, new_effect_claim}
use herdr_bots.Store.Classify.{terminal_acceptance}
use herdr_bots.Store.Claims.{claim_workspace_close}
use herdr_bots.Store.Ends.{finish_effect}
use herdr_bots.Store.Tests.{settled_run, holding, token_a}
use herdr_bots.Engine.Steps.{call, value, continue, ◌then◌}
use herdr_bots.Engine.Close.{
  Surroundings, cancel, read_run, cancel_run, is_claimed_start, cancel_started, close_and_finish,
  close_unclaimed, claim_and_close, with_claim, execute_workspace_close, close_proved,
  finish_workspace_close,
}
use herdr_bots.Engine.Close.Cancelled.{IsCancelled, cancel-IsCancelled}

-- Herdr's close fails, and the workspace is gone.
abbrev surroundings : Surroundings
surroundings = record {
  close_workspace = λ workspace_id. err (message "timeout");
  workspace_exists = λ workspace_id. ok false;
  find_workspace_by_branch = λ repository branch. ok false;
  status = λ pane_id. ok "gone";
  intent_text = λ e. e.detail;
  read_intent = λ text. none;
  owner = "p1";
  token = token_a;
  clock = 1000;
}

abbrev open_run : Run
open_run = record settled_run { workspace_id = "w1" }

abbrev left_of : Option (Result (Unit {0}) × Database) → Database
left_of none = holding []
left_of (some (r, d)) = d

abbrev closed_store : Database
closed_store = left_of (cancel surroundings "r1" 900 (holding (open_run ∷ [])))

cancel_succeeds :
    cancel surroundings "r1" 900 (holding (open_run ∷ [])) ≡ some (ok tt, closed_store)
unfolding cancel call value continue ◌then◌ claim_workspace_close finish_effect in_tx ◌>>=◌
    refuse_if is_terminal validate_effect_lease answer update_run update_logged get_run
    new_effect_claim lock_occurrence_writes get_metadata terminal_acceptance put_run read_run
    cancel_run is_claimed_start cancel_started close_and_finish close_unclaimed claim_and_close
    with_claim execute_workspace_close close_proved finish_workspace_close
cancel_succeeds = refl

open_run-IsCancelled : IsCancelled surroundings "r1" 900 (holding (open_run ∷ [])) closed_store
open_run-IsCancelled =
    cancel-IsCancelled surroundings "r1" 900 (holding (open_run ∷ [])) closed_store cancel_succeeds
