-- ===== src/Store/Tests/Quiet.antt =====
-- A run that is verified and ends outside the unread inbox.
use herdr_bots.Base.{
  Bool, true, false, ◌≡◌, refl, Option, none, some, [], ◌∷◌, Result, ok, ◌>>=◌, refuse_if,
}
use herdr_bots.Config.Accept.{normalize_verdict, trim_space, classify_terminal_run}
use herdr_bots.Store.State
use herdr_bots.Store.State.{is_terminal}
use herdr_bots.Store.EffectKind
use herdr_bots.Store.Schema.{Run, Database}
use herdr_bots.Store.Table.{
  in_tx, get_run, put_run, answer, must_hit, update_run, update_logged, insert_event,
  lock_occurrence_writes, get_metadata,
}
use herdr_bots.Store.Classify.{terminal_acceptance}
use herdr_bots.Store.Runs.{finish}
use herdr_bots.Store.Runs.Quiet.{IsEarned, finish-IsEarned, finish_effect-IsEarned}
use herdr_bots.Store.Ends.{finish_effect}
use herdr_bots.Store.Tests.{holding, settled_run, verifying_run, passed, claim_a}

abbrev settled_rows : Database
settled_rows = holding (settled_run ∷ [])

abbrev run_of_row : Option Run → Run
run_of_row none = settled_run
run_of_row (some r) = r

abbrev ended : Result (Unit {0}) × Database
ended = finish "r1" State.settled passed 450 settled_rows

finish_answers : ended.0 ≡ ok tt
unfolding finish in_tx ◌>>=◌ refuse_if is_terminal lock_occurrence_writes get_metadata
    terminal_acceptance get_run must_hit update_logged update_run
finish_answers = refl

ended_row : get_run "r1" ended.1 ≡ some (run_of_row (get_run "r1" ended.1))
unfolding finish in_tx ◌>>=◌ refuse_if is_terminal lock_occurrence_writes get_metadata
    terminal_acceptance get_run must_hit update_logged update_run put_run insert_event
ended_row = refl

ended_read : (run_of_row (get_run "r1" ended.1)).unread ≡ false
unfolding finish in_tx ◌>>=◌ refuse_if is_terminal lock_occurrence_writes get_metadata
    terminal_acceptance get_run must_hit update_logged update_run put_run insert_event
    normalize_verdict trim_space classify_terminal_run
ended_read = refl

settled-IsEarned : IsEarned "r1" passed settled_rows
settled-IsEarned =
    finish-IsEarned "r1" State.settled passed 450 settled_rows (run_of_row (get_run "r1" ended.1))
      finish_answers ended_row ended_read

abbrev verifying_rows : Database
verifying_rows = holding (verifying_run ∷ [])

abbrev verified : Result Bool × Database
verified =
    finish_effect "r1" State.verifying "p1" claim_a EffectKind.verifier passed 450 verifying_rows

verified_answers : verified.0 ≡ ok true
unfolding finish_effect in_tx ◌>>=◌ refuse_if is_terminal lock_occurrence_writes get_metadata
    terminal_acceptance get_run answer update_logged update_run
verified_answers = refl

verified_row : get_run "r1" verified.1 ≡ some (run_of_row (get_run "r1" verified.1))
unfolding finish_effect in_tx ◌>>=◌ refuse_if is_terminal lock_occurrence_writes get_metadata
    terminal_acceptance get_run answer update_logged update_run put_run insert_event
verified_row = refl

verified_read : (run_of_row (get_run "r1" verified.1)).unread ≡ false
unfolding finish_effect in_tx ◌>>=◌ refuse_if is_terminal lock_occurrence_writes get_metadata
    terminal_acceptance get_run answer update_logged update_run put_run insert_event
    normalize_verdict trim_space classify_terminal_run
verified_read = refl

verified-IsEarned : IsEarned "r1" passed verifying_rows
unfolding is_terminal
verified-IsEarned =
    finish_effect-IsEarned "r1" State.verifying "p1" claim_a EffectKind.verifier passed 450
      verifying_rows (run_of_row (get_run "r1" verified.1)) refl verified_answers verified_row
      verified_read
