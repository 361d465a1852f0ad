-- ===== src/Engine/Close/Cancelled.antt =====
-- What a cancellation that succeeds has done: internal/engine/engine.go, `Cancel`.
use herdr_bots.Base.{
  ℕ, String, true, false, ◌==◌, is_empty, ◌≡◌, ◌⊎◌, inl, inr, Option, none, some, Result, ok,
  message, refuse_if, sym, subst, ap, ◌∙◌, ◌≤◌, eq_iff, arith, Bool-cases, if◌then◌else◌,
}
use herdr_bots.Store.State
use herdr_bots.Store.State.{is_terminal}
use herdr_bots.Store.Schema.{Run, Database}
use herdr_bots.Store.Table.{found, get_run}
use herdr_bots.Store.Table.Laws.{get_run-id}
use herdr_bots.Store.Runs.Ended.{finish-LeftIn}
use herdr_bots.Engine.Steps.{call, value, ◌then◌, if_ran, call_ran, checked_ran}
use herdr_bots.Engine.Close.{
  Surroundings, close_and_finish, cancel_accepted, cancel_started, cancelled_ending,
  is_claimed_start, cancel_run, read_run, cancel,
}
use herdr_bots.Engine.Close.Closed.{IsClosed, close_and_finish-IsClosed}

module _ (s : Surroundings) where
  -- No start of the run is under way: it is not provisioning, and a claim of its start is not live.
  abbrev pub IsUnclaimed : (now : ℕ) → Run → Type 0
  IsUnclaimed now run =
      (¬ (run.state ≡ "provisioning"))
      × ((¬ (run.state ≡ "starting"))
          ⊎ ((is_empty run.provisioning_owner ≡ true) ⊎ (run.provisioning_lease_until ≤ now)))

  -- An accepted run is ended as cancelled; another has a workspace, which is closed.
  abbrev pub IsEnded : Run → ℕ → Database → Type 0
  IsEnded run now e =
      ((run.state ≡ "accepted")
        × ((after : Run) × (get_run run.id e ≡ some after) × (after.state ≡ "cancelled")))
      ⊎ ((is_empty run.workspace_id ≡ false) × IsClosed s run "cancelled" now e)

  -- The stored run that was cancelled: it was not terminal, and no live claim was starting it.
  pub record IsCancelled (run_id : String) (now : ℕ) (d e : Database) : Type 0 where
    run : Run
    stored : get_run run_id d ≡ some run
    same : run.id ≡ run_id
    nonterminal : is_terminal run.state ≡ false
    unclaimed : IsUnclaimed now run
    ended : IsEnded run now e

  run-IsUnclaimed : (now : ℕ) (run : Run) → is_claimed_start s now run ≡ false → IsUnclaimed now run
  unfolding is_claimed_start
  run-IsUnclaimed now run h = (
    λ k. ground (arith, h, k, eq_iff run.state State.provisioning),
    elim (Bool-cases (run.state == State.starting)) [
      | inr other ↦ inl λ k. ground (arith, other, k, eq_iff run.state State.starting)
      | inl starting ↦ inr (elim (Bool-cases (is_empty run.provisioning_owner)) [
        | inl free ↦ inl free
        | inr owned ↦ inr (ground (arith, h, starting, owned))
      ])
    ],
  )

  returned :
      (left : Result (Unit {0}) × Database) (e : Database)
      → ◌≡◌ {A = Option (Result (Unit {0}) × Database)} (some left) (some (ok tt, e))
      → left ≡ (ok tt, e)
  returned left e h = cc

  cancel_accepted-ended :
      (run : Run) (now : ℕ) (d e : Database)
      → cancel_accepted s run now d ≡ some (ok tt, e)
      → (after : Run) × (get_run run.id e ≡ some after) × (after.state ≡ "cancelled")
  unfolding cancel_accepted call
  cancel_accepted-ended run now d e h =
      let done = returned _ e h in
      let (after, stored, state) =
        finish-LeftIn run.id run.state
          (cancelled_ending s "not_started" "cancelled before provisioning") now d
          (ap (λ p. p.0) done) in
      (after, ap (get_run run.id) (sym (ap (λ p. p.1) done)) ∙ stored, state)

  cancel_started-IsClosed :
      (run : Run) (now : ℕ) (d e : Database)
      → cancel_started s run now d ≡ some (ok tt, e)
      → (is_empty run.workspace_id ≡ false) × IsClosed s run "cancelled" now e
  unfolding cancel_started
  cancel_started-IsClosed run now d e h =
      let ending = cancelled_ending s "completed" "workspace closed by explicit cancellation" in
      let (named, rest) =
        checked_ran (is_empty run.workspace_id) (message "run has no workspace receipt")
          (close_and_finish s run ending now) d e h in
      (named, close_and_finish-IsClosed s run ending now d e rest)

  found-stored :
      (o : Option Run) (run : Run) (d b : Database)
      → ◌≡◌ {A = Result Run × Database} (found o, d) (ok run, b)
      → (o ≡ some run) × (d ≡ b)
  found-stored none run d b h = cc
  found-stored (some x) run d b h = (cc, cc)

  cancel_run-IsCancelled :
      (run_id : String) (run : Run) (now : ℕ) (d e : Database)
      → get_run run_id d ≡ some run
      → cancel_run s run now d ≡ some (ok tt, e)
      → IsCancelled run_id now d e
  unfolding cancel_run
  cancel_run-IsCancelled run_id run now d e stored h =
      let last =
        if run.state == State.accepted
        then cancel_accepted s run now
        else cancel_started s run now in
      let (nonterminal, left) =
        checked_ran (is_terminal run.state) (message "run is already terminal")
          (value (refuse_if (is_claimed_start s now run) (message "run has an active start claim"))
            then λ _. last)
          d e h in
      let (unclaimed, rest) =
        checked_ran (is_claimed_start s now run) (message "run has an active start claim") last d e
          left in
      record {
        run = run;
        stored = stored;
        nonterminal = nonterminal;
        same = get_run-id run_id d run stored;
        unclaimed = run-IsUnclaimed now run unclaimed;
        ended =
            elim (if_ran (run.state == State.accepted) (cancel_accepted s run now)
              (cancel_started s run now) d e rest) [
                | inl (p, ran) ↦
                    inl
                      ((eq_iff run.state State.accepted).0 p, cancel_accepted-ended run now d e ran)
                | inr (_, ran) ↦ inr (cancel_started-IsClosed run now d e ran)
              ];
      }

  -- A cancellation that succeeds is of a stored run that is not terminal, not provisioning, and not
  -- starting under a live claim. An accepted run is left in the state cancelled. Another run has a
  -- workspace, and it is left in a terminal state without an effect: as cancelled, after a first close
  -- that Herdr carried out or whose workspace does not exist; or, where an earlier close's lease has
  -- run out and its workspace is seen to be gone, as cancelled or as the saved intent says.
  pub cancel-IsCancelled :
      (run_id : String) (now : ℕ) (d e : Database)
      → cancel s run_id now d ≡ some (ok tt, e)
      → IsCancelled run_id now d e
  unfolding cancel read_run
  cancel-IsCancelled run_id now d e h =
      let (run, (b, (read, left))) =
        call_ran (read_run s run_id) (λ run. cancel_run s run now) d e h in
      let (stored, same) = found-stored (get_run run_id d) run d b read in
      cancel_run-IsCancelled run_id run now d e stored
        (subst (λ x. cancel_run s run now x ≡ some (ok tt, e)) (sym same) left)
