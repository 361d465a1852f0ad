-- ===== src/Engine/Close/Closed.antt =====
-- What a workspace close that succeeds has done: `closeAndFinish` of internal/engine/engine.go.
use herdr_bots.Base.{
  ℕ, ◌+◌, String, true, false, not, ◌&&◌, ◌==◌, is_empty, ltb, ◌≡◌, refl, ◌⊎◌, inl, inr, some, ok,
  err, message, state_conflict, refuse_if, refuse_if-ok, ap, sym, ◌∙◌, Option, none, eq_iff,
  Bool-cases,
}
use herdr_bots.Store.State.{is_terminal}
use herdr_bots.Store.EffectKind
use herdr_bots.Store.Schema.{Run, Database}
use herdr_bots.Store.Classify.{Ending}
use herdr_bots.Store.Claims.{claim_workspace_close, reclaim_effect}
use herdr_bots.Store.Ends.{finish_effect}
use herdr_bots.Store.Ends.Fencing.{finish_effect-IsEndedByHolder}
use herdr_bots.Store.Table.{get_run}
use herdr_bots.Store.Receipts.{record_run_event}
use herdr_bots.Engine.Steps.{call, value, ◌then◌, call_then-ok, value-ok, if_ran, call_ran}
use herdr_bots.Engine.Close.{
  Surroundings, workspace_close_lease, close_proved, is_gone, observed_status, intended,
  finish_workspace_close, close_pending, execute_workspace_close, recover_expired_workspace_close,
  claim_and_close, close_and_finish, with_claim, reclaim_and_finish, close_claimed, close_unclaimed,
}
use herdr_bots.Engine.Close.Evidence.{
  done_of, proof_of, claim_ran, gone_of, IsLapsed, run-IsLapsed, IsEndedAs,
}

module _ (s : Surroundings) where
  -- Herdr closed the workspace, or has no such workspace.
  abbrev pub IsProved : Run → Type 0
  IsProved run =
      (s.close_workspace run.workspace_id ≡ ok tt)
      ⊎ ((is_empty run.workspace_id ≡ false) × (s.workspace_exists run.workspace_id ≡ ok false))

  -- The state that was asked for, or that of the intent saved with an earlier close.
  abbrev pub IsIntended : Run → (asked state : String) → Type 0
  IsIntended run asked state =
      (state ≡ asked)
      ⊎ ((saved : Ending) × (s.read_intent run.effect_receipt ≡ some saved) × (state ≡ saved.state))

  -- A first close that is proved, in the state that was asked for; or a close that lapsed and whose
  -- workspace is seen to be gone, in the intended state.
  abbrev pub IsClosed : Run → (asked : String) → (now : ℕ) → Database → Type 0
  IsClosed run asked now e =
      ((is_empty run.effect_kind ≡ true) × (IsProved run × IsEndedAs run.id asked e))
      ⊎ ((run.effect_kind ≡ EffectKind.workspace_close)
          × (IsLapsed now run
              × ((observed_status s run ≡ ok "gone")
                  × ((state : String) × (IsIntended run asked state × IsEndedAs run.id state e)))))

  close_pending-fails :
      (run : Run) (code : String) (d e : Database)
      → close_pending s run code d ≡ some (ok tt, e)
      → ⊥
  unfolding close_pending call ◌then◌
  close_pending-fails run code d e h =
      let (_, (b, (_, after))) =
        call_then-ok (λ _. value (err (message "workspace close is pending"))) tt d e
          (record_run_event run.id code "the close is not proved" s.clock d) h in
      let (failed, _) = value-ok (err (message "workspace close is pending")) tt b e after in cc

  finished-IsEndedAs :
      (run : Run) (claim : String) (ending : Ending) (d e : Database)
      → finish_workspace_close s run claim ending d ≡ some (ok tt, e)
      → IsEndedAs run.id ending.state e
  unfolding finish_workspace_close call ◌then◌
  finished-IsEndedAs run claim ending d e h =
      let left =
        finish_effect run.id run.state s.owner claim EffectKind.workspace_close ending s.clock d in
      let (finished, (b, (ended, after))) =
        call_then-ok (λ finished. value (refuse_if (not finished) state_conflict)) tt d e left h in
      let (checked, same) = value-ok (refuse_if (not finished) state_conflict) tt b e after in
      let is_done = done_of finished (refuse_if-ok _ _ checked) in
      let w =
        finish_effect-IsEndedByHolder run.id run.state s.owner claim EffectKind.workspace_close
          ending s.clock d (ap (λ p. p.0) ended ∙ ap ok is_done) in
      record {
        after = w.after;
        stored = ap (get_run run.id) (sym (ap (λ p. p.1) ended ∙ same)) ∙ w.stored;
        reached = w.ended;
        terminal = w.terminal;
        free = w.free;
      }

  execute-IsProved :
      (run : Run) (claim : String) (ending : Ending) (d e : Database)
      → execute_workspace_close s run claim ending d ≡ some (ok tt, e)
      → IsProved run × IsEndedAs run.id ending.state e
  unfolding execute_workspace_close
  execute-IsProved run claim ending d e h =
      elim (if_ran
        (close_proved run.workspace_id (s.close_workspace run.workspace_id)
          (s.workspace_exists run.workspace_id))
        (finish_workspace_close s run claim ending) (close_pending s run "workspace_close_failed") d
        e h) [
          | inl (p, ran) ↦ (
            proof_of run.workspace_id (s.close_workspace run.workspace_id)
                (s.workspace_exists run.workspace_id) p,
            finished-IsEndedAs run claim ending d e ran,
          )
          | inr (p, ran) ↦ absurd (close_pending-fails run "workspace_close_failed" d e ran)
        ]

  claim-IsProved :
      (run : Run) (ending : Ending) (now : ℕ) (d e : Database)
      → claim_and_close s run ending now d ≡ some (ok tt, e)
      → IsProved run × IsEndedAs run.id ending.state e
  unfolding claim_and_close
  claim-IsProved run ending now d e h =
      let (claim, (b, (_, left))) =
        call_ran
          (claim_workspace_close run.id run.state s.owner (s.intent_text ending) s.token now
            (now + workspace_close_lease))
          (λ c. with_claim c (execute_workspace_close s run c ending)) d e h in
      let (_, rest) = claim_ran claim (execute_workspace_close s run claim ending) b e left in
      execute-IsProved run claim ending b e rest

  intended-IsIntended :
      (run : Run) (saved : Option Ending) (ending : Ending)
      → s.read_intent run.effect_receipt ≡ saved
      → IsIntended run ending.state (intended s saved ending).state
  unfolding intended
  intended-IsIntended run none ending h = inl refl
  intended-IsIntended run (some saved) ending h = elim (Bool-cases (is_terminal saved.state)) [
    | inl t ↦ inr (saved, h, rw t refl)
    | inr f ↦ inl (rw f refl)
  ]

  -- What a recovery that succeeds has seen and done.
  abbrev IsRecovered : Run → (asked : String) → Database → Type 0
  IsRecovered run asked e =
      (observed_status s run ≡ ok "gone")
      × ((state : String) × (IsIntended run asked state × IsEndedAs run.id state e))

  reclaim-IsRecovered :
      (run : Run) (ending : Ending) (now : ℕ) (d e : Database)
      → is_gone (observed_status s run) ≡ true
      → reclaim_and_finish s run ending now d ≡ some (ok tt, e)
      → IsRecovered run ending.state e
  unfolding reclaim_and_finish
  reclaim-IsRecovered run ending now d e gone h =
      let saved = intended s (s.read_intent run.effect_receipt) ending in
      let (claim, (b, (_, left))) =
        call_ran
          (reclaim_effect run.id run.state EffectKind.workspace_close s.owner s.token now
            (now + workspace_close_lease))
          (λ c. with_claim c (finish_workspace_close s run c saved)) d e h in
      let (_, rest) = claim_ran claim (finish_workspace_close s run claim saved) b e left in
      (
        gone_of (observed_status s run) gone,
        (
          saved.state,
          (
            intended-IsIntended run (s.read_intent run.effect_receipt) ending refl,
            finished-IsEndedAs run claim saved b e rest,
          ),
        ),
      )

  recover-IsRecovered :
      (run : Run) (ending : Ending) (now : ℕ) (d e : Database)
      → recover_expired_workspace_close s run ending now d ≡ some (ok tt, e)
      → IsRecovered run ending.state e
  unfolding recover_expired_workspace_close
  recover-IsRecovered run ending now d e h =
      elim (if_ran (is_gone (observed_status s run)) (reclaim_and_finish s run ending now)
        (close_pending s run "workspace_close_unverified") d e h) [
          | inl (p, ran) ↦ reclaim-IsRecovered run ending now d e p ran
          | inr (p, ran) ↦ absurd (close_pending-fails run "workspace_close_unverified" d e ran)
        ]

  owned-fails : (d e : Database) → value {A = Unit {0}} (err state_conflict) d ≡ some (ok tt, e) → ⊥
  unfolding value
  owned-fails d e h = cc

  close_claimed-IsRecovered :
      (run : Run) (ending : Ending) (now : ℕ) (d e : Database)
      → close_claimed s run ending now d ≡ some (ok tt, e)
      → IsLapsed now run × IsRecovered run ending.state e
  unfolding close_claimed
  close_claimed-IsRecovered run ending now d e h =
      elim (if_ran (not (is_empty run.effect_owner) && ltb now run.effect_lease_until)
        (value (err state_conflict)) (recover_expired_workspace_close s run ending now) d e h) [
          | inl (_, owned) ↦ absurd (owned-fails d e owned)
          | inr (p, left) ↦ (run-IsLapsed now run p, recover-IsRecovered run ending now d e left)
        ]

  close_unclaimed-IsProved :
      (run : Run) (ending : Ending) (now : ℕ) (d e : Database)
      → close_unclaimed s run ending now d ≡ some (ok tt, e)
      → (is_empty run.effect_kind ≡ true) × (IsProved run × IsEndedAs run.id ending.state e)
  unfolding close_unclaimed
  close_unclaimed-IsProved run ending now d e h =
      elim (if_ran (not (is_empty run.effect_kind)) (value (err state_conflict))
        (claim_and_close s run ending now) d e h) [
          | inl (_, owned) ↦ absurd (owned-fails d e owned)
          | inr (p, left) ↦
              (done_of (is_empty run.effect_kind) p, claim-IsProved run ending now d e left)
        ]

  pub close_and_finish-IsClosed :
      (run : Run) (ending : Ending) (now : ℕ) (d e : Database)
      → close_and_finish s run ending now d ≡ some (ok tt, e)
      → IsClosed run ending.state now e
  unfolding close_and_finish
  close_and_finish-IsClosed run ending now d e h =
      elim (if_ran (run.effect_kind == EffectKind.workspace_close) (close_claimed s run ending now)
        (close_unclaimed s run ending now) d e h) [
          | inl (p, ran) ↦ inr (
            (eq_iff run.effect_kind EffectKind.workspace_close).0 p,
            close_claimed-IsRecovered run ending now d e ran,
          )
          | inr (_, ran) ↦ inl (close_unclaimed-IsProved run ending now d e ran)
        ]
