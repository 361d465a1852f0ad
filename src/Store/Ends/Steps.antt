-- ===== src/Store/Ends/Steps.antt =====
-- The ends of an effect make steps of the specification.
use herdr_bots.Base.{
  ℕ, String, true, false, ◌≡◌, refl, ◌&&◌, ◌||◌, ◌==◌, is_empty, leb, eq_iff, Option, some, none,
  ok, arith,
}
use herdr_bots.Config.Accept.{Lane}
use herdr_bots.Store.State
use herdr_bots.Store.State.{is_terminal, live_verifying}
use herdr_bots.Store.EffectKind
use herdr_bots.Store.Schema.{Run, Database}
use herdr_bots.Store.Table.{found, get_run}
use herdr_bots.Store.Classify.{Ending, set_ending, clear_provisioning, clear_effect}
use herdr_bots.Store.Ends.{
  holds_effect, ending_of, lane_of, close_terminal, finish_effect, finish_expired_verifier,
  release_effect,
}
use herdr_bots.Store.Spec.{Keeps, Step}
use herdr_bots.Store.Spec.Rules.{
  Settles, Step-update_run, Step-update_logged, Settles-refuse_if, Settles-bind, Settles-if,
  Settles-answer,
}

-- The row that was read is the row that is updated.
pub read_row : (o : Option Run) (a r : Run) → found o ≡ ok a → o ≡ some r → a ≡ r
read_row none a r h e = cc
read_row (some x) a r h e = cc

module _ (id from owner claim kind : String) (e : Ending) (now : ℕ) (d : Database) where
  close-Keeps :
      (current r : Run)
      → current ≡ r
      → (e.state == from) ≡ true
      → holds_effect from owner claim kind now r ≡ true
      → let s =
          set_ending
            (ending_of current)
            (lane_of current)
            now
            (clear_provisioning (clear_effect r)) in
        Keeps r s × (r.state ≡ from) × (s.state ≡ e.state)
  close-Keeps current r same h g = ground (arith, eq_iff r.state from, eq_iff e.state from)

  close_terminal-Settles : Settles d (close_terminal id from owner claim kind e now d)
  unfolding close_terminal
  close_terminal-Settles = Settles-refuse_if d _ _ _ λ _. Settles-refuse_if d _ _ _ λ h.
      Settles-bind d _ _ λ current c. Settles-answer d _ _ _ (
        Step-update_logged id _ _ from e.state now e.code e.detail d λ r q g.
          close-Keeps current r (read_row (get_run id d) current r c q) (ground (arith, h)) g)

  end-Keeps :
      (lane : Lane) (r : Run)
      → is_terminal from ≡ false
      → holds_effect from owner claim kind now r ≡ true
      → let s = set_ending e lane now (clear_provisioning (clear_effect r)) in
        Keeps r s × (r.state ≡ from) × (s.state ≡ e.state)
  end-Keeps lane r h g = ground (arith, eq_iff r.state from)

  pub finish_effect-Step : Step d (finish_effect id from owner claim kind e now d).1
  unfolding finish_effect
  finish_effect-Step = Settles-refuse_if d _ _ _ λ _. Settles-refuse_if d _ _ _ λ _.
      Settles-bind d _ _ λ _ _.
        Settles-if d _ _ _ (λ _. close_terminal-Settles)
          λ live. Settles-bind d _ _ λ lane _. Settles-answer d _ _ _ (
            Step-update_logged id _ _ from e.state now e.code e.detail d
              λ r _ g. end-Keeps lane r live g)

module _ (id from owner claim kind : String) (now : ℕ) (d : Database) where
  release-Keeps : (r : Run) → Keeps r (record (clear_effect r) { updated_at = now })
  release-Keeps r = ground arith

  pub release_effect-Step : Step d (release_effect id from owner claim kind now d).1
  unfolding release_effect
  release_effect-Step =
      Settles-refuse_if d _ _ _ λ _.
        Settles-answer d _ _ _ (Step-update_run id _ _ d (λ r _ _. release-Keeps r) (λ r. refl))

module _ (id : String) (e : Ending) (now : ℕ) (d : Database) where
  expired-Keeps :
      (lane : Lane) (r : Run)
      → (r.state == State.verifying
          && ((r.effect_kind == EffectKind.verifier && leb r.effect_lease_until now)
              || (is_empty r.effect_owner && is_empty r.effect_kind)))
        ≡ true
      → let s = set_ending e lane now (clear_effect r) in
        Keeps r s × (r.state ≡ State.verifying) × (s.state ≡ e.state)
  expired-Keeps lane r g = ground (arith, eq_iff r.state State.verifying, live_verifying)

  pub finish_expired_verifier-Step : Step d (finish_expired_verifier id e now d).1
  unfolding finish_expired_verifier
  finish_expired_verifier-Step = Settles-refuse_if d _ _ _ λ _. Settles-bind d _ _ λ _ _.
      Settles-bind d _ _ λ run _. Settles-bind d _ _ λ lane _. Settles-answer d _ _ _ (
        Step-update_logged id _ _ State.verifying e.state now e.code e.detail d
          λ r _ g. expired-Keeps lane r g)
