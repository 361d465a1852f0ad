-- ===== src/Store/Runs/Steps.antt =====
-- `transition` and `finish` make steps of the specification.
use herdr_bots.Base.{ℕ, String, true, false, ◌≡◌, ◌&&◌, ◌==◌, is_empty, eq_iff, arith}
use herdr_bots.Store.State.{is_terminal}
use herdr_bots.Config.Accept.{Lane}
use herdr_bots.Store.Schema.{Run, Database}
use herdr_bots.Store.Classify.{Ending, set_ending, clear_provisioning, clear_effect}
use herdr_bots.Store.Runs.{transition, finish}
use herdr_bots.Store.Spec.{Keeps, Step}
use herdr_bots.Store.Spec.Rules.{
  Step-update_logged, Settles-refuse_if, Settles-bind, Settles-must_hit,
}

transition-Keeps :
    (from to : String) (now : ℕ) (r : Run)
    → is_terminal from ≡ false
    → (r.state == from && is_empty r.effect_owner) ≡ true
    → Keeps r (record r { state = to; updated_at = now }) × (r.state ≡ from) × (to ≡ to)
transition-Keeps from to now r h g = ground (arith, eq_iff r.state from)

pub transition-Step :
    (id from to detail : String) (now : ℕ) (d : Database)
    → Step d (transition id from to detail now d).1
unfolding transition
transition-Step id from to detail now d =
    (Settles-refuse_if d _ _ _ λ live. Settles-refuse_if d _ _ _ λ _. Settles-must_hit d _ _ (
      Step-update_logged id _ _ from to now "" detail d
        λ r _ g. transition-Keeps from to now r live g))

finish-Keeps :
    (from : String) (e : Ending) (lane : Lane) (now : ℕ) (r : Run)
    → is_terminal from ≡ false
    → (r.state == from && is_empty r.effect_owner) ≡ true
    → let s = set_ending e lane now (clear_provisioning (clear_effect r)) in
      Keeps r s × (r.state ≡ from) × (s.state ≡ e.state)
finish-Keeps from e lane now r h g = ground (arith, eq_iff r.state from)

pub finish-Step :
    (id from : String) (e : Ending) (now : ℕ) (d : Database) → Step d (finish id from e now d).1
unfolding finish
finish-Step id from e now d =
    (Settles-refuse_if d _ _ _ λ _. Settles-refuse_if d _ _ _ λ live. Settles-bind d _ _ λ _ _.
      Settles-bind d _ _ λ lane _. Settles-must_hit d _ _ (
        Step-update_logged id _ _ from e.state now "" e.detail d
          λ r _ g. finish-Keeps from e lane now r live g))
