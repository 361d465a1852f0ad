-- ===== src/Engine/Close/Evidence.antt =====
-- What the tests of a workspace close say when they pass: internal/engine/engine.go.
use herdr_bots.Base.{
  ℕ, String, Bool, true, false, not, ◌&&◌, is_empty, ltb, ◌≡◌, refl, ◌⊎◌, inl, inr, some, Result,
  ok, err, state_conflict, arith, ap, ◌≤◌, eq_iff, Bool-cases,
}
use herdr_bots.Store.State.{is_terminal}
use herdr_bots.Store.Schema.{Run, Database}
use herdr_bots.Store.Lease.{is_unclaimed}
use herdr_bots.Store.Table.{get_run}
use herdr_bots.Engine.Steps.{Stateful, checked_ran}
use herdr_bots.Engine.Close.{close_proved, is_gone, with_claim}

pub done_of : (b : Bool) → not b ≡ false → b ≡ true
done_of true h = refl
done_of false h = cc

pub proof_of :
    (workspace_id : String) (closed : Result (Unit {0})) (exists : Result Bool)
    → close_proved workspace_id closed exists ≡ true
    → (closed ≡ ok tt) ⊎ ((is_empty workspace_id ≡ false) × (exists ≡ ok false))
unfolding close_proved
proof_of w (ok tt) exists h = inl refl
proof_of w (err e) (err x) h = cc
proof_of w (err e) (ok true) h = ground arith
proof_of w (err e) (ok false) h = inr (ground arith, refl)

pub claim_ran :
    (claim : String) (next : Stateful (Unit {0})) (d e : Database)
    → with_claim claim next d ≡ some (ok tt, e)
    → (is_empty claim ≡ false) × (next d ≡ some (ok tt, e))
unfolding with_claim
claim_ran claim next d e h = checked_ran (is_empty claim) state_conflict next d e h

-- The status is the text "gone".
pub gone_of : (status : Result String) → is_gone status ≡ true → status ≡ ok "gone"
unfolding is_gone
gone_of (err e) h = cc
gone_of (ok status) h = ap ok ((eq_iff status "gone").0 h)

-- The lease of a held effect has run out.
abbrev pub IsLapsed : (now : ℕ) → Run → Type 0
IsLapsed now run = (is_empty run.effect_owner ≡ true) ⊎ (run.effect_lease_until ≤ now)

pub run-IsLapsed :
    (now : ℕ) (run : Run)
    → (not (is_empty run.effect_owner) && ltb now run.effect_lease_until) ≡ false
    → IsLapsed now run
run-IsLapsed now run h = elim (Bool-cases (is_empty run.effect_owner)) [
  | inl free ↦ inl free
  | inr held ↦ inr (ground (arith, h, held))
]

-- The row is ended in a terminal state, and no effect of it is held.
pub record IsEndedAs (id state : String) (e : Database) : Type 0 where
  pub after : Run
  pub stored : get_run id e ≡ some after
  pub reached : after.state ≡ state
  pub terminal : is_terminal after.state ≡ true
  pub free : is_unclaimed after ≡ true
