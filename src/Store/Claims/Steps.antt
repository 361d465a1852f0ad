-- ===== src/Store/Claims/Steps.antt =====
-- The claims make steps of the specification.
use herdr_bots.Base.{
  ℕ, String, true, false, not, ◌≡◌, ◌&&◌, ◌||◌, List, some, ◌==◌, is_empty, leb, eq_iff, refl,
  arith,
}
use herdr_bots.Store.State
use herdr_bots.Store.State.{is_terminal, live_settled}
use herdr_bots.Store.EffectKind
use herdr_bots.Store.Schema.{Run, Database}
use herdr_bots.Store.Table.{commit}
use herdr_bots.Store.Classify.{Ending}
use herdr_bots.Store.Lease.{is_unclaimed, is_unprovisioned, new_effect_claim}
use herdr_bots.Store.Lease.Tokens.{
  IsToken, IsEffectLease, token_nonempty, validated-IsEffectLease, known_nonempty,
}
use herdr_bots.Store.Claims.{
  Workspace, CloseIntent, set_effect, adopt, is_late_eligible, claim_effect, claim_workspace_close,
  reclaim_effect, claim_verifier, claim_late_provisioning_cleanup,
}
use herdr_bots.Store.Spec.{Keeps, Step}
use herdr_bots.Store.Spec.Rules.{
  Step-refl, Step-update_run, Step-update_logged, Settles-refuse_if, Settles-bind, Settles-if,
  Settles-commit, Settles-answer,
}

module _ (owner kind : String) (token : List ℕ) (now lease_until : ℕ) (t : IsToken token)
    (v : IsEffectLease kind owner now lease_until) where
  set_effect-Keeps :
      (receipt : String) (r : Run)
      → Keeps r (set_effect owner (new_effect_claim token) kind lease_until receipt now r)
  set_effect-Keeps receipt r =
      ground (arith, v.owned, known_nonempty kind v.known, token_nonempty token t)

  reclaim-Keeps :
      (r : Run)
      → is_empty r.effect_owner ≡ false
      → Keeps r (record r {
        effect_owner = owner;
        effect_claim = new_effect_claim token;
        effect_lease_until = lease_until;
        updated_at = now;
      })
  reclaim-Keeps r h = ground (arith, v.owned, token_nonempty token t)

  verify-Keeps :
      (receipt : String) (r : Run)
      → (r.state == State.settled && is_unclaimed r) ≡ true
      → kind ≡ EffectKind.verifier
      → let s =
          record (set_effect owner
            (new_effect_claim token)
            EffectKind.verifier
            lease_until
            receipt
            now
            r) { state = State.verifying } in
        Keeps r s × (r.state ≡ State.settled) × (s.state ≡ State.verifying)
  verify-Keeps receipt r g e = ground (
    arith,
    v.owned,
    e,
    known_nonempty kind v.known,
    token_nonempty token t,
    eq_iff r.state State.settled,
    live_settled,
  )

  adopt-Keeps :
      (w : Workspace) (intent : String) (r : Run)
      → kind ≡ EffectKind.workspace_close
      → Keeps r (adopt w owner (new_effect_claim token) lease_until intent now r)
  adopt-Keeps w intent r e =
      ground (arith, v.owned, e, known_nonempty kind v.known, token_nonempty token t)

module _ (id owner : String) (token : List ℕ) (now lease_until : ℕ) (d : Database)
    (t : IsToken token) where
  pub claim_effect-Step :
      (from kind : String) → Step d (claim_effect id from kind owner token now lease_until d).1
  unfolding claim_effect
  claim_effect-Step from kind = Settles-refuse_if d _ _ _ λ _. Settles-bind d _ _ λ _ v.
      Settles-answer d _ _ _ (
        Step-update_run id _ _ d
          (λ r _ _.
            set_effect-Keeps owner kind token now lease_until t
              (validated-IsEffectLease kind owner now lease_until v) "" r)
          (λ r. refl))

  pub claim_workspace_close-Step :
      (from intent : String)
      → Step d (claim_workspace_close id from owner intent token now lease_until d).1
  unfolding claim_workspace_close
  claim_workspace_close-Step from intent = Settles-refuse_if d _ _ _ λ _.
      Settles-refuse_if d _ _ _ λ _. Settles-bind d _ _ λ _ v. Settles-answer d _ _ _ (
        Step-update_run id _ _ d
          (λ r _ _.
            set_effect-Keeps owner EffectKind.workspace_close token now lease_until t
              (validated-IsEffectLease _ owner now lease_until v) intent r)
          (λ r. refl))

  pub reclaim_effect-Step :
      (from kind : String) → Step d (reclaim_effect id from kind owner token now lease_until d).1
  unfolding reclaim_effect
  reclaim_effect-Step from kind = Settles-refuse_if d _ _ _ λ _. Settles-bind d _ _ λ _ v.
      Settles-answer d _ _ _ (
        Step-update_run id _ _ d
          (λ r _ g.
            reclaim-Keeps owner kind token now lease_until t
              (validated-IsEffectLease kind owner now lease_until v) r (held from kind r g))
          (λ r. refl))
    where
      held :
          (from kind : String) (r : Run)
          → (r.state == from
              && not (is_empty r.effect_owner)
              && r.effect_kind == kind
              && leb r.effect_lease_until now
              && is_unprovisioned now r)
            ≡ true
          → is_empty r.effect_owner ≡ false
      held from kind r g = ground arith

  pub claim_verifier-Step :
      (state_dir : String) → Step d (claim_verifier state_dir id owner token now lease_until d).1
  unfolding claim_verifier
  claim_verifier-Step state_dir = Settles-bind d _ _ λ _ v. Settles-bind d _ _ λ receipt _.
      Settles-answer d _ _ _ (
        Step-update_logged id _ _ State.settled State.verifying now ""
          "deterministic verifier claimed" d
          λ r _ g.
            verify-Keeps owner EffectKind.verifier token now lease_until t
              (validated-IsEffectLease _ owner now lease_until v) receipt r g refl)

  pub claim_late_provisioning_cleanup-Step :
      (encode : CloseIntent → String) (w : Workspace) (e : Ending)
      → Step d (claim_late_provisioning_cleanup encode id owner w e token now lease_until d).1
  unfolding claim_late_provisioning_cleanup
  claim_late_provisioning_cleanup-Step encode w e = Settles-refuse_if d _ _ _ λ _.
      Settles-bind d _ _ λ _ v. Settles-bind d _ _ λ _ _. Settles-bind d _ _ λ run _.
        Settles-if d (not (is_empty run.workspace_id) || not (is_empty run.effect_kind))
          (commit (some run, "") d) _ (λ _. Settles-commit d _ d (Step-refl d))
          λ _.
            Settles-if d (not (is_late_eligible owner now run)) (commit (some run, "") d) _
              (λ _. Settles-commit d _ d (Step-refl d))
              λ _. Settles-answer d _ _ _ (
                Step-update_logged id _ _ run.state run.state now "late_workspace_cleanup_claimed"
                  "known provisioning workspace adopted for durable cleanup" d
                  λ r _ g. (
                    adopt-Keeps owner EffectKind.workspace_close token now lease_until t
                        (validated-IsEffectLease _ owner now lease_until v) w _ r refl,
                    late_state run r g,
                    late_state run r g,
                  ))
    where
      late_state :
          (run r : Run)
          → (r.state == run.state && is_empty r.workspace_id && is_unclaimed r) ≡ true
          → r.state ≡ run.state
      late_state run r g = ground (arith, eq_iff r.state run.state)
