-- ===== src/Store/Claims/Exclusive.antt =====
-- Who may hold a run's external effect: the claims of internal/store/store.go against one another.
use herdr_bots.Base.{
  ℕ, ◌<◌, leb, String, Bool, true, false, not, ◌≡◌, refl, ap, List, some, eq_iff, is_empty, Result,
  ok, err, Error, arith,
}
use herdr_bots.Store.Schema.{Run, Database}
use herdr_bots.Store.State.{is_terminal}
use herdr_bots.Store.Table.{get_run}
use herdr_bots.Store.Table.Laws.{get_run-changed}
use herdr_bots.Store.Lease.{is_unclaimed, is_unprovisioned, new_effect_claim}
use herdr_bots.Store.Claims.{
  set_effect, claim_effect, claim_workspace_close, claim_verifier, reclaim_effect,
}
use herdr_bots.Store.Lease.Tokens.{IsEffectLease, validated-IsEffectLease}
use herdr_bots.Store.Spec.Post.{Post-refuse_if, Post-bind, Post-answer_run, Post-answer_logged}

-- Whether a claim was given.
unfoldable pub is_claimed : Result String → Bool
is_claimed (ok claim) = not (is_empty claim)
is_claimed (err e) = false

unfoldable pub is_verifier_claimed : Result (String × String) → Bool
is_verifier_claimed (ok (claim, receipt)) = not (is_empty claim)
is_verifier_claimed (err e) = false

-- No claim is given and nothing is written.
abbrev pub IsLost : {A : Type 0} → (A → Bool) → Database → A → Database → Type 0
IsLost test d a d' = (test a ≡ false) × (d' ≡ d)

module _ (id : String) (d : Database) (r : Run) (here : get_run id d ≡ some r)
    (held : is_empty r.effect_owner ≡ false) where
  claim_effect_lost :
      (from kind owner : String) (token : List ℕ) (now until : ℕ)
      → (is_claimed (claim_effect id from kind owner token now until d).0 ≡ false)
        × ((claim_effect id from kind owner token now until d).1 ≡ d)
  unfolding claim_effect is_claimed
  claim_effect_lost from kind owner token now until =
      let P : Result String → Database → Type 0 = IsLost is_claimed d in
      let no : (e : Error) → P (err e) d = λ e. (refl, refl) in
      Post-refuse_if P d no _ _ _ λ _.
        Post-bind P d no _ _
          λ _ _. Post-answer_run P d no _ _ _ _ _ (refl, refl) λ s e w. ground arith

  claim_workspace_close_lost :
      (from owner intent : String) (token : List ℕ) (now until : ℕ)
      → (is_claimed (claim_workspace_close id from owner intent token now until d).0 ≡ false)
        × ((claim_workspace_close id from owner intent token now until d).1 ≡ d)
  unfolding claim_workspace_close is_claimed
  claim_workspace_close_lost from owner intent token now until =
      let P : Result String → Database → Type 0 = IsLost is_claimed d in
      let no : (e : Error) → P (err e) d = λ e. (refl, refl) in
      Post-refuse_if P d no _ _ _ λ _. Post-refuse_if P d no _ _ _ λ _.
        Post-bind P d no _ _
          λ _ _. Post-answer_run P d no _ _ _ _ _ (refl, refl) λ s e w. ground arith

  claim_verifier_lost :
      (state_dir owner : String) (token : List ℕ) (now until : ℕ)
      → (is_verifier_claimed (claim_verifier state_dir id owner token now until d).0 ≡ false)
        × ((claim_verifier state_dir id owner token now until d).1 ≡ d)
  unfolding claim_verifier is_verifier_claimed
  claim_verifier_lost state_dir owner token now until =
      let P : Result (String × String) → Database → Type 0 = IsLost is_verifier_claimed d in
      let no : (e : Error) → P (err e) d = λ e. (refl, refl) in
      Post-bind P d no _ _ λ _ _.
        Post-bind P d no _ _
          λ _ _. Post-answer_logged P d no _ _ _ _ _ _ _ _ _ _ (refl, refl) λ s e w. ground arith

module _ (id : String) (d : Database) (r : Run) (here : get_run id d ≡ some r) (now : ℕ)
    (live : now < r.effect_lease_until) where
  reclaim_effect_lost :
      (from kind owner : String) (token : List ℕ) (until : ℕ)
      → (is_claimed (reclaim_effect id from kind owner token now until d).0 ≡ false)
        × ((reclaim_effect id from kind owner token now until d).1 ≡ d)
  unfolding reclaim_effect is_claimed
  reclaim_effect_lost from kind owner token until =
      let P : Result String → Database → Type 0 = IsLost is_claimed d in
      let no : (e : Error) → P (err e) d = λ e. (refl, refl) in
      Post-refuse_if P d no _ _ _ λ _. Post-bind P d no _ _ λ _ _.
        Post-answer_run P d no _ _ _ _ _ (refl, refl)
          λ s e w.
            let same : s ≡ r = cc in
            let expired = ap (λ x. leb x.effect_lease_until now) same in ground arith

-- An effect is claimed: the row was free and in the state, and now holds the claim, under a lease of
-- at most ten minutes.
pub record IsClaimWon (id from kind owner : String) (token : List ℕ) (now until : ℕ)
    (d d' : Database) : Type 0 where
  pub row : Run
  pub found : get_run id d ≡ some row
  pub state : row.state ≡ from
  pub live : is_terminal from ≡ false
  pub unclaimed : is_unclaimed row ≡ true
  pub unprovisioned : is_unprovisioned now row ≡ true
  pub lease : IsEffectLease kind owner now until
  pub stored :
      get_run id d' ≡ some (set_effect owner (new_effect_claim token) kind until "" now row)

-- `ClaimEffect` gives a claim only where the run is in the expected nonterminal state, no effect of
-- it is held and no provisioning claim of it is live; the lease is of a known kind and ends within
-- the bound, and then the row holds the owner, the claim, the kind and the lease.
pub claim_effect-IsClaimWon :
    (id from kind owner : String) (token : List ℕ) (now until : ℕ) (d : Database)
    → is_claimed (claim_effect id from kind owner token now until d).0 ≡ true
    → IsClaimWon id from kind owner token now until d
        (claim_effect id from kind owner token now until d).1
unfolding claim_effect is_claimed
claim_effect-IsClaimWon id from kind owner token now until d =
    let P : Result String → Database → Type 0 =
      λ a d'. is_claimed a ≡ true → IsClaimWon id from kind owner token now until d d' in
    let no : (e : Error) → P (err e) d = λ e h. cc in
    Post-refuse_if P d no _ _ _ λ t. Post-bind P d no _ _ λ _ l.
      Post-answer_run P d no _ _ _ _ _ (λ h. cc)
        λ r e g h. record {
          row = r;
          found = e;
          state = ground (arith, eq_iff r.state from);
          live = t;
          unclaimed = ground arith;
          unprovisioned = ground arith;
          lease = validated-IsEffectLease kind owner now until l;
          stored = get_run-changed id d r _ e refl;
        }

-- While a run's effect is held, `ClaimEffect`, `ClaimWorkspaceClose` and `ClaimVerifier` give no
-- claim to it, whatever their clock, and `ReclaimEffect` gives none before the lease of the holder
-- ends; such an attempt writes nothing.
pub held_effect-IsLost :
    (id : String) (d : Database) (r : Run)
    → get_run id d ≡ some r
    → is_empty r.effect_owner ≡ false
    → (early : ℕ) → early < r.effect_lease_until
    → (from kind owner intent state_dir : String) (token : List ℕ) (now until : ℕ)
    → IsLost is_claimed d
        (claim_effect id from kind owner token now until d).0
        (claim_effect id from kind owner token now until d).1
      × IsLost is_claimed d
          (claim_workspace_close id from owner intent token now until d).0
          (claim_workspace_close id from owner intent token now until d).1
      × IsLost is_verifier_claimed d
          (claim_verifier state_dir id owner token now until d).0
          (claim_verifier state_dir id owner token now until d).1
      × IsLost is_claimed d
          (reclaim_effect id from kind owner token early until d).0
          (reclaim_effect id from kind owner token early until d).1
held_effect-IsLost id d r h g early l from kind owner intent state_dir token now until = (
  claim_effect_lost id d r h g from kind owner token now until,
  claim_workspace_close_lost id d r h g from owner intent token now until,
  claim_verifier_lost id d r h g state_dir owner token now until,
  reclaim_effect_lost id d r h early l from kind owner token until,
)
