-- ===== src/Store/Ends/Fencing.antt =====
-- Who may end a run's external effect: `FinishEffect` of internal/store/store.go.
use herdr_bots.Base.{
  ℕ, ◌<◌, String, Bool, true, false, ◌≡◌, refl, ap, ◌∙◌, some, eq_iff, Result, ok, err, Error,
  arith,
}
use herdr_bots.Store.State.{is_terminal}
use herdr_bots.Store.Schema.{Run, Database}
use herdr_bots.Store.Table.{in_tx, get_run}
use herdr_bots.Store.Table.Laws.{get_run-logged, missed}
use herdr_bots.Store.Classify.{Ending}
use herdr_bots.Store.Lease.{is_unclaimed}
use herdr_bots.Store.Ends.{finish_effect, close_terminal, finish_nonterminal}
use herdr_bots.Store.Spec.{IsSealed}
use herdr_bots.Store.Spec.Post.{Post-refuse_if, Post-bind, Post-if, Post-answer_logged}

-- The holder ended the effect: the row was the holder's, and is free and in the ending's state.
pub record IsEndedByHolder (id from owner claim kind : String) (e : Ending) (now : ℕ)
    (d d' : Database) : Type 0 where
  pub row : Run
  pub after : Run
  pub found : get_run id d ≡ some row
  pub state : row.state ≡ from
  pub owner_held : row.effect_owner ≡ owner
  pub claim_held : row.effect_claim ≡ claim
  pub kind_held : row.effect_kind ≡ kind
  pub live : now < row.effect_lease_until
  pub sealed : is_terminal row.state ≡ true → IsSealed row after
  pub stored : get_run id d' ≡ some after
  pub ended : after.state ≡ e.state
  pub terminal : is_terminal after.state ≡ true
  pub free : is_unclaimed after ≡ true
  pub unowned : after.provisioning_owner ≡ ""

-- What the transaction answers and leaves.
abbrev pub EndsByHolder :
    String
    → String
    → String
    → String
    → String
    → Ending
    → ℕ
    → Database
    → Result Bool
    → Database
    → Type 0
EndsByHolder id from owner claim kind e now d a d' =
    a ≡ ok true → IsEndedByHolder id from owner claim kind e now d d'

module _ (id from owner claim kind : String) (e : Ending) (now : ℕ) (d : Database)
    (t : is_terminal e.state ≡ true) where
  close_terminal_by_holder :
      EndsByHolder id from owner claim kind e now d
        (in_tx d (close_terminal id from owner claim kind e now d)).0
        (in_tx d (close_terminal id from owner claim kind e now d)).1
  unfolding close_terminal
  close_terminal_by_holder =
      let P = EndsByHolder id from owner claim kind e now d in
      let no : (x : Error) → P (err x) d = λ x h. cc in
      Post-refuse_if P d no _ _ _ λ k. Post-refuse_if P d no _ _ _ λ s.
        Post-bind P d no _ _ λ current f.
          Post-answer_logged P d no _ _ _ _ _ _ _ _ _ _ (λ h. missed h)
            λ r q g h.
              let same : current ≡ r = cc in
              let ended : current.state ≡ e.state =
                ap (λ x. x.state) same ∙ ground (arith, eq_iff r.state from, eq_iff e.state from) in
              record {
                row = r;
                after = _;
                found = q;
                state = ground (arith, g, eq_iff r.state from);
                owner_held = ground (arith, g, eq_iff r.effect_owner owner);
                claim_held = ground (arith, g, eq_iff r.effect_claim claim);
                kind_held = ground (arith, g, eq_iff r.effect_kind kind);
                live = ground (arith, g);
                sealed = λ _. record {
                  state = ap (λ x. x.state) same;
                  infrastructure = ap (λ x. x.infrastructure_result) same;
                  agent = ap (λ x. x.agent_result) same;
                  verdict = ap (λ x. x.task_verdict) same;
                  code = ap (λ x. x.error_code) same;
                  detail = ap (λ x. x.error_detail) same;
                  lane = ap (λ x. x.acceptance_lane) same;
                  reason = ap (λ x. x.acceptance_reason) same;
                  attestation = refl;
                  input = refl;
                  change = refl;
                };
                stored = get_run-logged id d r _ _ _ _ _ _ _ q refl;
                ended = ended;
                terminal = ap is_terminal ended ∙ t;
                free = refl;
                unowned = refl;
              }

  nonterminal_only :
      (r : Run) → is_terminal from ≡ false → r.state ≡ from → is_terminal r.state ≡ true → ⊥
  nonterminal_only r u h w = cc

  finish_nonterminal_by_holder :
      is_terminal from ≡ false
      → EndsByHolder id from owner claim kind e now d
          (in_tx d (finish_nonterminal id from owner claim kind e now d)).0
          (in_tx d (finish_nonterminal id from owner claim kind e now d)).1
  unfolding finish_nonterminal
  finish_nonterminal_by_holder u =
      let P = EndsByHolder id from owner claim kind e now d in
      let no : (x : Error) → P (err x) d = λ x h. cc in
      Post-bind P d no _ _ λ lane _.
        Post-answer_logged P d no _ _ _ _ _ _ _ _ _ _ (λ h. missed h)
          λ r q g h. record {
            row = r;
            after = _;
            found = q;
            state = ground (arith, g, eq_iff r.state from);
            owner_held = ground (arith, g, eq_iff r.effect_owner owner);
            claim_held = ground (arith, g, eq_iff r.effect_claim claim);
            kind_held = ground (arith, g, eq_iff r.effect_kind kind);
            live = ground (arith, g);
            sealed = λ w. absurd (nonterminal_only r u (ground (arith, g, eq_iff r.state from)) w);
            stored = get_run-logged id d r _ _ _ _ _ _ _ q refl;
            ended = refl;
            terminal = t;
            free = refl;
            unowned = refl;
          }

-- `FinishEffect` answers true only to the owner of the run's effect, under its claim and kind and
-- before its lease ends. Then the run is in the terminal state that was asked for, its effect and its
-- provisioning claim are free, and a run that was terminal before keeps its whole ending.
pub finish_effect-IsEndedByHolder :
    (id from owner claim kind : String) (e : Ending) (now : ℕ) (d : Database)
    → (finish_effect id from owner claim kind e now d).0 ≡ ok true
    → IsEndedByHolder id from owner claim kind e now d
        (finish_effect id from owner claim kind e now d).1
unfolding finish_effect
finish_effect-IsEndedByHolder id from owner claim kind e now d =
    let P = EndsByHolder id from owner claim kind e now d in
    let no : (x : Error) → P (err x) d = λ x h. cc in
    Post-refuse_if P d no _ _ _ λ c. Post-refuse_if P d no _ _ _ λ u. Post-bind P d no _ _ λ _ _.
      let t : is_terminal e.state ≡ true = ground arith in
      Post-if P d no (is_terminal from) _ _
        (λ _. close_terminal_by_holder id from owner claim kind e now d t)
        λ w. finish_nonterminal_by_holder id from owner claim kind e now d t w
