-- ===== src/Store/Expiry/Live.antt =====
-- A live provisioning claim against recovery: internal/store/store.go and internal/store/recovery.go.
use herdr_bots.Base.{
  ℕ, String, Bool, false, ◌≡◌, ◌<◌, refl, ap, ◌∙◌, some, is_empty, Result, err, Error, arith,
}
use herdr_bots.Store.Schema.{Run, Database}
use herdr_bots.Store.Table.{get_run}
use herdr_bots.Store.Lease.{is_unprovisioned}
use herdr_bots.Store.Expiry.{
  interrupt_expired_provisioning, interrupt_expired_starting, confirm_expired_command_start,
  interrupt_recovered_provisioning, same_row, is_bare,
}
use herdr_bots.Store.Spec.Post.{Post-refuse_if, Post-bind, Post-answer_logged}

-- A provisioning owner whose lease has not ended.
pub record IsLive (now : ℕ) (r : Run) : Type 0 where
  pub owned : is_empty r.provisioning_owner ≡ false
  pub later : now < r.provisioning_lease_until

module _ (d : Database) (r : Run) (now : ℕ) (live : IsLive now r) where
  not_unprovisioned : is_unprovisioned now r ≡ false
  not_unprovisioned = ground (arith, live.owned, live.later)

  module _ (id : String) (here : get_run id d ≡ some r) where
    interrupt_expired_provisioning_rests : (interrupt_expired_provisioning id now d).1 ≡ d
    unfolding interrupt_expired_provisioning
    interrupt_expired_provisioning_rests =
        let P : Result Bool → Database → Type 0 = λ a d'. d' ≡ d in
        let no : (e : Error) → P (err e) d = λ e. refl in
        Post-bind P d no _ _ λ _ _. Post-bind P d no _ _ λ _ _.
          Post-answer_logged P d no _ _ _ _ _ _ _ _ _ _ refl
            λ s e g. ground (arith, not_unprovisioned)

    interrupt_expired_starting_rests :
        (code detail : String) → (interrupt_expired_starting id code detail now d).1 ≡ d
    unfolding interrupt_expired_starting
    interrupt_expired_starting_rests code detail =
        let P : Result Bool → Database → Type 0 = λ a d'. d' ≡ d in
        let no : (e : Error) → P (err e) d = λ e. refl in
        Post-bind P d no _ _ λ _ _. Post-bind P d no _ _ λ _ _.
          Post-answer_logged P d no _ _ _ _ _ _ _ _ _ _ refl
            λ s e g. ground (arith, not_unprovisioned)

    confirm_expired_command_start_rests :
        (detail : String) → (confirm_expired_command_start id detail now d).1 ≡ d
    unfolding confirm_expired_command_start
    confirm_expired_command_start_rests detail =
        let P : Result Bool → Database → Type 0 = λ a d'. d' ≡ d in
        let no : (e : Error) → P (err e) d = λ e. refl in
        Post-answer_logged P d no _ _ _ _ _ _ _ _ _ _ refl
          λ s e g. ground (arith, not_unprovisioned)

  interrupt_recovered_provisioning_rests :
      (observed : Run)
      → get_run observed.id d ≡ some r
      → (interrupt_recovered_provisioning observed now d).1 ≡ d
  unfolding interrupt_recovered_provisioning same_row is_bare
  interrupt_recovered_provisioning_rests observed here =
      let P : Result Bool → Database → Type 0 = λ a d'. d' ≡ d in
      let no : (e : Error) → P (err e) d = λ e. refl in
      Post-refuse_if P d no _ _ _ λ _. Post-refuse_if P d no _ _ _ λ _.
        Post-refuse_if P d no _ _ _ λ _. Post-refuse_if P d no _ _ _ λ _.
          Post-refuse_if P d no _ _ _ λ _. Post-refuse_if P d no _ _ _ λ _.
            Post-bind P d no _ _ λ _ _. Post-bind P d no _ _ λ _ _.
              Post-answer_logged P d no _ _ _ _ _ _ _ _ _ _ refl λ s e g. ground (arith, live.later)

-- While a run's provisioning claim is live, no recovery writes anything: not the two interruptions
-- of expired claims, not the confirmation of an expired command start, and not the explicit recovery
-- of a row that was observed earlier with the same identifier.
pub live_claim_rests :
    (d : Database) (r observed : Run) (now : ℕ) (id code detail : String)
    → get_run id d ≡ some r
    → observed.id ≡ id
    → IsLive now r
    → ((interrupt_expired_provisioning id now d).1 ≡ d)
      × ((interrupt_expired_starting id code detail now d).1 ≡ d)
      × ((confirm_expired_command_start id detail now d).1 ≡ d)
      × ((interrupt_recovered_provisioning observed now d).1 ≡ d)
live_claim_rests d r observed now id code detail h i l = (
  interrupt_expired_provisioning_rests d r now l id h,
  interrupt_expired_starting_rests d r now l id h code detail,
  confirm_expired_command_start_rests d r now l id h detail,
  interrupt_recovered_provisioning_rests d r now l observed (ap (λ k. get_run k d) i ∙ h),
)
