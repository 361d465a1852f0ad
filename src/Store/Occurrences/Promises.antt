-- ===== src/Store/Occurrences/Promises.antt =====
-- What admission promises of an occurrence: internal/store/store.go, `acceptOccurrenceTx`.
use herdr_bots.Base.{
  String, Bool, false, ◌≡◌, refl, sym, ap, ◌∙◌, Option, some, Result, ok, err, Error, >>=-eq-ok,
}
use herdr_bots.Store.Schema.{Occurrence, Database, AcceptRequest, AcceptResult}
use herdr_bots.Store.Table.{in_tx, get_occurrence}
use herdr_bots.Store.Occurrences.{
  existing_occurrence, accept_occurrence_tx, accept_occurrence, existing_result,
  accept_scheduled_occurrence,
}
use herdr_bots.Store.Spec.Post.{Post-refuse_if, Post-bind}

-- Whether an occurrence was recorded by this call.
unfoldable pub is_inserted : Result AcceptResult → Bool
is_inserted (ok r) = r.inserted
is_inserted (err e) = false

-- Nothing is inserted and nothing is written.
abbrev pub Rests : Database → Result AcceptResult → Database → Type 0
Rests d a d' = (is_inserted a ≡ false) × (d' ≡ d)

existing_not_inserted :
    (o : Occurrence) (d : Database) (x : AcceptResult)
    → existing_result o d ≡ ok x
    → x.inserted ≡ false
unfolding existing_result is_inserted
existing_not_inserted o d x h = let (run, _, e) = >>=-eq-ok _ _ h in ap is_inserted (sym e)

pub existing_some :
    (o : Occurrence) (d : Database) (x : Option AcceptResult)
    → existing_occurrence (some o) d ≡ ok x
    → (r : AcceptResult) × (x ≡ some r) × (r.inserted ≡ false)
unfolding existing_occurrence
existing_some o d x h = let (r, e, s) = >>=-eq-ok _ _ h in (r, cc, existing_not_inserted o d r e)

module _ (id : String) (req : AcceptRequest) (d : Database) (o : Occurrence)
    (h : get_occurrence req.job_id req.occurrence_key d ≡ some o) where
  accept_occurrence_tx-Rests :
      Rests d
        (in_tx d (accept_occurrence_tx d id req d)).0
        (in_tx d (accept_occurrence_tx d id req d)).1
  unfolding accept_occurrence_tx in_tx is_inserted
  accept_occurrence_tx-Rests =
      let P : Result AcceptResult → Database → Type 0 = Rests d in
      let no : (e : Error) → P (err e) d = λ e. (refl, refl) in
      Post-bind P d no _ _ λ x e.
        let (r, i, n) = existing_some o d x (ap (λ g. existing_occurrence g d) (sym h) ∙ e) in
        rw i (n, refl)

  -- An occurrence whose key is recorded already is not inserted again, whatever its request says:
  -- both ways to accept one write nothing.
  pub duplicate-Rests :
      Rests d (accept_occurrence id req d).0 (accept_occurrence id req d).1
      × Rests d (accept_scheduled_occurrence id req d).0 (accept_scheduled_occurrence id req d).1
  unfolding accept_occurrence accept_scheduled_occurrence is_inserted
  duplicate-Rests =
      let P : Result AcceptResult → Database → Type 0 = Rests d in
      let no : (e : Error) → P (err e) d = λ e. (refl, refl) in
      (
        Post-refuse_if P d no _ _ _ λ _.
            Post-refuse_if P d no _ _ _ λ _. Post-bind P d no _ _ λ _ _. accept_occurrence_tx-Rests,
        Post-refuse_if P d no _ _ _ λ _. Post-bind P d no _ _ λ _ _.
            Post-bind P d no _ _ λ _ _. Post-bind P d no _ _ λ _ _. accept_occurrence_tx-Rests,
      )
