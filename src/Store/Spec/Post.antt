-- ===== src/Store/Spec/Post.antt =====
-- What a transaction answers and leaves, from what its checks and its statement give.
use herdr_bots.Base.{
  ℕ, String, Bool, true, false, ◌≡◌, refl, inl, inr, some, Result, ok, err, Error, ◌>>=◌, ◌>>◌,
  refuse_if, if◌then◌else◌,
}
use herdr_bots.Store.Schema.{Run, Database}
use herdr_bots.Store.Table.{
  get_run, put_run, update_run, insert_event, update_logged, Body, in_tx, commit, answer, must_hit,
}
use herdr_bots.Store.Table.Laws.{update_run_cases}

-- `P` holds of the answer and the database of the transaction that started on `d`, for whom a
-- refusal is one way to end.
module _ {A : Type 0} (P : Result A → Database → Type 0) (d : Database)
    (refused : (e : Error) → P (err e) d) where
  pub Post-refuse_if :
      (b : Bool) (e : Error) (m : Body A)
      → (b ≡ false → P (in_tx d m).0 (in_tx d m).1)
      → P (in_tx d (refuse_if b e >> m)).0 (in_tx d (refuse_if b e >> m)).1
  unfolding in_tx ◌>>=◌ refuse_if
  Post-refuse_if true e m k = refused e
  Post-refuse_if false e m k = k refl

  pub Post-bind :
      {B : Type 0} (m : Result B) (f : B → Body A)
      → ((b : B) → m ≡ ok b → P (in_tx d (f b)).0 (in_tx d (f b)).1)
      → P (in_tx d (m >>= f)).0 (in_tx d (m >>= f)).1
  unfolding in_tx ◌>>=◌
  Post-bind (ok b) f k = k b refl
  Post-bind (err e) f k = refused e

  -- The statement is the last of the transaction.
  pub Post-answer_run :
      (won lost : A) (id : String) (guard : Run → Bool) (f : Run → Run)
      → P (ok lost) d
      → ((r : Run) → get_run id d ≡ some r → guard r ≡ true → P (ok won) (put_run (f r) d))
      → P
          (in_tx d (answer won lost (update_run id guard f d))).0
          (in_tx d (answer won lost (update_run id guard f d))).1
  unfolding in_tx answer
  Post-answer_run won lost id guard f miss hit = elim (update_run_cases id guard f d) [
    | inl e ↦ rw e miss
    | inr (r, e, g, u) ↦ rw u (hit r e g)
  ]

  pub Post-answer_logged :
      (won lost : A) (id : String) (guard : Run → Bool) (f : Run → Run) (from to : String) (at : ℕ)
      (code detail : String)
      → P (ok lost) d
      → ((r : Run)
          → get_run id d ≡ some r
          → guard r ≡ true
          → P (ok won) (insert_event id from to at code detail (put_run (f r) d)))
      → P
          (in_tx d (answer won lost (update_logged id guard f from to at code detail d))).0
          (in_tx d (answer won lost (update_logged id guard f from to at code detail d))).1
  unfolding in_tx answer update_logged
  Post-answer_logged won lost id guard f from to at code detail miss hit =
      elim (update_run_cases id guard f d) [
        | inl e ↦ rw e miss
        | inr (r, e, g, u) ↦ rw u (hit r e g)
      ]

  pub Post-if :
      (b : Bool) (m n : Body A)
      → (b ≡ true → P (in_tx d m).0 (in_tx d m).1)
      → (b ≡ false → P (in_tx d n).0 (in_tx d n).1)
      → P (in_tx d (if b then m else n)).0 (in_tx d (if b then m else n)).1
  Post-if true m n k l = k refl
  Post-if false m n k l = l refl

  pub Post-commit :
      (a : A) (d' : Database) → P (ok a) d' → P (in_tx d (commit a d')).0 (in_tx d (commit a d')).1
  unfolding in_tx
  Post-commit a d' h = h

-- The same where the statement must change its row.
module _ (P : Result (Unit {0}) → Database → Type 0) (d : Database)
    (refused : (e : Error) → P (err e) d) where
  pub Post-must_hit :
      (x : Error) (id : String) (guard : Run → Bool) (f : Run → Run) (from to : String) (at : ℕ)
      (code detail : String)
      → ((r : Run)
          → get_run id d ≡ some r
          → guard r ≡ true
          → P (ok tt) (insert_event id from to at code detail (put_run (f r) d)))
      → P
          (in_tx d (must_hit x (update_logged id guard f from to at code detail d))).0
          (in_tx d (must_hit x (update_logged id guard f from to at code detail d))).1
  unfolding in_tx must_hit update_logged
  Post-must_hit x id guard f from to at code detail hit = elim (update_run_cases id guard f d) [
    | inl e ↦ rw e (refused x)
    | inr (r, e, g, u) ↦ rw u (hit r e g)
  ]
