-- ===== src/Store/Runs/Ended.antt =====
-- What `Finish` of internal/store/store.go leaves of the run that it ends.
use herdr_bots.Base.{ℕ, String, ◌≡◌, refl, some, Result, ok, err, Error}
use herdr_bots.Store.Schema.{Run, Database}
use herdr_bots.Store.Table.{get_run}
use herdr_bots.Store.Table.Laws.{get_run-logged}
use herdr_bots.Store.Classify.{Ending}
use herdr_bots.Store.Runs.{finish}
use herdr_bots.Store.Spec.Post.{Post-refuse_if, Post-bind, Post-must_hit}

abbrev pub LeftIn : String → Ending → Result (Unit {0}) → Database → Type 0
LeftIn id e a d' = a ≡ ok tt → (s : Run) × (get_run id d' ≡ some s) × (s.state ≡ e.state)

pub finish-LeftIn :
    (id from : String) (e : Ending) (now : ℕ) (d : Database)
    → LeftIn id e (finish id from e now d).0 (finish id from e now d).1
unfolding finish
finish-LeftIn id from e now d =
    let P : Result (Unit {0}) → Database → Type 0 = LeftIn id e in
    let no : (x : Error) → P (err x) d = λ x h. cc in
    Post-refuse_if P d no _ _ _ λ _. Post-refuse_if P d no _ _ _ λ _. Post-bind P d no _ _ λ _ _.
      Post-bind P d no _ _ λ lane answered.
        Post-must_hit P d no _ _ _ _ _ _ _ _ _
          λ r q g h. (_, get_run-logged id d r _ _ _ _ _ _ _ q refl, refl)
