-- ===== src/Store/Jobs/Cursor.antt =====
-- The schedule cursor of a job: `SetCursorIfAuthority` of internal/store/store.go.
use mathlib.Core.Path.{subst}
use herdr_bots.Base.{
  ℕ, ◌≤◌, ℤ, String, Bool, not, ◌≡◌, refl, sym, ap, ◌∙◌, some, ltb, Result, ok, err, Error, arith,
}
use herdr_bots.Store.Schema.{JobState, Database}
use herdr_bots.Store.Table.{get_job, put_job}
use herdr_bots.Store.Table.Laws.{found_ok}
use herdr_bots.Store.Table.JobLaws.{get_job-put_job}
use herdr_bots.Store.Jobs.{update_job, update_job_row, set_cursor_if_authority}
use herdr_bots.Store.Spec.Post.{Post-bind, Post-if, Post-commit}

some_injective : {x y : JobState} → some x ≡ some y → x ≡ y
some_injective h = cc

pub update_job-put_job :
    (id : String) (f : JobState → JobState) (d : Database) (j : JobState)
    → get_job id d ≡ some j
    → (update_job id f d).1 ≡ put_job (f j) d
unfolding update_job update_job_row
update_job-put_job id f d j h = rw h refl

-- A job's cursor never moves back by an authorized write, whoever calls it and with whatever
-- instant, and the job's revision, hash, enablement, pause and completion stand.
pub set_cursor_if_authority_monotone :
    (id : String) (n : ℤ) (hash : String) (cursor : ℕ) (runnable : Bool) (clock : ℕ) (d : Database)
    (j : JobState)
    → get_job id d ≡ some j
    → (s : JobState) × (get_job id (set_cursor_if_authority id n hash cursor runnable clock d).1
        ≡ some s)
      × (j.cursor ≤ s.cursor)
      × (s.config_revision ≡ j.config_revision)
      × (s.revision ≡ j.revision)
      × (s.enabled ≡ j.enabled)
      × (s.paused ≡ j.paused)
      × (s.completed ≡ j.completed)
unfolding set_cursor_if_authority
set_cursor_if_authority_monotone id n hash cursor runnable clock d j g =
    let P : Result (Unit {0}) → Database → Type 0 = λ a d'.
      (s : JobState) × (get_job id d' ≡ some s)
      × (j.cursor ≤ s.cursor)
      × (s.config_revision ≡ j.config_revision)
      × (s.revision ≡ j.revision)
      × (s.enabled ≡ j.enabled)
      × (s.paused ≡ j.paused)
      × (s.completed ≡ j.completed) in
    let stay : P (ok tt) d = (j, g, omega arith, refl, refl, refl, refl, refl) in
    let no : (e : Error) → P (err e) d = λ e. stay in
    Post-bind P d no _ _ λ _ _. Post-bind P d no _ _ λ _ _. Post-bind P d no _ _ λ k f.
      let at : get_job id d ≡ some k = found_ok _ k f in
      let same : k ≡ j = some_injective (sym at ∙ g) in
      let moved : JobState = record k { cursor = cursor; updated_at = clock } in
      Post-if P d no (not (ltb k.cursor cursor)) _ _ (λ _. Post-commit P d no _ _ stay)
        λ l. Post-commit P d no _ _ (
          subst (λ x. P (ok tt) x) (sym (update_job-put_job id _ d k at))
            (
              moved,
              get_job-put_job id k moved d at refl,
              ground (arith, l, ap (λ x. x.cursor) same),
              ap (λ x. x.config_revision) same,
              ap (λ x. x.revision) same,
              ap (λ x. x.enabled) same,
              ap (λ x. x.paused) same,
              ap (λ x. x.completed) same,
            ))
