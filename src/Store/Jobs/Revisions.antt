-- ===== src/Store/Jobs/Revisions.antt =====
-- How a synchronization moves a job's authority: `SyncJobAuthority` of internal/store/store.go.
use mathlib.Core.Path.{subst}
use herdr_bots.Base.{
  ℕ, ℤ, lt_int, eq_int, String, Bool, true, false, not, ◌&&◌, ◌||◌, ◌≡◌, refl, sym, ap, ◌∙◌, ◌⊎◌,
  inl, inr, some, ◌==◌, if◌then◌else◌, Result, ok, err, Error, job_revision_changed, ◌>>=◌,
  >>=-eq-ok, arith,
}
use herdr_bots.Config.{Definition}
use herdr_bots.Store.Schema.{JobState, Database}
use herdr_bots.Store.Table.{in_tx, get_job, put_job}
use herdr_bots.Store.Table.JobLaws.{get_job-put_job}
use herdr_bots.Store.Jobs.{bool_eq, sync_row, sync_job_authority_tx, read_job, sync_job_authority}
use herdr_bots.Store.Spec.Post.{Post-bind}

-- A later authority of the same job: a greater revision, or the same one with the same hash and
-- enablement and everything else that it had but the instant of the write. A pause and the cursor
-- stand either way.
pub record IsLater (j s : JobState) : Type 0 where
  pub id : s.id ≡ j.id
  pub paused : s.paused ≡ j.paused
  pub cursor : s.cursor ≡ j.cursor
  pub revision :
      (lt_int j.config_revision s.config_revision ≡ true)
      ⊎ ((s.config_revision ≡ j.config_revision)
          × (s.revision ≡ j.revision)
          × (s.enabled ≡ j.enabled)
          × (s.definition ≡ j.definition)
          × (s.completed ≡ j.completed))

chosen :
    (b c f : Bool) (x y d' : Database)
    → (if b
        then err job_revision_changed
        else if c && f
        then err job_revision_changed
        else if c
        then ok x
        else ok y)
      ≡ ok d'
    → (b ≡ false) × (((c ≡ true) × (f ≡ false) × (x ≡ d')) ⊎ ((c ≡ false) × (y ≡ d')))
chosen true c f x y d' h = cc
chosen false true true x y d' h = cc
chosen false true false x y d' h = (refl, inl (refl, refl, cc))
chosen false false f x y d' h = (refl, inr (refl, cc))

sync_row-IsLater :
    (j : JobState) (id : String) (n : ℤ) (hash : String) (definition : Definition) (enabled : Bool)
    (now : ℕ) (d d' : Database)
    → get_job id d ≡ some j
    → sync_row (some j) id n hash definition enabled now d ≡ ok d'
    → (s : JobState) × (get_job id d' ≡ some s) × IsLater j s
unfolding sync_row
sync_row-IsLater j id n hash definition enabled now d d' g h =
    let same : JobState = record j { updated_at = now } in
    let newer : JobState = record j {
      config_revision = n;
      revision = hash;
      definition = definition;
      enabled = enabled;
      completed = false;
      updated_at = now;
    } in
    let (b, c) =
      chosen (lt_int n j.config_revision) (eq_int n j.config_revision)
        (not (hash == j.revision) || not (bool_eq enabled j.enabled)) (put_job same d)
        (put_job newer d) d' h in
    elim c [
      | inl (_, _, e) ↦ (
        same,
        ap (get_job id) (sym e) ∙ get_job-put_job id j same d g refl,
        record {
          id = refl;
          paused = refl;
          cursor = refl;
          revision = inr (refl, refl, refl, refl, refl);
        },
      )
      | inr (u, e) ↦ (
        newer,
        ap (get_job id) (sym e) ∙ get_job-put_job id j newer d g refl,
        record { id = refl; paused = refl; cursor = refl; revision = inl (ground (arith, b, u)) },
      )
    ]

ok_injective : {x y : JobState} → ok x ≡ ok y → x ≡ y
ok_injective h = cc

read_job_ok :
    (id : String) (start d : Database) (s : JobState)
    → get_job id d ≡ some s
    → in_tx start (read_job id d) ≡ (ok s, d)
unfolding read_job in_tx ◌>>=◌
read_job_ok id start d s h = rw h refl

-- A synchronization that succeeds on a job that is known leaves it with a greater revision, or with
-- the same one and the same hash, definition and enablement; its pause and its cursor stand, and the
-- job that is returned is the one that is stored.
pub sync_job_authority-IsLater :
    (id : String) (n : ℤ) (hash : String) (definition : Definition) (enabled : Bool) (now : ℕ)
    (d : Database) (j s : JobState)
    → get_job id d ≡ some j
    → (sync_job_authority id n hash definition enabled now d).0 ≡ ok s
    → (get_job id (sync_job_authority id n hash definition enabled now d).1 ≡ some s) × IsLater j s
unfolding sync_job_authority sync_job_authority_tx
sync_job_authority-IsLater id n hash definition enabled now d j s g =
    let P : Result JobState → Database → Type 0 =
      λ a d'. a ≡ ok s → (get_job id d' ≡ some s) × IsLater j s in
    let no : (e : Error) → P (err e) d = λ e h. cc in
    Post-bind P d no _ _ λ _ _. Post-bind P d no _ _ λ d' m h.
      let (_, _, r) = >>=-eq-ok _ _ m in
      let row : sync_row (some j) id n hash definition enabled now d ≡ ok d' =
        ap (λ o. sync_row o id n hash definition enabled now d) (sym g) ∙ r in
      let (k, q, later) = sync_row-IsLater j id n hash definition enabled now d d' g row in
      let read = read_job_ok id d d' k q in
      let same : k ≡ s = ok_injective (sym (ap (λ p. p.0) read) ∙ h) in
      (ap (λ p. get_job id p.1) read ∙ q ∙ ap some same, subst (λ x. IsLater j x) same later)
