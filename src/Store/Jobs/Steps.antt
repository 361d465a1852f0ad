-- ===== src/Store/Jobs/Steps.antt =====
-- The methods of job authority leave the runs and the events alone.
use herdr_bots.Base.{ℕ, ℤ, String, Bool, not, ◌≡◌, refl, Option, none, some, ltb, ok, ◌>>=◌, arith}
use herdr_bots.Config.{Definition}
use herdr_bots.Store.Schema.{JobState, Database}
use herdr_bots.Store.Table.{put_job, insert_job, get_job}
use herdr_bots.Store.Jobs.{
  sync_row, sync_job_authority_tx, read_job, sync_job_authority, update_job_row, update_job,
  set_cursor, set_cursor_if_authority, set_completed, set_completed_if_authority, set_paused,
  set_global_paused,
}
use herdr_bots.Store.Spec.{Step}
use herdr_bots.Store.Spec.Rules.{
  IsSame, Step-refl, Step-same, Settles-bind, Settles-if, Settles-commit, Settles-must_hit,
}

update_job_row-IsSame :
    (o : Option JobState) (f : JobState → JobState) (d : Database)
    → IsSame d (update_job_row o f d).1
unfolding update_job_row put_job
update_job_row-IsSame none f d = (refl, refl)
update_job_row-IsSame (some j) f d = (refl, refl)

pub update_job-IsSame :
    (id : String) (f : JobState → JobState) (d : Database) → IsSame d (update_job id f d).1
unfolding update_job
update_job-IsSame id f d = update_job_row-IsSame (get_job id d) f d

sync_row-IsSame :
    (o : Option JobState) (id : String) (n : ℤ) (hash : String) (definition : Definition)
    (enabled : Bool) (now : ℕ) (d d' : Database)
    → sync_row o id n hash definition enabled now d ≡ ok d'
    → IsSame d d'
unfolding sync_row put_job insert_job
sync_row-IsSame none id n hash definition enabled now d d' h = ground arith
sync_row-IsSame (some j) id n hash definition enabled now d d' h = ground arith

pub sync_job_authority_tx-IsSame :
    (id : String) (n : ℤ) (hash : String) (definition : Definition) (enabled : Bool) (now : ℕ)
    (d d' : Database)
    → sync_job_authority_tx id n hash definition enabled now d ≡ ok d'
    → IsSame d d'
unfolding sync_job_authority_tx ◌>>=◌
sync_job_authority_tx-IsSame id n hash definition enabled now d d' h =
    ground (arith, sync_row-IsSame (get_job id d) id n hash definition enabled now d d')

module _ (id : String) (n : ℤ) (hash : String) (definition : Definition) (enabled : Bool) (now : ℕ)
    (d : Database) where
  pub sync_job_authority-Step : Step d (sync_job_authority id n hash definition enabled now d).1
  unfolding sync_job_authority read_job
  sync_job_authority-Step = Settles-bind d _ _ λ _ _. Settles-bind d _ _ λ d' s.
      Settles-bind d _ _ λ j _.
        Settles-commit d j d'
          (Step-same d d' (sync_job_authority_tx-IsSame id n hash definition enabled now d d' s))

module _ (id : String) (n : ℤ) (hash : String) (d : Database) where
  pub set_cursor_if_authority-Step :
      (cursor : ℕ) (require_runnable : Bool) (clock : ℕ)
      → Step d (set_cursor_if_authority id n hash cursor require_runnable clock d).1
  unfolding set_cursor_if_authority
  set_cursor_if_authority-Step cursor require_runnable clock = Settles-bind d _ _ λ _ _.
      Settles-bind d _ _ λ _ _. Settles-bind d _ _ λ j _.
        Settles-if d (not (ltb j.cursor cursor)) _ _ (λ _. Settles-commit d tt d (Step-refl d))
          (λ _. Settles-commit d tt _ (Step-same d _ (update_job-IsSame id _ d)))

  pub set_completed_if_authority-Step :
      (completed : Bool) (clock : ℕ)
      → Step d (set_completed_if_authority id n hash completed clock d).1
  unfolding set_completed_if_authority
  set_completed_if_authority-Step completed clock = Settles-bind d _ _ λ _ _.
      Settles-bind d _ _ λ _ _. Settles-commit d tt _ (Step-same d _ (update_job-IsSame id _ d))

module _ (id : String) (d : Database) where
  pub set_cursor-Step : (cursor clock : ℕ) → Step d (set_cursor id cursor clock d).1
  unfolding set_cursor
  set_cursor-Step cursor clock = Step-same d _ (update_job-IsSame id _ d)

  pub set_completed-Step :
      (completed : Bool) (clock : ℕ) → Step d (set_completed id completed clock d).1
  unfolding set_completed
  set_completed-Step completed clock = Step-same d _ (update_job-IsSame id _ d)

  pub set_paused-Step : (paused : Bool) (clock : ℕ) → Step d (set_paused id paused clock d).1
  unfolding set_paused
  set_paused-Step paused clock = Settles-must_hit d _ _ (Step-same d _ (update_job-IsSame id _ d))

pub set_global_paused-Step : (paused : Bool) (d : Database) → Step d (set_global_paused paused d).1
unfolding set_global_paused
set_global_paused-Step paused d = Step-same d _ (refl, refl)
