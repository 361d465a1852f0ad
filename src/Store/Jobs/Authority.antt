-- ===== src/Store/Jobs/Authority.antt =====
-- What a job's authority admits: `requireJobAuthorityTx` and `syncJobAuthorityTx` of
-- internal/store/store.go.
use herdr_bots.Base.{
  ℤ, eq_int, String, true, false, not, ◌||◌, ◌≡◌, some, ◌==◌, eq_iff, if◌then◌else◌, ok, Error,
  >>=-eq-ok, ◌>>=◌, refuse_if, arith,
}
use herdr_bots.Store.Schema.{JobState, Database}
use herdr_bots.Store.Table.{get_job}
use herdr_bots.Store.Table.Laws.{found_ok}
use herdr_bots.Store.Jobs.{runnable_refusal, require_job_authority, is_global_paused}

-- The job that a caller's revision and hash name, and which may run.
pub record IsRunnable (id : String) (revision : ℤ) (hash : String) (d : Database) : Type 0 where
  pub job : JobState
  pub found : get_job id d ≡ some job
  pub revised : eq_int job.config_revision revision ≡ true
  pub hashed : job.revision ≡ hash
  pub enabled : job.enabled ≡ true
  pub unpaused : job.paused ≡ false
  pub going : is_global_paused d ≡ false

runnable_checks :
    (j : JobState) (d : Database)
    → runnable_refusal j d ≡ ok tt
    → (j.enabled ≡ true) × (j.paused ≡ false) × (is_global_paused d ≡ false)
unfolding runnable_refusal refuse_if ◌>>=◌
runnable_checks j d h = ground arith

authority_checks :
    (j : JobState) (revision : ℤ) (hash : String) (d : Database)
    → (refuse_if
          (not (eq_int j.config_revision revision) || not (j.revision == hash))
          Error.job_revision_changed
        >>= λ _. if true then runnable_refusal j d else ok tt)
      ≡ ok tt
    → (eq_int j.config_revision revision ≡ true)
      × (j.revision ≡ hash)
      × (runnable_refusal j d ≡ ok tt)
unfolding refuse_if ◌>>=◌
authority_checks j revision hash d h = ground (arith, eq_iff j.revision hash)

pub require_job_authority-IsRunnable :
    (id : String) (revision : ℤ) (hash : String) (d : Database)
    → require_job_authority id revision hash true d ≡ ok tt
    → IsRunnable id revision hash d
unfolding require_job_authority
require_job_authority-IsRunnable id revision hash d h =
    let (j, f, k) = >>=-eq-ok _ _ h in
    let (r, e, c) = authority_checks j revision hash d k in
    let (n, p, g) = runnable_checks j d c in
    record {
      job = j;
      found = found_ok _ j f;
      revised = r;
      hashed = e;
      enabled = n;
      unpaused = p;
      going = g;
    }
