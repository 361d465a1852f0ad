-- ===== src/Store/Jobs.antt =====
-- Job authority: internal/store/store.go, `configRevisionFromDefinition` to `GlobalPaused`, and
-- `requireJobAuthorityTx`. The clock of `time.Now()` is an argument.
pub mod Steps
pub mod Authority
pub mod Cursor
pub mod Revisions
use herdr_bots.Base.{
  ℕ, ℤ, pos, lt_int, eq_int, String, Bool, true, false, not, ◌&&◌, ◌||◌, Option, none, some, List,
  [], ◌∷◌, ◌==◌, is_empty, ltb, if◌then◌else◌, Result, ok, err, Error, job_revision_changed,
  job_disabled, job_paused, global_paused, no_rows, message, ◌>>=◌, ◌>>◌, refuse_if,
}
use herdr_bots.Config.{Definition}
use herdr_bots.Store.PauseReason
use herdr_bots.Store.Schema.{JobState, Database}
use herdr_bots.Store.Table.{
  Body, in_tx, commit, found, get_job, put_job, insert_job, get_metadata, must_hit,
  lock_authority_writes,
}

-- `configRevisionFromDefinition`: an absent revision is decoded as 0 and stands for 1.
revision_of : Option ℤ → Result ℤ
revision_of none = err (message "the definition cannot be decoded")
revision_of (some n) =
    if eq_int n (pos 0)
    then ok (pos 1)
    else if lt_int n (pos 1)
    then err (message "revision must be positive")
    else ok n

unfoldable pub config_revision_from_definition : Definition → Result ℤ
unfolding revision_of
config_revision_from_definition definition = revision_of definition.as_revision

-- The checks of `syncJobAuthorityTx` before the saved row is read; each error is a changed revision.
check_snapshot : ℤ → String → Result ℤ → Result (Unit {0})
check_snapshot config_revision hash (err _) = err job_revision_changed
check_snapshot config_revision hash (ok revision) = do
  refuse_if (lt_int config_revision (pos 1) || not (eq_int revision config_revision))
      job_revision_changed
  refuse_if (is_empty hash) job_revision_changed

abbrev bool_eq : Bool → Bool → Bool
bool_eq true b = b
bool_eq false b = not b

-- An unknown job is inserted; an older revision, or the same with another snapshot, is refused; a
-- newer one replaces the authority and clears the completion.
sync_row :
    Option JobState → String → ℤ → String → Definition → Bool → ℕ → Database → Result Database
sync_row none id config_revision hash definition enabled now d = ok (
    insert_job
      (record {
        id = id;
        config_revision = config_revision;
        revision = hash;
        definition = definition;
        enabled = enabled;
        paused = false;
        pause_reason = "";
        pause_at = 0;
        completed = false;
        cursor = now;
        updated_at = now;
      })
      d)
sync_row (some j) id config_revision hash definition enabled now d =
    if lt_int config_revision j.config_revision
    then err job_revision_changed
    else if eq_int config_revision j.config_revision
        && (not (hash == j.revision) || not (bool_eq enabled j.enabled))
    then err job_revision_changed
    else if eq_int config_revision j.config_revision
    then ok (put_job (record j { updated_at = now }) d)
    else ok (
        put_job
          (record j {
            config_revision = config_revision;
            revision = hash;
            definition = definition;
            enabled = enabled;
            completed = false;
            updated_at = now;
          })
          d)

-- `syncJobAuthorityTx`
unfoldable pub sync_job_authority_tx :
    String → ℤ → String → Definition → Bool → ℕ → Database → Result Database
unfolding check_snapshot sync_row config_revision_from_definition
sync_job_authority_tx id config_revision hash definition enabled now d = do
  check_snapshot config_revision hash (config_revision_from_definition definition)
  sync_row (get_job id d) id config_revision hash definition enabled now d

read_job : String → Database → Body JobState
read_job id d = do job ← found (get_job id d); commit job d

unfoldable pub sync_job_authority :
    String → ℤ → String → Definition → Bool → ℕ → Database → Result JobState × Database
unfolding read_job
sync_job_authority id config_revision hash definition enabled now d = in_tx d do
  lock_authority_writes d
  d' ← sync_job_authority_tx id config_revision hash definition enabled now d
  read_job id d'

sync_with_revision :
    Result ℤ → String → String → Definition → Bool → ℕ → Database → Result JobState × Database
sync_with_revision (err e) id hash definition enabled now d = (err e, d)
sync_with_revision (ok n) id hash definition enabled now d =
    sync_job_authority id n hash definition enabled now d

unfoldable pub sync_job :
    String → String → Definition → Bool → ℕ → Database → Result JobState × Database
unfolding sync_with_revision
sync_job id hash definition enabled now d =
    sync_with_revision (config_revision_from_definition definition) id hash definition enabled now d

-- `metadata` key 'global_paused' holds '1'.
is_paused_value : Option String → Bool
is_paused_value none = false
is_paused_value (some v) = v == "1"

unfoldable pub is_global_paused : Database → Bool
unfolding is_paused_value
is_global_paused d = is_paused_value (get_metadata "global_paused" d)

upsert_value : String → String → List (String × String) → List (String × String)
upsert_value key value [] = (key, value) ∷ []
upsert_value key value ((k, v) ∷ rest) =
    if k == key then (k, value) ∷ rest else (k, v) ∷ upsert_value key value rest

unfoldable pub set_global_paused : Bool → Database → Result (Unit {0}) × Database
unfolding upsert_value
set_global_paused paused d = (
  ok tt,
  record d { metadata = upsert_value "global_paused" (if paused then "1" else "0") d.metadata },
)

-- The refusal of a job that is disabled or paused, or of a global pause, in this order.
unfoldable pub runnable_refusal : JobState → Database → Result (Unit {0})
runnable_refusal j d = do
  refuse_if (not j.enabled) job_disabled
  refuse_if j.paused job_paused
  refuse_if (is_global_paused d) global_paused

-- `requireJobAuthorityTx`
unfoldable pub require_job_authority : String → ℤ → String → Bool → Database → Result (Unit {0})
require_job_authority id config_revision hash require_runnable d = do
  j ← found (get_job id d)
  refuse_if (not (eq_int j.config_revision config_revision) || not (j.revision == hash))
      job_revision_changed
  if require_runnable then runnable_refusal j d else ok tt

-- UPDATE jobs SET … WHERE id=?
update_job_row : Option JobState → (JobState → JobState) → Database → Bool × Database
update_job_row none f d = (false, d)
update_job_row (some j) f d = (true, put_job (f j) d)

unfoldable pub update_job : String → (JobState → JobState) → Database → Bool × Database
unfolding update_job_row
update_job id f d = update_job_row (get_job id d) f d

unfoldable pub set_cursor : String → ℕ → ℕ → Database → Result (Unit {0}) × Database
set_cursor id cursor clock d =
    (ok tt, (update_job id (λ j. record j { cursor = cursor; updated_at = clock }) d).1)

-- The cursor never moves back.
unfoldable pub set_cursor_if_authority :
    String → ℤ → String → ℕ → Bool → ℕ → Database → Result (Unit {0}) × Database
set_cursor_if_authority id config_revision hash cursor require_runnable clock d = in_tx d do
  lock_authority_writes d
  require_job_authority id config_revision hash require_runnable d
  j ← found (get_job id d)
  if not (ltb j.cursor cursor)
      then commit tt d
      else commit tt (update_job id (λ r. record r { cursor = cursor; updated_at = clock }) d).1

unfoldable pub set_completed : String → Bool → ℕ → Database → Result (Unit {0}) × Database
set_completed id completed clock d =
    (ok tt, (update_job id (λ j. record j { completed = completed; updated_at = clock }) d).1)

unfoldable pub set_completed_if_authority :
    String → ℤ → String → Bool → ℕ → Database → Result (Unit {0}) × Database
set_completed_if_authority id config_revision hash completed clock d = in_tx d do
  lock_authority_writes d
  require_job_authority id config_revision hash true d
  commit tt (update_job id (λ j. record j { completed = completed; updated_at = clock }) d).1

pause_row : Bool → ℕ → JobState → JobState
pause_row true clock j = record j {
  paused = true;
  pause_reason = PauseReason.manual;
  pause_at = clock;
  updated_at = clock;
}
pause_row false clock j = record j {
  paused = false;
  pause_reason = "";
  pause_at = 0;
  updated_at = clock;
}

unfoldable pub set_paused : String → Bool → ℕ → Database → Result (Unit {0}) × Database
unfolding pause_row
set_paused id paused clock d = in_tx d (must_hit no_rows (update_job id (pause_row paused clock) d))
