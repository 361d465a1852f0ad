-- ===== src/Store/Table.antt =====
-- SQL statements over the tables, and a transaction's outcome. A primary key names one row, as
-- SQLite enforces it, so an `UPDATE … WHERE id=?` affects no row or one.
pub mod Laws
pub mod JobLaws
use herdr_bots.Base.{
  ℕ, String, Bool, true, false, not, ◌&&◌, ◌||◌, List, [], ◌∷◌, Option, none, some, ◌==◌,
  if◌then◌else◌, Result, ok, err, Error, no_rows, constraint_failed, message, refuse_if,
}
use herdr_bots.Store.Schema.{Run, JobState, Occurrence, Database}

-- What a transaction's body leaves: an error rolls back, and a value or a late error stands with
-- the database that is committed.
abbrev pub Body : Type 0 → Type 0
Body A = Result (Result A × Database)

unfoldable pub in_tx : {A : Type 0} → Database → Body A → Result A × Database
in_tx d (ok r) = r
in_tx d (err e) = (err e, d)

abbrev pub commit : {A : Type 0} → A → Database → Body A
commit a d = ok (ok a, d)

-- `tx.Commit()` before a refusal is returned.
abbrev pub commit_refusal : {A : Type 0} → Error → Database → Body A
commit_refusal e d = ok (err e, d)

unfoldable pub find_run : String → List Run → Option Run
find_run id [] = none
find_run id (r ∷ rs) = if r.id == id then some r else find_run id rs

replace_run : Run → List Run → List Run
replace_run s [] = []
replace_run s (r ∷ rs) = if r.id == s.id then s ∷ rs else r ∷ replace_run s rs

-- SELECT … FROM runs WHERE id=?
unfoldable pub get_run : String → Database → Option Run
unfolding find_run
get_run id d = find_run id d.runs

unfoldable pub put_run : Run → Database → Database
unfolding replace_run
put_run s d = record d { runs = replace_run s d.runs }

is_some {ℓ} : {A : Type ℓ} → Option A → Bool
is_some none = false
is_some (some _) = true

-- UPDATE runs SET … WHERE id=? AND guard: whether one row was affected.
update_found : Option Run → (Run → Bool) → (Run → Run) → Database → Bool × Database
update_found none guard change d = (false, d)
update_found (some r) guard change d = if guard r then (true, put_run (change r) d) else (false, d)

unfoldable pub update_run : String → (Run → Bool) → (Run → Run) → Database → Bool × Database
unfolding update_found
update_run id guard change d = update_found (get_run id d) guard change d

-- INSERT INTO events
unfoldable pub insert_event : String → String → String → ℕ → String → String → Database → Database
insert_event run_id from_state to_state at code detail d = record d {
  events =
      record {
        run_id = run_id;
        from_state = from_state;
        to_state = to_state;
        at = at;
        code = code;
        detail = detail;
      }
      ∷ d.events;
}

find_job : String → List JobState → Option JobState
find_job id [] = none
find_job id (j ∷ js) = if j.id == id then some j else find_job id js

replace_job : JobState → List JobState → List JobState
replace_job s [] = []
replace_job s (j ∷ js) = if j.id == s.id then s ∷ js else j ∷ replace_job s js

unfoldable pub get_job : String → Database → Option JobState
unfolding find_job
get_job id d = find_job id d.jobs

unfoldable pub put_job : JobState → Database → Database
unfolding replace_job
put_job s d = record d { jobs = replace_job s d.jobs }

-- INSERT INTO jobs, which the caller makes only where no row has the id.
unfoldable pub insert_job : JobState → Database → Database
insert_job j d = record d { jobs = j ∷ d.jobs }

-- INSERT INTO runs: the id is the primary key, and job_id references jobs.
unfoldable pub insert_run : Run → Database → Result Database
unfolding is_some
insert_run r d =
    if is_some (get_run r.id d) || not (is_some (get_job r.job_id d))
    then err constraint_failed
    else ok (record d { runs = r ∷ d.runs })

find_occurrence : String → String → List Occurrence → Option Occurrence
find_occurrence job_id key [] = none
find_occurrence job_id key (o ∷ os) =
    if o.job_id == job_id && o.occurrence_key == key then some o else find_occurrence job_id key os

unfoldable pub get_occurrence : String → String → Database → Option Occurrence
unfolding find_occurrence
get_occurrence job_id key d = find_occurrence job_id key d.occurrences

-- INSERT INTO occurrences: the primary key is (job_id, occurrence_key), and job_id references jobs.
unfoldable pub insert_occurrence : Occurrence → Database → Result Database
unfolding is_some
insert_occurrence o d =
    if is_some (get_occurrence o.job_id o.occurrence_key d) || not (is_some (get_job o.job_id d))
    then err constraint_failed
    else ok (record d { occurrences = o ∷ d.occurrences })

find_value : String → List (String × String) → Option String
find_value key [] = none
find_value key ((k, v) ∷ rest) = if k == key then some v else find_value key rest

-- SELECT value FROM metadata WHERE key=?
unfoldable pub get_metadata : String → Database → Option String
unfolding find_value
get_metadata key d = find_value key d.metadata

-- `UPDATE metadata SET value=value WHERE key=?`, which must affect the one row.
unfoldable pub lock_row : String → String → Database → Result (Unit {0})
unfolding is_some
lock_row key missing d = refuse_if (not (is_some (get_metadata key d))) (message missing)

unfoldable pub lock_authority_writes : Database → Result (Unit {0})
unfolding lock_row
lock_authority_writes = lock_row "authority_lock" "authority serialization lock is missing"

unfoldable pub lock_occurrence_writes : Database → Result (Unit {0})
unfolding lock_row
lock_occurrence_writes = lock_row "admission_lock" "occurrence serialization lock is missing"

-- A row that `Scan` must find.
abbrev pub found {ℓ} : {A : Type ℓ} → Option A → Result A
found none = err no_rows
found (some a) = ok a

-- The code's repeated sequence: an UPDATE by id, `if n != 1` a return with nothing written, then
-- INSERT INTO events, and the commit.
unfoldable pub update_logged :
    String
    → (Run → Bool)
    → (Run → Run)
    → String
    → String
    → ℕ
    → String
    → String
    → Database
    → Bool × Database
update_logged id guard change from_state to_state at code detail d =
    let (hit, d') = update_run id guard change d in
    if hit then (true, insert_event id from_state to_state at code detail d') else (false, d)

-- `RowsAffected` as the caller's answer.
unfoldable pub answer : {A : Type 0} → A → A → Bool × Database → Body A
answer won lost (hit, d) = commit (if hit then won else lost) d

-- `if n != 1 { return err }`, else the commit.
unfoldable pub must_hit : Error → Bool × Database → Body (Unit {0})
must_hit e (hit, d) = if hit then commit tt d else err e
