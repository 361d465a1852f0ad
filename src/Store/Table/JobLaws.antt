-- ===== src/Store/Table/JobLaws.antt =====
-- What is read after a job's row is replaced.
use herdr_bots.Base.{String, ◌≡◌, sym, ap, ◌∙◌, some, List, [], ◌∷◌, eq_iff, arith}
use herdr_bots.Store.Schema.{JobState, Database}
use herdr_bots.Store.Table.{find_job, replace_job, get_job, put_job}

find_job-id :
    (id : String) (js : List JobState) (j : JobState) → find_job id js ≡ some j → j.id ≡ id
unfolding find_job
find_job-id id [] j h = ground arith
find_job-id id (x ∷ js) j h = ground (arith, eq_iff x.id id, find_job-id id js j)

find_job-replace_job :
    (j s : JobState) (js : List JobState)
    → find_job s.id js ≡ some j
    → find_job s.id (replace_job s js) ≡ some s
unfolding find_job replace_job
find_job-replace_job j s [] h = ground arith
find_job-replace_job j s (x ∷ js) h =
    ground (arith, eq_iff x.id s.id, eq_iff s.id s.id, find_job-replace_job j s js)

pub get_job-put_job :
    (id : String) (j s : JobState) (d : Database)
    → get_job id d ≡ some j
    → s.id ≡ j.id
    → get_job id (put_job s d) ≡ some s
unfolding get_job put_job
get_job-put_job id j s d h i =
    let k : s.id ≡ id = i ∙ find_job-id id d.jobs j h in
    ap (λ x. find_job x (replace_job s d.jobs)) (sym k)
    ∙ find_job-replace_job j s d.jobs (ap (λ x. find_job x d.jobs) k ∙ h)
