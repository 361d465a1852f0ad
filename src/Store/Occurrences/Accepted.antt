-- ===== src/Store/Occurrences/Accepted.antt =====
-- What an accepted scheduled occurrence promises: `AcceptScheduledOccurrence` and
-- `acceptOccurrenceTx` of internal/store/store.go.
use herdr_bots.Base.{
  ℕ, suc, ◌+◌, ◌≤◌, pos, ◌≤ℤ◌, String, Bool, true, false, not, ◌&&◌, ◌≡◌, refl, sym, ap, ◌∙◌,
  Option, none, some, List, ◌∷◌, ◌==◌, eq_refl, is_empty, ltb, if◌then◌else◌, Result, ok, err,
  Error, >>=-eq-ok, count_by, arith,
}
use herdr_bots.Store.State
use herdr_bots.Store.Schema.{Run, Occurrence, Database, AcceptRequest, AcceptResult}
use herdr_bots.Store.Table.{in_tx, get_run, get_occurrence, insert_occurrence, insert_event}
use herdr_bots.Store.Queries.{day_count, executing_count, queued_count}
use herdr_bots.Store.Jobs.Authority.{IsRunnable, require_job_authority-IsRunnable}
use herdr_bots.Store.Occurrences.{
  occurrence_row, nullable, finish_occurrence, new_run, create_run, admit_occurrence, admit_or_skip,
  accept_existing, existing_occurrence, accept_occurrence_tx, accept_scheduled_occurrence,
  decide_occurrence, skip_reason, is_guard_tripped, day_end_of,
}
use herdr_bots.Store.Occurrences.Steps.{insert_occurrence-IsSame, insert_run_lem}
use herdr_bots.Store.Occurrences.Promises.{existing_some}
use herdr_bots.Store.Spec.Post.{Post-refuse_if, Post-bind, Post-if, Post-commit}

-- Whether the call created a run for the occurrence.
unfoldable pub is_accepted : Result AcceptResult → Bool
is_accepted (ok r) = r.inserted && r.outcome == "accepted"
is_accepted (err e) = false

-- The run of an accepted occurrence.
abbrev pub run_for : String → AcceptRequest → Run
run_for id req = new_run id req req.trigger (some req.scheduled_for)

pub record IsWritten (id : String) (req : AcceptRequest) (d d' : Database) : Type 0 where
  pub unused : get_run id d ≡ none
  pub runs : d'.runs ≡ run_for id req ∷ d.runs
  pub entry : Occurrence
  pub recorded : get_occurrence req.job_id req.occurrence_key d' ≡ some entry
  pub outcome : entry.outcome ≡ "accepted"
  pub names : entry.run_id ≡ (if is_empty id then none else some id)

recorded_occurrence :
    (o : Occurrence) (d d' : Database)
    → insert_occurrence o d ≡ ok d'
    → get_occurrence o.job_id o.occurrence_key d' ≡ some o
unfolding insert_occurrence get_occurrence
recorded_occurrence o d d' h = ground (arith, eq_refl o.job_id, eq_refl o.occurrence_key)

created_runs :
    (run : Run) (detail : String) (d d' : Database)
    → create_run run detail d ≡ ok d'
    → (get_run run.id d ≡ none) × (d'.runs ≡ run ∷ d.runs)
unfolding create_run insert_event
created_runs run detail d d' h =
    let (x, q, p) = >>=-eq-ok _ _ h in
    let (fresh, runs, _) = insert_run_lem run d x q in
    let e : insert_event run.id "" State.accepted run.accepted_at "" detail x ≡ d' = cc in
    (fresh, ap (λ y. y.runs) (sym e) ∙ runs)

abbrev pub Accepts : (Database → Type 0) → Result AcceptResult → Database → Type 0
Accepts Q a d' = is_accepted a ≡ true → Q d'

module _ (id : String) (req : AcceptRequest) (d : Database) where
  refused : (e : Error) → is_accepted (err e) ≡ true → IsWritten id req d d
  unfolding is_accepted
  refused e h = cc

  admit_occurrence_writes :
      Accepts
        (IsWritten id req d)
        (in_tx d (admit_occurrence id req d)).0
        (in_tx d (admit_occurrence id req d)).1
  unfolding admit_occurrence finish_occurrence occurrence_row nullable new_run
  admit_occurrence_writes =
      let P : Result AcceptResult → Database → Type 0 = Accepts (IsWritten id req d) in
      Post-bind P d refused _ _ λ d1 c. Post-bind P d refused _ _ λ d2 i.
        Post-commit P d refused _ _ λ h.
          let (fresh, runs) = created_runs _ _ d d1 c in
          let (same, _) = insert_occurrence-IsSame _ d1 d2 i in
          record {
            unused = fresh;
            runs = same ∙ runs;
            entry = _;
            recorded = recorded_occurrence _ d1 d2 i;
            outcome = refl;
            names = refl;
          }

-- What the decision found: the guard, the daily limit, and the overlap rule let the run through.
pub record IsWithin (req : AcceptRequest) (d d' : Database) : Type 0 where
  pub guard : is_guard_tripped req d ≡ false
  pub limit : pos (day_count req.job_id req.day_start (day_end_of req) d') ≤ℤ req.max_runs_per_day
  pub forbid :
      (req.overlap == "forbid" && ltb 0 (executing_count req.job_id d + queued_count req.job_id d))
      ≡ false
  pub queue : (req.overlap == "queue_one" && ltb 0 (queued_count req.job_id d)) ≡ false

count_by-cons :
    (p : Run → Bool) (r : Run) (rs : List Run) → count_by p (r ∷ rs) ≤ suc (count_by p rs)
unfolding count_by
count_by-cons p r rs = ground arith

day_count-insert :
    (id job_id : String) (req : AcceptRequest) (from until : ℕ) (d d' : Database)
    → d'.runs ≡ run_for id req ∷ d.runs
    → day_count job_id from until d' ≤ suc (day_count job_id from until d)
unfolding day_count count_by
day_count-insert id job_id req from until d d' h =
    let p : Run → Bool = λ r.
      r.job_id == job_id && not (ltb r.accepted_unix_nano from) && ltb r.accepted_unix_nano until in
    omega (arith, ap (count_by p) h, count_by-cons p (run_for id req) d.runs)

unskipped :
    (req : AcceptRequest) (d d' : Database)
    → skip_reason req d ≡ none
    → is_guard_tripped req d ≡ false
    → day_count req.job_id req.day_start (day_end_of req) d'
      ≤ suc (day_count req.job_id req.day_start (day_end_of req) d)
    → IsWithin req d d'
unfolding skip_reason
unskipped req d d' h g l = record {
  guard = g;
  limit = ground arith;
  forbid = ground arith;
  queue = ground arith;
}

-- Whether a skip is named as an acceptance is.
names_accepted : Option (String × String) → Bool
names_accepted none = false
names_accepted (some (outcome, detail)) = outcome == "accepted"

names_accepted-skip_reason :
    (req : AcceptRequest) (d : Database) → names_accepted (skip_reason req d) ≡ false
unfolding skip_reason names_accepted
names_accepted-skip_reason req d = ground arith

skip_outcome :
    (req : AcceptRequest) (d : Database) (outcome detail : String)
    → skip_reason req d ≡ some (outcome, detail)
    → (outcome == "accepted") ≡ false
unfolding names_accepted
skip_outcome req d outcome detail h = ap names_accepted (sym h) ∙ names_accepted-skip_reason req d

-- An accepted occurrence: the job may run, the key was free, the run and the occurrence are
-- written, and the rules let the run through.
pub record IsAccepted (id : String) (req : AcceptRequest) (d d' : Database) : Type 0 where
  pub runnable : IsRunnable req.job_id req.job_config_revision req.job_revision d
  pub free : get_occurrence req.job_id req.occurrence_key d ≡ none
  pub written : IsWritten id req d d'
  pub within : IsWithin req d d'

module _ (id : String) (req : AcceptRequest) (d : Database) where
  -- What the decision alone gives.
  abbrev Decided : Database → Type 0
  Decided d' = IsWritten id req d d' × IsWithin req d d'

  undecided : (e : Error) → is_accepted (err e) ≡ true → Decided d
  unfolding is_accepted
  undecided e h = cc

  admit_or_skip_decides :
      (s : Option (String × String))
      → skip_reason req d ≡ s
      → is_guard_tripped req d ≡ false
      → Accepts Decided
          (in_tx d (admit_or_skip s id req d)).0
          (in_tx d (admit_or_skip s id req d)).1
  unfolding admit_or_skip finish_occurrence is_accepted
  admit_or_skip_decides none s g = λ h.
      let w = admit_occurrence_writes id req d h in
      (w, unskipped req d _ s g (day_count-insert id _ req _ _ d _ w.runs))
  admit_or_skip_decides (some (outcome, detail)) s g =
      let P : Result AcceptResult → Database → Type 0 = Accepts Decided in
      Post-bind P d undecided _ _ λ d' _.
        Post-commit P d undecided _ _ λ h. ground (arith, skip_outcome req d outcome detail s)

  decide_occurrence_decides :
      Accepts Decided
        (in_tx d (decide_occurrence id req d)).0
        (in_tx d (decide_occurrence id req d)).1
  unfolding decide_occurrence is_accepted
  decide_occurrence_decides =
      let P : Result AcceptResult → Database → Type 0 = Accepts Decided in
      Post-if P d undecided (is_guard_tripped req d) _ _
        (λ _. Post-commit P d undecided _ _ λ h. ground arith)
        λ g. admit_or_skip_decides (skip_reason req d) refl g

  existing_decides :
      (o : Option Occurrence) (x : Option AcceptResult)
      → existing_occurrence o d ≡ ok x
      → Accepts
          (λ d'. (o ≡ none) × Decided d')
          (in_tx d (accept_existing x d id req d)).0
          (in_tx d (accept_existing x d id req d)).1
  unfolding accept_existing existing_occurrence is_accepted in_tx
  existing_decides none none e = λ h. (refl, decide_occurrence_decides h)
  existing_decides none (some r) e = cc
  existing_decides (some o) none e = λ h. let (r, i, _) = existing_some o d none e in cc
  existing_decides (some o) (some r) e = λ h.
      let (s, i, n) = existing_some o d (some r) e in
      let same : r.inserted ≡ false = cc in ground arith

-- An occurrence is accepted only where its job has the caller's revision and hash, is enabled and
-- not paused, and nor is the automation, where its key is new, the unread guard is not tripped and
-- the overlap rule allows it; then its run and its entry are written, and the runs of the job that
-- were accepted in the request's day, the new one among them, are at most the daily limit.
pub accept_scheduled-IsAccepted :
    (id : String) (req : AcceptRequest) (d : Database)
    → is_accepted (accept_scheduled_occurrence id req d).0 ≡ true
    → IsAccepted id req d (accept_scheduled_occurrence id req d).1
unfolding accept_scheduled_occurrence accept_occurrence_tx is_accepted
accept_scheduled-IsAccepted id req d =
    let P : Result AcceptResult → Database → Type 0 = Accepts (IsAccepted id req d) in
    let no : (e : Error) → P (err e) d = λ e h. cc in
    Post-refuse_if P d no _ _ _ λ _. Post-bind P d no _ _ λ _ _. Post-bind P d no _ _ λ _ _.
      Post-bind P d no _ _ λ _ a. Post-bind P d no _ _ λ x e h.
        let (f, v) = existing_decides id req d _ x e h in
        record {
          runnable =
              require_job_authority-IsRunnable req.job_id req.job_config_revision req.job_revision d
                a;
          free = f;
          written = v.0;
          within = v.1;
        }
