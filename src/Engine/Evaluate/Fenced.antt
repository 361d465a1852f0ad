-- ===== src/Engine/Evaluate/Fenced.antt =====
-- What one evaluation of the schedules does to the store: internal/engine/engine.go, `Evaluate`.
use Prim.Native.String.{◌++◌ as str_append}
use herdr_bots.Base.{
  ◌&&◌, ◌||◌, ◌==◌, is_empty, ℕ, String, Bool, true, false, not, ◌≡◌, refl, List, [], ◌∷◌, some,
  Result, ok,
}
use herdr_bots.Config.{Definition, Job}
use herdr_bots.Config.Validate.{Config}
use herdr_bots.Schedule
use herdr_bots.Store.Schema.{Database}
use herdr_bots.Store.Trace.{Operation, perform}
use herdr_bots.Config.Defaults.{is_enabled}
use herdr_bots.Store.Jobs.{
  sync_job_authority, is_global_paused, set_cursor_if_authority, set_completed_if_authority,
}
use herdr_bots.Store.Occurrences.{accept_scheduled_occurrence, record_occurrence_if_authority}
use herdr_bots.Engine.Source.{SourceInput, no_source}
use herdr_bots.Engine.Steps.{value}
use herdr_bots.Engine.Evaluate.{
  Outside, occurrence_request, complete_once, record_and_complete, accept_due, source_of_job,
  evaluate_occurrence, evaluate_occurrences, due_occurrences, move_cursor, evaluate_job,
  evaluate_jobs, evaluate,
}
use herdr_bots.Engine.Steps.Fenced.{
  IsFencedRun, OnlyFenced, run_refl, database_left, value-OnlyFenced, call-OnlyFenced, returned,
  then-OnlyFenced, if-OnlyFenced,
}

module _ (o : Outside) (now : ℕ) where
  complete_once-OnlyFenced : (j : Job) (hash : String) → OnlyFenced (complete_once o now j hash)
  unfolding complete_once perform
  complete_once-OnlyFenced j hash =
      if-OnlyFenced (j.schedule.kind == "once") _ _
        (call-OnlyFenced
          (Operation.set_completed_if_authority_call j.id j.revision hash true o.clock)
          (set_completed_if_authority j.id j.revision hash true o.clock) tt (λ d. refl))
        (value-OnlyFenced (ok tt))

  record_and_complete-OnlyFenced :
      (j : Job) (snapshot : Definition × String) (occ : Schedule.Occurrence)
      (outcome detail : String)
      → OnlyFenced (record_and_complete o now j snapshot occ outcome detail)
  unfolding record_and_complete perform
  record_and_complete-OnlyFenced j snapshot occ outcome detail =
      then-OnlyFenced _ _
        (call-OnlyFenced
          (Operation.record_occurrence_if_authority_call
            (occurrence_request o now j snapshot occ no_source) outcome detail)
          (record_occurrence_if_authority (occurrence_request o now j snapshot occ no_source)
            outcome detail)
          tt (λ d. refl))
        (λ _.
          then-OnlyFenced _ _ (complete_once-OnlyFenced j snapshot.1)
            (λ _. value-OnlyFenced (ok false)))

  accept_due-OnlyFenced :
      (j : Job) (snapshot : Definition × String) (occ : Schedule.Occurrence) (source : SourceInput)
      → OnlyFenced (accept_due o now j snapshot occ source)
  unfolding accept_due perform
  accept_due-OnlyFenced j snapshot occ source =
      then-OnlyFenced _ _
        (call-OnlyFenced
          (Operation.accept_scheduled_occurrence_call (o.new_run_id j.id occ.key)
            (occurrence_request o now j snapshot occ source))
          (accept_scheduled_occurrence (o.new_run_id j.id occ.key)
            (occurrence_request o now j snapshot occ source))
          tt (λ d. refl))
        (λ result.
          if-OnlyFenced (result.outcome == "paused_unread_limit") _ _ (value-OnlyFenced (ok true)) (
            then-OnlyFenced _ _ (complete_once-OnlyFenced j snapshot.1)
              (λ _. value-OnlyFenced (ok false))))

  source_of_job-OnlyFenced : (j : Job) (hash : String) → OnlyFenced (source_of_job o now j hash)
  unfolding source_of_job value
  source_of_job-OnlyFenced j hash d e r h = run_refl d e (database_left h)

  evaluate_occurrence-OnlyFenced :
      (j : Job) (snapshot : Definition × String) (occ : Schedule.Occurrence)
      → OnlyFenced (evaluate_occurrence o now j snapshot occ)
  unfolding evaluate_occurrence
  evaluate_occurrence-OnlyFenced j snapshot occ =
      if-OnlyFenced (occ.outcome == "missed") _ _
        (record_and_complete-OnlyFenced j snapshot occ "missed" occ.detail)
        (then-OnlyFenced _ _ (source_of_job-OnlyFenced j snapshot.1) (λ source.
          if-OnlyFenced
            (j.run_if_changed
              && not (is_empty source.base_revision)
              && source.base_revision == source.revision)
            _ _
            (record_and_complete-OnlyFenced j snapshot occ "skipped_unchanged"
              (str_append "source revision unchanged at " source.revision))
            (accept_due-OnlyFenced j snapshot occ source)))

  evaluate_occurrences-OnlyFenced :
      (j : Job) (snapshot : Definition × String) (occs : List Schedule.Occurrence)
      → OnlyFenced (evaluate_occurrences o now j snapshot occs)
  unfolding evaluate_occurrences
  evaluate_occurrences-OnlyFenced j snapshot [] = value-OnlyFenced (ok false)
  evaluate_occurrences-OnlyFenced j snapshot (occ ∷ occs) =
      then-OnlyFenced _ _ (evaluate_occurrence-OnlyFenced j snapshot occ) (λ paused.
        if-OnlyFenced paused _ _ (value-OnlyFenced (ok true))
          (evaluate_occurrences-OnlyFenced j snapshot occs))

  due_occurrences-OnlyFenced : (j : Job) (cursor : ℕ) → OnlyFenced (due_occurrences o now j cursor)
  unfolding due_occurrences
  due_occurrences-OnlyFenced j cursor d e r h = returned d e r _ h

  move_cursor-OnlyFenced :
      (j : Job) (hash : String) (runnable : Bool) → OnlyFenced (move_cursor o now j hash runnable)
  unfolding move_cursor perform
  move_cursor-OnlyFenced j hash runnable =
      call-OnlyFenced
        (Operation.set_cursor_if_authority_call j.id j.revision hash now runnable o.clock)
        (set_cursor_if_authority j.id j.revision hash now runnable o.clock) tt (λ d. refl)

  evaluate_job-OnlyFenced :
      (global_pause : Bool) (j : Job) → OnlyFenced (evaluate_job o now global_pause j)
  unfolding evaluate_job perform
  evaluate_job-OnlyFenced global_pause j =
      then-OnlyFenced _ _ (value-OnlyFenced (o.snapshot j)) (λ snapshot.
        then-OnlyFenced _ _
          (call-OnlyFenced
            (Operation.sync_job_authority_call j.id j.revision snapshot.1 snapshot.0 (is_enabled j)
              now)
            (sync_job_authority j.id j.revision snapshot.1 snapshot.0 (is_enabled j) now) tt
            (λ d. refl))
          (λ state.
            if-OnlyFenced (not (is_enabled j)) _ _ (move_cursor-OnlyFenced j snapshot.1 false) (
              if-OnlyFenced (state.completed || state.paused || global_pause) _ _
                (value-OnlyFenced (ok tt))
                (then-OnlyFenced _ _ (due_occurrences-OnlyFenced j state.cursor) (λ occs.
                  then-OnlyFenced _ _ (evaluate_occurrences-OnlyFenced j snapshot occs) (λ paused.
                    if-OnlyFenced paused _ _ (value-OnlyFenced (ok tt))
                      (move_cursor-OnlyFenced j snapshot.1 true)))))))

  evaluate_jobs-OnlyFenced :
      (global_pause : Bool) (js : List Job) → OnlyFenced (evaluate_jobs o now global_pause js)
  unfolding evaluate_jobs
  evaluate_jobs-OnlyFenced global_pause [] = value-OnlyFenced (ok tt)
  evaluate_jobs-OnlyFenced global_pause (j ∷ js) =
      then-OnlyFenced _ _ (evaluate_job-OnlyFenced global_pause j)
        (λ _. evaluate_jobs-OnlyFenced global_pause js)

  -- An evaluation of the schedules, up to its call of `Dispatch`, that returns, with an error or
  -- without, has written to the store only by methods that set or test the job's revision in their own
  -- transaction: the database it leaves is what a sequence of these operations makes of the one it
  -- began with.
  pub evaluate-IsFencedRun :
      (config : Result Config) (d e : Database) (r : Result (Unit {0}))
      → evaluate o now config d ≡ some (r, e)
      → IsFencedRun d e
  unfolding evaluate
  evaluate-IsFencedRun config d e r h =
      then-OnlyFenced (value config) (λ c. evaluate_jobs o now (is_global_paused d) c.jobs)
        (value-OnlyFenced config) (λ c. evaluate_jobs-OnlyFenced (is_global_paused d) c.jobs) d e r
        h
