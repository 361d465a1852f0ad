-- ===== src/Engine/Requests/Accepted.antt =====
-- What an event that the engine reports as enqueued has been: internal/engine/engine.go, `Enqueue`.
use Prim.Native.String.{◌++◌}
use herdr_bots.Base.{
  ℕ, Bool, true, false, eq_iff, ◌⊎◌, inl, inr, List, [], ◌∷◌, String, not, ◌==◌, ◌≡◌, refl, sym, ap,
  ◌∙◌, Option, none, some, Result, ok, message, refuse_if, refuse_if-ok, arith, if◌then◌else◌,
}
use herdr_bots.Config.{Definition, Job}
use herdr_bots.Config.Ids.{validate_event_id}
use herdr_bots.Config.Validate.{Config}
use herdr_bots.Store.Schema.{Run, Database, AcceptResult}
use herdr_bots.Store.Creation.{enqueue_event}
use herdr_bots.Engine.Steps.{call, value, ◌then◌, value_then-ok, call_then-ok, value-ok}
use herdr_bots.Engine.Evaluate.{Outside}
use herdr_bots.Engine.Requests.{
  select_job, accepted_event, event_answer, event_accept_request, enqueue,
}

-- A job of a list.
abbrev pub IsJobOf : Job → List Job → Type 0
IsJobOf j [] = ⊥
IsJobOf j (k ∷ ks) = (k ≡ j) ⊎ IsJobOf j ks

-- A job of the list that has the identifier.
abbrev pub IsNamed : (id : String) → List Job → Job → Type 0
IsNamed id js j = (j.id ≡ id) × IsJobOf j js

selected :
    (b : Bool) (id : String) (k j : Job) (ks : List Job) (rest : Result Job)
    → (k.id == id) ≡ b
    → (rest ≡ ok j → IsNamed id ks j)
    → (if b then ok k else rest) ≡ ok j
    → IsNamed id (k ∷ ks) j
selected true id k j ks rest p f h =
    let same : k ≡ j = cc in (ap (λ x. x.id) (sym same) ∙ (eq_iff k.id id).0 p, inl same)
selected false id k j ks rest p f h = ((f h).0, inr (f h).1)

select_job-IsNamed :
    (id : String) (js : List Job) (j : Job) → select_job id js ≡ ok j → IsNamed id js j
unfolding select_job
select_job-IsNamed id [] j h = cc
select_job-IsNamed id (k ∷ ks) j h =
    selected (k.id == id) id k j ks (select_job id ks) refl (select_job-IsNamed id ks j) h

event_answer-run :
    (found : Option Run) (result left : AcceptResult)
    → event_answer found result ≡ ok left
    → (result ≡ left) × ((run : Run) × (found ≡ some run))
unfolding event_answer
event_answer-run none result left h = cc
event_answer-run (some run) result left h = (cc, (run, refl))

-- What an enqueued event was: its identifier is valid, its job is an event job of the configuration,
-- and the store's one transaction gave a run and left the database.
module _ (o : Outside) (now : ℕ) (c : Config) (job_id event_id : String) where
  abbrev store_event : Job → Definition × String → Database → Result AcceptResult × Database
  store_event j snapshot =
      enqueue_event (o.new_run_id j.id ("event:" ++ event_id))
        (event_accept_request o now j snapshot event_id)

  pub record IsEnqueued (result : AcceptResult) (d e : Database) : Type 0 where
    valid : validate_event_id event_id ≡ ok tt
    job : Job
    named : IsNamed job_id c.jobs job
    event_job : job.schedule.kind ≡ "event"
    snapshot : Definition × String
    stored : store_event job snapshot d ≡ (ok result, e)
    run : Run
    started : result.run ≡ some run

  stored-IsEnqueued :
      (j : Job) (snapshot : Definition × String) (result : AcceptResult) (d e : Database)
      → validate_event_id event_id ≡ ok tt
      → select_job job_id c.jobs ≡ ok j
      → (j.schedule.kind == "event") ≡ true
      → (call (store_event j snapshot) then λ r. value (accepted_event r)) d ≡ some (ok result, e)
      → IsEnqueued result d e
  unfolding call ◌then◌ accepted_event
  stored-IsEnqueued j snapshot result d e valid named kind h =
      let (r, (b, (stored, after))) =
        call_then-ok (λ r. value (accepted_event r)) result d e (store_event j snapshot d) h in
      let (accepted, left) = value-ok (accepted_event r) result b e after in
      let (same, (run, started)) = event_answer-run r.run r result accepted in
      record {
        valid = valid;
        job = j;
        named = select_job-IsNamed job_id c.jobs j named;
        event_job = (eq_iff j.schedule.kind "event").0 kind;
        snapshot = snapshot;
        stored = cc;
        run = run;
        started = ap (λ a. a.run) (sym same) ∙ started;
      }

  kind_checked :
      (j : Job) (result : AcceptResult) (d e : Database)
      → validate_event_id event_id ≡ ok tt
      → select_job job_id c.jobs ≡ ok j
      → (value (refuse_if (not (j.schedule.kind == "event")) (message "not an event job")) then λ _.
            value (o.snapshot j) then λ snapshot.
            call (store_event j snapshot) then λ r. value (accepted_event r))
          d
        ≡ some (ok result, e)
      → IsEnqueued result d e
  kind_checked j result d e valid named h =
      let (_, (kind, after)) =
        value_then-ok (refuse_if (not (j.schedule.kind == "event")) (message "not an event job")) _
          result d e h in
      let (snapshot, (_, rest)) = value_then-ok (o.snapshot j) _ result d e after in
      stored-IsEnqueued j snapshot result d e valid named (ground (arith, refuse_if-ok _ _ kind))
        rest

  -- An event that is enqueued without an error has a valid identifier and names an event job of the
  -- configuration; the store's one transaction gave the result, which has a run, and left the
  -- database.
  pub enqueue-IsEnqueued :
      (result : AcceptResult) (d e : Database)
      → enqueue o now (ok c) job_id event_id d ≡ some (ok result, e)
      → IsEnqueued result d e
  unfolding enqueue value ◌then◌
  enqueue-IsEnqueued result d e h =
      let (_, (valid, after)) = value_then-ok (validate_event_id event_id) _ result d e h in
      let (j, (named, rest)) = value_then-ok (select_job job_id c.jobs) _ result d e after in
      kind_checked j result d e valid named rest
