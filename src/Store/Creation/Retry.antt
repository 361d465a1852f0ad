-- ===== src/Store/Creation/Retry.antt =====
-- A repeated event: `EnqueueEvent` of internal/store/store.go on a key that is recorded.
use herdr_bots.Base.{
  String, false, ◌≡◌, refl, sym, ap, ◌∙◌, some, Option, Result, ok, err, Error, ◌⊎◌, inl, inr, true,
  ◌==◌, is_empty, job_revision_changed, ◌>>=◌, refuse_if,
}
use herdr_bots.Store.Schema.{Run, Occurrence, Database, AcceptRequest, AcceptResult}
use herdr_bots.Store.Table.{in_tx, get_occurrence, lock_authority_writes, lock_occurrence_writes}
use herdr_bots.Store.Jobs.{sync_job_authority_tx}
use herdr_bots.Store.Jobs.Steps.{sync_job_authority_tx-IsSame}
use herdr_bots.Store.Occurrences.{existing_occurrence, existing_result, run_of}
use herdr_bots.Store.Occurrences.Promises.{is_inserted, existing_some}
use herdr_bots.Store.Creation.{enqueue_event, enqueue_existing, retry_event, is_revision_changed}
use herdr_bots.Store.Spec.Rules.{IsSame}
use herdr_bots.Store.Spec.Post.{Post-refuse_if, Post-bind, Post-if}

-- Nothing is inserted, and no run and no event is written.
abbrev pub IsRetry : Database → Result AcceptResult → Database → Type 0
IsRetry d a d' = (is_inserted a ≡ false) × IsSame d d'

module _ (d : Database) where
  retry_event_rests :
      (r : AcceptResult) (s : Result Database)
      → r.inserted ≡ false
      → ((d' : Database) → s ≡ ok d' → IsSame d d')
      → IsRetry d (in_tx d (retry_event r s d)).0 (in_tx d (retry_event r s d)).1
  unfolding retry_event is_inserted in_tx
  retry_event_rests r (ok d') n k = (n, k d' refl)
  retry_event_rests r (err e) n k =
      Post-if (IsRetry d) d (λ e. (refl, (refl, refl))) (is_revision_changed e) _ _
        (λ _. (n, (refl, refl))) λ _. (refl, (refl, refl))

enqueue_event-IsRetry :
    (id : String) (req : AcceptRequest) (d : Database) (o : Occurrence)
    → get_occurrence req.job_id req.occurrence_key d ≡ some o
    → IsRetry d (enqueue_event id req d).0 (enqueue_event id req d).1
unfolding enqueue_event is_inserted
enqueue_event-IsRetry id req d o h =
    let no : (e : Error) → IsRetry d (err e) d = λ e. (refl, (refl, refl)) in
    Post-refuse_if (IsRetry d) d no _ _ _ λ _. Post-bind (IsRetry d) d no _ _ λ _ _.
      Post-bind (IsRetry d) d no _ _ λ _ _. Post-bind (IsRetry d) d no _ _ λ x e.
        let (r, i, n) = existing_some o d x (ap (λ g. existing_occurrence g d) (sym h) ∙ e) in
        rw (i, enqueue_existing)
          (retry_event_rests d r _ n λ d' s. sync_job_authority_tx-IsSame _ _ _ _ _ _ d d' s)

-- A request of an event, and the two lock rows that are there.
pub record IsEventRequest (req : AcceptRequest) (d : Database) : Type 0 where
  pub trigger : (req.trigger == "event") ≡ true
  pub key : is_empty req.occurrence_key ≡ false
  pub authority_lock : lock_authority_writes d ≡ ok tt
  pub occurrence_lock : lock_occurrence_writes d ≡ ok tt

revision_changed :
    (e : Error)
    → ◌≡◌ {A = Result Database} (err e) (err job_revision_changed)
    → is_revision_changed e ≡ true
unfolding is_revision_changed
revision_changed e h = let same : e ≡ job_revision_changed = cc in ap is_revision_changed same

retried :
    (d : Database) (r : AcceptResult) (s : Result Database)
    → ((d' : Database) × (s ≡ ok d')) ⊎ (s ≡ err job_revision_changed)
    → (in_tx d (retry_event r s d)).0 ≡ ok r
unfolding retry_event in_tx
retried d r (ok d') h = refl
retried d r (err e) (inl (d', h)) = cc
retried d r (err e) (inr h) = rw (revision_changed e h) refl

-- An event whose key is recorded already is answered from the record, with its outcome, its detail
-- and its run, if the run can be read and the synchronization of the job's authority succeeds or
-- finds a changed revision; it is not inserted again, and no run and no event is written.
pub enqueue_event-answered :
    (id : String) (req : AcceptRequest) (d : Database) (o : Occurrence) (run : Option Run)
    → IsEventRequest req d
    → get_occurrence req.job_id req.occurrence_key d ≡ some o
    → run_of o.run_id d ≡ ok run
    → (let synced =
          sync_job_authority_tx req.job_id req.job_config_revision req.job_revision req.definition
            req.job_enabled req.now d in
        ((d' : Database) × (synced ≡ ok d')) ⊎ (synced ≡ err job_revision_changed))
    → ((enqueue_event id req d).0
        ≡ ok (record { inserted = false; outcome = o.outcome; run = run; detail = o.detail }))
      × IsRetry d (enqueue_event id req d).0 (enqueue_event id req d).1
unfolding enqueue_event ◌>>=◌ refuse_if existing_occurrence existing_result enqueue_existing
enqueue_event-answered id req d o run q h read synced = (
  rw q.trigger (
      rw q.key (
        rw q.authority_lock (
          rw q.occurrence_lock (
            rw h (
              rw read (
                retried d
                  (record { inserted = false; outcome = o.outcome; run = run; detail = o.detail }) _
                  synced)))))),
  enqueue_event-IsRetry id req d o h,
)
