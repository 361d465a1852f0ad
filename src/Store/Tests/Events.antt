-- ===== src/Store/Tests/Events.antt =====
-- A repeated event on a concrete row.
use herdr_bots.Base.{some, [], ◌∷◌, refl, ◌≡◌, ok, false, inl, ◌>>=◌, refuse_if}
use herdr_bots.Store.Schema.{Occurrence, Database, AcceptRequest}
use herdr_bots.Store.Table.{
  get_occurrence, get_run, get_metadata, lock_authority_writes, lock_occurrence_writes, get_job,
  put_job,
}
use herdr_bots.Store.Jobs.{sync_job_authority_tx}
use herdr_bots.Store.Occurrences.{run_of}
use herdr_bots.Store.Creation.{enqueue_event}
use herdr_bots.Store.Creation.Retry.{IsRetry, enqueue_event-answered}
use herdr_bots.Store.Tests.{holding, request, queued_run}

abbrev event_request : AcceptRequest
event_request = record request { occurrence_key = "push-17"; trigger = "event" }

abbrev event_entry : Occurrence
event_entry = record {
  job_id = "nightly";
  occurrence_key = "push-17";
  scheduled_for = 200;
  outcome = "accepted";
  run_id = some "r1";
  detail = "";
  created_at = 205;
  created_unix_nano = 205;
}

abbrev event_store : Database
event_store = record (holding (queued_run ∷ [])) { occurrences = event_entry ∷ [] }

event_answered :
    ((enqueue_event "r2" event_request event_store).0
      ≡ ok (record { inserted = false; outcome = "accepted"; run = some queued_run; detail = "" }))
    × IsRetry event_store
        (enqueue_event "r2" event_request event_store).0
        (enqueue_event "r2" event_request event_store).1
unfolding get_occurrence run_of get_run lock_authority_writes lock_occurrence_writes get_metadata
    sync_job_authority_tx ◌>>=◌ refuse_if get_job put_job
event_answered =
    enqueue_event-answered "r2" event_request event_store event_entry (some queued_run)
      (record { trigger = refl; key = refl; authority_lock = refl; occurrence_lock = refl }) refl
      refl (inl (_, refl))
