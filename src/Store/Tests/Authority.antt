-- ===== src/Store/Tests/Authority.antt =====
-- Job authority on concrete rows.
use herdr_bots.Base.{
  arith, ◌≤◌, pos, true, ◌≡◌, refl, some, [], ◌∷◌, ok, ◌>>=◌, refuse_if, count_by,
}
use herdr_bots.Config.{Definition}
use herdr_bots.Store.Schema.{JobState, Database}
use herdr_bots.Store.Table.{
  get_job, put_job, get_metadata, in_tx, lock_authority_writes, lock_occurrence_writes,
  get_occurrence,
}
use herdr_bots.Store.State.{is_terminal}
use herdr_bots.Store.Queries.{count_unread_terminal_runs}
use herdr_bots.Store.Jobs.{
  sync_job_authority, sync_job_authority_tx, set_cursor_if_authority, require_job_authority,
  runnable_refusal, is_global_paused,
}
use herdr_bots.Store.Jobs.Revisions.{IsLater, sync_job_authority-IsLater}
use herdr_bots.Store.Jobs.Cursor.{set_cursor_if_authority_monotone}
use herdr_bots.Store.Occurrences.{accept_scheduled_occurrence}
use herdr_bots.Store.Occurrences.Guard.{IsPaused, tripped-IsPaused}
use herdr_bots.Store.Tests.{snapshot, nightly_row, holding, succeeded_run, request}

abbrev snapshot_b : Definition
snapshot_b = record snapshot { bytes = "nightly-v2"; as_revision = some (pos 2) }

abbrev newer_row : JobState
newer_row = record nightly_row {
  config_revision = pos 2;
  revision = "hash2";
  definition = snapshot_b;
  updated_at = 50;
}

sync_passes :
    (sync_job_authority "nightly" (pos 2) "hash2" snapshot_b true 50 (holding [])).0 ≡ ok newer_row
unfolding sync_job_authority in_tx ◌>>=◌ lock_authority_writes refuse_if get_metadata
    sync_job_authority_tx get_job put_job
sync_passes = refl

sync-IsLater :
    (get_job "nightly"
        (sync_job_authority "nightly" (pos 2) "hash2" snapshot_b true 50 (holding [])).1
      ≡ some newer_row)
    × IsLater nightly_row newer_row
unfolding get_job
sync-IsLater =
    sync_job_authority-IsLater "nightly" (pos 2) "hash2" snapshot_b true 50 (holding []) nightly_row
      newer_row refl sync_passes

cursor_kept :
    (s : JobState) × (get_job "nightly"
        (set_cursor_if_authority "nightly" (pos 1) "hash" 7 true 60 (holding [])).1
      ≡ some s)
    × (nightly_row.cursor ≤ s.cursor)
    × (s.config_revision ≡ nightly_row.config_revision)
    × (s.revision ≡ nightly_row.revision)
    × (s.enabled ≡ nightly_row.enabled)
    × (s.paused ≡ nightly_row.paused)
    × (s.completed ≡ nightly_row.completed)
unfolding get_job
cursor_kept =
    set_cursor_if_authority_monotone "nightly" (pos 1) "hash" 7 true 60 (holding []) nightly_row
      refl

abbrev unread_store : Database
unread_store = holding (record succeeded_run { unread = true } ∷ [])

unread-IsPaused :
    IsPaused request unread_store
      (accept_scheduled_occurrence "r2" request unread_store).0
      (accept_scheduled_occurrence "r2" request unread_store).1
unfolding count_unread_terminal_runs is_terminal count_by get_job require_job_authority
    runnable_refusal is_global_paused get_metadata lock_authority_writes lock_occurrence_writes
    get_occurrence ◌>>=◌ refuse_if
unread-IsPaused =
    tripped-IsPaused "r2" request unread_store nightly_row 1
      (record {
        key = refl;
        scheduled = refl;
        authority_lock = refl;
        occurrence_lock = refl;
        authority = refl;
        unrecorded = refl;
      })
      refl refl (omega arith) (omega arith)
