-- ===== src/Store/Receipts.antt =====
-- Receipts and evidence on a run: internal/store/store.go, `SetReceipt` to `setImmutableRunReceipt`,
-- `RecordRunEvent` and `MarkRead`. The clock of `time.Now()` is an argument.
pub mod Steps
use herdr_bots.Base.{
  ℕ, String, Bool, true, false, not, ◌&&◌, ◌||◌, Option, none, some, List, [], ◌∷◌, ◌==◌, is_empty,
  if◌then◌else◌, Result, ok, err, Error, state_conflict, no_rows, message, ◌>>=◌, ◌>>◌, refuse_if,
}
use herdr_bots.Store.State
use herdr_bots.Store.State.{is_terminal}
use herdr_bots.Store.Schema.{Run, Event, Database}
use herdr_bots.Store.Table.{
  Body, in_tx, commit, found, get_run, answer, must_hit, update_run, update_logged,
  lock_occurrence_writes,
}
use herdr_bots.Store.Claims.{Workspace}

unfoldable pub set_receipt :
    String → Workspace → String → String → ℕ → Database → Result (Unit {0}) × Database
set_receipt id w mode marker clock d = in_tx d (
    answer tt tt (
      update_run id (λ _. true)
        (λ r. record r {
          workspace_id = w.workspace_id;
          pane_id = w.pane_id;
          branch = w.branch;
          worktree_path = w.worktree_path;
          execution_mode = mode;
          completion_marker = marker;
          updated_at = clock;
        })
        d))

unfoldable pub set_source_context :
    String → String → String → String → ℕ → Database → Result (Unit {0}) × Database
set_source_context id base_revision revision input_context clock d = in_tx d (
    must_hit (message "run could not persist source context before start") (
      update_run id (λ r. r.state == State.accepted || r.state == State.provisioning)
        (λ r. record r {
          source_base_revision = base_revision;
          source_revision = revision;
          input_context = input_context;
          updated_at = clock;
        })
        d))

-- The columns that are written once: the model attestation, and `runReceiptKind`'s two.
pub data ReceiptColumn : Type 0 where
  attestation_column input_column change_column : ReceiptColumn

unfoldable pub receipt_of : ReceiptColumn → Run → String
receipt_of attestation_column r = r.model_attestation
receipt_of input_column r = r.input_receipt
receipt_of change_column r = r.change_receipt

unfoldable pub set_column : ReceiptColumn → String → ℕ → Run → Run
set_column attestation_column v now r = record r { model_attestation = v; updated_at = now }
set_column input_column v now r = record r { input_receipt = v; updated_at = now }
set_column change_column v now r = record r { change_receipt = v; updated_at = now }

write_once : ReceiptColumn → String → String → Run → ℕ → Database → Body (Unit {0})
write_once c id receipt row clock d =
    if is_terminal row.state
    then err state_conflict
    else if receipt_of c row == receipt
    then commit tt d
    else if not (is_empty (receipt_of c row))
    then err state_conflict
    else must_hit state_conflict (
        update_run id (λ r. r.state == row.state && is_empty (receipt_of c r))
          (set_column c receipt clock) d)

row_or_conflict : Option Run → Result Run
row_or_conflict none = err state_conflict
row_or_conflict (some r) = ok r

-- `SetModelAttestation`, `SetInputReceipt` and `SetChangeReceipt` run the same transaction.
unfoldable pub set_once :
    ReceiptColumn → String → String → ℕ → Database → Result (Unit {0}) × Database
unfolding write_once row_or_conflict receipt_of set_column
set_once c id receipt clock d = in_tx d do
  refuse_if (is_empty receipt) (message "the receipt is required")
  row ← row_or_conflict (get_run id d)
  write_once c id receipt row clock d

unfoldable pub set_model_attestation : String → String → ℕ → Database → Result (Unit {0}) × Database
set_model_attestation = set_once attestation_column

unfoldable pub set_input_receipt : String → String → ℕ → Database → Result (Unit {0}) × Database
set_input_receipt = set_once input_column

unfoldable pub set_change_receipt : String → String → ℕ → Database → Result (Unit {0}) × Database
set_change_receipt = set_once change_column

-- SELECT … FROM events WHERE run_id=? ORDER BY id DESC LIMIT 1
last_event : String → List Event → Option Event
last_event id [] = none
last_event id (e ∷ es) = if e.run_id == id then some e else last_event id es

is_repeat : Option Event → String → String → Bool
is_repeat none code detail = false
is_repeat (some e) code detail = e.code == code && e.detail == detail

-- The event is inserted, and the same row is reopened in the inbox; a repeat of the last event's
-- code and detail writes nothing.
unfoldable pub record_run_event :
    String → String → String → ℕ → Database → Result (Unit {0}) × Database
unfolding last_event is_repeat
record_run_event id code detail now d = in_tx d do
  refuse_if (is_empty code) (message "event code is required")
  lock_occurrence_writes d
  row ← found (get_run id d)
  if is_repeat (last_event id d.events) code detail
      then commit tt d
      else must_hit no_rows (
          update_logged id (λ _. true) (λ r. record r { unread = true; updated_at = now }) row.state
            row.state now code detail d)

unfoldable pub mark_read : String → Database → Result (Unit {0}) × Database
mark_read id d =
    in_tx d (answer tt tt (update_run id (λ _. true) (λ r. record r { unread = false }) d))
