-- ===== src/Store/Receipts/Steps.antt =====
-- The receipts and the evidence of a run make steps of the specification.
use herdr_bots.Base.{ℕ, String, true, false, not, ◌≡◌, refl, ◌&&◌, ◌==◌, is_empty, eq_iff, arith}
use herdr_bots.Store.State.{is_terminal}
use herdr_bots.Store.Schema.{Run, Database}
use herdr_bots.Store.Table.{get_run}
use herdr_bots.Store.Claims.{Workspace}
use herdr_bots.Store.Receipts.{
  ReceiptColumn, attestation_column, input_column, change_column, set_receipt, set_source_context,
  receipt_of, set_column, write_once, set_once, last_event, is_repeat, record_run_event, mark_read,
}
use herdr_bots.Store.Spec.{Keeps, Step}
use herdr_bots.Store.Spec.Rules.{
  Settles, Step-refl, Step-update_run, Step-update_logged, Settles-refuse_if, Settles-bind,
  Settles-if, Settles-commit, Settles-answer, Settles-must_hit, Settles-err,
}
use herdr_bots.Store.Ends.Steps.{read_row}

module _ (id : String) (clock : ℕ) (d : Database) where
  place-Keeps :
      (w : Workspace) (mode marker : String) (r : Run)
      → Keeps r (record r {
        workspace_id = w.workspace_id;
        pane_id = w.pane_id;
        branch = w.branch;
        worktree_path = w.worktree_path;
        execution_mode = mode;
        completion_marker = marker;
        updated_at = clock;
      })
  place-Keeps w mode marker r = ground arith

  pub set_receipt-Step :
      (w : Workspace) (mode marker : String) → Step d (set_receipt id w mode marker clock d).1
  unfolding set_receipt
  set_receipt-Step w mode marker =
      Settles-answer d _ _ _
        (Step-update_run id _ _ d (λ r _ _. place-Keeps w mode marker r) (λ r. refl))

  source-Keeps :
      (base_revision revision input_context : String) (r : Run)
      → Keeps r (record r {
        source_base_revision = base_revision;
        source_revision = revision;
        input_context = input_context;
        updated_at = clock;
      })
  source-Keeps base_revision revision input_context r = ground arith

  pub set_source_context-Step :
      (base_revision revision input_context : String)
      → Step d (set_source_context id base_revision revision input_context clock d).1
  unfolding set_source_context
  set_source_context-Step base_revision revision input_context = Settles-must_hit d _ _ (
      Step-update_run id _ _ d (λ r _ _. source-Keeps base_revision revision input_context r)
        (λ r. refl))

  column-Keeps :
      (c : ReceiptColumn) (v : String) (row r : Run)
      → is_terminal row.state ≡ false
      → (r.state == row.state && is_empty (receipt_of c r)) ≡ true
      → Keeps r (set_column c v clock r)
  unfolding receipt_of set_column
  column-Keeps attestation_column v row r h g = ground (arith, eq_iff r.state row.state)
  column-Keeps input_column v row r h g = ground (arith, eq_iff r.state row.state)
  column-Keeps change_column v row r h g = ground (arith, eq_iff r.state row.state)

  state-set_column :
      (c : ReceiptColumn) (v : String) (r : Run) → (set_column c v clock r).state ≡ r.state
  unfolding set_column
  state-set_column attestation_column v r = refl
  state-set_column input_column v r = refl
  state-set_column change_column v r = refl

  write_once-Settles :
      (c : ReceiptColumn) (receipt : String) (row : Run)
      → Settles d (write_once c id receipt row clock d)
  unfolding write_once
  write_once-Settles c receipt row =
      Settles-if d (is_terminal row.state) _ _ (λ _. Settles-err _ d _)
        λ live.
          Settles-if d (receipt_of c row == receipt) _ _ (λ _. Settles-commit d tt d (Step-refl d))
            λ _.
              Settles-if d (not (is_empty (receipt_of c row))) _ _ (λ _. Settles-err _ d _)
                λ _. Settles-must_hit d _ _ (
                  Step-update_run id _ _ d (λ r _ g. column-Keeps c receipt row r live g)
                    (λ r. state-set_column c receipt r))

  pub set_once-Step :
      (c : ReceiptColumn) (receipt : String) → Step d (set_once c id receipt clock d).1
  unfolding set_once
  set_once-Step c receipt =
      Settles-refuse_if d _ _ _ λ _. Settles-bind d _ _ λ row _. write_once-Settles c receipt row

  event-Keeps :
      (row r : Run)
      → row ≡ r
      → let s = record r { unread = true; updated_at = clock } in
        Keeps r s × (r.state ≡ row.state) × (s.state ≡ row.state)
  event-Keeps row r e = ground arith

  pub record_run_event-Step :
      (code detail : String) → Step d (record_run_event id code detail clock d).1
  unfolding record_run_event
  record_run_event-Step code detail = Settles-refuse_if d _ _ _ λ _. Settles-bind d _ _ λ _ _.
      Settles-bind d _ _ λ row f.
        Settles-if d (is_repeat (last_event id d.events) code detail) _ _
          (λ _. Settles-commit d tt d (Step-refl d))
          λ _. Settles-must_hit d _ _ (
            Step-update_logged id _ _ row.state row.state clock code detail d
              λ r q _. event-Keeps row r (read_row (get_run id d) row r f q))

  read-Keeps : (r : Run) → Keeps r (record r { unread = false })
  read-Keeps r = ground arith

pub mark_read-Step : (id : String) (d : Database) → Step d (mark_read id d).1
unfolding mark_read
mark_read-Step id d =
    Settles-answer d _ _ _ (Step-update_run id _ _ d (λ r _ _. read-Keeps id 0 d r) (λ r. refl))
