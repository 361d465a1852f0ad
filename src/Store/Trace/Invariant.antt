-- ===== src/Store/Trace/Invariant.antt =====
-- What holds of the store after any sequence of its methods.
use herdr_bots.Base.{◌&&◌, String, true, false, ◌≡◌, refl, some, List, [], ◌∷◌, All, is_empty}
use herdr_bots.Store.State.{is_terminal}
use herdr_bots.Store.Schema.{Run, Database}
use herdr_bots.Store.Table.{get_run}
use herdr_bots.Store.Spec.{IsCoherent, IsSealed, Keeps}
use herdr_bots.Store.Spec.Entries.{IsEntered, mentions, is_absent, Step-IsEntered}
use herdr_bots.Store.Spec.Journal.{IsJournal, replay, state_of, Step-IsJournal}
use herdr_bots.Store.Spec.Evolution.{
  Evolves, Evolves-trans, Keeps-refl, Step-Evolves, IsCoherentAll, Step-IsCoherentAll,
}
use herdr_bots.Store.Receipts.{
  ReceiptColumn, attestation_column, input_column, change_column, receipt_of,
}
use herdr_bots.Store.Trace.{Operation, perform, perform_all, opened, IsDrawn}
use herdr_bots.Store.Trace.Refines.{perform-Step}

-- After any operations, every run that was there is still there, with its identity, job, snapshot,
-- trigger and acceptance instant, with the receipts that were written, and with its whole ending if
-- it was terminal.
pub perform_all-Evolves :
    (ops : List Operation) (d : Database) → All IsDrawn ops → Evolves d (perform_all ops d)
unfolding perform_all
perform_all-Evolves [] d h k r g = (r, g, Keeps-refl r)
perform_all-Evolves (op ∷ ops) d h k r g =
    Evolves-trans d (perform op d) (perform_all ops (perform op d))
      (Step-Evolves d (perform op d) (perform-Step op d h.0))
      (perform_all-Evolves ops (perform op d) h.1) k r g

-- A run that is terminal keeps its state, results, verdict, error, acceptance lane and receipts
-- through any operations that follow, where each claim's token is sixteen bytes.
pub terminal-IsSealed :
    (ops : List Operation) (d : Database) (k : String) (r : Run)
    → All IsDrawn ops
    → get_run k d ≡ some r
    → is_terminal r.state ≡ true
    → (s : Run) × (get_run k (perform_all ops d) ≡ some s) × IsSealed r s
terminal-IsSealed ops d k r h g t =
    let (s, i, u) = perform_all-Evolves ops d h k r g in (s, i, u.sealed t)

kept_column :
    (c : ReceiptColumn) (r s : Run)
    → Keeps r s
    → is_empty (receipt_of c r) ≡ false
    → receipt_of c s ≡ receipt_of c r
unfolding receipt_of
kept_column attestation_column r s k h = k.attested h
kept_column input_column r s k h = k.input_once h
kept_column change_column r s k h = k.change_once h

-- A model attestation, an input receipt or a change receipt that is written on a run stands through
-- any operations that follow, where each claim's token is sixteen bytes.
pub receipts_written_once :
    (ops : List Operation) (d : Database) (k : String) (r : Run) (c : ReceiptColumn)
    → All IsDrawn ops
    → get_run k d ≡ some r
    → is_empty (receipt_of c r) ≡ false
    → (s : Run) × (get_run k (perform_all ops d) ≡ some s) × (receipt_of c s ≡ receipt_of c r)
receipts_written_once ops d k r c h g w =
    let (s, i, u) = perform_all-Evolves ops d h k r g in (s, i, kept_column c r s u w)

IsJournal-perform_all :
    (ops : List Operation) (d : Database)
    → All IsDrawn ops
    → IsJournal d
    → IsJournal (perform_all ops d)
unfolding perform_all
IsJournal-perform_all [] d h j = j
IsJournal-perform_all (op ∷ ops) d h j =
    IsJournal-perform_all ops (perform op d) h.1
      (Step-IsJournal d (perform op d) (perform-Step op d h.0) j)

IsEntered-perform_all :
    (ops : List Operation) (d : Database)
    → All IsDrawn ops
    → IsEntered d
    → IsEntered (perform_all ops d)
unfolding perform_all
IsEntered-perform_all [] d h j = j
IsEntered-perform_all (op ∷ ops) d h j =
    IsEntered-perform_all ops (perform op d) h.1
      (Step-IsEntered d (perform op d) (perform-Step op d h.0) j)

-- After any operations on a fresh store, the events of each identifier replay, each from the state
-- that the one before it ended in, to the state of that run's row, and there are none where there
-- is no row; each claim's token is sixteen bytes.
pub events_replay_to_state :
    (ops : List Operation) (k : String)
    → All IsDrawn ops
    → (replay k (perform_all ops opened).events ≡ some (state_of k (perform_all ops opened)))
      × ((mentions k (perform_all ops opened).events && is_absent k (perform_all ops opened))
          ≡ false)
unfolding replay state_of get_run mentions is_absent
events_replay_to_state ops k h = (
  IsJournal-perform_all ops opened h (λ x. refl) k,
  IsEntered-perform_all ops opened h (λ x. refl) k,
)

IsCoherentAll-perform_all :
    (ops : List Operation) (d : Database)
    → All IsDrawn ops
    → IsCoherentAll d
    → IsCoherentAll (perform_all ops d)
unfolding perform_all
IsCoherentAll-perform_all [] d h c = c
IsCoherentAll-perform_all (op ∷ ops) d h c =
    IsCoherentAll-perform_all ops (perform op d) h.1
      (Step-IsCoherentAll d (perform op d) (perform-Step op d h.0) c)

-- After any operations on a fresh store, where each claim's token is sixteen bytes, a run's effect
-- owner, claim and kind are all empty or all filled.
pub effects-IsCoherent :
    (ops : List Operation) (k : String) (r : Run)
    → All IsDrawn ops
    → get_run k (perform_all ops opened) ≡ some r
    → IsCoherent r
unfolding get_run
effects-IsCoherent ops k r h g = IsCoherentAll-perform_all ops opened h (λ _ _ e. cc) k r g
