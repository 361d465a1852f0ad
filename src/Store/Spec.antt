-- ===== src/Store/Spec.antt =====
-- What the store promises of its runs and events, whatever method is called: a method does nothing
-- to them, changes one row within `Keeps`, or creates one accepted row. The methods of the sibling
-- modules are shown to make such steps, and the invariants are proved over steps.
pub mod Rules
pub mod Post
pub mod Journal
pub mod Entries
pub mod Evolution
use herdr_bots.Base.{true, false, ◌≡◌, none, some, List, ◌∷◌, is_empty}
use herdr_bots.Store.State
use herdr_bots.Store.State.{is_terminal}
use herdr_bots.Store.Schema.{Run, Event, Database}
use herdr_bots.Store.Table.{get_run, put_run}

-- The effect columns are filled or empty together.
pub record IsCoherent (r : Run) : Type 0 where
  pub claim_owner : is_empty r.effect_claim ≡ is_empty r.effect_owner
  pub kind_owner : is_empty r.effect_kind ≡ is_empty r.effect_owner

-- What a terminal run never loses.
pub record IsSealed (r s : Run) : Type 0 where
  pub state : s.state ≡ r.state
  pub infrastructure : s.infrastructure_result ≡ r.infrastructure_result
  pub agent : s.agent_result ≡ r.agent_result
  pub verdict : s.task_verdict ≡ r.task_verdict
  pub code : s.error_code ≡ r.error_code
  pub detail : s.error_detail ≡ r.error_detail
  pub lane : s.acceptance_lane ≡ r.acceptance_lane
  pub reason : s.acceptance_reason ≡ r.acceptance_reason
  pub attestation : s.model_attestation ≡ r.model_attestation
  pub input : s.input_receipt ≡ r.input_receipt
  pub change : s.change_receipt ≡ r.change_receipt

-- How one row may change: the identity stands, a terminal row is sealed, a receipt is written once,
-- and the effect columns stay coherent.
pub record Keeps (r s : Run) : Type 0 where
  pub id : s.id ≡ r.id
  pub job : s.job_id ≡ r.job_id
  pub revision : s.job_revision ≡ r.job_revision
  pub definition : s.definition ≡ r.definition
  pub trigger : s.trigger ≡ r.trigger
  pub scheduled : s.scheduled_for ≡ r.scheduled_for
  pub instant : s.accepted_unix_nano ≡ r.accepted_unix_nano
  pub sealed : is_terminal r.state ≡ true → IsSealed r s
  pub attested : is_empty r.model_attestation ≡ false → s.model_attestation ≡ r.model_attestation
  pub input_once : is_empty r.input_receipt ≡ false → s.input_receipt ≡ r.input_receipt
  pub change_once : is_empty r.change_receipt ≡ false → s.change_receipt ≡ r.change_receipt
  pub coherent : IsCoherent r → IsCoherent s

-- A row's change and the events: no event where the state stands, or one event that records it.
pub data Logged (r s : Run) (before after : List Event) : Type 0 where
  silent : s.state ≡ r.state → after ≡ before → Logged r s before after
  logged :
      (e : Event)
      → e.run_id ≡ r.id
      → e.from_state ≡ r.state
      → e.to_state ≡ s.state
      → after ≡ e ∷ before
      → Logged r s before after

-- A new row.
pub record IsNew (s : Run) : Type 0 where
  pub state : s.state ≡ State.accepted
  pub coherent : IsCoherent s
  pub unattested : is_empty s.model_attestation ≡ true
  pub unowned : is_empty s.provisioning_owner ≡ true

pub data Step (d d' : Database) : Type 0 where
  stutter : d'.runs ≡ d.runs → d'.events ≡ d.events → Step d d'
  change :
      (r s : Run)
      → get_run r.id d ≡ some r
      → Keeps r s
      → d'.runs ≡ (put_run s d).runs
      → Logged r s d.events d'.events
      → Step d d'
  create :
      (s : Run) (e : Event)
      → get_run s.id d ≡ none
      → IsNew s
      → d'.runs ≡ s ∷ d.runs
      → e.run_id ≡ s.id
      → e.from_state ≡ ""
      → e.to_state ≡ State.accepted
      → d'.events ≡ e ∷ d.events
      → Step d d'
