-- ===== src/Store/Classify/Agrees.antt =====
-- The store's classification of a finished run against the job's own: `classifyTerminalRun` of
-- internal/store/store.go and `ClassifyTerminalRun` of internal/config/config.go.
use herdr_bots.Base.{
  String, true, false, ◌≡◌, refl, sym, ap, ◌∙◌, Option-cases, inl, inr, [], ◌∷◌, All, some, eq_iff,
  is_empty, ok, arith,
}
use herdr_bots.Config.{Job, Definition}
use herdr_bots.Config.Accept.{
  Lane, trim_space, normalize_verdict, classify_passed, classify_terminal_run,
}
use herdr_bots.Config.Accept.Sound.{IsQuiet, classify_terminal_run-IsQuiet}
use herdr_bots.Store.State
use herdr_bots.Store.State.{is_terminal}
use herdr_bots.Store.Schema.{Run, Database}
use herdr_bots.Store.Table.{get_run}
use herdr_bots.Store.Classify.{classify_finished, lane_of_row, terminal_acceptance}

classify_terminal_run_passed :
    (j : Job) (run_id : String)
    → classify_terminal_run j run_id State.succeeded "passed" ≡ classify_passed j run_id
unfolding classify_terminal_run normalize_verdict trim_space
classify_terminal_run_passed j run_id = refl

-- A terminal state is one of six texts, none of them blank.
trimmed_names :
    All
      (λ s. is_empty (trim_space s) ≡ false)
      (State.succeeded ∷ State.failed ∷ State.blocked ∷ State.timed_out ∷ State.cancelled
        ∷ State.interrupted ∷ [])
unfolding trim_space
trimmed_names = (refl, (refl, (refl, (refl, (refl, (refl, tt))))))

terminal_succeeded : is_terminal State.succeeded ≡ true
unfolding is_terminal
terminal_succeeded = refl

trimmed_terminal : (state : String) → is_terminal state ≡ true → is_empty (trim_space state) ≡ false
unfolding is_terminal
trimmed_terminal state t = ground (
  arith,
  trimmed_names.0,
  trimmed_names.1.0,
  trimmed_names.1.1.0,
  trimmed_names.1.1.1.0,
  trimmed_names.1.1.1.1.0,
  trimmed_names.1.1.1.1.1.0,
  eq_iff state State.succeeded,
  eq_iff state State.failed,
  eq_iff state State.blocked,
  eq_iff state State.timed_out,
  eq_iff state State.cancelled,
  eq_iff state State.interrupted,
)

-- For a terminal state and a snapshot that decodes, the store gives the lane that the job gives.
pub classify_finished_agrees :
    (run_id : String) (definition : Definition) (j : Job) (state verdict : String)
    → definition.as_job ≡ some j
    → is_terminal state ≡ true
    → classify_finished run_id definition state verdict
      ≡ classify_terminal_run j run_id state verdict
unfolding classify_finished classify_terminal_run is_terminal
classify_finished_agrees run_id definition j state verdict h t = ground (
  arith,
  eq_iff state State.succeeded,
  eq_iff (normalize_verdict verdict) "passed",
  classify_terminal_run_passed j run_id,
  eq_iff state "",
  trimmed_terminal state t,
)

classify_finished-IsQuiet :
    (run_id : String) (definition : Definition) (state verdict : String)
    → (classify_finished run_id definition state verdict).unread ≡ false
    → (j : Job) × (definition.as_job ≡ some j)
      × (state ≡ State.succeeded)
      × (normalize_verdict verdict ≡ "passed")
      × IsQuiet j run_id
unfolding classify_finished
classify_finished-IsQuiet run_id definition state verdict h =
    let s : state ≡ State.succeeded = ground (arith, eq_iff state State.succeeded) in
    let n : normalize_verdict verdict ≡ "passed" =
      ground (arith, eq_iff (normalize_verdict verdict) "passed") in
    elim (Option-cases definition.as_job) [
      | inl e ↦
          ground (arith, eq_iff state State.succeeded, eq_iff (normalize_verdict verdict) "passed")
      | inr (j, e) ↦
          let agree =
            classify_finished_agrees run_id definition j state verdict e
              (ap is_terminal s ∙ terminal_succeeded) in
          let (_, _, q) =
            classify_terminal_run-IsQuiet j run_id state verdict
              (ap (λ l. l.unread) (sym agree) ∙ h) in
          (j, e, s, n, q)
    ]

-- The lane that `terminalAcceptanceTx` gives lets a run stay out of the unread inbox only if the
-- row's snapshot decodes, the state is succeeded, the verdict is passed, and the job's mode and
-- verifier allow it for this run.
pub terminal_acceptance-IsQuiet :
    (id state verdict : String) (d : Database) (lane : Lane)
    → terminal_acceptance id state verdict d ≡ ok lane
    → lane.unread ≡ false
    → (r : Run) × (j : Job) × (get_run id d ≡ some r)
      × (r.definition.as_job ≡ some j)
      × (state ≡ State.succeeded)
      × (normalize_verdict verdict ≡ "passed")
      × IsQuiet j r.id
unfolding terminal_acceptance lane_of_row
terminal_acceptance-IsQuiet id state verdict d lane h u = elim (Option-cases (get_run id d)) [
  | inl e ↦ cc
  | inr (r, e) ↦
      let same : classify_finished r.id r.definition state verdict ≡ lane = cc in
      let (j, a, s, n, q) =
        classify_finished-IsQuiet r.id r.definition state verdict (ap (λ l. l.unread) same ∙ u) in
      (r, j, e, a, s, n, q)
]
