-- ===== src/Store/Spec/Journal.antt =====
-- The event log as a journal: replaying a run's events, oldest first, gives the state of its row.
use herdr_bots.Base.{
  String, ◌≡◌, sym, ap, ◌∙◌, Option, none, some, List, [], ◌∷◌, ◌==◌, eq_iff, if◌then◌else◌, arith,
}
use herdr_bots.Store.Schema.{Run, Event, Database}
use herdr_bots.Store.Table.{find_run, get_run, put_run}
use herdr_bots.Store.Table.Laws.{get_run-put_run, get_run-runs}
use herdr_bots.Store.Spec.{Keeps, Logged, silent, logged, Step, stutter, change, create}

-- An event must begin in the state that the earlier events end in.
advance : Option String → Event → Option String
advance none e = none
advance (some s) e = if s == e.from_state then some e.to_state else none

-- The events stand newest first, and a run begins in the state "".
unfoldable pub replay : String → List Event → Option String
unfolding advance
replay k [] = some ""
replay k (e ∷ es) = let rest = replay k es in if e.run_id == k then advance rest e else rest

row_state : Option Run → String
row_state none = ""
row_state (some r) = r.state

-- The state of a run's row, or "" where there is none.
unfoldable pub state_of : String → Database → String
unfolding row_state
state_of k d = row_state (get_run k d)

abbrev pub IsJournal : Database → Type 0
IsJournal d = (k : String) → replay k d.events ≡ some (state_of k d)

module _ (k : String) (d d' : Database) where
  state_of-same : d'.runs ≡ d.runs → state_of k d' ≡ state_of k d
  unfolding state_of
  state_of-same e = ap row_state (get_run-runs k d' d e)

  state_of-change :
      (r s : Run)
      → get_run r.id d ≡ some r
      → s.id ≡ r.id
      → d'.runs ≡ (put_run s d).runs
      → state_of k d' ≡ (if r.id == k then s.state else state_of k d)
  unfolding state_of
  state_of-change r s g i e = ground (
    arith,
    get_run-runs k d' (put_run s d) e,
    get_run-put_run k r s d (ap (λ x. get_run x d) i ∙ g),
    i,
  )

  state_of-create :
      (s : Run)
      → d'.runs ≡ s ∷ d.runs
      → state_of k d' ≡ (if s.id == k then s.state else state_of k d)
  unfolding state_of get_run
  state_of-create s e = ground (arith, ap (find_run k) e)

state_of-found :
    (k : String) (d : Database) (r : Run) → get_run k d ≡ some r → state_of k d ≡ r.state
unfolding state_of
state_of-found k d r g = ap row_state g

state_of-none : (k : String) (d : Database) → get_run k d ≡ none → state_of k d ≡ ""
unfolding state_of
state_of-none k d g = ap row_state g

replay-cons :
    (k : String) (e : Event) (es : List Event) (s : String)
    → replay k es ≡ some s
    → (e.run_id ≡ k → e.from_state ≡ s)
    → replay k (e ∷ es) ≡ (if e.run_id == k then some e.to_state else some s)
unfolding replay
replay-cons k e es s h f = ground (arith, eq_iff e.run_id k, f, eq_iff s e.from_state)

Logged-Journal :
    (d d' : Database) (r s : Run)
    → IsJournal d
    → get_run r.id d ≡ some r
    → Keeps r s
    → d'.runs ≡ (put_run s d).runs
    → Logged r s d.events d'.events
    → IsJournal d'
Logged-Journal d d' r s j g k e (silent same es) x = ground (
  arith,
  ap (replay x) es,
  j x,
  state_of-change x d d' r s g k.id e,
  eq_iff r.id x,
  state_of-found r.id d r g,
)
Logged-Journal d d' r s j g k e (logged v i f t es) x = ground (
  arith,
  ap (replay x) es,
  j x,
  state_of-change x d d' r s g k.id e,
  eq_iff r.id x,
  state_of-found r.id d r g,
  eq_iff v.run_id x,
  replay-cons x v d.events (state_of x d) (j x),
)

-- A step keeps the journal.
pub Step-IsJournal : (d d' : Database) → Step d d' → IsJournal d → IsJournal d'
Step-IsJournal d d' (stutter r e) j x =
    ap (replay x) e ∙ j x ∙ ap some (sym (state_of-same x d d' r))
Step-IsJournal d d' (change r s g k e l) j x = Logged-Journal d d' r s j g k e l x
Step-IsJournal d d' (create s v g n e i f t es) j x = ground (
  arith,
  ap (replay x) es,
  j x,
  state_of-create x d d' s e,
  n.state,
  eq_iff s.id x,
  state_of-none s.id d g,
  eq_iff v.run_id x,
  replay-cons x v d.events (state_of x d) (j x),
)
