-- ===== src/Store/Spec/Entries.antt =====
-- Whose events are logged: internal/store/store.go.
use herdr_bots.Base.{
  String, Bool, true, false, ◌&&◌, ◌||◌, ◌==◌, ◌≡◌, refl, ap, ◌∙◌, Option, none, some, List, [],
  ◌∷◌, if◌then◌else◌, arith,
}
use herdr_bots.Store.Schema.{Run, Event, Database}
use herdr_bots.Store.Table.{get_run, put_run, find_run}
use herdr_bots.Store.Table.Laws.{get_run-runs, get_run-put_run}
use herdr_bots.Store.Spec.{Step, stutter, change, create, Logged, silent, logged, Keeps}

-- Whether an event is of the run.
unfoldable pub mentions : String → List Event → Bool
mentions k [] = false
mentions k (e ∷ es) = e.run_id == k || mentions k es

row_absent : Option Run → Bool
row_absent none = true
row_absent (some r) = false

-- Whether there is no row of the run.
unfoldable pub is_absent : String → Database → Bool
unfolding row_absent
is_absent k d = row_absent (get_run k d)

-- No event is of a run without a row.
abbrev pub IsEntered : Database → Type 0
IsEntered d = (k : String) → (mentions k d.events && is_absent k d) ≡ false

mentions-cons :
    (k : String) (e : Event) (es : List Event)
    → mentions k (e ∷ es) ≡ (e.run_id == k || mentions k es)
unfolding mentions
mentions-cons k e es = refl

module _ (k : String) (d d' : Database) where
  is_absent-same : d'.runs ≡ d.runs → is_absent k d' ≡ is_absent k d
  unfolding is_absent
  is_absent-same e = ap row_absent (get_run-runs k d' d e)

  is_absent-change :
      (r s : Run)
      → get_run r.id d ≡ some r
      → s.id ≡ r.id
      → d'.runs ≡ (put_run s d).runs
      → is_absent k d' ≡ (if r.id == k then false else is_absent k d)
  unfolding is_absent
  is_absent-change r s g i e = ground (
    arith,
    get_run-runs k d' (put_run s d) e,
    get_run-put_run k r s d (ap (λ x. get_run x d) i ∙ g),
    i,
  )

  is_absent-create :
      (s : Run)
      → d'.runs ≡ s ∷ d.runs
      → is_absent k d' ≡ (if s.id == k then false else is_absent k d)
  unfolding is_absent get_run
  is_absent-create s e = ground (arith, ap (find_run k) e)

Logged-Entered :
    (d d' : Database) (r s : Run)
    → IsEntered d
    → get_run r.id d ≡ some r
    → Keeps r s
    → d'.runs ≡ (put_run s d).runs
    → Logged r s d.events d'.events
    → IsEntered d'
Logged-Entered d d' r s j g k e (silent same es) x =
    ground (arith, ap (mentions x) es, j x, is_absent-change x d d' r s g k.id e)
Logged-Entered d d' r s j g k e (logged v i f t es) x = ground (
  arith,
  ap (mentions x) es,
  mentions-cons x v d.events,
  j x,
  i,
  is_absent-change x d d' r s g k.id e,
)

-- A step keeps the events to runs with a row.
pub Step-IsEntered : (d d' : Database) → Step d d' → IsEntered d → IsEntered d'
Step-IsEntered d d' (stutter r e) j x =
    ground (arith, ap (mentions x) e, j x, is_absent-same x d d' r)
Step-IsEntered d d' (change r s g k e l) j x = Logged-Entered d d' r s j g k e l x
Step-IsEntered d d' (create s v g n e i f t es) j x =
    ground
      (arith, ap (mentions x) es, mentions-cons x v d.events, j x, i, is_absent-create x d d' s e)
