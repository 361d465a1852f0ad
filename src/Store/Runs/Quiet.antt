-- ===== src/Store/Runs/Quiet.antt =====
-- Which runs end outside the unread inbox: `Finish` and `FinishEffect` of internal/store/store.go.
use herdr_bots.Base.{
  ℕ, Bool, String, true, false, refl, ◌≡◌, sym, ap, ◌∙◌, some, Result, ok, err, Error,
}
use herdr_bots.Config.{Job}
use herdr_bots.Config.Accept.{Lane, normalize_verdict}
use herdr_bots.Config.Accept.Sound.{IsQuiet}
use herdr_bots.Store.State
use herdr_bots.Store.State.{is_terminal}
use herdr_bots.Store.Schema.{Run, Database}
use herdr_bots.Store.Table.{get_run}
use herdr_bots.Store.Table.Laws.{get_run-logged}
use herdr_bots.Store.Classify.{Ending, terminal_acceptance}
use herdr_bots.Store.Classify.Agrees.{terminal_acceptance-IsQuiet}
use herdr_bots.Store.Runs.{finish}
use herdr_bots.Store.Ends.{finish_effect}
use herdr_bots.Store.Spec.Post.{
  Post-refuse_if, Post-bind, Post-if, Post-must_hit, Post-answer_logged,
}

-- The row's snapshot decodes, the ending is a success with a passed verdict, and the job's mode and
-- verifier let this run go unread.
abbrev pub IsEarned : (id : String) → Ending → Database → Type 0
IsEarned id e d =
    (r : Run) × (j : Job) × (get_run id d ≡ some r)
    × (r.definition.as_job ≡ some j)
    × (e.state ≡ State.succeeded)
    × (normalize_verdict e.verdict ≡ "passed")
    × IsQuiet j r.id

-- A row that is left read was so by the lane.
abbrev LeftRead : {A : Type 0} → A → (id : String) → Ending → Database → A → Database → Type 0
LeftRead done id e d a d' =
    a ≡ done → (s : Run) → get_run id d' ≡ some s → s.unread ≡ false → IsEarned id e d

left_by_lane :
    (id : String) (e : Ending) (d d' : Database) (lane : Lane) (stored s : Run)
    → terminal_acceptance id e.state e.verdict d ≡ ok lane
    → get_run id d' ≡ some stored
    → stored.unread ≡ lane.unread
    → get_run id d' ≡ some s
    → s.unread ≡ false
    → IsEarned id e d
left_by_lane id e d d' lane stored s answered h same k u =
    let equal : stored ≡ s = cc in
    terminal_acceptance-IsQuiet id e.state e.verdict d lane answered
      (sym same ∙ (ap (λ r. r.unread) equal ∙ u))

finish-LeftRead :
    (id from : String) (e : Ending) (now : ℕ) (d : Database)
    → LeftRead (ok tt) id e d (finish id from e now d).0 (finish id from e now d).1
unfolding finish
finish-LeftRead id from e now d =
    let P : Result (Unit {0}) → Database → Type 0 = LeftRead (ok tt) id e d in
    let no : (x : Error) → P (err x) d = λ x h. cc in
    Post-refuse_if P d no _ _ _ λ _. Post-refuse_if P d no _ _ _ λ _. Post-bind P d no _ _ λ _ _.
      Post-bind P d no _ _ λ lane answered. Post-must_hit P d no _ _ _ _ _ _ _ _ _ λ r q g h s k u.
        left_by_lane id e d _ lane _ s answered (get_run-logged id d r _ _ _ _ _ _ _ q refl) refl k
          u

finish_effect-LeftRead :
    (id from owner claim kind : String) (e : Ending) (now : ℕ) (d : Database)
    → is_terminal from ≡ false
    → LeftRead
        (ok true)
        id
        e
        d
        (finish_effect id from owner claim kind e now d).0
        (finish_effect id from owner claim kind e now d).1
unfolding finish_effect
finish_effect-LeftRead id from owner claim kind e now d live =
    let P : Result Bool → Database → Type 0 = LeftRead (ok true) id e d in
    let no : (x : Error) → P (err x) d = λ x h. cc in
    Post-refuse_if P d no _ _ _ λ _. Post-refuse_if P d no _ _ _ λ _. Post-bind P d no _ _ λ _ _.
      Post-if P d no (is_terminal from) _ _ (λ t. cc)
        λ _. Post-bind P d no _ _ λ lane answered.
          Post-answer_logged P d no _ _ _ _ _ _ _ _ _ _ (λ h. cc)
            λ r q g h s k u.
              left_by_lane id e d _ lane _ s answered (get_run-logged id d r _ _ _ _ _ _ _ q refl)
                refl k u

-- A run that `Finish` ends and leaves read has a snapshot that decodes, succeeded with a passed
-- verdict, and is of a job whose mode and verifier let it go unread.
pub finish-IsEarned :
    (id from : String) (e : Ending) (now : ℕ) (d : Database) (s : Run)
    → (finish id from e now d).0 ≡ ok tt
    → get_run id (finish id from e now d).1 ≡ some s
    → s.unread ≡ false
    → IsEarned id e d
finish-IsEarned id from e now d s h k u = finish-LeftRead id from e now d h s k u

-- A run that is not terminal, that `FinishEffect` ends and leaves read, has a snapshot that decodes,
-- succeeded with a passed verdict, and is of a job whose mode and verifier let it go unread.
pub finish_effect-IsEarned :
    (id from owner claim kind : String) (e : Ending) (now : ℕ) (d : Database) (s : Run)
    → is_terminal from ≡ false
    → (finish_effect id from owner claim kind e now d).0 ≡ ok true
    → get_run id (finish_effect id from owner claim kind e now d).1 ≡ some s
    → s.unread ≡ false
    → IsEarned id e d
finish_effect-IsEarned id from owner claim kind e now d s live h k u =
    finish_effect-LeftRead id from owner claim kind e now d live h s k u
