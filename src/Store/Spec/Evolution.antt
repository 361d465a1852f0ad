-- ===== src/Store/Spec/Evolution.antt =====
-- What every run keeps over any number of steps.
use herdr_bots.Base.{
  String, ◌≡◌, sym, ap, ◌∙◌, inl, inr, none, some, ◌∷◌, ◌==◌, eq_iff, is_empty, if◌then◌else◌,
  Bool-cases, arith,
}
use herdr_bots.Store.State.{is_terminal}
use herdr_bots.Store.Schema.{Run, Database}
use herdr_bots.Store.Table.{find_run, get_run, put_run}
use herdr_bots.Store.Table.Laws.{get_run-put_run, get_run-runs}
use herdr_bots.Store.Spec.{IsCoherent, IsSealed, Keeps, Step, stutter, change, create}

pub Keeps-refl : (r : Run) → Keeps r r
Keeps-refl r = ground arith

IsSealed-trans : (r s t : Run) → IsSealed r s → IsSealed s t → IsSealed r t
IsSealed-trans r s t h k = ground arith

pub Keeps-trans : (r s t : Run) → Keeps r s → Keeps s t → Keeps r t
Keeps-trans r s t h k = record {
  id = k.id ∙ h.id;
  job = k.job ∙ h.job;
  revision = k.revision ∙ h.revision;
  definition = k.definition ∙ h.definition;
  trigger = k.trigger ∙ h.trigger;
  scheduled = k.scheduled ∙ h.scheduled;
  instant = k.instant ∙ h.instant;
  sealed =
      λ e. IsSealed-trans r s t (h.sealed e) (k.sealed (ap is_terminal (h.sealed e).state ∙ e));
  attested = λ e. k.attested (ap is_empty (h.attested e) ∙ e) ∙ h.attested e;
  input_once = λ e. k.input_once (ap is_empty (h.input_once e) ∙ e) ∙ h.input_once e;
  change_once = λ e. k.change_once (ap is_empty (h.change_once e) ∙ e) ∙ h.change_once e;
  coherent = λ c. k.coherent (h.coherent c);
}

-- Every row of the first database is still there, changed within `Keeps`.
abbrev pub Evolves : Database → Database → Type 0
Evolves d d' =
    (k : String) (r : Run) → get_run k d ≡ some r → (s : Run) × (get_run k d' ≡ some s) × Keeps r s

pub Evolves-trans : (d e f : Database) → Evolves d e → Evolves e f → Evolves d f
Evolves-trans d e f p q k r g =
    let (s, h, u) = p k r g in let (t, i, v) = q k s h in (t, i, Keeps-trans r s t u v)

-- The row under any key after one row was replaced.
change-Evolves :
    (d d' : Database) (r s : Run)
    → get_run r.id d ≡ some r
    → Keeps r s
    → d'.runs ≡ (put_run s d).runs
    → Evolves d d'
change-Evolves d d' r s g u e k x h = elim (Bool-cases (s.id == k)) [
  | inl here ↦
      (s, ground (arith, row, here), subst_row (ground (arith, g, h, eq_iff s.id k, u.id, here)) u)
  | inr away ↦ (x, ground (arith, row, away, h), Keeps-refl x)
]
  where
    row : get_run k d' ≡ (if s.id == k then some s else get_run k d)
    row =
        get_run-runs k d' (put_run s d) e ∙ get_run-put_run k r s d (ap (λ y. get_run y d) u.id ∙ g)

    subst_row : r ≡ x → Keeps r s → Keeps x s
    subst_row p v = rw (← p) v

create-Evolves :
    (d d' : Database) (s : Run) → get_run s.id d ≡ none → d'.runs ≡ s ∷ d.runs → Evolves d d'
unfolding get_run
create-Evolves d d' s g e k x h =
    (x, ground (arith, ap (find_run k) e, eq_iff s.id k, g, h), Keeps-refl x)

pub Step-Evolves : (d d' : Database) → Step d d' → Evolves d d'
Step-Evolves d d' (stutter r e) k x h = (x, get_run-runs k d' d r ∙ h, Keeps-refl x)
Step-Evolves d d' (change r s g u e l) k x h = change-Evolves d d' r s g u e k x h
Step-Evolves d d' (create s v g n e i f t es) k x h = create-Evolves d d' s g e k x h

-- The effect columns of every run are coherent.
abbrev pub IsCoherentAll : Database → Type 0
IsCoherentAll d = (k : String) (r : Run) → get_run k d ≡ some r → IsCoherent r

change-IsCoherentAll :
    (d d' : Database) (r s : Run)
    → get_run r.id d ≡ some r
    → Keeps r s
    → d'.runs ≡ (put_run s d).runs
    → IsCoherentAll d
    → IsCoherentAll d'
change-IsCoherentAll d d' r s g u e c k x h = elim (Bool-cases (s.id == k)) [
  | inl here ↦ at_row (ground (arith, row, here, h)) (u.coherent (c r.id r g))
  | inr away ↦ c k x (ground (arith, row, away, h))
]
  where
    row : get_run k d' ≡ (if s.id == k then some s else get_run k d)
    row =
        get_run-runs k d' (put_run s d) e ∙ get_run-put_run k r s d (ap (λ y. get_run y d) u.id ∙ g)

    at_row : s ≡ x → IsCoherent s → IsCoherent x
    at_row p v = rw (← p) v

pub Step-IsCoherentAll : (d d' : Database) → Step d d' → IsCoherentAll d → IsCoherentAll d'
unfolding get_run
Step-IsCoherentAll d d' (stutter r e) c k x h = c k x (sym (get_run-runs k d' d r) ∙ h)
Step-IsCoherentAll d d' (change r s g u e l) c k x h = change-IsCoherentAll d d' r s g u e c k x h
Step-IsCoherentAll d d' (create s v g n e i f t es) c k x h = elim (Bool-cases (s.id == k)) [
  | inl here ↦ at_row (ground (arith, ap (find_run k) e, here, h)) n.coherent
  | inr away ↦ c k x (ground (arith, ap (find_run k) e, away, h))
]
  where
    at_row : s ≡ x → IsCoherent s → IsCoherent x
    at_row p w = rw (← p) w
