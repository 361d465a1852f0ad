-- ===== src/Store/Spec/Rules.antt =====
-- One rule for each way in which a method writes a run.
use mathlib.Core.Path.{subst}
use herdr_bots.Base.{
  ℕ, String, Bool, true, false, ◌≡◌, refl, sym, ap, ◌∙◌, ◌∷◌, inl, inr, some, Result, ok, err,
  Error, ◌>>=◌, ◌>>◌, refuse_if, if◌then◌else◌,
}
use herdr_bots.Store.Schema.{Run, Database}
use herdr_bots.Store.Table.{
  get_run, put_run, update_run, insert_event, update_logged, Body, in_tx, commit, commit_refusal,
  answer, must_hit,
}
use herdr_bots.Store.Table.Laws.{get_run-id, get_run_self, update_run_cases}
use herdr_bots.Store.Spec.{Keeps, Step, Logged, stutter, change, create, silent, logged}

pub Step-refl : (d : Database) → Step d d
Step-refl d = stutter refl refl

-- The row that a guard selects is changed within `Keeps`.
abbrev pub Selects : String → (Run → Bool) → Database → (Run → Type 0) → Type 0
Selects id guard d P = (r : Run) → get_run id d ≡ some r → guard r ≡ true → P r

-- An UPDATE that leaves the state alone.
pub Step-update_run :
    (id : String) (guard : Run → Bool) (f : Run → Run) (d : Database)
    → Selects id guard d (λ r. Keeps r (f r))
    → ((r : Run) → (f r).state ≡ r.state)
    → Step d (update_run id guard f d).1
unfolding put_run
Step-update_run id guard f d keep same = elim (update_run_cases id guard f d) [
  | inl e ↦ rw e (Step-refl d)
  | inr (r, e, g, u) ↦
      rw u (change r (f r) (get_run_self id d r e) (keep r e g) refl (silent (same r) refl))
]

-- An UPDATE with its event.
pub Step-update_logged :
    (id : String) (guard : Run → Bool) (f : Run → Run) (from to : String) (at : ℕ)
    (code detail : String) (d : Database)
    → Selects id guard d (λ r. Keeps r (f r) × (r.state ≡ from) × ((f r).state ≡ to))
    → Step d (update_logged id guard f from to at code detail d).1
unfolding update_logged insert_event put_run
Step-update_logged id guard f from to at code detail d keep = elim (update_run_cases id guard f d) [
  | inl e ↦ rw e (Step-refl d)
  | inr (r, e, g, u) ↦
      let (k, s, t) = keep r e g in
      let i : r.id ≡ id = get_run-id id d r e in
      rw u (change r (f r) (get_run_self id d r e) k refl (logged _ (sym i) (sym s) (sym t) refl))
]

-- The transaction whose body is `b` makes a step.
abbrev pub Settles : {A : Type 0} → Database → Body A → Type 0
Settles d b = Step d (in_tx d b).1

module _ {A B : Type 0} (d : Database) where
  -- Checks and reads: an error rolls back, and the rest may use the value that was read.
  pub Settles-bind :
      (m : Result A) (f : A → Body B) → ((a : A) → m ≡ ok a → Settles d (f a)) → Settles d (m >>= f)
  unfolding in_tx ◌>>=◌ refuse_if
  Settles-bind (ok a) f k = k a refl
  Settles-bind (err e) f k = Step-refl d

module _ {B : Type 0} (d : Database) where
  pub Settles-refuse_if :
      (b : Bool) (e : Error) (m : Body B)
      → (b ≡ false → Settles d m)
      → Settles d (refuse_if b e >> m)
  unfolding in_tx ◌>>=◌ refuse_if
  Settles-refuse_if true e m k = Step-refl d
  Settles-refuse_if false e m k = k refl

  -- A check or a lock, after which the rest runs on the same database.
  pub Settles-seq :
      (m : Result (Unit {0})) (n : Body B) → (m ≡ ok tt → Settles d n) → Settles d (m >> n)
  unfolding in_tx ◌>>=◌
  Settles-seq (ok _) n k = k refl
  Settles-seq (err e) n k = Step-refl d

  pub Settles-if :
      (b : Bool) (m n : Body B)
      → (b ≡ true → Settles d m)
      → (b ≡ false → Settles d n)
      → Settles d (if b then m else n)
  Settles-if true m n k l = k refl
  Settles-if false m n k l = l refl

module _ {A : Type 0} (d : Database) where
  pub Settles-commit : (a : A) (d' : Database) → Step d d' → Settles d (commit a d')
  unfolding in_tx
  Settles-commit a d' s = s

  pub Settles-answer :
      (won lost : A) (u : Bool × Database) → Step d u.1 → Settles d (answer won lost u)
  unfolding in_tx answer
  Settles-answer won lost (hit, d') s = s

pub Settles-must_hit :
    (d : Database) (e : Error) (u : Bool × Database) → Step d u.1 → Settles d (must_hit e u)
unfolding in_tx must_hit
Settles-must_hit d e (true, d') s = s
Settles-must_hit d e (false, d') s = Step-refl d

pub Settles-err : (A : Type 0) (d : Database) (e : Error) → Settles {A = A} d (err e)
unfolding in_tx
Settles-err A d e = Step-refl d

-- A database with the same runs and events, such as after a write to the jobs.
abbrev pub IsSame : Database → Database → Type 0
IsSame d d' = (d'.runs ≡ d.runs) × (d'.events ≡ d.events)

pub Step-after : (d d' d'' : Database) → IsSame d d' → Step d' d'' → Step d d''
unfolding get_run put_run
Step-after d d' d'' s (stutter r e) = stutter (r ∙ s.0) (e ∙ s.1)
Step-after d d' d'' s (change x y g k r l) =
    change x y (ap (λ rs. get_run x.id (record d { runs = rs })) (sym s.0) ∙ g) k
      (r ∙ ap (λ rs. (put_run y (record d { runs = rs })).runs) s.0)
      (subst (λ es. Logged x y es d''.events) s.1 l)
Step-after d d' d'' s (create x e g n r i f t l) =
    create x e (ap (λ rs. get_run x.id (record d { runs = rs })) (sym s.0) ∙ g) n
      (r ∙ ap (λ rs. x ∷ rs) s.0) i f t (l ∙ ap (λ es. e ∷ es) s.1)

pub Step-same : (d d' : Database) → IsSame d d' → Step d d'
Step-same d d' s = stutter s.0 s.1

-- A step, and then writes to other tables.
pub Step-then : (d d' d'' : Database) → Step d d' → IsSame d' d'' → Step d d''
Step-then d d' d'' (stutter r e) s = stutter (s.0 ∙ r) (s.1 ∙ e)
Step-then d d' d'' (change x y g k r l) s =
    change x y g k (s.0 ∙ r) (subst (λ es. Logged x y d.events es) (sym s.1) l)
Step-then d d' d'' (create x e g n r i f t l) s = create x e g n (s.0 ∙ r) i f t (s.1 ∙ l)

-- A body that runs after writes to other tables; its error rolls these back too.
pub Settles-after :
    {A : Type 0} (start d : Database) (b : Body A) → IsSame start d → Settles d b → Settles start b
unfolding in_tx
Settles-after start d (ok (a, d')) s t = Step-after start d d' s t
Settles-after start d (err e) s t = Step-refl start

pub Settles-commit_refusal :
    (A : Type 0) (d : Database) (e : Error) (d' : Database)
    → Step d d'
    → Settles {A = A} d (commit_refusal e d')
unfolding in_tx
Settles-commit_refusal A d e d' s = s
