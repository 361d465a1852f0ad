-- ===== src/Engine/Steps/Fenced.antt =====
-- Code that writes to the store only by revision-fenced methods.
use mathlib.Core.List.{◌++◌}
use herdr_bots.Base.{
  Bool, true, false, ◌≡◌, refl, ap, ◌∙◌, subst, List, [], ◌∷◌, Option, none, some, Result, ok, err,
  All, if◌then◌else◌,
}
use herdr_bots.Store.Schema.{Database}
use herdr_bots.Store.Trace.{Operation, perform, perform_all}
use herdr_bots.Engine.Steps.{Stateful, call, value, returning, continue, ◌then◌}

-- The methods that test the job's revision within their own transaction, or set it.
abbrev pub IsFenced : Operation → Type 0
IsFenced (Operation.sync_job_authority_call _ _ _ _ _ _) = Unit
IsFenced (Operation.set_cursor_if_authority_call _ _ _ _ _ _) = Unit
IsFenced (Operation.set_completed_if_authority_call _ _ _ _ _) = Unit
IsFenced (Operation.record_occurrence_if_authority_call _ _ _) = Unit
IsFenced (Operation.accept_scheduled_occurrence_call _ _) = Unit
IsFenced _ = ⊥

-- The database that is left is what fenced operations make of the one before.
abbrev pub IsFencedRun : Database → Database → Type 0
IsFencedRun d e = (ops : List Operation) × (All IsFenced ops × (perform_all ops d ≡ e))

abbrev pub OnlyFenced : {A : Type 0} → Stateful A → Type 0
OnlyFenced {A = A} m = (d e : Database) (r : Result A) → m d ≡ some (r, e) → IsFencedRun d e

perform_all-append :
    (ops more : List Operation) (d : Database)
    → perform_all (ops ++ more) d ≡ perform_all more (perform_all ops d)
unfolding perform_all
perform_all-append [] more d = refl
perform_all-append (op ∷ ops) more d = perform_all-append ops more (perform op d)

All-append :
    (ops more : List Operation) → All IsFenced ops → All IsFenced more → All IsFenced (ops ++ more)
All-append [] more h k = k
All-append (op ∷ ops) more (h, hs) k = (h, All-append ops more hs k)

run_trans : (a b c : Database) → IsFencedRun a b → IsFencedRun b c → IsFencedRun a c
run_trans a b c (ops, (h, p)) (more, (k, q)) = (
  ops ++ more,
  (All-append ops more h k, perform_all-append ops more a ∙ (ap (perform_all more) p ∙ q)),
)

pub run_refl : (d e : Database) → d ≡ e → IsFencedRun d e
unfolding perform_all
run_refl d e h = ([], (tt, h))

pub database_left :
    {A : Type 0} {r s : Result A} {d e : Database}
    → ◌≡◌ {A = Option (Result A × Database)} (some (r, d)) (some (s, e))
    → d ≡ e
database_left h = cc

pub value-OnlyFenced : {A : Type 0} (r : Result A) → OnlyFenced (value r)
unfolding value
value-OnlyFenced r d e s h = run_refl d e (database_left h)

pub call-OnlyFenced :
    {A : Type 0} (op : Operation) (method : Database → Result A × Database)
    → IsFenced op
    → ((d : Database) → perform op d ≡ (method d).1)
    → OnlyFenced (call method)
unfolding call perform_all
call-OnlyFenced op method f same d e r h = (op ∷ [], ((f, tt), same d ∙ database_left h))

continue-OnlyFenced :
    {A B : Type 0} (next : A → Stateful B) (d e : Database) (r : Result B)
    → ((a : A) → OnlyFenced (next a))
    → (left : Option (Result A × Database))
    → ((b : Database) (s : Result A) → left ≡ some (s, b) → IsFencedRun d b)
    → continue next left ≡ some (r, e)
    → IsFencedRun d e
unfolding continue
continue-OnlyFenced next d e r g none f h = cc
continue-OnlyFenced next d e r g (some (err x, b)) f h =
    subst (IsFencedRun d) (database_left h) (f b (err x) refl)
continue-OnlyFenced next d e r g (some (ok a, b)) f h =
    run_trans d b e (f b (ok a) refl) (g a b e r h)

pub returned :
    {A : Type 0} (d e : Database) (r : Result A) (answer : Option (Result A))
    → returning d answer ≡ some (r, e)
    → IsFencedRun d e
unfolding returning
returned d e r none h = cc
returned d e r (some s) h = run_refl d e (database_left h)

pub then-OnlyFenced :
    {A B : Type 0} (first : Stateful A) (next : A → Stateful B)
    → OnlyFenced first
    → ((a : A) → OnlyFenced (next a))
    → OnlyFenced (first then next)
unfolding ◌then◌
then-OnlyFenced first next f g d e r h = continue-OnlyFenced next d e r g (first d) (f d) h

pub if-OnlyFenced :
    {A : Type 0} (b : Bool) (m n : Stateful A)
    → OnlyFenced m
    → OnlyFenced n
    → OnlyFenced (if b then m else n)
if-OnlyFenced true m n f g = f
if-OnlyFenced false m n f g = g
