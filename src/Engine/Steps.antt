-- ===== src/Engine/Steps.antt =====
-- Code that reads and writes the store: it takes the database and gives a result with the database
-- that is left, or `none` where it never returns.
pub mod Fenced
use herdr_bots.Base.{
  ◌≡◌, refl, ◌⊎◌, inl, inr, Bool, true, false, Option, none, some, Result, ok, err, Error,
  refuse_if, refuse_if-ok, if◌then◌else◌,
}
use herdr_bots.Store.Schema.{Database}

abbrev pub Stateful : Type 0 → Type 0
Stateful A = Database → Option (Result A × Database)

-- One call of a store's method.
unfoldable pub call : {A : Type 0} → (Database → Result A × Database) → Stateful A
call method d = some (method d)

-- A value that does not touch the database.
unfoldable pub value : {A : Type 0} → Result A → Stateful A
value r d = some (r, d)

unfoldable pub continue :
    {A B : Type 0} → (A → Stateful B) → Option (Result A × Database) → Option (Result B × Database)
continue next none = none
continue next (some (err e, d)) = some (err e, d)
continue next (some (ok a, d)) = next a d

-- `if err != nil { return err }` between two parts.
infixl 5 ◌then◌
unfoldable pub ◌then◌ : {A B : Type 0} → Stateful A → (A → Stateful B) → Stateful B
unfolding continue
(first then next) d = continue next (first d)

-- A computation that only reads, and may not return.
unfoldable pub returning :
    {A : Type 0} → Database → Option (Result A) → Option (Result A × Database)
returning d none = none
returning d (some r) = some (r, d)

-- A value and what follows it succeeded.
pub value_then-ok :
    {A B : Type 0} (r : Result A) (next : A → Stateful B) (y : B) (d e : Database)
    → ◌≡◌ {A = Option (Result B × Database)} ((value r then next) d) (some (ok y, e))
    → (x : A) × ((r ≡ ok x) × (next x d ≡ some (ok y, e)))
unfolding value ◌then◌
value_then-ok (err x) next y d e h = cc
value_then-ok (ok x) next y d e h = (x, (refl, h))

-- A method of the store and what follows it succeeded.
pub call_then-ok :
    {A B : Type 0} (next : A → Stateful B) (y : B) (d e : Database) (left : Result A × Database)
    → ◌≡◌ {A = Option (Result B × Database)} (continue next (some left)) (some (ok y, e))
    → (x : A) × ((b : Database) × ((left ≡ (ok x, b)) × (next x b ≡ some (ok y, e))))
unfolding continue
call_then-ok next y d e (err x, b) h = cc
call_then-ok next y d e (ok x, b) h = (x, (b, (refl, h)))

pub value-ok :
    {A : Type 0} (r : Result A) (y : A) (d e : Database)
    → ◌≡◌ {A = Option (Result A × Database)} (value r d) (some (ok y, e))
    → (r ≡ ok y) × (d ≡ e)
unfolding value
value-ok (err x) y d e h = cc
value-ok (ok x) y d e h = (cc, cc)

pub if_ran :
    (b : Bool) (x y : Stateful (Unit {0})) (d e : Database)
    → (if b then x else y) d ≡ some (ok tt, e)
    → ((b ≡ true) × (x d ≡ some (ok tt, e))) ⊎ ((b ≡ false) × (y d ≡ some (ok tt, e)))
if_ran true x y d e h = inl (refl, h)
if_ran false x y d e h = inr (refl, h)

pub call_ran :
    {A : Type 0} (m : Database → Result A × Database) (next : A → Stateful (Unit {0}))
    (d e : Database)
    → (call m then next) d ≡ some (ok tt, e)
    → (x : A) × ((b : Database) × ((m d ≡ (ok x, b)) × (next x b ≡ some (ok tt, e))))
unfolding call ◌then◌
call_ran m next d e h = call_then-ok next tt d e (m d) h

pub checked_ran :
    (b : Bool) (x : Error) (next : Stateful (Unit {0})) (d e : Database)
    → (value (refuse_if b x) then λ _. next) d ≡ some (ok tt, e)
    → (b ≡ false) × (next d ≡ some (ok tt, e))
checked_ran b x next d e h =
    let (_, (passed, left)) = value_then-ok (refuse_if b x) (λ _. next) tt d e h in
    (refuse_if-ok b x passed, left)
