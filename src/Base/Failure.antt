-- ===== src/Base/Failure.antt =====
-- What a Go function with an error result returns: a value, or an error. `errors.Is` tells the
-- sentinel errors of internal/store/store.go apart; all others carry their text alone.
use Prim.Native.String.{String}
use mathlib.Core.Path.{◌≡◌, refl}
use mathlib.Core.Bool.{Bool, true, false}
use mathlib.Core.List.{List, [], ◌∷◌}
use herdr_bots.Base.Lists.{All}

pub data Error : Type 0 where
  state_conflict job_disabled job_paused global_paused job_revision_changed : Error
  job_unread_paused no_rows constraint_failed : Error
  message : String → Error

-- A pair (value, err) of Go, of which a caller reads the value only where the error is nil.
pub data Result {ℓ} (A : Type ℓ) : Type ℓ where
  err : Error → Result A
  ok : A → Result A

-- `if bad { return err }`
unfoldable pub refuse_if : Bool → Error → Result (Unit {0})
refuse_if false e = ok tt
refuse_if true e = err e

infixl 5 ◌>>=◌
-- The first error is returned.
unfoldable pub ◌>>=◌ {ℓ κ} : {X : Type ℓ} {Y : Type κ} → Result X → (X → Result Y) → Result Y
err e >>= next = err e
ok x >>= next = next x

infixl 5 ◌>>◌
abbrev pub ◌>>◌ {κ} : {Y : Type κ} → Result (Unit {0}) → Result Y → Result Y
check >> rest = check >>= λ _. rest

-- A chain that succeeded had a first part that did.
module _ {ℓ κ} {X : Type ℓ} {Y : Type κ} (next : X → Result Y) {y : Y} where
  pub >>=-eq-ok :
      (first : Result X) → (first >>= next) ≡ ok y → (x : X) × (first ≡ ok x) × (next x ≡ ok y)
  unfolding ◌>>=◌
  >>=-eq-ok (err e) h = cc
  >>=-eq-ok (ok x) h = (x, refl, h)

-- A sequence of checks, each `if bad { return err }`: the first error is returned.
unfoldable pub all_checks : List (Result (Unit {0})) → Result (Unit {0})
all_checks [] = ok tt
all_checks (check ∷ checks) = check >> all_checks checks

pub all_checks-All :
    (checks : List (Result (Unit {0})))
    → all_checks checks ≡ ok tt
    → All (λ check. check ≡ ok tt) checks
unfolding all_checks ◌>>=◌
all_checks-All [] h = tt
all_checks-All (err e ∷ checks) h = cc
all_checks-All (ok a ∷ checks) h = (refl, all_checks-All checks h)

pub refuse_if-ok : (b : Bool) (e : Error) → refuse_if b e ≡ ok tt → b ≡ false
unfolding refuse_if
refuse_if-ok true e h = cc
refuse_if-ok false e h = refl

pub then_then-ok {ℓ} :
    {Y : Type ℓ} (first second : Result (Unit {0})) (rest : Result Y) (y : Y)
    → first >> second >> rest ≡ ok y
    → (first ≡ ok tt) × (second ≡ ok tt) × (rest ≡ ok y)
unfolding ◌>>=◌
then_then-ok (err e) second rest y h = cc
then_then-ok (ok a) (err e) rest y h = cc
then_then-ok (ok a) (ok b) rest y h = (refl, refl, h)
