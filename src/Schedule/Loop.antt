-- ===== src/Schedule/Loop.antt =====
-- The loop over the instants of a cron schedule: when it ends, and what it takes.
use herdr_bots.Base.{
  eq_refl, subst, ℕ, zero, suc, ◌+◌, ◌≤◌, ◌<◌, String, Bool, true, false, not, ◌≡◌, refl, List, [],
  ◌∷◌, length, Option, none, some, Result, ok, err, message, ltb, leb, arith, if◌then◌else◌,
}
use herdr_bots.Text.{is_any_of}
use herdr_bots.Schedule.{cron_moments, with_moment}

with_moment-ends :
    (fresh : Bool) (t : ℕ) (rest : Option (Result (List ℕ))) (r : Result (List ℕ))
    → rest ≡ some r
    → (s : Result (List ℕ)) × (with_moment fresh t rest ≡ some s)
unfolding with_moment
with_moment-ends false t rest r h = (r, h)
with_moment-ends true t none r h = cc
with_moment-ends true t (some (err e)) r h = (err e, refl)
with_moment-ends true t (some (ok ts)) r h = (ok (t ∷ ts), refl)

step-ends :
    (past many fresh : Bool) (t : ℕ) (rest : Option (Result (List ℕ)))
    → (past ≡ false → (r : Result (List ℕ)) × (rest ≡ some r))
    → (s : Result (List ℕ)) × ((if past
          then some (ok [])
          else if many
          then some (err (message "more than 1000 occurrences are due"))
          else with_moment fresh t rest)
        ≡ some s)
step-ends true many fresh t rest h = (ok [], refl)
step-ends false true fresh t rest h = (err (message "more than 1000 occurrences are due"), refl)
step-ends false false fresh t rest h = let (r, e) = h refl in with_moment-ends fresh t rest r e

module _ (wall_clock : ℕ → String) (now : ℕ) where
  -- What the loop takes: instants of the window, one for each wall clock.
  abbrev pub IsTaken : (after : ℕ) (seen : List String) → List ℕ → Type 0
  IsTaken after seen [] = Unit
  IsTaken after seen (t ∷ ts) =
      (after < t)
      × (t ≤ now)
      × (is_any_of (wall_clock t) seen ≡ false)
      × IsTaken after (wall_clock t ∷ seen) ts

pub list_of {ℓ} : {A : Type ℓ} {ts us : List A} → some (ok ts) ≡ some (ok us) → ts ≡ us
list_of h = cc

module _ (next : ℕ → ℕ) (wall_clock : ℕ → String) (now : ℕ) where
  abbrev moments : (fuel t : ℕ) → List String → Option (Result (List ℕ))
  moments = cron_moments next wall_clock now

  -- Each pass moves the instant on, so a fuel larger than the distance to `now` is enough.
  pub cron_moments-ends :
      (later : (t : ℕ) → t < next t) (fuel t : ℕ) (seen : List String)
      → now < t + fuel
      → (r : Result (List ℕ)) × (moments (suc fuel) t seen ≡ some r)
  unfolding cron_moments
  cron_moments-ends later zero t seen h = (ok [], ground (arith, h))
  cron_moments-ends later (suc fuel) t seen h =
      let fresh = not (is_any_of (wall_clock t) seen) in
      let taken = if fresh then wall_clock t ∷ seen else seen in
      step-ends (ltb now t) (leb 1000 (length taken)) fresh t (moments (suc fuel) (next t) taken)
        (λ _. cron_moments-ends later fuel (next t) taken (ground (arith, h, later t)))

  -- From Go's zero time, with its wall clock taken, a `Next` that finds nothing leads nowhere.
  cron_moments-hangs :
      (fuel : ℕ) (seen : List String)
      → next 0 ≡ 0
      → is_any_of (wall_clock 0) seen ≡ true
      → leb 1000 (length seen) ≡ false
      → moments fuel 0 seen ≡ none
  unfolding cron_moments with_moment
  cron_moments-hangs zero seen stuck k l = refl
  cron_moments-hangs (suc fuel) seen stuck k l =
      rw (k, l, stuck) (ground (arith, cron_moments-hangs fuel seen stuck k l))

  -- From an instant where nothing follows, no fuel is enough.
  pub cron_moments-empty :
      (fuel after : ℕ) → ((t : ℕ) → next t ≡ 0) → moments fuel (next after) [] ≡ none
  unfolding cron_moments with_moment is_any_of
  cron_moments-empty zero after stuck = refl
  cron_moments-empty (suc fuel) after stuck =
      rw
        (
          stuck after,
          stuck 0,
          cron_moments-hangs fuel (wall_clock 0 ∷ []) (stuck 0)
              (ground (arith, eq_refl (wall_clock 0))) refl,
        )
        (ground arith)

  step-IsTaken :
      (after t : ℕ) (seen : List String) (past many fresh : Bool) (rest : Option (Result (List ℕ)))
      (ts : List ℕ)
      → after < t
      → (past ≡ false → t ≤ now)
      → is_any_of (wall_clock t) seen ≡ not fresh
      → ((us : List ℕ)
          → rest ≡ some (ok us)
          → IsTaken wall_clock now after (if fresh then wall_clock t ∷ seen else seen) us)
      → (if past
          then some (ok [])
          else if many
          then some (err (message "more than 1000 occurrences are due"))
          else with_moment fresh t rest)
        ≡ some (ok ts)
      → IsTaken wall_clock now after seen ts
  unfolding with_moment
  step-IsTaken after t seen true many fresh rest ts a b c d e =
      subst (IsTaken wall_clock now after seen) (list_of e) tt
  step-IsTaken after t seen false true fresh rest ts a b c d e = cc
  step-IsTaken after t seen false false false rest ts a b c d e = d ts e
  step-IsTaken after t seen false false true none ts a b c d e = cc
  step-IsTaken after t seen false false true (some (err x)) ts a b c d e = cc
  step-IsTaken after t seen false false true (some (ok us)) ts a b c d e =
      subst (IsTaken wall_clock now after seen) (list_of e) (a, b refl, c, d us refl)

  pub cron_moments-IsTaken :
      (later : (t : ℕ) → t < next t) (after fuel t : ℕ) (seen : List String) (ts : List ℕ)
      → after < t
      → moments fuel t seen ≡ some (ok ts)
      → IsTaken wall_clock now after seen ts
  unfolding cron_moments
  cron_moments-IsTaken later after zero t seen ts a h = cc
  cron_moments-IsTaken later after (suc fuel) t seen ts a h =
      let fresh = not (is_any_of (wall_clock t) seen) in
      let taken = if fresh then wall_clock t ∷ seen else seen in
      step-IsTaken after t seen (ltb now t) (leb 1000 (length taken)) fresh
        (moments fuel (next t) taken) ts a (λ k. ground (arith, k)) (ground arith)
        (λ us k.
          cron_moments-IsTaken later after fuel (next t) taken us (ground (arith, a, later t)) k)
        h
