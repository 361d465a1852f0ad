-- ===== src/Schedule/Ends.antt =====
-- When `Between` ends: internal/schedule/schedule.go.
use herdr_bots.Base.{
  ℕ, suc, ◌<◌, String, Bool, true, false, ◌&&◌, ◌≡◌, refl, List, [], ◌∷◌, Option, none, some,
  Result, ok, err, message, ltb, leb, arith, if◌then◌else◌, ◌==◌,
}
use herdr_bots.Config.{Job}
use herdr_bots.Schedule.{Occurrence, between, classify_moments, classified, cron_from, at_most_one}
use herdr_bots.Schedule.Loop.{cron_moments-ends, cron_moments-empty}

-- What the cron parser's documentation says of an expression that names some instant: `Next` is
-- later than its argument.
abbrev pub IsAdvancing : Option (ℕ → ℕ) → Type 0
IsAdvancing none = Unit
IsAdvancing (some next) = (t : ℕ) → t < next t

-- A loop has ended.
abbrev HasEnded {ℓ} : {A : Type ℓ} → Option A → Type ℓ
HasEnded {A = A} o = (r : A) × (o ≡ some r)

if-HasEnded {ℓ} :
    {A : Type ℓ} (b : Bool) (x y : Option A)
    → HasEnded x
    → HasEnded y
    → HasEnded (if b then x else y)
if-HasEnded true x y h k = h
if-HasEnded false x y h k = k

module _ (started due_ago : ℕ → String) (wall_clock : ℕ → String) (now : ℕ) where
  abbrev between_now :
      Option (ℕ → ℕ) → Option ℕ → Job → (fuel after : ℕ) → Option (Result (List Occurrence))
  between_now = between started due_ago wall_clock now

  abbrev times : (fuel after : ℕ) → Option (ℕ → ℕ) → Option (Result (List ℕ))
  times = cron_from started due_ago wall_clock now

  classified-HasEnded :
      (j : Job) (ts : Option (Result (List ℕ)))
      → HasEnded ts
      → HasEnded (classified started due_ago wall_clock now j ts)
  unfolding classified
  classified-HasEnded j none (r, h) = cc
  classified-HasEnded j (some (err e)) h = (err e, refl)
  classified-HasEnded j (some (ok ts)) h =
      (ok (classify_moments started due_ago wall_clock now j ts), refl)

  times-HasEnded :
      (cron : Option (ℕ → ℕ)) (after : ℕ)
      → IsAdvancing cron
      → HasEnded (times (suc (suc now)) after cron)
  times-HasEnded none after h = (err (message "parse cron"), refl)
  times-HasEnded (some next) after h =
      cron_moments-ends next wall_clock now h (suc now) (next after) [] (ground arith)

  at_most_one-HasEnded :
      (after : ℕ) (at : Option ℕ) → HasEnded (at_most_one started due_ago wall_clock now after at)
  at_most_one-HasEnded after none = (err (message "schedule.at does not parse"), refl)
  at_most_one-HasEnded after (some at) =
      (ok (if ltb after at && leb at now then at ∷ [] else []), refl)

  -- `Between` ends for every job and window when the schedule's `Next` is later than its argument:
  -- as many passes of the loop as `now` has nanoseconds, and two more, are enough.
  pub between_ends :
      (cron : Option (ℕ → ℕ)) (at : Option ℕ) (j : Job) (after : ℕ)
      → IsAdvancing cron
      → (r : Result (List Occurrence)) × (between_now cron at j (suc (suc now)) after ≡ some r)
  unfolding between
  between_ends cron at j after h =
      if-HasEnded (j.schedule.kind == "cron") _ _
        (classified-HasEnded j (times (suc (suc now)) after cron) (times-HasEnded cron after h))
        (if-HasEnded (j.schedule.kind == "once") _ _
          (classified-HasEnded j (at_most_one started due_ago wall_clock now after at)
            (at_most_one-HasEnded after at))
          (if-HasEnded (j.schedule.kind == "event") _ _ (ok [], refl)
            (err (message "unsupported schedule kind"), refl)))

  -- A cron schedule for which `Next` finds no instant, so that it answers with Go's zero time, makes
  -- `Between` loop forever: no number of passes is enough.
  pub between_hangs :
      (next : ℕ → ℕ) (at : Option ℕ) (j : Job) (fuel after : ℕ)
      → j.schedule.kind ≡ "cron"
      → ((t : ℕ) → next t ≡ 0)
      → between_now (some next) at j fuel after ≡ none
  unfolding between classified
  between_hangs next at j fuel after k stuck =
      rw (k, cron_moments-empty next wall_clock now fuel after stuck)
