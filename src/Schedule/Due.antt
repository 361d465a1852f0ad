-- ===== src/Schedule/Due.antt =====
-- What `Between` reports: internal/schedule/schedule.go.
use Prim.Native.String.{◌++◌}
use Prim.Native.Nat.{◌-◌}
use text.Mathlib.TextLemmas.{append_cancel_left}
use herdr_bots.Base.{
  eq_refl, ℕ, ◌≤◌, ◌<◌, String, Bool, true, false, ◌&&◌, ◌||◌, ◌≡◌, refl, subst, ◌⊎◌, inl, inr,
  List, [], ◌∷◌, Option, none, some, Result, ok, err, All, Bool-cases, ltb, leb, arith,
  if◌then◌else◌, ◌==◌, eq_iff,
}
use herdr_bots.Text.{is_any_of}
use herdr_bots.Config.{Job}
use herdr_bots.Config.Defaults.{catch_up_grace}
use herdr_bots.Schedule.{
  Occurrence, between, classify_moments, classify_moment, normal_poll_tolerance, within, classified,
  occurrence_key, cron_from, at_most_one,
}
use herdr_bots.Schedule.Loop.{cron_moments-IsTaken, IsTaken, list_of}
use herdr_bots.Schedule.Ends.{IsAdvancing}

module _ (started due_ago : ℕ → String) (wall_clock : ℕ → String) (now : ℕ) where
  abbrev between_now :
      Option (ℕ → ℕ) → Option ℕ → Job → (fuel after : ℕ) → Option (Result (List Occurrence))
  between_now = between started due_ago wall_clock now

  abbrev times : (fuel after : ℕ) → Option (ℕ → ℕ) → Option (Result (List ℕ))
  times = cron_from started due_ago wall_clock now

  abbrev IsTimely : Job → ℕ → Type 0
  IsTimely j t =
      (leb (now - t) normal_poll_tolerance
        || within (now - t) (catch_up_grace j.schedule.catch_up_grace_minutes))
      ≡ true

  -- An occurrence of the window, under the key of its wall clock, with the outcome that its lateness
  -- has: due within the tolerance of the poll or the grace, else missed.
  pub record IsReported (j : Job) (after : ℕ) (o : Occurrence) : Type 0 where
    pub later : after < o.scheduled_for
    pub past : o.scheduled_for ≤ now
    pub keyed :
        o.key ≡ occurrence_key started due_ago wall_clock now j.schedule.kind o.scheduled_for
    pub judged :
        ((o.outcome ≡ "due") × IsTimely j o.scheduled_for)
        ⊎ ((o.outcome ≡ "missed") × ¬ IsTimely j o.scheduled_for)

  classify_moment-IsReported :
      (j : Job) (after t : ℕ)
      → after < t
      → t ≤ now
      → IsReported j after (classify_moment started due_ago wall_clock now j t)
  unfolding classify_moment
  classify_moment-IsReported j after t a b = record {
    later = ground (arith, a);
    past = ground (arith, b);
    keyed = ground arith;
    judged = ground arith;
  }

  abbrev key_of : Job → ℕ → String
  key_of j t = occurrence_key started due_ago wall_clock now j.schedule.kind t

  key_of-differs :
      (j : Job) (t u : ℕ)
      → (wall_clock u == wall_clock t) ≡ false
      → (key_of j u == key_of j t) ≡ false
  key_of-differs j t u h = elim (Bool-cases (key_of j u == key_of j t)) [
    | inr k ↦ k
    | inl k ↦ ground (
      arith,
      h,
      eq_iff (wall_clock u) (wall_clock t),
      append_cancel_left ":" (wall_clock u) (wall_clock t) (
          append_cancel_left j.schedule.kind (":" ++ wall_clock u) (":" ++ wall_clock t)
            ((eq_iff (key_of j u) (key_of j t)).0 k)),
    )
  ]

  -- No key stands twice.
  abbrev pub IsKeyedOnce : List Occurrence → Type 0
  IsKeyedOnce [] = Unit
  IsKeyedOnce (o ∷ os) = All (λ other. (other.key == o.key) ≡ false) os × IsKeyedOnce os

  abbrev reports : Job → List ℕ → List Occurrence
  reports = classify_moments started due_ago wall_clock now

  classify_moment-key :
      (j : Job) (t : ℕ) → (classify_moment started due_ago wall_clock now j t).key ≡ key_of j t
  unfolding classify_moment
  classify_moment-key j t = ground arith

  seen_before-differs :
      (t u : ℕ) (seen : List String)
      → is_any_of (wall_clock t) seen ≡ true
      → is_any_of (wall_clock u) seen ≡ false
      → (wall_clock u == wall_clock t) ≡ false
  seen_before-differs t u seen h k = ground (arith, h, k, eq_iff (wall_clock u) (wall_clock t))

  taken-differs :
      (j : Job) (after t : ℕ) (seen : List String) (ts : List ℕ)
      → is_any_of (wall_clock t) seen ≡ true
      → IsTaken wall_clock now after seen ts
      → All (λ o. (o.key == key_of j t) ≡ false) (reports j ts)
  unfolding classify_moments is_any_of
  taken-differs j after t seen [] k h = tt
  taken-differs j after t seen (u ∷ us) k (a, b, c, d) = (
    rw (classify_moment-key j u) (key_of-differs j t u (seen_before-differs t u seen k c)),
    taken-differs j after t (wall_clock u ∷ seen) us (ground (arith, k)) d,
  )

  abbrev IsSound : Job → (after : ℕ) → List Occurrence → Type 0
  IsSound j after os = All (IsReported j after) os × IsKeyedOnce os

  reports-IsSound :
      (j : Job) (after : ℕ) (seen : List String) (ts : List ℕ)
      → IsTaken wall_clock now after seen ts
      → IsSound j after (reports j ts)
  unfolding classify_moments is_any_of
  reports-IsSound j after seen [] h = (tt, tt)
  reports-IsSound j after seen (t ∷ ts) (a, b, c, d) =
      let (all, once) = reports-IsSound j after (wall_clock t ∷ seen) ts d in
      (
        (classify_moment-IsReported j after t a b, all),
        (
          rw (classify_moment-key j t) (
              taken-differs j after t (wall_clock t ∷ seen) ts
                (ground (arith, eq_refl (wall_clock t))) d),
          once,
        ),
      )

  classified-IsSound :
      (j : Job) (after : ℕ) (ts : Option (Result (List ℕ))) (os : List Occurrence)
      → ((us : List ℕ) → ts ≡ some (ok us) → IsTaken wall_clock now after [] us)
      → classified started due_ago wall_clock now j ts ≡ some (ok os)
      → IsSound j after os
  unfolding classified
  classified-IsSound j after none os h e = cc
  classified-IsSound j after (some (err x)) os h e = cc
  classified-IsSound j after (some (ok us)) os h e =
      subst (IsSound j after) (list_of e) (reports-IsSound j after [] us (h us refl))

  times-IsTaken :
      (cron : Option (ℕ → ℕ)) (fuel after : ℕ) (us : List ℕ)
      → IsAdvancing cron
      → times fuel after cron ≡ some (ok us)
      → IsTaken wall_clock now after [] us
  times-IsTaken none fuel after us h e = cc
  times-IsTaken (some next) fuel after us h e =
      cron_moments-IsTaken next wall_clock now h after fuel (next after) [] us (h after) e

  once-IsTaken :
      (b : Bool) (after at : ℕ) (us : List ℕ)
      → (b ≡ true → (after < at) × (at ≤ now))
      → some (ok (if b then at ∷ [] else [])) ≡ some (ok us)
      → IsTaken wall_clock now after [] us
  unfolding is_any_of
  once-IsTaken true after at us h e =
      subst (IsTaken wall_clock now after []) (list_of e) ((h refl).0, (h refl).1, refl, tt)
  once-IsTaken false after at us h e = subst (IsTaken wall_clock now after []) (list_of e) tt

  at_most_one-IsTaken :
      (after : ℕ) (at : Option ℕ) (us : List ℕ)
      → at_most_one started due_ago wall_clock now after at ≡ some (ok us)
      → IsTaken wall_clock now after [] us
  at_most_one-IsTaken after none us e = cc
  at_most_one-IsTaken after (some at) us e =
      once-IsTaken (ltb after at && leb at now) after at us
        (λ k. (ground (arith, k), ground (arith, k))) e

  if-some {ℓ} :
      {A : Type ℓ} (P : A → Type 0) (b : Bool) (x y : Option (Result A)) (a : A)
      → (x ≡ some (ok a) → P a)
      → (y ≡ some (ok a) → P a)
      → (if b then x else y) ≡ some (ok a)
      → P a
  if-some P true x y a h k e = h e
  if-some P false x y a h k e = k e

  -- If the cron parser's `Next` is later than its argument, every occurrence that `Between` reports lies
  -- after `after` and not after `now` and has the key of its wall clock; it is due if it is at most a
  -- minute late or within the job's grace, an int64 of nanoseconds, else missed; and no two have one
  -- key.
  pub between-IsSound :
      (cron : Option (ℕ → ℕ)) (at : Option ℕ) (j : Job) (fuel after : ℕ) (os : List Occurrence)
      → IsAdvancing cron
      → between_now cron at j fuel after ≡ some (ok os)
      → IsSound j after os
  unfolding between
  between-IsSound cron at j fuel after os h e =
      if-some (IsSound j after) (j.schedule.kind == "cron") _ _ os
        (classified-IsSound j after (times fuel after cron) os
          (λ us. times-IsTaken cron fuel after us h))
        (if-some (IsSound j after) (j.schedule.kind == "once") _ _ os
          (classified-IsSound j after (at_most_one started due_ago wall_clock now after at) os
            (at_most_one-IsTaken after at))
          (if-some (IsSound j after) (j.schedule.kind == "event") _ _ os
            (λ k. subst (IsSound j after) (list_of k) (tt, tt)) (λ k. cc)))
        e
