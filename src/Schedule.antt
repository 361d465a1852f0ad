-- ===== src/Schedule.antt =====
-- Which occurrences of a job are due: internal/schedule/schedule.go. An instant is its nanoseconds,
-- and 0 is Go's zero time. The cron parser's `Next`, `time.Parse`, and the formats of an instant in
-- the job's location are arguments; `none` stands for a location or a text that does not parse.
pub mod Loop
pub mod Ends
pub mod Due
mod Tests
use Prim.Native.String.{◌++◌}
use Prim.Native.Nat.{◌-◌}
use herdr_bots.Base.{
  ℕ, zero, suc, ◌+◌, ◌*◌, ℤ, pos, negsuc, String, Bool, true, false, not, ◌&&◌, ◌==◌, leb, ltb,
  List, [], ◌∷◌, length, Option, none, some, Result, ok, err, message, if◌then◌else◌,
}
use herdr_bots.Text.{is_any_of}
use herdr_bots.Config.{Job, Schedule}
use herdr_bots.Config.Defaults.{catch_up_grace}

pub record Occurrence : Type 0 where
  pub key : String
  pub scheduled_for : ℕ
  pub trigger : String
  pub outcome : String
  pub detail : String

-- One pass of the loop's body has put an instant in front of what the later passes give.
unfoldable pub with_moment : Bool → ℕ → Option (Result (List ℕ)) → Option (Result (List ℕ))
with_moment false t rest = rest
with_moment true t none = none
with_moment true t (some (err e)) = some (err e)
with_moment true t (some (ok ts)) = some (ok (t ∷ ts))

-- The loop over the instants of a cron schedule up to `now`; `none` says that it has not ended
-- within the fuel. `seen` holds the wall clock of every instant that was taken.
module _ (next : ℕ → ℕ) (wall_clock : ℕ → String) (now : ℕ) where
  unfoldable pub cron_moments : (fuel : ℕ) (t : ℕ) (seen : List String) → Option (Result (List ℕ))
  unfolding with_moment
  cron_moments zero t seen = none
  cron_moments (suc fuel) t seen =
      let fresh = not (is_any_of (wall_clock t) seen) in
      let taken = if fresh then wall_clock t ∷ seen else seen in
      let rest = cron_moments fuel (next t) taken in
      if ltb now t
      then some (ok [])
      else if leb 1000 (length taken)
      then some (err (message "more than 1000 occurrences are due"))
      else with_moment fresh t rest

-- The tolerance of 60 s, and what is within the grace.
abbrev normal_poll_tolerance : ℕ
normal_poll_tolerance = 60 * 1000000000

unfoldable pub within : ℕ → ℤ → Bool
within late (pos grace) = leb late grace
within late (negsuc _) = false

-- The two texts that `fmt.Sprintf` makes of the lateness.
module _ (started due_ago : ℕ → String) (wall_clock : ℕ → String) (now : ℕ) where
  abbrev occurrence_key : String → ℕ → String
  occurrence_key kind t = kind ++ (":" ++ wall_clock t)

  unfoldable pub classify_moment : Job → ℕ → Occurrence
  unfolding within catch_up_grace
  classify_moment j t =
      let late = now - t in
      let key = occurrence_key j.schedule.kind t in
      let trigger = if j.schedule.kind == "once" then "once" else "cron" in
      if leb late normal_poll_tolerance
      then record { key = key; scheduled_for = t; trigger = trigger; outcome = "due"; detail = "" }
      else if within late (catch_up_grace j.schedule.catch_up_grace_minutes)
      then record {
        key = key;
        scheduled_for = t;
        trigger = "catchup";
        outcome = "due";
        detail = started late;
      }
      else record {
        key = key;
        scheduled_for = t;
        trigger = trigger;
        outcome = "missed";
        detail = due_ago late;
      }

  unfoldable pub classify_moments : Job → List ℕ → List Occurrence
  unfolding classify_moment
  classify_moments j [] = []
  classify_moments j (t ∷ ts) = classify_moment j t ∷ classify_moments j ts

  classified : Job → Option (Result (List ℕ)) → Option (Result (List Occurrence))
  classified j none = none
  classified j (some (err e)) = some (err e)
  classified j (some (ok ts)) = some (ok (classify_moments j ts))

  abbrev at_most_one : (after : ℕ) → Option ℕ → Option (Result (List ℕ))
  at_most_one after none = some (err (message "schedule.at does not parse"))
  at_most_one after (some at) = some (ok (if ltb after at && leb at now then at ∷ [] else []))

  abbrev cron_from : (fuel after : ℕ) → Option (ℕ → ℕ) → Option (Result (List ℕ))
  cron_from fuel after none = some (err (message "parse cron"))
  cron_from fuel after (some next) = cron_moments next wall_clock now fuel (next after) []

  -- `Between`, for a location that loads: the schedule that the cron parser makes of the expression,
  -- and the instant of `schedule.at`.
  unfoldable pub between :
      (cron : Option (ℕ → ℕ)) (at : Option ℕ)
      → Job
      → (fuel after : ℕ) → Option (Result (List Occurrence))
  unfolding cron_moments classify_moments classified
  between cron at j fuel after =
      if j.schedule.kind == "cron"
      then classified j (cron_from fuel after cron)
      else if j.schedule.kind == "once"
      then classified j (at_most_one after at)
      else if j.schedule.kind == "event"
      then some (ok [])
      else some (err (message "unsupported schedule kind"))
