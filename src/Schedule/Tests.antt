-- ===== src/Schedule/Tests.antt =====
-- The schedule on concrete clocks.
use herdr_bots.Base.{
  ℕ, suc, ◌+◌, ◌<◌, String, ◌≡◌, refl, List, [], ◌∷◌, none, some, Result, ok, All, eqb,
  if◌then◌else◌, arith,
}
use herdr_bots.Text.{is_any_of}
use herdr_bots.Config.Tests.{loaded_job}
use herdr_bots.Schedule.{Occurrence, between}
use herdr_bots.Schedule.Ends.{between_ends, between_hangs}
use herdr_bots.Schedule.Due.{IsReported, IsKeyedOnce, between-IsSound}

-- A minute is enough of a clock: the hours of the night, where 1:00 stands twice.
abbrev clock : ℕ → String
clock t = if eqb t 3600000000000 then "01:00" else if eqb t 7200000000000 then "01:00" else "02:00"

abbrev no_detail : ℕ → String
no_detail late = "late"

abbrev hourly : ℕ → ℕ
hourly t = t + 3600000000000

hourly_later : (t : ℕ) → t < hourly t
hourly_later t = omega arith

abbrev never : ℕ → ℕ
never t = 0

-- Three hours after midnight.
abbrev at_once : ℕ
at_once = 10800000000000

abbrev reported : List Occurrence
reported =
    record {
      key = "cron:01:00";
      scheduled_for = 3600000000000;
      trigger = "catchup";
      outcome = "due";
      detail = "late";
    }
    ∷ record {
      key = "cron:02:00";
      scheduled_for = 10800000000000;
      trigger = "cron";
      outcome = "due";
      detail = "";
    }
    ∷ []

night :
    between no_detail no_detail clock at_once (some hourly) none loaded_job 5 0 ≡ some (ok reported)
unfolding between is_any_of
night = refl

night-IsSound :
    All (IsReported no_detail no_detail clock at_once loaded_job 0) reported
    × IsKeyedOnce no_detail no_detail clock at_once reported
night-IsSound =
    between-IsSound no_detail no_detail clock at_once (some hourly) none loaded_job 5 0 reported
      hourly_later night

night_ends :
    (r : Result (List Occurrence)) × (between no_detail no_detail clock at_once
        (some hourly)
        none
        loaded_job
        (suc (suc at_once))
        0
      ≡ some r)
night_ends =
    between_ends no_detail no_detail clock at_once (some hourly) none loaded_job 0 hourly_later

-- The thirtieth of February never comes.
february_hangs :
    between no_detail no_detail clock at_once (some never) none loaded_job 1000 0 ≡ none
february_hangs =
    between_hangs no_detail no_detail clock at_once never none loaded_job 1000 0 refl (λ t. refl)
