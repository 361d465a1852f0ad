-- ===== src/Store/Queries.antt =====
-- The read-only queries of internal/store/store.go over runs, occurrences and events.
pub mod Counts
use Prim.Native.Nat.{Ordering}
use Prim.Native.String.{compare as str_compare}
use mathlib.Core.List.{reverse}
use herdr_bots.Base.{
  ℕ, zero, suc, ℤ, pos, negsuc, String, Bool, true, false, not, ◌&&◌, ◌||◌, List, [], ◌∷◌, ◌++◌,
  ◌==◌, is_empty, ltb, eqb, filter_by, count_by, if◌then◌else◌,
}
use herdr_bots.Config.Accept.{acceptance_auto, acceptance_sample}
use herdr_bots.Store.State
use herdr_bots.Store.State.{is_terminal, is_executing, is_nonterminal}
use herdr_bots.Store.EffectKind
use herdr_bots.Store.Schema.{Run, Event, Database}

abbrev str_lt : String → String → Bool
str_lt a b = elim (str_compare a b) [ Ordering.lt ↦ true | _ ↦ false ]

-- ORDER BY accepted_unix_nano,id
accepted_before : Run → Run → Bool
accepted_before r s =
    ltb r.accepted_unix_nano s.accepted_unix_nano
    || (eqb r.accepted_unix_nano s.accepted_unix_nano && str_lt r.id s.id)

unfoldable pub insert_by : (Run → Run → Bool) → Run → List Run → List Run
insert_by before r [] = r ∷ []
insert_by before r (s ∷ ss) = if before s r then s ∷ insert_by before r ss else r ∷ s ∷ ss

unfoldable pub sort_by : (Run → Run → Bool) → List Run → List Run
sort_by before [] = []
sort_by before (r ∷ rs) = insert_by before r (sort_by before rs)

take_runs : ℕ → List Run → List Run
take_runs zero _ = []
take_runs (suc n) [] = []
take_runs (suc n) (r ∷ rs) = r ∷ take_runs n rs

-- LIMIT ?, where a negative limit is none.
limited : ℤ → List Run → List Run
limited (pos n) rs = take_runs n rs
limited (negsuc _) rs = rs

in_job : String → Run → Bool
in_job job_id r = is_empty job_id || r.job_id == job_id

-- `ListRuns`: newest first, of one job or of all.
unfoldable pub list_runs : String → ℤ → Database → List Run
unfolding sort_by insert_by accepted_before limited take_runs in_job filter_by
list_runs job_id limit d =
    limited limit (sort_by (λ r s. accepted_before s r) (filter_by (in_job job_id) d.runs))

lane_rank : Run → ℕ
lane_rank r =
    if r.acceptance_lane == acceptance_sample
    then 1
    else if r.acceptance_lane == acceptance_auto
    then 2
    else 0

in_lane_order : Run → Run → Bool
in_lane_order r s =
    ltb (lane_rank r) (lane_rank s) || (eqb (lane_rank r) (lane_rank s) && accepted_before s r)

-- A run that the inbox shows as finished: its state is not nonterminal, and no close is pending.
unfoldable pub is_inbox_terminal : Run → Bool
is_inbox_terminal r =
    not (is_nonterminal r.state) && not (r.effect_kind == EffectKind.workspace_close)

unfoldable pub is_inbox_active : Run → Bool
is_inbox_active r = is_nonterminal r.state || r.effect_kind == EffectKind.workspace_close

-- A limit of 0 leaves the finished runs out; a positive one bounds them.
unfoldable pub list_runs_grouped_by_acceptance : String → ℤ → Database → List Run
unfolding sort_by insert_by accepted_before limited take_runs in_job filter_by lane_rank
    in_lane_order
list_runs_grouped_by_acceptance job_id limit d =
    limited limit
      (sort_by in_lane_order (filter_by (λ r. is_inbox_terminal r && in_job job_id r) d.runs))
    ++ sort_by (λ r s. accepted_before s r)
        (filter_by (λ r. is_inbox_active r && in_job job_id r) d.runs)

-- `NonTerminalRuns`: oldest first.
unfoldable pub nonterminal_runs : Database → List Run
unfolding sort_by insert_by accepted_before filter_by
nonterminal_runs d = sort_by accepted_before (filter_by is_inbox_active d.runs)

-- The active rows of `DecideAdmission`: oldest first.
unfoldable pub executing_runs : Database → List Run
unfolding sort_by insert_by accepted_before filter_by
executing_runs d = sort_by accepted_before (filter_by (λ r. is_executing r.state) d.runs)

-- SELECT COUNT(*) FROM runs WHERE job_id=? AND accepted_unix_nano>=? AND accepted_unix_nano<?
unfoldable pub day_count : String → ℕ → ℕ → Database → ℕ
unfolding count_by
day_count job_id from until d =
    count_by
      (λ r.
        r.job_id == job_id && not (ltb r.accepted_unix_nano from) && ltb r.accepted_unix_nano until)
      d.runs

unfoldable pub executing_count : String → Database → ℕ
unfolding count_by
executing_count job_id d = count_by (λ r. r.job_id == job_id && is_executing r.state) d.runs

unfoldable pub queued_count : String → Database → ℕ
unfolding count_by
queued_count job_id d = count_by (λ r. r.job_id == job_id && r.state == State.accepted) d.runs

-- `countUnreadTerminalRunsTx`
unfoldable pub count_unread_terminal_runs : String → Database → ℕ
unfolding count_by
count_unread_terminal_runs job_id d =
    count_by (λ r. r.job_id == job_id && r.unread && is_terminal r.state) d.runs

-- The other nonterminal runs of a job.
unfoldable pub conflicting_count : String → String → Database → ℕ
unfolding count_by
conflicting_count job_id id d =
    count_by (λ r. r.job_id == job_id && not (r.id == id) && is_nonterminal r.state) d.runs

-- `Events`: oldest first.
unfoldable pub events_of : String → Database → List Event
unfolding filter_by
events_of id d = reverse (filter_by (λ e. e.run_id == id) d.events)

pub record SuccessfulSource : Type 0 where
  pub job_revision : String
  pub source_revision : String

source_of : List Run → SuccessfulSource
source_of [] = record { job_revision = ""; source_revision = "" }
source_of (r ∷ _) = record { job_revision = r.job_revision; source_revision = r.source_revision }

-- `LastSuccessfulSource`: the newest succeeded run that has a source revision.
unfoldable pub last_successful_source : String → Database → SuccessfulSource
unfolding sort_by insert_by accepted_before filter_by source_of
last_successful_source job_id d = source_of (
    sort_by (λ r s. accepted_before s r)
      (filter_by
        (λ r. r.job_id == job_id && r.state == State.succeeded && not (is_empty r.source_revision))
        d.runs))
