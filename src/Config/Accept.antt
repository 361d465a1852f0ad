-- ===== src/Config/Accept.antt =====
-- The acceptance lane of a finished run: internal/config/config.go, `ClassifyTerminalRun` and what
-- it calls.
pub mod Sound
use Prim.Native.Char.{code}
use Prim.Native.String.{◌++◌ as str_append}
use herdr_bots.Base.{
  ℕ, ◌%◌, ℤ, pos, lt_int, eq_int, String, Bool, true, false, not, ◌&&◌, ◌||◌, List, [], ◌∷◌, Option,
  none, some, ◌==◌, is_empty, eqb, leb, if◌then◌else◌,
}
use herdr_bots.Config.{Job, Verifier, Acceptance}
use herdr_bots.Sha256.{sum64}

abbrev pub acceptance_mandatory : String
acceptance_mandatory = "mandatory"

abbrev pub acceptance_auto : String
acceptance_auto = "auto"

abbrev pub acceptance_sample : String
acceptance_sample = "sample"

-- `unicode.IsSpace`
is_space : ℕ → Bool
is_space c =
    (leb 9 c && leb c 13)
    || eqb c 32
    || eqb c 0x85
    || eqb c 0xa0
    || eqb c 0x1680
    || (leb 0x2000 c && leb c 0x200a)
    || eqb c 0x2028
    || eqb c 0x2029
    || eqb c 0x202f
    || eqb c 0x205f
    || eqb c 0x3000

trim_left : String → String
trim_left String.[] = String.[]
trim_left (String.◌∷◌ c s) =
    let rest = trim_left s in if is_space (code c) then rest else String.◌∷◌ c s

trim_right : String → String
trim_right String.[] = String.[]
trim_right (String.◌∷◌ c s) =
    let rest = trim_right s in
    if is_space (code c) && is_empty rest then String.[] else String.◌∷◌ c rest

-- `strings.TrimSpace`
unfoldable pub trim_space : String → String
unfolding trim_left trim_right is_space
trim_space s = trim_left (trim_right s)

-- A lane, its reason, and whether the run enters the inbox unread.
pub record Lane : Type 0 where
  pub lane : String
  pub reason : String
  pub unread : Bool

abbrev pub mandatory : String → Lane
mandatory reason = record { lane = acceptance_mandatory; reason = reason; unread = true }

-- An absent or empty mode is mandatory.
unfoldable pub acceptance_mode : Option Acceptance → String
acceptance_mode none = acceptance_mandatory
acceptance_mode (some a) = if is_empty a.mode then acceptance_mandatory else a.mode

unfoldable pub no_empty_argument : List String → Bool
no_empty_argument [] = true
no_empty_argument (argument ∷ rest) = not (is_empty argument) && no_empty_argument rest

all_nonempty : List String → Bool
all_nonempty [] = false
all_nonempty (argument ∷ rest) = no_empty_argument (argument ∷ rest)

-- A verifier with a command of at least one argument, none of them empty.
unfoldable pub has_deterministic_verifier : Option Verifier → Bool
unfolding no_empty_argument all_nonempty
has_deterministic_verifier none = false
has_deterministic_verifier (some v) = all_nonempty v.command

-- Go's `int(bucket) < samplePercent`, with the bucket of the run's identifier.
unfoldable pub acceptance_sampled : String → ℤ → Bool
acceptance_sampled run_id sample_percent =
    if not (lt_int (pos 0) sample_percent)
    then false
    else if not (lt_int sample_percent (pos 100))
    then true
    else lt_int (pos (sum64 run_id % 100)) sample_percent

is_none : Option Acceptance → Bool
is_none none = true
is_none (some _) = false

unfoldable pub sample_percent_of : Option Acceptance → ℤ
sample_percent_of none = pos 0
sample_percent_of (some a) = a.sample_percent

-- `strings.TrimSpace(verdict)`, with the empty text read as "unverified".
unfoldable pub normalize_verdict : String → String
normalize_verdict verdict =
    let normalized = trim_space verdict in if is_empty normalized then "unverified" else normalized

-- The lane of a succeeded run whose verifier passed, by the job's acceptance mode.
unfoldable pub classify_passed : Job → String → Lane
unfolding acceptance_mode has_deterministic_verifier acceptance_sampled sample_percent_of is_none
classify_passed j run_id =
    let mode = acceptance_mode j.acceptance in
    let percent = sample_percent_of j.acceptance in
    if mode == acceptance_auto
    then (if not (eq_int percent (pos 0))
        then mandatory "acceptance_invalid"
        else if not (has_deterministic_verifier j.verifier)
        then mandatory "verifier_missing"
        else record { lane = acceptance_auto; reason = "verifier_passed"; unread = false })
    else if mode == acceptance_sample
    then (if lt_int percent (pos 1) || lt_int (pos 100) percent
        then mandatory "acceptance_invalid"
        else if not (has_deterministic_verifier j.verifier)
        then mandatory "verifier_missing"
        else if acceptance_sampled run_id percent
        then record { lane = acceptance_sample; reason = "sampled"; unread = true }
        else record { lane = acceptance_auto; reason = "unsampled"; unread = false })
    else if mode == acceptance_mandatory
    then mandatory (if is_none j.acceptance then "acceptance_missing" else "mode_mandatory")
    else mandatory "acceptance_unknown"

-- `Job.ClassifyTerminalRun`
unfoldable pub classify_terminal_run : Job → String → String → String → Lane
unfolding classify_passed
classify_terminal_run j run_id state verdict =
    let normalized = normalize_verdict verdict in
    if normalized == "failed"
    then mandatory "verifier_failed"
    else if not (state == "succeeded")
    then (if is_empty (trim_space state)
        then mandatory "state_unknown"
        else mandatory (str_append "state_" state))
    else if not (normalized == "passed")
    then mandatory "unverified"
    else classify_passed j run_id
