-- ===== src/Store/State.antt =====
-- The state names of internal/store/store.go, and the sets of them that the code tests.
use herdr_bots.Base.{String, Bool, false, ◌≡◌, refl, ◌==◌, ◌||◌}

abbrev pub accepted : String
accepted = "accepted"

abbrev pub provisioning : String
provisioning = "provisioning"

abbrev pub starting : String
starting = "starting"

abbrev pub running : String
running = "running"

abbrev pub settled : String
settled = "settled"

abbrev pub verifying : String
verifying = "verifying"

abbrev pub succeeded : String
succeeded = "succeeded"

abbrev pub failed : String
failed = "failed"

abbrev pub blocked : String
blocked = "blocked"

abbrev pub timed_out : String
timed_out = "timed_out"

abbrev pub cancelled : String
cancelled = "cancelled"

abbrev pub interrupted : String
interrupted = "interrupted"

-- `IsTerminalState`, and SQL's `state IN ('succeeded', …)`.
unfoldable pub is_terminal : String → Bool
is_terminal state =
    state == succeeded
    || state == failed
    || state == blocked
    || state == timed_out
    || state == cancelled
    || state == interrupted

-- SQL's `state IN ('provisioning','starting','running','settled','verifying')`.
unfoldable pub is_executing : String → Bool
is_executing state =
    state == provisioning
    || state == starting
    || state == running
    || state == settled
    || state == verifying

-- SQL's `state IN ('accepted','provisioning','starting','running','settled','verifying')`.
unfoldable pub is_nonterminal : String → Bool
unfolding is_executing
is_nonterminal state = state == accepted || is_executing state

pub live_accepted : is_terminal accepted ≡ false
unfolding is_terminal
live_accepted = refl

pub live_provisioning : is_terminal provisioning ≡ false
unfolding is_terminal
live_provisioning = refl

pub live_starting : is_terminal starting ≡ false
unfolding is_terminal
live_starting = refl

pub live_running : is_terminal running ≡ false
unfolding is_terminal
live_running = refl

pub live_settled : is_terminal settled ≡ false
unfolding is_terminal
live_settled = refl

pub live_verifying : is_terminal verifying ≡ false
unfolding is_terminal
live_verifying = refl
