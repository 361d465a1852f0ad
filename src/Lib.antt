-- ===== src/Lib.antt =====
-- herdr-bots runs unattended agent jobs: a daemon reads job definitions, keeps jobs, occurrences and
-- runs in an SQLite database, and moves each run through provisioning, start, verification and end.
-- Several processes (the daemon, the command line, delayed workers) share that database, and the
-- transactions of internal/store are what keeps them apart. This library models those transactions,
-- the rule by which a finished run's acceptance is decided, what a configuration file may say, when
-- a job is due, and how the engine's requests use the store.
--
-- The parts, and how they correspond to the code:
--   Config          the saved job: the types of internal/config/config.go.
--   Config/Defaults, Disk, Ids, Scope, Inputs, Validate
--                   what `Load` does behind the decoded file: the defaults, and every check of a
--                   job, its identifier, schedule, execution, inputs, write scope and policy.
--   Config/Accept   `AcceptanceMode`, `ClassifyTerminalRun`, `acceptanceSampled`.
--   Sha256          `sha256.Sum256` of crypto/sha256, as its standard defines it: the first eight
--                   bytes, on which the sample of runs rests.
--   Store/State, EffectKind, PauseReason, Schema
--                   the constants and rows of internal/store/store.go.
--   Store/Table     SQL statements over the rows, and a transaction's commit and rollback.
--   Store/Runs, Claims, Ends, Lease, Provisioning, Expiry, Receipts
--                   the methods that write runs: `Transition` and `Finish`; the claims of effects;
--                   their ends; leases and tokens; the live provisioning claim; the recovery of an
--                   expired one, internal/store/recovery.go with it; receipts and events.
--   Store/Jobs, Occurrences, Creation
--                   job authority; scheduled occurrences; events, manual and canary runs.
--   Store/Admission `DecideAdmission`, with the caller's capacity check as an argument.
--   Store/Queries   the read-only methods.
--   Store/Classify  `classifyTerminalRun` and `terminalAcceptanceTx`.
--   Store/Spec      what the store promises of its rows and events, as a step relation.
--   Store/Trace     all writing methods as operations, and sequences of them.
--   Schedule        `Between` of internal/schedule/schedule.go.
--   Text            what these use of Go's `strings` and `path/filepath`.
--   Engine/Evaluate, Source, Requests, Steps
--                   `Evaluate`, `sourceInput`, `Enqueue` and `RunNow` of internal/engine/engine.go
--                   over the store, up to their calls of the dispatch.
--   Engine/Close    `Cancel` and `closeAndFinish` there, with what they call.
--   Engine/Launch   the names, the quoting and the command line of a run, there too.
--   Engine/Review   the rules on paths of internal/engine/bounded_review.go.
--   Adapter         `LaunchFor` and `ParseClaudeModelAttestation` of internal/adapter/adapter.go.
--   Engine/Admission
--                   `admissionDecision` of internal/engine/engine.go, the capacity check that
--                   the engine passes to `DecideAdmission`.
--   modules named Tests
--                   concrete rows, jobs and texts, and the theorems applied to them.
--
-- A Go method is a function of the database with the name of the method in this library's spelling:
-- `FinishEffect` is `finish_effect`. It returns its result and the database that is left; an error
-- that the transaction returns leaves the database it began with, and an error that is returned
-- after a commit leaves what was committed. SQLite runs writing transactions one after another, so
-- concurrent processes are sequences of operations in any order.
--
-- An instant is its Unix nanoseconds as a natural number, and Go's zero time is 0. A clock, a
-- random token and a new run's identifier are arguments. `encoding/json` is outside: a job snapshot
-- carries its bytes with what decoding gives for each shape that the program decodes, and the text
-- of a close intent is an argument. An amount of disk is a whole number of MiB where Go has GiB in
-- floating point, or a negative amount, an infinity or no number, which validation refuses. A grace
-- of minutes wraps as an int64 of nanoseconds does. The texts of errors, and of details that Go
-- formats, are shortened. git, the cron parser's schedules, time zones and formats, and the case of
-- characters are arguments.
--
-- Every function is structural, but for the loop over a cron schedule, which runs on fuel and has no
-- result when the fuel is too small. As many passes as the present instant has nanoseconds, and two
-- more, are enough when the parser's `Next` is later than its argument; when `Next` finds nothing
-- the code itself never ends. `Evaluate` takes that much fuel.
--
-- Not modelled: opening and migrating the database, SQLite's own failures and retries, the engine's
-- dispatch and reconciliation, the reading and hashing of files in a bounded review, the Herdr
-- client (what Herdr answers is an argument), panes, the adapters' probes, the parsers of cron
-- expressions and YAML, the service file and the command line.
pub mod Adapter
pub mod Base
pub mod Config
pub mod Engine
pub mod Schedule
pub mod Sha256
pub mod Store
pub mod Text
