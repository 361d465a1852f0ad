-- ===== src/Adapter.antt =====
-- How a harness is started and what its transcript proves: internal/adapter/adapter.go. Running a
-- program and decoding JSON are arguments. The texts of the errors are shortened.
pub mod Confined
pub mod Attested
mod Tests
use Prim.Native.Char.{Char, code}
use Prim.Native.String.{◌++◌ as str_append, count}
use Prim.Native.Nat.{◌-◌}
use mathlib.Core.List.{◌++◌}
use herdr_bots.Base.{
  ℕ, zero, suc, ℤ, pos, lt_int, String, Bool, true, false, not, ◌&&◌, ◌||◌, ◌==◌, is_empty, leb,
  List, [], ◌∷◌, Option, none, some, Result, ok, err, message, refuse_if, ◌>>=◌, ◌>>◌,
  if◌then◌else◌,
}
use herdr_bots.Text.{has_prefix, split_on, join}
use herdr_bots.Config.{Execution}
use herdr_bots.Config.Scope.{permission_read_only, permission_repo_write}

pub record Launch : Type 0 where
  pub mode : String
  pub kind : String
  pub args : List String

-- The tools that a permission profile grants, of two lists.
unfoldable pub tools_for :
    (profile : String) (read_only repo_write : List String) → Result (List String)
tools_for profile read_only repo_write =
    if profile == permission_read_only
    then ok read_only
    else if profile == permission_repo_write
    then ok repo_write
    else err (message "unsupported permission profile")

unfoldable pub model_args : (model : String) → List String
model_args model = if model == "harness-default" then [] else "--model" ∷ model ∷ []

unfoldable pub requires_model_attestation : Option Bool → Bool
requires_model_attestation none = false
requires_model_attestation (some wanted) = wanted

unfoldable pub pi_args : Execution → List String
unfolding model_args
pi_args e =
    ("--provider" ∷ e.provider ∷ "--no-approve" ∷ "--no-extensions" ∷ "--no-skills"
      ∷ "--no-prompt-templates" ∷ "--no-context-files" ∷ [])
    ++ (model_args e.model ++ ("--thinking" ∷ e.thinking ∷ []))

unfoldable pub claude_args : Execution → List String
unfolding model_args requires_model_attestation
claude_args e =
    model_args e.model
    ++ (("--effort" ∷ e.thinking ∷ "--safe-mode" ∷ "--restricted" ∷ "--no-chrome"
          ∷ "--no-session-persistence" ∷ "--strict-mcp-config" ∷ [])
        ++ (if requires_model_attestation e.require_model_attestation
            then "--output-format" ∷ "json" ∷ []
            else []))

unfoldable pub pi_launch : Execution → Result Launch
unfolding tools_for pi_args
pi_launch e =
    tools_for e.permission_profile ("--tools" ∷ "read,grep,find,ls" ∷ [])
      ("--tools" ∷ "read,grep,find,ls,edit,write" ∷ [])
    >>= λ tools. ok (record { mode = "command"; kind = "pi"; args = pi_args e ++ tools })

unfoldable pub claude_launch : Execution → Result Launch
unfolding tools_for claude_args
claude_launch e =
    tools_for e.permission_profile
      ("--permission-mode" ∷ "plan" ∷ "--tools" ∷ "Read,Glob,Grep" ∷ [])
      ("--permission-mode" ∷ "acceptEdits" ∷ "--tools" ∷ "Read,Glob,Grep,Edit,Write" ∷ [])
    >>= λ tools. ok (record { mode = "command"; kind = "claude"; args = claude_args e ++ tools })

-- `LaunchFor`
unfoldable pub launch_for : Execution → Result Launch
unfolding pi_launch claude_launch
launch_for e =
    if e.harness == "pi"
    then pi_launch e
    else if e.harness == "claude-code"
    then claude_launch e
    else err (message "unsupported harness")

starts_with_digit : String → Bool
starts_with_digit String.[] = false
starts_with_digit (String.◌∷◌ c s) = leb 48 (code c) && leb (code c) 57

-- The text behind a prefix that it has.
behind : String → String → String
behind s String.[] = s
behind String.[] (String.◌∷◌ d t) = ""
behind (String.◌∷◌ c s) (String.◌∷◌ d t) = behind s t

-- `hasCompletionStatus`: `marker:` with a digit behind it. The search goes on behind each match, so
-- the number counts the characters of a match that are still to be left out.
status_from : (key : String) → ℕ → String → Bool
unfolding has_prefix starts_with_digit behind
status_from key k String.[] = false
status_from key (suc k) (String.◌∷◌ c s) = status_from key k s
status_from key zero (String.◌∷◌ c s) =
    let found = has_prefix (String.◌∷◌ c s) key in
    let rest = status_from key (if found then count key - 1 else 0) s in
    if found && starts_with_digit (behind (String.◌∷◌ c s) key) then true else rest

unfoldable pub has_completion_status : (line marker : String) → Bool
unfolding status_from
has_completion_status line marker = status_from (str_append marker ":") 0 line

-- What a transcript says of one model, where it can be decoded.
pub record ModelUsage : Type 0 where
  pub canonical_model : String
  pub provider : String
  pub input_tokens : ℤ
  pub output_tokens : ℤ

abbrev pub UsageTable : Type 0
UsageTable = List (String × Option ModelUsage)

unfoldable pub keep_line : Bool → String → Option (List String) → Option (List String)
keep_line true line before = some []
keep_line false line none = none
keep_line false line (some before) = some (line ∷ before)

-- The lines before the first one with the completion status.
unfoldable pub before_completion : (marker : String) → List String → Option (List String)
unfolding keep_line
before_completion marker [] = none
before_completion marker (line ∷ lines) =
    keep_line (has_completion_status line marker) line (before_completion marker lines)

unfoldable pub usage_of : String → UsageTable → Option (Option ModelUsage)
usage_of model [] = none
usage_of model ((name, usage) ∷ rest) = elim (name == model) [
  | true ↦ some usage
  | false ↦ usage_of model rest
]

-- What `json.Unmarshal` reads from a line that is a result object by itself, and the receipt that
-- `json.Marshal` makes of the model, the provider and the line's SHA-256.
module _ (result_usage : String → Option UsageTable)
    (receipt : (line : String) → ModelUsage → String) where
  unfoldable pub later_or :
      Option (String × UsageTable) → String → Option UsageTable → Option (String × UsageTable)
  later_or (some found) line usage = some found
  later_or none line none = none
  later_or none line (some usage) = some (line, usage)

  -- `lastClaudeResultLine`
  unfoldable pub last_claude_result_line : List String → Option (String × UsageTable)
  unfolding later_or
  last_claude_result_line [] = none
  last_claude_result_line (line ∷ lines) =
      later_or (last_claude_result_line lines) line (result_usage line)

  unfoldable pub check_usage : (line expected : String) → Option (Option ModelUsage) → Result String
  check_usage line expected none = err (message "the result does not report the configured model")
  check_usage line expected (some none) = err (message "usage is malformed")
  check_usage line expected (some (some u)) =
      refuse_if (not (u.provider == "firstParty")) (message "usage reports another provider")
      >> refuse_if (not (u.canonical_model == expected)) (message "another canonical model")
      >> refuse_if (not (lt_int (pos 0) u.input_tokens) && not (lt_int (pos 0) u.output_tokens))
          (message "usage reports no input or output tokens")
      >> ok (receipt line u)

  unfoldable pub check_result : (expected : String) → Option (String × UsageTable) → Result String
  unfolding usage_of check_usage
  check_result expected none = err (message "no result precedes the completion status")
  check_result expected (some (line, usage)) = check_usage line expected (usage_of expected usage)

  unfoldable pub check_lines : (expected : String) → Option (List String) → Result String
  unfolding last_claude_result_line check_result
  check_lines expected none = err (message "no completion status is present in the transcript")
  check_lines expected (some lines) = check_result expected (last_claude_result_line lines)

  -- `ParseClaudeModelAttestation`
  unfoldable pub parse_claude_model_attestation :
      (transcript completion_marker expected : String) → Result String
  unfolding check_lines before_completion
  parse_claude_model_attestation transcript completion_marker expected =
      refuse_if (is_empty completion_marker) (message "a completion marker is required")
      >> refuse_if (is_empty expected) (message "an expected model is required")
      >> check_lines expected (before_completion completion_marker (split_on "\n" transcript))
