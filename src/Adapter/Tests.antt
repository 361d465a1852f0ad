-- ===== src/Adapter/Tests.antt =====
-- A launch and an attestation on concrete values.
use herdr_bots.Base.{
  ℤ, String, ◌≡◌, refl, [], ◌∷◌, Option, none, some, ok, ◌>>=◌, refuse_if, ◌==◌, if◌then◌else◌,
}
use herdr_bots.Text.{split_on}
use herdr_bots.Config.Tests.{loaded_job, execution_passes}
use herdr_bots.Adapter.{
  Launch, launch_for, ModelUsage, UsageTable, parse_claude_model_attestation, has_completion_status,
}
use herdr_bots.Adapter.Confined.{IsConfined, launch_for-IsConfined}
use herdr_bots.Adapter.Attested.{IsAttested, parse_claude_model_attestation-IsAttested}

reviewer_launch :
    (l : Launch) × ((launch_for (loaded_job.execution) ≡ ok l)
      × IsConfined (loaded_job.execution) l)
reviewer_launch = launch_for-IsConfined (loaded_job.execution) execution_passes

abbrev opus : ModelUsage
opus = record {
  canonical_model = "claude-opus-4";
  provider = "firstParty";
  input_tokens = ℤ.pos 10;
  output_tokens = ℤ.pos 2;
}

abbrev decode : String → Option UsageTable
decode line = if line == "{result}" then some (("claude-opus-4", some opus) ∷ []) else none

abbrev seal : String → ModelUsage → String
seal line usage = "receipt"

attested :
    parse_claude_model_attestation decode seal "start\n{result}\nDONE:0\nlater" "DONE"
      "claude-opus-4"
    ≡ ok "receipt"
unfolding parse_claude_model_attestation ◌>>=◌ refuse_if split_on has_completion_status
attested = refl

opus-IsAttested :
    IsAttested decode seal "start\n{result}\nDONE:0\nlater" "DONE" "claude-opus-4" "receipt"
opus-IsAttested =
    parse_claude_model_attestation-IsAttested decode seal "start\n{result}\nDONE:0\nlater" "DONE"
      "claude-opus-4" "receipt" attested
