-- ===== src/Engine/Source.antt =====
-- The source revision that a run reviews: `sourceInput` and `ResolveSourceRevision` of
-- internal/engine/engine.go.
use Prim.Native.String.{◌++◌}
use herdr_bots.Base.{
  String, not, ◌==◌, is_empty, List, [], ◌∷◌, Result, ok, message, refuse_if, ◌>>=◌, ◌>>◌,
  if◌then◌else◌,
}
use herdr_bots.Config.{Job}
use herdr_bots.Config.Accept.{trim_space}
use herdr_bots.Store.Schema.{Database}
use herdr_bots.Store.Queries.{last_successful_source}
use herdr_bots.Engine.Launch.{truncate, is_hex_revision}

pub record SourceInput : Type 0 where
  pub base_revision : String
  pub revision : String
  pub context : String

abbrev pub no_source : SourceInput
no_source = record { base_revision = ""; revision = ""; context = "" }

-- The program git: what it prints in a repository on some arguments.
module _ (git_output : (repository : String) → List String → Result String) where
  -- `ResolveSourceRevision`
  unfoldable pub resolve_source_revision : (repository ref : String) → Result String
  resolve_source_revision repository ref =
      git_output repository ("rev-parse" ∷ "--verify" ∷ (ref ++ "^{commit}") ∷ []) >>= λ printed.
      let revision = trim_space printed in
      refuse_if (not (is_hex_revision revision)) (message "git returned invalid source revision")
      >> ok revision

  -- The context of a revision that has a base: unchanged, or the commits and paths between the two.
  source_changes : (repository base revision : String) → Result String
  source_changes repository base revision =
      if base == revision
      then ok (
          "Base and current source revision: "
          ++ (revision ++ "\nNo committed source changes were observed."))
      else git_output repository ("merge-base" ∷ "--is-ancestor" ∷ base ∷ revision ∷ []) >>= λ _.
          git_output repository (
            "log"
            ∷ "--no-merges"
            ∷ "--format=%h %s"
            ∷ "--max-count=50"
            ∷ (base ++ (".." ++ revision))
            ∷ [])
          >>= λ commits.
              git_output repository ("diff" ∷ "--name-status" ∷ base ∷ revision ∷ "--" ∷ [])
              >>= λ paths. ok (
                  "Base source revision: "
                  ++ (base
                      ++ ("\nCurrent source revision: "
                          ++ (revision
                              ++ ("\n\nCommits:\n"
                                  ++ (trim_space commits
                                      ++ ("\n\nChanged paths:\n" ++ trim_space paths)))))))

  source_context : (repository base revision : String) → Result String
  unfolding source_changes
  source_context repository base revision =
      if is_empty base
      then ok (
          "Current source revision: "
          ++ (revision
              ++ "\nNo prior successful source revision exists. Treat this as the initial baseline."))
      else refuse_if (not (is_hex_revision base)) (message "stored source revision is invalid")
        >> source_changes repository base revision

  -- `sourceInput`
  unfoldable pub source_input : Job → (job_revision : String) → Database → Result SourceInput
  unfolding resolve_source_revision source_context
  source_input j job_revision d =
      resolve_source_revision j.execution.repository j.execution.base_ref >>= λ revision.
      let previous = last_successful_source j.id d in
      let base = if previous.job_revision == job_revision then previous.source_revision else "" in
      source_context j.execution.repository base revision >>= λ context.
      ok (record { base_revision = base; revision = revision; context = truncate context 12000 })
