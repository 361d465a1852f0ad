-- ===== src/Config/Scope.antt =====
-- The write scope of a job: `validateAllowedWritePaths` and `hasTraversalSegment` of
-- internal/config/config.go. The texts of the errors are shortened.
use Prim.Native.Char.{nul}
use Prim.Native.String.{◌++◌}
use herdr_bots.Base.{
  String, Bool, false, not, ◌&&◌, ◌||◌, List, [], ◌∷◌, ◌==◌, is_empty, leb, length, Result, ok,
  message, ◌>>◌, refuse_if,
}
use herdr_bots.Text.{
  has_prefix, has_suffix, trim_suffix, contains_rune, contains_any, split_on, slash,
}
use herdr_bots.Text.Path.{is_abs, clean}
use herdr_bots.Config.{Execution}

abbrev pub bounded_inputs_dir : String
bounded_inputs_dir = ".herdr-bots/inputs"

abbrev pub permission_read_only : String
permission_read_only = "read-only-no-network"

abbrev pub permission_repo_write : String
permission_repo_write = "repo-write-no-network"

unfoldable pub any_field_up : List String → Bool
any_field_up [] = false
any_field_up (segment ∷ segments) = segment == ".." || any_field_up segments

unfoldable pub has_traversal_segment : String → Bool
unfolding any_field_up
has_traversal_segment path = any_field_up (split_on slash path)

-- The second `switch` of the loop, on the entry without its trailing slash.
unfoldable pub validate_scope_path : (is_prefix : Bool) (path : String) → Result (Unit {0})
validate_scope_path is_prefix path =
    refuse_if (is_empty path || path == ".") (message "must name a path, not the repository root")
    >> refuse_if (has_traversal_segment path) (message "must not contain ..")
    >> refuse_if (not (clean path == path)) (message "must be a clean relative path")
    >> refuse_if (path == ".git" || has_prefix path ".git/")
        (message "must not grant writes to .git")
    >> refuse_if (path == bounded_inputs_dir || has_prefix path (bounded_inputs_dir ++ "/"))
        (message "must not grant writes to the staged inputs")
    >> refuse_if (is_prefix && has_prefix (bounded_inputs_dir ++ "/") (path ++ "/"))
        (message "is a directory prefix containing the staged inputs")

unfoldable pub validate_scope_entry : String → Result (Unit {0})
validate_scope_entry entry =
    refuse_if (is_empty entry) (message "must not be empty")
    >> refuse_if (contains_rune entry nul) (message "must not contain NUL")
    >> refuse_if (contains_any entry "*?[") (message "must not contain the wildcard characters")
    >> refuse_if (is_abs entry) (message "must be relative to the repository")
    >> validate_scope_path (has_suffix entry "/") (trim_suffix entry "/")

unfoldable pub validate_scope_entries : List String → Result (Unit {0})
validate_scope_entries [] = ok tt
validate_scope_entries (entry ∷ entries) =
    validate_scope_entry entry >> validate_scope_entries entries

unfoldable pub validate_scope : (permission_profile : String) → List String → Result (Unit {0})
validate_scope profile [] = ok tt
validate_scope profile (entry ∷ entries) =
    refuse_if (not (profile == permission_repo_write))
      (message "allowed_write_paths is only valid with repo-write-no-network")
    >> refuse_if (not (leb (length (entry ∷ entries)) 64))
        (message "allowed_write_paths allows at most 64 entries")
    >> validate_scope_entries (entry ∷ entries)

unfoldable pub validate_allowed_write_paths : Execution → Result (Unit {0})
unfolding validate_scope
validate_allowed_write_paths e = validate_scope e.permission_profile e.allowed_write_paths
