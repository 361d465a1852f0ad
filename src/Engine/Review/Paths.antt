-- ===== src/Engine/Review/Paths.antt =====
-- The paths that a bounded review opens: `boundedWorktreeRoot`, `boundedDestinationPath`,
-- `boundedWorktreePath`, `validateRepositoryPath` and `expandBoundedSource` of
-- internal/engine/bounded_review.go. The texts of the errors are shortened.
use Prim.Native.Char.{nul}
use Prim.Native.String.{◌++◌}
use herdr_bots.Base.{
  ℕ, zero, suc, String, Bool, not, ◌||◌, ◌==◌, is_empty, Result, ok, message, refuse_if, ◌>>=◌,
  ◌>>◌, if◌then◌else◌,
}
use herdr_bots.Text.{has_prefix, contains_rune, contains_any, split_on, slash}
use herdr_bots.Text.Path.{is_abs, clean, join_path, rel}
use herdr_bots.Config.Scope.{bounded_inputs_dir, any_field_up}

-- `boundedPathHasTraversal`
unfoldable pub bounded_path_has_traversal : String → Bool
unfolding any_field_up
bounded_path_has_traversal path = any_field_up (split_on slash path)

-- `boundedWorktreeRoot`, of the run's worktree receipt.
unfoldable pub bounded_worktree_root : (worktree_path : String) → Result String
bounded_worktree_root root =
    refuse_if (is_empty root) (message "run has no worktree receipt")
    >> refuse_if (not (is_abs root)) (message "worktree is not an absolute path")
    >> refuse_if (not (clean root == root)) (message "worktree is not a clean path")
    >> refuse_if (root == "/") (message "worktree must not be the filesystem root")
    >> ok root

-- What must hold of a joined path: it is clean, lies under the root, and leads back.
unfoldable pub contained : (root path absolute : String) → Result String
contained root path absolute =
    refuse_if (not (clean absolute == absolute) || not (has_prefix absolute (root ++ "/")))
      (message "path does not stay inside the worktree")
    >> rel root absolute
    >>= λ relative.
        refuse_if (not (relative == path)) (message "path does not resolve back") >> ok absolute

-- `boundedDestinationPath`
unfoldable pub bounded_destination_path : (root destination : String) → Result String
unfolding bounded_path_has_traversal contained
bounded_destination_path root destination =
    refuse_if (is_empty destination) (message "destination is empty")
    >> refuse_if (contains_rune destination nul) (message "destination must not contain NUL")
    >> refuse_if (is_abs destination) (message "destination must be relative to the repository")
    >> refuse_if (bounded_path_has_traversal destination)
        (message "destination must not contain ..")
    >> refuse_if (not (clean destination == destination))
        (message "destination must be a clean relative path")
    >> refuse_if (not (has_prefix destination (bounded_inputs_dir ++ "/")))
        (message "destination must name a file under the directory of the inputs")
    >> contained root destination (join_path root destination)

-- `validateRepositoryPath`
unfoldable pub validate_repository_path : String → Result String
unfolding bounded_path_has_traversal
validate_repository_path raw =
    refuse_if (is_empty raw) (message "git reported an empty path")
    >> refuse_if (contains_rune raw nul) (message "git reported a path containing NUL")
    >> refuse_if (is_abs raw) (message "git reported an absolute path")
    >> refuse_if (bounded_path_has_traversal raw) (message "git reported a path containing ..")
    >> refuse_if (not (clean raw == raw)) (message "git reported an unclean path")
    >> refuse_if (raw == ".git" || has_prefix raw ".git/")
        (message "git reported a path inside the repository metadata directory")
    >> ok raw

-- `boundedWorktreePath`
unfoldable pub bounded_worktree_path : (root path : String) → Result String
unfolding validate_repository_path contained
bounded_worktree_path root path =
    validate_repository_path path >>= λ _. contained root path (join_path root path)

-- A replacement of the placeholders at each position, the first that fits, from left to right. The
-- number counts the characters of a placeholder that are still to be left out.
replace_placeholders : (date year month : String) → ℕ → String → String
unfolding has_prefix
replace_placeholders date year month k String.[] = ""
replace_placeholders date year month (suc k) (String.◌∷◌ c s) =
    replace_placeholders date year month k s
replace_placeholders date year month zero (String.◌∷◌ c s) =
    let text = String.◌∷◌ c s in
    let is_date = has_prefix text "{date}" in
    let is_year = has_prefix text "{year}" in
    let is_month = has_prefix text "{month}" in
    let skip = if is_date || is_year then 5 else if is_month then 6 else 0 in
    let rest = replace_placeholders date year month skip s in
    if is_date
    then date ++ rest
    else if is_year
    then year ++ rest
    else if is_month
    then month ++ rest
    else String.◌∷◌ c rest

-- `expandBoundedSource`, with the formats of the local instant.
unfoldable pub expand_bounded_source : (source date year month : String) → Result String
unfolding replace_placeholders bounded_path_has_traversal
expand_bounded_source source date year month =
    let expanded = replace_placeholders date year month 0 source in
    refuse_if (contains_any expanded "{}") (message "source may only use {date}, {year}, {month}")
    >> refuse_if (contains_rune expanded nul) (message "source must not contain NUL")
    >> refuse_if (not (is_abs expanded)) (message "source is not an absolute path")
    >> refuse_if (bounded_path_has_traversal expanded) (message "source contains ..")
    >> refuse_if (not (clean expanded == expanded)) (message "source is not a clean path")
    >> ok expanded
