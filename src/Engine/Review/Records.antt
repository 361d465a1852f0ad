-- ===== src/Engine/Review/Records.antt =====
-- The records that git prints between NUL characters: `splitNULFields` and `parseNameStatusPaths`
-- of internal/engine/bounded_review.go.
pub mod Print
use Prim.Native.Char.{Char, code, nul}
use Prim.Native.String.{◌++◌}
use herdr_bots.Base.{
  ℕ, zero, suc, String, Bool, true, false, not, ◌||◌, ◌&&◌, ◌==◌, is_empty, eqb, List, [], ◌∷◌,
  Result, ok, err, message, refuse_if, ◌>>=◌, ◌>>◌, if◌then◌else◌, Option, none, some,
}
use herdr_bots.Text.{split_on, has_suffix, trim_suffix}
use herdr_bots.Engine.Review.Paths.{validate_repository_path}

-- `splitNULFields`: every field ends in NUL.
unfoldable pub split_nul_fields : String → Result (List String)
split_nul_fields output =
    if is_empty output
    then ok []
    else refuse_if (not (has_suffix output "\0")) (message "output is not NUL terminated")
      >> ok (split_on nul (trim_suffix output "\0"))

-- A rename or copy record has two paths.
unfoldable pub is_two_path_status : String → Bool
is_two_path_status String.[] = false
is_two_path_status (String.◌∷◌ c s) = eqb (code c) 82 || eqb (code c) 67

with_path : String → Result (List String) → Result (List String)
with_path field rest =
    validate_repository_path field >>= λ path. rest >>= λ paths. ok (path ∷ paths)

-- The loop over the fields.
unfoldable pub parse_records : List String → Result (List String)
unfolding is_two_path_status validate_repository_path with_path
parse_records [] = ok []
parse_records (status ∷ []) =
    if is_empty status
    then err (message "diff record has an empty status field")
    else err (message "diff record is missing its path fields")
parse_records (status ∷ (field ∷ [])) =
    if is_empty status
    then err (message "diff record has an empty status field")
    else if is_two_path_status status
    then err (message "diff record is missing its path fields")
    else with_path field (ok [])
parse_records (status ∷ (field ∷ (second ∷ fields))) =
    if is_empty status
    then err (message "diff record has an empty status field")
    else elim (is_two_path_status status) [
      | false ↦ with_path field (parse_records (second ∷ fields))
      | true ↦ with_path field (with_path second (parse_records fields))
    ]

-- `parseNameStatusPaths`
unfoldable pub parse_name_status_paths : String → Result (List String)
unfolding split_nul_fields parse_records
parse_name_status_paths output = split_nul_fields output >>= parse_records
