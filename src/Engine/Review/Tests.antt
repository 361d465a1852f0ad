-- ===== src/Engine/Review/Tests.antt =====
-- The bounded review on concrete paths.
use herdr_bots.Base.{
  ℕ, String, false, ◌≡◌, refl, List, [], ◌∷◌, All, ok, ◌>>=◌, refuse_if, filter_by,
}
use herdr_bots.Text.{
  join, has_prefix, has_suffix, trim_suffix, contains_any, contains_rune, split_on,
}
use herdr_bots.Text.Path.{clean, join_path, rel}
use herdr_bots.Config.Scope.{
  has_traversal_segment, validate_scope_entries, validate_scope_entry, validate_scope_path,
  validate_allowed_write_paths,
}
use herdr_bots.Config.Tests.{loaded_job}
use herdr_bots.Engine.Review.Scope.{bounded_write_allowed, bounded_check_write_scope}
use herdr_bots.Engine.Review.Paths.{
  validate_repository_path, bounded_destination_path, expand_bounded_source,
}
use herdr_bots.Engine.Review.Records.{is_two_path_status, parse_name_status_paths}
use herdr_bots.Engine.Review.Records.Print.{
  Change, changed, moved, fields_of, paths_of, IsPrinted, print_fields,
  parse_name_status_paths-print,
}
use herdr_bots.Engine.Review.Protected.{is_protected, write_scope_keeps_protected}

abbrev no_more : ℕ → String
no_more n = ", and more"

abbrev changed_paths : List String
changed_paths = "docs/a.md" ∷ "README.md" ∷ []

scope_passes : validate_allowed_write_paths (loaded_job.execution) ≡ ok tt
unfolding validate_allowed_write_paths ◌>>=◌ refuse_if validate_scope_entries validate_scope_entry
    contains_rune contains_any has_prefix validate_scope_path trim_suffix has_traversal_segment
    split_on clean has_suffix
scope_passes = refl

check_passes : bounded_check_write_scope no_more changed_paths ("docs/" ∷ "README.md" ∷ []) ≡ ok tt
unfolding bounded_check_write_scope filter_by bounded_write_allowed has_suffix has_prefix
check_passes = refl

changed_are_free : All (λ path. is_protected path ≡ false) changed_paths
changed_are_free =
    write_scope_keeps_protected no_more (loaded_job.execution) changed_paths scope_passes
      check_passes

abbrev renamed : List Change
renamed = changed "M" "docs/a.md" ∷ (moved "R100" "old.md" "new.md" ∷ [])

renamed-IsPrinted : All IsPrinted renamed
unfolding validate_repository_path is_two_path_status has_prefix contains_rune split_on clean ◌>>=◌
    refuse_if
renamed-IsPrinted = (((refl, refl, refl), refl), (((refl, refl, refl), refl, refl), tt))

renamed_is_read : parse_name_status_paths (print_fields (fields_of renamed)) ≡ ok (paths_of renamed)
renamed_is_read = parse_name_status_paths-print renamed renamed-IsPrinted

staged_at :
    bounded_destination_path "/work/r1" ".herdr-bots/inputs/day.md"
    ≡ ok "/work/r1/.herdr-bots/inputs/day.md"
unfolding bounded_destination_path ◌>>=◌ refuse_if contains_rune has_prefix split_on clean join_path
    rel join
staged_at = refl

source_of_day :
    expand_bounded_source "/data/{year}/{date}.md" "2026-03-04" "2026" "03"
    ≡ ok "/data/2026/2026-03-04.md"
unfolding expand_bounded_source ◌>>=◌ refuse_if contains_any split_on clean has_prefix contains_rune
source_of_day = refl
