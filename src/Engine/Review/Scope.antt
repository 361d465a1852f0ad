-- ===== src/Engine/Review/Scope.antt =====
-- The write scope that the engine enforces on the changed paths of a run, and the reserved paths:
-- internal/engine/bounded_review.go.
use Prim.Native.String.{◌++◌, compare}
use Prim.Native.Nat.{Ordering, ◌-◌}
use herdr_bots.Base.{
  ℕ, zero, suc, String, Bool, true, false, not, ◌||◌, List, [], ◌∷◌, ◌==◌, leb, length, Result, ok,
  err, message, if◌then◌else◌, filter_by,
}
use herdr_bots.Text.{has_prefix, has_suffix, join}
use herdr_bots.Config.Scope.{bounded_inputs_dir}

abbrev pub bounded_inputs_root : String
bounded_inputs_root = ".herdr-bots"

-- An entry that ends in a slash is a directory prefix, any other entry is one path.
unfoldable pub bounded_write_allowed : String → List String → Bool
bounded_write_allowed path [] = false
bounded_write_allowed path (entry ∷ entries) =
    let rest = bounded_write_allowed path entries in
    if has_suffix entry "/"
    then (if has_prefix path entry then true else rest)
    else if path == entry
    then true
    else rest

string_le : String → String → Bool
string_le a b = elim (compare a b) [ Ordering.gt ↦ false | _ ↦ true ]

insert_string : String → List String → List String
unfolding string_le
insert_string x [] = x ∷ []
insert_string x (y ∷ ys) =
    let rest = insert_string x ys in if string_le x y then x ∷ (y ∷ ys) else y ∷ rest

-- `sort.Strings`
unfoldable pub sort_strings : List String → List String
unfolding insert_string
sort_strings [] = []
sort_strings (x ∷ xs) = insert_string x (sort_strings xs)

unfoldable pub take_first : ℕ → List String → List String
take_first zero xs = []
take_first (suc n) [] = []
take_first (suc n) (x ∷ xs) = x ∷ take_first n xs

-- The first 20 paths in order, and the number of the others in `and_more`'s words.
unfoldable pub format_offending_paths : (and_more : ℕ → String) → List String → String
unfolding sort_strings take_first
format_offending_paths and_more offending =
    let sorted = sort_strings offending in
    if leb (length sorted) 20
    then join ", " sorted
    else join ", " (take_first 20 sorted) ++ and_more (length sorted - 20)

unfoldable pub bounded_check_write_scope :
    (and_more : ℕ → String) → (changed allowed : List String) → Result (Unit {0})
unfolding format_offending_paths
bounded_check_write_scope and_more changed allowed =
    elim (filter_by (λ path. not (bounded_write_allowed path allowed)) changed) [
      | [] ↦ ok tt
      | path ∷ paths ↦ err (
          message
            ("paths outside the write scope: " ++ format_offending_paths and_more (path ∷ paths)))
    ]

unfoldable pub bounded_is_reserved_path : String → Bool
bounded_is_reserved_path path =
    path == bounded_inputs_dir || has_prefix path (bounded_inputs_dir ++ "/")

unfoldable pub bounded_is_reserved_dir : String → Bool
unfolding bounded_is_reserved_path
bounded_is_reserved_dir dir = dir == bounded_inputs_root || bounded_is_reserved_path dir
