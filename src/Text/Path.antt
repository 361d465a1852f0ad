-- ===== src/Text/Path.antt =====
-- `path/filepath` on Unix: `IsAbs`, `Clean`, `Join` and `Rel`, field by field of the path.
use Prim.Native.String.{◌++◌ as str_append}
use herdr_bots.Base.{
  String, Bool, not, ◌||◌, ◌==◌, is_empty, List, [], ◌∷◌, if◌then◌else◌, Result, ok, err, message,
}
use herdr_bots.Text.{has_prefix, split_on, join, slash}

-- `filepath.IsAbs`
abbrev pub is_abs : String → Bool
is_abs path = has_prefix path "/"

-- The fields kept so far, the last one first; `..` takes back a field, and goes above a relative
-- path but not above the root.
unfoldable pub clean_field : Bool → String → List String → List String
clean_field rooted field kept =
    if is_empty field || field == "."
    then kept
    else if not (field == "..")
    then field ∷ kept
    else elim kept [
      | [] ↦ if rooted then [] else ".." ∷ []
      | last ∷ rest ↦ if last == ".." then ".." ∷ (last ∷ rest) else rest
    ]

unfoldable pub clean_fields : Bool → List String → List String → List String
unfolding clean_field
clean_fields rooted [] kept = kept
clean_fields rooted (field ∷ fields) kept =
    clean_fields rooted fields (clean_field rooted field kept)

-- The fields in order from the reversed list, joined.
unfoldable pub join_reversed : List String → String → String
join_reversed [] path = path
join_reversed (field ∷ kept) path =
    join_reversed kept (if is_empty path then field else str_append field (str_append "/" path))

-- `filepath.Clean`
unfoldable pub clean : String → String
unfolding clean_fields join_reversed
clean path =
    let rooted = is_abs path in
    let cleaned = join_reversed (clean_fields rooted (split_on slash path) []) "" in
    if rooted then str_append "/" cleaned else if is_empty cleaned then "." else cleaned

-- `filepath.Join` of two texts, of which an empty one is left out.
unfoldable pub join_path : String → String → String
unfolding clean
join_path a b =
    if is_empty a
    then (if is_empty b then "" else clean b)
    else if is_empty b
    then clean a
    else clean (str_append a (str_append "/" b))

rel_fields : String → List String
rel_fields path = if is_empty path then [] else if path == "/" then "" ∷ [] else split_on slash path

-- One `..` for each field that is left of the base.
ups : List String → List String → List String
ups [] target = target
ups (b ∷ bs) target = ".." ∷ ups bs target

-- What is left of the two paths behind their common fields.
rel_from : List String → List String → Result String
unfolding ups
rel_from [] target = ok (join "/" target)
rel_from (b ∷ bs) [] =
    if b == ".." then err (message "cannot make relative") else ok (join "/" (ups (b ∷ bs) []))
rel_from (b ∷ bs) (t ∷ ts) =
    if b == t
    then rel_from bs ts
    else if b == ".."
    then err (message "cannot make relative")
    else ok (join "/" (ups (b ∷ bs) (t ∷ ts)))

-- `filepath.Rel`
unfoldable pub rel : String → String → Result String
unfolding rel_fields rel_from clean
rel base target =
    let b = clean base in
    let t = clean target in
    let from = if b == "." then "" else b in
    if t == b
    then ok "."
    else if (if is_abs from then not (is_abs t) else is_abs t)
    then err (message "cannot make relative")
    else rel_from (rel_fields from) (rel_fields t)
