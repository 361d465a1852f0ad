-- ===== src/Text.antt =====
-- What the program uses of Go's `strings` and `path/filepath`, by clauses: the tests and cuts of
-- texts, and `filepath.Clean`, `Join` and `Rel` as they are on Unix.
pub mod Prefix
pub mod Path
use Prim.Native.Char.{Char, code}
use Prim.Native.String.{String, ◌++◌, len}
use herdr_bots.Base.{ℕ, Bool, true, false, not, ◌&&◌, ◌||◌, ◌==◌, List, [], ◌∷◌, eqb, if◌then◌else◌}

abbrev pub slash : Char
slash = "/"

abbrev pub char_is : Char → Char → Bool
char_is c d = eqb (code c) (code d)

-- `strings.HasPrefix`
unfoldable pub has_prefix : String → String → Bool
has_prefix _ String.[] = true
has_prefix String.[] (String.◌∷◌ d t) = false
has_prefix (String.◌∷◌ c s) (String.◌∷◌ d t) = char_is c d && has_prefix s t

-- `strings.HasSuffix`
unfoldable pub has_suffix : String → String → Bool
has_suffix String.[] t = "" == t
has_suffix (String.◌∷◌ c s) t = String.◌∷◌ c s == t || has_suffix s t

-- `strings.TrimSuffix`
unfoldable pub trim_suffix : String → String → String
trim_suffix String.[] t = String.[]
trim_suffix (String.◌∷◌ c s) t =
    let rest = trim_suffix s t in if String.◌∷◌ c s == t then "" else String.◌∷◌ c rest

-- `strings.ContainsRune`
unfoldable pub contains_rune : String → Char → Bool
contains_rune String.[] d = false
contains_rune (String.◌∷◌ c s) d = char_is c d || contains_rune s d

-- `strings.ContainsAny`
unfoldable pub contains_any : String → String → Bool
unfolding contains_rune
contains_any String.[] chars = false
contains_any (String.◌∷◌ c s) chars = contains_rune chars c || contains_any s chars

-- `strings.Contains`
unfoldable pub contains : String → String → Bool
unfolding has_prefix
contains String.[] t = "" == t
contains (String.◌∷◌ c s) t = has_prefix (String.◌∷◌ c s) t || contains s t

unfoldable pub on_first : (String → String) → List String → List String
on_first f [] = f "" ∷ []
on_first f (x ∷ xs) = f x ∷ xs

-- `strings.Split` at one character: one field more than there are separators.
unfoldable pub split_on : Char → String → List String
unfolding on_first
split_on d String.[] = "" ∷ []
split_on d (String.◌∷◌ c s) =
    let rest = split_on d s in
    if char_is c d then "" ∷ rest else on_first (λ field. String.◌∷◌ c field) rest

-- `strings.Join`
unfoldable pub join : String → List String → String
join sep [] = ""
join sep (x ∷ []) = x
join sep (x ∷ (y ∷ ys)) = x ++ (sep ++ join sep (y ∷ ys))

unfoldable pub is_any_of : String → List String → Bool
is_any_of x [] = false
is_any_of x (y ∷ ys) = x == y || is_any_of x ys
