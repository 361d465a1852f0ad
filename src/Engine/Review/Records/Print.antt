-- ===== src/Engine/Review/Records/Print.antt =====
-- Records as git prints them, and what the bounded review reads back.
use Prim.Native.Char.{Char, nul}
use Prim.Native.String.{◌++◌}
use Prim.Native.String.append
use text.Mathlib.TextLemmas.{append_assoc}
use herdr_bots.Base.{
  String, Bool, true, false, not, ◌==◌, is_empty, ◌≡◌, refl, sym, ap, ◌∙◌, List, [], ◌∷◌, ok,
  refuse_if, ◌>>=◌, All, arith, eq_iff, eq_refl, Bool-cases, inl, inr,
}
use herdr_bots.Text.{split_on, on_first, has_suffix, trim_suffix, contains_rune, char_is}
use herdr_bots.Engine.Review.Paths.{validate_repository_path}
use herdr_bots.Engine.Review.Records.{
  split_nul_fields, is_two_path_status, parse_records, parse_name_status_paths, with_path,
}

abbrev is_plain : String → Bool
is_plain s = not (contains_rune s nul)

not_nul : (c : Char) (s : String) → is_plain (String.◌∷◌ c s) ≡ true → char_is c nul ≡ false
unfolding contains_rune
not_nul c s h = ground (arith, h)

-- A field without the separator stands before the fields of the rest.
split_on-cons :
    (s t : String) → is_plain s ≡ true → split_on nul (s ++ ("\0" ++ t)) ≡ (s ∷ split_on nul t)
unfolding split_on contains_rune on_first
split_on-cons String.[] t h = rw (append.nil ("\0" ++ t), append.cons nul "" t, append.nil t)
split_on-cons (String.◌∷◌ c s) t h =
    rw (append.cons c s ("\0" ++ t), not_nul c s h, split_on-cons s t (ground (arith, h)))

split_on-plain : (s : String) → is_plain s ≡ true → split_on nul s ≡ (s ∷ [])
unfolding split_on contains_rune on_first
split_on-plain String.[] h = refl
split_on-plain (String.◌∷◌ c s) h = rw (not_nul c s h, split_on-plain s (ground (arith, h)))

-- A text, and a last character of another kind than its own, take the suffix back off.
has_suffix-append : (s t : String) → has_suffix (s ++ t) t ≡ true
unfolding has_suffix
has_suffix-append String.[] String.[] = refl
has_suffix-append String.[] (String.◌∷◌ c t) =
    ground (arith, append.nil (String.◌∷◌ c t), eq_refl (String.◌∷◌ c t))
has_suffix-append (String.◌∷◌ c s) t = ground (arith, append.cons c s t, has_suffix-append s t)

ended_not_empty : (s : String) → s ++ "\0" ≡ "" → ⊥
ended_not_empty String.[] h = cc
ended_not_empty (String.◌∷◌ c s) h = cc (append.cons c s "\0", h)

tail_of_path : {c d : Char} {s t : String} → String.◌∷◌ c s ≡ String.◌∷◌ d t → s ≡ t
tail_of_path h = cc

longer_than_nul : (c : Char) (s : String) → (String.◌∷◌ c (s ++ "\0") == "\0") ≡ false
longer_than_nul c s = elim (Bool-cases (String.◌∷◌ c (s ++ "\0") == "\0")) [
  | inr k ↦ k
  | inl k ↦ absurd (
      ended_not_empty s (
        tail_of_path {c = c} {d = nul} {s = s ++ "\0"} {t = ""}
          ((eq_iff (String.◌∷◌ c (s ++ "\0")) "\0").0 k)))
]

trim_suffix_nul : (s : String) → trim_suffix (s ++ "\0") "\0" ≡ s
unfolding trim_suffix
trim_suffix_nul String.[] = refl
trim_suffix_nul (String.◌∷◌ c s) = rw (append.cons c s "\0", longer_than_nul c s, trim_suffix_nul s)

-- Each field with its NUL.
unfoldable pub print_fields : List String → String
print_fields [] = ""
print_fields (field ∷ fields) = field ++ ("\0" ++ print_fields fields)

print_but_last : String → List String → String
print_but_last field [] = field
print_but_last field (next ∷ fields) = field ++ ("\0" ++ print_but_last next fields)

print_fields-last :
    (field : String) (fields : List String)
    → print_fields (field ∷ fields) ≡ print_but_last field fields ++ "\0"
unfolding print_fields print_but_last
print_fields-last field [] = refl
print_fields-last field (next ∷ fields) =
    ap (λ rest. field ++ ("\0" ++ rest)) (print_fields-last next fields)
    ∙ (ap (λ rest. field ++ rest) (sym (append_assoc "\0" (print_but_last next fields) "\0"))
        ∙ sym (append_assoc field ("\0" ++ print_but_last next fields) "\0"))

split_but_last :
    (field : String) (fields : List String)
    → All (λ f. is_plain f ≡ true) (field ∷ fields)
    → split_on nul (print_but_last field fields) ≡ (field ∷ fields)
unfolding print_but_last
split_but_last field [] (h, _) = split_on-plain field h
split_but_last field (next ∷ fields) (h, hs) =
    split_on-cons field (print_but_last next fields) h
    ∙ ap (λ fs. field ∷ fs) (split_but_last next fields hs)

ended_is_empty : (s : String) → is_empty (s ++ "\0") ≡ false
ended_is_empty s = elim (Bool-cases (is_empty (s ++ "\0"))) [
  | inr k ↦ k
  | inl k ↦ absurd (ended_not_empty s ((eq_iff (s ++ "\0") "").0 k))
]

split_nul_fields-ended : (s : String) → split_nul_fields (s ++ "\0") ≡ ok (split_on nul s)
unfolding split_nul_fields ◌>>=◌ refuse_if
split_nul_fields-ended s = rw (ended_is_empty s, has_suffix-append s "\0", trim_suffix_nul s)

-- Fields that hold no NUL are read back from what git prints of them.
split_nul_fields-print_fields :
    (fields : List String)
    → All (λ f. is_plain f ≡ true) fields
    → split_nul_fields (print_fields fields) ≡ ok fields
unfolding split_nul_fields print_fields ◌>>=◌ refuse_if
split_nul_fields-print_fields [] h = refl
split_nul_fields-print_fields (field ∷ fields) h =
    ap split_nul_fields (print_fields-last field fields)
    ∙ (split_nul_fields-ended (print_but_last field fields)
        ∙ ap (λ fs. ok fs) (split_but_last field fields h))

-- A record of one changed path, or of a rename or copy with its two.
pub data Change : Type 0 where
  changed : (status path : String) → Change
  moved : (status from to : String) → Change

unfoldable pub fields_of : List Change → List String
fields_of [] = []
fields_of (changed status path ∷ changes) = status ∷ (path ∷ fields_of changes)
fields_of (moved status from to ∷ changes) = status ∷ (from ∷ (to ∷ fields_of changes))

unfoldable pub paths_of : List Change → List String
paths_of [] = []
paths_of (changed status path ∷ changes) = path ∷ paths_of changes
paths_of (moved status from to ∷ changes) = from ∷ (to ∷ paths_of changes)

-- A status of letters, and paths that the review accepts.
abbrev pub IsStatus : (two : Bool) → String → Type 0
IsStatus two status =
    (is_empty status ≡ false) × (is_two_path_status status ≡ two) × (is_plain status ≡ true)

abbrev pub IsPrinted : Change → Type 0
IsPrinted (changed status path) = IsStatus false status × (validate_repository_path path ≡ ok path)
IsPrinted (moved status from to) =
    IsStatus true status
    × (validate_repository_path from ≡ ok from)
    × (validate_repository_path to ≡ ok to)

valid-plain : (path : String) → validate_repository_path path ≡ ok path → is_plain path ≡ true
unfolding validate_repository_path ◌>>=◌ refuse_if
valid-plain path h = ground arith

parse_one :
    (status path : String) (fields paths : List String)
    → IsStatus false status
    → validate_repository_path path ≡ ok path
    → parse_records fields ≡ ok paths
    → parse_records (status ∷ (path ∷ fields)) ≡ ok (path ∷ paths)
unfolding parse_records with_path ◌>>=◌
parse_one status path [] paths (a, b, c) v h = rw (a, b, v) (ap (λ r. r >>= λ ps. ok (path ∷ ps)) h)
parse_one status path (second ∷ fields) paths (a, b, c) v h = rw (a, b, v, h)

parse_records-fields_of :
    (changes : List Change)
    → All IsPrinted changes
    → parse_records (fields_of changes) ≡ ok (paths_of changes)
unfolding parse_records fields_of paths_of with_path ◌>>=◌
parse_records-fields_of [] h = refl
parse_records-fields_of (changed status path ∷ changes) ((s, v), hs) =
    parse_one status path (fields_of changes) (paths_of changes) s v
      (parse_records-fields_of changes hs)
parse_records-fields_of (moved status from to ∷ changes) (((a, b, c), v, w), hs) =
    rw (a, b, v, w, parse_records-fields_of changes hs)

fields_of-plain :
    (changes : List Change)
    → All IsPrinted changes
    → All (λ f. is_plain f ≡ true) (fields_of changes)
unfolding fields_of
fields_of-plain [] h = tt
fields_of-plain (changed status path ∷ changes) (((a, b, c), v), hs) =
    (c, (valid-plain path v, fields_of-plain changes hs))
fields_of-plain (moved status from to ∷ changes) (((a, b, c), v, w), hs) =
    (c, (valid-plain from v, (valid-plain to w, fields_of-plain changes hs)))

-- The review reads every changed path from the records that git prints, in their order, both paths
-- of a rename or a copy among them, if the statuses are letters and the paths are ones it accepts.
pub parse_name_status_paths-print :
    (changes : List Change)
    → All IsPrinted changes
    → parse_name_status_paths (print_fields (fields_of changes)) ≡ ok (paths_of changes)
unfolding parse_name_status_paths ◌>>=◌
parse_name_status_paths-print changes h =
    ap (λ fields. fields >>= parse_records)
      (split_nul_fields-print_fields (fields_of changes) (fields_of-plain changes h))
    ∙ parse_records-fields_of changes h
