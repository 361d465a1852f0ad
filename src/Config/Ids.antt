-- ===== src/Config/Ids.antt =====
-- The names that the program accepts: `validID` and `ValidateEventID` of internal/config/config.go.
use Prim.Native.Char.{code}
use Prim.Native.String.{len}
use herdr_bots.Base.{
  ℕ, String, Bool, true, false, not, ◌&&◌, ◌||◌, is_empty, ltb, eqb, Result, message, refuse_if,
  if◌then◌else◌,
}
use herdr_bots.Text.{has_prefix, has_suffix, contains}

-- A lowercase ASCII letter, a digit or a hyphen.
abbrev pub is_id_code : ℕ → Bool
is_id_code c = not ((ltb c 97 || ltb 122 c) && (ltb c 48 || ltb 57 c) && not (eqb c 45))

unfoldable pub all_id_characters : String → Bool
all_id_characters String.[] = true
all_id_characters (String.◌∷◌ c s) =
    let rest = all_id_characters s in if is_id_code (code c) then rest else false

unfoldable pub valid_id : String → Bool
unfolding all_id_characters
valid_id id =
    if has_prefix id "-" || has_suffix id "-" || contains id "--"
    then false
    else if not (all_id_characters id)
    then false
    else not (is_empty id)

unfoldable pub validate_event_id : String → Result (Unit {0})
unfolding valid_id
validate_event_id id =
    refuse_if (ltb (len id) 1 || ltb 128 (len id) || not (valid_id id))
      (message "event id must be 1-128 lowercase letters or digits separated by single hyphens")
