-- ===== src/Config/Inputs.antt =====
-- The staged inputs of a job: `expandInputSamples` and `validateInputs` of internal/config/config.go.
use Prim.Native.Char.{nul}
use Prim.Native.String.{◌++◌, count}
use Prim.Native.Nat.{◌-◌}
use herdr_bots.Base.{
  ℕ, zero, suc, String, not, ◌==◌, is_empty, leb, List, [], ◌∷◌, length, Option, none, some, Result,
  ok, err, message, refuse_if, ◌>>◌, if◌then◌else◌,
}
use herdr_bots.Text.{has_prefix, contains_rune, contains_any, is_any_of}
use herdr_bots.Text.Path.{is_abs, clean}
use herdr_bots.Config.{InputSnapshot, Execution}
use herdr_bots.Config.Scope.{bounded_inputs_dir, has_traversal_segment}

-- `strings.ReplaceAll` with a text that is not empty: the matches from left to right, none of
-- which overlap. The number counts the characters of a match that are still to be left out.
unfoldable pub replace_from : (old new : String) → ℕ → String → String
unfolding has_prefix
replace_from old new k String.[] = ""
replace_from old new (suc k) (String.◌∷◌ c s) = replace_from old new k s
replace_from old new zero (String.◌∷◌ c s) =
    let found = has_prefix (String.◌∷◌ c s) old in
    let rest = replace_from old new (if found then count old - 1 else 0) s in
    if found then new ++ rest else String.◌∷◌ c rest

unfoldable pub replace_all : String → (old new : String) → String
unfolding replace_from
replace_all s old new = replace_from old new 0 s

-- The samples hold no brace and no letter, so the order of the three does not matter.
unfoldable pub expand_input_samples : String → Option String
unfolding replace_all
expand_input_samples source =
    let expanded =
      replace_all (replace_all (replace_all source "{date}" "2026-01-02") "{year}" "2026") "{month}"
        "01" in
    if contains_any expanded "{}" then none else some expanded

unfoldable pub validate_expanded : Option String → Result (Unit {0})
validate_expanded none =
    err (message "source may only use the placeholders {date}, {year}, {month}")
validate_expanded (some expanded) =
    refuse_if (not (is_abs expanded)) (message "source must be an absolute path")
    >> refuse_if (has_traversal_segment expanded) (message "source must not contain ..")

unfoldable pub validate_source : String → Result (Unit {0})
unfolding expand_input_samples validate_expanded
validate_source source =
    refuse_if (is_empty source) (message "source must not be empty")
    >> refuse_if (contains_rune source nul) (message "source must not contain NUL")
    >> validate_expanded (expand_input_samples source)

unfoldable pub validate_destination : String → Result (Unit {0})
validate_destination destination =
    refuse_if (is_empty destination) (message "destination must not be empty")
    >> refuse_if (contains_rune destination nul) (message "destination must not contain NUL")
    >> refuse_if (contains_any destination "{}") (message "destination must not use placeholders")
    >> refuse_if (is_abs destination) (message "destination must be relative to the repository")
    >> refuse_if (has_traversal_segment destination) (message "destination must not contain ..")
    >> refuse_if (not (clean destination == destination))
        (message "destination must be a clean relative path")
    >> refuse_if (destination == bounded_inputs_dir)
        (message "destination must name a path under the directory of the inputs")
    >> refuse_if (not (has_prefix destination (bounded_inputs_dir ++ "/")))
        (message "destination must be under the directory of the inputs")

-- The loop, with the sources and the destinations seen so far.
unfoldable pub validate_input_list :
    (inputs : List InputSnapshot) (sources destinations : List String) → Result (Unit {0})
unfolding validate_source validate_destination
validate_input_list [] sources destinations = ok tt
validate_input_list (input ∷ inputs) sources destinations =
    validate_source input.source
    >> validate_destination input.destination
    >> refuse_if (is_any_of input.source sources) (message "inputs has duplicate source")
    >> refuse_if (is_any_of input.destination destinations)
        (message "inputs has duplicate destination")
    >> validate_input_list inputs (input.source ∷ sources) (input.destination ∷ destinations)

unfoldable pub validate_inputs : Execution → Result (Unit {0})
unfolding validate_input_list
validate_inputs e =
    refuse_if (not (leb (length e.inputs) 32)) (message "inputs allows at most 32 entries")
    >> validate_input_list e.inputs [] []
