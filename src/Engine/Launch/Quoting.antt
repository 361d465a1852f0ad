-- ===== src/Engine/Launch/Quoting.antt =====
-- The quoting of a shell's words: `shellQuote` of internal/engine/engine.go, against the reading of
-- quotes and backslashes that POSIX prescribes for the shell.
use Prim.Native.Char.{Char, code}
use Prim.Native.String.{◌++◌}
use Prim.Native.String.append
use herdr_bots.Base.{
  ℕ, String, Bool, true, false, eqb, ◌≡◌, refl, sym, ap, ◌∙◌, Option, none, some, if◌then◌else◌,
  Bool-cases, inl, inr,
}
use herdr_bots.Text.{char_is, has_prefix}
use herdr_bots.Text.Prefix.{char_is-eq}
use herdr_bots.Config.Inputs.{replace_all, replace_from}
use herdr_bots.Engine.Launch.{shell_quote}

-- Outside quotes, within single quotes, and behind a backslash.
pub data Mode : Type 0 where
  unquoted quoted escaped : Mode

-- The mode after a character, and whether the character is part of the word; `none` where the shell
-- would read a character that nothing protects.
step : Mode → ℕ → Option (Mode × Bool)
step unquoted c =
    if eqb c 39 then some (quoted, false) else if eqb c 92 then some (escaped, false) else none
step quoted c = if eqb c 39 then some (unquoted, false) else some (quoted, true)
step escaped c = some (unquoted, true)

keep : Bool → Char → Option String → Option String
keep b c none = none
keep b c (some s) = some (if b then String.◌∷◌ c s else s)

-- The word that a shell reads from a text, all of it.
pub read_word : Mode → String → Option String
read_word unquoted String.[] = some ""
read_word quoted String.[] = none
read_word escaped String.[] = none
read_word mode (String.◌∷◌ c s) = elim (step mode (code c)) [
  | none ↦ none
  | some next ↦ keep next.1 c (read_word next.0 s)
]

abbrev pub shell_word : String → Option String
shell_word = read_word unquoted

-- The escaped quote, character by character.
escape_quote :
    (rest : String)
    → ("'\\''" ++ rest) ++ "'"
      ≡ String.◌∷◌ "'" (String.◌∷◌ "\\" (String.◌∷◌ "'" (String.◌∷◌ "'" (rest ++ "'"))))
escape_quote rest = rw (
  append.cons "'" "\\''" rest,
  append.cons "\\" "''" rest,
  append.cons "'" "'" rest,
  append.cons "'" "" rest,
  append.nil rest,
  append.cons "'" (String.◌∷◌ "\\" (String.◌∷◌ "'" (String.◌∷◌ "'" rest))) "'",
  append.cons "\\" (String.◌∷◌ "'" (String.◌∷◌ "'" rest)) "'",
  append.cons "'" (String.◌∷◌ "'" rest) "'",
  append.cons "'" rest "'",
)

reads_kept :
    (c : Char) (t : String)
    → char_is c "'" ≡ false
    → read_word quoted (String.◌∷◌ c t) ≡ keep true c (read_word quoted t)
unfolding read_word step
reads_kept c t k =
    ap
      (λ b.
        elim (if◌then◌else◌ {A = Option (Mode × Bool)} b (some (unquoted, false))
            (some (quoted, true)))
          as (λ o. Option String) [ none ↦ none | some next ↦ keep next.1 c (read_word next.0 t) ])
      k

-- Within the quotes that `shell_quote` opens.
quoted_reads : (s : String) → read_word quoted (replace_from "'" "'\\''" 0 s ++ "'") ≡ some s
unfolding read_word step keep replace_from has_prefix
quoted_reads String.[] = refl
quoted_reads (String.◌∷◌ c s) = elim (Bool-cases (char_is c "'")) [
  | inl k ↦
      rw (k, escape_quote (replace_from "'" "'\\''" 0 s), quoted_reads s)
        (ap (λ x. some (String.◌∷◌ x s)) (sym (char_is-eq c "'" k)))
  | inr k ↦
      rw (k, append.cons c (replace_from "'" "'\\''" 0 s) "'")
        (reads_kept c _ k ∙ ap (keep true c) (quoted_reads s))
]

-- A shell reads back each text from its quoted form, as one word.
pub shell_word-shell_quote : (s : String) → shell_word (shell_quote s) ≡ some s
unfolding shell_quote replace_all read_word step keep
shell_word-shell_quote s =
    rw (append.cons "'" "" (replace_all s "'" "'\\''" ++ "'"))
      (rw (append.nil (replace_all s "'" "'\\''" ++ "'"), quoted_reads s))
