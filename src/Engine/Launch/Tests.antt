-- ===== src/Engine/Launch/Tests.antt =====
-- Quoting and naming on concrete texts.
use Prim.Native.Char.{Char}
use herdr_bots.Base.{◌≡◌, refl, some, [], ◌∷◌}
use herdr_bots.Text.{join}
use herdr_bots.Engine.Launch.{shell_quote, command_line, completion_marker, agent_name, truncate}
use herdr_bots.Engine.Launch.Quoting.{shell_word, shell_word-shell_quote}
use herdr_bots.Engine.Launch.Names.{IsAgentName, agent_name-IsAgentName}

abbrev as_is : Char → Char
as_is c = c

quoted : shell_quote "it's" ≡ "'it'\\''s'"
unfolding shell_quote
quoted = refl

quoted_word : shell_word (shell_quote "it's") ≡ some "it's"
quoted_word = shell_word-shell_quote "it's"

command :
    command_line "pi" ("--model" ∷ []) "/tmp/p.md" "DONE"
    ≡ "'pi' -p '--model' < '/tmp/p.md'; status=$?; printf '\\nDONE:%d\\n' \"$status\""
unfolding command_line join
command = refl

marked : completion_marker as_is "RUN-1" ≡ "HERDR_BOTS_RUN_RUN_1"
unfolding completion_marker
marked = refl

named : agent_name as_is "20260102-nightly" ≡ "a-20260102-nightly"
unfolding agent_name
named = refl

cut : truncate "abcdef" 3 ≡ "abc..."
unfolding truncate
cut = refl

named-IsAgentName : IsAgentName (agent_name as_is "20260102-nightly")
named-IsAgentName = agent_name-IsAgentName as_is "20260102-nightly"
