-- ===== src/Engine/Launch/Names.antt =====
-- What the names of a run are made of: `agentName` of
-- internal/engine/engine.go.
use Prim.Native.Char.{Char, code}
use Prim.Native.String.{◌++◌, count}
use Prim.Native.String.append
use Prim.Native.Nat.{◌-◌}
use text.Mathlib.TextLemmas.{length-cons}
use herdr_bots.Base.{
  ℕ, zero, suc, ◌≤◌, String, Bool, true, false, not, ◌&&◌, ◌||◌, is_empty, ltb, ◌≡◌, refl,
  Bool-cases, inl, inr, arith, if◌then◌else◌,
}
use herdr_bots.Engine.Launch.{
  name_code, name_characters, is_dash, trim_dashes_left, trim_dashes_right, drop_first,
  starts_with_letter, last_30, shorten_name, finish_name, agent_name,
}

-- Every character passes a test of its code.
unfoldable pub all_codes : (ℕ → Bool) → String → Bool
all_codes p String.[] = true
all_codes p (String.◌∷◌ c s) = p (code c) && all_codes p s

abbrev is_name : String → Bool
is_name = all_codes name_code

all_codes-if :
    (p : ℕ → Bool) (b : Bool) (s t : String)
    → all_codes p s ≡ true
    → all_codes p t ≡ true
    → all_codes p (if b then s else t) ≡ true
all_codes-if p true s t h k = h
all_codes-if p false s t h k = k

count-if :
    (n : ℕ) (b : Bool) (s t : String) → count s ≤ n → count t ≤ n → count (if b then s else t) ≤ n
count-if n true s t h k = h
count-if n false s t h k = k

name_characters-all :
    (to_lower : Char → Char) (s : String) → is_name (name_characters to_lower s) ≡ true
unfolding all_codes name_characters
name_characters-all to_lower String.[] = refl
name_characters-all to_lower (String.◌∷◌ c s) = ground (arith, name_characters-all to_lower s)

trim_dashes_right-all : (s : String) → is_name s ≡ true → is_name (trim_dashes_right s) ≡ true
unfolding all_codes trim_dashes_right
trim_dashes_right-all String.[] h = refl
trim_dashes_right-all (String.◌∷◌ c s) h =
    let all = trim_dashes_right-all s (ground (arith, h)) in
    all_codes-if name_code (is_dash c && is_empty (trim_dashes_right s)) ""
      (String.◌∷◌ c (trim_dashes_right s)) refl (ground (arith, h, all))

trim_dashes_left-all : (s : String) → is_name s ≡ true → is_name (trim_dashes_left s) ≡ true
unfolding all_codes trim_dashes_left
trim_dashes_left-all String.[] h = refl
trim_dashes_left-all (String.◌∷◌ c s) h =
    all_codes-if name_code (is_dash c) (trim_dashes_left s) (String.◌∷◌ c s)
      (trim_dashes_left-all s (ground (arith, h))) h

drop_first-all : (n : ℕ) (s : String) → is_name s ≡ true → is_name (drop_first n s) ≡ true
unfolding all_codes drop_first
drop_first-all zero s h = h
drop_first-all (suc n) String.[] h = refl
drop_first-all (suc n) (String.◌∷◌ c s) h = drop_first-all n s (ground (arith, h))

trim_dashes_left-count : (s : String) → count (trim_dashes_left s) ≤ count s
unfolding trim_dashes_left
trim_dashes_left-count String.[] = ground arith
trim_dashes_left-count (String.◌∷◌ c s) =
    count-if (count (String.◌∷◌ c s)) (is_dash c) (trim_dashes_left s) (String.◌∷◌ c s)
      (ground (arith, trim_dashes_left-count s, length-cons c s)) (ground arith)

drop_first-count : (n : ℕ) (s : String) → count (drop_first n s) ≤ count s - n
unfolding drop_first
drop_first-count zero s = ground arith
drop_first-count (suc n) String.[] = ground arith
drop_first-count (suc n) (String.◌∷◌ c s) = ground (arith, drop_first-count n s, length-cons c s)

last_30-count : (out : String) → count (last_30 out) ≤ 30
last_30-count out = elim (Bool-cases (ltb 30 (count out))) [
  | inl k ↦ rw k (ground (arith, k, drop_first-count (count out - 30) out))
  | inr k ↦ rw k (ground (arith, k))
]

-- The last characters of a name, without the dashes at their front.
tail_of : String → String
tail_of out = trim_dashes_left (last_30 out)

tail_of-count : (out : String) → count (tail_of out) ≤ 30
unfolding tail_of
tail_of-count out = ground (arith, trim_dashes_left-count (last_30 out), last_30-count out)

tail_of-all : (out : String) → is_name out ≡ true → is_name (tail_of out) ≡ true
unfolding tail_of
tail_of-all out h =
    trim_dashes_left-all (last_30 out)
      (all_codes-if name_code (ltb 30 (count out)) _ _ (drop_first-all (count out - 30) out h) h)

-- A name of at most 32 letters, digits, hyphens and underscores, a letter first.
pub record IsAgentName (name : String) : Type 0 where
  pub bounded : count name ≤ 32
  pub plain : is_name name ≡ true
  pub lettered : starts_with_letter name ≡ true

if-IsAgentName :
    (b : Bool) (s t : String)
    → (b ≡ true → IsAgentName s)
    → (b ≡ false → IsAgentName t)
    → IsAgentName (if b then s else t)
if-IsAgentName true s t h k = h refl
if-IsAgentName false s t h k = k refl

automation-IsAgentName : IsAgentName "automation"
unfolding all_codes starts_with_letter
automation-IsAgentName = record { bounded = ground arith; plain = refl; lettered = refl }

prefixed : (tail : String) → "a-" ++ tail ≡ String.◌∷◌ "a" (String.◌∷◌ "-" tail)
prefixed tail = rw (append.cons "a" "-" tail, append.cons "-" "" tail, append.nil tail)

prefixed-IsAgentName :
    (tail : String) → count tail ≤ 30 → is_name tail ≡ true → IsAgentName ("a-" ++ tail)
unfolding all_codes starts_with_letter
prefixed-IsAgentName tail h k = record {
  bounded =
      rw (prefixed tail)
        (ground (arith, h, length-cons "a" (String.◌∷◌ "-" tail), length-cons "-" tail));
  plain = rw (prefixed tail) k;
  lettered = rw (prefixed tail);
}

shorten_name-IsAgentName : (out : String) → is_name out ≡ true → IsAgentName (shorten_name out)
unfolding shorten_name tail_of
shorten_name-IsAgentName out h =
    if-IsAgentName (is_empty (tail_of out)) "automation" ("a-" ++ tail_of out)
      (λ _. automation-IsAgentName)
      (λ _. prefixed-IsAgentName (tail_of out) (tail_of-count out) (tail_of-all out h))

finish_name-IsAgentName : (out : String) → is_name out ≡ true → IsAgentName (finish_name out)
unfolding finish_name
finish_name-IsAgentName out h =
    if-IsAgentName (is_empty out) _ _ (λ _. automation-IsAgentName)
      (λ _.
        if-IsAgentName (not (starts_with_letter out) || ltb 32 (count out)) (shorten_name out) out
          (λ _. shorten_name-IsAgentName out h)
          (λ k. record { bounded = ground (arith, k); plain = h; lettered = ground (arith, k) }))

-- The agent's name of a run has at most 32 characters, each of them a lowercase letter, a digit, a
-- hyphen or an underscore, and begins with a letter, whatever the run's identifier is.
pub agent_name-IsAgentName :
    (to_lower : Char → Char) (run_id : String) → IsAgentName (agent_name to_lower run_id)
unfolding agent_name
agent_name-IsAgentName to_lower run_id =
    finish_name-IsAgentName (trim_dashes_left (trim_dashes_right (name_characters to_lower run_id)))
      (trim_dashes_left-all (trim_dashes_right (name_characters to_lower run_id)) (
        trim_dashes_right-all (name_characters to_lower run_id)
          (name_characters-all to_lower run_id)))
