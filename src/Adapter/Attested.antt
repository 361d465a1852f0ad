-- ===== src/Adapter/Attested.antt =====
-- What an attestation of the model rests on: `ParseClaudeModelAttestation` of
-- internal/adapter/adapter.go.
use mathlib.Core.List.{◌++◌}
use herdr_bots.Base.{
  pos, lt_int, String, Bool, true, false, ◌||◌, ◌≡◌, refl, ◌⊎◌, subst, List, [], ◌∷◌, Option, none,
  some, ap, ok, refuse_if, ◌>>=◌, then_then-ok, All, eq_iff, arith, inl, inr,
}
use herdr_bots.Text.{split_on}
use herdr_bots.Adapter.{
  ModelUsage, UsageTable, has_completion_status, before_completion, keep_line, later_or, usage_of,
  last_claude_result_line, check_usage, check_result, check_lines, parse_claude_model_attestation,
}

-- A line of a list.
abbrev pub IsIn : String → List String → Type 0
IsIn x [] = ⊥
IsIn x (y ∷ ys) = (x ≡ y) ⊎ IsIn x ys

list_of_some : {xs ys : List String} → some xs ≡ some ys → xs ≡ ys
list_of_some h = cc

found_of :
    {f g : String × UsageTable} → ◌≡◌ {A = Option (String × UsageTable)} (some f) (some g) → f ≡ g
found_of h = cc

Silent : (marker : String) → List String → Type 0
Silent marker lines = All (λ line. has_completion_status line marker ≡ false) lines

keep_line-Silent :
    (marker line : String) (b : Bool) (left : Option (List String)) (before : List String)
    → has_completion_status line marker ≡ b
    → ((bs : List String) → left ≡ some bs → Silent marker bs)
    → keep_line b line left ≡ some before
    → Silent marker before
unfolding keep_line Silent
keep_line-Silent marker line true left before p f h = subst (Silent marker) (list_of_some h) tt
keep_line-Silent marker line false none before p f h = cc
keep_line-Silent marker line false (some bs) before p f h =
    subst (Silent marker) (list_of_some h) (p, f bs refl)

-- The lines are those before, a line with the completion status, and others.
IsSplit : (marker : String) → (lines before : List String) → Type 0
IsSplit marker lines before =
    (status_line : String) × (after : List String) × (lines ≡ before ++ (status_line ∷ after))
    × (has_completion_status status_line marker ≡ true)

keep_line-IsSplit :
    (marker line : String) (lines : List String) (b : Bool) (left : Option (List String))
    (before : List String)
    → has_completion_status line marker ≡ b
    → ((bs : List String) → left ≡ some bs → IsSplit marker lines bs)
    → keep_line b line left ≡ some before
    → IsSplit marker (line ∷ lines) before
unfolding keep_line IsSplit
keep_line-IsSplit marker line lines true left before p f h =
    subst (IsSplit marker (line ∷ lines)) (list_of_some h) (line, lines, refl, p)
keep_line-IsSplit marker line lines false none before p f h = cc
keep_line-IsSplit marker line lines false (some bs) before p f h =
    let (status_line, after, same, status) = f bs refl in
    subst (IsSplit marker (line ∷ lines)) (list_of_some h)
      (status_line, after, ap (λ ls. line ∷ ls) same, status)

before_completion-IsSplit :
    (marker : String) (lines before : List String)
    → before_completion marker lines ≡ some before
    → IsSplit marker lines before
unfolding before_completion
before_completion-IsSplit marker [] before h = cc
before_completion-IsSplit marker (line ∷ lines) before h =
    keep_line-IsSplit marker line lines (has_completion_status line marker)
      (before_completion marker lines) before refl (before_completion-IsSplit marker lines) h

split_at_status :
    (marker : String) (lines before : List String)
    → before_completion marker lines ≡ some before
    → (status_line : String) × (after : List String) × (lines ≡ before ++ (status_line ∷ after))
      × (has_completion_status status_line marker ≡ true)
unfolding IsSplit
split_at_status = before_completion-IsSplit

before_completion-Silent :
    (marker : String) (lines before : List String)
    → before_completion marker lines ≡ some before
    → Silent marker before
unfolding before_completion
before_completion-Silent marker [] before h = cc
before_completion-Silent marker (line ∷ lines) before h =
    keep_line-Silent marker line (has_completion_status line marker)
      (before_completion marker lines) before refl (before_completion-Silent marker lines) h

silent_before :
    (marker : String) (lines before : List String)
    → before_completion marker lines ≡ some before
    → All (λ line. has_completion_status line marker ≡ false) before
unfolding Silent
silent_before = before_completion-Silent

module _ (result_usage : String → Option UsageTable)
    (receipt : (line : String) → ModelUsage → String) where
  -- A line that is a result object by itself, with its usage.
  IsResult : List String → String × UsageTable → Type 0
  IsResult lines (line, usage) = IsIn line lines × (result_usage line ≡ some usage)

  later_or-IsResult :
      (line : String) (lines : List String) (found : String × UsageTable)
      (later : Option (String × UsageTable)) (usage : Option UsageTable)
      → result_usage line ≡ usage
      → ((f : String × UsageTable) → later ≡ some f → IsResult lines f)
      → later_or result_usage receipt later line usage ≡ some found
      → IsResult (line ∷ lines) found
  unfolding later_or IsResult
  later_or-IsResult line lines found (some f) usage p g h =
      subst (IsResult (line ∷ lines)) (found_of h) (inr (g f refl).0, (g f refl).1)
  later_or-IsResult line lines found none none p g h = cc
  later_or-IsResult line lines found none (some u) p g h =
      subst (IsResult (line ∷ lines)) (found_of h) (inl refl, p)

  last_claude_result_line-IsResult :
      (lines : List String) (found : String × UsageTable)
      → last_claude_result_line result_usage receipt lines ≡ some found
      → IsResult lines found
  unfolding last_claude_result_line
  last_claude_result_line-IsResult [] found h = cc
  last_claude_result_line-IsResult (line ∷ lines) found h =
      later_or-IsResult line lines found (last_claude_result_line result_usage receipt lines)
        (result_usage line) refl (last_claude_result_line-IsResult lines) h

  -- The evidence of an attestation: a result line before the first completion status of the marker,
  -- with first-party usage of the expected model that counts tokens.
  pub record IsAttested (transcript marker expected : String) (r : String) : Type 0 where
    pub before : List String
    pub status_line : String
    pub after : List String
    pub split : split_on "\n" transcript ≡ before ++ (status_line ∷ after)
    pub status : has_completion_status status_line marker ≡ true
    pub silent : All (λ line. has_completion_status line marker ≡ false) before
    pub line : String
    pub reported : IsIn line before
    pub table : UsageTable
    pub decoded : result_usage line ≡ some table
    pub usage : ModelUsage
    pub listed : usage_of expected table ≡ some (some usage)
    pub first_party : usage.provider ≡ "firstParty"
    pub canonical : usage.canonical_model ≡ expected
    pub used : (lt_int (pos 0) usage.input_tokens || lt_int (pos 0) usage.output_tokens) ≡ true
    pub receipt_of : receipt line usage ≡ r

  checked :
      (line expected r : String) (u : Option (Option ModelUsage))
      → check_usage result_usage receipt line expected u ≡ ok r
      → (v : ModelUsage) × ((u ≡ some (some v))
          × (v.provider ≡ "firstParty")
          × (v.canonical_model ≡ expected)
          × ((lt_int (pos 0) v.input_tokens || lt_int (pos 0) v.output_tokens) ≡ true)
          × (receipt line v ≡ r))
  unfolding check_usage ◌>>=◌ refuse_if
  checked line expected r none h = cc
  checked line expected r (some none) h = cc
  checked line expected r (some (some v)) h = (
    v,
    (
      refl,
      ground (arith, h, eq_iff v.provider "firstParty"),
      ground (arith, h, eq_iff v.canonical_model expected),
      ground (arith, h),
      ground (arith, h),
    ),
  )

  result-IsAttested :
      (transcript marker expected r : String) (before : List String)
      (found : Option (String × UsageTable))
      → before_completion marker (split_on "\n" transcript) ≡ some before
      → last_claude_result_line result_usage receipt before ≡ found
      → check_result result_usage receipt expected found ≡ ok r
      → IsAttested transcript marker expected r
  unfolding check_result IsResult
  result-IsAttested transcript marker expected r before none p q h = cc
  result-IsAttested transcript marker expected r before (some (line, table)) p q h =
      let (usage, (listed, first_party, canonical, used, made)) =
        checked line expected r (usage_of expected table) h in
      let (status_line, after, split, status) =
        split_at_status marker (split_on "\n" transcript) before p in
      let (reported, decoded) = last_claude_result_line-IsResult before (line, table) q in
      record {
        before = before;
        status_line = status_line;
        after = after;
        split = split;
        status = status;
        silent = silent_before marker (split_on "\n" transcript) before p;
        line = line;
        reported = reported;
        table = table;
        decoded = decoded;
        usage = usage;
        listed = listed;
        first_party = first_party;
        canonical = canonical;
        used = used;
        receipt_of = made;
      }

  lines-IsAttested :
      (transcript marker expected r : String) (before : Option (List String))
      → before_completion marker (split_on "\n" transcript) ≡ before
      → check_lines result_usage receipt expected before ≡ ok r
      → IsAttested transcript marker expected r
  unfolding check_lines
  lines-IsAttested transcript marker expected r none p h = cc
  lines-IsAttested transcript marker expected r (some before) p h =
      result-IsAttested transcript marker expected r before
        (last_claude_result_line result_usage receipt before) p refl h

  -- A model is attested only where a line of the transcript has the completion status of the run's
  -- marker and no earlier line has it, and one of those earlier lines is a result by itself and
  -- reports first-party usage, with tokens, of exactly the expected model.
  pub parse_claude_model_attestation-IsAttested :
      (transcript marker expected r : String)
      → parse_claude_model_attestation result_usage receipt transcript marker expected ≡ ok r
      → IsAttested transcript marker expected r
  unfolding parse_claude_model_attestation
  parse_claude_model_attestation-IsAttested transcript marker expected r h =
      lines-IsAttested transcript marker expected r
        (before_completion marker (split_on "\n" transcript)) refl
        (let (_, _, rest) = then_then-ok _ _ _ r h in rest)
