-- ===== src/Adapter/Confined.antt =====
-- What a launch may do: `LaunchFor` of internal/adapter/adapter.go, on executions that
-- internal/config/config.go accepts.
use mathlib.Core.List.{◌++◌}
use herdr_bots.Base.{
  String, true, false, ◌==◌, ◌≡◌, refl, ◌⊎◌, inl, inr, List, [], ◌∷◌, Result, ok, ◌>>=◌,
  refuse_if-ok, all_checks-All, Bool-cases, eq_iff, arith,
}
use herdr_bots.Text.{is_any_of}
use herdr_bots.Config.{Execution}
use herdr_bots.Config.Scope.{permission_read_only, permission_repo_write}
use herdr_bots.Config.Validate.{validate_execution, execution_checks}
use herdr_bots.Adapter.{
  Launch, launch_for, pi_launch, claude_launch, tools_for, pi_args, claude_args,
}

-- The last argument of a command line.
unfoldable pub final : List String → String
final [] = ""
final (x ∷ []) = x
final (x ∷ (y ∷ ys)) = final (y ∷ ys)

final-append :
    (xs : List String) (y : String) (ys : List String) → final (xs ++ (y ∷ ys)) ≡ final (y ∷ ys)
unfolding final
final-append [] y ys = refl
final-append (x ∷ []) y ys = refl
final-append (x ∷ (w ∷ xs)) y ys = final-append (w ∷ xs) y ys

abbrev pub read_only_tools : List String
read_only_tools = "read,grep,find,ls" ∷ "Read,Glob,Grep" ∷ []

abbrev pub write_tools : List String
write_tools = "read,grep,find,ls,edit,write" ∷ "Read,Glob,Grep,Edit,Write" ∷ []

-- A headless command whose tools, its last argument, are those of the profile.
pub record IsConfined (e : Execution) (l : Launch) : Type 0 where
  pub headless : l.mode ≡ "command"
  pub tools :
      ((e.permission_profile ≡ permission_read_only)
        × (is_any_of (final l.args) read_only_tools ≡ true))
      ⊎ ((e.permission_profile ≡ permission_repo_write)
          × (is_any_of (final l.args) write_tools ≡ true))

validated-route :
    (e : Execution)
    → validate_execution e ≡ ok tt
    → (is_any_of e.harness ("claude-code" ∷ "pi" ∷ []) ≡ true)
      × (is_any_of e.permission_profile (permission_read_only ∷ permission_repo_write ∷ []) ≡ true)
unfolding validate_execution
validated-route e h =
    let checks = all_checks-All (execution_checks e) h in
    (
      ground (arith, refuse_if-ok _ _ checks.1.1.1.0),
      ground (arith, refuse_if-ok _ _ checks.1.1.1.1.1.1.1.1.1.1.0),
    )

tools_for-profile :
    (profile : String) (read_only repo_write : List String)
    → is_any_of profile (permission_read_only ∷ permission_repo_write ∷ []) ≡ true
    → ((profile ≡ permission_read_only) × (tools_for profile read_only repo_write ≡ ok read_only))
      ⊎ ((profile ≡ permission_repo_write)
          × (tools_for profile read_only repo_write ≡ ok repo_write))
unfolding tools_for is_any_of
tools_for-profile profile read_only repo_write h =
    elim (Bool-cases (profile == permission_read_only)) [
      | inl k ↦ inl ((eq_iff profile permission_read_only).0 k, ground (arith, k))
      | inr n ↦
          inr
            ((eq_iff profile permission_repo_write).0 (ground (arith, n, h)), ground (arith, n, h))
    ]

HasLaunch : Execution → Result Launch → Type 0
HasLaunch e r = (l : Launch) × ((r ≡ ok l) × IsConfined e l)

abbrev HasTools : Execution → (last : String) → Type 0
HasTools e last =
    ((e.permission_profile ≡ permission_read_only) × (is_any_of last read_only_tools ≡ true))
    ⊎ ((e.permission_profile ≡ permission_repo_write) × (is_any_of last write_tools ≡ true))

with_tools :
    (e : Execution) (kind : String) (args : List String) (granted : Result (List String))
    (tool : String) (tools : List String)
    → granted ≡ ok (tool ∷ tools)
    → HasTools e (final (tool ∷ tools))
    → HasLaunch e
        (granted >>= λ given. ok (record { mode = "command"; kind = kind; args = args ++ given }))
unfolding HasLaunch ◌>>=◌
with_tools e kind args granted tool tools h k = (
  record { mode = "command"; kind = kind; args = args ++ (tool ∷ tools) },
  (rw h, record { headless = refl; tools = rw (final-append args tool tools) k }),
)

pi_launch-HasLaunch :
    (e : Execution)
    → is_any_of e.permission_profile (permission_read_only ∷ permission_repo_write ∷ []) ≡ true
    → HasLaunch e (pi_launch e)
unfolding pi_launch final is_any_of
pi_launch-HasLaunch e h =
    elim (tools_for-profile e.permission_profile ("--tools" ∷ "read,grep,find,ls" ∷ [])
      ("--tools" ∷ "read,grep,find,ls,edit,write" ∷ []) h) [
        | inl (p, t) ↦ with_tools e "pi" (pi_args e) _ "--tools" _ t (inl (p, refl))
        | inr (p, t) ↦ with_tools e "pi" (pi_args e) _ "--tools" _ t (inr (p, refl))
      ]

claude_launch-HasLaunch :
    (e : Execution)
    → is_any_of e.permission_profile (permission_read_only ∷ permission_repo_write ∷ []) ≡ true
    → HasLaunch e (claude_launch e)
unfolding claude_launch final is_any_of
claude_launch-HasLaunch e h =
    elim (tools_for-profile e.permission_profile
      ("--permission-mode" ∷ "plan" ∷ "--tools" ∷ "Read,Glob,Grep" ∷ [])
      ("--permission-mode" ∷ "acceptEdits" ∷ "--tools" ∷ "Read,Glob,Grep,Edit,Write" ∷ []) h) [
        | inl (p, t) ↦
            with_tools e "claude" (claude_args e) _ "--permission-mode" _ t (inl (p, refl))
        | inr (p, t) ↦
            with_tools e "claude" (claude_args e) _ "--permission-mode" _ t (inr (p, refl))
      ]

claude_code :
    (e : Execution)
    → (e.harness == "pi") ≡ false
    → is_any_of e.harness ("claude-code" ∷ "pi" ∷ []) ≡ true
    → (e.harness == "claude-code") ≡ true
unfolding is_any_of
claude_code e n h = ground (arith, n, h)

-- An execution that configuration accepts has a launch: a headless command whose last argument, the
-- tools, is read-only under the read-only profile, and adds edit and write under the other alone.
pub launch_for-IsConfined :
    (e : Execution)
    → validate_execution e ≡ ok tt
    → (l : Launch) × ((launch_for e ≡ ok l) × IsConfined e l)
unfolding launch_for is_any_of HasLaunch
launch_for-IsConfined e h =
    let (harness, profile) = validated-route e h in
    elim (Bool-cases (e.harness == "pi")) [
      | inl k ↦ rw k (pi_launch-HasLaunch e profile)
      | inr n ↦ rw (n, claude_code e n harness) (claude_launch-HasLaunch e profile)
    ]
