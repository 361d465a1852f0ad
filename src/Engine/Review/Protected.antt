-- ===== src/Engine/Review/Protected.antt =====
-- What a validated write scope can let a run change, under the engine's check of the changed paths:
-- internal/config/config.go and internal/engine/bounded_review.go.
use Prim.Native.String.{◌++◌}
use herdr_bots.Base.{
  ℕ, All, filter_by, String, Bool, true, false, ◌&&◌, ◌||◌, List, [], ◌∷◌, ◌==◌, ok, ◌>>=◌,
  refuse_if, ◌≡◌, refl, sym, ◌⊎◌, inl, inr, arith, eq_iff, Bool-cases,
}
use herdr_bots.Text.{has_prefix, has_suffix, trim_suffix, contains_rune, slash}
use herdr_bots.Text.Prefix.{
  has_prefix_both, has_prefix-slash, has_prefix-longer, has_prefix-contains, trim_suffix-append,
  trim_suffix-none,
}
use herdr_bots.Config.{Execution}
use herdr_bots.Config.Scope.{
  bounded_inputs_dir, validate_scope_path, validate_scope_entry, validate_scope_entries,
  validate_scope, validate_allowed_write_paths,
}
use herdr_bots.Engine.Review.Scope.{
  bounded_write_allowed, bounded_is_reserved_path, bounded_check_write_scope,
}

-- Neither the repository's metadata nor the directory of the staged inputs, nor anything under them.
abbrev pub is_protected : String → Bool
is_protected path = path == ".git" || has_prefix path ".git/" || bounded_is_reserved_path path

record IsDisjoint (is_prefix : Bool) (p : String) : Type 0 where
  not_git : (p == ".git" || has_prefix p ".git/") ≡ false
  not_inputs : (p == bounded_inputs_dir || has_prefix p (bounded_inputs_dir ++ "/")) ≡ false
  not_above : (is_prefix && has_prefix (bounded_inputs_dir ++ "/") (p ++ "/")) ≡ false

validate_scope_path-IsDisjoint :
    (is_prefix : Bool) (p : String)
    → validate_scope_path is_prefix p ≡ ok tt
    → IsDisjoint is_prefix p
unfolding validate_scope_path ◌>>=◌ refuse_if
validate_scope_path-IsDisjoint is_prefix p h = record {
  not_git = ground arith;
  not_inputs = ground arith;
  not_above = ground arith;
}

validate_scope_entry-path :
    (entry : String)
    → validate_scope_entry entry ≡ ok tt
    → validate_scope_path (has_suffix entry "/") (trim_suffix entry "/") ≡ ok tt
unfolding validate_scope_entry ◌>>=◌ refuse_if
validate_scope_entry-path entry h = ground arith

validate_scope_entries-allowed :
    (entries : List String) (path : String)
    → validate_scope_entries entries ≡ ok tt
    → bounded_write_allowed path entries ≡ true
    → (entry : String) × (validate_scope_entry entry ≡ ok tt)
      × ((has_suffix entry "/" ≡ true) × (has_prefix path entry ≡ true)
          ⊎ (has_suffix entry "/" ≡ false) × (path ≡ entry))
unfolding bounded_write_allowed validate_scope_entries ◌>>=◌
validate_scope_entries-allowed [] path h k = cc
validate_scope_entries-allowed (entry ∷ entries) path h k =
    elim (Bool-cases (bounded_write_allowed path entries)) [
      | inl rest ↦ validate_scope_entries-allowed entries path (ground arith) rest
      | inr rest ↦ (entry, ground arith, ground (arith, rest, eq_iff path entry))
    ]

-- A directory that lies neither under `q` nor above it allows neither `q` nor what is under it.
module _ (q p path : String) (beside : (p == q) ≡ false)
    (not_under : has_prefix p (q ++ "/") ≡ false)
    (not_above : has_prefix (q ++ "/") (p ++ "/") ≡ false)
    (allowed : has_prefix path (p ++ "/") ≡ true) where
  allowed-under : has_prefix path (q ++ "/") ≡ false
  allowed-under = elim (Bool-cases (has_prefix path (q ++ "/"))) [
    | inr is_not ↦ is_not
    | inl it_is ↦ elim (has_prefix_both path (q ++ "/") (p ++ "/") it_is allowed) [
      | inl above ↦ ground (arith, above)
      | inr under ↦ elim (has_prefix-slash p q under) [
        | inl in_p ↦ ground (arith, in_p)
        | inr same ↦ ground (arith, eq_iff p q, same)
      ]
    ]
  ]

  allowed-same : (path == q) ≡ false
  allowed-same = elim (Bool-cases (path == q)) [
    | inr is_not ↦ is_not
    | inl it_is ↦ ground (
      arith,
      eq_iff path q,
      it_is,
      has_prefix-longer q "/" (p ++ "/"),
      subst_prefix ((eq_iff path q).0 it_is) allowed,
    )
  ]
    where
      subst_prefix :
          {s t : String} → s ≡ t → has_prefix s (p ++ "/") ≡ true → has_prefix t (p ++ "/") ≡ true
      subst_prefix e h = cc

git_not_above : (p : String) → (p == ".git") ≡ false → has_prefix ".git/" (p ++ "/") ≡ false
unfolding contains_rune
git_not_above p beside = elim (Bool-cases (has_prefix ".git/" (p ++ "/"))) [
  | inr is_not ↦ is_not
  | inl it_is ↦ elim (has_prefix-slash ".git" p it_is) [
    | inl k ↦ absurd (no_slash (has_prefix-contains ".git" p k))
    | inr k ↦ ground (arith, eq_iff p ".git", sym k)
  ]
]
  where
    no_slash : contains_rune ".git" slash ≡ true → ⊥
    no_slash h = cc

-- A directory entry allows no protected path.
prefix-allowed :
    (path p : String)
    → IsDisjoint true p
    → has_prefix path (p ++ "/") ≡ true
    → is_protected path ≡ false
unfolding bounded_is_reserved_path
prefix-allowed path p h k = ground (
  arith,
  h.not_git,
  h.not_inputs,
  h.not_above,
  k,
  allowed-under ".git" p path (ground (arith, h.not_git)) (ground (arith, h.not_git))
      (git_not_above p (ground (arith, h.not_git))) k,
  allowed-same ".git" p path (ground (arith, h.not_git)) (ground (arith, h.not_git))
      (git_not_above p (ground (arith, h.not_git))) k,
  allowed-under bounded_inputs_dir p path (ground (arith, h.not_inputs))
      (ground (arith, h.not_inputs)) h.not_above k,
  allowed-same bounded_inputs_dir p path (ground (arith, h.not_inputs))
      (ground (arith, h.not_inputs)) h.not_above k,
)

entry-IsDisjoint :
    (entry : String)
    → validate_scope_entry entry ≡ ok tt
    → IsDisjoint (has_suffix entry "/") (trim_suffix entry "/")
entry-IsDisjoint entry h =
    validate_scope_path-IsDisjoint (has_suffix entry "/") (trim_suffix entry "/")
      (validate_scope_entry-path entry h)

entry-allowed :
    (entry path : String)
    → validate_scope_entry entry ≡ ok tt
    → ((has_suffix entry "/" ≡ true) × (has_prefix path entry ≡ true)
        ⊎ (has_suffix entry "/" ≡ false) × (path ≡ entry))
    → is_protected path ≡ false
unfolding bounded_is_reserved_path
entry-allowed entry path h (inl (s, k)) =
    let d = entry-IsDisjoint entry h in
    prefix-allowed path (trim_suffix entry "/")
      record {
        not_git = d.not_git;
        not_inputs = d.not_inputs;
        not_above = ground (arith, d.not_above, s);
      }
      (ground (arith, k, trim_suffix-append entry "/" s))
entry-allowed entry path h (inr (s, k)) =
    let d = entry-IsDisjoint entry h in
    ground (arith, d.not_git, d.not_inputs, k, trim_suffix-none entry "/" s)

validate_scope-entries :
    (profile : String) (entries : List String)
    → validate_scope profile entries ≡ ok tt
    → validate_scope_entries entries ≡ ok tt
unfolding validate_scope validate_scope_entries ◌>>=◌ refuse_if
validate_scope-entries profile [] h = refl
validate_scope-entries profile (entry ∷ entries) h = ground arith

validate_allowed_write_paths-entries :
    (e : Execution)
    → validate_allowed_write_paths e ≡ ok tt
    → validate_scope_entries e.allowed_write_paths ≡ ok tt
unfolding validate_allowed_write_paths
validate_allowed_write_paths-entries e h =
    validate_scope-entries e.permission_profile e.allowed_write_paths h

-- A write scope that configuration accepts allows no change to `.git`, to the directory of the staged
-- inputs, or to anything under them: a changed path that the engine's check lets through is none of these.
pub write_scope-IsProtected :
    (e : Execution) (path : String)
    → validate_allowed_write_paths e ≡ ok tt
    → bounded_write_allowed path e.allowed_write_paths ≡ true
    → is_protected path ≡ false
write_scope-IsProtected e path h k =
    let (entry, valid, allowed) =
      validate_scope_entries-allowed e.allowed_write_paths path
        (validate_allowed_write_paths-entries e h) k in
    entry-allowed entry path valid allowed

check-allowed :
    (and_more : ℕ → String) (changed allowed : List String)
    → bounded_check_write_scope and_more changed allowed ≡ ok tt
    → All (λ path. bounded_write_allowed path allowed ≡ true) changed
unfolding bounded_check_write_scope filter_by
check-allowed and_more [] allowed h = tt
check-allowed and_more (path ∷ paths) allowed h =
    elim (Bool-cases (bounded_write_allowed path allowed)) [
      | inl k ↦ (k, check-allowed and_more paths allowed (ground (arith, h, k)))
      | inr k ↦ ground (arith, h, k)
    ]

changed_protected :
    (e : Execution) (changed : List String)
    → validate_allowed_write_paths e ≡ ok tt
    → All (λ path. bounded_write_allowed path e.allowed_write_paths ≡ true) changed
    → All (λ path. is_protected path ≡ false) changed
changed_protected e [] h k = tt
changed_protected e (path ∷ paths) h (k, ks) =
    (write_scope-IsProtected e path h k, changed_protected e paths h ks)

-- Under a write scope that configuration accepts, a set of changed paths that the engine's check lets
-- through holds neither `.git` nor the directory of the staged inputs, nor anything under these two.
pub write_scope_keeps_protected :
    (and_more : ℕ → String) (e : Execution) (changed : List String)
    → validate_allowed_write_paths e ≡ ok tt
    → bounded_check_write_scope and_more changed e.allowed_write_paths ≡ ok tt
    → All (λ path. is_protected path ≡ false) changed
write_scope_keeps_protected and_more e changed h k =
    changed_protected e changed h (check-allowed and_more changed e.allowed_write_paths k)
