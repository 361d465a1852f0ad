-- ===== src/Text/Prefix.antt =====
-- Prefixes and suffixes of texts.
use Prim.Native.Char.{Char}
use Prim.Native.String.{◌++◌}
use Prim.Native.String.append
use text.Mathlib.TextEquality.{Char-path}
use herdr_bots.Base.{
  String, true, false, ◌≡◌, refl, sym, ap, ◌∙◌, ◌⊎◌, inl, inr, ◌==◌, eq_iff, arith, Bool-cases,
}
use herdr_bots.Text.{has_prefix, has_suffix, trim_suffix, contains_rune, char_is, slash}

abbrev chars : Char → String → String
chars c s = String.◌∷◌ c s

pub char_is-eq : (c d : Char) → char_is c d ≡ true → c ≡ d
char_is-eq c d h = Char-path c d (ground arith)

pub has_prefix_both :
    (s a b : String)
    → has_prefix s a ≡ true
    → has_prefix s b ≡ true
    → (has_prefix a b ≡ true) ⊎ (has_prefix b a ≡ true)
unfolding has_prefix
has_prefix_both s String.[] b h k = inr refl
has_prefix_both s (String.◌∷◌ c a) String.[] h k = inl refl
has_prefix_both String.[] (String.◌∷◌ c a) (String.◌∷◌ d b) h k = cc
has_prefix_both (String.◌∷◌ x s) (String.◌∷◌ c a) (String.◌∷◌ d b) h k =
    elim (has_prefix_both s a b (ground arith) (ground arith)) [
      | inl p ↦ inl (ground arith)
      | inr p ↦ inr (ground arith)
    ]

has_prefix-nil : (p : String) → has_prefix "" (p ++ "/") ≡ false
unfolding has_prefix
has_prefix-nil String.[] = refl
has_prefix-nil (String.◌∷◌ d p) = ground (arith, append.cons d p "/")

-- A prefix of a text with one more field either stays within the text, or is all of it.
pub has_prefix-slash :
    (q p : String)
    → has_prefix (q ++ "/") (p ++ "/") ≡ true
    → (has_prefix q (p ++ "/") ≡ true) ⊎ (q ≡ p)
unfolding has_prefix
has_prefix-slash String.[] String.[] h = inr refl
has_prefix-slash String.[] (String.◌∷◌ d p) h =
    ground (arith, append.cons d p "/", append.nil "/", has_prefix-nil p)
has_prefix-slash (String.◌∷◌ c q) String.[] h = ground (arith, append.cons c q "/", append.nil "/")
has_prefix-slash (String.◌∷◌ c q) (String.◌∷◌ d p) h =
    elim (has_prefix-slash q p (ground (arith, append.cons d p "/", append.cons c q "/"))) [
      | inl k ↦ inl (ground (arith, append.cons d p "/", append.cons c q "/"))
      | inr k ↦ inr (
          ap (λ x. chars x q)
            (char_is-eq c d (ground (arith, append.cons d p "/", append.cons c q "/")))
          ∙ ap (chars d) k)
    ]

pub has_prefix-append : (s t : String) → has_prefix (s ++ t) s ≡ true
unfolding has_prefix
has_prefix-append String.[] t = refl
has_prefix-append (String.◌∷◌ c s) t = ground (arith, has_prefix-append s t, append.cons c s t)

pub has_prefix-longer : (s t a : String) → has_prefix s a ≡ true → has_prefix (s ++ t) a ≡ true
unfolding has_prefix
has_prefix-longer s t String.[] h = refl
has_prefix-longer String.[] t (String.◌∷◌ d a) h = cc
has_prefix-longer (String.◌∷◌ c s) t (String.◌∷◌ d a) h =
    ground (arith, has_prefix-longer s t a (ground arith), append.cons c s t)

pub has_prefix-contains :
    (s p : String) → has_prefix s (p ++ "/") ≡ true → contains_rune s slash ≡ true
unfolding has_prefix contains_rune
has_prefix-contains String.[] String.[] h = cc
has_prefix-contains String.[] (String.◌∷◌ d p) h = ground (arith, append.cons d p "/")
has_prefix-contains (String.◌∷◌ c s) String.[] h = ground (arith, append.nil "/")
has_prefix-contains (String.◌∷◌ c s) (String.◌∷◌ d p) h =
    ground (arith, has_prefix-contains s p (ground (arith, append.cons d p "/")))

pub trim_suffix-append : (s t : String) → has_suffix s t ≡ true → s ≡ trim_suffix s t ++ t
unfolding has_suffix trim_suffix
trim_suffix-append String.[] t h = (eq_iff "" t).0 h ∙ sym (append.nil t)
trim_suffix-append (String.◌∷◌ c s) t h = elim (Bool-cases (chars c s == t)) [
  | inl k ↦ ground (arith, k, eq_iff (chars c s) t, append.nil t)
  | inr k ↦
      ground (arith, k, trim_suffix-append s t (ground arith), append.cons c (trim_suffix s t) t)
]

pub trim_suffix-none : (s t : String) → has_suffix s t ≡ false → trim_suffix s t ≡ s
unfolding has_suffix trim_suffix
trim_suffix-none String.[] t h = refl
trim_suffix-none (String.◌∷◌ c s) t h = ground (arith, trim_suffix-none s t (ground arith))
