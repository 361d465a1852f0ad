-- ===== src/Store/Lease/Tokens.antt =====
-- A token of sixteen random bytes gives a valid claim, which is never the empty text; and what a
-- validated lease says.
use Prim.Native.Char.{Char, code}
use herdr_bots.Base.{
  ℕ, zero, suc, ◌+◌, ◌*◌, ◌/◌, ◌%◌, ◌≤◌, ◌<◌, String, true, false, ◌≡◌, refl, ap, ◌⊎◌, inl, inr,
  List, [], ◌∷◌, eq_iff, is_empty, length, All, ok, arith,
}
use herdr_bots.Store.EffectKind
use herdr_bots.Store.Schema.{max_effect_lease, max_provisioning_lease}
use herdr_bots.Store.Lease.{
  validate_effect_lease, validate_provisioning_lease, hex_digits, nth_digit, hex_digit,
  new_effect_claim, is_hex, char_count, all_hex, valid_effect_claim,
}

abbrev pub IsToken : List ℕ → Type 0
IsToken token = (length token ≡ 16) × All (λ b. b < 256) token

nth_digit-is_hex :
    (cs : List Char) (n : ℕ)
    → All (λ c. is_hex (code c) ≡ true) cs
    → is_hex (code (nth_digit cs n)) ≡ true
unfolding nth_digit is_hex
nth_digit-is_hex [] n h = refl
nth_digit-is_hex (c ∷ cs) zero h = h.0
nth_digit-is_hex (c ∷ cs) (suc n) h = nth_digit-is_hex cs n h.1

hex_digits_hex : All (λ c. is_hex (code c) ≡ true) hex_digits
unfolding is_hex hex_digits
hex_digits_hex = (
  refl,
  (
    refl,
    (
      refl,
      (
        refl,
        (
          refl,
          (
            refl,
            (refl, (refl, (refl, (refl, (refl, (refl, (refl, (refl, (refl, (refl, tt)))))))))),
          ),
        ),
      ),
    ),
  ),
)

hex_digit-is_hex : (n : ℕ) → is_hex (code (hex_digit n)) ≡ true
unfolding hex_digit
hex_digit-is_hex n = nth_digit-is_hex hex_digits n hex_digits_hex

char_count-new_effect_claim :
    (token : List ℕ) → char_count (new_effect_claim token) ≡ 2 * length token
unfolding char_count new_effect_claim
char_count-new_effect_claim [] = refl
char_count-new_effect_claim (b ∷ bs) = omega (arith, char_count-new_effect_claim bs)

all_hex-new_effect_claim : (token : List ℕ) → all_hex (new_effect_claim token) ≡ true
unfolding all_hex new_effect_claim
all_hex-new_effect_claim [] = refl
all_hex-new_effect_claim (b ∷ bs) =
    ground
      (arith, hex_digit-is_hex (b / 16), hex_digit-is_hex (b % 16), all_hex-new_effect_claim bs)

-- Sixteen random bytes make a claim that `validEffectClaim` accepts.
pub new_effect_claim_valid :
    (token : List ℕ) → IsToken token → valid_effect_claim (new_effect_claim token) ≡ true
unfolding valid_effect_claim
new_effect_claim_valid token h =
    ground (arith, h.0, char_count-new_effect_claim token, all_hex-new_effect_claim token)

pub valid_claim_nonempty :
    (claim : String) → valid_effect_claim claim ≡ true → is_empty claim ≡ false
unfolding valid_effect_claim char_count
valid_claim_nonempty claim h = ground (arith, eq_iff claim "", ap char_count {x = claim} {y = ""})

pub token_nonempty : (token : List ℕ) → IsToken token → is_empty (new_effect_claim token) ≡ false
token_nonempty token h = valid_claim_nonempty _ (new_effect_claim_valid token h)

-- A validated effect lease has an owner and a known kind, and ends within the bound.
pub record IsEffectLease (kind owner : String) (now lease_until : ℕ) : Type 0 where
  pub owned : is_empty owner ≡ false
  pub known : (kind ≡ EffectKind.verifier) ⊎ (kind ≡ EffectKind.workspace_close)
  pub later : now < lease_until
  pub bounded : lease_until ≤ now + max_effect_lease

pub validated-IsEffectLease :
    (kind owner : String) (now lease_until : ℕ)
    → validate_effect_lease kind owner now lease_until ≡ ok tt
    → IsEffectLease kind owner now lease_until
unfolding validate_effect_lease
validated-IsEffectLease kind owner now lease_until h =
    ground (arith, eq_iff kind EffectKind.verifier, eq_iff kind EffectKind.workspace_close)

pub known_nonempty :
    (kind : String)
    → (kind ≡ EffectKind.verifier) ⊎ (kind ≡ EffectKind.workspace_close)
    → is_empty kind ≡ false
known_nonempty kind (inl e) = ap is_empty e
known_nonempty kind (inr e) = ap is_empty e

pub validated_provisioning_lease :
    (owner : String) (now lease_until : ℕ)
    → validate_provisioning_lease owner now lease_until ≡ ok tt
    → (is_empty owner ≡ false) × (now < lease_until) × (lease_until ≤ now + max_provisioning_lease)
unfolding validate_provisioning_lease
validated_provisioning_lease owner now lease_until h = ground arith
