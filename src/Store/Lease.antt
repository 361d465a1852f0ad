-- ===== src/Store/Lease.antt =====
-- Leases and claim tokens of internal/store/store.go.
pub mod Tokens
use Prim.Native.Char.{Char, code}
use Prim.Native.String.{◌++◌ as str_append}
use text.Mathlib.Text.{starts_with}
use herdr_bots.Base.{
  ℕ, zero, suc, ◌-◌, ◌/◌, ◌%◌, String, Bool, true, not, ◌&&◌, ◌||◌, List, [], ◌∷◌, ◌==◌, is_empty,
  ltb, leb, eqb, if◌then◌else◌, Result, message, ◌>>=◌, ◌>>◌, refuse_if, err, ok,
}
use herdr_bots.Store.Schema.{Run, max_effect_lease, max_provisioning_lease}
use herdr_bots.Store.EffectKind

-- `validateEffectLease`
unfoldable pub validate_effect_lease : String → String → ℕ → ℕ → Result (Unit {0})
unfolding ◌>>=◌ refuse_if
validate_effect_lease kind owner now lease_until = do
  refuse_if (is_empty owner) (message "effect owner is required")
  refuse_if (not (kind == EffectKind.verifier) && not (kind == EffectKind.workspace_close))
      (message "unsupported run effect")
  refuse_if (not (ltb now lease_until)) (message "effect lease must expire after its claim time")
  refuse_if (ltb max_effect_lease (lease_until - now)) (message "effect lease exceeds maximum")

-- `validateProvisioningLease`
unfoldable pub validate_provisioning_lease : String → ℕ → ℕ → Result (Unit {0})
unfolding ◌>>=◌ refuse_if
validate_provisioning_lease owner now lease_until = do
  refuse_if (is_empty owner) (message "provisioning owner is required")
  refuse_if (not (ltb now lease_until))
      (message "provisioning lease must expire after its claim time")
  refuse_if (ltb max_provisioning_lease (lease_until - now))
      (message "provisioning lease exceeds maximum")

-- effect_owner='' AND effect_claim='' AND effect_kind='' AND effect_receipt=''
abbrev pub is_unclaimed : Run → Bool
is_unclaimed r =
    is_empty r.effect_owner
    && is_empty r.effect_claim
    && is_empty r.effect_kind
    && is_empty r.effect_receipt

-- (provisioning_owner='' OR provisioning_lease_until<=?)
abbrev pub is_unprovisioned : ℕ → Run → Bool
is_unprovisioned now r = is_empty r.provisioning_owner || leb r.provisioning_lease_until now

-- provisioning_owner=? AND provisioning_lease_until>?
abbrev pub is_live_owner : String → ℕ → Run → Bool
is_live_owner owner now r = r.provisioning_owner == owner && ltb now r.provisioning_lease_until

-- The digits of `hex.EncodeToString`.
hex_digits : List Char
hex_digits =
    "0" ∷ "1" ∷ "2" ∷ "3" ∷ "4" ∷ "5" ∷ "6" ∷ "7" ∷ "8" ∷ "9" ∷ "a" ∷ "b" ∷ "c" ∷ "d" ∷ "e" ∷ "f"
    ∷ []

nth_digit : List Char → ℕ → Char
nth_digit [] n = "0"
nth_digit (c ∷ cs) zero = c
nth_digit (c ∷ cs) (suc n) = nth_digit cs n

hex_digit : ℕ → Char
unfolding nth_digit hex_digits
hex_digit n = nth_digit hex_digits n

-- `newEffectClaim`: the lowercase hexadecimal digits of the random bytes.
unfoldable pub new_effect_claim : List ℕ → String
unfolding hex_digit
new_effect_claim [] = String.[]
new_effect_claim (b ∷ bs) =
    String.◌∷◌ (hex_digit (b / 16)) (String.◌∷◌ (hex_digit (b % 16)) (new_effect_claim bs))

is_hex : ℕ → Bool
is_hex c = not ((ltb c b'0' || ltb b'9' c) && (ltb c b'a' || ltb b'f' c))

char_count : String → ℕ
char_count String.[] = 0
char_count (String.◌∷◌ c s) = suc (char_count s)

all_hex : String → Bool
all_hex String.[] = true
all_hex (String.◌∷◌ c s) = is_hex (code c) && all_hex s

-- `validEffectClaim`. The length counts characters, which are bytes where all are digits.
unfoldable pub valid_effect_claim : String → Bool
unfolding is_hex char_count all_hex
valid_effect_claim claim = eqb (char_count claim) 32 && all_hex claim

-- `VerifierReceiptPath`. The state directory is canonical, so `filepath.Join` only puts the
-- separators in, and none behind the root's own.
unfoldable pub verifier_receipt_path : String → String → Result String
verifier_receipt_path state_dir claim =
    if not (valid_effect_claim claim)
    then err (message "invalid verifier claim")
    else if is_empty state_dir || not (starts_with state_dir "/")
    then err (message "state directory is not canonical")
    else ok (
        str_append (if state_dir == "/" then "" else state_dir)
          (str_append "/verifiers/verifier-" (str_append claim ".result")))
