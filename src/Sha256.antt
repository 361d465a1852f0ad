-- ===== src/Sha256.antt =====
-- SHA-256 of an ASCII text, as internal/config/config.go uses it to sample run identifiers: the
-- standard library's crypto/sha256 over 32-bit words, and the big-endian value of eight bytes.
use Prim.Native.Nat.{bit_and, bit_xor, ◌^◌}
use Prim.Native.Char.{code}
use herdr_bots.Base.{
  ℕ, zero, suc, ◌+◌, ◌-◌, ◌*◌, ◌/◌, ◌%◌, ◌≡◌, refl, String, List, [], ◌∷◌, ◌++◌, length,
}

abbrev two32 : ℕ
two32 = 4294967296

abbrev not32 : ℕ → ℕ
not32 x = two32 - 1 - x

abbrev shr : ℕ → ℕ → ℕ
shr x k = x / 2 ^ k

abbrev rotr : ℕ → ℕ → ℕ
rotr x k = x / 2 ^ k + x * 2 ^ (32 - k) % two32

abbrev xor3 : ℕ → ℕ → ℕ → ℕ
xor3 a b c = bit_xor a (bit_xor b c)

abbrev round_constants : List ℕ
round_constants =
    0x428a2f98 ∷ 0x71374491 ∷ 0xb5c0fbcf ∷ 0xe9b5dba5 ∷ 0x3956c25b ∷ 0x59f111f1 ∷ 0x923f82a4
    ∷ 0xab1c5ed5 ∷ 0xd807aa98 ∷ 0x12835b01 ∷ 0x243185be ∷ 0x550c7dc3 ∷ 0x72be5d74 ∷ 0x80deb1fe
    ∷ 0x9bdc06a7 ∷ 0xc19bf174 ∷ 0xe49b69c1 ∷ 0xefbe4786 ∷ 0x0fc19dc6 ∷ 0x240ca1cc ∷ 0x2de92c6f
    ∷ 0x4a7484aa ∷ 0x5cb0a9dc ∷ 0x76f988da ∷ 0x983e5152 ∷ 0xa831c66d ∷ 0xb00327c8 ∷ 0xbf597fc7
    ∷ 0xc6e00bf3 ∷ 0xd5a79147 ∷ 0x06ca6351 ∷ 0x14292967 ∷ 0x27b70a85 ∷ 0x2e1b2138 ∷ 0x4d2c6dfc
    ∷ 0x53380d13 ∷ 0x650a7354 ∷ 0x766a0abb ∷ 0x81c2c92e ∷ 0x92722c85 ∷ 0xa2bfe8a1 ∷ 0xa81a664b
    ∷ 0xc24b8b70 ∷ 0xc76c51a3 ∷ 0xd192e819 ∷ 0xd6990624 ∷ 0xf40e3585 ∷ 0x106aa070 ∷ 0x19a4c116
    ∷ 0x1e376c08 ∷ 0x2748774c ∷ 0x34b0bcb5 ∷ 0x391c0cb3 ∷ 0x4ed8aa4a ∷ 0x5b9cca4f ∷ 0x682e6ff3
    ∷ 0x748f82ee ∷ 0x78a5636f ∷ 0x84c87814 ∷ 0x8cc70208 ∷ 0x90befffa ∷ 0xa4506ceb ∷ 0xbef9a3f7
    ∷ 0xc67178f2 ∷ []

record Hash : Type 0 where
  a : ℕ
  b : ℕ
  c : ℕ
  d : ℕ
  e : ℕ
  f : ℕ
  g : ℕ
  h : ℕ

start : Hash
start = record {
  a = 0x6a09e667;
  b = 0xbb67ae85;
  c = 0x3c6ef372;
  d = 0xa54ff53a;
  e = 0x510e527f;
  f = 0x9b05688c;
  g = 0x1f83d9ab;
  h = 0x5be0cd19;
}

-- One round: the constant and the schedule word are added to the state.
round : Hash → ℕ → ℕ → Hash
round s k w =
    let s1 = xor3 (rotr s.e 6) (rotr s.e 11) (rotr s.e 25) in
    let ch = bit_xor (bit_and s.e s.f) (bit_and (not32 s.e) s.g) in
    let t1 = s.h + s1 + ch + k + w in
    let s0 = xor3 (rotr s.a 2) (rotr s.a 13) (rotr s.a 22) in
    let maj = xor3 (bit_and s.a s.b) (bit_and s.a s.c) (bit_and s.b s.c) in
    record {
      a = (t1 + s0 + maj) % two32;
      b = s.a;
      c = s.b;
      d = s.c;
      e = (s.d + t1) % two32;
      f = s.e;
      g = s.f;
      h = s.g;
    }

nth : ℕ → List ℕ → ℕ
nth _ [] = 0
nth zero (x ∷ _) = x
nth (suc n) (_ ∷ xs) = nth n xs

drop_first : List ℕ → List ℕ
drop_first [] = []
drop_first (_ ∷ xs) = xs

-- The window holds sixteen schedule words, the current one first.
rounds : List ℕ → List ℕ → Hash → Hash
unfolding round nth drop_first
rounds [] ws s = s
rounds (k ∷ ks) ws s =
    let w1 = nth 1 ws in
    let w14 = nth 14 ws in
    let s0 = xor3 (rotr w1 7) (rotr w1 18) (shr w1 3) in
    let s1 = xor3 (rotr w14 17) (rotr w14 19) (shr w14 10) in
    let next = (nth 0 ws + s0 + nth 9 ws + s1) % two32 in
    rounds ks (drop_first ws ++ next ∷ []) (round s k (nth 0 ws))

add_hash : Hash → Hash → Hash
add_hash s t = record {
  a = (s.a + t.a) % two32;
  b = (s.b + t.b) % two32;
  c = (s.c + t.c) % two32;
  d = (s.d + t.d) % two32;
  e = (s.e + t.e) % two32;
  f = (s.f + t.f) % two32;
  g = (s.g + t.g) % two32;
  h = (s.h + t.h) % two32;
}

take_words : ℕ → List ℕ → List ℕ
take_words zero _ = []
take_words (suc n) [] = []
take_words (suc n) (x ∷ xs) = x ∷ take_words n xs

drop_words : ℕ → List ℕ → List ℕ
drop_words zero xs = xs
drop_words (suc n) [] = []
drop_words (suc n) (x ∷ xs) = drop_words n xs

-- Whole blocks of sixteen words.
blocks : ℕ → List ℕ → Hash → Hash
unfolding rounds add_hash take_words drop_words
blocks zero ws s = s
blocks (suc n) ws s =
    blocks n (drop_words 16 ws) (add_hash s (rounds round_constants (take_words 16 ws) s))

words : List ℕ → List ℕ
words (a ∷ b ∷ c ∷ d ∷ rest) = (((a * 256 + b) * 256 + c) * 256 + d) ∷ words rest
words _ = []

zeros : ℕ → List ℕ
zeros zero = []
zeros (suc n) = 0 ∷ zeros n

-- The message, 0x80, zeros up to eight bytes before a block's end, and the length in bits.
pad : List ℕ → List ℕ
unfolding zeros
pad bs =
    let n = length bs in
    let bits = n * 8 in
    bs
    ++ (0x80 ∷ zeros ((119 - n % 64) % 64))
    ++ zeros 4
    ++ (bits / 2 ^ 24 % 256 ∷ bits / 2 ^ 16 % 256 ∷ bits / 2 ^ 8 % 256 ∷ bits % 256 ∷ [])

abbrev bytes : String → List ℕ
bytes String.[] = []
bytes (String.◌∷◌ c s) = code c ∷ bytes s

-- `binary.BigEndian.Uint64(sum[:8])` for `sum := sha256.Sum256([]byte(text))`.
unfoldable pub sum64 : String → ℕ
unfolding blocks words pad start
sum64 text =
    let padded = words (pad (bytes text)) in
    let s = blocks (length padded / 16) padded start in s.a * two32 + s.b

-- The published digest of "abc", and one of a message that fills a second block.
sum64_abc : sum64 "abc" ≡ 0xba7816bf8f01cfea
unfolding sum64
sum64_abc = refl

sum64_two_blocks :
    sum64 "abcdbcdecdefdefgefghfghighijhijkijkljklmklmnlmnomnopnopq" ≡ 0x248d6a61d20638b8
unfolding sum64
sum64_two_blocks = refl
