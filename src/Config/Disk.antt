-- ===== src/Config/Disk.antt =====
-- The test of an amount of disk: internal/config/config.go, `Capacity.validate` and `Job.validate`.
use herdr_bots.Base.{ℕ, Bool, true, false, not, ◌||◌, ltb}
use herdr_bots.Config.{Gib, mib, below_zero, not_a_number, infinite}

-- `math.IsNaN`, `math.IsInf` of either sign, and the two comparisons of floating point, of which
-- one with what is no number is false.
is_not_a_number : Gib → Bool
is_not_a_number not_a_number = true
is_not_a_number _ = false

is_infinite : Gib → Bool
is_infinite (infinite _) = true
is_infinite _ = false

gib_below : Gib → ℕ → Bool
gib_below (mib n) low = ltb n low
gib_below below_zero low = true
gib_below not_a_number low = false
gib_below (infinite negative) low = negative

gib_above : Gib → ℕ → Bool
gib_above (mib n) high = ltb high n
gib_above below_zero high = false
gib_above not_a_number high = false
gib_above (infinite negative) high = not negative

unfoldable pub gib_outside : Gib → (low high : ℕ) → Bool
unfolding is_not_a_number is_infinite gib_below gib_above
gib_outside g low high = is_not_a_number g || is_infinite g || gib_below g low || gib_above g high
