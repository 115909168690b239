-- ===== src/Std/Platform.antt =====
-- The platform: `usize` arithmetic, the build profile and the growth policy of `Vec`.
use buffer.Common.{
  ℕ, ◌+◌, ◌*◌, ◌%◌, ◌≤◌, ◌<◌, ◌^◌, ◌≡◌, Bool, ltb, if◌then◌else◌, Outcome, ok, panic, arith,
}

-- A 64-bit target.
abbrev pub usize_mod : ℕ
usize_mod = 2 ^ 64

abbrev pub isize_max : ℕ
isize_max = 9223372036854775807

-- `debug` is the development profile, which checks `debug_assert!` and the overflow of `usize`.
-- `grow` is the capacity that a `Vec` of bytes takes when `needed` exceeds its capacity; the
-- standard library leaves it open, but for its bounds.
pub record Platform : Type 0 where
  pub debug : Bool
  pub grow : ℕ → ℕ → ℕ
  pub grow_enough : (cap needed : ℕ) → needed ≤ grow cap needed
  pub grow_bounded : (cap needed : ℕ) → needed ≤ isize_max → grow cap needed ≤ isize_max

module _ (p : Platform) where
  -- A `usize` result: in a release build it wraps, in a development build an overflow panics.
  abbrev pub word : ℕ → Outcome ℕ
  word n = if ltb n usize_mod then ok n else if p.debug then panic else ok (n % usize_mod)

  unfoldable pub mul_usize : ℕ → ℕ → Outcome ℕ
  mul_usize a b = word (a * b)

  unfoldable pub add_usize : ℕ → ℕ → Outcome ℕ
  add_usize a b = word (a + b)

  pub mul_usize_fits : (a b : ℕ) → a * b < usize_mod → mul_usize a b ≡ ok (a * b)
  unfolding mul_usize
  mul_usize_fits a b h = ground arith

  pub add_usize_fits : (a b : ℕ) → a + b < usize_mod → add_usize a b ≡ ok (a + b)
  unfolding add_usize
  add_usize_fits a b h = ground arith
