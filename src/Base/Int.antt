-- ===== src/Base/Int.antt =====
-- Signed integers over the native numbers, under the library's names, and the machine widths that
-- the program uses: `int` without overflow, `int16_t` with its conversion modulo 2 ^ 16.
use Prim.Native.Nat.{ℕ, suc, ◌+◌, ◌-◌, ◌*◌, ◌/◌, ◌%◌, ◌^◌, ◌<◌}
use mathlib.Core.Path.{◌≡◌}
use mathlib.Core.Bool.{Bool}
use native.Mathlib.Omega.{arith}
use minuet_lang_mirror.Base.Tests.{ltb, leb, ◌==◌, if◌then◌else◌}

-- `negsuc n` is -(n + 1).
pub data ℤ : Type 0 where
  pos : ℕ → ℤ
  negsuc : ℕ → ℤ

abbrev pub pos_part : ℤ → ℕ
pos_part (pos n) = n
pos_part (negsuc n) = 0

abbrev pub neg_part : ℤ → ℕ
neg_part (pos n) = 0
neg_part (negsuc n) = suc n

abbrev pub sub_ℕ : ℕ → ℕ → ℤ
sub_ℕ a b = if leb b a then pos (a - b) else negsuc (b - a - 1)

infixl 65 ◌+ℤ◌ ◌-ℤ◌
infixl 70 ◌*ℤ◌
unfoldable pub ◌+ℤ◌ : ℤ → ℤ → ℤ
a +ℤ b = sub_ℕ (pos_part a + pos_part b) (neg_part a + neg_part b)

unfoldable pub ◌-ℤ◌ : ℤ → ℤ → ℤ
a -ℤ b = sub_ℕ (pos_part a + neg_part b) (neg_part a + pos_part b)

unfoldable pub ◌*ℤ◌ : ℤ → ℤ → ℤ
a *ℤ b =
    sub_ℕ (pos_part a * pos_part b + neg_part a * neg_part b)
      (pos_part a * neg_part b + neg_part a * pos_part b)

abbrev pub ltb_ℤ : ℤ → ℤ → Bool
ltb_ℤ a b = ltb (pos_part a + neg_part b) (pos_part b + neg_part a)

abbrev pub leb_ℤ : ℤ → ℤ → Bool
leb_ℤ a b = leb (pos_part a + neg_part b) (pos_part b + neg_part a)

abbrev pub eq_ℤ : ℤ → ℤ → Bool
eq_ℤ a b = pos_part a + neg_part b == pos_part b + neg_part a

-- `std::max`
abbrev pub max_ℤ : ℤ → ℤ → ℤ
max_ℤ a b = if ltb_ℤ a b then b else a

abbrev negate_ℕ : ℕ → ℤ
negate_ℕ n = sub_ℕ 0 n

-- `/` and `%` of C++ round towards zero; the remainder has the dividend's sign.
unfoldable pub quot_ℤ : ℤ → ℤ → ℤ
quot_ℤ (pos a) (pos b) = pos (a / b)
quot_ℤ (pos a) (negsuc b) = negate_ℕ (a / suc b)
quot_ℤ (negsuc a) (pos b) = negate_ℕ (suc a / b)
quot_ℤ (negsuc a) (negsuc b) = pos (suc a / suc b)

unfoldable pub rem_ℤ : ℤ → ℤ → ℤ
rem_ℤ (pos a) (pos b) = pos (a % b)
rem_ℤ (pos a) (negsuc b) = pos (a % suc b)
rem_ℤ (negsuc a) (pos b) = negate_ℕ (suc a % b)
rem_ℤ (negsuc a) (negsuc b) = negate_ℕ (suc a % suc b)

-- The value fits an `int`.
unfoldable pub fits_int32 : ℤ → Bool
fits_int32 (pos n) = ltb n (2 ^ 31)
fits_int32 (negsuc n) = ltb n (2 ^ 31)

-- `x & 0x7f` on a two's complement `int`.
unfoldable pub low_seven : ℤ → ℕ
low_seven (pos n) = n % 128
low_seven (negsuc n) = 127 - n % 128

abbrev signed16 : ℕ → ℤ
signed16 w = if ltb w 32768 then pos w else negsuc (65535 - w)

-- The conversion of an `int` to `int16_t`.
unfoldable pub wrap16 : ℤ → ℤ
wrap16 (pos n) = signed16 (n % 65536)
wrap16 (negsuc n) = signed16 (65535 - n % 65536)

pub low_seven-lt : (a : ℤ) → low_seven a < 128
unfolding low_seven
low_seven-lt (pos n) = omega arith
low_seven-lt (negsuc n) = omega arith

pub +ℤ_zero : (a : ℤ) → a +ℤ pos 0 ≡ a
unfolding ◌+ℤ◌
+ℤ_zero a = ground arith

pub -ℤ_cancel : (a b : ℤ) → a +ℤ b -ℤ b ≡ a
unfolding ◌+ℤ◌ ◌-ℤ◌
-ℤ_cancel a b = ground arith

-- A small count comes back from `int16_t` after one step up and one down.
pub wrap16_back : (d : ℕ) → d < 32767 → wrap16 (wrap16 (pos d +ℤ pos 1) -ℤ pos 1) ≡ pos d
unfolding wrap16 ◌+ℤ◌ ◌-ℤ◌
wrap16_back d h = ground arith

-- The conversion to `int16_t` keeps what fits.
pub wrap16_fits : (d : ℕ) → d < 32768 → wrap16 (pos d) ≡ pos d
unfolding wrap16
wrap16_fits d h = ground arith
