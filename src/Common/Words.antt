-- ===== src/Common/Words.antt =====
-- Machine integers: w-bit words, and their signed readings with w = width + 1.
use Prim.Native.Nat.{ℕ, zero, suc, ◌-◌, ◌%◌, ◌^◌, ◌<◌}
use mathlib.Core.Path.{◌≡◌, ap}
use mathlib.Core.Logic.{inl, inr}
use native.Mathlib.Nat.{mod-lt, mod-eq_of_lt}
use native.Mathlib.Omega.{arith}
use landau.Common.Strings.{ℤ, pos, negsuc}
use landau.Common.Tests.{ltb, if◌then◌else◌, Bool-cases}

-- Go's conversions between integers: the remainder, and the reading of a word as a signed integer.
abbrev pub wrap_unsigned : ℕ → ℤ → ℕ
wrap_unsigned w (pos n) = n % 2 ^ w
wrap_unsigned w (negsuc n) = 2 ^ w - 1 - n % 2 ^ w

abbrev pub as_signed : ℕ → ℕ → ℤ
as_signed width u = if ltb u (2 ^ width) then pos u else negsuc (2 ^ suc width - 1 - u)

abbrev pub wrap_signed : ℕ → ℤ → ℤ
wrap_signed width z = as_signed width (wrap_unsigned (suc width) z)

pub pow_pos : (w : ℕ) → 0 < 2 ^ w
pow_pos zero = omega arith
pow_pos (suc w) = omega (arith, pow_pos w)

pub wrap_unsigned_lt : (w : ℕ) (z : ℤ) → wrap_unsigned w z < 2 ^ w
wrap_unsigned_lt w (pos n) = mod-lt n (pow_pos w)
wrap_unsigned_lt w (negsuc n) = omega (arith, pow_pos w)

-- The signed reading of a word wraps around to the same word.
wrap_unsigned-as_signed :
    (width u : ℕ) → u < 2 ^ suc width → wrap_unsigned (suc width) (as_signed width u) ≡ u
wrap_unsigned-as_signed width u h = elim (Bool-cases (ltb u (2 ^ width))) [
  | inl t ↦ rw t (mod-eq_of_lt h)
  | inr f ↦
      let small : 2 ^ suc width - 1 - u < 2 ^ suc width = omega (arith, h) in
      rw (f, mod-eq_of_lt small) (omega (arith, h))
]

pub wrap_signed-wrap_signed :
    (width : ℕ) (z : ℤ) → wrap_signed width (wrap_signed width z) ≡ wrap_signed width z
wrap_signed-wrap_signed width z =
    ap (as_signed width)
      (wrap_unsigned-as_signed width (wrap_unsigned (suc width) z) (wrap_unsigned_lt (suc width) z))

-- An integer in the range of its size is kept.
pub wrap_signed_pos : (width n : ℕ) → n < 2 ^ width → wrap_signed width (pos n) ≡ pos n
wrap_signed_pos width n h =
    let small : n < 2 ^ suc width = omega (arith, h) in rw (mod-eq_of_lt small) (ground (arith, h))

pub wrap_signed_neg : (width n : ℕ) → n < 2 ^ width → wrap_signed width (negsuc n) ≡ negsuc n
wrap_signed_neg width n h =
    let small : n < 2 ^ suc width = omega (arith, h) in rw (mod-eq_of_lt small) (ground (arith, h))
