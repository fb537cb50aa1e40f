-- ===== src/Common/Numbers.antt =====
-- What the code uses of the package strconv: the parsing of decimal numbers.
use Prim.Native.Nat.{ℕ, zero, suc, ◌+◌, ◌-◌, ◌*◌, ◌/◌, ◌%◌, ◌^◌, ◌<◌}
use mathlib.Core.Path.{◌≡◌, refl, ap, subst, ◌∙◌}
use mathlib.Core.Bool.{Bool, true, false, ◌&&◌}
use mathlib.Core.Logic.{inl, inr}
use mathlib.Core.List.{[], ◌∷◌, ◌++◌}
use mathlib.Core.Option.{Option, none, some}
use native.Mathlib.Omega.{arith}
use landau.Common.Tests.{
  ltb, leb, nat_beq, if◌then◌else◌, Bool-cases, ◌>>=◌, if_elim, ltb→lt, bytes_beq,
}
use landau.Common.Words.{pow_pos}
use landau.Common.Strings.{Bytes, digits, format_int, ℤ, pos, negsuc}

abbrev pub is_digit : ℕ → Bool
is_digit c = leb b'0' c && leb c b'9'

-- The digits of a number, behind those that were read.
pub parse_digits : ℕ → Bytes → Option ℕ
parse_digits acc [] = some acc
parse_digits acc (c ∷ s) =
    let rest = parse_digits (acc * 10 + (c - b'0')) s in if is_digit c then rest else none

-- `strconv.ParseUint(s, 10, bits)`: `none` is an error, of syntax or of range.
unfoldable pub parse_uint : ℕ → Bytes → Option ℕ
parse_uint bits [] = none
parse_uint bits (c ∷ s) = do n ← parse_digits 0 (c ∷ s); if ltb n (2 ^ bits) then some n else none

negative : ℕ → Option ℕ → Option ℤ
negative limit none = none
negative limit (some zero) = some (pos 0)
negative limit (some (suc n)) = if ltb n limit then some (negsuc n) else none

positive_below : ℕ → Option ℕ → Option ℤ
positive_below limit none = none
positive_below limit (some n) = if ltb n limit then some (pos n) else none

-- A sign is followed by a digit.
parse_unsigned : Bytes → Option ℕ
parse_unsigned [] = none
parse_unsigned (c ∷ s) = parse_digits 0 (c ∷ s)

-- `strconv.ParseInt(s, 10, bits)` at `bits = width + 1`.
unfoldable pub parse_int : ℕ → Bytes → Option ℤ
unfolding negative positive_below parse_unsigned
parse_int width [] = none
parse_int width (c ∷ s) =
    if nat_beq c b'-'
    then negative (2 ^ width) (parse_unsigned s)
    else if nat_beq c b'+'
    then positive_below (2 ^ width) (parse_unsigned s)
    else positive_below (2 ^ width) (parse_unsigned (c ∷ s))

-- `strconv.Atoi`, where an `int` has 64 bits.
unfoldable pub atoi : Bytes → Option ℤ
atoi s = parse_int 63 s

parse_digits-append :
    (acc : ℕ) (s : Bytes) (d n : ℕ)
    → d < 10
    → parse_digits acc s ≡ some n
    → parse_digits acc (s ++ (b'0' + d) ∷ []) ≡ some (n * 10 + d)
unfolding parse_digits
parse_digits-append acc [] d n lt h = ground (arith, h, lt)
parse_digits-append acc (c ∷ s) d n lt h = elim (Bool-cases (is_digit c)) [
  | inl e ↦ rw e (parse_digits-append (acc * 10 + (c - b'0')) s d n lt (rw e at h))
  | inr e ↦ let stops : none ≡ some n = rw e at h in absurd (ground (arith, stops))
]

pub parse_digits-digits : (f n : ℕ) → n < f → parse_digits 0 (digits f n) ≡ some n
unfolding digits
parse_digits-digits zero n h = absurd (omega arith)
parse_digits-digits (suc f) n h = elim (Bool-cases (ltb n 10)) [
  | inl e ↦ rw e (unfold parse_digits in ground arith)
  | inr e ↦ rw e (
      parse_digits-append 0 (digits f (n / 10)) (n % 10) (n / 10) (omega arith)
        (parse_digits-digits f (n / 10) (ground (arith, e)))
      ∙ ap some (omega arith))
]

digits-first : (f n : ℕ) → (c : ℕ) × (s : Bytes) × (digits (suc f) n ≡ c ∷ s) × (is_digit c ≡ true)
unfolding digits
digits-first zero n = elim (Bool-cases (ltb n 10)) [
  | inl e ↦ (b'0' + n, [], rw e refl, ground (arith, e))
  | inr e ↦ (b'0' + n % 10, [], rw e refl, ground arith)
]
digits-first (suc f) n = elim (Bool-cases (ltb n 10)) [
  | inl e ↦ (b'0' + n, [], rw e refl, ground (arith, e))
  | inr e ↦
      let (c, s, whole, is) = digits-first f (n / 10) in
      (c, s ++ (b'0' + n % 10) ∷ [], rw (e, whole) refl, is)
]

parse_unsigned-cons : (c : ℕ) (s : Bytes) → parse_unsigned (c ∷ s) ≡ parse_digits 0 (c ∷ s)
unfolding parse_unsigned
parse_unsigned-cons c s = refl

-- A formatted integer that fits is parsed back.
pub parse_int-format_int_pos :
    (width n : ℕ) → n < 2 ^ width → parse_int width (format_int (pos n)) ≡ some (pos n)
unfolding parse_int format_int positive_below
parse_int-format_int_pos width n h =
    let (c, s, whole, is) = digits-first n n in
    let back : parse_digits 0 (c ∷ s) ≡ some n =
      subst (λ t. parse_digits 0 t ≡ some n) whole (parse_digits-digits (suc n) n (omega arith)) in
    let no_minus : nat_beq c b'-' ≡ false = ground (arith, is) in
    let no_plus : nat_beq c b'+' ≡ false = ground (arith, is) in
    ap (parse_int width) whole
    ∙ rw (no_minus, no_plus, parse_unsigned-cons c s, back) (ground (arith, h))

pub parse_int-format_int_neg :
    (width n : ℕ) → n < 2 ^ width → parse_int width (format_int (negsuc n)) ≡ some (negsuc n)
unfolding parse_int format_int negative
parse_int-format_int_neg width n h =
    let (c, s, whole, is) = digits-first (suc n) (suc n) in
    let back : parse_digits 0 (c ∷ s) ≡ some (suc n) =
      subst (λ t. parse_digits 0 t ≡ some (suc n)) whole
        (parse_digits-digits (suc (suc n)) (suc n) (omega arith)) in
    ap (λ t. parse_int width (b'-' ∷ t)) whole
    ∙ rw (parse_unsigned-cons c s, back) (ground (arith, h))

-- What a signed integer of width + 1 bits can hold.
abbrev pub Fits : ℕ → ℤ → Type 0
Fits width (pos n) = n < 2 ^ width
Fits width (negsuc n) = n < 2 ^ width

-- The same of a result, if there is one.
abbrev AllFit : ℕ → Option ℤ → Type 0
AllFit width none = Unit
AllFit width (some z) = Fits width z

negative-AllFit : (width : ℕ) (o : Option ℕ) → AllFit width (negative (2 ^ width) o)
unfolding negative
negative-AllFit width none = tt
negative-AllFit width (some zero) = pow_pos width
negative-AllFit width (some (suc n)) =
    if_elim (AllFit width) (ltb n (2 ^ width)) (some (negsuc n)) none (ltb→lt n (2 ^ width))
      (λ _. tt)

positive_below-AllFit : (width : ℕ) (o : Option ℕ) → AllFit width (positive_below (2 ^ width) o)
unfolding positive_below
positive_below-AllFit width none = tt
positive_below-AllFit width (some n) =
    if_elim (AllFit width) (ltb n (2 ^ width)) (some (pos n)) none (ltb→lt n (2 ^ width)) (λ _. tt)

parse_int-AllFit : (width : ℕ) (s : Bytes) → AllFit width (parse_int width s)
unfolding parse_int
parse_int-AllFit width [] = tt
parse_int-AllFit width (c ∷ s) =
    if_elim (AllFit width) (nat_beq c b'-') _ _ (λ _. negative-AllFit width (parse_unsigned s))
      λ _.
        if_elim (AllFit width) (nat_beq c b'+') _ _
          (λ _. positive_below-AllFit width (parse_unsigned s))
          λ _. positive_below-AllFit width (parse_unsigned (c ∷ s))

-- Whatever is parsed fits.
pub parse_int-Fits : (width : ℕ) (s : Bytes) (z : ℤ) → parse_int width s ≡ some z → Fits width z
parse_int-Fits width s z h = subst (AllFit width) h (parse_int-AllFit width s)

-- A formatted integer is not empty.
pub format_int_ne : (z : ℤ) → bytes_beq (format_int z) [] ≡ false
unfolding format_int
format_int_ne (pos n) = let (c, s, whole, is) = digits-first n n in rw whole refl
format_int_ne (negsuc n) = refl
