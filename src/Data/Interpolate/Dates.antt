-- ===== src/Data/Interpolate/Dates.antt =====
-- The tables of digits in data/mysql_interpolate.go.
use landau.Common.{
  ℕ, zero, suc, ◌+◌, ◌/◌, ◌%◌, ◌≤◌, ◌<◌, ◌≡◌, refl, Bool, true, false, ◌&&◌, [], ◌∷◌, ◌++◌, ◌==◌,
  nat_eq, Bytes, Option, none, some, arith, length, get_elem?_beyond, subst, ap, ◌∙◌, bytes_eq,
  eq_of_beq,
}
use landau.Data.Interpolate.{Calendar, two_digits, micro_text, calendar_text, digits10}

-- Two decimal digits.
abbrev pub two : ℕ → Bytes
two n = (b'0' + n / 10) ∷ (b'0' + n % 10) ∷ []

abbrev agreed : Option Bytes → ℕ → Bool
agreed none n = false
agreed (some s) n = s == two n

abbrev agrees : ℕ → Bool
agrees n = agreed (two_digits n) n

all_below : ℕ → (ℕ → Bool) → Bool
all_below zero p = true
all_below (suc n) p = p n && all_below n p

all_below_sound : (n : ℕ) (p : ℕ → Bool) (k : ℕ) → all_below n p ≡ true → k < n → p k ≡ true
unfolding all_below
all_below_sound zero p k h lt = absurd (omega arith)
all_below_sound (suc n) p k h lt = ground (arith, all_below_sound n p k)

table : all_below 100 agrees ≡ true
unfolding all_below two_digits
table = refl

-- Below a hundred the two tables hold the decimal digits.
two_digits_lem : (n : ℕ) → n < 100 → two_digits n ≡ some (two n)
two_digits_lem n h = go (two_digits n) refl (all_below_sound 100 agrees n table h)
  where
    go : (r : Option Bytes) → two_digits n ≡ r → agrees n ≡ true → two_digits n ≡ some (two n)
    go none e t = absurd (ground (arith, subst (λ r. agreed r n ≡ true) e t))
    go (some s) e t = e ∙ ap some (eq_of_beq s (two n) (subst (λ r. agreed r n ≡ true) e t))

two_digits-none : (n : ℕ) → 100 ≤ n → two_digits n ≡ none
unfolding two_digits
two_digits-none n h = rw (get_elem?_beyond digits10 n (ten_rows h), two_digits) refl
  where
    ten_rows : 100 ≤ n → length digits10 ≤ n
    ten_rows h = h

-- The clock of a time stays within its ranges, whatever the year: the package time promises it.
pub record IsClock (t : Calendar) : Type 0 where
  pub month : t.month < 13
  pub day : t.day < 32
  pub hour : t.hour < 24
  pub minute : t.minute < 60
  pub second : t.second < 60
  pub nanosecond : t.nanosecond < 1000000000

-- A point and six digits, or nothing.
abbrev fraction : ℕ → Bytes
fraction zero = []
fraction (suc m) = b'.' ∷ two (suc m / 10000) ++ two (suc m / 100 % 100) ++ two (suc m % 100)

-- The decimal text of a calendar: the fraction stands only where there are microseconds.
abbrev pub date_text : Calendar → Bytes
date_text t =
    two (t.year / 100)
    ++ two (t.year % 100)
    ++ b'-' ∷ two t.month
    ++ b'-' ∷ two t.day
    ++ b' ' ∷ two t.hour
    ++ b':' ∷ two t.minute
    ++ b':' ∷ two t.second
    ++ fraction (t.nanosecond / 1000)

micro_text_lem : (m : ℕ) → m < 1000000 → micro_text m ≡ some (fraction m)
unfolding micro_text
micro_text_lem zero h = refl
micro_text_lem (suc m) h = rw (
  two_digits_lem (suc m / 10000) (omega arith),
  two_digits_lem (suc m / 100 % 100) (omega arith),
  two_digits_lem (suc m % 100) (omega arith),
)

-- The text of a time on a regular clock whose year is below 10000 is its decimal text, with the
-- microseconds if there are any.
pub calendar_text_lem :
    (t : Calendar) → IsClock t → t.year < 10000 → calendar_text t ≡ some (date_text t)
unfolding calendar_text
calendar_text_lem t k h = rw (
  two_digits_lem (t.year / 100) (omega arith),
  two_digits_lem (t.year % 100) (omega arith),
  two_digits_lem t.month (omega arith),
  two_digits_lem t.day (omega arith),
  two_digits_lem t.hour (omega arith),
  two_digits_lem t.minute (omega arith),
  two_digits_lem t.second (omega arith),
  micro_text_lem (t.nanosecond / 1000) (omega arith),
)

-- From the year 10000 on the table of tens is read beyond its end.
pub calendar_text_far : (t : Calendar) → 10000 ≤ t.year → calendar_text t ≡ none
unfolding calendar_text
calendar_text_far t h = rw (two_digits-none (t.year / 100) (omega arith))
