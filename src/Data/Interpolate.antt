-- ===== src/Data/Interpolate.antt =====
-- data/mysql_interpolate.go: arguments bound into the text of a statement.
-- `Runtime` holds what the code takes from the Go runtime and from the packages time and strconv.
pub mod Buffer
pub mod Literal
pub mod Weave
pub mod Build
pub mod Dates
pub mod Bound
mod Tests
use landau.Common.{
  ℕ, zero, suc, ◌+◌, ◌*◌, ◌/◌, ◌%◌, Bool, true, false, List, [], ◌∷◌, ◌++◌, ◌==◌, nat_eq, ltb,
  Bytes, codes, length, get_elem?, Option, none, some, ◌>>=◌, if◌then◌else◌, ℤ, format_int,
  count_byte, cut_byte,
}
use landau.Data.Interpolate.Buffer.{escape_backslash, escape_quotes}

-- The local wall clock of a time, rounded under a microsecond: `v.In(time.Local).Add(500ns)`.
pub record Calendar : Type 0 where
  pub year : ℕ
  pub month : ℕ
  pub day : ℕ
  pub hour : ℕ
  pub minute : ℕ
  pub second : ℕ
  pub nanosecond : ℕ

-- `spare` gives the bytes that the runtime left between the length and the capacity of a buffer.
pub record Runtime : Type 1 where
  pub Float : Type 0
  pub Time : Type 0
  pub format_float : Float → Bytes
  pub is_zero : Time → Bool
  pub local_calendar : Time → Calendar
  pub spare : Bytes → Bytes

-- `MySQLInterpolate`.
pub record MysqlInterpolate : Type 0 where
  pub max_allowed_packet : ℕ
  pub escape_using_quotes : Bool

pub data Error : Type 0 where
  unmatched unsupported_type too_large : Error

-- `panicked` is an index out of range.
pub data Built : Type 0 where
  built : Bytes → Built
  failed : Error → Built
  panicked : Built

pub digits01 : Bytes
digits01 =
    codes
      "0123456789012345678901234567890123456789012345678901234567890123456789012345678901234567890123456789"

pub digits10 : Bytes
digits10 =
    codes
      "0000000000111111111122222222223333333333444444444455555555556666666666777777777788888888889999999999"

-- `digits10[n], digits01[n]`
pub two_digits : ℕ → Option Bytes
unfolding digits10 digits01
two_digits n = do a ← get_elem? digits10 n; b ← get_elem? digits01 n; some (a ∷ b ∷ [])

pub micro_text : ℕ → Option Bytes
micro_text zero = some []
micro_text (suc m) = do
  let micro = suc m
  a ← two_digits (micro / 10000)
  b ← two_digits (micro / 100 % 100)
  c ← two_digits (micro % 100)
  some (b'.' ∷ a ++ b ++ c)

-- The text of a time that is not zero, behind its opening quote.
unfoldable pub calendar_text : Calendar → Option Bytes
calendar_text t = do
  y ← two_digits (t.year / 100)
  z ← two_digits (t.year % 100)
  m ← two_digits t.month
  d ← two_digits t.day
  h ← two_digits t.hour
  n ← two_digits t.minute
  s ← two_digits t.second
  u ← micro_text (t.nanosecond / 1000)
  some (y ++ z ++ b'-' ∷ m ++ b'-' ∷ d ++ b' ' ∷ h ++ b':' ∷ n ++ b':' ∷ s ++ u)

module _ (rt : Runtime) where
  open rt use {Float, Time, format_float, is_zero, local_calendar, spare}

  -- The cases of the type switch; `other` is a value of any type that it does not name.
  pub data Value : Type 0 where
    nil : Value
    int8 int16 int32 int int64 : ℤ → Value
    float32 float64 : Float → Value
    bool : Bool → Value
    time : Time → Value
    bytes : Option Bytes → Value
    string : Bytes → Value
    other : Value

  -- One argument appended to the buffer: `none` is a panic, `some none` an unsupported type.
  pub append_arg : MysqlInterpolate → Bytes → Value → Option (Option Bytes)
  append_arg c buf nil = some (some (buf ++ codes "NULL"))
  append_arg c buf (int8 v) = some (some (buf ++ format_int v))
  append_arg c buf (int16 v) = some (some (buf ++ format_int v))
  append_arg c buf (int32 v) = some (some (buf ++ format_int v))
  append_arg c buf (int v) = some (some (buf ++ format_int v))
  append_arg c buf (int64 v) = some (some (buf ++ format_int v))
  append_arg c buf (float32 v) = some (some (buf ++ format_float v))
  append_arg c buf (float64 v) = some (some (buf ++ format_float v))
  append_arg c buf (bool v) = some (some (buf ++ (if v then b'1' else b'0') ∷ []))
  append_arg c buf (time v) =
      if is_zero v
      then some (some (buf ++ codes "'0000-00-00'"))
      else do t ← calendar_text (local_calendar v); some (some (buf ++ (b'\'' ∷ t ++ b'\'' ∷ [])))
  append_arg c buf (bytes none) = some (some (buf ++ codes "NULL"))
  append_arg c buf (bytes (some v)) = do
    out ←
        (if c.escape_using_quotes
          then escape_quotes spare (buf ++ codes "_binary'") v
          else escape_backslash spare (buf ++ codes "_binary'") v)
    some (some (out ++ b'\'' ∷ []))
  append_arg c buf (string v) = do
    out ←
        (if c.escape_using_quotes
          then escape_quotes spare (buf ++ b'\'' ∷ []) v
          else escape_backslash spare (buf ++ b'\'' ∷ []) v)
    some (some (out ++ b'\'' ∷ []))
  append_arg c buf other = some none

  -- `continue` after NULL for a nil argument skips the test of the length.
  skips_length_test : Value → Bool
  skips_length_test nil = true
  skips_length_test (int8 _) = false
  skips_length_test _ = false

  -- `if len(buf)+4 > c.maxAllowedPacket`
  pub too_long : MysqlInterpolate → Value → Bytes → Bool
  unfolding skips_length_test
  too_long c arg buf =
      if skips_length_test arg then false else ltb c.max_allowed_packet (length buf + 4)

  -- The end of a round, behind the append of `arg`; `next` is the next round.
  pub proceed : MysqlInterpolate → Value → (Bytes → Built) → Option (Option Bytes) → Built
  proceed c arg next none = panicked
  proceed c arg next (some none) = failed unsupported_type
  proceed c arg next (some (some out)) = elim (too_long c arg out) [
    | true ↦ failed too_large
    | false ↦ next out
  ]

  -- The loop: the query from `i` on, the arguments from `argPos` on, and the buffer. It ends at the
  -- end of the query or behind its last mark, and compares `argPos` with the number of arguments.
  pub build : MysqlInterpolate → Bytes → List Value → Bytes → Built
  unfolding proceed
  build c rest [] buf = elim (cut_byte b'?' rest) [ none ↦ built (buf ++ rest) | some _ ↦ panicked ]
  build c rest (arg ∷ args) buf = elim (cut_byte b'?' rest) [
    | none ↦ failed unmatched
    | some (before, after) ↦
        proceed c arg (λ out. build c after args out) (append_arg c (buf ++ before) arg)
  ]

  unfoldable pub get_built_sql : MysqlInterpolate → Bytes → List Value → Built
  get_built_sql c query args =
      if count_byte b'?' query == length args then build c query args [] else failed unmatched
