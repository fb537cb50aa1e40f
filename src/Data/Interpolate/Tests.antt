-- ===== src/Data/Interpolate/Tests.antt =====
-- Runs of data/mysql_interpolate.go, and its theorems at concrete inputs.
use landau.Common.{
  ℕ, ◌≡◌, refl, true, false, List, [], ◌∷◌, ◌++◌, Bytes, length, some, arith, count_byte, codes,
  pos, format_int,
}
use landau.Data.Interpolate.{Runtime, Calendar, MysqlInterpolate, built, Value, get_built_sql}
use landau.Data.Interpolate.Buffer.{
  escape_backslash, each, backslashed, escape_backslash_lem, escape_code,
}
use landau.Data.Interpolate.Literal.{read_literal, read_literal-backslashed}
use landau.Data.Interpolate.Weave.{weave, arg_text}
use landau.Data.Interpolate.Build.{texts}
use landau.Data.Interpolate.Bound.{get_built_sql-weave, get_built_sql_complete}
use landau.Data.Interpolate.Dates.{IsClock}

-- A runtime whose times are calendars, with three stale bytes behind every buffer.
abbrev plain : Runtime
plain = record {
  Float = ℕ;
  Time = Calendar;
  format_float = λ n. [];
  is_zero = λ t. false;
  local_calendar = λ t. t;
  spare = λ buf. 7 ∷ 7 ∷ 7 ∷ [];
}

abbrev small : MysqlInterpolate
small = record { max_allowed_packet = 100; escape_using_quotes = false }

abbrev leap_day : Calendar
leap_day = record {
  year = 2024;
  month = 2;
  day = 29;
  hour = 23;
  minute = 5;
  second = 59;
  nanosecond = 1000;
}

abbrev marked_query : Bytes
marked_query = codes "a=? or b=?"

abbrev two_args : List (Value plain)
two_args = Value.string (codes "x'\\") ∷ Value.int (pos 42) ∷ []

abbrev two_texts : List Bytes
two_texts = codes "'x\\'\\\\'" ∷ codes "42" ∷ []

abbrev built_query : Bytes
built_query = codes "a='x\\'\\\\' or b=42"

weave-marked_query : weave marked_query two_texts ≡ built_query
unfolding weave
weave-marked_query = refl

texts_of_two : texts plain small two_args ≡ some two_texts
unfolding arg_text backslashed escape_code format_int
texts_of_two = refl

build_two : get_built_sql plain small marked_query two_args ≡ built (weave marked_query two_texts)
build_two =
    get_built_sql_complete plain small marked_query two_args two_texts refl texts_of_two
      (rw weave-marked_query (omega arith))

get_built_sql_complete_example :
    get_built_sql plain small marked_query two_args ≡ built (weave marked_query two_texts)
get_built_sql_complete_example =
    get_built_sql_complete plain small marked_query two_args two_texts refl texts_of_two
      (rw weave-marked_query (omega arith))

get_built_sql-weave_example :
    (count_byte b'?' marked_query ≡ length two_args)
    × (ts : List Bytes) × (texts plain small two_args ≡ some ts)
    × (weave marked_query two_texts ≡ weave marked_query ts)
get_built_sql-weave_example = get_built_sql-weave plain small marked_query two_args build_two

abbrev leap_clock : IsClock leap_day
leap_clock = record {
  month = omega arith;
  day = omega arith;
  hour = omega arith;
  minute = omega arith;
  second = omega arith;
  nanosecond = omega arith;
}

escape_backslash_example :
    escape_backslash plain.spare (codes "ab") (codes "c'")
    ≡ some (codes "ab" ++ each backslashed (codes "c'"))
escape_backslash_example = escape_backslash_lem plain.spare (codes "ab") (codes "c'")

read_literal-backslashed_example :
    read_literal true (each backslashed (codes "a'") ++ b'\'' ∷ codes ",1")
    ≡ some (codes "a'", codes ",1")
read_literal-backslashed_example = read_literal-backslashed (codes "a'") (codes ",1") (ground arith)
