-- ===== src/Data/Interpolate/Weave.antt =====
-- What data/mysql_interpolate.go builds: the query with its marks replaced by the arguments' texts.
use landau.Common.{
  suc, ◌≡◌, refl, List, [], ◌∷◌, ◌++◌, ◌==◌, nat_eq, Bytes, codes, Option, none, some, ◌>>=◌,
  if◌then◌else◌, arith, append_assoc, format_int, count_byte, cut_byte, Option-cases, inl, inr,
}
use landau.Data.Interpolate.Buffer.{
  backslashed, quoted, each, escape_backslash, escape_quotes, escape_backslash_lem,
  escape_quotes_lem,
}
use landau.Data.Interpolate.{Runtime, MysqlInterpolate, calendar_text, Value, append_arg}

-- A text with the marks replaced in order; a mark with no text left stays.
unfoldable pub weave : Bytes → List Bytes → Bytes
weave [] ts = []
weave (c ∷ q) [] = c ∷ weave q []
weave (c ∷ q) (t ∷ ts) = if c == b'?' then t ++ weave q ts else c ∷ weave q (t ∷ ts)

pub cut_byte-none : (q : Bytes) → cut_byte b'?' q ≡ none → count_byte b'?' q ≡ 0
cut_byte-none [] h = refl
cut_byte-none (c ∷ q) h = elim (Option-cases (cut_byte b'?' q)) [
  | inl e ↦ ground (arith, cut_byte-none q e)
  | inr (p, e) ↦ ground arith
]

-- A cut is at the first mark.
pub cut_byte-some :
    (q before after : Bytes) (t : Bytes) (ts : List Bytes)
    → cut_byte b'?' q ≡ some (before, after)
    → (count_byte b'?' q ≡ suc (count_byte b'?' after))
      × (weave q (t ∷ ts) ≡ before ++ (t ++ weave after ts))
unfolding weave
cut_byte-some [] before after t ts h = absurd (ground arith)
cut_byte-some (c ∷ q) before after t ts h = elim (Option-cases (cut_byte b'?' q)) [
  | inl e ↦ ground (arith, cut_byte-none q e)
  | inr (p, e) ↦ ground (arith, cut_byte-some q p.0 p.1 t ts e)
]

weave-nil : (q : Bytes) → weave q [] ≡ q
unfolding weave
weave-nil [] = refl
weave-nil (c ∷ q) = rw (weave-nil q)

pub weave_no_marks : (q : Bytes) (ts : List Bytes) → count_byte b'?' q ≡ 0 → weave q ts ≡ q
unfolding weave
weave_no_marks [] ts h = refl
weave_no_marks (c ∷ q) [] h = rw (weave-nil q)
weave_no_marks (c ∷ q) (t ∷ ts) h = ground (arith, weave_no_marks q (t ∷ ts))

abbrev pub escaped : MysqlInterpolate → Bytes → Bytes
escaped c v = if c.escape_using_quotes then each quoted v else each backslashed v

abbrev pub attach : Bytes → Option (Option Bytes) → Option (Option Bytes)
attach buf none = none
attach buf (some none) = some none
attach buf (some (some t)) = some (some (buf ++ t))

module _ (rt : Runtime) where
  open rt use {format_float, is_zero, local_calendar, spare}

  -- The text of an argument: `none` is a date out of range, `some none` an unsupported type.
  unfoldable pub arg_text : MysqlInterpolate → Value rt → Option (Option Bytes)
  arg_text c Value.nil = some (some (codes "NULL"))
  arg_text c (Value.int8 v) = some (some (format_int v))
  arg_text c (Value.int16 v) = some (some (format_int v))
  arg_text c (Value.int32 v) = some (some (format_int v))
  arg_text c (Value.int v) = some (some (format_int v))
  arg_text c (Value.int64 v) = some (some (format_int v))
  arg_text c (Value.float32 v) = some (some (format_float v))
  arg_text c (Value.float64 v) = some (some (format_float v))
  arg_text c (Value.bool v) = some (some (if v then codes "1" else codes "0"))
  arg_text c (Value.time v) =
      if is_zero v
      then some (some (codes "'0000-00-00'"))
      else do t ← calendar_text (local_calendar v); some (some (b'\'' ∷ t ++ b'\'' ∷ []))
  arg_text c (Value.bytes none) = some (some (codes "NULL"))
  arg_text c (Value.bytes (some v)) = some (some (codes "_binary'" ++ escaped c v ++ b'\'' ∷ []))
  arg_text c (Value.string v) = some (some (b'\'' ∷ escaped c v ++ b'\'' ∷ []))
  arg_text c Value.other = some none

  escape_lem :
      (c : MysqlInterpolate) (buf v : Bytes)
      → (if c.escape_using_quotes then escape_quotes spare buf v else escape_backslash spare buf v)
        ≡ some (buf ++ escaped c v)
  escape_lem c buf v =
      ground (arith, escape_quotes_lem spare buf v, escape_backslash_lem spare buf v)

  pub append_arg_lem :
      (c : MysqlInterpolate) (buf : Bytes) (v : Value rt)
      → append_arg rt c buf v ≡ attach buf (arg_text c v)
  unfolding append_arg arg_text
  append_arg_lem c buf (Value.time v) = elim (Option-cases (calendar_text (local_calendar v))) [
    | inl e ↦ rw e (ground arith)
    | inr (t, e) ↦ rw e (ground arith)
  ]
  append_arg_lem c buf (Value.bytes (some v)) =
      rw (escape_lem c (buf ++ codes "_binary'") v) (simp append_assoc)
  append_arg_lem c buf (Value.string v) =
      rw (escape_lem c (buf ++ b'\'' ∷ []) v) (simp append_assoc)
  append_arg_lem c buf (Value.bool v) = ground arith
  append_arg_lem c buf _ = refl
