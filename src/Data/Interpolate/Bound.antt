-- ===== src/Data/Interpolate/Bound.antt =====
-- What `GetBuiltSQL` of data/mysql_interpolate.go promises to its callers.
use landau.Common.{
  ◌+◌, ◌≤◌, ◌≡◌, ◌≢◌, false, not, List, [], ◌∷◌, ◌++◌, nat_eq, Bytes, length, none, some, arith,
  count_byte, ltb, ltb→lt, Bool-cases, inl, inr, All, ◌↔◌, append_assoc, ◌==◌,
}
use landau.Data.Interpolate.{
  Runtime, MysqlInterpolate, unmatched, built, failed, panicked, Value, get_built_sql,
}
use landau.Data.Interpolate.Buffer.{each, backslashed, quoted}
use landau.Data.Interpolate.Literal.{
  read_literal, EndsLiteral, read_literal-backslashed, read_literal-quoted,
}
use landau.Data.Interpolate.Weave.{weave, arg_text}
use landau.Data.Interpolate.Build.{texts, build_sound, build_complete, build-Checked}
use landau.Data.Interpolate.Dates.{IsClock, calendar_text_lem, calendar_text_far}

module _ (rt : Runtime) (c : MysqlInterpolate) (q : Bytes) (args : List (Value rt)) where
  -- A built statement is the query with its marks replaced, in order, by the texts of the arguments,
  -- and there are as many arguments as marks.
  pub get_built_sql-weave :
      {s : Bytes}
      → get_built_sql rt c q args ≡ built s
      → (count_byte b'?' q ≡ length args)
        × (ts : List Bytes) × (texts rt c args ≡ some ts)
        × (s ≡ weave q ts)
  unfolding get_built_sql
  get_built_sql-weave {s} h = elim (Bool-cases (count_byte b'?' q == length args)) [
    | inl e ↦
        let (ts, all, whole) = build_sound rt c q args [] (rw e at h) in
        (ground arith, ts, all, whole)
    | inr e ↦ let stops : failed unmatched ≡ built s = rw e at h in absurd (ground (arith, stops))
  ]

  -- With as many arguments as marks, texts for all of them and a result that fits the packet, the
  -- statement is built.
  pub get_built_sql_complete :
      (ts : List Bytes)
      → count_byte b'?' q ≡ length args
      → texts rt c args ≡ some ts
      → length (weave q ts) + 4 ≤ c.max_allowed_packet
      → get_built_sql rt c q args ≡ built (weave q ts)
  unfolding get_built_sql
  get_built_sql_complete ts n h fits = ground (arith, build_complete rt c q args [] ts n h fits)

  -- The failure `unmatched` means exactly that the numbers of marks and arguments differ.
  pub get_built_sql_unmatched :
      (get_built_sql rt c q args ≡ failed unmatched) ↔ (count_byte b'?' q ≢ length args)
  unfolding get_built_sql
  get_built_sql_unmatched =
      (λ h n. (build-Checked rt c q args [] n).0 (ground (arith, h, n)), λ n. ground (arith, n))

  -- Where every argument has a text or is of an unsupported type, no table or argument is read out of
  -- range: `GetBuiltSQL` does not panic.
  pub get_built_sql-ne-panicked :
      All (λ v. arg_text rt c v ≢ none) args → get_built_sql rt c q args ≢ panicked
  unfolding get_built_sql
  get_built_sql-ne-panicked shown h = elim (Bool-cases (count_byte b'?' q == length args)) [
    | inl e ↦ (build-Checked rt c q args [] (ground (arith, e))).1 shown (rw e at h)
    | inr e ↦ let stops : failed unmatched ≡ panicked = rw e at h in ground (arith, stops)
  ]

module _ (rt : Runtime) (c : MysqlInterpolate) where
  open rt use {Time, is_zero, local_calendar}

  -- A time on a regular clock has a text exactly if it is zero or its year is below 10000: a later
  -- year panics.
  pub arg_text_time :
      (t : Time)
      → IsClock (local_calendar t)
      → (arg_text rt c (Value.time t) ≡ none)
        ↔ ((is_zero t ≡ false) × (10000 ≤ (local_calendar t).year))
  unfolding arg_text
  arg_text_time t clock = elim (Bool-cases (ltb (local_calendar t).year 10000)) [
    | inl e ↦
        rw (calendar_text_lem (local_calendar t) clock (ltb→lt (local_calendar t).year 10000 e))
          (ground arith)
    | inr e ↦ rw (calendar_text_far (local_calendar t) (ground (arith, e))) (ground arith)
  ]

  -- A string argument stands in the statement as a literal that the server reads as the string,
  -- whatever bytes it holds, under the mode for which the interpolator was made and if what follows
  -- cannot continue a literal.
  pub arg_text_string :
      (v rest : Bytes)
      → EndsLiteral rest
      → (t : Bytes) × (arg_text rt c (Value.string v) ≡ some (some (b'\'' ∷ t)))
        × (read_literal (not c.escape_using_quotes) (t ++ rest) ≡ some (v, rest))
  unfolding arg_text
  arg_text_string v rest h = elim (Bool-cases c.escape_using_quotes) [
    | inl e ↦
        (each quoted v ++ b'\'' ∷ [], rw e, rw (e, append_assoc) (read_literal-quoted v rest h))
    | inr e ↦ (
      each backslashed v ++ b'\'' ∷ [],
      rw e,
      rw (e, append_assoc) (read_literal-backslashed v rest h),
    )
  ]
