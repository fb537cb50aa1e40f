-- ===== src/Data/Database/Where.antt =====
-- `GetWhereClause` of data/db_base.go: conditions on columns, joined by AND.
use landau.Common.{
  ℕ, ◌≡◌, refl, sym, ap, ◌∙◌, true, List, [], ◌∷◌, ◌++◌, map, Bytes, codes, ℤ, format_int, ◌==◌,
  nat_eq, bytes_eq, if◌then◌else◌, Option, none, some, replace_byte, join, join_rest, arith,
  append_assoc, append-nil, Bool-cases, Option-cases, inl, inr, ◌⊎◌, eq_of_beq,
}
use landau.Data.Interpolate.Literal.{read_literal, EndsLiteral, read_end, read_plain, read_escape}

-- The types of a searched value that the `switch` names, and any other.
pub data SearchValue : Type 0 where
  strings : List Bytes → SearchValue
  ints : List ℤ → SearchValue
  one_string : Bytes → SearchValue
  one_int : ℤ → SearchValue
  other_value : SearchValue

unfoldable pub escape_where : Bytes → Bytes
escape_where s = replace_byte b'\'' (codes "\\'") (replace_byte b'\\' (codes "\\\\") s)

unfoldable pub quote_where : Bytes → Bytes
quote_where s = b'\'' ∷ escape_where s ++ b'\'' ∷ []

-- `strInValues`
unfoldable pub in_values : SearchValue → List Bytes
in_values (strings ss) = map quote_where ss
in_values (ints ns) = map format_int ns
in_values (one_string s) = quote_where s ∷ []
in_values (one_int n) = format_int n ∷ []
in_values other_value = []

-- The condition on one column, if it has values.
unfoldable pub column_condition : Bytes → List Bytes → Option Bytes
column_condition name [] = none
column_condition name (v ∷ []) = some (name ++ b'=' ∷ v)
column_condition name (v ∷ w ∷ vs) =
    some (name ++ codes " IN (" ++ join (codes ",") (v ∷ w ∷ vs) ++ codes ") ")

and_condition : Bytes → Option Bytes → Bytes
and_condition clause none = clause
and_condition clause (some c) = if clause == [] then c else clause ++ codes " AND " ++ c

-- The loop over the columns.
where_loop : List (Bytes × SearchValue) → Bytes → Bytes
unfolding and_condition
where_loop [] clause = clause
where_loop ((name, v) ∷ columns) clause =
    where_loop columns (and_condition clause (column_condition name (in_values v)))

unfoldable pub get_where_clause : List (Bytes × SearchValue) → Bytes
unfolding where_loop
get_where_clause columns = where_loop columns []

-- The conditions of the columns that have values, in their order.
abbrev pub with_condition : Option Bytes → List Bytes → List Bytes
with_condition none cs = cs
with_condition (some c) cs = c ∷ cs

abbrev pub conditions : List (Bytes × SearchValue) → List Bytes
conditions [] = []
conditions ((name, v) ∷ columns) =
    with_condition (column_condition name (in_values v)) (conditions columns)

where_loop_started :
    (columns : List (Bytes × SearchValue)) (a : ℕ) (clause : Bytes)
    → where_loop columns (a ∷ clause)
      ≡ (a ∷ clause) ++ join_rest (codes " AND ") (conditions columns)
unfolding where_loop and_condition
where_loop_started [] a clause = sym (append-nil (a ∷ clause))
where_loop_started ((name, v) ∷ columns) a clause =
    elim (Option-cases (column_condition name (in_values v))) [
      | inl e ↦ rw e (where_loop_started columns a clause)
      | inr (c, e) ↦ rw e (
          where_loop_started columns a (clause ++ codes " AND " ++ c)
          ∙ ap (λ s. a ∷ s) (rw (append_assoc, append_assoc) refl))
    ]

first_condition :
    (name : Bytes) (vs : List Bytes)
    → (column_condition name vs ≡ none)
      ⊎ ((a : ℕ) × (c : Bytes) × (column_condition name vs ≡ some (a ∷ c)))
unfolding column_condition
first_condition name [] = inl refl
first_condition [] (v ∷ []) = inr (_, _, refl)
first_condition (a ∷ name) (v ∷ []) = inr (_, _, refl)
first_condition [] (v ∷ w ∷ vs) = inr (_, _, refl)
first_condition (a ∷ name) (v ∷ w ∷ vs) = inr (_, _, refl)

where_loop_empty :
    (columns : List (Bytes × SearchValue))
    → where_loop columns [] ≡ join (codes " AND ") (conditions columns)
unfolding where_loop and_condition
where_loop_empty [] = refl
where_loop_empty ((name, v) ∷ columns) = elim (first_condition name (in_values v)) [
  | inl e ↦ rw e (where_loop_empty columns)
  | inr (a, c, e) ↦ rw e (where_loop_started columns a c)
]

-- The clause is the conditions of the columns that have values, in the order in which the map is met,
-- joined by AND.
pub get_where_clause_lem :
    (columns : List (Bytes × SearchValue))
    → get_where_clause columns ≡ join (codes " AND ") (conditions columns)
unfolding get_where_clause
get_where_clause_lem columns = where_loop_empty columns

escape_where_cons :
    (c : ℕ) (s : Bytes)
    → escape_where (c ∷ s) ≡ (
        if c == b'\\'
        then b'\\' ∷ b'\\' ∷ escape_where s
        else if c == b'\''
        then b'\\' ∷ b'\'' ∷ escape_where s
        else c ∷ escape_where s)
unfolding escape_where
escape_where_cons c s = ground arith

-- Where a backslash escapes, the server reads a quoted value of the clause as the value, whatever bytes
-- it holds, if what follows cannot continue a literal.
pub read_literal-escape_where :
    (s rest : Bytes)
    → EndsLiteral rest
    → read_literal true (escape_where s ++ b'\'' ∷ rest) ≡ some (s, rest)
read_literal-escape_where [] rest h = unfold escape_where in read_end true rest h
read_literal-escape_where (c ∷ s) rest h = elim (Bool-cases (c == b'\\')) [
  | inl e ↦
      rw
        (
          escape_where_cons c s,
          e,
          eq_of_beq c b'\\' e,
          read_escape b'\\' _,
          read_literal-escape_where s rest h,
        )
        refl
  | inr e ↦ elim (Bool-cases (c == b'\'')) [
    | inl q ↦
        rw
          (
            escape_where_cons c s,
            e,
            q,
            eq_of_beq c b'\'' q,
            read_escape b'\'' _,
            read_literal-escape_where s rest h,
          )
          refl
    | inr q ↦
        rw
          (
            escape_where_cons c s,
            e,
            q,
            read_plain true c (escape_where s ++ b'\'' ∷ rest) e (ground (arith, q)),
            read_literal-escape_where s rest h,
          )
          refl
  ]
]
