-- ===== src/Data/Interpolate/Literal.antt =====
-- How the server reads a string literal, and that the escapes of data/mysql_interpolate.go are read
-- back as the value. The reader follows the MySQL manual on string literals.
use landau.Common.{
  ℕ, ◌≡◌, ◌≢◌, refl, Bool, true, false, [], ◌∷◌, ◌++◌, ◌==◌, nat_eq, Bytes, Option, none, some,
  if◌then◌else◌, arith, ◌&&◌, Option-cases, Bool-cases, inl, inr, beq_ne, eq_of_beq, subst,
}
use landau.Data.Interpolate.Buffer.{escape_code, backslashed, quoted, each}

-- What `\d` stands for in a literal.
abbrev pub reveal : ℕ → Bytes
reveal d =
    if d == b'0'
    then 0 ∷ []
    else if d == b'b'
    then 8 ∷ []
    else if d == b'n'
    then b'\n' ∷ []
    else if d == b'r'
    then b'\r' ∷ []
    else if d == b't'
    then b'\t' ∷ []
    else if d == b'Z'
    then 0x1a ∷ []
    else if d == b'%'
    then b'\\' ∷ b'%' ∷ []
    else if d == b'_'
    then b'\\' ∷ b'_' ∷ []
    else d ∷ []

abbrev pub prepend : Bytes → Option (Bytes × Bytes) → Option (Bytes × Bytes)
prepend v none = none
prepend v (some (w, rest)) = some (v ++ w, rest)

-- The text behind an opening quote: the value, and what follows the closing quote. The first
-- argument says whether a backslash escapes, which the mode NO_BACKSLASH_ESCAPES turns off.
pub read_literal : Bool → Bytes → Option (Bytes × Bytes)
read_literal escapes [] = none
read_literal escapes (c ∷ []) = if c == b'\'' then some ([], []) else none
read_literal escapes (c ∷ d ∷ s) =
    let escaped = prepend (reveal d) (read_literal escapes s) in
    let doubled = prepend (b'\'' ∷ []) (read_literal escapes s) in
    let plain = prepend (c ∷ []) (read_literal escapes (d ∷ s)) in
    if escapes && (c == b'\\')
    then escaped
    else if c == b'\''
    then (if d == b'\'' then doubled else some ([], d ∷ s))
    else plain

-- A text that does not begin with a quote.
abbrev pub EndsLiteral : Bytes → Type 0
EndsLiteral [] = Unit
EndsLiteral (c ∷ _) = c ≢ b'\''

pub read_end :
    (escapes : Bool) (rest : Bytes)
    → EndsLiteral rest
    → read_literal escapes (b'\'' ∷ rest) ≡ some ([], rest)
unfolding read_literal
read_end true [] h = refl
read_end false [] h = refl
read_end true (c ∷ rest) h = ground arith
read_end false (c ∷ rest) h = ground arith

pub read_plain :
    (escapes : Bool) (c : ℕ) (s : Bytes)
    → (escapes && (c == b'\\')) ≡ false
    → c ≢ b'\''
    → read_literal escapes (c ∷ s) ≡ prepend (c ∷ []) (read_literal escapes s)
unfolding read_literal
read_plain escapes c [] h k = ground arith
read_plain escapes c (d ∷ s) h k = rw h (ground arith)

pub read_escape :
    (d : ℕ) (s : Bytes)
    → read_literal true (b'\\' ∷ d ∷ s) ≡ prepend (reveal d) (read_literal true s)
unfolding read_literal
read_escape d s = refl

read_doubled :
    (s : Bytes)
    → read_literal false (b'\'' ∷ b'\'' ∷ s) ≡ prepend (b'\'' ∷ []) (read_literal false s)
unfolding read_literal
read_doubled s = refl

reveal-escape_code : (c d : ℕ) → escape_code c ≡ some d → reveal d ≡ c ∷ []
unfolding escape_code
reveal-escape_code c d h = ground arith

escape_code-none : (c : ℕ) → escape_code c ≡ none → (c ≢ b'\\') × (c ≢ b'\'')
unfolding escape_code
escape_code-none c h = ground arith

-- Where a backslash escapes, the server reads the escaped bytes and the closing quote as the value,
-- whatever bytes it holds, if what follows cannot continue a literal: no value ends its literal early.
pub read_literal-backslashed :
    (v rest : Bytes)
    → EndsLiteral rest
    → read_literal true (each backslashed v ++ b'\'' ∷ rest) ≡ some (v, rest)
unfolding backslashed
read_literal-backslashed [] rest h = read_end true rest h
read_literal-backslashed (c ∷ v) rest h = elim (Option-cases (escape_code c)) [
  | inl e ↦
      let text : backslashed c ≡ c ∷ [] = rw (e, backslashed) in
      let (not_escape, not_quote) = escape_code-none c e in
      rw (
        text,
        read_plain true c _ (beq_ne c b'\\' not_escape) not_quote,
        read_literal-backslashed v rest h,
      )
  | inr (d, e) ↦
      let text : backslashed c ≡ b'\\' ∷ d ∷ [] = rw (e, backslashed) in
      rw (text, read_escape d _, reveal-escape_code c d e, read_literal-backslashed v rest h)
]

-- Where no backslash escapes, the server reads the bytes with doubled quotes and the closing quote as
-- the value, whatever bytes it holds, if what follows cannot continue a literal.
pub read_literal-quoted :
    (v rest : Bytes)
    → EndsLiteral rest
    → read_literal false (each quoted v ++ b'\'' ∷ rest) ≡ some (v, rest)
unfolding quoted
read_literal-quoted [] rest h = read_end false rest h
read_literal-quoted (c ∷ v) rest h = elim (Bool-cases (c == b'\'')) [
  | inl e ↦
      let text : quoted c ≡ b'\'' ∷ b'\'' ∷ [] = rw (e, quoted) in
      rw (text, read_doubled _, read_literal-quoted v rest h, eq_of_beq c b'\'' e)
  | inr e ↦
      let text : quoted c ≡ c ∷ [] = rw (e, quoted) in
      rw (
        text,
        read_plain false c _ refl (λ p. cc (subst (λ x. (x == b'\'') ≡ false) p e)),
        read_literal-quoted v rest h,
      )
]
