-- ===== src/Data/Interpolate/Buffer.antt =====
-- The buffer of data/mysql_interpolate.go and the escapes that write into it.
use landau.Common.{
  ℕ, zero, suc, ◌+◌, ◌*◌, ◌≤◌, ◌≡◌, refl, [], ◌∷◌, ◌++◌, ◌==◌, nat_eq, ltb, Bytes, length, Option,
  none, some, ◌>>=◌, if◌then◌else◌, replicate, take, sym, Bool-cases, Option-cases, inl, inr,
  length-replicate, length-take_le, take-append_add, arith, append-nil, append_assoc, length-append,
  take-append, ap,
}

-- `buf[pos] = v`: `none` is an index out of range.
write_at : ℕ → ℕ → Bytes → Option Bytes
write_at pos v [] = none
write_at zero v (x ∷ buf) = some (v ∷ buf)
write_at (suc pos) v (x ∷ buf) = do rest ← write_at pos v buf; some (x ∷ rest)

module _ (spare : Bytes → Bytes) where
  -- `buf[:newSize]` of the old memory, or of a new one of `len(buf)*2 + appendSize` zero bytes.
  reserve_buffer : Bytes → ℕ → Bytes
  reserve_buffer buf append_size =
      let new_size = length buf + append_size in
      if ltb (length buf + length (spare buf)) new_size
      then take new_size (buf ++ replicate (length buf + append_size) 0)
      else take new_size (buf ++ spare buf)

-- The second byte of an escape, for the bytes that the `switch` names.
unfoldable pub escape_code : ℕ → Option ℕ
escape_code c =
    if c == 0
    then some b'0'
    else if c == b'\n'
    then some b'n'
    else if c == b'\r'
    then some b'r'
    else if c == 0x1a
    then some b'Z'
    else if c == b'\''
    then some b'\''
    else if c == b'"'
    then some b'"'
    else if c == b'\\'
    then some b'\\'
    else none

-- One round of a loop writes one byte or two.
write_one : ℕ → ℕ → Bytes → Option (ℕ × Bytes)
write_one c pos buf = do buf' ← write_at pos c buf; some (pos + 1, buf')

write_two : ℕ → ℕ → ℕ → Bytes → Option (ℕ × Bytes)
write_two a c pos buf = do
  buf' ← write_at pos a buf
  buf'' ← write_at (pos + 1) c buf'
  some (pos + 2, buf'')

backslash_round : ℕ → ℕ → Bytes → Option (ℕ × Bytes)
backslash_round c pos buf = elim (escape_code c) [
  | some d ↦ write_two b'\\' d pos buf
  | none ↦ write_one c pos buf
]

quotes_round : ℕ → ℕ → Bytes → Option (ℕ × Bytes)
quotes_round c pos buf = if c == b'\'' then write_two b'\'' b'\'' pos buf else write_one c pos buf

-- The loop of the four functions over the bytes of `v`.
rounds : (ℕ → ℕ → Bytes → Option (ℕ × Bytes)) → Bytes → ℕ → Bytes → Option (ℕ × Bytes)
rounds round [] pos buf = some (pos, buf)
rounds round (c ∷ v) pos buf = do (pos', buf') ← round c pos buf; rounds round v pos' buf'

module _ (spare : Bytes → Bytes) where
  -- `escapeBytesBackslash` and `escapeStringBackslash`: `pos` starts at the length of the buffer.
  pub escape_backslash : Bytes → Bytes → Option Bytes
  escape_backslash buf v = do
    (pos, out) ← rounds backslash_round v (length buf) (reserve_buffer spare buf (length v * 2))
    some (take pos out)

  -- `escapeBytesQuotes` and `escapeStringQuotes`.
  pub escape_quotes : Bytes → Bytes → Option Bytes
  escape_quotes buf v = do
    (pos, out) ← rounds quotes_round v (length buf) (reserve_buffer spare buf (length v * 2))
    some (take pos out)

-- What the escapes put for one byte.
unfoldable pub backslashed : ℕ → Bytes
backslashed c = elim (escape_code c) [ some d ↦ b'\\' ∷ d ∷ [] | none ↦ c ∷ [] ]

unfoldable pub quoted : ℕ → Bytes
quoted c = if c == b'\'' then b'\'' ∷ b'\'' ∷ [] else c ∷ []

abbrev pub each : (ℕ → Bytes) → Bytes → Bytes
each f [] = []
each f (c ∷ v) = f c ++ each f v

write_at_end :
    (done : Bytes) (x v : ℕ) (rest : Bytes) (pos : ℕ)
    → pos ≡ length done
    → write_at pos v (done ++ x ∷ rest) ≡ some (done ++ v ∷ rest)
unfolding write_at
write_at_end [] x v rest zero e = refl
write_at_end [] x v rest (suc pos) e = absurd (omega arith)
write_at_end (d ∷ done) x v rest zero e = absurd (omega arith)
write_at_end (d ∷ done) x v rest (suc pos) e = rw (write_at_end done x v rest pos (omega arith))

-- A round with room for two bytes appends its text to what is written.
abbrev Appends : (ℕ → ℕ → Bytes → Option (ℕ × Bytes)) → (ℕ → Bytes) → Type 0
Appends round text =
    (c x y : ℕ) (done rest : Bytes)
    → (left : Bytes) × (round c (length done) (done ++ x ∷ y ∷ rest)
        ≡ some (length (done ++ text c), (done ++ text c) ++ left))
      × (length rest ≤ length left)

write_two_lem :
    (a c x y : ℕ) (done rest : Bytes)
    → write_two a c (length done) (done ++ x ∷ y ∷ rest)
      ≡ some (length (done ++ a ∷ c ∷ []), (done ++ a ∷ c ∷ []) ++ rest)
unfolding write_two
write_two_lem a c x y done rest =
    let next : done ++ a ∷ y ∷ rest ≡ (done ++ a ∷ []) ++ y ∷ rest =
      sym (append_assoc done (a ∷ []) _) in
    let more : length done + 1 ≡ length (done ++ a ∷ []) =
      omega (arith, length-append done (a ∷ [])) in
    let count : length done + 2 ≡ length (done ++ a ∷ c ∷ []) =
      omega (arith, length-append done (a ∷ c ∷ [])) in
    rw
      (
        write_at_end done x a (y ∷ rest) (length done) refl,
        next,
        write_at_end (done ++ a ∷ []) y c rest (length done + 1) more,
        count,
      )
      (simp append_assoc)

write_one_lem :
    (c x y : ℕ) (done rest : Bytes)
    → write_one c (length done) (done ++ x ∷ y ∷ rest)
      ≡ some (length (done ++ c ∷ []), (done ++ c ∷ []) ++ y ∷ rest)
unfolding write_one
write_one_lem c x y done rest =
    let count : length done + 1 ≡ length (done ++ c ∷ []) =
      omega (arith, length-append done (c ∷ [])) in
    rw (write_at_end done x c (y ∷ rest) (length done) refl, count) (simp append_assoc)

rounds_lem :
    (round : ℕ → ℕ → Bytes → Option (ℕ × Bytes)) (text : ℕ → Bytes)
    → Appends round text
    → (v done rest : Bytes) → length v * 2 ≤ length rest
    → (left : Bytes) × (rounds round v (length done) (done ++ rest)
        ≡ some (length (done ++ each text v), (done ++ each text v) ++ left))
unfolding rounds
rounds_lem round text one [] done rest h = (rest, rw append-nil)
rounds_lem round text one (c ∷ v) done [] h = absurd (omega arith)
rounds_lem round text one (c ∷ v) done (x ∷ []) h = absurd (omega arith)
rounds_lem round text one (c ∷ v) done (x ∷ y ∷ rest) h =
    let (left, step, room) = one c x y done rest in
    let (end, more) = rounds_lem round text one v (done ++ text c) left (omega arith) in
    (end, rw (step, more) (simp append_assoc))

reserve_buffer_lem :
    (spare : Bytes → Bytes) (buf : Bytes) (n : ℕ)
    → (rest : Bytes) × (reserve_buffer spare buf n ≡ buf ++ rest) × (length rest ≡ n)
unfolding reserve_buffer
reserve_buffer_lem spare buf n =
    elim (Bool-cases (ltb (length buf + length (spare buf)) (length buf + n))) [
      | inl new ↦ (
        take n (replicate (length buf + n) 0),
        rw new (take-append_add _ n buf _ refl),
        length-take_le n _ (omega (arith, length-replicate {A = ℕ} (length buf + n) 0)),
      )
      | inr old ↦ (
        take n (spare buf),
        rw old (take-append_add _ n buf _ refl),
        length-take_le n _ (ground arith),
      )
    ]

backslash_round-Appends : Appends backslash_round backslashed
unfolding backslash_round backslashed
backslash_round-Appends c x y done rest = elim (Option-cases (escape_code c)) [
  | inl e ↦
      (y ∷ rest, rw (e, backslash_round, backslashed) (write_one_lem c x y done rest), omega arith)
  | inr (d, e) ↦ (
    rest,
    rw (e, backslash_round, backslashed) (write_two_lem b'\\' d x y done rest),
    omega arith,
  )
]

quotes_round-Appends : Appends quotes_round quoted
unfolding quotes_round quoted
quotes_round-Appends c x y done rest = elim (Bool-cases (c == b'\'')) [
  | inl e ↦ (rest, rw e (write_two_lem b'\'' b'\'' x y done rest), omega arith)
  | inr e ↦ (y ∷ rest, rw e (write_one_lem c x y done rest), omega arith)
]

-- Twice the length of the value is room enough, whatever the runtime left in the buffer: no write
-- is out of range, and the value's bytes are appended one by one in their escaped form.
pub escape_backslash_lem :
    (spare : Bytes → Bytes) (buf v : Bytes)
    → escape_backslash spare buf v ≡ some (buf ++ each backslashed v)
unfolding escape_backslash
escape_backslash_lem spare buf v =
    let (rest, whole, room) = reserve_buffer_lem spare buf (length v * 2) in
    let (left, done) =
      rounds_lem backslash_round backslashed backslash_round-Appends v buf rest (omega arith) in
    rw (whole, done) (ap some (take-append _ _ left refl))

-- In the escape that doubles quotes no write is out of range either, whatever the runtime left in the
-- buffer, and the value's bytes are appended one by one with their quotes doubled.
pub escape_quotes_lem :
    (spare : Bytes → Bytes) (buf v : Bytes)
    → escape_quotes spare buf v ≡ some (buf ++ each quoted v)
unfolding escape_quotes
escape_quotes_lem spare buf v =
    let (rest, whole, room) = reserve_buffer_lem spare buf (length v * 2) in
    let (left, done) =
      rounds_lem quotes_round quoted quotes_round-Appends v buf rest (omega arith) in
    rw (whole, done) (ap some (take-append _ _ left refl))
