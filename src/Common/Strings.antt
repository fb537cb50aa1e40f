-- ===== src/Common/Strings.antt =====
-- Go strings as lists of bytes, and what the code uses of the packages strings and strconv.
use Prim.Native.Nat.{ℕ, zero, suc, ◌+◌, ◌/◌, ◌%◌}
use Prim.Native.Char.{code}
use Prim.Native.String.{String}
use mathlib.Core.List.{List, [], ◌∷◌, ◌++◌, map}
use mathlib.Core.Option.{Option, none, some}
use mathlib.Core.Bool.{Bool, true, false, ◌&&◌, ◌||◌}
use landau.Common.Tests.{ltb, nat_beq, if◌then◌else◌}

-- A Go string, or a slice of bytes.
abbrev pub Bytes : Type 0
Bytes = List ℕ

-- The bytes of an ASCII literal.
abbrev pub codes : String → Bytes
codes String.[] = []
codes (String.◌∷◌ c s) = code c ∷ codes s

-- A Go integer; `negsuc n` is -(n + 1).
pub data ℤ : Type 0 where
  pos : ℕ → ℤ
  negsuc : ℕ → ℤ

-- Decimal digits, on fuel above the number.
unfoldable pub digits : ℕ → ℕ → Bytes
digits zero n = []
digits (suc f) n =
    let rest = digits f (n / 10) ++ (b'0' + n % 10) ∷ [] in
    if ltb n 10 then (b'0' + n) ∷ [] else rest

-- `strconv.Itoa` and `strconv.AppendInt` to the base ten.
unfoldable pub format_int : ℤ → Bytes
unfolding digits
format_int (pos n) = digits (suc n) n
format_int (negsuc n) = b'-' ∷ digits (suc (suc n)) (suc n)

-- `strings.Count` of a single byte.
abbrev pub count_byte : ℕ → Bytes → ℕ
count_byte b [] = 0
count_byte b (c ∷ s) = if nat_beq c b then suc (count_byte b s) else count_byte b s

-- `strings.IndexByte`, with the text before the byte and the text behind it.
abbrev pub cut_byte : ℕ → Bytes → Option (Bytes × Bytes)
cut_byte b [] = none
cut_byte b (c ∷ s) =
    if nat_beq c b
    then some ([], s)
    else elim (cut_byte b s) [ none ↦ none | some (before, after) ↦ some (c ∷ before, after) ]

-- `strings.HasPrefix` and `strings.Contains`.
abbrev pub starts_with : Bytes → Bytes → Bool
starts_with [] s = true
starts_with (a ∷ p) [] = false
starts_with (a ∷ p) (b ∷ s) = nat_beq a b && starts_with p s

abbrev pub contains_bytes : Bytes → Bytes → Bool
contains_bytes p [] = starts_with p []
contains_bytes p (b ∷ s) = starts_with p (b ∷ s) || contains_bytes p s

-- `strings.Replace` of every occurrence of one byte.
abbrev pub replace_byte : ℕ → Bytes → Bytes → Bytes
replace_byte b r [] = []
replace_byte b r (c ∷ s) = if nat_beq c b then r ++ replace_byte b r s else c ∷ replace_byte b r s

-- `strings.Join`.
abbrev pub join_rest : Bytes → List Bytes → Bytes
join_rest sep [] = []
join_rest sep (c ∷ cs) = sep ++ c ++ join_rest sep cs

abbrev pub join : Bytes → List Bytes → Bytes
join sep [] = []
join sep (c ∷ cs) = c ++ join_rest sep cs

-- `strings.Split` by one byte.
abbrev onto_first : ℕ → List Bytes → List Bytes
onto_first c [] = (c ∷ []) ∷ []
onto_first c (s ∷ ss) = (c ∷ s) ∷ ss

abbrev pub split_byte : ℕ → Bytes → List Bytes
split_byte b [] = [] ∷ []
split_byte b (c ∷ s) =
    let rest = split_byte b s in if nat_beq c b then [] ∷ rest else onto_first c rest

-- `strings.TrimSpace` of ASCII text.
abbrev pub is_space : ℕ → Bool
is_space c = nat_beq c 0x20 || (ltb 8 c && ltb c 14)

abbrev pub trim_left : Bytes → Bytes
trim_left [] = []
trim_left (c ∷ s) = if is_space c then trim_left s else c ∷ s

abbrev pub keep_unless_blank : ℕ → Bytes → Bytes
keep_unless_blank c [] = if is_space c then [] else c ∷ []
keep_unless_blank c (d ∷ s) = c ∷ d ∷ s

abbrev pub trim_right : Bytes → Bytes
trim_right [] = []
trim_right (c ∷ s) = keep_unless_blank c (trim_right s)

abbrev pub trim_space : Bytes → Bytes
trim_space s = trim_right (trim_left s)

-- `strings.ToLower` of ASCII text.
abbrev pub to_lower : Bytes → Bytes
to_lower = map (λ c. if ltb 0x40 c && ltb c 0x5b then c + 0x20 else c)

-- The order of texts, byte by byte.
abbrev pub bytes_ltb : Bytes → Bytes → Bool
bytes_ltb [] [] = false
bytes_ltb [] (b ∷ t) = true
bytes_ltb (a ∷ s) [] = false
bytes_ltb (a ∷ s) (b ∷ t) = if ltb a b then true else if nat_beq a b then bytes_ltb s t else false
