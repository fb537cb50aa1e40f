-- ===== src/Protocol/Bitmap/Octets.antt =====
-- Both loops of protocol/bitmap.go, eight characters at a time.
use landau.Common.{
  ℕ, zero, suc, ◌+◌, ◌*◌, ◌/◌, ◌%◌, ◌<◌, ◌≤◌, ◌≡◌, refl, [], ◌∷◌, ◌++◌, ◌==◌, if◌then◌else◌, nat_eq,
  Bytes, arith, append_assoc, append-nil, ltb, sym, ◌∙◌, true, false, Bool-cases, inl, inr, get_or,
  ap,
}
use landau.Protocol.Bitmap.{
  uint8arr, zero_char, one_char, append_rounds, append_binary_string, add_bit, read_bits,
}

-- The value of a character as a bit.
abbrev pub bit : ℕ → ℕ
bit c = if c == one_char then 1 else 0

abbrev pub top : ℕ → ℕ
top b = if ltb b 128 then zero_char else one_char

-- The highest `n` bits of a byte as characters.
abbrev pub byte_chars : ℕ → ℕ → Bytes
byte_chars zero b = []
byte_chars (suc n) b = top b ∷ byte_chars n (b * 2 % 256)

append_round :
    (n : ℕ) (bs : Bytes) (b : ℕ)
    → b < 256
    → append_rounds (suc n) bs b ≡ append_rounds n (bs ++ top b ∷ []) (b * 2 % 256)
unfolding append_rounds
append_round n bs b h = elim (Bool-cases (ltb b 128)) [
  | inl e ↦ rw (char e, even, e)
  | inr e ↦ rw (char' e, even, e)
]
  where
    char : ltb b 128 ≡ true → (b == b * 2 % 256 / 2) ≡ true
    char e = ground arith

    char' : ltb b 128 ≡ false → (b == b * 2 % 256 / 2) ≡ false
    char' e = ground arith

    even : b * 2 % 256 / 2 * 2 % 256 ≡ b * 2 % 256
    even = omega arith

append_rounds_lem :
    (n : ℕ) (bs : Bytes) (b : ℕ) → b < 256 → append_rounds n bs b ≡ bs ++ byte_chars n b
append_rounds_lem zero bs b h = unfold append_rounds in sym (append-nil bs)
append_rounds_lem (suc n) bs b h =
    append_round n bs b h
    ∙ append_rounds_lem n (bs ++ top b ∷ []) (b * 2 % 256) (omega arith)
    ∙ append_assoc bs (top b ∷ []) (byte_chars n (b * 2 % 256))

pub append_binary_string_lem :
    (bs : Bytes) (b : ℕ) → b < 256 → append_binary_string bs b ≡ bs ++ byte_chars 8 b
unfolding append_binary_string
append_binary_string_lem bs b h = append_rounds_lem 8 bs b h

-- The loop looks at its index modulo eight only.
read_bits_shift : (s : Bytes) (i n : ℕ) (bs : Bytes) → read_bits s (i + 8) n bs ≡ read_bits s i n bs
unfolding read_bits
read_bits_shift [] i n bs = refl
read_bits_shift (c ∷ s) i n bs =
    let same : (i + 8 + 8) % 8 ≡ (i + 8) % 8 = omega arith in
    let next : i + 8 + 1 ≡ i + 1 + 8 = omega arith in
    rw (same, next) (read_bits_shift s (i + 1) _ _)

add_bit_lem :
    (c m n : ℕ) → n + get_or uint8arr m 0 < 256 → add_bit c m n ≡ n + get_or uint8arr m 0 * bit c
unfolding add_bit
add_bit_lem c m n h = ground arith

pub bit_le : (c : ℕ) → bit c ≤ 1
bit_le c = ground arith

-- The byte that eight characters spell.
abbrev pub weigh : ℕ → ℕ → ℕ → ℕ → ℕ → ℕ → ℕ → ℕ → ℕ
weigh a b c d e f g h =
    128 * bit a + 64 * bit b + 32 * bit c + 16 * bit d + 8 * bit e + 4 * bit f + 2 * bit g + bit h

pub read_bits_octet :
    (a b c d e f g h : ℕ) (rest bs : Bytes)
    → read_bits (a ∷ b ∷ c ∷ d ∷ e ∷ f ∷ g ∷ h ∷ rest) 0 0 bs
      ≡ read_bits rest 0 0 (bs ++ weigh a b c d e f g h ∷ [])
unfolding read_bits
read_bits_octet a b c d e f g h rest bs =
    read_bits_shift rest 0 0 _ ∙ ap (λ v. read_bits rest 0 0 (bs ++ v ∷ [])) spelled
  where
    spelled :
        add_bit h 7 (
          add_bit g 6
            (add_bit f 5 (add_bit e 4 (add_bit d 3 (add_bit c 2 (add_bit b 1 (add_bit a 0 0)))))))
        ≡ weigh a b c d e f g h
    spelled = omega (
      arith,
      add_bit_lem,
      bit_le a,
      bit_le b,
      bit_le c,
      bit_le d,
      bit_le e,
      bit_le f,
      bit_le g,
      bit_le h,
    )
