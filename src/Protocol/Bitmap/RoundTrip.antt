-- ===== src/Protocol/Bitmap/RoundTrip.antt =====
-- The two conversions of protocol/bitmap.go against each other.
use landau.Common.{
  ℕ, zero, suc, ◌+◌, ◌-◌, ◌*◌, ◌/◌, ◌%◌, ◌<◌, ◌≡◌, refl, [], ◌∷◌, ◌++◌, ◌==◌, if◌then◌else◌, nat_eq,
  Bytes, arith, append_assoc, append-nil, sym, ◌∙◌, ap, All, All-append, length, length-append,
  replicate, length-replicate, map,
}
use landau.Protocol.Bitmap.{
  zero_char, one_char, append_binary_string, append_all, read_bits, pad_bits,
  convert_bitmap_byte_to_string, convert_bitmap_string_to_byte,
}
use landau.Protocol.Bitmap.Octets.{
  bit, bit_le, top, byte_chars, weigh, append_binary_string_lem, read_bits_octet,
}

-- A slice of bytes holds numbers below 256.
abbrev pub IsBytes : Bytes → Type 0
IsBytes = All (λ b. b < 256)

abbrev all_chars : Bytes → Bytes
all_chars [] = []
all_chars (b ∷ bs) = byte_chars 8 b ++ all_chars bs

append_all_lem : (buf bs : Bytes) → IsBytes bs → append_all buf bs ≡ buf ++ all_chars bs
unfolding append_all
append_all_lem buf [] h = sym (append-nil buf)
append_all_lem buf (b ∷ bs) (hb, h) =
    append_all_lem (append_binary_string buf b) bs h
    ∙ ap (λ s. s ++ all_chars bs) (append_binary_string_lem buf b hb)
    ∙ append_assoc buf (byte_chars 8 b) (all_chars bs)

length-all_chars : (bs : Bytes) → length (all_chars bs) ≡ 8 * length bs
length-all_chars [] = omega arith
length-all_chars (b ∷ bs) = omega (arith, length-all_chars bs)

bit-top : (x : ℕ) → x < 256 → bit (top x) ≡ x / 128
bit-top x h = ground arith

weigh-byte_chars :
    (b : ℕ)
    → b < 256
    → (let c = b * 2 % 256 in
        let d = c * 2 % 256 in
        let e = d * 2 % 256 in
        let f = e * 2 % 256 in
        let g = f * 2 % 256 in
        let h = g * 2 % 256 in
        weigh (top b) (top c) (top d) (top e) (top f) (top g) (top h) (top (h * 2 % 256)))
      ≡ b
weigh-byte_chars b hb =
    let c : ℕ = b * 2 % 256 in
    let d : ℕ = c * 2 % 256 in
    let e : ℕ = d * 2 % 256 in
    let f : ℕ = e * 2 % 256 in
    let g : ℕ = f * 2 % 256 in
    let h : ℕ = g * 2 % 256 in
    let i : ℕ = h * 2 % 256 in
    rw
      (
        bit-top b hb,
        bit-top c (omega arith),
        bit-top d (omega arith),
        bit-top e (omega arith),
        bit-top f (omega arith),
        bit-top g (omega arith),
        bit-top h (omega arith),
        bit-top i (omega arith),
      )
      (omega arith)

read_bits-all_chars :
    (bs done : Bytes) → IsBytes bs → read_bits (all_chars bs) 0 0 done ≡ done ++ bs
read_bits-all_chars [] done h = unfold read_bits in sym (append-nil done)
read_bits-all_chars (b ∷ bs) done (hb, h) =
    read_bits_octet _ _ _ _ _ _ _ _ (all_chars bs) done
    ∙ ap (λ v. read_bits (all_chars bs) 0 0 (done ++ v ∷ [])) (weigh-byte_chars b hb)
    ∙ read_bits-all_chars bs (done ++ b ∷ []) h
    ∙ append_assoc done (b ∷ []) bs

-- A bitmap of bytes survives the trip through its text.
pub string_to_byte-byte_to_string :
    (bitmaps : Bytes)
    → IsBytes bitmaps
    → convert_bitmap_string_to_byte (convert_bitmap_byte_to_string bitmaps) ≡ bitmaps
unfolding convert_bitmap_byte_to_string
string_to_byte-byte_to_string [] h = unfold convert_bitmap_string_to_byte append_all in refl
string_to_byte-byte_to_string (b ∷ bs) h = rw (append_all_lem [] (b ∷ bs) h) (
    unfold convert_bitmap_string_to_byte pad_bits in
    ground (arith, whole, read_bits-all_chars (b ∷ bs) [] h))
  where
    whole : length (all_chars (b ∷ bs)) % 8 ≡ 0
    whole = omega (arith, length-all_chars (b ∷ bs))

abbrev pub norm : ℕ → ℕ
norm c = if c == one_char then one_char else zero_char

top-norm : (x c : ℕ) → x < 256 → x / 128 ≡ bit c → top x ≡ norm c
top-norm x c h e = ground arith

byte_chars-cons :
    (n x c r : ℕ)
    → r < 256
    → x * 2 ≡ 256 * bit c + r
    → byte_chars (suc n) x ≡ norm c ∷ byte_chars n r
byte_chars-cons n x c r hr e =
    let low : x * 2 % 256 ≡ r = ground arith in
    let high : x / 128 ≡ bit c = ground arith in rw (low, top-norm x c (ground arith) high)

byte_chars-weigh :
    (a b c d e f g h : ℕ)
    → byte_chars 8 (weigh a b c d e f g h)
      ≡ norm a ∷ norm b ∷ norm c ∷ norm d ∷ norm e ∷ norm f ∷ norm g ∷ norm h ∷ []
byte_chars-weigh a b c d e f g h =
    byte_chars-cons 7 _ a r1
      (omega
        (arith, bit_le a, bit_le b, bit_le c, bit_le d, bit_le e, bit_le f, bit_le g, bit_le h))
      (omega arith)
    ∙ ap (λ s. norm a ∷ s)
        (byte_chars-cons 6 _ b r2
            (omega (
              arith,
              bit_le a,
              bit_le b,
              bit_le c,
              bit_le d,
              bit_le e,
              bit_le f,
              bit_le g,
              bit_le h,
            ))
            (omega arith)
          ∙ ap (λ s. norm b ∷ s)
              (byte_chars-cons 5 _ c r3
                  (omega (
                    arith,
                    bit_le a,
                    bit_le b,
                    bit_le c,
                    bit_le d,
                    bit_le e,
                    bit_le f,
                    bit_le g,
                    bit_le h,
                  ))
                  (omega arith)
                ∙ ap (λ s. norm c ∷ s)
                    (byte_chars-cons 4 _ d r4
                        (omega (
                          arith,
                          bit_le a,
                          bit_le b,
                          bit_le c,
                          bit_le d,
                          bit_le e,
                          bit_le f,
                          bit_le g,
                          bit_le h,
                        ))
                        (omega arith)
                      ∙ ap (λ s. norm d ∷ s)
                          (byte_chars-cons 3 _ e r5
                              (omega (
                                arith,
                                bit_le a,
                                bit_le b,
                                bit_le c,
                                bit_le d,
                                bit_le e,
                                bit_le f,
                                bit_le g,
                                bit_le h,
                              ))
                              (omega arith)
                            ∙ ap (λ s. norm e ∷ s)
                                (byte_chars-cons 2 _ f r6
                                    (omega (
                                      arith,
                                      bit_le a,
                                      bit_le b,
                                      bit_le c,
                                      bit_le d,
                                      bit_le e,
                                      bit_le f,
                                      bit_le g,
                                      bit_le h,
                                    ))
                                    (omega arith)
                                  ∙ ap (λ s. norm f ∷ s)
                                      (byte_chars-cons 1 _ g r7
                                          (omega (
                                            arith,
                                            bit_le a,
                                            bit_le b,
                                            bit_le c,
                                            bit_le d,
                                            bit_le e,
                                            bit_le f,
                                            bit_le g,
                                            bit_le h,
                                          ))
                                          (omega arith)
                                        ∙ ap (λ s. norm g ∷ s)
                                            (byte_chars-cons 0 _ h 0 (omega arith)
                                              (omega arith))))))))
  where
    r1 : ℕ
    r1 = 128 * bit b + 64 * bit c + 32 * bit d + 16 * bit e + 8 * bit f + 4 * bit g + 2 * bit h

    r2 : ℕ
    r2 = 128 * bit c + 64 * bit d + 32 * bit e + 16 * bit f + 8 * bit g + 4 * bit h

    r3 : ℕ
    r3 = 128 * bit d + 64 * bit e + 32 * bit f + 16 * bit g + 8 * bit h

    r4 : ℕ
    r4 = 128 * bit e + 64 * bit f + 32 * bit g + 16 * bit h

    r5 : ℕ
    r5 = 128 * bit f + 64 * bit g + 32 * bit h

    r6 : ℕ
    r6 = 128 * bit g + 64 * bit h

    r7 : ℕ
    r7 = 128 * bit h

weigh_lt : (a b c d e f g h : ℕ) → weigh a b c d e f g h < 256
weigh_lt a b c d e f g h =
    omega (arith, bit_le a, bit_le b, bit_le c, bit_le d, bit_le e, bit_le f, bit_le g, bit_le h)

all_chars-append : (xs ys : Bytes) → all_chars (xs ++ ys) ≡ all_chars xs ++ all_chars ys
all_chars-append [] ys = refl
all_chars-append (x ∷ xs) ys = rw (all_chars-append xs ys)

-- What a read of whole octets returns: bytes, whose characters are the text's.
read_bits_whole :
    (k : ℕ) (s done : Bytes)
    → length s ≡ 8 * k
    → IsBytes done
    → (all_chars (read_bits s 0 0 done) ≡ all_chars done ++ map norm s)
      × IsBytes (read_bits s 0 0 done)
      × (length (read_bits s 0 0 done) ≡ length done + k)
read_bits_whole zero [] done n h = unfold read_bits in (sym (append-nil _), h, omega arith)
read_bits_whole zero (c ∷ s) done n h = absurd (omega arith)
read_bits_whole (suc k) (a ∷ b ∷ c ∷ d ∷ e ∷ f ∷ g ∷ i ∷ rest) done n h =
    let v : ℕ = weigh a b c d e f g i in
    let (chars, small, count) =
      read_bits_whole k rest (done ++ v ∷ []) (omega arith)
        (All-append _ done (v ∷ []) h (weigh_lt a b c d e f g i, tt)) in
    rw (read_bits_octet a b c d e f g i rest done)
      (chars ∙ shown, small, omega (arith, count, length-append done (v ∷ [])))
  where
    shown :
        all_chars (done ++ weigh a b c d e f g i ∷ []) ++ map norm rest
        ≡ all_chars done ++ map norm (a ∷ b ∷ c ∷ d ∷ e ∷ f ∷ g ∷ i ∷ rest)
    shown = simp (all_chars-append, append_assoc, append-nil, byte_chars-weigh)
read_bits_whole (suc k) _ done n h = absurd (omega arith)

length-pad_bits : (s : Bytes) → length (pad_bits s) ≡ 8 * ((length s + 7) / 8)
unfolding pad_bits
length-pad_bits s = ground (
  arith,
  length-append s (replicate (8 - length s % 8) zero_char),
  length-replicate (8 - length s % 8) zero_char,
)

convert_bitmap_cons :
    (c : ℕ) (s : Bytes)
    → convert_bitmap_string_to_byte (c ∷ s) ≡ read_bits (pad_bits (c ∷ s)) 0 0 []
unfolding convert_bitmap_string_to_byte
convert_bitmap_cons c s = ground arith

-- Any text comes back padded with '0' to whole octets, and with every character but '1' as '0'.
pub byte_to_string-string_to_byte :
    (s : Bytes)
    → convert_bitmap_byte_to_string (convert_bitmap_string_to_byte s) ≡ map norm (pad_bits s)
unfolding convert_bitmap_byte_to_string
byte_to_string-string_to_byte [] = unfold convert_bitmap_string_to_byte append_all pad_bits in refl
byte_to_string-string_to_byte (c ∷ s) =
    let (chars, small, _) = read_bits_whole _ (pad_bits (c ∷ s)) [] (length-pad_bits (c ∷ s)) tt in
    rw (convert_bitmap_cons c s) (append_all_lem [] _ small ∙ chars)

-- The bitmap of a text has one byte for each eight characters begun.
pub length-string_to_byte :
    (s : Bytes) → length (convert_bitmap_string_to_byte s) ≡ (length s + 7) / 8
length-string_to_byte [] = unfold convert_bitmap_string_to_byte in omega arith
length-string_to_byte (c ∷ s) =
    let (_, _, count) = read_bits_whole _ (pad_bits (c ∷ s)) [] (length-pad_bits (c ∷ s)) tt in
    rw (convert_bitmap_cons c s) (omega (arith, count))
