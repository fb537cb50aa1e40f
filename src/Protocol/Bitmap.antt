-- ===== src/Protocol/Bitmap.antt =====
-- protocol/bitmap.go: a permission bitmap as bytes, and as a text of '0' and '1'.
pub mod Octets
pub mod RoundTrip
mod Tests
use landau.Common.{
  ℕ, zero, suc, ◌+◌, ◌-◌, ◌*◌, ◌/◌, ◌%◌, List, [], ◌∷◌, ◌++◌, ◌==◌, if◌then◌else◌, nat_eq, Bytes,
  length, get_or, replicate,
}

abbrev pub zero_char : ℕ
zero_char = b'0'

abbrev pub one_char : ℕ
one_char = b'1'

-- `uint8arr`, as `init` fills it.
abbrev pub uint8arr : List ℕ
uint8arr = 128 ∷ 64 ∷ 32 ∷ 16 ∷ 8 ∷ 4 ∷ 2 ∷ 1 ∷ []

-- `b <<= 1` and `b >>= 1` on a `byte`.
abbrev pub shl : ℕ → ℕ
shl b = b * 2 % 256

abbrev pub shr : ℕ → ℕ
shr b = b / 2

-- The `for` loop of `appendBinaryString`, with the rounds that are left.
append_rounds : ℕ → Bytes → ℕ → Bytes
append_rounds zero bs b = bs
append_rounds (suc n) bs b =
    let c = shr (shl b) in
    append_rounds n (bs ++ (if b == c then zero_char else one_char) ∷ []) (shl c)

pub append_binary_string : Bytes → ℕ → Bytes
append_binary_string bs b = append_rounds 8 bs b

append_all : Bytes → Bytes → Bytes
append_all buf [] = buf
append_all buf (b ∷ bitmaps) = append_all (append_binary_string buf b) bitmaps

unfoldable pub convert_bitmap_byte_to_string : Bytes → Bytes
unfolding append_all append_binary_string append_rounds
convert_bitmap_byte_to_string bitmaps = append_all [] bitmaps

-- `n += uint8arr[m]` wraps in a `uint8`.
pub add_bit : ℕ → ℕ → ℕ → ℕ
add_bit b m n = if b == one_char then (n + get_or uint8arr m 0) % 256 else n

-- The loop over the text: the index, the byte so far and the bytes done.
pub read_bits : Bytes → ℕ → ℕ → Bytes → Bytes
read_bits [] i n bs = bs
read_bits (b ∷ rest) i n bs =
    let m = (i + 8) % 8 in
    let n' = add_bit b m n in
    read_bits rest (i + 1) (if m == 7 then 0 else n') (if m == 7 then bs ++ n' ∷ [] else bs)

-- `bitmaps += strings.Repeat("0", 8-mo)`, if the length is no multiple of eight.
unfoldable pub pad_bits : Bytes → Bytes
pad_bits bitmaps =
    let mo = length bitmaps % 8 in
    if mo == 0 then bitmaps else bitmaps ++ replicate (8 - mo) zero_char

unfoldable pub convert_bitmap_string_to_byte : Bytes → Bytes
convert_bitmap_string_to_byte bitmaps =
    if length bitmaps == 0 then [] else read_bits (pad_bits bitmaps) 0 0 []
