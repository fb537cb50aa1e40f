-- ===== src/Protocol/Bitmap/Tests.antt =====
-- Runs of protocol/bitmap.go, and its theorems at concrete inputs.
use landau.Common.{◌≡◌, refl, [], ◌∷◌, arith, codes}
use landau.Protocol.Bitmap.{
  convert_bitmap_byte_to_string, convert_bitmap_string_to_byte, pad_bits, read_bits, add_bit,
}
use landau.Protocol.Bitmap.RoundTrip.{string_to_byte-byte_to_string}

five_bits : convert_bitmap_string_to_byte (codes "10110") ≡ 0xb0 ∷ []
unfolding convert_bitmap_string_to_byte pad_bits read_bits add_bit
five_bits = refl

one_byte : convert_bitmap_byte_to_string (0xa5 ∷ []) ≡ codes "10100101"
unfolding convert_bitmap_byte_to_string
one_byte = refl

string_to_byte-byte_to_string_example :
    convert_bitmap_string_to_byte (convert_bitmap_byte_to_string (0xa5 ∷ 7 ∷ [])) ≡ 0xa5 ∷ 7 ∷ []
string_to_byte-byte_to_string_example = string_to_byte-byte_to_string (0xa5 ∷ 7 ∷ []) (omega arith)
