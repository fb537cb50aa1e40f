-- ===== src/Data/Json.antt =====
-- data/json.go: JSON values, the types of the fields that they are read into, and the reading of scalars.
-- encoding/json stays outside: `JsonValue` is what it makes of a text, with the other numbers that the type
-- switches name. Floats are an argument, and so is the parser of times.
pub mod Structs
pub mod Unmarshal
pub mod Setters
pub mod Typing
use landau.Common.{
  ℕ, zero, suc, ◌+◌, ◌-◌, ◌*◌, ◌%◌, ◌^◌, Bool, true, false, List, [], ◌∷◌, ◌++◌, ◌==◌, nat_eq,
  bytes_eq, Bytes, codes, Option, none, some, if◌then◌else◌, ℤ, pos, wrap_unsigned, wrap_signed,
  format_int, parse_int, parse_uint,
}

-- Floats and times: the conversions of Go, strconv and the package time. A size is 32 or 64 bits.
pub record Runtime : Type 1 where
  pub Float : Type 0
  pub Time : Type 0
  pub zero_float : Float
  pub zero_time : Time
  pub float_to_int : Float → ℤ
  pub float_to_uint : Float → ℕ
  pub int_to_float : ℤ → Float
  pub to_size : ℕ → Float → Float
  pub parse_float : ℕ → Bytes → Option Float
  pub format_g : ℕ → Float → Bytes
  pub parse_time : Bytes → Bytes → Bytes → Bytes → Option Time

-- The errors by their texts; an error of strconv or of the package time is one of them.
pub data Failure : Type 0 where
  unsupport_to_int unsupport_to_uint unsupport_to_float unsupport_to_string : Failure
  unknown_type invalid_data not_string blank_time_format parse_error panic : Failure

pub data Read {ℓ} (A : Type ℓ) : Type ℓ where
  ok : A → Read A
  failed : Failure → Read A

abbrev pub and_then {ℓ κ} : {A : Type ℓ} {B : Type κ} → Read A → (A → Read B) → Read B
and_then (ok a) f = f a
and_then (failed e) f = failed e

abbrev pub map_read {ℓ κ} : {A : Type ℓ} {B : Type κ} → (A → B) → Read A → Read B
map_read f (ok a) = ok (f a)
map_read f (failed e) = failed e

abbrev pub or_failed {ℓ} : {A : Type ℓ} → Failure → Option A → Read A
or_failed e none = failed e
or_failed e (some a) = ok a

-- `reflect.Kind`, of the scalars.
pub data Kind : Type 0 where
  int int8 int16 int32 int64 uint uint8 uint16 uint32 uint64 float32 float64 string bool : Kind

-- `byteSizeMap`; a kind that is missing reads as 0.
abbrev pub byte_size : Kind → ℕ
byte_size int = 0
byte_size int8 = 8
byte_size int16 = 16
byte_size int32 = 32
byte_size int64 = 64
byte_size uint = 0
byte_size uint8 = 8
byte_size uint16 = 16
byte_size uint32 = 32
byte_size uint64 = 64
byte_size float32 = 32
byte_size float64 = 64
byte_size string = 0
byte_size bool = 0

-- strconv takes the size 0 for that of `int`, 64 bits.
abbrev pub width_of : Kind → ℕ
width_of k = (if byte_size k == 0 then 64 else byte_size k) - 1

module _ (runtime : Runtime) where
  open runtime use {
    Float, float_to_int, float_to_uint, int_to_float, to_size, parse_float, format_g,
  }

  -- An `interface{}`: `signed` and `unsigned` stand for the integers of every size.
  mutual
    pub data JsonValue : Type 0 where
      null : JsonValue
      boolean : Bool → JsonValue
      signed : ℤ → JsonValue
      unsigned : ℕ → JsonValue
      number : ℕ → Float → JsonValue
      text : Bytes → JsonValue
      array : Values → JsonValue
      object : Fields → JsonValue

    pub data Values : Type 0 where
      nil : Values
      cons : JsonValue → Values → Values

    pub data Fields : Type 0 where
      end : Fields
      member : Bytes → JsonValue → Fields → Fields

  unfoldable pub to_int : JsonValue → Kind → Read ℤ
  to_int (signed z) k = ok z
  to_int (unsigned n) k = ok (wrap_signed 63 (pos n))
  to_int (number size x) k = ok (float_to_int x)
  to_int (text s) k = or_failed parse_error (parse_int (width_of k) s)
  to_int null k = failed unsupport_to_int
  to_int (boolean b) k = failed unsupport_to_int
  to_int (array xs) k = failed unsupport_to_int
  to_int (object m) k = failed unsupport_to_int

  unfoldable pub to_uint : JsonValue → Kind → Read ℕ
  to_uint (signed z) k = ok (wrap_unsigned 64 z)
  to_uint (unsigned n) k = ok n
  to_uint (number size x) k = ok (float_to_uint x)
  to_uint (text s) k = or_failed parse_error (parse_uint (suc (width_of k)) s)
  to_uint null k = failed unsupport_to_uint
  to_uint (boolean b) k = failed unsupport_to_uint
  to_uint (array xs) k = failed unsupport_to_uint
  to_uint (object m) k = failed unsupport_to_uint

  unfoldable pub to_float : JsonValue → Kind → Read Float
  to_float (signed z) k = ok (int_to_float z)
  to_float (unsigned n) k = ok (int_to_float (pos n))
  to_float (number size x) k = ok x
  to_float (text s) k = or_failed parse_error (parse_float (byte_size k) s)
  to_float null k = failed unsupport_to_float
  to_float (boolean b) k = failed unsupport_to_float
  to_float (array xs) k = failed unsupport_to_float
  to_float (object m) k = failed unsupport_to_float

  unfoldable pub to_string : JsonValue → Read Bytes
  to_string (signed z) = ok (format_int z)
  to_string (unsigned n) = ok (format_int (pos n))
  to_string (number size x) = ok (format_g size x)
  to_string (text s) = ok s
  to_string null = failed unsupport_to_string
  to_string (boolean b) = failed unsupport_to_string
  to_string (array xs) = failed unsupport_to_string
  to_string (object m) = failed unsupport_to_string

  abbrev listed : Bytes → List Bytes → Bool
  listed s [] = false
  listed s (t ∷ ts) = if s == t then true else listed s ts

  -- `strconv.ParseBool`.
  abbrev parse_bool : Bytes → Read Bool
  parse_bool s =
      if listed s
        (codes "1" ∷ codes "t" ∷ codes "T" ∷ codes "true" ∷ codes "TRUE" ∷ codes "True" ∷ [])
      then ok true
      else if listed s
          (codes "0" ∷ codes "f" ∷ codes "F" ∷ codes "false" ∷ codes "FALSE" ∷ codes "False" ∷ [])
      then ok false
      else failed parse_error

  -- The texts of `%v` begin with `[` for an array and with `map[` for a map: no Boolean.
  unfoldable pub to_bool : JsonValue → Read Bool
  to_bool (signed z) = parse_bool (format_int z)
  to_bool (unsigned n) = parse_bool (format_int (pos n))
  to_bool (number size x) = parse_bool (format_g size x)
  to_bool (text s) = parse_bool s
  to_bool null = parse_bool (codes "<nil>")
  to_bool (boolean true) = parse_bool (codes "true")
  to_bool (boolean false) = parse_bool (codes "false")
  to_bool (array xs) = failed parse_error
  to_bool (object m) = failed parse_error
