-- ===== src/Data/Json/Setters.antt =====
-- data/json.go: what is set in a field of each type, as `setPropertyValue` and its helpers do.
use landau.Common.{
  ℕ, false, [], ◌==◌, nat_eq, bytes_eq, if◌then◌else◌, wrap_signed, ℤ, pos, ◌%◌, ◌^◌, suc,
}
use landau.Data.Json.{
  Runtime, unknown_type, not_string, blank_time_format, parse_error, panic, Read, ok, failed,
  map_read, or_failed, Kind, int, int8, int16, int32, int64, uint, uint8, uint16, uint32, uint64,
  float32, float64, string, bool, width_of, JsonValue, null, boolean, signed, unsigned, number,
  text, array, object, Values, nil, cons, to_int, to_uint, to_float, to_string, to_bool,
}
use landau.Data.Json.Structs.{
  StructField, FieldType, scalar, time, structure, pointer, slice, other_type, StructType,
  no_fields, field, GoValue, GoValues, int_value, uint_value, float_value, string_value, bool_value,
  time_value, struct_value, slice_value, nil_pointer, points_to, opaque, none_left, next,
}

module _ (runtime : Runtime) where
  open runtime use {Float, Time, zero_float, zero_time, to_size, parse_time}

  -- `reflect.Value.SetInt` and `SetUint` keep the low bits.
  abbrev pub set_int : Kind → ℤ → GoValue runtime
  set_int k z = int_value (wrap_signed (width_of k) z)

  abbrev pub set_uint : Kind → ℕ → GoValue runtime
  set_uint k n = uint_value (n % 2 ^ suc (width_of k))

  -- The scalars of `setPropertyValue`.
  unfoldable pub set_scalar : Kind → JsonValue runtime → Read (GoValue runtime)
  set_scalar int v = map_read (set_int int) (to_int runtime v int)
  set_scalar int8 v = map_read (set_int int8) (to_int runtime v int8)
  set_scalar int16 v = map_read (set_int int16) (to_int runtime v int16)
  set_scalar int32 v = map_read (set_int int32) (to_int runtime v int32)
  set_scalar int64 v = map_read (set_int int64) (to_int runtime v int64)
  set_scalar uint v = map_read (set_uint uint) (to_uint runtime v uint)
  set_scalar uint8 v = map_read (set_uint uint8) (to_uint runtime v uint8)
  set_scalar uint16 v = map_read (set_uint uint16) (to_uint runtime v uint16)
  set_scalar uint32 v = map_read (set_uint uint32) (to_uint runtime v uint32)
  set_scalar uint64 v = map_read (set_uint uint64) (to_uint runtime v uint64)
  set_scalar float32 v = map_read (λ x. float_value (to_size 32 x)) (to_float runtime v float32)
  set_scalar float64 v = map_read float_value (to_float runtime v float64)
  set_scalar string v = map_read string_value (to_string runtime v)
  set_scalar bool v = map_read bool_value (to_bool runtime v)

  -- The zero value of a type.
  abbrev pub zero_scalar : Kind → GoValue runtime
  zero_scalar int = int_value (pos 0)
  zero_scalar int8 = int_value (pos 0)
  zero_scalar int16 = int_value (pos 0)
  zero_scalar int32 = int_value (pos 0)
  zero_scalar int64 = int_value (pos 0)
  zero_scalar uint = uint_value 0
  zero_scalar uint8 = uint_value 0
  zero_scalar uint16 = uint_value 0
  zero_scalar uint32 = uint_value 0
  zero_scalar uint64 = uint_value 0
  zero_scalar float32 = float_value zero_float
  zero_scalar float64 = float_value zero_float
  zero_scalar string = string_value []
  zero_scalar bool = bool_value false

  unfoldable mutual
    pub zero_of : FieldType → GoValue runtime
    zero_of (scalar k) = zero_scalar k
    zero_of time = time_value zero_time
    zero_of (structure s) = struct_value (zero_fields s)
    zero_of (pointer t) = nil_pointer
    zero_of (slice t) = slice_value none_left
    zero_of other_type = opaque

    pub zero_fields : StructType → GoValues runtime
    zero_fields no_fields = none_left
    zero_fields (field f t s) = next (zero_of t) (zero_fields s)

  -- `setPropertyValue` through pointers: a struct, a slice or another type is unknown to it.
  unfoldable pub set_property_value : FieldType → JsonValue runtime → Read (GoValue runtime)
  set_property_value (scalar k) v = set_scalar k v
  set_property_value (pointer t) v = map_read points_to (set_property_value t v)
  set_property_value time v = failed unknown_type
  set_property_value (structure s) v = failed unknown_type
  set_property_value (slice t) v = failed unknown_type
  set_property_value other_type v = failed unknown_type

  -- `setTimePropertyValue`; the location of the tags is found when the text is parsed.
  unfoldable pub set_time_property_value : StructField → JsonValue runtime → Read (GoValue runtime)
  set_time_property_value f (text s) =
      if f.time_format == []
      then failed blank_time_format
      else if s == []
      then ok (time_value zero_time)
      else map_read time_value
          (or_failed parse_error (parse_time f.time_format f.time_utc f.time_location s))
  set_time_property_value f null = failed not_string
  set_time_property_value f (boolean b) = failed not_string
  set_time_property_value f (signed z) = failed not_string
  set_time_property_value f (unsigned n) = failed not_string
  set_time_property_value f (number size x) = failed not_string
  set_time_property_value f (array xs) = failed not_string
  set_time_property_value f (object m) = failed not_string

  -- `getSliceValue`: for `null` the reflection panics.
  unfoldable pub get_slice_value : JsonValue runtime → Read (Values runtime)
  get_slice_value (array xs) = ok xs
  get_slice_value null = failed panic
  get_slice_value (boolean b) = ok (cons (boolean b) nil)
  get_slice_value (signed z) = ok (cons (signed z) nil)
  get_slice_value (unsigned n) = ok (cons (unsigned n) nil)
  get_slice_value (number size x) = ok (cons (number size x) nil)
  get_slice_value (text s) = ok (cons (text s) nil)
  get_slice_value (object m) = ok (cons (object m) nil)
