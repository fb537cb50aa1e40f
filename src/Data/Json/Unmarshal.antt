-- ===== src/Data/Json/Unmarshal.antt =====
-- The loop of `jsonUnmarshalFromMap` in data/json.go: a map read into a struct, field by field.
-- What an error leaves in the struct is not kept.
pub mod Pointers
use landau.Common.{
  ℕ, Bool, true, false, not, List, [], ◌∷◌, ◌==◌, nat_eq, bytes_eq, Bytes, codes, Option, none,
  some, if◌then◌else◌, ℤ, split_byte,
}
use landau.Data.Json.{
  Runtime, unknown_type, invalid_data, panic, Read, ok, failed, and_then, map_read, or_failed,
  parse_error, JsonValue, null, boolean, signed, unsigned, number, text, array, object, Values, nil,
  cons, Fields,
}
use landau.Data.Json.Structs.{
  StructField, FieldType, scalar, time, structure, pointer, slice, other_type, StructType,
  no_fields, field, tag_name, default_value, GoValue, GoValues, int_value, uint_value, float_value,
  string_value, bool_value, time_value, struct_value, slice_value, nil_pointer, points_to, opaque,
  none_left, next, find, get_case_insensitive_key, prepare_gw_array_parameter,
}
use landau.Data.Json.Setters.{
  set_scalar, set_property_value, set_time_property_value, get_slice_value, zero_of, zero_fields,
}

module _ (runtime : Runtime) (gw_match : Bytes → Bytes → Bool) where
  -- The loop over the elements, with the reading of one of them.
  abbrev pub read_elements :
      (JsonValue runtime → Read (GoValue runtime)) → Values runtime → Read (GoValues runtime)
  read_elements f nil = ok none_left
  read_elements f (cons x xs) =
      let rest = read_elements f xs in and_then (f x) λ y. map_read (next y) rest

  -- A slice without elements leaves the field as it is.
  abbrev pub fill_slice :
      (JsonValue runtime → Read (GoValue runtime))
      → GoValue runtime
      → Values runtime
      → Read (GoValue runtime)
  fill_slice f v nil = ok v
  fill_slice f v (cons x xs) = map_read slice_value (read_elements f (cons x xs))

  abbrev pub if_found :
      (JsonValue runtime → Read (GoValue runtime))
      → GoValue runtime
      → Option (JsonValue runtime)
      → Read (GoValue runtime)
  if_found f v none = ok v
  if_found f v (some x) = f x

  -- What a pointer holds once it is not nil.
  abbrev pub behind : GoValue runtime → GoValue runtime → GoValue runtime
  behind fresh (points_to v) = v
  behind fresh nil_pointer = fresh
  behind fresh (int_value z) = fresh
  behind fresh (uint_value n) = fresh
  behind fresh (float_value x) = fresh
  behind fresh (string_value s) = fresh
  behind fresh (bool_value b) = fresh
  behind fresh (time_value x) = fresh
  behind fresh (struct_value vs) = fresh
  behind fresh (slice_value vs) = fresh
  behind fresh opaque = fresh

  abbrev or_default : Bytes → Option (JsonValue runtime) → Option (JsonValue runtime)
  or_default d (some x) = some x
  or_default d none = if d == [] then none else some (text d)

  abbrev pub input_found : StructField → Fields runtime → Option (JsonValue runtime)
  input_found f m =
      find runtime (get_case_insensitive_key runtime (tag_name f (split_byte b',' f.json_tag)) m) m

  -- A field that is no struct: its input or its default, and nothing without either.
  abbrev pub read_input :
      StructField
      → Fields runtime
      → GoValue runtime
      → (JsonValue runtime → Read (GoValue runtime))
      → Read (GoValue runtime)
  read_input f m v g =
      and_then (default_value (split_byte b',' f.json_tag))
        λ d. if_found g v (or_default d (input_found f m))

  -- `Set` of a slice at a pointer to a slice panics.
  abbrev pub misplaced :
      (JsonValue runtime → Read (GoValue runtime))
      → GoValue runtime
      → Values runtime
      → Read (GoValue runtime)
  misplaced f v nil = ok v
  misplaced f v (cons x xs) = and_then (read_elements f (cons x xs)) λ ys. failed panic

  abbrev pub with_map :
      (Fields runtime → Read (GoValue runtime))
      → Read (GoValue runtime)
      → JsonValue runtime
      → Read (GoValue runtime)
  with_map f other (object m) = f m
  with_map f other null = other
  with_map f other (boolean b) = other
  with_map f other (signed z) = other
  with_map f other (unsigned n) = other
  with_map f other (number size x) = other
  with_map f other (text s) = other
  with_map f other (array xs) = other

  abbrev pub fields_of : GoValues runtime → GoValue runtime → GoValues runtime
  fields_of fresh (struct_value vs) = vs
  fields_of fresh nil_pointer = fresh
  fields_of fresh (points_to v) = fresh
  fields_of fresh (int_value z) = fresh
  fields_of fresh (uint_value n) = fresh
  fields_of fresh (float_value x) = fresh
  fields_of fresh (string_value s) = fresh
  fields_of fresh (bool_value b) = fresh
  fields_of fresh (time_value x) = fresh
  fields_of fresh (slice_value vs) = fresh
  fields_of fresh opaque = fresh

  abbrev head_of : List Bytes → Bytes
  head_of [] = []
  head_of (n ∷ options) = n

  abbrev pub is_skipped : StructField → Bool
  is_skipped f = head_of (split_byte b',' f.json_tag) == codes "-"

  -- The map for a field and those behind it: `gw_array` changes it for good.
  abbrev pub map_for : StructField → Fields runtime → Fields runtime
  map_for f m =
      if f.gw_array == codes "true"
      then prepare_gw_array_parameter runtime gw_match (tag_name f (split_byte b',' f.json_tag)) m
      else m

  unfoldable mutual
    pub json_unmarshal_from_map :
        StructType → GoValues runtime → Fields runtime → Read (GoValues runtime)
    json_unmarshal_from_map no_fields vs m = ok none_left
    json_unmarshal_from_map (field f t s) none_left m = ok none_left
    json_unmarshal_from_map (field f t s) (next v vs) m =
        if not f.exported
        then and_then (read_hidden t f v m)
            (λ w. map_read (next w) (json_unmarshal_from_map s vs m))
        else if is_skipped f
        then map_read (next v) (json_unmarshal_from_map s vs m)
        else and_then (read_field t f v (map_for f m))
            (λ w. map_read (next w) (json_unmarshal_from_map s vs (map_for f m)))

    -- An embedded struct that is not exported is read anew.
    read_hidden :
        FieldType → StructField → GoValue runtime → Fields runtime → Read (GoValue runtime)
    read_hidden (structure s) f v m =
        if f.anonymous
        then map_read struct_value (json_unmarshal_from_map s (zero_fields runtime s) m)
        else ok v
    read_hidden time f v m = ok (if f.anonymous then zero_of runtime time else v)
    read_hidden (scalar k) f v m = ok v
    read_hidden (pointer t) f v m = ok v
    read_hidden (slice t) f v m = ok v
    read_hidden other_type f v m = ok v

    read_element : FieldType → StructField → JsonValue runtime → Read (GoValue runtime)
    read_element (structure s) f x =
        with_map (λ m. map_read struct_value (json_unmarshal_from_map s (zero_fields runtime s) m))
          (failed invalid_data) x
    read_element time f x = set_time_property_value runtime f x
    read_element (scalar k) f x = set_property_value runtime (scalar k) x
    read_element (pointer t) f x = set_property_value runtime (pointer t) x
    read_element (slice t) f x = set_property_value runtime (slice t) x
    read_element other_type f x = set_property_value runtime other_type x

    -- A field behind a pointer: `setPropertyValue` is called with the kind of the pointer and the value
    -- behind it, so that a scalar panics.
    read_behind :
        FieldType → StructField → GoValue runtime → Fields runtime → Read (GoValue runtime)
    read_behind (structure s) f v m = map_read points_to (
        if f.anonymous
        then map_read struct_value
            (json_unmarshal_from_map s (fields_of (zero_fields runtime s) v) m)
        else if_found
            (with_map
              (λ n.
                map_read struct_value
                  (json_unmarshal_from_map s (fields_of (zero_fields runtime s) v) n))
              (ok v))
            v (input_found f m))
    read_behind time f v m = map_read points_to (
        if f.anonymous
        then ok v
        else if_found (set_time_property_value runtime f) v (input_found f m))
    read_behind (pointer t) f v m =
        read_input f m (points_to v)
          (λ x. map_read points_to (set_property_value runtime (pointer t) x))
    read_behind (slice t) f v m =
        read_input f m (points_to v)
          (λ x. and_then (get_slice_value runtime x) (misplaced (read_element t f) (points_to v)))
    read_behind (scalar k) f v m = read_input f m (points_to v) (λ x. failed panic)
    read_behind other_type f v m = read_input f m (points_to v) (λ x. failed panic)

    read_field : FieldType → StructField → GoValue runtime → Fields runtime → Read (GoValue runtime)
    read_field (structure s) f v m =
        if f.anonymous
        then map_read struct_value
            (json_unmarshal_from_map s (fields_of (zero_fields runtime s) v) m)
        else if_found
            (with_map
              (λ n.
                map_read struct_value
                  (json_unmarshal_from_map s (fields_of (zero_fields runtime s) v) n))
              (ok v))
            v (input_found f m)
    read_field time f v m =
        if f.anonymous
        then ok v
        else if_found (set_time_property_value runtime f) v (input_found f m)
    read_field (pointer t) f v m = read_behind t f (behind (zero_of runtime t) v) m
    read_field (slice t) f v m =
        read_input f m v
          (λ x. and_then (get_slice_value runtime x) (fill_slice (read_element t f) v))
    read_field (scalar k) f v m = read_input f m v (set_property_value runtime (scalar k))
    read_field other_type f v m = read_input f m v (set_property_value runtime other_type)

  -- `JSONUnmarshal`; encoding/json's own `Unmarshal` is an argument.
  unfoldable pub json_unmarshal :
      (Bytes → Option (Fields runtime))
      → StructType
      → GoValues runtime
      → Bytes
      → Read (GoValues runtime)
  json_unmarshal decode s vs b =
      and_then (or_failed parse_error (decode b)) (json_unmarshal_from_map s vs)
