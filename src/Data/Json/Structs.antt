-- ===== src/Data/Json/Structs.antt =====
-- data/json.go: structs as `jsonUnmarshalFromMap` sees them, their fields with types and tags, and its
-- look-ups in a map. The types are finite trees. A loop over a map meets its keys in the list's order; the
-- package regexp is an argument, and names are ASCII texts.
pub mod Keys
use landau.Common.{
  ℕ, Bool, true, false, not, ◌&&◌, ◌||◌, List, [], ◌∷◌, ◌++◌, ◌==◌, nat_eq, bytes_eq, Bytes, codes,
  Option, none, some, if◌then◌else◌, ℤ, split_byte, cut_byte, leb, map, to_lower, is_some, pos,
}
use landau.Data.Json.{
  Runtime, Failure, unknown_type, invalid_data, not_string, blank_time_format, parse_error, panic,
  Read, ok, failed, and_then, map_read, or_failed, Kind, int, int8, int16, int32, int64, uint,
  uint8, uint16, uint32, uint64, float32, float64, string, bool, byte_size, width_of, JsonValue,
  null, boolean, signed, unsigned, number, text, array, object, Values, nil, cons, Fields, end,
  member, to_int, to_uint, to_float, to_string, to_bool,
}

-- A field of a struct: its name, its tags, and whether it is exported or embedded.
pub record StructField : Type 0 where
  pub name : Bytes
  pub json_tag : Bytes
  pub gw_array : Bytes
  pub time_format : Bytes
  pub time_utc : Bytes
  pub time_location : Bytes
  pub exported : Bool
  pub anonymous : Bool

mutual
  pub data FieldType : Type 0 where
    scalar : Kind → FieldType
    time : FieldType
    structure : StructType → FieldType
    pointer slice : FieldType → FieldType
    other_type : FieldType

  pub data StructType : Type 0 where
    no_fields : StructType
    field : StructField → FieldType → StructType → StructType

-- The name for the map, and the tag's default: a default without a `=` is an index out of range.
abbrev pub tag_name : StructField → List Bytes → Bytes
tag_name f [] = f.name
tag_name f (n ∷ options) = if n == [] then f.name else n

abbrev default_part : Option (Bytes × Bytes) → Bytes → Read Bytes
default_part none s = if s == codes "default" then failed panic else ok []
default_part (some (before, after)) s = ok (if before == codes "default" then after else [])

abbrev pub default_value : List Bytes → Read Bytes
default_value [] = ok []
default_value (n ∷ []) = ok []
default_value (n ∷ s ∷ options) = default_part (cut_byte b'=' s) s

module _ (runtime : Runtime) where
  open runtime use {Float, Time, zero_float, zero_time, to_size, parse_time}

  -- What a field holds.
  mutual
    pub data GoValue : Type 0 where
      int_value : ℤ → GoValue
      uint_value : ℕ → GoValue
      float_value : Float → GoValue
      string_value : Bytes → GoValue
      bool_value : Bool → GoValue
      time_value : Time → GoValue
      struct_value slice_value : GoValues → GoValue
      nil_pointer : GoValue
      points_to : GoValue → GoValue
      opaque : GoValue

    pub data GoValues : Type 0 where
      none_left : GoValues
      next : GoValue → GoValues → GoValues

  abbrev pub find : Bytes → Fields runtime → Option (JsonValue runtime)
  find k end = none
  find k (member j v m) = if j == k then some v else find k m

  abbrev find_key : Bytes → Fields runtime → Option Bytes
  find_key lower end = none
  find_key lower (member j v m) =
      let rest = find_key lower m in if lower == to_lower j then some j else rest

  abbrev key_or : Bytes → Option Bytes → Bytes
  key_or name none = name
  key_or name (some k) = k

  unfoldable pub get_case_insensitive_key : Bytes → Fields runtime → Bytes
  get_case_insensitive_key input_field_name m =
      key_or input_field_name (find_key (to_lower input_field_name) m)

  -- The two results of the loop of `_prepareGWArrayParameter`, of the keys that match and the others.
  abbrev pub matched_values : (Bytes → Bool) → Fields runtime → Values runtime
  matched_values matches end = nil
  matched_values matches (member k v m) =
      let rest = matched_values matches m in if matches k then cons v rest else rest

  abbrev pub other_fields : (Bytes → Bool) → Fields runtime → Fields runtime
  other_fields matches end = end
  other_fields matches (member k v m) =
      let rest = other_fields matches m in if matches k then rest else member k v rest

  abbrev pub put : Bytes → JsonValue runtime → Fields runtime → Fields runtime
  put k v end = member k v end
  put k v (member j w m) = if j == k then member j v m else member j w (put k v m)

  abbrev put_found : Bytes → Option (JsonValue runtime) → Fields runtime → Fields runtime
  put_found k none m = m
  put_found k (some v) m = put k v m

  abbrev gathered : Bytes → Values runtime → Fields runtime → Fields runtime → Fields runtime
  gathered name nil m n = put_found name (find name m) n
  gathered name (cons v vs) m n = put name (array (cons v vs)) n

  -- `_prepareGWArrayParameter`; `gw_match` says which keys the pattern of a name matches.
  unfoldable pub prepare_gw_array_parameter :
      (Bytes → Bytes → Bool) → Bytes → Fields runtime → Fields runtime
  prepare_gw_array_parameter gw_match name m =
      gathered name (matched_values (gw_match name) m) m (other_fields (gw_match name) m)
