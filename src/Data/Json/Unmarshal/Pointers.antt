-- ===== src/Data/Json/Unmarshal/Pointers.antt =====
-- data/json.go: fields that are pointers.
use landau.Common.{◌≡◌, refl, Bool, true, false, Bytes, some, split_byte}
use landau.Data.Json.{Runtime, ok, failed, panic, Kind, JsonValue, Fields}
use landau.Data.Json.Structs.{
  StructField, scalar, pointer, StructType, field, default_value, GoValue, GoValues, next,
}
use landau.Data.Json.Unmarshal.{json_unmarshal_from_map, is_skipped, map_for, input_found}

module _ (runtime : Runtime) (gw_match : Bytes → Bytes → Bool) where
  -- A field that is a pointer to a scalar cannot be read: once the map has a value for it, whatever
  -- the value, the call panics.
  pub json_unmarshal_from_map-panic :
      (f : StructField) (k : Kind) (s : StructType) (v : GoValue runtime) (vs : GoValues runtime)
      (m : Fields runtime) (x : JsonValue runtime) (d : Bytes)
      → f.exported ≡ true
      → is_skipped runtime gw_match f ≡ false
      → default_value (split_byte b',' f.json_tag) ≡ ok d
      → input_found runtime gw_match f (map_for runtime gw_match f m) ≡ some x
      → json_unmarshal_from_map runtime gw_match (field f (pointer (scalar k)) s) (next v vs) m
        ≡ failed panic
  unfolding json_unmarshal_from_map
  json_unmarshal_from_map-panic f k s v vs m x d e h j g = rw (h, g, j, e) refl
