-- ===== src/Api/Values.antt =====
-- api/serv_api.go and api/restful_api.go: what is read out of a response, its codes.
-- A response is what the code looks at: a `gin.H`, a struct with its exported fields, another map from
-- strings, or something else. A text outside ASCII stands as its code points.
use landau.Common.{
  ℕ, List, [], ◌∷◌, ◌==◌, bytes_eq, Bytes, codes, Option, none, some, if◌then◌else◌, ℤ, pos, atoi,
  lookup,
}

-- A value in a map or a field, by the types that the code tells apart; a float stands as its whole part.
pub data FieldValue : Type 0 where
  int sized_int float32 float64 : ℤ → FieldValue
  text : Bytes → FieldValue
  other_field : FieldValue

pub data Response : Type 0 where
  gin_h struct_value plain_map : List (Bytes × FieldValue) → Response
  other_response : Response

abbrev zero_if_none : Option ℤ → ℤ
zero_if_none none = pos 0
zero_if_none (some n) = n

-- `_getIntValueFromInterface`: the type switch names no other integer or float.
unfoldable pub get_int_value : FieldValue → ℤ
get_int_value (int n) = n
get_int_value (float64 n) = n
get_int_value (text s) = zero_if_none (atoi s)
get_int_value (sized_int n) = pos 0
get_int_value (float32 n) = pos 0
get_int_value other_field = pos 0

-- The switch on the kind of a struct's field.
unfoldable pub get_struct_value : FieldValue → ℤ
unfolding get_int_value
get_struct_value (sized_int n) = n
get_struct_value (float32 n) = n
get_struct_value (int n) = n
get_struct_value (float64 n) = n
get_struct_value (text s) = get_int_value (text s)
get_struct_value other_field = get_int_value other_field

map_value : (FieldValue → ℤ) → ℤ → Option FieldValue → ℤ
map_value f default none = default
map_value f default (some v) = f v

-- `getCodeFromInterface2`.
unfoldable pub get_code_from_interface2 : Response → Bytes → ℤ
unfolding map_value
get_code_from_interface2 r field_name =
    let name : Bytes = if field_name == [] then codes "Code" else field_name in
    elim r [
      | gin_h m ↦ map_value get_int_value (pos 0) (lookup name m)
      | struct_value m ↦ map_value get_struct_value (pos 0) (lookup name m)
      | plain_map _ ↦ pos 0
      | other_response ↦ pos 0
    ]

-- `getHttpStatusCodeFromResponseObject`.
unfoldable pub get_http_status_code : Response → Bytes → ℤ → ℤ
unfolding map_value
get_http_status_code (gin_h m) name default = map_value get_int_value default (lookup name m)
get_http_status_code (struct_value m) name default =
    map_value get_struct_value default (lookup name m)
get_http_status_code (plain_map m) name default = map_value get_int_value default (lookup name m)
get_http_status_code other_response name default = default

abbrev coded : ℕ → Bytes → Response
coded n message = gin_h ((codes "Code", int (pos n)) ∷ (codes "Message", text message) ∷ [])

unfoldable pub default_access_deny_response : Response
default_access_deny_response = coded 100 (codes "请先登录")

unfoldable pub default_access_no_right_response : Response
default_access_no_right_response = coded 101 (codes "没有权限，请向管理员申请权限")

unfoldable pub default_bind_error_response : Response
default_bind_error_response = coded 160 (codes "Missing Action")

unfoldable pub service_too_early : Response
service_too_early =
    plain_map
      ((codes "Code", int (pos 425)) ∷ (codes "Message", text (codes "Service Unavailable")) ∷ [])
