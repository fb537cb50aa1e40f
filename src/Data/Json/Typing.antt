-- ===== src/Data/Json/Typing.antt =====
-- data/json.go: the types of the values that a struct's fields hold.
use landau.Common.{
  ℕ, suc, ◌≡◌, refl, ◌<◌, ◌^◌, Bool, Bytes, [], ◌==◌, nat_eq, bytes_eq, ℤ, pos, wrap_signed,
  wrap_signed-wrap_signed, wrap_unsigned_lt, arith, Bool-cases, inl, inr,
}
use landau.Data.Json.{
  Runtime, Read, ok, failed, and_then, map_read, Kind, int, int8, int16, int32, int64, uint, uint8,
  uint16, uint32, uint64, float32, float64, string, bool, width_of, JsonValue, to_int, to_uint,
  null, boolean, signed, unsigned, number, text, array, object,
}
use landau.Data.Json.Structs.{
  StructField, FieldType, scalar, time, structure, pointer, slice, other_type, StructType,
  no_fields, field, GoValue, GoValues, int_value, uint_value, float_value, string_value, bool_value,
  time_value, struct_value, slice_value, nil_pointer, points_to, none_left, next,
}
use landau.Data.Json.Setters.{
  zero_scalar, set_int, set_uint, set_scalar, set_property_value, set_time_property_value, zero_of,
  zero_fields,
}

-- The case of `setPropertyValue` that a kind falls into.
pub data Class : Type 0 where
  of_int of_uint of_float of_string of_bool : Class

abbrev pub class_of : Kind → Class
class_of int = of_int
class_of int8 = of_int
class_of int16 = of_int
class_of int32 = of_int
class_of int64 = of_int
class_of uint = of_uint
class_of uint8 = of_uint
class_of uint16 = of_uint
class_of uint32 = of_uint
class_of uint64 = of_uint
class_of float32 = of_float
class_of float64 = of_float
class_of string = of_string
class_of bool = of_bool

-- A property of what is read, if something is.
abbrev pub Ok {ℓ κ} : {A : Type ℓ} → (A → Type κ) → Read A → Type κ
Ok P (ok a) = P a
Ok P (failed e) = Unit

pub Ok-map_read {ℓ κ} :
    {A B : Type ℓ} (P : A → Type κ) (Q : B → Type κ) (f : A → B) (x : Read A)
    → ((a : A) → P a → Q (f a))
    → Ok P x
    → Ok Q (map_read f x)
Ok-map_read P Q f (ok a) h p = h a p
Ok-map_read P Q f (failed e) h p = tt

pub all_read {ℓ κ} :
    {A B : Type ℓ} (Q : B → Type κ) (f : A → B) (x : Read A)
    → ((a : A) → Q (f a))
    → Ok Q (map_read f x)
all_read Q f (ok a) h = h a
all_read Q f (failed e) h = tt

pub all_and_then {ℓ κ} :
    {A B : Type ℓ} (Q : B → Type κ) (x : Read A) (f : A → Read B)
    → ((a : A) → Ok Q (f a))
    → Ok Q (and_then x f)
all_and_then Q (ok a) f h = h a
all_and_then Q (failed e) f h = tt

pub Ok-and_then {ℓ κ} :
    {A B : Type ℓ} (P : A → Type κ) (Q : B → Type κ) (x : Read A) (f : A → Read B)
    → ((a : A) → P a → Ok Q (f a))
    → Ok P x
    → Ok Q (and_then x f)
Ok-and_then P Q (ok a) f h p = h a p
Ok-and_then P Q (failed e) f h p = tt

module _ (runtime : Runtime) where
  -- What a field of a type holds: an integer is one that its size can hold.
  mutual
    pub data HasType : FieldType → GoValue runtime → Type 0 where
      is_int :
          {k : Kind} {z : ℤ}
          → class_of k ≡ of_int
          → wrap_signed (width_of k) z ≡ z
          → HasType (scalar k) (int_value z)
      is_uint :
          {k : Kind} {n : ℕ}
          → class_of k ≡ of_uint
          → n < 2 ^ suc (width_of k)
          → HasType (scalar k) (uint_value n)
      is_float_value :
          {k : Kind} {x : runtime.Float}
          → class_of k ≡ of_float
          → HasType (scalar k) (float_value x)
      is_string : {s : Bytes} → HasType (scalar string) (string_value s)
      is_bool : {b : Bool} → HasType (scalar bool) (bool_value b)
      is_time : {x : runtime.Time} → HasType time (time_value x)
      is_struct :
          {s : StructType} {vs : GoValues runtime}
          → HasTypes s vs
          → HasType (structure s) (struct_value vs)
      is_nil : {t : FieldType} → HasType (pointer t) nil_pointer
      is_pointer :
          {t : FieldType} {v : GoValue runtime} → HasType t v → HasType (pointer t) (points_to v)
      is_slice :
          {t : FieldType} {vs : GoValues runtime}
          → AllHave t vs
          → HasType (slice t) (slice_value vs)
      is_other : {v : GoValue runtime} → HasType other_type v

    pub data HasTypes : StructType → GoValues runtime → Type 0 where
      no_values : HasTypes no_fields none_left
      values :
          {f : StructField} {t : FieldType} {s : StructType} {v : GoValue runtime}
          {vs : GoValues runtime}
          → HasType t v
          → HasTypes s vs
          → HasTypes (field f t s) (next v vs)

    pub data AllHave : FieldType → GoValues runtime → Type 0 where
      no_elements : {t : FieldType} → AllHave t none_left
      elements :
          {t : FieldType} {v : GoValue runtime} {vs : GoValues runtime}
          → HasType t v
          → AllHave t vs
          → AllHave t (next v vs)

  zero_scalar-HasType : (k : Kind) → HasType (scalar k) (zero_scalar runtime k)
  zero_scalar-HasType int = is_int refl refl
  zero_scalar-HasType int8 = is_int refl refl
  zero_scalar-HasType int16 = is_int refl refl
  zero_scalar-HasType int32 = is_int refl refl
  zero_scalar-HasType int64 = is_int refl refl
  zero_scalar-HasType uint = is_uint refl (omega arith)
  zero_scalar-HasType uint8 = is_uint refl (omega arith)
  zero_scalar-HasType uint16 = is_uint refl (omega arith)
  zero_scalar-HasType uint32 = is_uint refl (omega arith)
  zero_scalar-HasType uint64 = is_uint refl (omega arith)
  zero_scalar-HasType float32 = is_float_value refl
  zero_scalar-HasType float64 = is_float_value refl
  zero_scalar-HasType string = is_string
  zero_scalar-HasType bool = is_bool

  mutual
    unfolding zero_of

    pub zero_of-HasType : (t : FieldType) → HasType t (zero_of runtime t)
    zero_of-HasType (scalar k) = zero_scalar-HasType k
    zero_of-HasType time = is_time
    zero_of-HasType (structure s) = is_struct (zero_fields-HasTypes s)
    zero_of-HasType (pointer t) = is_nil
    zero_of-HasType (slice t) = is_slice no_elements
    zero_of-HasType other_type = is_other

    pub zero_fields-HasTypes : (s : StructType) → HasTypes s (zero_fields runtime s)
    zero_fields-HasTypes no_fields = no_values
    zero_fields-HasTypes (field f t s) = values (zero_of-HasType t) (zero_fields-HasTypes s)

  set_int-HasType :
      (k : Kind)
      → class_of k ≡ of_int
      → (x : Read ℤ) → Ok (HasType (scalar k)) (map_read (set_int runtime k) x)
  set_int-HasType k e (ok z) = is_int e (wrap_signed-wrap_signed (width_of k) z)
  set_int-HasType k e (failed f) = tt

  set_uint-HasType :
      (k : Kind)
      → class_of k ≡ of_uint
      → (x : Read ℕ) → Ok (HasType (scalar k)) (map_read (set_uint runtime k) x)
  set_uint-HasType k e (ok n) = is_uint e (wrap_unsigned_lt (suc (width_of k)) (pos n))
  set_uint-HasType k e (failed f) = tt

  set_scalar-HasType :
      (k : Kind) (v : JsonValue runtime) → Ok (HasType (scalar k)) (set_scalar runtime k v)
  unfolding set_scalar
  set_scalar-HasType int v = set_int-HasType int refl (to_int runtime v int)
  set_scalar-HasType int8 v = set_int-HasType int8 refl (to_int runtime v int8)
  set_scalar-HasType int16 v = set_int-HasType int16 refl (to_int runtime v int16)
  set_scalar-HasType int32 v = set_int-HasType int32 refl (to_int runtime v int32)
  set_scalar-HasType int64 v = set_int-HasType int64 refl (to_int runtime v int64)
  set_scalar-HasType uint v = set_uint-HasType uint refl (to_uint runtime v uint)
  set_scalar-HasType uint8 v = set_uint-HasType uint8 refl (to_uint runtime v uint8)
  set_scalar-HasType uint16 v = set_uint-HasType uint16 refl (to_uint runtime v uint16)
  set_scalar-HasType uint32 v = set_uint-HasType uint32 refl (to_uint runtime v uint32)
  set_scalar-HasType uint64 v = set_uint-HasType uint64 refl (to_uint runtime v uint64)
  set_scalar-HasType float32 v = all_read (HasType (scalar float32)) _ _ λ x. is_float_value refl
  set_scalar-HasType float64 v = all_read (HasType (scalar float64)) _ _ λ x. is_float_value refl
  set_scalar-HasType string v = all_read (HasType (scalar string)) _ _ λ x. is_string
  set_scalar-HasType bool v = all_read (HasType (scalar bool)) _ _ λ x. is_bool

  pub set_property_value-HasType :
      (t : FieldType) (v : JsonValue runtime) → Ok (HasType t) (set_property_value runtime t v)
  unfolding set_property_value
  set_property_value-HasType (scalar k) v = set_scalar-HasType k v
  set_property_value-HasType (pointer t) v =
      Ok-map_read (HasType t) (HasType (pointer t)) points_to _ (λ w h. is_pointer h)
        (set_property_value-HasType t v)
  set_property_value-HasType time v = tt
  set_property_value-HasType (structure s) v = tt
  set_property_value-HasType (slice t) v = tt
  set_property_value-HasType other_type v = tt

  pub set_time_property_value-HasType :
      (f : StructField) (v : JsonValue runtime)
      → Ok (HasType time) (set_time_property_value runtime f v)
  unfolding set_time_property_value
  set_time_property_value-HasType f (text s) = elim (Bool-cases (f.time_format == [])) [
    | inl e ↦ rw e tt
    | inr e ↦ rw e (elim (Bool-cases (s == [])) [
      | inl d ↦ rw d is_time
      | inr d ↦ rw d (all_read (HasType time) _ _ λ x. is_time)
    ])
  ]
  set_time_property_value-HasType f null = tt
  set_time_property_value-HasType f (boolean b) = tt
  set_time_property_value-HasType f (signed z) = tt
  set_time_property_value-HasType f (unsigned n) = tt
  set_time_property_value-HasType f (number size x) = tt
  set_time_property_value-HasType f (array xs) = tt
  set_time_property_value-HasType f (object m) = tt
