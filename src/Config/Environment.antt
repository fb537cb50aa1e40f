-- ===== src/Config/Environment.antt =====
-- config/config.go: what the environment makes of the settings.
use landau.Common.{
  Bool, true, false, ◌||◌, Bytes, ◌==◌, bytes_eq, Option, none, some, [], atoi, ◌≡◌, refl, arith,
  ap₂, Bool-cases, Option-cases, inl, inr,
}
use landau.Config.{
  ConfigValue, ConfigFields, string, int, uint, bool, other, no_fields, field, nested,
  set_field_value, set_from, from_environment, load_from_environment,
}

-- The same text a second time changes nothing.
set_field_value_twice :
    (val : Bytes) (v : ConfigValue)
    → set_field_value val (set_field_value val v) ≡ set_field_value val v
unfolding set_field_value
set_field_value_twice val (string s) = refl
set_field_value_twice val (int width z) = elim (Option-cases (atoi val)) [
  | inl e ↦ ground (arith, e)
  | inr (i, e) ↦ ground (arith, e)
]
set_field_value_twice val (uint n) = elim (Option-cases (atoi val)) [
  | inl e ↦ ground (arith, e)
  | inr (i, e) ↦ ground (arith, e)
]
set_field_value_twice val (bool b) = refl
set_field_value_twice val (other s) = refl

module _ (getenv : Bytes → Bytes) where
  set_from_twice :
      (name : Bytes) (v : ConfigValue)
      → set_from getenv name (set_from getenv name v) ≡ set_from getenv name v
  set_from_twice name v = elim (Bool-cases ((name == []) || (getenv name == []))) [
    | inl t ↦ rw t refl
    | inr f ↦ rw f (set_field_value_twice (getenv name) v)
  ]

  from_environment_twice :
      (tag : Option Bytes) (can_set : Bool) (v : ConfigValue)
      → from_environment getenv tag can_set (from_environment getenv tag can_set v)
        ≡ from_environment getenv tag can_set v
  from_environment_twice none can_set v = refl
  from_environment_twice (some name) true v = set_from_twice name v
  from_environment_twice (some name) false v = refl

  -- The environment has its whole effect at once: to load the settings from it again changes nothing.
  pub load_from_environment_twice :
      (fields : ConfigFields)
      → load_from_environment getenv (load_from_environment getenv fields)
        ≡ load_from_environment getenv fields
  unfolding load_from_environment
  load_from_environment_twice no_fields = refl
  load_from_environment_twice (field tag can_set v fields) =
      ap₂ (field tag can_set) (from_environment_twice tag can_set v)
        (load_from_environment_twice fields)
  load_from_environment_twice (nested inner fields) =
      ap₂ nested (load_from_environment_twice inner) (load_from_environment_twice fields)
