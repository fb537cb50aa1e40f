-- ===== src/Config.antt =====
-- config/config.go: the settings of a program, read from a text and overridden by the environment.
-- What reflection sees of a settings struct is a tree; the decoding of JSON and YAML, the reading of
-- files and the environment are parameters.
pub mod Environment
use landau.Common.{
  ℕ, Bool, true, false, ◌&&◌, ◌||◌, not, Bytes, ℤ, ◌==◌, bytes_eq, codes, if◌then◌else◌, Option,
  none, some, [], atoi, to_lower, wrap_signed, wrap_unsigned, ◌>>=◌,
}

-- A value by its kind: a text, a signed integer of `width` + 1 bits, an `uint`, a truth value, or a
-- kind that the environment does not reach.
pub data ConfigValue : Type 0 where
  string : Bytes → ConfigValue
  int : ℕ → ℤ → ConfigValue
  uint : ℕ → ConfigValue
  bool : Bool → ConfigValue
  other : Bytes → ConfigValue

-- The fields of a struct: a value with the name in its tag and whether it may be set, or a struct.
pub data ConfigFields : Type 0 where
  no_fields : ConfigFields
  field : Option Bytes → Bool → ConfigValue → ConfigFields → ConfigFields
  nested : ConfigFields → ConfigFields → ConfigFields

abbrev pub int_or : ℕ → ℤ → Option ℤ → ConfigValue
int_or width old none = int width old
int_or width old (some i) = int width (wrap_signed width i)

abbrev pub uint_or : ℕ → Option ℤ → ConfigValue
uint_or old none = uint old
uint_or old (some i) = uint (wrap_unsigned 64 i)

-- Any text but these two is true.
abbrev pub bool_of : Bytes → Bool
bool_of val = not ((val == codes "0") || (val == codes "false"))

-- `setFieldValue`, of a text that is not empty.
unfoldable pub set_field_value : Bytes → ConfigValue → ConfigValue
set_field_value val (string s) = string val
set_field_value val (int width z) = int_or width z (atoi val)
set_field_value val (uint n) = uint_or n (atoi val)
set_field_value val (bool b) = bool (bool_of (to_lower val))
set_field_value val (other s) = other s

-- What the decoding leaves in the settings: a struct, or a value that the environment does not reach.
pub data Settings : Type 0 where
  fields_of : ConfigFields → Settings
  no_struct : Bytes → Settings

module _ (getenv : Bytes → Bytes) where
  abbrev pub set_from : Bytes → ConfigValue → ConfigValue
  set_from name v =
      if (name == []) || (getenv name == []) then v else set_field_value (getenv name) v

  -- The `default` of the `switch`: a field without a tag, or one that may not be set, is left.
  abbrev pub from_environment : Option Bytes → Bool → ConfigValue → ConfigValue
  from_environment none can_set v = v
  from_environment (some name) can_set v = if can_set then set_from name v else v

  unfoldable pub load_from_environment : ConfigFields → ConfigFields
  unfolding set_field_value
  load_from_environment no_fields = no_fields
  load_from_environment (field tag can_set v fields) =
      field tag can_set (from_environment tag can_set v) (load_from_environment fields)
  load_from_environment (nested inner fields) =
      nested (load_from_environment inner) (load_from_environment fields)

  abbrev over_environment : Settings → Settings
  over_environment (fields_of fields) = fields_of (load_from_environment fields)
  over_environment (no_struct s) = no_struct s

  -- `LoadJSONConfig` and `LoadYamlConfig`, by the decoder; `none` is its error.
  unfoldable pub load_config : (Bytes → Option Settings) → Bytes → Option Settings
  unfolding load_from_environment
  load_config unmarshal content = do settings ← unmarshal content; some (over_environment settings)

  -- `LoadJSONConfig2` and `LoadYamlConfig2`: the text is that of a file.
  unfoldable pub load_config2 :
      (Bytes → Option Bytes) → (Bytes → Option Settings) → Bytes → Option Settings
  unfolding load_config
  load_config2 read_file unmarshal path = do content ← read_file path; load_config unmarshal content
