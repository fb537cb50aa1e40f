-- ===== src/Data/Database/Options.antt =====
-- `NewDatabase` of data/db_base.go and its options: from the options to the connection string.
-- A value of an extended property is its text, as `%v` prints it. `url.QueryEscape` is a parameter.
use landau.Common.{
  ◌≡◌, refl, Bool, true, false, not, ◌||◌, List, [], ◌∷◌, ◌++◌, Bytes, codes, ℤ, pos, negsuc,
  format_int, ◌==◌, nat_eq, bytes_eq, if◌then◌else◌, lookup, insert, has, contains_bytes,
  lookup-insert, has-lookup, arith, Bool-cases, inl, inr, bytes_beq_iff,
}
use landau.Util.IpHelper.{ip_convert, ipv6_bracket}

-- `Database` before its connection string is made; the functions among its fields are left out.
pub record DatabaseSettings : Type 0 where
  pub loc : Bytes
  pub time_zone : Bytes
  pub db_user : Bytes
  pub db_password : Bytes
  pub host : Bytes
  pub port : ℤ
  pub schema_name : Bytes
  pub write_log : Bool
  pub logger : Bytes
  pub max_open : ℤ
  pub max_idle : ℤ
  pub max_life_time : ℤ
  pub driver_name : Bytes
  pub driver_extend_dsn_property : List (Bytes × Bytes)
  pub timeout : ℤ

-- The functions `SetDatabase…`.
pub data DatabaseOption : Type 0 where
  set_database_host set_database_user set_database_password set_database_schema :
      Bytes → DatabaseOption
  set_database_logger set_database_loc set_database_tim_zone set_database_driver_name :
      Bytes → DatabaseOption
  set_database_port set_database_max_open_connections : ℤ → DatabaseOption
  set_database_max_idle_connections set_database_max_connection_life_time : ℤ → DatabaseOption
  set_database_timeout : ℤ → DatabaseOption
  set_database_trace_log : Bool → DatabaseOption
  set_database_extend_dsn_property : List (Bytes × Bytes) → DatabaseOption

abbrev pub positive : ℤ → Bool
positive (pos n) = not (n == 0)
positive (negsuc n) = false

-- An option that returns an error changes nothing, and the error is dropped.
apply_option : DatabaseOption → DatabaseSettings → DatabaseSettings
apply_option (set_database_host v) c = record c { host = v }
apply_option (set_database_user v) c = record c { db_user = v }
apply_option (set_database_password v) c = record c { db_password = v }
apply_option (set_database_schema v) c = record c { schema_name = v }
apply_option (set_database_logger v) c = record c { logger = v }
apply_option (set_database_loc v) c = record c { loc = v }
apply_option (set_database_tim_zone v) c = record c { time_zone = v }
apply_option (set_database_driver_name v) c = record c { driver_name = v }
apply_option (set_database_port n) c = record c { port = n }
apply_option (set_database_max_open_connections n) c = record c { max_open = n }
apply_option (set_database_max_idle_connections n) c = record c { max_idle = n }
apply_option (set_database_max_connection_life_time n) c = record c { max_life_time = n }
apply_option (set_database_timeout n) c = if positive n then record c { timeout = n } else c
apply_option (set_database_trace_log b) c = record c { write_log = b }
apply_option (set_database_extend_dsn_property m) c = record c { driver_extend_dsn_property = m }

apply_options : List DatabaseOption → DatabaseSettings → DatabaseSettings
unfolding apply_option
apply_options [] c = c
apply_options (o ∷ options) c = apply_options options (apply_option o c)

abbrev default_settings : DatabaseSettings
default_settings = record {
  loc = [];
  time_zone = [];
  db_user = [];
  db_password = [];
  host = [];
  port = pos 0;
  schema_name = [];
  write_log = true;
  logger = codes "main";
  max_open = pos 50;
  max_idle = pos 50;
  max_life_time = pos 600;
  driver_name = codes "mysql";
  driver_extend_dsn_property = [];
  timeout = pos 3;
}

abbrev pub default_tls_extend_dns_property : List (Bytes × Bytes)
default_tls_extend_dns_property = (codes "tls", codes "preferred") ∷ []

-- The properties that the caller did not set.
add_missing : List (Bytes × Bytes) → List (Bytes × Bytes) → List (Bytes × Bytes)
add_missing [] m = m
add_missing ((k, v) ∷ defaults) m = add_missing defaults (if has k m then m else insert k v m)

-- `dnsProperty`
unfoldable pub dsn_property : Bool → List (Bytes × Bytes) → List (Bytes × Bytes)
unfolding add_missing
dsn_property disabled m = if disabled then m else add_missing default_tls_extend_dns_property m

add_property : Bytes → Bytes → Bytes → Bytes
add_property dsn k v =
    dsn ++ (if contains_bytes (codes "?") dsn then b'&' else b'?') ∷ k ++ b'=' ∷ v

add_properties : Bytes → List (Bytes × Bytes) → Bytes
unfolding add_property
add_properties dsn [] = dsn
add_properties dsn ((k, v) ∷ m) = add_properties (add_property dsn k v) m

module _ (query_escape : Bytes → Bytes) where
  clickhouse_connection : DatabaseSettings → Bytes
  clickhouse_connection c =
      codes "tcp://"
      ++ ip_convert c.host ipv6_bracket
      ++ b':' ∷ format_int c.port
      ++ codes "?username="
      ++ c.db_user
      ++ codes "&password="
      ++ c.db_password
      ++ codes "&database="
      ++ c.schema_name

  mysql_connection : DatabaseSettings → Bytes
  mysql_connection c =
      c.db_user
      ++ b':' ∷ c.db_password
      ++ codes "@tcp("
      ++ ip_convert c.host ipv6_bracket
      ++ b':' ∷ format_int c.port
      ++ codes ")/"
      ++ c.schema_name
      ++ (if c.loc == []
          then codes "?timeout=" ++ format_int c.timeout ++ codes "s"
          else codes "?loc="
            ++ c.loc
            ++ codes "&time_zone="
            ++ query_escape c.time_zone
            ++ codes "&timeout="
            ++ format_int c.timeout
            ++ codes "s")

  connection_string : Bool → DatabaseSettings → Bytes
  unfolding clickhouse_connection mysql_connection add_properties
  connection_string disabled c =
      add_properties
        (if c.driver_name == codes "clickhouse"
          then clickhouse_connection c
          else mysql_connection c)
        (dsn_property disabled c.driver_extend_dsn_property)

  -- `NewDatabase`: the settings and `dbConnection`; the first argument is the switch that
  -- `SetDatabaseDisableDefaultTlsExtendProperty` sets.
  unfoldable pub new_database : Bool → List DatabaseOption → DatabaseSettings × Bytes
  unfolding apply_options connection_string
  new_database disabled options =
      let c = apply_options options default_settings in (c, connection_string disabled c)

-- A property that the caller set keeps its value, and the default one is added exactly if it is not
-- disabled and the caller set none of its name.
pub lookup-dsn_property :
    (disabled : Bool) (k : Bytes) (m : List (Bytes × Bytes))
    → lookup k (dsn_property disabled m)
      ≡ (if has k m || disabled then lookup k m else lookup k default_tls_extend_dns_property)
unfolding dsn_property add_missing
lookup-dsn_property true k m = ground (arith)
lookup-dsn_property false k m = ground (
  arith,
  lookup-insert k (codes "tls") (codes "preferred") m,
  has-lookup k m,
  has-lookup (codes "tls") m,
  bytes_beq_iff (codes "tls") k,
)

apply_option-positive :
    (o : DatabaseOption) (c : DatabaseSettings)
    → positive c.timeout ≡ true
    → positive (apply_option o c).timeout ≡ true
unfolding apply_option
apply_option-positive (set_database_host v) c h = h
apply_option-positive (set_database_user v) c h = h
apply_option-positive (set_database_password v) c h = h
apply_option-positive (set_database_schema v) c h = h
apply_option-positive (set_database_logger v) c h = h
apply_option-positive (set_database_loc v) c h = h
apply_option-positive (set_database_tim_zone v) c h = h
apply_option-positive (set_database_driver_name v) c h = h
apply_option-positive (set_database_port n) c h = h
apply_option-positive (set_database_max_open_connections n) c h = h
apply_option-positive (set_database_max_idle_connections n) c h = h
apply_option-positive (set_database_max_connection_life_time n) c h = h
apply_option-positive (set_database_timeout n) c h = elim (Bool-cases (positive n)) [
  | inl e ↦ rw e e
  | inr e ↦ rw e h
]
apply_option-positive (set_database_trace_log b) c h = h
apply_option-positive (set_database_extend_dsn_property m) c h = h

apply_options-positive :
    (options : List DatabaseOption) (c : DatabaseSettings)
    → positive c.timeout ≡ true
    → positive (apply_options options c).timeout ≡ true
unfolding apply_options
apply_options-positive [] c h = h
apply_options-positive (o ∷ options) c h =
    apply_options-positive options (apply_option o c) (apply_option-positive o c h)

-- Whatever the options, the timeout of a new database is positive.
pub new_database-positive :
    (query_escape : Bytes → Bytes) (disabled : Bool) (options : List DatabaseOption)
    → positive (new_database query_escape disabled options).0.timeout ≡ true
unfolding new_database
new_database-positive query_escape disabled options =
    apply_options-positive options default_settings refl
