-- ===== src/Data/Database/Default.antt =====
-- data/db_base.go: the databases that are made with fewer arguments, the default database and the
-- functions that call it. The pool and the optimizer are the package's; each call of the default
-- database is one of Data/Database on them.
use landau.Common.{
  ℕ, Bool, true, false, List, [], ◌∷◌, Bytes, codes, Option, none, some, ℤ, pos, negsuc,
}
use landau.Data.ConnOptimize.{Optimizer}
use landau.Data.Database.{
  Database, DbHandle, World, Answer, failed, DbError, Call, ExecResult, query, exec2, insert2,
}
use landau.Data.Database.Options.{
  DatabaseSettings, DatabaseOption, set_database_host, set_database_port, set_database_user,
  set_database_password, set_database_schema, set_database_trace_log,
  set_database_extend_dsn_property, new_database,
}

-- The settings of the pool; database/sql takes a negative number like 0.
abbrev pub at_least_zero : ℤ → ℕ
at_least_zero (pos n) = n
at_least_zero (negsuc n) = 0

abbrev pub with_connection : DatabaseSettings × Bytes → Database
with_connection (c, connection) = record {
  db_connection = connection;
  max_open_connections = at_least_zero c.max_open;
  max_idle_connections = at_least_zero c.max_idle;
  max_connection_life_time = at_least_zero c.max_life_time;
  keep_all_connection = false;
  last_set_kept_all_connection = false;
}

-- `defaultDatabase`, `dbConnectionPool` and the optimizer.
pub record Databases : Type 0 where
  pub default_database : Option Database
  pub connection_pool : List (Bytes × DbHandle)
  pub connections : Optimizer

-- The address and the account of a database.
pub record Access : Type 0 where
  pub at_host : Bytes
  pub at_port : ℤ
  pub user : Bytes
  pub password : Bytes
  pub schema : Bytes

abbrev pub access_options : Access → List DatabaseOption → List DatabaseOption
access_options a more =
    set_database_host a.at_host
    ∷ set_database_port a.at_port
    ∷ set_database_user a.user
    ∷ set_database_password a.password
    ∷ set_database_schema a.schema
    ∷ more

module _ (query_escape : Bytes → Bytes) (disabled : Bool) where
  unfoldable pub new_database2 : Access → DatabaseSettings × Bytes
  new_database2 a = new_database query_escape disabled (access_options a [])

  unfoldable pub new_database3 : Access → Bool → DatabaseSettings × Bytes
  new_database3 a write_log =
      new_database query_escape disabled (access_options a (set_database_trace_log write_log ∷ []))

  -- `NewDefaultDatabase`, and `NewDefaultDatabase2`, whose function for logs is left out.
  unfoldable pub new_default_database : Access → Databases → Databases
  unfolding new_database2
  new_default_database a w = record w {
    default_database = some (with_connection (new_database2 a));
  }

  unfoldable pub new_default_database3 : Access → List (Bytes × Bytes) → Databases → Databases
  new_default_database3 a m w = record w {
    default_database = some (
        with_connection (
          new_database query_escape disabled
            (access_options a (set_database_extend_dsn_property m ∷ []))));
  }

abbrev pub no_default : DbError
no_default = record {
  text = codes "no default db,please use NewDefaultDatabase method to set";
  is_no_rows = false;
}

module _ {A : Type 0} where
  abbrev pub on_database :
      (World → Answer A × World) → Option Database → Databases → Answer A × Databases
  on_database f none w = (failed no_default, w)
  on_database f (some d) w =
      let (a, w') =
        f (record { database = d; pool = w.connection_pool; optimizer = w.connections }) in
      (
        a,
        record {
          default_database = some w'.database;
          connection_pool = w'.pool;
          connections = w'.optimizer;
        },
      )

  -- What the functions for the default database share.
  unfoldable pub on_default : (World → Answer A × World) → Databases → Answer A × Databases
  on_default f w = on_database f w.default_database w

-- `Get` and `Get2`, `Gets` and `Gets2`, `Exec` and `Exec2`, `Insert` and `Insert2`.
unfoldable pub default_get : Call ℕ → Databases → Answer ℕ × Databases
unfolding on_default
default_get c = on_default (query true c)

unfoldable pub default_gets : Call ℕ → Databases → Answer ℕ × Databases
unfolding on_default
default_gets c = on_default (query false c)

unfoldable pub default_exec : Call ExecResult → Databases → Answer ℤ × Databases
unfolding on_default
default_exec c = on_default (exec2 c)

unfoldable pub default_insert : Call ExecResult → Databases → Answer ℤ × Databases
unfolding on_default
default_insert c = on_default (insert2 c)
