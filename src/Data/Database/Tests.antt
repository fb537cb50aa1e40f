-- ===== src/Data/Database/Tests.antt =====
-- data/db_base.go at concrete calls.
use landau.Common.{
  List, ◌≡◌, refl, true, false, [], ◌∷◌, codes, none, arith, bytes_eq, ℤ, parse_int, pos, some,
  Option, ◌++◌, Bytes,
}
use landau.Data.ConnOptimize.{Optimizer, skip_db_access}
use landau.Data.Database.{
  World, Database, DbHandle, Call, ExecResult, TxRun, gives, returns, get_db, exec_tx, open_handle,
  begun_tx, end_tx, get_found, get_pooled, get_opened, Answer, bad_conn,
}
use landau.Data.Database.Wrap.{
  Floats, DbField, string_kind, int_kind, db_string, db_int, tx_gets, append_rows, QueryRows,
}
use landau.Data.Database.Wrap.Rows.{AreRows, tx_gets-AreRows}
use landau.Data.Database.Blocking.{
  CallKind, a_query, an_exec, a_transaction, failing, IsWatched, AreRefused, failing-AreRefused,
}
use landau.Data.Database.Settings.{IsGiven, get_db-settled}
use landau.Data.Database.Transaction.{exec_tx-committed}

abbrev watching : Optimizer
watching = record {
  enable_optimize_connection = true;
  bad_connection_limit = 3;
  ping_db_interval = 3;
  optimize_connections = [];
  ping_check_running = true;
  has_callback = false;
  events = [];
}

abbrev shop : Database
shop = record {
  db_connection = codes "db";
  max_open_connections = 50;
  max_idle_connections = 5;
  max_connection_life_time = 600;
  keep_all_connection = false;
  last_set_kept_all_connection = false;
}

abbrev shop_handle : DbHandle
shop_handle = record {
  handle = 7;
  max_open_conns = 50;
  max_idle_conns = 5;
  conn_max_lifetime = 600;
}

abbrev open_world : World
open_world = record { database = shop; pool = (codes "db", shop_handle) ∷ []; optimizer = watching }

abbrev fresh_world : World
fresh_world = record open_world { pool = [] }

abbrev calling : {A : Type 0} → A → Call A
calling a = record { opened = gives 7; opened_again = gives 7; answer = gives a; time = 9 }

abbrev no_result : ExecResult
no_result = record { rows_affected = none; last_insert_id = none }

abbrev good_run : TxRun
good_run = record { biz = returns none; commit_error = none }

abbrev three_kinds : List CallKind
three_kinds = a_query true ∷ an_exec ∷ a_transaction ∷ []

open_world-IsWatched : IsWatched shop_handle open_world
open_world-IsWatched = record {
  found = refl;
  same = refl;
  on = refl;
  two = omega arith;
  fresh = refl;
}

failing-AreRefused_example :
    AreRefused true
      (calling 1)
      (calling no_result)
      (calling no_result)
      (calling good_run)
      (failing three_kinds (gives 7) 9 open_world)
failing-AreRefused_example =
    failing-AreRefused three_kinds (gives 7) shop_handle 9 open_world true (calling 1)
      (calling no_result) (calling no_result) (calling good_run) open_world-IsWatched (omega arith)

get_db-settled_example :
    IsGiven fresh_world (record shop_handle { handle = 8 }) (get_db (gives 8) fresh_world).1
get_db-settled_example =
    get_db-settled (gives 8) fresh_world (record shop_handle { handle = 8 })
      (λ conn h. absurd (ground (arith, h)))
      (unfold get_db get_found get_opened open_handle in refl)

exec_tx-committed_example :
    (skip_db_access (codes "db") watching ≡ false)
    × (r : TxRun) × ((calling good_run).answer ≡ gives r)
    × (r.biz ≡ returns none)
    × (r.commit_error ≡ none)
exec_tx-committed_example =
    exec_tx-committed (calling good_run) open_world
      (unfold exec_tx begun_tx end_tx skip_db_access get_db get_found get_pooled in refl)

-- Floats by their whole parts, and a user with a name and a number.
abbrev whole_floats : Floats
whole_floats = record { Float = ℤ; parse_float = λ s. parse_int 63 s }

abbrev user_name : DbField whole_floats
user_name = record {
  db_tag = some (codes "name");
  can_set = true;
  kind = string_kind;
  value = db_string [];
}

abbrev user_number : DbField whole_floats
user_number = record {
  db_tag = some (codes "no");
  can_set = true;
  kind = int_kind 31;
  value = db_int (pos 0);
}

abbrev user : List (DbField whole_floats)
user = user_number ∷ user_name ∷ []

abbrev user_columns : List Bytes
user_columns = codes "name" ∷ codes "no" ∷ []

abbrev two_rows : List (Answer (List Bytes))
two_rows = gives (codes "Ann" ∷ codes "1" ∷ []) ∷ gives (codes "Bob" ∷ codes "2" ∷ []) ∷ []

-- The connection is lost behind the second row.
abbrev cut_rows : QueryRows
cut_rows = record { column_types = gives user_columns; rows = two_rows; rows_error = some bad_conn }

tx_gets-AreRows_example :
    (new : List (Option (List (DbField whole_floats)))) × ((tx_gets whole_floats
        (some user)
        (some user ∷ [])
        (gives cut_rows)
        0).0.1
      ≡ (some user ∷ []) ++ new)
    × AreRows whole_floats user_columns user two_rows new
    × ((tx_gets whole_floats (some user) (some user ∷ []) (gives cut_rows) 0).0.0.count ≡ pos 2)
unfolding tx_gets append_rows
tx_gets-AreRows_example =
    tx_gets-AreRows whole_floats user (some user ∷ []) user_columns two_rows (some bad_conn) 0 refl
