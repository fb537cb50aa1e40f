-- ===== src/Data/Database.antt =====
-- data/db_base.go: calls of a database, behind the pool of its handles and the connection optimizer.
-- What the driver answers to one call is an argument, in `Call`; a call is one step. The handle of the
-- pool is a number with the settings that the code gives it. Logs are left out.
pub mod Where
pub mod Blocking
pub mod Settings
pub mod Transaction
pub mod Options
pub mod Wrap
pub mod Default
mod Tests
use landau.Common.{
  ℕ, Bool, true, false, not, ◌&&◌, List, [], ◌∷◌, ◌==◌, bytes_eq, Bytes, Option, none, some,
  if◌then◌else◌, ltb, ℤ, pos, negsuc, lookup, insert,
}
use landau.Data.ConnOptimize.{Optimizer, skip_db_access, db_connection_error, err_bad_conn}

-- An error: its text, and whether it is `sql.ErrNoRows`.
pub record DbError : Type 0 where
  pub text : Bytes
  pub is_no_rows : Bool

pub data Answer {ℓ} (A : Type ℓ) : Type ℓ where
  failed : DbError → Answer A
  gives : A → Answer A

-- `Database`, what the calls use of it.
pub record Database : Type 0 where
  pub db_connection : Bytes
  pub max_open_connections : ℕ
  pub max_idle_connections : ℕ
  pub max_connection_life_time : ℕ
  pub keep_all_connection : Bool
  pub last_set_kept_all_connection : Bool

-- A handle of the pool and its settings.
pub record DbHandle : Type 0 where
  pub handle : ℕ
  pub max_open_conns : ℕ
  pub max_idle_conns : ℕ
  pub conn_max_lifetime : ℕ

-- The database, the pool `dbConnectionPool` and the optimizer.
pub record World : Type 0 where
  pub database : Database
  pub pool : List (Bytes × DbHandle)
  pub optimizer : Optimizer

abbrev pub bool_beq : Bool → Bool → Bool
bool_beq true b = b
bool_beq false b = not b

-- `maxIdleConnNum`
abbrev pub idle_number : Database → ℕ
idle_number c = if c.keep_all_connection then c.max_open_connections else c.max_idle_connections

abbrev pub kept : Database → Database
kept c = record c { last_set_kept_all_connection = c.keep_all_connection }

-- `SetMaxIdleConns` of database/sql, on a handle with its `SetMaxOpenConns`: a positive limit of open
-- connections is one of the idle ones, too.
abbrev pub reduced : ℕ → ℕ → ℕ
reduced open_conns idle = if ltb 0 open_conns && ltb open_conns idle then open_conns else idle

get_pooled : DbHandle → World → DbHandle × World
get_pooled conn w =
    if bool_beq w.database.keep_all_connection w.database.last_set_kept_all_connection
    then (conn, w)
    else (let conn' = record conn {
      max_idle_conns = reduced conn.max_open_conns (idle_number w.database);
    } in
        (
          conn',
          record w {
            pool = insert w.database.db_connection conn' w.pool;
            database = kept w.database;
          },
        ))

open_handle : ℕ → Database → DbHandle
open_handle handle c = record {
  handle = handle;
  max_open_conns = c.max_open_connections;
  max_idle_conns = reduced c.max_open_connections (idle_number c);
  conn_max_lifetime = c.max_connection_life_time;
}

get_opened : Answer ℕ → World → Answer DbHandle × World
unfolding open_handle
get_opened (failed e) w = (failed e, w)
get_opened (gives h) w = (
  gives (open_handle h w.database),
  record w {
    pool = insert w.database.db_connection (open_handle h w.database) w.pool;
    database = kept w.database;
  },
)

get_found : Answer ℕ → Option DbHandle → World → Answer DbHandle × World
unfolding get_pooled get_opened
get_found opened none w = get_opened opened w
get_found opened (some conn) w = let (conn', w') = get_pooled conn w in (gives conn', w')

-- `GetDB`; `opened` is what `sqlx.Open` answers if it is called.
unfoldable pub get_db : Answer ℕ → World → Answer DbHandle × World
unfolding get_found
get_db opened w = get_found opened (lookup w.database.db_connection w.pool) w

-- `SetKeepAllIdleConn`.
unfoldable pub set_keep_all_idle_conn : Bool → World → World
set_keep_all_idle_conn keep w = record w {
  database = record (w.database) { keep_all_connection = keep };
}

check_with : Bytes → ℕ → Answer DbHandle → World → World
check_with err t (failed e) w = w
check_with err t (gives conn) w = record w {
  optimizer = db_connection_error w.database.db_connection err (some conn.handle) t w.optimizer;
}

-- `checkError`, which asks for the handle once more.
unfoldable pub check_error : Answer ℕ → DbError → ℕ → World → World
unfolding check_with
check_error opened e t w = let (conn, w') = get_db opened w in check_with e.text t conn w'

-- What the driver answers in one call, and the time at which an error is noted.
pub record Call {ℓ} (A : Type ℓ) : Type ℓ where
  pub opened : Answer ℕ
  pub opened_again : Answer ℕ
  pub answer : Answer A
  pub time : ℕ

abbrev pub bad_conn : DbError
bad_conn = record { text = err_bad_conn; is_no_rows = false }

no_rows : DbError → Option ℕ
no_rows e = if e.is_no_rows then some 0 else none

counted : Bool → Answer ℕ → Answer ℕ
counted is_get_one (failed e) = failed e
counted is_get_one (gives n) = gives (if is_get_one then 1 else n)

-- Behind the look for the handle in `query`: a missing row is no error.
query_behind : Call ℕ → Answer DbHandle → World → Answer ℕ × World
unfolding no_rows
query_behind c (failed e) w = (failed e, check_error c.opened_again e c.time w)
query_behind c (gives conn) w = elim (c.answer) [
  | gives a ↦ (gives a, w)
  | failed e ↦ elim (no_rows e) [
    | some a ↦ (gives a, w)
    | none ↦ (failed e, check_error c.opened_again e c.time w)
  ]
]

-- `query`, for `Get` and `Gets`: the driver's answer is the length of the list that it filled.
unfoldable pub query : Bool → Call ℕ → World → Answer ℕ × World
unfolding query_behind counted
query is_get_one c w =
    let (conn, w') = get_db c.opened w in
    if skip_db_access w.database.db_connection w.optimizer
    then (failed bad_conn, w)
    else query_behind (record c { answer = counted is_get_one c.answer }) conn w'

-- `sql.Result`: each number may be unknown to the driver.
pub record ExecResult : Type 0 where
  pub rows_affected : Option ℤ
  pub last_insert_id : Option ℤ

or_minus_one : Option ℤ → ℤ
or_minus_one none = negsuc 0
or_minus_one (some n) = n

exec_behind : Call ExecResult → Answer DbHandle → World → Answer ℤ × World
unfolding or_minus_one
exec_behind c (failed e) w = (failed e, check_error c.opened_again e c.time w)
exec_behind c (gives conn) w = elim (c.answer) [
  | failed e ↦ (failed e, check_error c.opened_again e c.time w)
  | gives r ↦ (gives (or_minus_one r.rows_affected), w)
]

unfoldable pub exec2 : Call ExecResult → World → Answer ℤ × World
unfolding exec_behind
exec2 c w =
    let (conn, w') = get_db c.opened w in
    if skip_db_access w.database.db_connection w.optimizer
    then (failed bad_conn, w)
    else exec_behind c conn w'

insert_behind : Call ExecResult → Answer DbHandle → World → Answer ℤ × World
unfolding or_minus_one
insert_behind c (failed e) w = (failed e, check_error c.opened_again e c.time w)
insert_behind c (gives conn) w = elim (c.answer) [
  | failed e ↦ (failed e, check_error c.opened_again e c.time w)
  | gives r ↦ (gives (or_minus_one r.last_insert_id), w)
]

unfoldable pub insert2 : Call ExecResult → World → Answer ℤ × World
unfolding insert_behind
insert2 c w =
    let (conn, w') = get_db c.opened w in
    if skip_db_access w.database.db_connection w.optimizer
    then (failed bad_conn, w)
    else insert_behind c conn w'

-- What the function of a transaction does, and what the driver answers to a commit.
pub data BizOutcome : Type 0 where
  returns : Option DbError → BizOutcome
  panics : BizOutcome

pub record TxRun : Type 0 where
  pub biz : BizOutcome
  pub commit_error : Option DbError

-- What became of the transaction, with the error that `ExecTx` returns.
pub data TxResult : Type 0 where
  not_begun : DbError → TxResult
  committed : TxResult
  commit_failed : DbError → TxResult
  rolled_back : DbError → TxResult
  rolled_back_panicked : TxResult

end_tx : TxRun → TxResult
end_tx r = elim (r.biz) [
  | panics ↦ rolled_back_panicked
  | returns (some e) ↦ rolled_back e
  | returns none ↦ elim (r.commit_error) [ none ↦ committed | some e ↦ commit_failed e ]
]

-- Behind the look for the handle in `ExecTx`: `BeginTx`, and the run.
begun_tx : Call TxRun → Answer DbHandle → World → TxResult × World
unfolding end_tx
begun_tx c (failed e) w = (not_begun e, check_error c.opened_again e c.time w)
begun_tx c (gives conn) w = elim (c.answer) [
  | failed e ↦ (not_begun e, check_error c.opened_again e c.time w)
  | gives r ↦ (end_tx r, w)
]

-- `ExecTx`; the answer is that of `BeginTx`, with the run that follows it.
unfoldable pub exec_tx : Call TxRun → World → TxResult × World
unfolding begun_tx
exec_tx c w =
    let (conn, w') = get_db c.opened w in
    if skip_db_access w.database.db_connection w.optimizer
    then (not_begun bad_conn, w)
    else begun_tx c conn w'
