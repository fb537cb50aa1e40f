-- ===== src/Data/ConnOptimize.antt =====
-- data/db_conn_optimize.go: database connections that fail too often are blocked until a ping or a
-- good call resumes them. A function stands for a call that nothing interrupts; the parts of it that
-- other calls may come between have definitions of their own, and Invariant takes those as its steps:
-- the flags are written and read without the lock that guards the connections. Times and counts are
-- unbounded, and the trace log is left out.
pub mod Counting
pub mod Invariant
mod Tests
use landau.Common.{
  ℕ, ◌+◌, ◌≡◌, Bool, true, false, ◌&&◌, not, List, [], ◌∷◌, ◌++◌, ◌==◌, nat_eq, bytes_eq, leb,
  Bytes, codes, Option, none, some, if◌then◌else◌, lookup, insert, delete, map, suc,
}

-- `OptimizeConnection`; `db` is the handle that a ping uses.
pub record OptimizeConnection : Type 0 where
  pub db_connection : Bytes
  pub bad_connection_count : ℕ
  pub is_blocked : Bool
  pub ping_check_time : ℕ
  pub db : ℕ

pub data EventType : Type 0 where
  resume block : EventType

-- A call of the event callback.
pub record Event : Type 0 where
  pub db_conn : Bytes
  pub event_type : EventType
  pub time : ℕ

-- The variables of the file; `events` holds the calls of the callback, the last one first.
pub record Optimizer : Type 0 where
  pub enable_optimize_connection : Bool
  pub bad_connection_limit : ℕ
  pub ping_db_interval : ℕ
  pub optimize_connections : List (Bytes × OptimizeConnection)
  pub ping_check_running : Bool
  pub has_callback : Bool
  pub events : List Event

pub initial : Optimizer
initial = record {
  enable_optimize_connection = false;
  bad_connection_limit = 20;
  ping_db_interval = 3;
  optimize_connections = [];
  ping_check_running = false;
  has_callback = false;
  events = [];
}

-- The text of `driver.ErrBadConn`.
abbrev pub err_bad_conn : Bytes
err_bad_conn = codes "driver: bad connection"

pub set_callback : Bool → Optimizer → Optimizer
set_callback present s = record s { has_callback = present }

-- The first part of `SetEnableOptimizeConnection`, without the lock: the flags. Enabling starts the
-- ping loop, once.
abbrev pub set_enable_flags : Bool → Optimizer → Optimizer
set_enable_flags on s = record s { enable_optimize_connection = on; ping_check_running = on }

-- The second part, under the lock, when a ping loop was running: the connections are forgotten.
abbrev pub forget_connections : Optimizer → Optimizer
forget_connections s = record s { optimize_connections = [] }

pub set_enable_optimize_connection : Bool → Optimizer → Optimizer
set_enable_optimize_connection true s = set_enable_flags true s
set_enable_optimize_connection false s =
    if s.ping_check_running
    then forget_connections (set_enable_flags false s)
    else set_enable_flags false s

pub set_bad_connection_count : ℕ → Optimizer → Optimizer
set_bad_connection_count n s = if leb 3 n then record s { bad_connection_limit = n } else s

pub set_db_ping_check_interval : ℕ → Optimizer → Optimizer
set_db_ping_check_interval n s = if leb 1 n then record s { ping_db_interval = n } else s

notify : Bytes → EventType → ℕ → Optimizer → Optimizer
notify conn type t s =
    if s.has_callback
    then record s { events = record { db_conn = conn; event_type = type; time = t } ∷ s.events }
    else s

-- Behind the look under the read lock: the entry that was found is deleted under the other lock. The
-- event carries the connection that the entry names.
pub resume_found : Bytes → ℕ → Optimizer → Option OptimizeConnection → Optimizer
resume_found conn t s none = s
resume_found conn t s (some c) =
    notify c.db_connection resume t
      (record s { optimize_connections = delete conn s.optimize_connections })

pub db_connection_ok : Bytes → ℕ → Optimizer → Optimizer
db_connection_ok conn t s =
    if s.enable_optimize_connection
    then resume_found conn t s (lookup conn s.optimize_connections)
    else s

first_error : Bytes → ℕ → OptimizeConnection
first_error conn db = record {
  db_connection = conn;
  bad_connection_count = 1;
  is_blocked = false;
  ping_check_time = 0;
  db = db;
}

-- One more error of a connection that is known, and whether it blocks the connection now.
blocks_now : ℕ → OptimizeConnection → Bool
blocks_now limit c = not c.is_blocked && leb limit (c.bad_connection_count + 1)

count_error : ℕ → OptimizeConnection → OptimizeConnection
unfolding blocks_now
count_error limit c =
    if blocks_now limit c
    then record c { bad_connection_count = c.bad_connection_count + 1; is_blocked = true }
    else record c { bad_connection_count = c.bad_connection_count + 1 }

-- Under the lock, behind the test of the flag.
pub bad_found : Bytes → ℕ → ℕ → Optimizer → Option OptimizeConnection → Optimizer
bad_found conn db t s none = record s {
  optimize_connections = insert conn (first_error conn db) s.optimize_connections;
}
bad_found conn db t s (some c) =
    let s' = record s {
      optimize_connections =
          insert conn (count_error s.bad_connection_limit c) s.optimize_connections;
    } in
    if blocks_now s.bad_connection_limit c then notify c.db_connection block t s' else s'

-- `dbConnectionError`: a nil `db` is `none`, and only the text of the error is looked at.
pub db_connection_error : Bytes → Bytes → Option ℕ → ℕ → Optimizer → Optimizer
db_connection_error conn err none t s = s
db_connection_error conn err (some db) t s =
    if s.enable_optimize_connection && (err == err_bad_conn)
    then bad_found conn db t s (lookup conn s.optimize_connections)
    else s

abbrev blocked : Option OptimizeConnection → Bool
blocked none = false
blocked (some c) = c.is_blocked

-- `skipDbAccessDueErrBadConnection`: `true` comes with the error ErrBadConn.
unfoldable pub skip_db_access : Bytes → Optimizer → Bool
skip_db_access conn s = blocked (lookup conn s.optimize_connections)

abbrev due : ℕ → ℕ → OptimizeConnection → Bool
due interval t c = leb (c.ping_check_time + interval) t

-- The first step of a ping round, at time `t`: the entries that are due, and the new times.
start_pings : ℕ → ℕ → List (Bytes × OptimizeConnection) → List Bytes
start_pings interval t [] = []
start_pings interval t ((k, c) ∷ m) =
    let rest = start_pings interval t m in if due interval t c then c.db_connection ∷ rest else rest

mark_pinged : ℕ → ℕ → List (Bytes × OptimizeConnection) → List (Bytes × OptimizeConnection)
mark_pinged interval t [] = []
mark_pinged interval t ((k, c) ∷ m) =
    (k, if due interval t c then record c { ping_check_time = t } else c) ∷ mark_pinged interval t m

pub ping_check_start : ℕ → Optimizer → Optimizer × List Bytes
unfolding start_pings mark_pinged
ping_check_start t s = (
  record s { optimize_connections = mark_pinged s.ping_db_interval t s.optimize_connections },
  start_pings s.ping_db_interval t s.optimize_connections,
)

-- The second step: the connections whose pings came back well.
pub ping_check_finish : List Bytes → ℕ → Optimizer → Optimizer
ping_check_finish [] t s = s
ping_check_finish (k ∷ ping_ok) t s =
    ping_check_finish ping_ok t
      (notify k resume t (record s { optimize_connections = delete k s.optimize_connections }))
