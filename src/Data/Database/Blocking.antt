-- ===== src/Data/Database/Blocking.antt =====
-- data/db_base.go: what the connection optimizer does to the calls of a database, and they to it.
use landau.Common.{
  ℕ, List, [], ◌∷◌, length, suc, ◌≤◌, ◌≡◌, refl, ◌∙◌, ap, Bool, true, false, Bytes, none, some,
  if◌then◌else◌, lookup, leb, arith, Bool-cases, inl, inr, bytes_eq,
}
use landau.Data.ConnOptimize.{skip_db_access, db_connection_error, err_bad_conn}
use landau.Data.ConnOptimize.Counting.{errors, skip_db_access-errors}
use landau.Data.Database.{
  World, Call, Answer, DbError, DbHandle, ExecResult, TxRun, failed, gives, bad_conn, query_behind,
  exec_behind, insert_behind, begun_tx, query, exec2, insert2, exec_tx, not_begun, get_db,
  check_error, bool_beq, check_with, counted, no_rows, get_found, get_pooled,
}

get_db_pooled :
    (opened : Answer ℕ) (conn : DbHandle) (w : World)
    → lookup w.database.db_connection w.pool ≡ some conn
    → bool_beq w.database.keep_all_connection w.database.last_set_kept_all_connection ≡ true
    → get_db opened w ≡ (gives conn, w)
unfolding get_db get_found get_pooled
get_db_pooled opened conn w found same = rw (found, same) refl

check_error_pooled :
    (opened : Answer ℕ) (conn : DbHandle) (e : DbError) (t : ℕ) (w : World)
    → lookup w.database.db_connection w.pool ≡ some conn
    → bool_beq w.database.keep_all_connection w.database.last_set_kept_all_connection ≡ true
    → check_error opened e t w ≡ record w {
      optimizer =
          db_connection_error w.database.db_connection e.text (some conn.handle) t w.optimizer;
    }
unfolding check_error check_with
check_error_pooled opened conn e t w found same = rw (get_db_pooled opened conn w found same) refl

-- The calls of a database.
pub data CallKind : Type 0 where
  a_query : Bool → CallKind
  an_exec an_insert a_transaction : CallKind

-- A call that the driver answers with ErrBadConn.
abbrev pub bad_call : {A : Type 0} → Answer ℕ → ℕ → Call A
bad_call opened t = record {
  opened = opened;
  opened_again = opened;
  answer = failed bad_conn;
  time = t;
}

abbrev pub run_bad : CallKind → Answer ℕ → ℕ → World → World
run_bad (a_query one) opened t w = (query one (bad_call opened t) w).1
run_bad an_exec opened t w = (exec2 (bad_call opened t) w).1
run_bad an_insert opened t w = (insert2 (bad_call opened t) w).1
run_bad a_transaction opened t w = (exec_tx (bad_call opened t) w).1

-- Such calls in a row, the last one first.
abbrev pub failing : List CallKind → Answer ℕ → ℕ → World → World
failing [] opened t w = w
failing (kind ∷ kinds) opened t w = run_bad kind opened t (failing kinds opened t w)

abbrev capped : ℕ → ℕ → ℕ
capped limit n = if leb limit n then limit else n

bad_skipped :
    (kind : CallKind) (opened : Answer ℕ) (t : ℕ) (w : World)
    → skip_db_access w.database.db_connection w.optimizer ≡ true
    → run_bad kind opened t w ≡ w
unfolding query exec2 insert2 exec_tx
bad_skipped (a_query one) opened t w h = rw (run_bad, h) refl
bad_skipped an_exec opened t w h = rw (run_bad, h) refl
bad_skipped an_insert opened t w h = rw (run_bad, h) refl
bad_skipped a_transaction opened t w h = rw (run_bad, h) refl

bad_step :
    (kind : CallKind) (opened : Answer ℕ) (conn : DbHandle) (t : ℕ) (w : World)
    → lookup w.database.db_connection w.pool ≡ some conn
    → bool_beq w.database.keep_all_connection w.database.last_set_kept_all_connection ≡ true
    → skip_db_access w.database.db_connection w.optimizer ≡ false
    → run_bad kind opened t w ≡ record w {
      optimizer =
          db_connection_error w.database.db_connection err_bad_conn
            (some conn.handle)
            t
            w.optimizer;
    }
unfolding query query_behind counted no_rows exec2 exec_behind insert2 insert_behind exec_tx
    begun_tx
bad_step (a_query one) opened conn t w found same open_ =
    rw (run_bad, open_, get_db_pooled opened conn w found same)
      (check_error_pooled opened conn bad_conn t w found same)
bad_step an_exec opened conn t w found same open_ =
    rw (run_bad, open_, get_db_pooled opened conn w found same)
      (check_error_pooled opened conn bad_conn t w found same)
bad_step an_insert opened conn t w found same open_ =
    rw (run_bad, open_, get_db_pooled opened conn w found same)
      (check_error_pooled opened conn bad_conn t w found same)
bad_step a_transaction opened conn t w found same open_ =
    rw (run_bad, open_, get_db_pooled opened conn w found same)
      (check_error_pooled opened conn bad_conn t w found same)

-- A database with a handle in the pool whose setting is up to date, and an optimizer that is enabled,
-- has a limit of two at least and does not know the connection.
pub record IsWatched (conn : DbHandle) (w : World) : Type 0 where
  pub found : lookup w.database.db_connection w.pool ≡ some conn
  pub same : bool_beq w.database.keep_all_connection w.database.last_set_kept_all_connection ≡ true
  pub on : w.optimizer.enable_optimize_connection ≡ true
  pub two : 2 ≤ w.optimizer.bad_connection_limit
  pub fresh : lookup w.database.db_connection w.optimizer.optimize_connections ≡ none

failing_lem :
    (kinds : List CallKind) (opened : Answer ℕ) (conn : DbHandle) (t : ℕ) (w : World)
    → IsWatched conn w
    → failing kinds opened t w ≡ record w {
      optimizer =
          errors
            (capped w.optimizer.bad_connection_limit (length kinds))
            w.database.db_connection
            conn.handle
            t
            w.optimizer;
    }
failing_lem [] opened conn t w h =
    let start : 0 ≡ capped w.optimizer.bad_connection_limit 0 = ground (arith, h.two) in
    ap (λ k. record w { optimizer = errors k w.database.db_connection conn.handle t w.optimizer })
      start
failing_lem (kind ∷ kinds) opened conn t w h =
    let n : ℕ = length kinds in
    let limit : ℕ = w.optimizer.bad_connection_limit in
    let name : Bytes = w.database.db_connection in
    let at : ℕ → World = λ k. record w { optimizer = errors k name conn.handle t w.optimizer } in
    let before = failing_lem kinds opened conn t w h in
    let skips =
      skip_db_access-errors (capped limit n) name conn.handle t w.optimizer h.on h.two h.fresh in
    elim (Bool-cases (leb limit n)) [
      | inl full ↦
          let at_limit : leb limit (capped limit n) ≡ true = ground (arith, full) in
          let stays : capped limit n ≡ capped limit (suc n) = ground (arith, full) in
          ap (run_bad kind opened t) before
          ∙ bad_skipped kind opened t (at (capped limit n)) (skips ∙ at_limit)
          ∙ ap at stays
      | inr short ↦
          let below : leb limit (capped limit n) ≡ false = ground (arith, short) in
          let grows : suc (capped limit n) ≡ capped limit (suc n) = ground (arith, short) in
          ap (run_bad kind opened t) before
          ∙ bad_step kind opened conn t (at (capped limit n)) h.found h.same (skips ∙ below)
          ∙ ap at grows
    ]

skip_db_access-failing :
    (kinds : List CallKind) (opened : Answer ℕ) (conn : DbHandle) (t : ℕ) (w : World)
    → IsWatched conn w
    → skip_db_access
        (failing kinds opened t w).database.db_connection
        (failing kinds opened t w).optimizer
      ≡ leb w.optimizer.bad_connection_limit (length kinds)
skip_db_access-failing kinds opened conn t w h =
    let limit : ℕ = w.optimizer.bad_connection_limit in
    let n : ℕ = length kinds in
    ap (λ (v : World). skip_db_access v.database.db_connection v.optimizer)
      (failing_lem kinds opened conn t w h)
    ∙ skip_db_access-errors (capped limit n) w.database.db_connection conn.handle t w.optimizer h.on
        h.two h.fresh
    ∙ ground arith

-- Each kind of call fails with ErrBadConn and changes nothing, whatever the driver would answer.
abbrev pub AreRefused :
    Bool → Call ℕ → Call ExecResult → Call ExecResult → Call TxRun → World → Type 0
AreRefused one q e i x w =
    (query one q w ≡ (failed bad_conn, w))
    × (exec2 e w ≡ (failed bad_conn, w))
    × (insert2 i w ≡ (failed bad_conn, w))
    × (exec_tx x w ≡ (not_begun bad_conn, w))

calls_refused :
    (one : Bool) (q : Call ℕ) (e i : Call ExecResult) (x : Call TxRun) (w : World)
    → skip_db_access w.database.db_connection w.optimizer ≡ true
    → AreRefused one q e i x w
unfolding query exec2 insert2 exec_tx
calls_refused one q e i x w h = (rw h refl, rw h refl, rw h refl, rw h refl)

-- Of a database with a handle in the pool whose setting is up to date, where the optimizer is enabled,
-- has a limit of two at least and does not know the connection: behind a row of calls of any kinds that
-- the driver answers with ErrBadConn, as long as the limit or longer, every kind of call fails with ErrBadConn and leaves the database, the pool and the
-- optimizer as they are, whatever the driver would answer.
pub failing-AreRefused :
    (kinds : List CallKind) (opened : Answer ℕ) (conn : DbHandle) (t : ℕ) (w : World)
    → (one : Bool) (q : Call ℕ) (e i : Call ExecResult) (x : Call TxRun) → IsWatched conn w
    → w.optimizer.bad_connection_limit ≤ length kinds
    → AreRefused one q e i x (failing kinds opened t w)
failing-AreRefused kinds opened conn t w one q e i x h many =
    calls_refused one q e i x (failing kinds opened t w)
      (skip_db_access-failing kinds opened conn t w h ∙ ground (arith, many))
