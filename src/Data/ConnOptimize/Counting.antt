-- ===== src/Data/ConnOptimize/Counting.antt =====
-- When data/db_conn_optimize.go blocks a connection, and what resumes it.
use landau.Common.{
  ℕ, zero, suc, ◌≤◌, ◌≡◌, ◌≢◌, refl, ◌∙◌, ap, ap₂, Bool, true, false, List, [], ◌∷◌, ◌==◌, nat_eq,
  bytes_eq, leb, Bytes, Option, none, some, if◌then◌else◌, arith, lookup, insert, delete,
  lookup-insert, lookup-delete, beq_self, beq_ne, eq_of_beq, subst, Option-cases, Bool-cases, inl,
  inr,
}
use landau.Data.ConnOptimize.{
  Optimizer, OptimizeConnection, err_bad_conn, db_connection_ok, db_connection_error, bad_found,
  first_error, count_error, notify, blocks_now, skip_db_access, blocked, ping_check_finish,
  ping_check_start, mark_pinged, resume_found, resume,
}

-- `n` bad-connection errors in a row, of one connection.
abbrev pub errors : ℕ → Bytes → ℕ → ℕ → Optimizer → Optimizer
errors zero conn db t s = s
errors (suc n) conn db t s =
    db_connection_error conn err_bad_conn (some db) t (errors n conn db t s)

-- What one error does to the map and to the rest of the state.
abbrev next_entry : Bytes → ℕ → ℕ → Option OptimizeConnection → OptimizeConnection
next_entry conn db limit none = first_error conn db
next_entry conn db limit (some c) = count_error limit c

bad_found_parts :
    (conn : Bytes) (db t : ℕ) (s : Optimizer) (o : Option OptimizeConnection)
    → ((bad_found conn db t s o).optimize_connections
        ≡ insert conn (next_entry conn db s.bad_connection_limit o) s.optimize_connections)
      × ((bad_found conn db t s o).enable_optimize_connection ≡ s.enable_optimize_connection)
      × ((bad_found conn db t s o).bad_connection_limit ≡ s.bad_connection_limit)
unfolding bad_found notify blocks_now
bad_found_parts conn db t s none = (refl, refl, refl)
bad_found_parts conn db t s (some c) = ground arith

-- One error of an enabled optimizer.
error_parts :
    (conn : Bytes) (db t : ℕ) (s : Optimizer)
    → s.enable_optimize_connection ≡ true
    → let s' = db_connection_error conn err_bad_conn (some db) t s in
      (lookup conn s'.optimize_connections
        ≡ some (next_entry conn db s.bad_connection_limit (lookup conn s.optimize_connections)))
      × (s'.enable_optimize_connection ≡ true)
      × (s'.bad_connection_limit ≡ s.bad_connection_limit)
error_parts conn db t s on =
    let step : db_connection_error conn err_bad_conn (some db) t s
        ≡ bad_found conn db t s (lookup conn s.optimize_connections) =
      unfold db_connection_error in rw on in
    let (entries, enabled, limit) =
      bad_found_parts conn db t s (lookup conn s.optimize_connections) in
    rw (step, entries, lookup-insert, beq_self conn) (refl, enabled ∙ on, limit)

-- The entry after `n + 1` errors of a connection that was not known.
abbrev Counted : ℕ → Bytes → Optimizer → ℕ → Type 0
Counted n conn s limit =
    (c : OptimizeConnection) × (lookup conn s.optimize_connections ≡ some c)
    × (c.bad_connection_count ≡ suc n)
    × (c.is_blocked ≡ leb limit (suc n))
    × (s.enable_optimize_connection ≡ true)
    × (s.bad_connection_limit ≡ limit)

count_error_lem :
    (limit n : ℕ) (c : OptimizeConnection)
    → c.bad_connection_count ≡ suc n
    → c.is_blocked ≡ leb limit (suc n)
    → ((count_error limit c).bad_connection_count ≡ suc (suc n))
      × ((count_error limit c).is_blocked ≡ leb limit (suc (suc n)))
unfolding count_error
count_error_lem limit n c count flag = ground arith

errors-Counted :
    (n : ℕ) (conn : Bytes) (db t : ℕ) (s : Optimizer)
    → s.enable_optimize_connection ≡ true
    → 2 ≤ s.bad_connection_limit
    → lookup conn s.optimize_connections ≡ none
    → Counted n conn (errors (suc n) conn db t s) s.bad_connection_limit
errors-Counted zero conn db t s on two fresh =
    let (entry, enabled, limit) = error_parts conn db t s on in
    (
      first_error conn db,
      entry ∙ ap (λ o. some (next_entry conn db s.bad_connection_limit o)) fresh,
      unfold first_error in refl,
      unfold first_error in ground arith,
      enabled,
      limit,
    )
errors-Counted (suc n) conn db t s on two fresh =
    let (c, found, count, flag, enabled, same) = errors-Counted n conn db t s on two fresh in
    let (entry, enabled', limit) = error_parts conn db t (errors (suc n) conn db t s) enabled in
    let (count', flag') = count_error_lem s.bad_connection_limit n c count flag in
    (
      count_error s.bad_connection_limit c,
      entry ∙ ap some (ap₂ (next_entry conn db) same found),
      count',
      flag',
      enabled',
      limit ∙ same,
    )

-- After `n` bad-connection errors of a connection that was not known, it is skipped exactly if `n`
-- reaches the limit, where the optimizer is enabled and the limit is two at least.
pub skip_db_access-errors :
    (n : ℕ) (conn : Bytes) (db t : ℕ) (s : Optimizer)
    → s.enable_optimize_connection ≡ true
    → 2 ≤ s.bad_connection_limit
    → lookup conn s.optimize_connections ≡ none
    → skip_db_access conn (errors n conn db t s) ≡ leb s.bad_connection_limit n
unfolding skip_db_access
skip_db_access-errors zero conn db t s on two fresh = rw fresh (ground arith)
skip_db_access-errors (suc n) conn db t s on two fresh =
    let (c, found, _, flag, _, _) = errors-Counted n conn db t s on two fresh in
    ap blocked found ∙ flag

-- An error of one connection, whatever its text, leaves the others as they are.
pub skip_db_access-error_ne :
    (conn other err : Bytes) (db : Option ℕ) (t : ℕ) (s : Optimizer)
    → conn ≢ other
    → skip_db_access other (db_connection_error conn err db t s) ≡ skip_db_access other s
unfolding db_connection_error skip_db_access
skip_db_access-error_ne conn other err none t s h = refl
skip_db_access-error_ne conn other err (some db) t s h = ground (
  arith,
  (bad_found_parts conn db t s (lookup conn s.optimize_connections)).0,
  lookup-insert other conn
      (next_entry conn db s.bad_connection_limit (lookup conn s.optimize_connections))
      s.optimize_connections,
  beq_ne conn other h,
)

resume_found_entries :
    (conn : Bytes) (t : ℕ) (s : Optimizer) (c : OptimizeConnection)
    → (resume_found conn t s (some c)).optimize_connections ≡ delete conn s.optimize_connections
unfolding resume_found notify
resume_found_entries conn t s c = ground arith

-- `dbConnectionOk` of an enabled optimizer resumes the connection, and leaves the others as they are.
pub skip_db_access-ok :
    (conn other : Bytes) (t : ℕ) (s : Optimizer)
    → s.enable_optimize_connection ≡ true
    → skip_db_access other (db_connection_ok conn t s)
      ≡ (if conn == other then false else skip_db_access other s)
unfolding db_connection_ok skip_db_access resume_found
skip_db_access-ok conn other t s on = elim (Option-cases (lookup conn s.optimize_connections)) [
  | inl e ↦ elim (Bool-cases (conn == other)) [
    | inl same ↦
        rw (step, e, resume_found, same)
          (ap blocked
            (subst (λ k. lookup k s.optimize_connections ≡ none) (eq_of_beq conn other same) e))
    | inr ne ↦ rw (step, e, resume_found, ne)
  ]
  | inr (c, e) ↦
      rw (step, e, resume_found_entries conn t s c, lookup-delete other conn s.optimize_connections)
        (ground arith)
]
  where
    step : db_connection_ok conn t s ≡ resume_found conn t s (lookup conn s.optimize_connections)
    step = rw on

-- Whether a list of connections names one.
abbrev pub any_of : Bytes → List Bytes → Bool
any_of k [] = false
any_of k (j ∷ ks) = if j == k then true else any_of k ks

-- The end of a ping round resumes the connections whose pings came back well, and no other.
pub skip_db_access-ping_check_finish :
    (other : Bytes) (ping_ok : List Bytes) (t : ℕ) (s : Optimizer)
    → skip_db_access other (ping_check_finish ping_ok t s)
      ≡ (if any_of other ping_ok then false else skip_db_access other s)
unfolding ping_check_finish
skip_db_access-ping_check_finish other [] t s = refl
skip_db_access-ping_check_finish other (k ∷ ping_ok) t s =
    skip_db_access-ping_check_finish other ping_ok t _ ∙ resumed
  where
    rest : Optimizer
    rest = notify k resume t (record s { optimize_connections = delete k s.optimize_connections })

    entries : rest.optimize_connections ≡ delete k s.optimize_connections
    entries = unfold notify in ground arith

    resumed :
        (if any_of other ping_ok then false else skip_db_access other rest)
        ≡ (if any_of other (k ∷ ping_ok) then false else skip_db_access other s)
    resumed =
        unfold skip_db_access in
        rw (entries, lookup-delete other k s.optimize_connections) (ground arith)

-- The start of a ping round blocks no connection and resumes none.
pub skip_db_access-ping_check_start :
    (other : Bytes) (t : ℕ) (s : Optimizer)
    → skip_db_access other (ping_check_start t s).0 ≡ skip_db_access other s
unfolding ping_check_start
skip_db_access-ping_check_start other t s = unfold skip_db_access in marked s.optimize_connections
  where
    marked :
        (m : List (Bytes × OptimizeConnection))
        → blocked (lookup other (mark_pinged s.ping_db_interval t m)) ≡ blocked (lookup other m)
    marked [] = unfold mark_pinged in refl
    marked ((k, c) ∷ m) = unfold mark_pinged in ground (arith, marked m)
