-- ===== src/Data/ConnOptimize/Tests.antt =====
-- The theorems on data/db_conn_optimize.go at concrete states.
use landau.Common.{
  false, ◌≤◌, ◌≡◌, refl, true, [], Bytes, codes, some, arith, leb, lookup, bytes_eq,
}
use landau.Data.ConnOptimize.{
  Optimizer, OptimizeConnection, initial, set_enable_optimize_connection, set_enable_flags,
  forget_connections, set_bad_connection_count, err_bad_conn, db_connection_error, skip_db_access,
  bad_found, first_error, count_error, blocks_now, notify,
}
use landau.Data.ConnOptimize.Counting.{errors, skip_db_access-errors}
use landau.Data.ConnOptimize.Invariant.{
  Reach, here, next, sets_flags, sets_count, notes_error, forgets, Reach-skip_db_access,
}

abbrev mysql : Bytes
mysql = codes "u:p@tcp(h:1)/d"

abbrev started : Optimizer
started = record {
  enable_optimize_connection = true;
  bad_connection_limit = 3;
  ping_db_interval = 3;
  optimize_connections = [];
  ping_check_running = true;
  has_callback = true;
  events = [];
}

-- The calls that lead to `started`, and three errors.
after_enable : Optimizer
unfolding set_enable_optimize_connection set_bad_connection_count initial
after_enable = set_bad_connection_count 3 (set_enable_optimize_connection true initial)

abbrev failing : Optimizer → Optimizer
failing s = db_connection_error mysql err_bad_conn (some 9) 100 s

after_three : Optimizer
unfolding after_enable db_connection_error bad_found first_error count_error blocks_now notify
after_three = failing (failing (failing after_enable))

three_reached : Reach initial after_three
unfolding after_three
three_reached =
    next
      (next (next (next (next here (sets_flags true)) (sets_count 3)) (notes_error mysql 9 100))
        (notes_error mysql 9 100))
      (notes_error mysql 9 100)

three_skipped : skip_db_access mysql after_three ≡ true
unfolding after_three skip_db_access
three_skipped = refl

-- The same errors, when they have passed the test of the flag before it is written: the connection is
-- blocked while the optimizer is disabled.
late_errors : Optimizer
unfolding after_enable bad_found first_error count_error blocks_now notify
late_errors = noted (noted (noted (forget_connections (set_enable_flags false after_enable))))
  where
    noted : Optimizer → Optimizer
    noted s = bad_found mysql 9 100 s (lookup mysql s.optimize_connections)

late_errors_block :
    (skip_db_access mysql late_errors ≡ true) × (late_errors.enable_optimize_connection ≡ false)
unfolding late_errors skip_db_access
late_errors_block = (refl, refl)

late_errors_reached : Reach initial late_errors
unfolding late_errors
late_errors_reached =
    next
      (next
        (next
          (next (next (next (next here (sets_flags true)) (sets_count 3)) (sets_flags false))
            forgets)
          (notes_error mysql 9 100))
        (notes_error mysql 9 100))
      (notes_error mysql 9 100)

Reach-skip_db_access_example :
    (c : OptimizeConnection) × (lookup mysql after_three.optimize_connections ≡ some c)
    × (c.db_connection ≡ mysql)
    × (3 ≤ c.bad_connection_count)
Reach-skip_db_access_example = Reach-skip_db_access mysql after_three three_reached three_skipped

skip_db_access-errors_example : skip_db_access mysql (errors 5 mysql 9 100 started) ≡ leb 3 5
skip_db_access-errors_example = skip_db_access-errors 5 mysql 9 100 started refl (omega arith) refl
