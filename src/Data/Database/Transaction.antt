-- ===== src/Data/Database/Transaction.antt =====
-- `ExecTx` of data/db_base.go: when a transaction is committed, and when it is rolled back.
use landau.Common.{◌≡◌, refl, Bool, true, false, Option, none, some, arith}
use landau.Data.ConnOptimize.{skip_db_access}
use landau.Data.Database.{
  World, Call, Answer, DbError, DbHandle, TxRun, BizOutcome, returns, panics, failed, gives,
  not_begun, begun_tx, get_db, exec_tx, end_tx, committed, rolled_back, rolled_back_panicked,
  commit_failed, bad_conn,
}

end_tx-committed :
    (r : TxRun) (b : BizOutcome) (e : Option DbError)
    → r.biz ≡ b
    → r.commit_error ≡ e
    → end_tx r ≡ committed
    → (b ≡ returns none) × (e ≡ none)
unfolding end_tx
end_tx-committed r panics e j k h =
    let stops : rolled_back_panicked ≡ committed = rw j at h in absurd (ground (arith, stops))
end_tx-committed r (returns (some d)) e j k h =
    let stops : rolled_back d ≡ committed = rw j at h in absurd (ground (arith, stops))
end_tx-committed r (returns none) (some d) j k h =
    let stops : commit_failed d ≡ committed = rw (j, k) at h in absurd (ground (arith, stops))
end_tx-committed r (returns none) none j k h = (refl, refl)

begun_tx-committed :
    (c : Call TxRun) (o : Answer DbHandle) (w : World) (x : Answer TxRun)
    → c.answer ≡ x
    → (begun_tx c o w).0 ≡ committed
    → (r : TxRun) × (x ≡ gives r) × (r.biz ≡ returns none) × (r.commit_error ≡ none)
unfolding begun_tx
begun_tx-committed c (failed e) w x k h = absurd (ground (arith, h))
begun_tx-committed c (gives conn) w (failed e) k h =
    let stops : not_begun e ≡ committed = rw k at h in absurd (ground (arith, stops))
begun_tx-committed c (gives conn) w (gives r) k h =
    let (biz, commit) = end_tx-committed r r.biz r.commit_error refl refl (rw k at h) in
    (r, refl, biz, commit)

exec_tx-runs :
    (c : Call TxRun) (w : World) (skips : Bool)
    → skip_db_access w.database.db_connection w.optimizer ≡ skips
    → (exec_tx c w).0 ≡ committed
    → (skips ≡ false)
      × (r : TxRun) × (c.answer ≡ gives r)
      × (r.biz ≡ returns none)
      × (r.commit_error ≡ none)
unfolding exec_tx
exec_tx-runs c w true s h =
    let stops : not_begun bad_conn ≡ committed = rw s at h in absurd (ground (arith, stops))
exec_tx-runs c w false s h =
    let (r, answered, biz, commit) =
      begun_tx-committed c (get_db c.opened w).0 (get_db c.opened w).1 c.answer refl (rw s at h) in
    (refl, r, answered, biz, commit)

-- `ExecTx` ends with a commit only if the connection was not skipped, the transaction was begun, its
-- function returned no error and did not panic, and the driver's commit had no error.
pub exec_tx-committed :
    (c : Call TxRun) (w : World)
    → (exec_tx c w).0 ≡ committed
    → (skip_db_access w.database.db_connection w.optimizer ≡ false)
      × (r : TxRun) × (c.answer ≡ gives r)
      × (r.biz ≡ returns none)
      × (r.commit_error ≡ none)
exec_tx-committed c w h = exec_tx-runs c w _ refl h
