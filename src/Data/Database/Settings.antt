-- ===== src/Data/Database/Settings.antt =====
-- data/db_base.go: the settings of the pooled handle, and how a transaction ends.
use landau.Common.{
  subst, ℕ, ◌≡◌, refl, sym, ◌∙◌, ap, Bool, true, false, Option, none, some, if◌then◌else◌, lookup,
  insert, lookup-insert, beq_self, arith, bytes_eq,
}
use landau.Data.Database.{
  World, Answer, DbHandle, failed, gives, get_db, get_found, get_opened, get_pooled, open_handle,
  bool_beq, idle_number, kept, reduced, set_keep_all_idle_conn,
}

-- The handle has the number of idle connections that the database noted, as far as the handle's limit
-- of open connections allows.
abbrev pub IsSettled : World → Type 0
IsSettled w =
    (conn : DbHandle)
    → lookup w.database.db_connection w.pool ≡ some conn
    → conn.max_idle_conns
      ≡ reduced conn.max_open_conns (
          if w.database.last_set_kept_all_connection
          then w.database.max_open_connections
          else w.database.max_idle_connections)

-- Whether the database keeps all connections may be changed at any time.
pub set_keep_all_idle_conn-IsSettled :
    (keep : Bool) (w : World) → IsSettled w → IsSettled (set_keep_all_idle_conn keep w)
unfolding set_keep_all_idle_conn
set_keep_all_idle_conn-IsSettled keep w h = h

-- The handle is the one of the pool, and has the number of idle connections that is asked for.
abbrev pub IsGiven : World → DbHandle → World → Type 0
IsGiven w conn w' =
    (lookup w'.database.db_connection w'.pool ≡ some conn)
    × (conn.max_idle_conns
        ≡ reduced conn.max_open_conns (
            if w.database.keep_all_connection
            then w.database.max_open_connections
            else w.database.max_idle_connections))
    × (w'.database.last_set_kept_all_connection ≡ w.database.keep_all_connection)

abbrev handle_or : DbHandle → Answer DbHandle → DbHandle
handle_or d (failed e) = d
handle_or d (gives c) = c

pooled_settled :
    (w : World) (c conn : DbHandle) (same : Bool)
    → bool_beq w.database.keep_all_connection w.database.last_set_kept_all_connection ≡ same
    → lookup w.database.db_connection w.pool ≡ some c
    → IsSettled w
    → (get_pooled c w).0 ≡ conn
    → IsGiven w conn (get_pooled c w).1
unfolding get_pooled
pooled_settled w c conn true same l settled h =
    let whole : get_pooled c w ≡ (c, w) = rw same refl in
    let eq : c ≡ conn = sym (ap (λ (r : DbHandle × World). r.0) whole) ∙ h in
    subst (IsGiven w conn) (sym (ap (λ (r : DbHandle × World). r.1) whole)) (
      l ∙ ap some eq,
      sym (ap (λ (d : DbHandle). d.max_idle_conns) eq) ∙ settled c l ∙ ground (arith, same),
      ground (arith, same),
    )
pooled_settled w c conn false same l settled h =
    let c' : DbHandle = record c {
      max_idle_conns = reduced c.max_open_conns (idle_number w.database);
    } in
    let w' : World = record w {
      pool = insert w.database.db_connection c' w.pool;
      database = kept w.database;
    } in
    let whole : get_pooled c w ≡ (c', w') = rw same refl in
    let eq : c' ≡ conn = sym (ap (λ (r : DbHandle × World). r.0) whole) ∙ h in
    subst (IsGiven w conn) (sym (ap (λ (r : DbHandle × World). r.1) whole)) (
      rw (lookup-insert, beq_self w.database.db_connection) (ap some eq),
      sym (ap (λ (d : DbHandle). d.max_idle_conns) eq)
          ∙ ap (λ (d : DbHandle). reduced d.max_open_conns (idle_number w.database)) eq,
      refl,
    )

found_settled :
    (opened : Answer ℕ) (o : Option DbHandle) (w : World) (conn : DbHandle)
    → lookup w.database.db_connection w.pool ≡ o
    → IsSettled w
    → (get_found opened o w).0 ≡ gives conn
    → IsGiven w conn (get_found opened o w).1
unfolding get_found get_opened open_handle
found_settled (failed e) none w conn l settled h = absurd (ground (arith, h))
found_settled (gives n) none w conn l settled h =
    let eq : open_handle n w.database ≡ conn = ap (handle_or conn) h in
    (
      rw (lookup-insert, beq_self w.database.db_connection) (ap some eq),
      sym (ap (λ (d : DbHandle). d.max_idle_conns) eq)
          ∙ ap (λ (d : DbHandle). reduced d.max_open_conns (idle_number w.database)) eq,
      refl,
    )
found_settled opened (some c) w conn l settled h =
    pooled_settled w c conn _ refl l settled (ap (handle_or conn) h)

-- Where the handle of the pool has the number of idle connections that the database noted, as far as
-- its positive limit of open connections allows, `GetDB` without an error gives the handle that the pool
-- then has, and that has in the same way the number that the database asks for now.
pub get_db-settled :
    (opened : Answer ℕ) (w : World) (conn : DbHandle)
    → IsSettled w
    → (get_db opened w).0 ≡ gives conn
    → IsGiven w conn (get_db opened w).1
unfolding get_db
get_db-settled opened w conn settled h = found_settled opened _ w conn refl settled h
