-- ===== src/Data/ConnOptimize/Invariant.antt =====
-- What holds in every state that the functions of data/db_conn_optimize.go reach, whatever comes between
-- the parts of them that hold the lock.
use landau.Common.{
  ℕ, ◌≤◌, ◌≡◌, refl, Bool, true, List, [], ◌∷◌, ◌==◌, nat_eq, bytes_eq, leb, Bytes, Option, none,
  some, arith, lookup, insert, delete, All, eq_of_beq, subst, sym, Bool-cases, Option-cases,
  if_elim, leb→le, inl, inr,
}
use landau.Data.ConnOptimize.{
  Optimizer, OptimizeConnection, initial, set_callback, set_enable_flags, forget_connections,
  set_bad_connection_count, set_db_ping_check_interval, bad_found, first_error, count_error, notify,
  skip_db_access, ping_check_start, ping_check_finish, mark_pinged, resume_found, resume, block,
  EventType, blocks_now,
}

-- An entry names its own key, counts at least one error, and is not blocked below three.
pub record IsEntry (e : Bytes × OptimizeConnection) : Type 0 where
  pub named : e.1.db_connection ≡ e.0
  pub counted : 1 ≤ e.1.bad_connection_count
  pub patient : e.1.is_blocked ≡ true → 3 ≤ e.1.bad_connection_count

pub record IsValid (s : Optimizer) : Type 0 where
  pub limit : 3 ≤ s.bad_connection_limit
  pub interval : 1 ≤ s.ping_db_interval
  pub entries : All IsEntry s.optimize_connections

insert-IsEntry :
    (k : Bytes) (c : OptimizeConnection) (m : List (Bytes × OptimizeConnection))
    → IsEntry (k, c)
    → All IsEntry m
    → All IsEntry (insert k c m)
insert-IsEntry k c [] h hs = (h, tt)
insert-IsEntry k c ((j, d) ∷ m) h hs = elim (Bool-cases (j == k)) [
  | inl e ↦ rw e (subst (λ i. IsEntry (i, c)) (sym (eq_of_beq j k e)) h, hs.1)
  | inr e ↦ rw e (hs.0, insert-IsEntry k c m h hs.1)
]

delete-IsEntry :
    (k : Bytes) (m : List (Bytes × OptimizeConnection)) → All IsEntry m → All IsEntry (delete k m)
delete-IsEntry k [] hs = tt
delete-IsEntry k ((j, d) ∷ m) hs = elim (Bool-cases (j == k)) [
  | inl e ↦ rw e (delete-IsEntry k m hs.1)
  | inr e ↦ rw e (hs.0, delete-IsEntry k m hs.1)
]

lookup-IsEntry :
    (k : Bytes) (m : List (Bytes × OptimizeConnection)) (c : OptimizeConnection)
    → All IsEntry m
    → lookup k m ≡ some c
    → IsEntry (k, c)
lookup-IsEntry k [] c hs h = absurd (ground (arith, h))
lookup-IsEntry k ((j, d) ∷ m) c hs h = elim (Bool-cases (j == k)) [
  | inl e ↦
      let same : d ≡ c = ground (arith, h, e) in
      subst (λ i. IsEntry (i, c)) (eq_of_beq j k e) (subst (λ x. IsEntry (j, x)) same hs.0)
  | inr e ↦ lookup-IsEntry k m c hs.1 (rw e at h)
]

count_error-IsEntry :
    (limit : ℕ) (k : Bytes) (c : OptimizeConnection)
    → 3 ≤ limit
    → IsEntry (k, c)
    → IsEntry (k, count_error limit c)
unfolding count_error
count_error-IsEntry limit k c three h = ground arith

mark_pinged-IsEntry :
    (interval t : ℕ) (m : List (Bytes × OptimizeConnection))
    → All IsEntry m
    → All IsEntry (mark_pinged interval t m)
unfolding mark_pinged
mark_pinged-IsEntry interval t [] hs = tt
mark_pinged-IsEntry interval t ((k, c) ∷ m) hs =
    (ground (arith, hs.0), mark_pinged-IsEntry interval t m hs.1)

-- The parts of the functions that nothing interrupts, each in any state: its test of the flag and its
-- look at the map may lie in the past. The environment chooses the results of the pings and the times.
pub data Step : Optimizer → Optimizer → Type 0 where
  sets_callback : {s : Optimizer} (present : Bool) → Step s (set_callback present s)
  sets_flags : {s : Optimizer} (on : Bool) → Step s (set_enable_flags on s)
  forgets : {s : Optimizer} → Step s (forget_connections s)
  sets_count : {s : Optimizer} (n : ℕ) → Step s (set_bad_connection_count n s)
  sets_interval : {s : Optimizer} (n : ℕ) → Step s (set_db_ping_check_interval n s)
  resumes :
      {s : Optimizer} (conn : Bytes) (found : OptimizeConnection) (t : ℕ)
      → Step s (resume_found conn t s (some found))
  notes_error :
      {s : Optimizer} (conn : Bytes) (db t : ℕ)
      → Step s (bad_found conn db t s (lookup conn s.optimize_connections))
  starts_pings : {s : Optimizer} (t : ℕ) → Step s (ping_check_start t s).0
  ends_pings :
      {s : Optimizer} (ping_ok : List Bytes) (t : ℕ) → Step s (ping_check_finish ping_ok t s)

pub data Reach (s : Optimizer) : Optimizer → Type 0 where
  here : Reach s s
  next : {t u : Optimizer} → Reach s t → Step t u → Reach s u

-- `IsValid` of a state with the limits of another and with entries of its own.
keep-IsValid :
    (s s' : Optimizer)
    → IsValid s
    → s'.bad_connection_limit ≡ s.bad_connection_limit
    → s'.ping_db_interval ≡ s.ping_db_interval
    → All IsEntry s'.optimize_connections
    → IsValid s'
keep-IsValid s s' v a b entries = record {
  limit = rw a v.limit;
  interval = rw b v.interval;
  entries = entries;
}

notify-IsValid :
    (conn : Bytes) (t : ℕ) (type : EventType) (s : Optimizer)
    → IsValid s
    → IsValid (notify conn type t s)
unfolding notify
notify-IsValid conn t type s v =
    keep-IsValid s _ v (ground arith) (ground arith) (ground (arith, v.entries))

delete-IsValid :
    (k : Bytes) (s : Optimizer)
    → IsValid s
    → IsValid (record s { optimize_connections = delete k s.optimize_connections })
delete-IsValid k s v =
    keep-IsValid s _ v refl refl (delete-IsEntry k s.optimize_connections v.entries)

resume_found-IsValid :
    (conn : Bytes) (t : ℕ) (s : Optimizer) (o : Option OptimizeConnection)
    → IsValid s
    → IsValid (resume_found conn t s o)
unfolding resume_found
resume_found-IsValid conn t s none v = v
resume_found-IsValid conn t s (some c) v =
    notify-IsValid c.db_connection t resume _ (delete-IsValid conn s v)

insert-IsValid :
    (k : Bytes) (c : OptimizeConnection) (s : Optimizer)
    → IsValid s
    → IsEntry (k, c)
    → IsValid (record s { optimize_connections = insert k c s.optimize_connections })
insert-IsValid k c s v h =
    keep-IsValid s _ v refl refl (insert-IsEntry k c s.optimize_connections h v.entries)

bad_found-IsValid :
    (conn : Bytes) (db t : ℕ) (s : Optimizer) (o : Option OptimizeConnection)
    → IsValid s
    → lookup conn s.optimize_connections ≡ o
    → IsValid (bad_found conn db t s o)
unfolding bad_found
bad_found-IsValid conn db t s none v e =
    insert-IsValid conn (first_error conn db) s v (unfold first_error in ground arith)
bad_found-IsValid conn db t s (some c) v e =
    let entry =
      count_error-IsEntry s.bad_connection_limit conn c v.limit
        (lookup-IsEntry conn s.optimize_connections c v.entries e) in
    let valid = insert-IsValid conn (count_error s.bad_connection_limit c) s v entry in
    if_elim IsValid (blocks_now s.bad_connection_limit c) _ _
      (λ _. notify-IsValid c.db_connection t block _ valid) (λ _. valid)

finish-IsValid :
    (ping_ok : List Bytes) (t : ℕ) (s : Optimizer)
    → IsValid s
    → IsValid (ping_check_finish ping_ok t s)
unfolding ping_check_finish
finish-IsValid [] t s v = v
finish-IsValid (k ∷ ping_ok) t s v =
    finish-IsValid ping_ok t _ (notify-IsValid k t resume _ (delete-IsValid k s v))

-- Every step keeps the state well formed.
pub Step-IsValid : {s t : Optimizer} → Step s t → IsValid s → IsValid t
Step-IsValid (sets_callback present) v = unfold set_callback in ground arith
Step-IsValid {s} (sets_flags on) v = keep-IsValid s _ v refl refl v.entries
Step-IsValid {s} forgets v = keep-IsValid s _ v refl refl tt
Step-IsValid (sets_count n) v =
    unfold set_bad_connection_count in
    if_elim IsValid (leb 3 n) _ _
      (λ three. record { limit = leb→le 3 n three; interval = v.interval; entries = v.entries })
      (λ _. v)
Step-IsValid (sets_interval n) v =
    unfold set_db_ping_check_interval in
    if_elim IsValid (leb 1 n) _ _
      (λ one. record { limit = v.limit; interval = leb→le 1 n one; entries = v.entries }) (λ _. v)
Step-IsValid {s} (resumes conn found t) v = resume_found-IsValid conn t s (some found) v
Step-IsValid {s} (notes_error conn db t) v =
    bad_found-IsValid conn db t s (lookup conn s.optimize_connections) v refl
Step-IsValid {s} (starts_pings t) v =
    unfold ping_check_start in
    keep-IsValid s _ v refl refl
      (mark_pinged-IsEntry s.ping_db_interval t s.optimize_connections v.entries)
Step-IsValid {s} (ends_pings ping_ok t) v = finish-IsValid ping_ok t s v

initial-IsValid : IsValid initial
unfolding initial
initial-IsValid = record { limit = omega arith; interval = omega arith; entries = tt }

Reach-IsValid : {s t : Optimizer} → IsValid s → Reach s t → IsValid t
Reach-IsValid v here = v
Reach-IsValid v (next r st) = Step-IsValid st (Reach-IsValid v r)

-- In every state reached from the start, with any calls between the parts of others that hold the lock,
-- a connection that is skipped has an entry that names it and counts three errors at least.
pub Reach-skip_db_access :
    (conn : Bytes) (s : Optimizer)
    → Reach initial s
    → skip_db_access conn s ≡ true
    → (c : OptimizeConnection) × (lookup conn s.optimize_connections ≡ some c)
      × (c.db_connection ≡ conn)
      × (3 ≤ c.bad_connection_count)
unfolding skip_db_access
Reach-skip_db_access conn s r h =
    let v = Reach-IsValid initial-IsValid r in
    elim (Option-cases (lookup conn s.optimize_connections)) [
      | inl e ↦ absurd (ground (arith, e, h))
      | inr (c, e) ↦
          let entry = lookup-IsEntry conn s.optimize_connections c v.entries e in
          (c, e, entry.named, entry.patient (ground (arith, e, h)))
    ]
