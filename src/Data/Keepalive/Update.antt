-- ===== src/Data/Keepalive/Update.antt =====
-- data/service_keepalive.go: the results of health checks.
use landau.Common.{
  ℕ, suc, ◌+◌, Bool, ◌||◌, not, List, [], ◌∷◌, ◌==◌, nat_eq, bytes_eq, Bytes, Option, none, some,
  if◌then◌else◌, insert, delete, lookup_or,
}
use landau.Data.Keepalive.{Keepalive, ServiceHealthInfo, modify, primary_of}

-- The loop over the addresses: the first that is `address` becomes available, or stops being so.
unfoldable pub mark_available : Bytes → ℕ → ℕ → List Bytes → List (ℕ × ℕ) → List (ℕ × ℕ)
mark_available address status index [] seq = seq
mark_available address status index (addr ∷ more) seq =
    if addr == address
    then (if status == 1 then insert index 1 seq else delete index seq)
    else mark_available address status (index + 1) more seq

unfoldable pub mark_secondary : Bytes → Bytes → ℕ → List (Bytes × ℕ) → List (Bytes × ℕ)
mark_secondary primary address status m =
    if primary == address then (if status == 1 then delete address m else m) else insert address 1 m

unfoldable pub update_info : Bytes → Bytes → ℕ → ℕ → ServiceHealthInfo → ServiceHealthInfo
update_info primary address status now v = record v {
  health = insert primary status v.health;
  receive_time = insert primary now v.receive_time;
  health_on_secondary = mark_secondary primary address status v.health_on_secondary;
  available_seq = mark_available address status 0 v.address v.available_seq;
}

-- `_updateServerHealthStatus`, at the time `now`.
unfoldable pub update_server_health_status : Bytes → Bytes → ℕ → ℕ → Keepalive → Keepalive
update_server_health_status name address status now s = record s {
  service_health_mesh =
      modify name (update_info (primary_of address s) address status now) s.service_health_mesh;
}

-- The services of `_healthChecking` by address.
collect : Bytes → List Bytes → List (Bytes × Bytes) → List (Bytes × Bytes)
collect name [] m = m
collect name (addr ∷ more) m = collect name more (insert addr name m)

pub services_by_address :
    List (Bytes × ServiceHealthInfo) → List (Bytes × Bytes) → List (Bytes × Bytes)
unfolding collect
services_by_address [] m = m
services_by_address ((name, d) ∷ mesh) m = services_by_address mesh (collect name d.address m)

-- The checks: `answers addr` says that the call to `addr` ended with no error, a return code of zero
-- and the health status one.
module _ (answers : Bytes → Bool) where
  -- `check`: a primary address that does not answer has its secondary one tried. The times are those
  -- of the two updates.
  pub check : Bytes → Bytes → ℕ → ℕ → Keepalive → Keepalive
  check addr name t t' s =
      let status : ℕ = if answers addr then 1 else 0 in
      let s' : Keepalive = update_server_health_status name addr status t s in
      let secondary : Bytes = lookup_or addr [] s'.primary_to_secondary in
      if answers addr || (secondary == []) || not (answers secondary)
      then s'
      else update_server_health_status name secondary 1 t' s'

  -- One round over all addresses, whose checks end in the order of the list, at time `t`.
  check_all : List (Bytes × Bytes) → ℕ → Keepalive → Keepalive
  check_all [] t s = s
  check_all ((addr, name) ∷ services) t s = check_all services t (check addr name t t s)

  pub health_checking : ℕ → Keepalive → Keepalive
  unfolding check_all
  health_checking t s = check_all (services_by_address s.service_health_mesh []) t s

-- Which entry a result marks: the index of the address, if it is one of the service.
abbrev pub index_of : Bytes → List Bytes → Option ℕ
index_of address [] = none
index_of address (addr ∷ more) =
    if addr == address
    then some 0
    else elim (index_of address more) [ none ↦ none | some i ↦ some (suc i) ]
