-- ===== src/Data/Keepalive/Receive.antt =====
-- data/service_keepalive.go: the services that announced themselves.
use landau.Common.{
  ℕ, Bool, ◌&&◌, not, [], ◌∷◌, ◌++◌, ◌==◌, nat_eq, bytes_eq, Bytes, codes, Option, none, some,
  if◌then◌else◌, lookup, insert, delete, lookup_or,
}
use landau.Data.Keepalive.{Keepalive, ServiceHealthInfo, modify, primary_of, contains, new_service}

unfoldable pub remove_info : Bytes → Bytes → ServiceHealthInfo → ServiceHealthInfo
remove_info primary addr c = record c {
  receive_time = insert primary 0 c.receive_time;
  address = if contains addr c.address then c.address else c.address ++ primary ∷ [];
}

-- `RemoveReceiveService`.
unfoldable pub remove_receive_service : Bytes → Bytes → Keepalive → Keepalive
remove_receive_service name addr s = record s {
  receive_service_mesh = modify name (remove_info (primary_of addr s) addr) s.receive_service_mesh;
}

unfoldable pub register_info : Bytes → Bytes → ℕ → ServiceHealthInfo → ServiceHealthInfo
register_info primary addr t c = record c {
  receive_time = insert primary t c.receive_time;
  health_on_secondary =
      if primary == addr
      then delete primary c.health_on_secondary
      else insert primary 1 c.health_on_secondary;
  address = if contains primary c.address then c.address else c.address ++ primary ∷ [];
}

-- A service that announces itself for the first time.
unfoldable pub first_info : Bytes → Bytes → Bytes → ℕ → ServiceHealthInfo
first_info name primary addr t = record (new_service name (primary ∷ [])) {
  receive_time = (primary, t) ∷ [];
  health_on_secondary = if primary == addr then [] else (addr, 1) ∷ [];
}

pub register_found : Bytes → Bytes → ℕ → Option ServiceHealthInfo → Keepalive → Keepalive
register_found name addr t none s = record s {
  receive_service_mesh =
      insert name (first_info name (primary_of addr s) addr t) s.receive_service_mesh;
}
register_found name addr t (some _) s = record s {
  receive_service_mesh =
      modify name (register_info (primary_of addr s) addr t) s.receive_service_mesh;
}

-- `RegisterReceiveService`, at the time `t`.
unfoldable pub register_receive_service : Bytes → Bytes → ℕ → Keepalive → Keepalive
unfolding register_found
register_receive_service name addr t s =
    register_found name addr t (lookup name s.receive_service_mesh) s

-- `_HealthCheckRequest`, what `DoHealthCheck` reads of it.
pub record HealthCheckRequest : Type 0 where
  pub checker : Bytes
  pub checker_address : Bytes
  pub primary_address : Bytes
  pub secondary_address : Bytes
  pub notify_shutdown : Bool

abbrev with_http : Bytes → Bytes
with_http addr = codes "http://" ++ addr

-- The addresses of the checker, as they come and behind `http://`.
pair_addresses : Bytes → Bytes → Keepalive → Keepalive
pair_addresses p q s =
    if not (p == []) && not (q == []) && not (p == q)
    then record s {
      primary_to_secondary = insert (with_http p) (with_http q) (insert p q s.primary_to_secondary);
      secondary_to_primary = insert (with_http q) (with_http p) (insert q p s.secondary_to_primary);
    }
    else s

note_checker : HealthCheckRequest → Keepalive → Keepalive
note_checker req s =
    let key : Bytes = req.checker ++ (b'_' ∷ req.primary_address) in
    if lookup_or key [] s.last_receive_server_check_address == req.checker_address
    then s
    else record s {
      last_receive_server_check_address =
          insert key req.checker_address s.last_receive_server_check_address;
    }

-- `DoHealthCheck` at the time `t`, without the log and the callback `ReceivedServiceCallback`. The
-- response is the same for every request.
pub do_health_check : HealthCheckRequest → ℕ → Keepalive → Keepalive
unfolding pair_addresses note_checker
do_health_check req t s =
    if not (req.checker == []) && not (req.checker_address == [])
    then (let s' : Keepalive =
          note_checker req (pair_addresses req.primary_address req.secondary_address s) in
        if req.notify_shutdown
        then remove_receive_service req.checker req.checker_address s'
        else register_receive_service req.checker req.checker_address t s')
    else s
