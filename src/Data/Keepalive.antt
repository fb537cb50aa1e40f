-- ===== src/Data/Keepalive.antt =====
-- data/service_keepalive.go: which services there are, at which addresses, and which answer.
-- `Keepalive` is the state of the package's variables. A function that takes locks is one step; the
-- time is an argument. The list of a map stands for the order in which a `range` loop meets its keys.
-- Slices are values here; Reconfig has the look at the configuration, which sorts one that is shared.
pub mod Update
pub mod Receive
pub mod Select
pub mod Failover
pub mod Reconfig
pub mod Statics
mod Tests
use landau.Common.{
  ℕ, ◌+◌, Bool, true, false, ◌&&◌, not, List, [], ◌∷◌, ◌++◌, ◌==◌, nat_eq, bytes_eq, Bytes, codes,
  Option, none, some, if◌then◌else◌, lookup, insert, delete, has, lookup_or, suc, ◌≡◌,
  bytes_beq_iff, arith,
}

-- `ServiceHealthInfo`.
pub record ServiceHealthInfo : Type 0 where
  pub service_name : Bytes
  pub address : List Bytes
  pub health : List (Bytes × ℕ)
  pub health_on_secondary : List (Bytes × ℕ)
  pub call_count : List (Bytes × ℕ)
  pub next_sequence : ℕ
  pub available_seq : List (ℕ × ℕ)
  pub receive_time : List (Bytes × ℕ)

pub record Keepalive : Type 0 where
  pub service_health_mesh : List (Bytes × ServiceHealthInfo)
  pub receive_service_mesh : List (Bytes × ServiceHealthInfo)
  pub primary_to_secondary : List (Bytes × Bytes)
  pub secondary_to_primary : List (Bytes × Bytes)
  pub last_receive_server_check_address : List (Bytes × Bytes)
  pub last_trace_service_address : List (Bytes × Bytes)
  pub receiver_keep_timer : ℕ

abbrev pub new_service : Bytes → List Bytes → ServiceHealthInfo
new_service name address = record {
  service_name = name;
  address = address;
  health = [];
  health_on_secondary = [];
  call_count = [];
  next_sequence = 0;
  available_seq = [];
  receive_time = [];
}

-- `IsExisted`, over the addresses of a service.
abbrev pub contains : Bytes → List Bytes → Bool
contains addr [] = false
contains addr (v ∷ vs) = if v == addr then true else contains addr vs

-- `Increment`: the service's name stays, one call more is counted, and the next turn is set.
unfoldable pub increment : ServiceHealthInfo → Bytes → ℕ → ServiceHealthInfo
increment c service_address using_sequence = record c {
  call_count = insert service_address (lookup_or service_address 0 c.call_count + 1) c.call_count;
  next_sequence = using_sequence + 1;
}

-- A write through the pointer that a map holds; the map has the key.
abbrev pub modify :
    Bytes
    → (ServiceHealthInfo → ServiceHealthInfo)
    → List (Bytes × ServiceHealthInfo)
    → List (Bytes × ServiceHealthInfo)
modify name f [] = []
modify name f ((k, v) ∷ m) = if k == name then (k, f v) ∷ m else (k, v) ∷ modify name f m

-- The inner loop of `ChangeServiceHealth`: the addresses that are new go to the end.
unfoldable pub add_addresses : List Bytes → List Bytes → List Bytes
add_addresses address [] = address
add_addresses address (addr ∷ more) =
    add_addresses (if contains addr address then address else address ++ addr ∷ []) more

change_found : Bytes → List Bytes → Option ServiceHealthInfo → Keepalive → Keepalive
unfolding add_addresses
change_found name address none s = record s {
  service_health_mesh = insert name (new_service name address) s.service_health_mesh;
}
change_found name address (some _) s = record s {
  service_health_mesh =
      modify name (λ v. record v { address = add_addresses v.address address })
        s.service_health_mesh;
}

unfoldable pub change_service_health : List (Bytes × List Bytes) → Keepalive → Keepalive
unfolding change_found
change_service_health [] s = s
change_service_health ((name, address) ∷ services) s =
    change_service_health services (change_found name address (lookup name s.service_health_mesh) s)

reversed : List (Bytes × Bytes) → List (Bytes × Bytes) → List (Bytes × Bytes)
reversed m [] = m
reversed m ((k, v) ∷ secondary) = reversed (insert v k m) secondary

-- The part of `_checkServiceHealthConfig` and `RegisterServiceHealth` that takes over the secondary
-- addresses.
unfoldable pub set_secondary : List (Bytes × Bytes) → Keepalive → Keepalive
unfolding reversed
set_secondary secondary s = record s {
  primary_to_secondary = secondary;
  secondary_to_primary = reversed [] secondary;
}

register_all : List (Bytes × List Bytes) → Keepalive → Keepalive
register_all [] s = s
register_all ((name, address) ∷ services) s = register_all services (record s {
  service_health_mesh = insert name (new_service name address) s.service_health_mesh;
})

-- `RegisterServiceHealth`: the services and, if `MonitorServiceAddrChange2` is set, the secondary
-- addresses that the callback returns.
pub register_service_health :
    List (Bytes × List Bytes) → Option (List (Bytes × Bytes)) → Keepalive → Keepalive
unfolding register_all
register_service_health services none s = register_all services s
register_service_health services (some secondary) s =
    register_all services (set_secondary secondary s)

-- The primary address that an address belongs to.
abbrev pub primary_of : Bytes → Keepalive → Bytes
primary_of addr s = lookup_or addr addr s.secondary_to_primary

pub lookup-modify :
    (j name : Bytes) (f : ServiceHealthInfo → ServiceHealthInfo) (v : ServiceHealthInfo)
    (m : List (Bytes × ServiceHealthInfo))
    → lookup j m ≡ some v
    → lookup j (modify name f m) ≡ some (if name == j then f v else v)
lookup-modify j name f v [] h = absurd (ground (arith, h))
lookup-modify j name f v ((k, w) ∷ m) h = ground (
  arith,
  lookup-modify j name f v m,
  bytes_beq_iff k name,
  bytes_beq_iff name j,
  bytes_beq_iff k j,
)
