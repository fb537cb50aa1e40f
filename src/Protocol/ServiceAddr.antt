-- ===== src/Protocol/ServiceAddr.antt =====
-- protocol/service_addr_helper.go: the address of a service, by its mode of balance, from a cache.
-- A call that holds a lock is one step. What ZooKeeper answers is a parameter, and `random n` stands for
-- `rand.Intn(n)`. That `getAddr` also writes under the read lock is left out.
pub mod Polling
mod Tests
use landau.Common.{
  ℕ, zero, suc, ◌+◌, ◌-◌, Bool, true, false, List, [], ◌∷◌, ◌++◌, Bytes, Option, none, some,
  if◌then◌else◌, ◌==◌, bytes_eq, leb, length, get_elem?, lookup, insert, delete,
}

pub data BalanceMode : Type 0 where
  random_server last_server polling_server : BalanceMode

pub record IpPortPair : Type 0 where
  pub ip : Bytes
  pub port : ℕ

pub record ServiceAddress : Type 0 where
  pub address : List IpPortPair
  pub next_using_index : ℕ

-- `ServiceAddrHelper`, what the choice of an address reads of it.
pub record ServiceAddrHelper : Type 0 where
  pub zoo_keeper_path : Bytes
  pub balance_mode : BalanceMode
  pub region_id : Bytes

unfoldable pub z_key : ServiceAddrHelper → Bytes
z_key c = c.region_id ++ c.zoo_keeper_path

unfoldable pub next_index : (ℕ → ℕ) → BalanceMode → ServiceAddress → ℕ
next_index random random_server s = random (length s.address)
next_index random last_server s = s.next_using_index
next_index random polling_server s =
    if leb (length s.address) (s.next_using_index + 1) then 0 else s.next_using_index + 1

-- `getAddr`: `none` is an index out of range.
unfoldable pub get_addr :
    (ℕ → ℕ) → BalanceMode → ServiceAddress → Option IpPortPair × ServiceAddress
unfolding next_index
get_addr random mode s =
    let using_index : ℕ =
      if leb (length s.address) s.next_using_index then 0 else s.next_using_index in
    (get_elem? s.address using_index, record s { next_using_index = next_index random mode s })

-- What ZooKeeper answers: an error, or the children, each with whether its node could be read.
pub data Children : Type 0 where
  zoo_error : Children
  children : List Bool → Children

-- The result of `GetAddr`; `out_of_range` is a panic.
pub data AddrResult : Type 0 where
  found : IpPortPair → AddrResult
  no_mutex no_child error_of_zoo out_of_range : AddrResult

abbrev pub no_pair : IpPortPair
no_pair = record { ip = []; port = 0 }

-- The loop over the children, which reads no address out of a node.
read_children : List Bool → List IpPortPair
read_children [] = []
read_children (true ∷ nodes) = no_pair ∷ read_children nodes
read_children (false ∷ nodes) = read_children nodes

first_index : (ℕ → ℕ) → BalanceMode → ℕ → ℕ
first_index random random_server n = random n
first_index random last_server n = n - 1
first_index random polling_server n = 0

-- `serviceAddressRWMutexPool` and `serviceAddressPool`.
pub record AddressPools : Type 0 where
  pub mutex_pool : List (Bytes × Bool)
  pub address_pool : List (Bytes × ServiceAddress)

-- `NewServiceAddrHelperEx`, what it does to the pools.
unfoldable pub new_service_addr_helper : ServiceAddrHelper → AddressPools → AddressPools
new_service_addr_helper c s = record s { mutex_pool = insert (z_key c) true s.mutex_pool }

addr_result : Option IpPortPair → AddrResult
addr_result none = out_of_range
addr_result (some a) = found a

-- `getAddr` on the entry of the cache, which it changes in its place.
unfoldable pub use_entry :
    (ℕ → ℕ) → ServiceAddrHelper → ServiceAddress → AddressPools → AddrResult × AddressPools
unfolding addr_result
use_entry random c a s =
    let (r, a') = get_addr random c.balance_mode a in
    (addr_result r, record s { address_pool = insert (z_key c) a' s.address_pool })

fetched : (ℕ → ℕ) → ServiceAddrHelper → List IpPortPair → AddressPools → AddrResult × AddressPools
unfolding first_index
fetched random c [] s = (no_child, s)
fetched random c (a ∷ address) s =
    use_entry random c
      (record {
        address = a ∷ address;
        next_using_index = first_index random c.balance_mode (length (a ∷ address));
      })
      s

fetch : (ℕ → ℕ) → ServiceAddrHelper → Children → AddressPools → AddrResult × AddressPools
unfolding fetched read_children
fetch random c zoo_error s = (error_of_zoo, s)
fetch random c (children nodes) s = fetched random c (read_children nodes) s

cached_or_fetch :
    (ℕ → ℕ)
    → ServiceAddrHelper
    → Children
    → Option ServiceAddress
    → AddressPools
    → AddrResult × AddressPools
unfolding fetch
cached_or_fetch random c zoo (some a) s = use_entry random c a s
cached_or_fetch random c zoo none s = fetch random c zoo s

with_mutex :
    (ℕ → ℕ) → ServiceAddrHelper → Children → Option Bool → AddressPools → AddrResult × AddressPools
unfolding cached_or_fetch
with_mutex random c zoo none s = (no_mutex, s)
with_mutex random c zoo (some _) s =
    cached_or_fetch random c zoo (lookup (z_key c) s.address_pool) s

-- `GetAddr`, whose two looks at the cache find the same.
unfoldable pub get_service_addr :
    (ℕ → ℕ) → ServiceAddrHelper → Children → AddressPools → AddrResult × AddressPools
unfolding with_mutex
get_service_addr random c zoo s = with_mutex random c zoo (lookup (z_key c) s.mutex_pool) s

-- An event of the watch deletes the entry.
unfoldable pub watch_event : Bytes → AddressPools → AddressPools
watch_event key s = record s { address_pool = delete key s.address_pool }
