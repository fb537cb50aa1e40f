-- ===== src/Protocol/ServiceAddr/Tests.antt =====
-- protocol/service_addr_helper.go at concrete addresses.
use landau.Common.{◌≡◌, refl, List, [], ◌∷◌, codes, true}
use landau.Protocol.ServiceAddr.{
  IpPortPair, ServiceAddrHelper, AddressPools, polling_server, no_pair, found, no_mutex, children,
  get_service_addr, new_service_addr_helper, use_entry, get_addr, next_index, z_key, addr_result,
  with_mutex, cached_or_fetch, fetch, fetched, read_children, first_index,
}

abbrev two_pairs : List IpPortPair
two_pairs = record { ip = codes "a"; port = 1 } ∷ record { ip = codes "b"; port = 2 } ∷ []

abbrev shop_helper : ServiceAddrHelper
shop_helper = record {
  zoo_keeper_path = codes "/shop";
  balance_mode = polling_server;
  region_id = [];
}

abbrev no_pools : AddressPools
no_pools = record { mutex_pool = []; address_pool = [] }

-- A node that could be read gives the empty address.
empty_address :
    (get_service_addr
      (λ n. 0)
      shop_helper
      (children (true ∷ []))
      (new_service_addr_helper shop_helper no_pools)).0
    ≡ found no_pair
unfolding get_service_addr new_service_addr_helper with_mutex cached_or_fetch fetch fetched
    read_children first_index use_entry addr_result get_addr next_index z_key
empty_address = refl

unknown_key : (get_service_addr (λ n. 0) shop_helper (children []) no_pools).0 ≡ no_mutex
unfolding get_service_addr with_mutex z_key
unknown_key = refl
