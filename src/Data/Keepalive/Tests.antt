-- ===== src/Data/Keepalive/Tests.antt =====
-- data/service_keepalive.go at concrete states.
use landau.Common.{
  get_or, has, ◌≤◌, ℕ, ◌<◌, ◌≤◌, ◌+◌, ◌≡◌, refl, true, List, [], ◌∷◌, bytes_eq, nat_eq, Bytes,
  codes, some, lookup, arith,
}
use landau.Data.Keepalive.{Keepalive, ServiceHealthInfo, new_service}
use landau.Data.Keepalive.Select.{
  Choice, use_secondary, choose_fresh, fresh_addresses, choose_received,
}
use landau.Data.Keepalive.Select.{get_service_addr_by_name}
use landau.Data.Keepalive.Select.Turn.{distance, wrap}
use landau.Data.Keepalive.Select.Fair.{IsChoiceOf, choice_after, choice_after_reached}
use landau.Data.Keepalive.Select.Rotation.{answered, IsNoted, get_service_addr_by_name-next_turn}
use landau.Data.Keepalive.Select.Fresh.{Replaced, choose_received_fresh}

abbrev three : List Bytes
three = codes "a" ∷ codes "b" ∷ codes "c" ∷ []

abbrev two_available : List (ℕ × ℕ)
two_available = (0, 1) ∷ (2, 1) ∷ []

abbrev empty_keepalive : Keepalive
empty_keepalive = record {
  service_health_mesh = [];
  receive_service_mesh = [];
  primary_to_secondary = (codes "a", codes "x") ∷ [];
  secondary_to_primary = (codes "x", codes "a") ∷ [];
  last_receive_server_check_address = [];
  last_trace_service_address = [];
  receiver_keep_timer = 10;
}

abbrev heard_service : ServiceHealthInfo
heard_service = record (new_service (codes "pay") (codes "a" ∷ codes "b" ∷ [])) {
  receive_time = (codes "a", 95) ∷ (codes "b", 20) ∷ [];
}

abbrev heard_keepalive : Keepalive
heard_keepalive = record empty_keepalive {
  receive_service_mesh = (codes "pay", heard_service) ∷ [];
}

choose_received_fresh_example :
    (c : Choice) × (heard : ℕ) × (lookup c.addr heard_service.receive_time ≡ some heard)
    × (100 ≤ heard + 10)
    × Replaced heard_keepalive c (choose_received (some heard_service) 100 heard_keepalive)
unfolding choose_received use_secondary choose_fresh fresh_addresses
choose_received_fresh_example =
    choose_received_fresh heard_service 100 heard_keepalive (refl, (refl, tt)) refl
      (λ p. absurd (ground (arith, p)))

abbrev turning_service : ServiceHealthInfo
turning_service = record (new_service (codes "pay") three) {
  available_seq = two_available;
  next_sequence = 1;
}

get_service_addr_by_name-next_turn_example :
    let s : Keepalive = record empty_keepalive {
      service_health_mesh = (codes "pay", turning_service) ∷ [];
    } in
    (r : ℕ) × (v' : ServiceHealthInfo) × (r < 3)
    × (has r two_available ≡ true)
    × (distance 3 (wrap 3 1) r ≤ distance 3 (wrap 3 1) 2)
    × ((get_service_addr_by_name (codes "pay") 9 s).0 ≡ (answered (get_or three r []), true))
    × (lookup (codes "pay") (get_service_addr_by_name (codes "pay") 9 s).1.service_health_mesh
        ≡ some v')
    × IsNoted turning_service (get_or three r []) r v'
get_service_addr_by_name-next_turn_example =
    get_service_addr_by_name-next_turn (codes "pay") 9
      (record empty_keepalive { service_health_mesh = (codes "pay", turning_service) ∷ [] })
      turning_service 2 refl (omega arith) refl refl refl refl

choice_after_reached_example :
    (k : ℕ) × (k < 3) × IsChoiceOf three 2 (choice_after k turning_service)
choice_after_reached_example = choice_after_reached turning_service 2 (omega arith) refl refl
