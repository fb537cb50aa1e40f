-- ===== src/Data/Keepalive/Reconfig/Tests.antt =====
-- Witnesses and runs of the look at the configuration of the services.
use landau.Common.{
  ◌≡◌, refl, false, List, [], ◌∷◌, Bytes, codes, none, some, insertion_sort, insertion_sort-Sorts,
  bytes_ltb, bytes_ltb-IsStrictOrder,
}
use mathlib.Core.List.Perm
use landau.Data.Keepalive.Reconfig.{
  Services, Mesh, is_service_health_config_changed, register_services, check_service_health_config,
  address_of,
}
use landau.Data.Keepalive.Reconfig.Unchanged.{
  is_service_health_config_changed_reordered, check_service_health_config-register_services,
}

abbrev in_order : List Bytes → List Bytes
in_order = insertion_sort bytes_ltb

abbrev two_hosts : Services
two_hosts = (codes "user", codes "b:80" ∷ codes "a:80" ∷ []) ∷ []

abbrev two_hosts_swapped : Services
two_hosts_swapped = (codes "user", codes "a:80" ∷ codes "b:80" ∷ []) ∷ []

abbrev fresh_mesh : Mesh
fresh_mesh = record { last = none; slices = [] }

is_service_health_config_changed_reordered_example :
    (is_service_health_config_changed in_order two_hosts_swapped (some two_hosts)).is_changed
    ≡ false
is_service_health_config_changed_reordered_example =
    is_service_health_config_changed_reordered in_order
      (insertion_sort-Sorts bytes_ltb bytes_ltb-IsStrictOrder) two_hosts_swapped two_hosts refl
      (refl, tt) (Perm.swap (codes "a:80") (codes "b:80") [], tt)

check_service_health_config-register_services_example :
    (address_of (codes "user") (register_services two_hosts fresh_mesh)
      ≡ some (codes "b:80" ∷ codes "a:80" ∷ []))
    × (address_of
          (codes "user")
          (check_service_health_config in_order two_hosts (register_services two_hosts fresh_mesh))
        ≡ some (codes "a:80" ∷ codes "b:80" ∷ []))
check_service_health_config-register_services_example =
    check_service_health_config-register_services in_order
      (insertion_sort-Sorts bytes_ltb bytes_ltb-IsStrictOrder) (codes "user") two_hosts two_hosts
      fresh_mesh refl refl (refl, tt) (Perm.rfl, tt)
