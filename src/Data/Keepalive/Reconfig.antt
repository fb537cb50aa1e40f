-- ===== src/Data/Keepalive/Reconfig.antt =====
-- data/service_keepalive.go: the periodic look at the configuration of the services. Here the slices are
-- shared as in the code: `RegisterServiceHealth` and `ChangeServiceHealth` give a new service the slice
-- of the configuration, which `lastServiceAddr` keeps and `sort.Strings` rearranges. The slices that
-- the callback returns have no room to grow, so that an address that is added moves the service's list
-- to an array of its own. Of a service only its addresses are kept.
pub mod Unchanged
mod Tests
use landau.Common.{
  ℕ, Bool, true, false, not, ◌&&◌, List, [], ◌∷◌, ◌++◌, ◌==◌, nat_eq, bytes_eq, Bytes, codes,
  Option, none, some, if◌then◌else◌, lookup, lookup_or, insert, has, length, join,
}
use landau.Data.Keepalive.{contains, add_addresses}

abbrev pub Services : Type 0
Services = List (Bytes × List Bytes)

-- The slice `Address`: that of `lastServiceAddr` at the service's name, or one of its own.
pub data Slice : Type 0 where
  of_last : Slice
  own : List Bytes → Slice

pub record Mesh : Type 0 where
  pub last : Option Services
  pub slices : List (Bytes × Slice)

abbrev pub last_services : Option Services → Services
last_services none = []
last_services (some l) = l

abbrev pub content : Bytes → Services → Slice → List Bytes
content name last of_last = lookup_or name [] last
content name last (own address) = address

abbrev pub content_of : Bytes → Services → Option Slice → Option (List Bytes)
content_of name last none = none
content_of name last (some s) = some (content name last s)

-- The addresses of a service.
abbrev pub address_of : Bytes → Mesh → Option (List Bytes)
address_of name m = content_of name (last_services m.last) (lookup name m.slices)

-- The slices when `lastServiceAddr` is about to be another map: each is a list of its own then.
unfoldable pub detached : Services → List (Bytes × Slice) → List (Bytes × Slice)
detached last [] = []
detached last ((name, s) ∷ slices) = (name, own (content name last s)) ∷ detached last slices

-- `RegisterServiceHealth`.
unfoldable pub register_slices : Services → List (Bytes × Slice) → List (Bytes × Slice)
register_slices [] slices = slices
register_slices ((name, address) ∷ services) slices =
    register_slices services (insert name of_last slices)

unfoldable pub register_services : Services → Mesh → Mesh
unfolding detached register_slices
register_services services m = record {
  last = some services;
  slices = register_slices services (detached (last_services m.last) m.slices);
}

-- `ChangeServiceHealth`; the lists of the mesh are their own by then, and `services` will be the last.
abbrev changed_slice :
    Services → Bytes → List Bytes → Option Slice → List (Bytes × Slice) → List (Bytes × Slice)
changed_slice last name address none slices = insert name of_last slices
changed_slice last name address (some s) slices =
    insert name (own (add_addresses (content name last s) address)) slices

unfoldable pub change_slices : Services → Services → List (Bytes × Slice) → List (Bytes × Slice)
change_slices last [] slices = slices
change_slices last ((name, address) ∷ services) slices =
    change_slices last services (changed_slice last name address (lookup name slices) slices)

-- What a loop of `isServiceHealthConfigChanged` leaves: the map with the slices that are sorted so far,
-- and whether it came to its end.
module _ (sort : List Bytes → List Bytes) where
  -- The loop over `lastServiceAddr`; it ends at a service that is gone, whose slice is sorted.
  unfoldable pub sort_last : Services → Services → Services × Bool
  sort_last services [] = ([], true)
  sort_last services ((k, v) ∷ last) =
      let (rest, ended) = sort_last services last in
      if has k services then ((k, sort v) ∷ rest, ended) else ((k, sort v) ∷ last, false)

  -- The loop over the new services, against the sorted last ones.
  unfoldable pub sort_new : Services → Services → Services × Bool
  sort_new last [] = ([], true)
  sort_new last ((k, v) ∷ services) =
      let (rest, ended) = sort_new last services in
      if join (codes ",") (lookup_or k [] last) == join (codes ",") (sort v)
      then ((k, sort v) ∷ rest, ended)
      else ((k, sort v) ∷ services, false)

  -- The result, and both maps as they are left.
  pub record Compared : Type 0 where
    pub is_changed : Bool
    pub last_sorted : Option Services
    pub new_sorted : Services

  abbrev after_last : Services → Services × Bool → Compared
  after_last services (last, false) = record {
    is_changed = true;
    last_sorted = some last;
    new_sorted = services;
  }
  after_last services (last, true) =
      let (new, same) = sort_new last services in
      record { is_changed = not same; last_sorted = some last; new_sorted = new }

  -- `isServiceHealthConfigChanged`.
  unfoldable pub is_service_health_config_changed : Services → Option Services → Compared
  unfolding sort_last sort_new
  is_service_health_config_changed services none = record {
    is_changed = true;
    last_sorted = none;
    new_sorted = services;
  }
  is_service_health_config_changed services (some last) =
      if length last == length services
      then after_last services (sort_last services last)
      else record { is_changed = true; last_sorted = some last; new_sorted = services }

  abbrev settle : Compared → Mesh → Mesh
  settle c m =
      if c.is_changed
      then record {
        last = some c.new_sorted;
        slices =
            change_slices (last_services c.last_sorted) c.new_sorted
              (detached (last_services c.last_sorted) m.slices);
      }
      else record m { last = c.last_sorted }

  -- `_checkServiceHealthConfig`, behind the take-over of the secondary addresses.
  unfoldable pub check_service_health_config : Services → Mesh → Mesh
  unfolding is_service_health_config_changed change_slices detached
  check_service_health_config services m =
      settle (is_service_health_config_changed services m.last) m
