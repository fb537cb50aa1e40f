-- ===== src/Data/Keepalive/Reconfig/Unchanged.antt =====
-- data/service_keepalive.go: a configuration with the addresses of the last one, in any order.
use landau.Common.{
  ◌≡◌, refl, sym, ap, true, false, Bool-cases, inl, inr, List, [], ◌∷◌, ◌==◌, beq_self, nat_eq,
  bytes_eq, Bytes, codes, some, lookup, lookup-insert, lookup_or, insert, has, length, join, Sorts,
  ordered_unique, bytes_ltb_irrefl, bytes_ltb_same, bytes_ltb,
}
use mathlib.Core.List.{Perm}
use mathlib.Core.List.Perm
use native.Mathlib.Omega.{arith}
use landau.Data.Keepalive.Reconfig.{
  Services, Slice, of_last, Mesh, sort_last, sort_new, is_service_health_config_changed,
  check_service_health_config, address_of, register_services, register_slices, detached,
  last_services,
}

-- Every service of the one is a service of the other.
abbrev pub AreAmong : Services → Services → Type 0
AreAmong [] services = Unit
AreAmong ((k, v) ∷ last) services = (has k services ≡ true) × AreAmong last services

-- The addresses of each service, rearranged.
abbrev pub AreReordered : Services → Services → Type 0
AreReordered last [] = Unit
AreReordered last ((k, v) ∷ services) = Perm (lookup_or k [] last) v × AreReordered last services

module _ (sort : List Bytes → List Bytes) (sorts : Sorts bytes_ltb sort) where
  abbrev all_sorted : Services → Services
  all_sorted [] = []
  all_sorted ((k, v) ∷ services) = (k, sort v) ∷ all_sorted services

  sort_nil : sort [] ≡ []
  sort_nil = Perm.eq-nil (sorts.perm [])

  sort_same : (l r : List Bytes) → Perm l r → sort l ≡ sort r
  sort_same l r p =
      ordered_unique bytes_ltb bytes_ltb_irrefl bytes_ltb_same (sort l) (sort r) (sorts.ordered l)
        (sorts.ordered r) (Perm.trans (sorts.perm l) (Perm.trans p (Perm.symm (sorts.perm r))))

  sort_last_all :
      (services last : Services)
      → AreAmong last services
      → sort_last sort services last ≡ (all_sorted last, true)
  unfolding sort_last
  sort_last_all services [] a = refl
  sort_last_all services ((k, v) ∷ last) (h, a) = rw (sort_last_all services last a) (rw h refl)

  lookup_or_sorted :
      (k : Bytes) (last : Services) → lookup_or k [] (all_sorted last) ≡ sort (lookup_or k [] last)
  lookup_or_sorted k [] = sym sort_nil
  lookup_or_sorted k ((j, v) ∷ last) = ground (arith, lookup_or_sorted k last)

  sort_new_all :
      (last services : Services)
      → AreReordered last services
      → sort_new sort (all_sorted last) services ≡ (all_sorted services, true)
  unfolding sort_new
  sort_new_all last [] a = refl
  sort_new_all last ((k, v) ∷ services) (p, a) = rw (sort_new_all last services a) (
      rw (lookup_or_sorted k last)
        (rw (sort_same (lookup_or k [] last) v p) (rw (beq_self (join (codes ",") (sort v))) refl)))

  compare_reordered :
      (services last : Services)
      → length last ≡ length services
      → AreAmong last services
      → AreReordered last services
      → is_service_health_config_changed sort services (some last) ≡ record {
        is_changed = false;
        last_sorted = some (all_sorted last);
        new_sorted = all_sorted services;
      }
  unfolding is_service_health_config_changed
  compare_reordered services last n a r =
      rw ((nat_eq.beq_iff (length last) (length services)).1 n)
        (rw (sort_last_all services last a) (rw (sort_new_all last services r) refl))

  -- Where `sort` sorts by bytes, a configuration with as many services as the last one, among them all
  -- of the last one's, and each of its services with the last addresses in any order, is not a change.
  pub is_service_health_config_changed_reordered :
      (services last : Services)
      → length last ≡ length services
      → AreAmong last services
      → AreReordered last services
      → (is_service_health_config_changed sort services (some last)).is_changed ≡ false
  is_service_health_config_changed_reordered services last n a r =
      ap (λ c. c.is_changed) (compare_reordered services last n a r)

  check_reordered :
      (services last : Services) (slices : List (Bytes × Slice))
      → length last ≡ length services
      → AreAmong last services
      → AreReordered last services
      → check_service_health_config sort services (record { last = some last; slices = slices })
        ≡ record { last = some (all_sorted last); slices = slices }
  unfolding check_service_health_config
  check_reordered services last slices n a r = rw (compare_reordered services last n a r) refl

  register_slices_kept :
      (name : Bytes) (services : Services) (slices : List (Bytes × Slice))
      → lookup name slices ≡ some of_last
      → lookup name (register_slices services slices) ≡ some of_last
  unfolding register_slices
  register_slices_kept name [] slices h = h
  register_slices_kept name ((k, v) ∷ services) slices h =
      register_slices_kept name services (insert k of_last slices)
        (ground (arith, lookup-insert name k of_last slices, h))

  register_slices_shared :
      (name : Bytes) (services : Services) (slices : List (Bytes × Slice))
      → has name services ≡ true
      → lookup name (register_slices services slices) ≡ some of_last
  unfolding register_slices
  register_slices_shared name [] slices h = ground arith
  register_slices_shared name ((k, v) ∷ services) slices h = elim (Bool-cases (k == name)) [
    | inl t ↦
        register_slices_kept name services (insert k of_last slices)
          (ground (arith, lookup-insert name k of_last slices, t))
    | inr f ↦ register_slices_shared name services (insert k of_last slices) (ground (arith, h, f))
  ]

  -- A service that is registered has its addresses in the order of the configuration; where `sort` sorts
  -- by bytes, the next look at a configuration with as many services, among them all that are
  -- registered, and each with the registered addresses in any order, leaves the service its addresses
  -- sorted.
  pub check_service_health_config-register_services :
      (name : Bytes) (services last : Services) (m : Mesh)
      → has name last ≡ true
      → length last ≡ length services
      → AreAmong last services
      → AreReordered last services
      → (address_of name (register_services last m) ≡ some (lookup_or name [] last))
        × (address_of name (check_service_health_config sort services (register_services last m))
            ≡ some (sort (lookup_or name [] last)))
  unfolding register_services
  check_service_health_config-register_services name services last m h n a r =
      let shared = register_slices_shared name last (detached (last_services m.last) m.slices) h in
      (
        rw shared refl,
        rw
            (check_reordered services last
              (register_slices last (detached (last_services m.last) m.slices)) n a r)
            (rw shared (rw (lookup_or_sorted name last) refl)),
      )
