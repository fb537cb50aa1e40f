-- ===== src/Data/Keepalive/Select/Rotation.antt =====
-- `GetServiceAddrByName` of data/service_keepalive.go for a configured service that has its turns.
use landau.Common.{
  ℕ, ◌+◌, ◌≡◌, ◌<◌, ◌≤◌, ◌++◌, codes, contains_bytes, get_or, insert, lookup_or, lookup_or-lookup,
  lookup-insert_same, refl, ap, ◌∙◌, subst, true, false, List, [], ◌∷◌, ◌==◌, nat_eq, bytes_eq,
  Bytes, some, if◌then◌else◌, has, lookup, length, arith, Bool-cases, inl, inr, eq_of_beq, beq_self,
}
use landau.Data.Keepalive.{Keepalive, ServiceHealthInfo, increment, contains, lookup-modify}
use landau.Data.Keepalive.Select.{
  next_turn, use_secondary, choose_turn, choose_configured, get_service_addr_by_name, with_scheme,
}
use landau.Data.Keepalive.Select.Turn.{next_turn-contains, next_turn_available, distance, wrap}

pub has-length : (i : ℕ) (m : List (ℕ × ℕ)) → has i m ≡ true → (length m == 0) ≡ false
has-length i [] h = absurd (ground (arith, h))
has-length i (e ∷ m) h = ground arith

choose_configured-turn :
    (s : Keepalive) (v : ServiceHealthInfo) (i : ℕ)
    → i < length v.address
    → has i v.available_seq ≡ true
    → (length v.address == 1) ≡ false
    → v.health_on_secondary ≡ []
    → let (addr, r) = next_turn (length v.address) v.next_sequence v.address v.available_seq in
      choose_configured (some v) s ≡ record { addr = addr; using_sequence = r; is_primary = true }
unfolding choose_configured choose_turn use_secondary
choose_configured-turn s v i lt on many none_secondary =
    let some_address : (length v.address == 0) ≡ false = ground (arith, lt) in
    rw (some_address, has-length i v.available_seq on, many, none_secondary) refl

-- How an address is answered: behind `http://`, unless it holds that already.
abbrev pub answered : Bytes → Bytes
answered addr = if contains_bytes (codes "http://") addr then addr else codes "http://" ++ addr

with_scheme-answered : (addr : Bytes) → (addr == []) ≡ false → with_scheme addr ≡ answered addr
unfolding with_scheme
with_scheme-answered addr h = ground (arith, h)

-- The call is noted: one more at the address, the sequence behind its turn, and the same addresses with
-- the same turns.
abbrev pub IsNoted : ServiceHealthInfo → Bytes → ℕ → ServiceHealthInfo → Type 0
IsNoted v addr r v' =
    (lookup_or addr 0 v'.call_count ≡ lookup_or addr 0 v.call_count + 1)
    × (v'.next_sequence ≡ r + 1)
    × (v'.address ≡ v.address)
    × (v'.available_seq ≡ v.available_seq)

increment-IsNoted :
    (v : ServiceHealthInfo) (addr : Bytes) (r : ℕ) → IsNoted v addr r (increment v addr r)
unfolding increment
increment-IsNoted v addr r =
    let n : ℕ = lookup_or addr 0 v.call_count + 1 in
    (
      lookup_or-lookup addr 0 (insert addr n v.call_count)
          ∙ rw (lookup-insert_same addr n v.call_count) refl,
      refl,
      refl,
      refl,
    )

-- A configured service with two addresses or more, none of them empty, and without a secondary address
-- in use, one of whose turns, `i`, is marked as available: it answers, as a primary one, the address of
-- a turn that is marked and that is not farther than `i` from the service's turn on, going round; the
-- call is counted at that address, and the service's sequence is then one behind that turn.
pub get_service_addr_by_name-next_turn :
    (name : Bytes) (t : ℕ) (s : Keepalive) (v : ServiceHealthInfo) (i : ℕ)
    → lookup name s.service_health_mesh ≡ some v
    → i < length v.address
    → has i v.available_seq ≡ true
    → (length v.address == 1) ≡ false
    → v.health_on_secondary ≡ []
    → contains [] v.address ≡ false
    → (r : ℕ) × (v' : ServiceHealthInfo) × (r < length v.address)
      × (has r v.available_seq ≡ true)
      × (distance (length v.address) (wrap (length v.address) v.next_sequence) r
          ≤ distance (length v.address) (wrap (length v.address) v.next_sequence) i)
      × ((get_service_addr_by_name name t s).0 ≡ (answered (get_or v.address r []), true))
      × (lookup name (get_service_addr_by_name name t s).1.service_health_mesh ≡ some v')
      × IsNoted v (get_or v.address r []) r v'
unfolding get_service_addr_by_name
get_service_addr_by_name-next_turn name t s v i found lt on many none_secondary full =
    let addr : Bytes = (next_turn (length v.address) v.next_sequence v.address v.available_seq).0 in
    let r : ℕ = (next_turn (length v.address) v.next_sequence v.address v.available_seq).1 in
    let taken =
      next_turn-contains (length v.address) v.next_sequence v.address v.available_seq
        (ground (arith, lt)) in
    let filled : (addr == []) ≡ false = elim (Bool-cases (addr == [])) [
      | inl e ↦ absurd (
          ground
            (arith, subst (λ a. contains a v.address ≡ true) (eq_of_beq addr [] e) taken, full))
      | inr e ↦ e
    ] in
    let (inside, marked, text, first) =
      next_turn_available v.next_sequence v.address v.available_seq i lt on in
    (
      r,
      increment v addr r,
      inside,
      marked,
      first,
      rw (found, choose_configured-turn s v i lt on many none_secondary, filled)
          (ap (λ a. (a, true)) (with_scheme-answered addr filled ∙ ap answered text)),
      rw (found, choose_configured-turn s v i lt on many none_secondary, filled)
          (lookup-modify name name (λ v. increment v addr r) v s.service_health_mesh found
            ∙ ap (λ b. some (if b then increment v addr r else v)) (beq_self name)),
      subst (λ a. IsNoted v a r (increment v addr r)) text (increment-IsNoted v addr r),
    )
