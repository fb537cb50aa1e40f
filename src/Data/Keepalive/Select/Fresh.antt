-- ===== src/Data/Keepalive/Select/Fresh.antt =====
-- The services that announced themselves, in data/service_keepalive.go: only a fresh address is used.
use landau.Common.{
  ℕ, zero, suc, ◌+◌, ◌<◌, ◌≤◌, ◌≡◌, ◌≢◌, refl, true, false, not, ◌&&◌, List, [], ◌∷◌, ◌==◌, nat_eq,
  bytes_eq, Bytes, some, if◌then◌else◌, has, lookup, lookup_or, length, get_or, leb, arith,
  Bool-cases, inl, inr, ◌⊎◌, ap, subst, sym, ◌∙◌, Distinct, Distinct-insert, lookup-insert,
  beq_self, has-lookup, leb→le, if_elim, eq_of_beq,
}
use landau.Data.Keepalive.{Keepalive, ServiceHealthInfo, contains, primary_of, lookup-modify}
use landau.Data.Keepalive.Receive.{remove_receive_service, remove_info}
use landau.Data.Keepalive.Select.{
  Choice, choose_received, choose_fresh, fresh_addresses, use_secondary,
}

-- A fresh address was heard of within the last `timer` seconds.
fresh_addresses_sound :
    (timer t : ℕ) (a : Bytes) (m : List (Bytes × ℕ))
    → Distinct m
    → contains a (fresh_addresses timer t m) ≡ true
    → (c : ℕ) × (lookup a m ≡ some c) × (t ≤ c + timer)
unfolding fresh_addresses
fresh_addresses_sound timer t a [] d h = absurd (ground (arith, h))
fresh_addresses_sound timer t a ((b, c) ∷ m) (once, d) h = elim (Bool-cases (b == a)) [
  | inl same ↦ elim (Bool-cases (leb t (c + timer))) [
    | inl near ↦ (c, rw same refl, leb→le t (c + timer) near)
    | inr far ↦
        let (w, found, _) = fresh_addresses_sound timer t a m d (rw far at h) in
        absurd (ground (arith, has-lookup a m, found, once, eq_of_beq b a same))
  ]
  | inr other ↦
      let (w, found, near) = fresh_addresses_sound timer t a m d (ground (arith, h, other)) in
      (w, rw other found, near)
]

get_or-contains :
    (a : Bytes) (fresh : List Bytes) (i : ℕ)
    → i < length (a ∷ fresh)
    → contains (get_or (a ∷ fresh) i []) (a ∷ fresh) ≡ true
get_or-contains a fresh zero h = rw (beq_self a)
get_or-contains a [] (suc i) h = absurd (omega arith)
get_or-contains a (b ∷ fresh) (suc i) h = ground (arith, get_or-contains b fresh i (omega arith))

choose_fresh-contains :
    (next : ℕ) (fresh : List Bytes)
    → ((choose_fresh next fresh).addr ≢ [])
    → contains (choose_fresh next fresh).addr fresh ≡ true
unfolding choose_fresh
choose_fresh-contains next [] h = absurd (h refl)
choose_fresh-contains next (a ∷ fresh) h =
    get_or-contains a fresh (if leb (length (a ∷ fresh)) next then 0 else next) (ground arith)

-- A choice as it was, or the secondary address of it.
abbrev pub Replaced : Keepalive → Choice → Choice → Type 0
Replaced s c d =
    (d ≡ c) ⊎ ((d.addr ≡ lookup_or c.addr [] s.primary_to_secondary) × (d.is_primary ≡ false))

use_secondary-Replaced :
    (v : ServiceHealthInfo) (s : Keepalive) (c : Choice) → Replaced s c (use_secondary v s c)
unfolding use_secondary
use_secondary-Replaced v s c =
    if_elim (Replaced s c)
      (has c.addr v.health_on_secondary && not (lookup_or c.addr [] s.primary_to_secondary == [])) _
      _ (λ _. inr (refl, refl)) (λ _. inl refl)

-- Of the services that announced themselves, an address is chosen only if it, or the primary address
-- that it stands in for, was heard of within the last `receiver_keep_timer` seconds: for a
-- map with each key once, and where the empty address is not marked.
pub choose_received_fresh :
    (v : ServiceHealthInfo) (t : ℕ) (s : Keepalive)
    → Distinct v.receive_time
    → has [] v.health_on_secondary ≡ false
    → ((choose_received (some v) t s).addr ≢ [])
    → (c : Choice) × (heard : ℕ) × (lookup c.addr v.receive_time ≡ some heard)
      × (t ≤ heard + s.receiver_keep_timer)
      × Replaced s c (choose_received (some v) t s)
unfolding choose_received use_secondary
choose_received_fresh v t s d none_empty h =
    let fresh : List Bytes = fresh_addresses s.receiver_keep_timer t v.receive_time in
    let c : Choice = choose_fresh v.next_sequence fresh in
    elim (Bool-cases (c.addr == [])) [
      | inl gone ↦ absurd (
          h (
            rw
              (subst (λ a. has a v.health_on_secondary ≡ false) (sym (eq_of_beq c.addr [] gone))
                none_empty)
              (eq_of_beq c.addr [] gone)))
      | inr is ↦
          let (heard, found, near) =
            fresh_addresses_sound s.receiver_keep_timer t c.addr v.receive_time d (
              choose_fresh-contains v.next_sequence fresh
                (λ p. ground (arith, subst (λ a. (a == []) ≡ false) p is))) in
          (c, heard, found, near, use_secondary-Replaced v s c)
    ]

-- A service whose checker announced its end is not called at that address any more: once more than
-- `receiver_keep_timer` seconds have gone by on the clock, the choice is some other address or the
-- secondary one of it. The service is known, its map has each key once, and the address is not empty.
pub remove_receive_service_unused :
    (name addr : Bytes) (s : Keepalive) (v : ServiceHealthInfo) (t : ℕ)
    → lookup name s.receive_service_mesh ≡ some v
    → Distinct v.receive_time
    → s.receiver_keep_timer < t
    → (primary_of addr s ≢ [])
    → let s' : Keepalive = remove_receive_service name addr s in
      (c : Choice) × (c.addr ≢ primary_of addr s)
      × Replaced s' c (choose_received (lookup name s'.receive_service_mesh) t s')
unfolding remove_receive_service choose_received remove_info
remove_receive_service_unused name addr s v t found d late ne =
    let p : Bytes = primary_of addr s in
    let s' : Keepalive = remove_receive_service name addr s in
    let v' : ServiceHealthInfo = remove_info p addr v in
    let found' : lookup name s'.receive_service_mesh ≡ some v' =
      lookup-modify name name (remove_info p addr) v s.receive_service_mesh found
      ∙ ap (λ b. some (if b then v' else v)) (beq_self name) in
    let fresh : List Bytes = fresh_addresses s.receiver_keep_timer t v'.receive_time in
    let c : Choice = choose_fresh v'.next_sequence fresh in
    (
      c,
      (λ e.
          let (heard, at, near) =
            fresh_addresses_sound s.receiver_keep_timer t p v'.receive_time
              (Distinct-insert p 0 v.receive_time d)
              (subst (λ a. contains a fresh ≡ true) e
                (choose_fresh-contains v'.next_sequence fresh (λ z. ne (sym e ∙ z)))) in
          ground (arith, lookup-insert p p 0 v.receive_time, beq_self p, at, near, late)),
      subst (λ o. Replaced s' c (choose_received o t s')) (sym found')
          (use_secondary-Replaced v' s' c),
    )
