-- ===== src/Data/Keepalive/Select/Turn.antt =====
-- The turns of data/service_keepalive.go: among the addresses that answer, each comes in its turn.
use landau.Common.{
  ℕ, zero, suc, ◌+◌, ◌-◌, ◌<◌, ◌≤◌, ◌≡◌, ◌≢◌, refl, true, List, [], ◌∷◌, nat_eq, bytes_eq, Bytes,
  if◌then◌else◌, has, length, get_or, leb, arith, Bool-cases, inl, inr, ap, beq_self,
}
use landau.Data.Keepalive.{contains}
use landau.Data.Keepalive.Select.{next_turn}

-- The turn that a sequence number stands for, among `n` addresses.
abbrev pub wrap : ℕ → ℕ → ℕ
wrap n seq = if leb n seq then 0 else seq

-- How many turns lie between two turns, going round.
abbrev pub distance : ℕ → ℕ → ℕ → ℕ
distance n from to = if leb from to then to - from else to + n - from

pub wrap_lt : (n seq i : ℕ) → i < n → wrap n seq < n
wrap_lt n seq i h = ground arith

-- One turn on, every other turn is one nearer.
pub distance_next :
    (n turn i : ℕ)
    → turn < n
    → i < n
    → turn ≢ i
    → distance n turn i ≡ distance n (wrap n (turn + 1)) i + 1
distance_next n turn i h k ne = ground arith

next_turn_lem :
    (tries seq : ℕ) (address : List Bytes) (available : List (ℕ × ℕ)) (i : ℕ)
    → i < length address
    → has i available ≡ true
    → distance (length address) (wrap (length address) seq) i < tries
    → (let r = (next_turn tries seq address available).1 in
        (r < length address)
        × (has r available ≡ true)
        × ((next_turn tries seq address available).0 ≡ get_or address r [])
        × (distance (length address) (wrap (length address) seq) r
            ≤ distance (length address) (wrap (length address) seq) i))
unfolding next_turn
next_turn_lem zero seq address available i lt on near = absurd (omega arith)
next_turn_lem (suc tries) seq address available i lt on near =
    elim (Bool-cases (has (wrap (length address) seq) available)) [
      | inl e ↦ rw e (ground arith, e, refl, ground arith)
      | inr e ↦
          let turn : ℕ = wrap (length address) seq in
          let small : turn < length address = wrap_lt (length address) seq i lt in
          let nearer =
            distance_next (length address) turn i small lt
              (λ p. ground (arith, ap (λ k. has k available) p, e, on)) in
          let (inside, taken, text, first) =
            next_turn_lem tries (turn + 1) address available i lt on
              (omega (arith, nearer, near)) in
          let r : ℕ = (next_turn tries (turn + 1) address available).1 in
          let farther =
            distance_next (length address) turn r small inside
              (λ p. ground (arith, ap (λ k. has k available) p, e, taken)) in
          rw e (inside, taken, text, omega (arith, nearer, farther, first))
    ]

pub distance_lt : (n from to : ℕ) → from < n → to < n → distance n from to < n
distance_lt n from to h k = ground arith

-- If the turn of any address is marked as available, the loop ends at such a turn with its address,
-- and at the first one from the service's turn on, going round.
pub next_turn_available :
    (seq : ℕ) (address : List Bytes) (available : List (ℕ × ℕ)) (i : ℕ)
    → i < length address
    → has i available ≡ true
    → let (addr, r) = next_turn (length address) seq address available in
      (r < length address)
      × (has r available ≡ true)
      × (addr ≡ get_or address r [])
      × (distance (length address) (wrap (length address) seq) r
          ≤ distance (length address) (wrap (length address) seq) i)
next_turn_available seq address available i lt on =
    next_turn_lem (length address) seq address available i lt on
      (distance_lt (length address) _ i (wrap_lt (length address) seq i lt) lt)

get_or-contains :
    (address : List Bytes) (i : ℕ)
    → i < length address
    → contains (get_or address i []) address ≡ true
get_or-contains [] i h = absurd (omega arith)
get_or-contains (a ∷ address) zero h = rw (beq_self a)
get_or-contains (a ∷ address) (suc i) h = ground (arith, get_or-contains address i (omega arith))

-- If the service has an address, the loop ends at one of them, whatever is marked.
pub next_turn-contains :
    (tries seq : ℕ) (address : List Bytes) (available : List (ℕ × ℕ))
    → 0 < length address
    → contains (next_turn tries seq address available).0 address ≡ true
unfolding next_turn
next_turn-contains zero seq address available h = get_or-contains address 0 h
next_turn-contains (suc tries) seq address available h =
    elim (Bool-cases (has (wrap (length address) seq) available)) [
      | inl e ↦
          rw e
            (get_or-contains address (wrap (length address) seq) (wrap_lt (length address) seq 0 h))
      | inr e ↦ rw e (next_turn-contains tries _ address available h)
    ]
