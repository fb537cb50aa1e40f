-- ===== src/Data/Keepalive/Select/Fair.antt =====
-- The calls of one service in data/service_keepalive.go, one behind the other: no address waits for ever.
use landau.Common.{
  ℕ, zero, suc, subst, [], get_or, ◌+◌, ◌<◌, ◌≤◌, ◌≡◌, refl, true, false, List, nat_eq, nat_beq_iff,
  ◌==◌, Bytes, has, length, arith, Bool-cases, inl, inr,
}
use landau.Data.Keepalive.{ServiceHealthInfo, increment}
use landau.Data.Keepalive.Select.{next_turn, Choice, choose_turn}
use landau.Data.Keepalive.Select.Rotation.{has-length}
use landau.Data.Keepalive.Select.Turn.{
  wrap, distance, distance_next, distance_lt, wrap_lt, next_turn_available,
}

-- The turn that is taken at the k-th call from now, when each call leaves its turn + 1 behind.
abbrev pub turn_after : ℕ → ℕ → List Bytes → List (ℕ × ℕ) → ℕ
turn_after zero seq address available = (next_turn (length address) seq address available).1
turn_after (suc k) seq address available =
    turn_after k ((next_turn (length address) seq address available).1 + 1) address available

distance_through :
    (n turn r i : ℕ)
    → turn < n
    → r < n
    → i < n
    → distance n turn r ≤ distance n turn i
    → distance n r i ≤ distance n turn i
distance_through n turn r i h k l near = ground arith

served :
    (d seq : ℕ) (address : List Bytes) (available : List (ℕ × ℕ)) (i : ℕ)
    → i < length address
    → has i available ≡ true
    → distance (length address) (wrap (length address) seq) i < d
    → (k : ℕ) × (k < d) × (turn_after k seq address available ≡ i)
served zero seq address available i lt on near = absurd (omega arith)
served (suc d) seq address available i lt on near =
    let n : ℕ = length address in
    let r : ℕ = (next_turn n seq address available).1 in
    let (inside, taken, text, first) = next_turn_available seq address available i lt on in
    elim (Bool-cases (r == i)) [
      | inl e ↦ (0, omega arith, (nat_beq_iff r i).0 e)
      | inr e ↦
          let nearer = distance_next n r i inside lt (λ p. ground (arith, p, e)) in
          let through = distance_through n (wrap n seq) r i (wrap_lt n seq i lt) inside lt first in
          let (k, small, is) =
            served d (r + 1) address available i lt on (omega (arith, nearer, through, near)) in
          (suc k, omega (arith, small), is)
    ]

-- The choice of the k-th call from now, when nothing but the calls changes the service.
abbrev pub choice_after : ℕ → ServiceHealthInfo → Choice
choice_after zero v = choose_turn v
choice_after (suc k) v =
    choice_after k (increment v (choose_turn v).addr (choose_turn v).using_sequence)

-- A choice is that of a turn: its address, as a primary one.
abbrev pub IsChoiceOf : List Bytes → ℕ → Choice → Type 0
IsChoiceOf address r c =
    (c.using_sequence ≡ r) × (c.addr ≡ get_or address r []) × (c.is_primary ≡ true)

choose_turn-IsChoiceOf :
    (v : ServiceHealthInfo) (i : ℕ)
    → i < length v.address
    → has i v.available_seq ≡ true
    → (length v.address == 1) ≡ false
    → IsChoiceOf v.address
        (next_turn (length v.address) v.next_sequence v.address v.available_seq).1
        (choose_turn v)
unfolding choose_turn
choose_turn-IsChoiceOf v i lt on many =
    let (inside, taken, text, first) =
      next_turn_available v.next_sequence v.address v.available_seq i lt on in
    rw (has-length i v.available_seq on, many) (refl, text, refl)

choice_after-IsChoiceOf :
    (k : ℕ) (v : ServiceHealthInfo) (i : ℕ)
    → i < length v.address
    → has i v.available_seq ≡ true
    → (length v.address == 1) ≡ false
    → IsChoiceOf v.address
        (turn_after k v.next_sequence v.address v.available_seq)
        (choice_after k v)
unfolding increment
choice_after-IsChoiceOf zero v i lt on many = choose_turn-IsChoiceOf v i lt on many
choice_after-IsChoiceOf (suc k) v i lt on many =
    let turn = (choose_turn-IsChoiceOf v i lt on many).0 in
    subst
      (λ r.
        IsChoiceOf v.address (turn_after k (r + 1) v.address v.available_seq)
          (choice_after (suc k) v))
      turn
      (choice_after-IsChoiceOf k (increment v (choose_turn v).addr (choose_turn v).using_sequence) i
        lt on many)

pub choice_after_reached :
    (v : ServiceHealthInfo) (i : ℕ)
    → i < length v.address
    → has i v.available_seq ≡ true
    → (length v.address == 1) ≡ false
    → (k : ℕ) × (k < length v.address) × IsChoiceOf v.address i (choice_after k v)
choice_after_reached v i lt on many =
    let (k, small, is) =
      served (length v.address) v.next_sequence v.address v.available_seq i lt on
        (distance_lt (length v.address) _ i (wrap_lt (length v.address) v.next_sequence i lt) lt) in
    (
      k,
      small,
      subst (λ r. IsChoiceOf v.address r (choice_after k v)) is
          (choice_after-IsChoiceOf k v i lt on many),
    )
