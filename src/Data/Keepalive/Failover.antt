-- ===== src/Data/Keepalive/Failover.antt =====
-- data/service_keepalive.go: what becomes of the secondary addresses.
use landau.Common.{
  ℕ, ◌+◌, ◌≡◌, ◌≤◌, le→leb, ◌||◌, if_elim, ◌≢◌, refl, true, false, List, [], ◌∷◌, ◌++◌, ◌==◌,
  bytes_eq, Bytes, ap, ◌∙◌, some, if◌then◌else◌, has, insert, length, arith, Bool-cases, suc, inl,
  inr, bytes_beq_iff, has-insert, beq_self, nat_eq,
}
use landau.Data.Keepalive.{Keepalive, ServiceHealthInfo, contains}
use landau.Data.Keepalive.Update.{update_info, mark_available, mark_secondary}
use landau.Data.Keepalive.Receive.{remove_info, first_info}
use landau.Data.Keepalive.Select.{
  Choice, choose_received, choose_fresh, fresh_addresses, choose_configured, choose_turn,
  use_secondary, next_turn,
}
use landau.Data.Keepalive.Select.Turn.{next_turn-contains}

-- A result for an address that is not one of the service marks no turn.
mark_available_absent :
    (address : Bytes) (status index : ℕ) (addresses : List Bytes) (seq : List (ℕ × ℕ))
    → contains address addresses ≡ false
    → mark_available address status index addresses seq ≡ seq
unfolding mark_available
mark_available_absent address status index [] seq h = refl
mark_available_absent address status index (a ∷ more) seq h =
    ground (arith, mark_available_absent address status (index + 1) more seq, h)

-- An address that `choose_configured` takes, before the secondary one stands in for it.
choose_turn-contains :
    (v : ServiceHealthInfo)
    → (length v.address == 0) ≡ false
    → contains (choose_turn v).addr v.address ≡ true
unfolding choose_turn next_turn
choose_turn-contains v h =
    if_elim (λ (c : Choice). contains c.addr v.address ≡ true)
      ((length v.available_seq == 0) || (length v.address == 1)) _ _
      (λ _. next_turn-contains 0 0 v.address v.available_seq (ground (arith, h)))
      (λ _.
        next_turn-contains (length v.address) v.next_sequence v.address v.available_seq
          (ground (arith, h)))

contains_other :
    (a q : Bytes) (l : List Bytes) → contains a l ≡ true → contains q l ≡ false → (q == a) ≡ false
contains_other a q [] h k = absurd (ground (arith, h))
contains_other a q (b ∷ l) h k =
    ground
      (arith, h, k, contains_other a q l, bytes_beq_iff b a, bytes_beq_iff q a, bytes_beq_iff b q)

use_secondary_other :
    (v : ServiceHealthInfo) (m : List (Bytes × ℕ)) (s : Keepalive) (c : Choice)
    → has c.addr m ≡ has c.addr v.health_on_secondary
    → use_secondary (record v { health_on_secondary = m }) s c ≡ use_secondary v s c
unfolding use_secondary
use_secondary_other v m s c h = rw h refl

-- A check of a secondary address that succeeded changes no choice among the configured services, if
-- the secondary address differs from its primary one and is not one of the service's addresses.
pub update_info_secondary :
    (v : ServiceHealthInfo) (p q : Bytes) (t : ℕ) (s : Keepalive)
    → (p ≢ q)
    → contains q v.address ≡ false
    → choose_configured (some (update_info p q 1 t v)) s ≡ choose_configured (some v) s
unfolding choose_configured update_info mark_secondary choose_turn use_secondary
update_info_secondary v p q t s ne out = elim (Bool-cases (length v.address == 0)) [
  | inl e ↦ rw e refl
  | inr e ↦
      let other : (p == q) ≡ false = ground (arith, bytes_beq_iff p q, ne) in
      let same = mark_available_absent q 1 0 v.address v.available_seq out in
      let apart = contains_other (choose_turn v).addr q v.address (choose_turn-contains v e) out in
      rw (e, other, same)
        (use_secondary_other v (insert q 1 v.health_on_secondary) s (choose_turn v) (
          has-insert (choose_turn v).addr q 1 v.health_on_secondary
          ∙ ap (λ b. if b then true else has (choose_turn v).addr v.health_on_secondary) apart))
]

-- A service that announces itself for the first time, from a secondary address that differs from the
-- primary one, is called at the primary address while the message is fresh.
pub first_info_primary :
    (name p q : Bytes) (t now : ℕ) (s : Keepalive)
    → (p ≢ q)
    → now ≤ t + s.receiver_keep_timer
    → let c = choose_received (some (first_info name p q t)) now s in
      (c.addr ≡ p) × (c.is_primary ≡ true)
unfolding choose_received first_info use_secondary choose_fresh fresh_addresses
first_info_primary name p q t now s ne fresh =
    let other : (p == q) ≡ false = ground (arith, bytes_beq_iff p q, ne) in
    let back : (q == p) ≡ false = ground (arith, bytes_beq_iff q p, ne) in
    rw (other, le→leb now (t + s.receiver_keep_timer) fresh, back) (refl, refl)

-- How often a list of addresses names one.
abbrev pub occurrences : Bytes → List Bytes → ℕ
occurrences a [] = 0
occurrences a (b ∷ l) = if b == a then suc (occurrences a l) else occurrences a l

occurrences-append :
    (a : Bytes) (k l : List Bytes) → occurrences a (k ++ l) ≡ occurrences a k + occurrences a l
occurrences-append a [] l = omega arith
occurrences-append a (b ∷ k) l = ground (arith, occurrences-append a k l)

-- A shutdown message from an address that the service's list does not name adds one more entry for
-- the primary address to the list, even if the list names that already.
pub remove_info_duplicates :
    (v : ServiceHealthInfo) (p q : Bytes)
    → contains q v.address ≡ false
    → occurrences p (remove_info p q v).address ≡ occurrences p v.address + 1
unfolding remove_info
remove_info_duplicates v p q out = rw out (
    occurrences-append p v.address (p ∷ [])
    ∙ ap (λ b. occurrences p v.address + (if b then 1 else 0)) (beq_self p))
