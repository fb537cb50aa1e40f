-- ===== src/Protocol/ServiceAddr/Polling.antt =====
-- `getAddr` of protocol/service_addr_helper.go in the mode PollingServer: every address in its turn.
use landau.Common.{
  ℕ, zero, suc, ◌+◌, ◌≡◌, refl, sym, ap, ap₂, ◌∙◌, false, List, [], ◌∷◌, ◌++◌, map, Option, some,
  if◌then◌else◌, leb, length, get_elem?, length-append, append_assoc, arith,
}
use landau.Protocol.ServiceAddr.{IpPortPair, ServiceAddress, get_addr, next_index, polling_server}

-- The answers of `n` calls.
abbrev pub polled : (ℕ → ℕ) → ℕ → ServiceAddress → List (Option IpPortPair)
polled random zero s = []
polled random (suc n) s =
    (get_addr random polling_server s).0 ∷ polled random n (get_addr random polling_server s).1

get_elem?_middle :
    (before : List IpPortPair) (a : IpPortPair) (rest : List IpPortPair)
    → get_elem? (before ++ a ∷ rest) (length before) ≡ some a
get_elem?_middle [] a rest = refl
get_elem?_middle (b ∷ before) a rest = get_elem?_middle before a rest

get_addr-middle :
    (random : ℕ → ℕ) (before : List IpPortPair) (a : IpPortPair) (rest : List IpPortPair)
    → let n : ℕ = length (before ++ a ∷ rest) in
      get_addr random polling_server
        (record { address = before ++ a ∷ rest; next_using_index = length before })
      ≡ (
        some a,
        record {
          address = before ++ a ∷ rest;
          next_using_index = if leb n (length before + 1) then 0 else length before + 1;
        },
      )
unfolding get_addr next_index
get_addr-middle random before a rest =
    let inside : leb (length (before ++ a ∷ rest)) (length before) ≡ false =
      ground (arith, length-append before (a ∷ rest)) in
    rw (inside, get_elem?_middle before a rest) refl

abbrev place : List IpPortPair → ℕ → ServiceAddress
place address i = record { address = address; next_using_index = i }

polled_rest :
    (random : ℕ → ℕ) (before rest : List IpPortPair)
    → polled random
        (length rest)
        (record { address = before ++ rest; next_using_index = length before })
      ≡ map some rest
polled_rest random before [] = refl
polled_rest random before (a ∷ []) = rw (get_addr-middle random before a []) refl
polled_rest random before (a ∷ b ∷ rest) =
    let more : leb (length (before ++ a ∷ b ∷ rest)) (length before + 1) ≡ false =
      ground (arith, length-append before (a ∷ b ∷ rest)) in
    let grown : length (before ++ a ∷ []) ≡ length before + 1 =
      omega (arith, length-append before (a ∷ [])) in
    let same = ap₂ place (append_assoc before (a ∷ []) (b ∷ rest)) grown in
    rw (get_addr-middle random before a (b ∷ rest), more)
      (ap (λ l. some a ∷ l)
        (sym (ap (polled random (length (b ∷ rest))) same)
          ∙ polled_rest random (before ++ a ∷ []) (b ∷ rest)))

-- As many calls as there are addresses, the first of them made at the first address, answer every address
-- once, in their order.
pub polled_lem :
    (random : ℕ → ℕ) (address : List IpPortPair)
    → polled random (length address) (record { address = address; next_using_index = 0 })
      ≡ map some address
polled_lem random address = polled_rest random [] address
