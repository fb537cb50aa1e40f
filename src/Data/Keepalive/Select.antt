-- ===== src/Data/Keepalive/Select.antt =====
-- `GetServiceAddrByName` of data/service_keepalive.go: which address the next call goes to.
-- The three looks at the state and the increments behind them are one step.
pub mod Turn
pub mod Fair
pub mod Fresh
pub mod Rotation
use landau.Common.{
  ℕ, zero, suc, ◌+◌, Bool, true, false, ◌&&◌, ◌||◌, not, List, [], ◌∷◌, ◌++◌, ◌==◌, nat_eq,
  bytes_eq, Bytes, codes, Option, none, some, if◌then◌else◌, lookup, has, lookup_or, length, get_or,
  leb, starts_with, contains_bytes,
}
use landau.Data.Keepalive.{Keepalive, ServiceHealthInfo, modify, increment}

-- An address, the turn that it was taken at, and whether it is a primary one.
pub record Choice : Type 0 where
  pub addr : Bytes
  pub using_sequence : ℕ
  pub is_primary : Bool

-- The `for` loop, with the tries that are left: the address list is `address`.
unfoldable pub next_turn : ℕ → ℕ → List Bytes → List (ℕ × ℕ) → Bytes × ℕ
next_turn zero seq address available = (get_or address 0 [], 0)
next_turn (suc tries) seq address available =
    let turn : ℕ = if leb (length address) seq then 0 else seq in
    let later = next_turn tries (turn + 1) address available in
    if has turn available then (get_or address turn [], turn) else later

-- An address whose checks went over to the secondary one is replaced by that, if there is one.
unfoldable pub use_secondary : ServiceHealthInfo → Keepalive → Choice → Choice
use_secondary v s c =
    let secondary : Bytes = lookup_or c.addr [] s.primary_to_secondary in
    if has c.addr v.health_on_secondary && not (secondary == [])
    then record c { addr = secondary; is_primary = false }
    else c

abbrev pub nothing : Choice
nothing = record { addr = []; using_sequence = 0; is_primary = true }

-- The look at `serviceHealthMesh`.
unfoldable pub choose_turn : ServiceHealthInfo → Choice
choose_turn v =
    if (length v.available_seq == 0) || (length v.address == 1)
    then record { addr = get_or v.address 0 []; using_sequence = 0; is_primary = true }
    else (let (addr, turn) =
          next_turn (length v.address) v.next_sequence v.address v.available_seq in
        record { addr = addr; using_sequence = turn; is_primary = true })

unfoldable pub choose_configured : Option ServiceHealthInfo → Keepalive → Choice
choose_configured none s = nothing
choose_configured (some v) s =
    if length v.address == 0 then nothing else use_secondary v s (choose_turn v)

-- The addresses heard of within the last `timer` seconds: `t-c <= ReceiverKeepTimer`.
unfoldable pub fresh_addresses : ℕ → ℕ → List (Bytes × ℕ) → List Bytes
fresh_addresses timer t [] = []
fresh_addresses timer t ((a, c) ∷ m) =
    let rest = fresh_addresses timer t m in if leb t (c + timer) then a ∷ rest else rest

-- The look at `receiveServiceMesh`, at the time `t`. The turn is `NextSequence` if nothing is fresh.
unfoldable pub choose_fresh : ℕ → List Bytes → Choice
choose_fresh next [] = record { addr = []; using_sequence = next; is_primary = true }
choose_fresh next (a ∷ fresh) =
    let turn : ℕ = if leb (length (a ∷ fresh)) next then 0 else next in
    record { addr = get_or (a ∷ fresh) turn []; using_sequence = turn; is_primary = true }

unfoldable pub choose_received : Option ServiceHealthInfo → ℕ → Keepalive → Choice
choose_received none t s = nothing
choose_received (some v) t s =
    use_secondary v s
      (choose_fresh v.next_sequence (fresh_addresses s.receiver_keep_timer t v.receive_time))

-- `http://` is put in front, unless the address holds it already.
unfoldable pub with_scheme : Bytes → Bytes
with_scheme addr =
    if not (addr == []) && not (contains_bytes (codes "http://") addr)
    then codes "http://" ++ addr
    else addr

abbrev pub traced : Bytes → Keepalive → Choice → Choice
traced name s c = record c { addr = lookup_or name [] s.last_trace_service_address }

abbrev pub finish : Choice → Bytes × Bool
finish c = (with_scheme c.addr, c.is_primary)

-- Behind a look at `serviceHealthMesh` that found nothing.
unfoldable pub get_received : Bytes → ℕ → Keepalive → (Bytes × Bool) × Keepalive
get_received name t s =
    let c = choose_received (lookup name s.receive_service_mesh) t s in
    if c.addr == [] then (finish (traced name s c), s) else (
      finish c,
      record s {
        receive_service_mesh =
            modify name (λ v. increment v c.addr c.using_sequence) s.receive_service_mesh;
      },
    )

unfoldable pub get_service_addr_by_name : Bytes → ℕ → Keepalive → (Bytes × Bool) × Keepalive
get_service_addr_by_name name t s =
    let c = choose_configured (lookup name s.service_health_mesh) s in
    if c.addr == [] then get_received name t s else (
      finish c,
      record s {
        service_health_mesh =
            modify name (λ v. increment v c.addr c.using_sequence) s.service_health_mesh;
      },
    )
