-- ===== src/Util/IpHelper.antt =====
-- util/ip_helper.go: IPv6 addresses with and without brackets.
mod Tests
use landau.Common.{
  ℕ, ◌≡◌, refl, sym, ap, ◌∙◌, Bool, true, false, not, List, [], ◌∷◌, ◌++◌, map, Bytes, codes,
  Option, none, some, ◌==◌, nat_eq, bytes_eq, if◌then◌else◌, cut_byte, split_byte, replace_byte,
  join, arith, Bool-cases, inl, inr,
}

-- `IPBracketMode`.
pub data IpBracketMode : Type 0 where
  ipv6_bracket_none ipv6_bracket : IpBracketMode

abbrev behind_start : Option (Bytes × Bytes) → Bool
behind_start none = false
behind_start (some (before, after)) = not (before == [])

-- `strings.Index(ip, ".") > 0`
abbrev dot_inside : Bytes → Bool
dot_inside ip = behind_start (cut_byte b'.' ip)

abbrev has_byte : ℕ → Bytes → Bool
has_byte b [] = false
has_byte b (c ∷ s) = if c == b then true else has_byte b s

abbrev without_brackets : Bytes → Bytes
without_brackets ip = replace_byte b']' [] (replace_byte b'[' [] ip)

abbrev pub in_mode : IpBracketMode → Bytes → Bytes
in_mode ipv6_bracket_none ip = without_brackets ip
in_mode ipv6_bracket ip = if has_byte b'[' ip then ip else b'[' ∷ ip ++ b']' ∷ []

-- `IPConvert`.
unfoldable pub ip_convert : Bytes → IpBracketMode → Bytes
ip_convert ip mode = if dot_inside ip then ip else in_mode mode ip

-- `strings.LastIndex` of a byte, with the texts on both sides.
abbrev pub cut_last : ℕ → Bytes → Option (Bytes × Bytes)
cut_last b [] = none
cut_last b (c ∷ s) = elim (cut_last b s) [
  | some (before, after) ↦ some (c ∷ before, after)
  | none ↦ if c == b then some ([], s) else none
]

with_port : Bytes → IpBracketMode → Option (Bytes × Bytes) → Bytes
with_port addr mode none = addr
with_port addr mode (some ([], port)) = addr
with_port addr mode (some (c ∷ ip, port)) = ip_convert (c ∷ ip) mode ++ b':' ∷ port

-- `AddrConvert`.
unfoldable pub addr_convert : Bytes → IpBracketMode → Bytes
unfolding with_port
addr_convert addr mode = if dot_inside addr then addr else with_port addr mode (cut_last b':' addr)

-- `SplitAddrConvert`.
unfoldable pub split_addr_convert : Bytes → IpBracketMode → Bytes
split_addr_convert addr mode =
    join (codes ",") (map (λ s. addr_convert s mode) (split_byte b',' addr))

without_brackets-twice : (s : Bytes) → without_brackets (without_brackets s) ≡ without_brackets s
without_brackets-twice [] = refl
without_brackets-twice (c ∷ s) = elim (Bool-cases (c == b'[')) [
  | inl e ↦ rw e (without_brackets-twice s)
  | inr e ↦ elim (Bool-cases (c == b']')) [
    | inl f ↦ rw (e, f) (without_brackets-twice s)
    | inr f ↦ rw (e, f, e, f) (ap (λ x. c ∷ x) (without_brackets-twice s))
  ]
]

in_mode-twice :
    (ip : Bytes) (mode : IpBracketMode) → in_mode mode (in_mode mode ip) ≡ in_mode mode ip
in_mode-twice ip ipv6_bracket_none = without_brackets-twice ip
in_mode-twice ip ipv6_bracket = elim (Bool-cases (has_byte b'[' ip)) [
  | inl e ↦ rw (e, e) refl
  | inr e ↦ rw e refl
]

same_either : {A : Type 0} (b : Bool) (x y : A) → y ≡ x → (if b then x else y) ≡ x
same_either true x y h = refl
same_either false x y h = h

-- An address that was brought into a mode stays as it is when it is brought into that mode again.
pub ip_convert-ip_convert :
    (ip : Bytes) (mode : IpBracketMode) → ip_convert (ip_convert ip mode) mode ≡ ip_convert ip mode
unfolding ip_convert
ip_convert-ip_convert ip mode = elim (Bool-cases (dot_inside ip)) [
  | inl e ↦ rw (e, e) refl
  | inr e ↦ rw e (same_either (dot_inside (in_mode mode ip)) _ _ (in_mode-twice ip mode))
]
