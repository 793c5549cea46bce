-- ===== src/Guard/Wrapped.antt =====
-- internal/adapters/fetch/ssrf.go: what CheckIP lets through under the default ranges, for an IPv4
-- address and for the IPv6 addresses that carry one.
use firmscout.Base.{
  ◌∙◌, sym, ap, ℕ, ◌≤◌, ◌<◌, false, List, [], ◌∷◌, ◌++◌, none, ◌≡◌, ◌≢◌, ◌⊎◌, inl, inr, arith, ap,
  sym, ◌∙◌, Bool-cases,
}
use firmscout.Base.Text.{has_prefix}
use firmscout.Guard.{
  Addr, Network, Guard, mapped_prefix, to4, contains, same_bits, default_denied_ranges,
  translated_ranges, embedded, unwrap_address, in_some, some_in_some, check_ip,
}

-- The octets of an address that carries the four given ones: IPv4, IPv4-mapped, NAT64, NAT64 for local
-- use, and 6to4.
pub data Carries (a b c d : ℕ) : Addr → Type 0 where
  plain : Carries a b c d (a ∷ b ∷ c ∷ d ∷ [])
  mapped : Carries a b c d (mapped_prefix ++ (a ∷ b ∷ c ∷ d ∷ []))
  nat64 : Carries a b c d (0 ∷ 100 ∷ 255 ∷ 155 ∷ 0 ∷ 0 ∷ 0 ∷ 0 ∷ 0 ∷ 0 ∷ 0 ∷ 0 ∷ a ∷ b ∷ c ∷ d ∷ [])
  local_nat64 :
      (p q r s t w : ℕ)
      → Carries a b c d (0 ∷ 100 ∷ 255 ∷ 155 ∷ 0 ∷ 1 ∷ p ∷ q ∷ r ∷ s ∷ t ∷ w ∷ a ∷ b ∷ c ∷ d ∷ [])
  six_to_four :
      (p q r s t w x y z o : ℕ)
      → Carries a b c d (32 ∷ 2 ∷ a ∷ b ∷ c ∷ d ∷ p ∷ q ∷ r ∷ s ∷ t ∷ w ∷ x ∷ y ∷ z ∷ o ∷ [])

-- An IPv4 address outside the special blocks: this network, private use, carrier-grade NAT,
-- loopback, link local, protocol assignments, the three documentation networks, the 6to4 relays,
-- benchmarking, multicast and reserved addresses.
abbrev pub IsPublic : ℕ → ℕ → ℕ → Type 0
IsPublic a b c =
    (a ≢ 0)
    × (a ≢ 10)
    × (a ≢ 127)
    × (a < 224)
    × (a ≡ 169 → b ≢ 254)
    × (a ≡ 192 → b ≢ 168)
    × (a ≡ 172 → (b < 16) ⊎ (32 ≤ b))
    × (a ≡ 100 → (b < 64) ⊎ (128 ≤ b))
    × (a ≡ 198 → (b < 18) ⊎ (20 ≤ b))
    × (a ≡ 192 → b ≡ 0 → (c ≢ 0) × (c ≢ 2))
    × (a ≡ 192 → b ≡ 88 → c ≢ 99)
    × (a ≡ 198 → b ≡ 51 → c ≢ 100)
    × (a ≡ 203 → b ≡ 0 → c ≢ 113)

second :
    (ns : List Network) (x y : Addr) (zs : List Addr)
    → some_in_some ns (x ∷ y ∷ zs) ≡ false
    → in_some ns y ≡ false
unfolding some_in_some
second ns x y zs h = ground arith

pub first :
    (ns : List Network) (x : Addr) (zs : List Addr)
    → some_in_some ns (x ∷ zs) ≡ false
    → in_some ns x ≡ false
unfolding some_in_some
first ns x zs h = ground arith

-- Whatever carries it, the IPv4 address is in none of the networks.
carried :
    (ns : List Network) (a b c d : ℕ) (ip : Addr)
    → Carries a b c d ip
    → some_in_some ns (unwrap_address ip) ≡ false
    → in_some ns (a ∷ b ∷ c ∷ d ∷ []) ≡ false
unfolding unwrap_address to4 embedded translated_ranges contains same_bits has_prefix
carried ns a b c d _ plain h = first ns (a ∷ b ∷ c ∷ d ∷ []) [] h
carried ns a b c d _ mapped h =
    second ns (mapped_prefix ++ (a ∷ b ∷ c ∷ d ∷ [])) (a ∷ b ∷ c ∷ d ∷ []) [] h
carried ns a b c d _ nat64 h = second ns _ (a ∷ b ∷ c ∷ d ∷ []) [] h
carried ns a b c d _ (local_nat64 p q r s t w) h = second ns _ (a ∷ b ∷ c ∷ d ∷ []) [] h
carried ns a b c d _ (six_to_four p q r s t w x y z o) h = second ns _ (a ∷ b ∷ c ∷ d ∷ []) [] h

public :
    (a b c d : ℕ)
    → a < 256
    → in_some default_denied_ranges (a ∷ b ∷ c ∷ d ∷ []) ≡ false
    → IsPublic a b c
unfolding in_some default_denied_ranges to4 contains same_bits has_prefix
public a b c d small h = ground arith

pub passed-outside :
    (g : Guard) (ip : Addr)
    → g.allow_private ≡ false
    → check_ip g ip ≡ none
    → some_in_some g.denied (unwrap_address ip) ≡ false
unfolding check_ip
passed-outside g ip on h = elim (Bool-cases (some_in_some g.denied (unwrap_address ip))) [
  | inr n ↦ n
  | inl y ↦ absurd (let k = rw (on, y) at h in cc)
]

-- What passes CheckIP under the default ranges carries only public addresses.
pub check_ip-IsPublic :
    (g : Guard) (a b c d : ℕ) (ip : Addr)
    → g.denied ≡ default_denied_ranges
    → g.allow_private ≡ false
    → a < 256
    → Carries a b c d ip
    → check_ip g ip ≡ none
    → IsPublic a b c
check_ip-IsPublic g a b c d ip ranges on small carries h = public a b c d small (
    carried default_denied_ranges a b c d ip carries
      (ap (λ ns. some_in_some ns (unwrap_address ip)) (sym ranges) ∙ passed-outside g ip on h))
