-- ===== src/Guard/Enforced.antt =====
-- internal/adapters/fetch/ssrf.go: what a connection that CheckAddr lets through goes to.
use firmscout.Base.{
  ℕ, ◌<◌, true, false, Option, none, some, ◌≡◌, inl, inr, refl, Bool-cases, Option-cases,
}
use firmscout.Base.Int.{ℤ}
use firmscout.Base.Text.{Str}
use firmscout.Guard.{Addr, Guard, default_denied_ranges, check_ip}
use firmscout.Guard.Address.{is_tcp, port_allowed, has_text, check_addr, check_address, check_port}
use firmscout.Guard.Special.{IsSpecial, check_ip-IsSpecial}
use firmscout.Guard.Wrapped.{Carries, IsPublic, check_ip-IsPublic}

module _ (split : Str → Option (Str × Str)) (parse_ip : Str → Option Addr) (atoi : Str → Option ℤ)
    (g : Guard) where
  -- An address whose host is a public one, in whatever form, and whose port is allowed
  abbrev pub Reachable : Str → Type 0
  Reachable address =
      (host : Str) × (port : Str) × (ip : Addr) × (p : ℤ) × (split address ≡ some (host, port))
      × (parse_ip host ≡ some ip)
      × (atoi port ≡ some p)
      × (port_allowed g p ≡ true)
      × (¬ IsSpecial ip)
      × ((a b c d : ℕ) → a < 256 → Carries a b c d ip → IsPublic a b c)

  port-allowed :
      (q : Option ℤ)
      → check_port split parse_ip atoi g q ≡ none
      → (p : ℤ) × (q ≡ some p) × (port_allowed g p ≡ true)
  port-allowed none h = absurd (cc)
  port-allowed (some p) h = elim (Bool-cases (port_allowed g p)) [
    | inl y ↦ (p, refl, y)
    | inr n ↦ absurd (let k = rw n at h in cc)
  ]

  passed-both :
      (ip : Addr) (q : Option ℤ)
      → check_address split parse_ip atoi g (some ip) q ≡ none
      → (check_ip g ip ≡ none) × (check_port split parse_ip atoi g q ≡ none)
  passed-both ip q h = elim (Option-cases (check_ip g ip)) [
    | inl n ↦ (n, rw n at h)
    | inr (e, y) ↦ absurd (let k = rw y at h in cc)
  ]

  -- Under the default ranges, an address that is not exempt passes CheckAddr only on TCP, to an
  -- allowed port, and to a host which is the literal of an IP address. That is no special IPv6
  -- address: unspecified, loopback, discard only, documentation, unique local, link local, multicast;
  -- and if it is an IPv4 address, or carries one as IPv4-mapped, NAT64 or 6to4 addresses do, that one
  -- is in none of the special blocks: this network, private use, carrier-grade NAT, loopback,
  -- link local, protocol assignments, documentation, 6to4 relays, benchmarking, multicast, reserved.
  pub check_addr-Reachable :
      (network address : Str)
      → g.denied ≡ default_denied_ranges
      → g.allow_private ≡ false
      → has_text g.exempt_destinations address ≡ false
      → check_addr split parse_ip atoi g network address ≡ none
      → (is_tcp network ≡ true) × Reachable address
  unfolding check_addr
  check_addr-Reachable network address ranges on listed h = elim (Bool-cases (is_tcp network)) [
    | inr n ↦ absurd (let k = rw n at h in cc)
    | inl tcp ↦ (
      tcp,
      elim (Option-cases (split address)) [
        | inl n ↦ absurd (let k = rw (tcp, listed, n) at h in cc)
        | inr ((host, port), parts) ↦ elim (Option-cases (parse_ip host)) [
          | inl n ↦ absurd (let k = rw (tcp, listed, parts, n) at h in cc)
          | inr (ip, parsed) ↦
              let (free, fine) =
                passed-both ip (atoi port) (rw (tcp, listed, parts, parsed) at h) in
              let (p, number, may) = port-allowed (atoi port) fine in
              (
                host,
                port,
                ip,
                p,
                parts,
                parsed,
                number,
                may,
                check_ip-IsSpecial g ip ranges on free,
                λ a b c d small carries.
                    check_ip-IsPublic g a b c d ip ranges on small carries free,
              )
        ]
      ],
    )
  ]
