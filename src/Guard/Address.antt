-- ===== src/Guard/Address.antt =====
-- internal/adapters/fetch/ssrf.go: CheckAddr, which the dialer runs before it connects, and
-- checkHostname. `split`, `parse_ip` and `atoi` are net.SplitHostPort, net.ParseIP and strconv.Atoi.
use firmscout.Base.{
  Bool, false, not, ◌&&◌, ◌||◌, List, [], ◌∷◌, is_empty, Option, none, some, if◌then◌else◌, ◌==◌,
}
use firmscout.Base.Int.{ℤ, leb_ℤ}
use firmscout.Base.Text.{Str, text, str_eq, has_suffix, lower, Unicode}
use firmscout.Guard.{Addr, Guard, GuardError, blocked_address, blocked_host, blocked_port, check_ip}
use firmscout.Robots.{drop_last}

unfoldable pub has_port : List ℤ → ℤ → Bool
has_port [] p = false
has_port (q ∷ qs) p = let rest = has_port qs p in (leb_ℤ q p && leb_ℤ p q) || rest

unfoldable pub port_allowed : Guard → ℤ → Bool
unfolding has_port
port_allowed g p = is_empty g.allowed_ports || has_port g.allowed_ports p

abbrev pub has_text : List Str → Str → Bool
has_text [] s = false
has_text (t ∷ ts) s = let rest = has_text ts s in str_eq t s || rest

abbrev pub denied_host_suffixes : List Str
denied_host_suffixes =
    text "localhost"
    ∷ text ".localhost"
    ∷ text ".local"
    ∷ text ".localdomain"
    ∷ text ".internal"
    ∷ text ".intranet"
    ∷ text ".lan"
    ∷ text ".corp"
    ∷ text ".private"
    ∷ text ".home.arpa"
    ∷ text ".in-addr.arpa"
    ∷ text ".ip6.arpa"
    ∷ []

-- strings.TrimPrefix(s, ".")
abbrev pub after_dot : Str → Str
after_dot [] = []
after_dot (c ∷ s) = if c == b'.' then s else c ∷ s

abbrev has_dot : Str → Bool
has_dot [] = false
has_dot (c ∷ s) = let rest = has_dot s in (c == b'.') || rest

unfoldable pub has_denied_suffix : List Str → Str → Bool
has_denied_suffix [] host = false
has_denied_suffix (s ∷ ss) host =
    let rest = has_denied_suffix ss host in str_eq host (after_dot s) || has_suffix host s || rest

unfoldable pub check_hostname : Unicode → Guard → Str → Option GuardError
unfolding has_denied_suffix
check_hostname u g host =
    let name = lower u (if has_suffix host (b'.' ∷ []) then drop_last host else host) in
    if g.allow_private
    then none
    else if is_empty name || not (has_dot name) || has_denied_suffix denied_host_suffixes name
    then some blocked_host
    else none

unfoldable pub is_tcp : Str → Bool
is_tcp network =
    str_eq network (text "tcp") || str_eq network (text "tcp4") || str_eq network (text "tcp6")

module _ (split : Str → Option (Str × Str)) (parse_ip : Str → Option Addr) (atoi : Str → Option ℤ)
    (g : Guard) where
  abbrev pub check_port : Option ℤ → Option GuardError
  check_port none = some blocked_port
  check_port (some p) = if not (port_allowed g p) then some blocked_port else none

  abbrev pub error_or : Option GuardError → Option GuardError → Option GuardError
  error_or none e = e
  error_or (some e) e' = some e

  abbrev pub check_address : Option Addr → Option ℤ → Option GuardError
  check_address none p = some blocked_address
  check_address (some ip) p = error_or (check_ip g ip) (check_port p)

  abbrev pub check_host_port : Option (Str × Str) → Option GuardError
  check_host_port none = some blocked_address
  check_host_port (some (host, port)) = check_address (parse_ip host) (atoi port)

  -- CheckAddr
  unfoldable pub check_addr : Str → Str → Option GuardError
  unfolding is_tcp
  check_addr network address =
      if not (is_tcp network)
      then some blocked_address
      else if has_text g.exempt_destinations address
      then none
      else check_host_port (split address)
