-- ===== src/Guard.antt =====
-- internal/adapters/fetch/ssrf.go: the address, port and host policy. An address is its octets, four
-- or sixteen; `to4` and `contains` are those of package net. The parsers of package net and strconv
-- are parameters of CheckAddr.
pub mod Wrapped
pub mod Special
pub mod Address
pub mod Enforced
use firmscout.Base.{
  ℕ, ◌-◌, ◌^◌, ◌/◌, Bool, true, false, not, ◌&&◌, ◌||◌, List, [], ◌∷◌, ◌++◌, take, drop, length,
  is_empty, Option, none, some, if◌then◌else◌, ◌==◌, leb,
}
use firmscout.Base.Int.{pos, ℤ}
use firmscout.Base.Text.{Str, text, str_eq, has_prefix, has_suffix, lower, Unicode}

abbrev pub Addr : Type 0
Addr = List ℕ

pub data GuardError : Type 0 where
  blocked_address blocked_host blocked_port : GuardError

abbrev ten_zeros : Addr
ten_zeros = 0 ∷ 0 ∷ 0 ∷ 0 ∷ 0 ∷ 0 ∷ 0 ∷ 0 ∷ 0 ∷ 0 ∷ []

abbrev pub mapped_prefix : Addr
mapped_prefix = ten_zeros ++ (255 ∷ 255 ∷ [])

-- net.IP.To4
unfoldable pub to4 : Addr → Option Addr
unfolding has_prefix
to4 ip =
    if length ip == 4
    then some ip
    else if (length ip == 16) && has_prefix ip mapped_prefix
    then some (drop 12 ip)
    else none

abbrev pub or_same : Option Addr → Addr → Addr
or_same none ip = ip
or_same (some v4) ip = v4

-- A network of net.ParseCIDR: its masked address and the number of ones in its mask.
pub record Network : Type 0 where
  pub base : Addr
  pub ones : ℕ

-- Equality of two octets under the mask of an octet with so many ones, at most eight of which count
abbrev pub same_byte : ℕ → ℕ → ℕ → Bool
same_byte n b c =
    if n == 0 then true else if leb 8 n then b == c else (b / 2 ^ (8 - n)) == (c / 2 ^ (8 - n))

unfoldable pub same_bits : ℕ → Addr → Addr → Bool
same_bits n [] [] = true
same_bits n (b ∷ bs) (c ∷ cs) = same_byte n b c && same_bits (n - 8) bs cs
same_bits n bs cs = false

-- The ones that are left in the mask when the address of a network is cut to four octets
abbrev pub ones_of : Network → Addr → ℕ
ones_of n number = if length number == length n.base then n.ones else n.ones - 96

-- net.IPNet.Contains; octets of other lengths than the number's are in no network.
unfoldable pub contains : Network → Addr → Bool
unfolding to4 same_bits
contains n ip =
    let number = or_same (to4 n.base) n.base in
    let x = or_same (to4 ip) ip in
    (length number == length x) && same_bits (ones_of n number) number x

abbrev net4 : ℕ → ℕ → ℕ → ℕ → ℕ → Network
net4 a b c d n = record { base = a ∷ b ∷ c ∷ d ∷ []; ones = n }

abbrev net6 : ℕ → ℕ → ℕ → ℕ → ℕ → ℕ → Addr → ℕ → Network
net6 a b c d e f rest n = record { base = a ∷ b ∷ c ∷ d ∷ e ∷ f ∷ rest; ones = n }

-- defaultDeniedRanges, without the reasons
unfoldable pub default_denied_ranges : List Network
default_denied_ranges =
    net4 0 0 0 0 8
    ∷ net4 10 0 0 0 8
    ∷ net4 100 64 0 0 10
    ∷ net4 127 0 0 0 8
    ∷ net4 169 254 0 0 16
    ∷ net4 172 16 0 0 12
    ∷ net4 192 0 0 0 24
    ∷ net4 192 0 2 0 24
    ∷ net4 192 88 99 0 24
    ∷ net4 192 168 0 0 16
    ∷ net4 198 18 0 0 15
    ∷ net4 198 51 100 0 24
    ∷ net4 203 0 113 0 24
    ∷ net4 224 0 0 0 4
    ∷ net4 240 0 0 0 4
    ∷ net4 255 255 255 255 32
    ∷ net6 0 0 0 0 0 0 ten_zeros 128
    ∷ net6 0 0 0 0 0 0 (0 ∷ 0 ∷ 0 ∷ 0 ∷ 0 ∷ 0 ∷ 0 ∷ 0 ∷ 0 ∷ 1 ∷ []) 128
    ∷ net6 1 0 0 0 0 0 ten_zeros 64
    ∷ net6 32 1 13 184 0 0 ten_zeros 32
    ∷ net6 252 0 0 0 0 0 ten_zeros 7
    ∷ net6 254 128 0 0 0 0 ten_zeros 10
    ∷ net6 255 0 0 0 0 0 ten_zeros 8
    ∷ []

-- A range that embeds an IPv4 address, and where in its octets that begins
pub record TranslatedRange : Type 0 where
  pub net : Network
  pub offset : ℕ

unfoldable pub translated_ranges : List TranslatedRange
translated_ranges =
    record { net = net6 0 100 255 155 0 0 ten_zeros 96; offset = 12 }
    ∷ record { net = net6 0 100 255 155 0 1 ten_zeros 48; offset = 12 }
    ∷ record { net = net6 32 2 0 0 0 0 ten_zeros 16; offset = 2 }
    ∷ []

-- The loop of unwrapAddress
unfoldable pub embedded : List TranslatedRange → Addr → List Addr
unfolding contains
embedded [] ip = []
embedded (t ∷ ts) ip =
    let rest = embedded ts ip in
    if not (contains t.net ip) then rest else take 4 (drop t.offset ip) ∷ rest

abbrev pub mapped_or_embedded : Option Addr → Addr → List Addr
mapped_or_embedded (some v4) ip = if length ip == 16 then v4 ∷ [] else []
mapped_or_embedded none ip = if length ip == 16 then embedded translated_ranges ip else []

-- unwrapAddress, without the labels
unfoldable pub unwrap_address : Addr → List Addr
unfolding to4 embedded translated_ranges
unwrap_address ip = ip ∷ mapped_or_embedded (to4 ip) ip

unfoldable pub in_some : List Network → Addr → Bool
unfolding contains
in_some [] ip = false
in_some (n ∷ ns) ip = let rest = in_some ns ip in contains n ip || rest

unfoldable pub some_in_some : List Network → List Addr → Bool
unfolding in_some
some_in_some ns [] = false
some_in_some ns (ip ∷ ips) = let rest = some_in_some ns ips in in_some ns ip || rest

-- The part of a Guard that its decisions read; no allowed ports stand for any port.
pub record Guard : Type 0 where
  pub denied : List Network
  pub allowed_ports : List ℤ
  pub exempt_destinations : List Str
  pub allow_private : Bool

unfoldable pub check_ip : Guard → Addr → Option GuardError
unfolding unwrap_address some_in_some
check_ip g ip =
    if g.allow_private
    then none
    else if some_in_some g.denied (unwrap_address ip)
    then some blocked_address
    else none

-- NewGuard without options
abbrev pub new_guard : Guard
new_guard = record {
  denied = default_denied_ranges;
  allowed_ports = pos 80 ∷ pos 443 ∷ [];
  exempt_destinations = [];
  allow_private = false;
}
