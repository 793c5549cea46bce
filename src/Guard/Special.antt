-- ===== src/Guard/Special.antt =====
-- internal/adapters/fetch/ssrf.go: the special IPv6 addresses, none of which CheckIP lets through under
-- the default ranges.
use firmscout.Base.{ℕ, ◌≤◌, ◌<◌, true, false, [], ◌∷◌, none, ◌≡◌, refl, sym, ◌∙◌, ap, arith}
use firmscout.Base.Text.{has_prefix}
use firmscout.Guard.{
  Addr, Guard, to4, contains, same_bits, default_denied_ranges, unwrap_address, in_some,
  some_in_some, check_ip,
}
use firmscout.Guard.Wrapped.{first, passed-outside}

-- The octets of the unspecified address, the loopback address, and addresses that are for discarding,
-- documentation, unique local use, link-local use or multicast.
pub data IsSpecial : Addr → Type 0 where
  unspecified : IsSpecial (0 ∷ 0 ∷ 0 ∷ 0 ∷ 0 ∷ 0 ∷ 0 ∷ 0 ∷ 0 ∷ 0 ∷ 0 ∷ 0 ∷ 0 ∷ 0 ∷ 0 ∷ 0 ∷ [])
  loopback : IsSpecial (0 ∷ 0 ∷ 0 ∷ 0 ∷ 0 ∷ 0 ∷ 0 ∷ 0 ∷ 0 ∷ 0 ∷ 0 ∷ 0 ∷ 0 ∷ 0 ∷ 0 ∷ 1 ∷ [])
  discard :
      (i j k l m n o p : ℕ)
      → IsSpecial (1 ∷ 0 ∷ 0 ∷ 0 ∷ 0 ∷ 0 ∷ 0 ∷ 0 ∷ i ∷ j ∷ k ∷ l ∷ m ∷ n ∷ o ∷ p ∷ [])
  documentation :
      (e f g h i j k l m n o p : ℕ)
      → IsSpecial (32 ∷ 1 ∷ 13 ∷ 184 ∷ e ∷ f ∷ g ∷ h ∷ i ∷ j ∷ k ∷ l ∷ m ∷ n ∷ o ∷ p ∷ [])
  unique_local :
      (a b c d e f g h i j k l m n o p : ℕ)
      → 252 ≤ a
      → a < 254
      → IsSpecial (a ∷ b ∷ c ∷ d ∷ e ∷ f ∷ g ∷ h ∷ i ∷ j ∷ k ∷ l ∷ m ∷ n ∷ o ∷ p ∷ [])
  link_local :
      (b c d e f g h i j k l m n o p : ℕ)
      → 128 ≤ b
      → b < 192
      → IsSpecial (254 ∷ b ∷ c ∷ d ∷ e ∷ f ∷ g ∷ h ∷ i ∷ j ∷ k ∷ l ∷ m ∷ n ∷ o ∷ p ∷ [])
  multicast :
      (b c d e f g h i j k l m n o p : ℕ)
      → IsSpecial (255 ∷ b ∷ c ∷ d ∷ e ∷ f ∷ g ∷ h ∷ i ∷ j ∷ k ∷ l ∷ m ∷ n ∷ o ∷ p ∷ [])

denied : (ip : Addr) → IsSpecial ip → in_some default_denied_ranges ip ≡ true
unfolding in_some default_denied_ranges to4 contains same_bits has_prefix
denied _ unspecified = refl
denied _ loopback = refl
denied _ (discard i j k l m n o p) = refl
denied _ (documentation e f g h i j k l m n o p) = refl
denied _ (unique_local a b c d e f g h i j k l m n o p lo hi) = ground arith
denied _ (link_local b c d e f g h i j k l m n o p lo hi) = ground arith
denied _ (multicast b c d e f g h i j k l m n o p) = refl

pub check_ip-IsSpecial :
    (g : Guard) (ip : Addr)
    → g.denied ≡ default_denied_ranges
    → g.allow_private ≡ false
    → check_ip g ip ≡ none
    → ¬ IsSpecial ip
unfolding unwrap_address
check_ip-IsSpecial g ip ranges on h special =
    let outside =
      ap (λ ns. some_in_some ns (unwrap_address ip)) (sym ranges) ∙ passed-outside g ip on h in
    let k = first default_denied_ranges ip _ outside in cc (k, denied ip special)
