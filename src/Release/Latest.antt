-- ===== src/Release/Latest.antt =====
-- LatestComparison of internal/domain/release.go is an order: its two directions agree, and both
-- "later" and "as late" are transitive. Versions are never read.
use firmscout.Base.{suc, zero, ◌∙◌, sym, ◌<◌, ◌≡◌, refl, ◌⊎◌, true, false, arith, ◌↔◌}
use firmscout.Base.Int.{ℤ, pos, negsuc}
use firmscout.Date.{known, instant, date_before}
use firmscout.Version.{VersionString}
use firmscout.Release.{Release, latest_comparison, compare_observed}

abbrev pub opposite : ℤ → ℤ
opposite (pos zero) = pos 0
opposite (pos (suc n)) = negsuc n
opposite (negsuc n) = pos (suc n)

module _ {Float : Type 0} where
  -- The key by which releases are compared: whether the date is known, the date, the observation.
  abbrev LaterKey : Release Float → Release Float → Type 0
  LaterKey a b =
      ((known a.release_date ≡ true) × (known b.release_date ≡ false))
      ⊎ (((known a.release_date ≡ true)
            × (known b.release_date ≡ true)
            × ((instant b.release_date.anchor < instant a.release_date.anchor)
                ⊎ ((instant b.release_date.anchor ≡ instant a.release_date.anchor)
                    × (b.first_observed_at < a.first_observed_at))))
          ⊎ ((known a.release_date ≡ false)
              × (known b.release_date ≡ false)
              × (b.first_observed_at < a.first_observed_at)))

  later_iff : (a b : Release Float) → (latest_comparison a b ≡ pos 1) ↔ LaterKey a b
  unfolding latest_comparison compare_observed date_before
  later_iff a b = ground arith

  earlier_iff : (a b : Release Float) → (latest_comparison a b ≡ negsuc 0) ↔ LaterKey b a
  unfolding latest_comparison compare_observed date_before
  earlier_iff a b = ground arith

  LaterKey-trans : (a b c : Release Float) → LaterKey a b → LaterKey b c → LaterKey a c
  LaterKey-trans a b c h k = ground arith

  tie_iff :
      (a b : Release Float) → (latest_comparison a b ≡ pos 0) ↔ (¬ LaterKey a b × ¬ LaterKey b a)
  unfolding latest_comparison compare_observed date_before
  tie_iff a b = (
    λ e.
        (λ k. apart (sym ((later_iff a b).1 k) ∙ e), λ k. apart' (sym ((earlier_iff a b).1 k) ∙ e)),
    λ n. ground arith,
  )
    where
      apart : pos 1 ≡ pos 0 → ⊥
      apart e = cc

      apart' : negsuc 0 ≡ pos 0 → ⊥
      apart' e = cc

  swap_lem : (a b : Release Float) → latest_comparison b a ≡ opposite (latest_comparison a b)
  unfolding latest_comparison compare_observed date_before
  swap_lem a b = ground arith

  LaterKey-tie : (a b c : Release Float) → ¬ LaterKey a b → ¬ LaterKey b c → ¬ LaterKey a c
  LaterKey-tie a b c h k m = ground arith

  blind :
      (a b : Release Float) (v w : VersionString)
      → latest_comparison (record a { version = v }) (record b { version = w })
        ≡ latest_comparison a b
  unfolding latest_comparison compare_observed
  blind a b v w = refl

  -- LatestComparison of `b` with `a` is the opposite of that of `a` with `b`; "later" is transitive, and
  -- so is "neither later nor earlier"; and the versions of the two releases do not count.
  pub latest_comparison_order :
      (a b c : Release Float) (v w : VersionString)
      → (latest_comparison b a ≡ opposite (latest_comparison a b))
        × ((latest_comparison a b ≡ pos 1)
            → (latest_comparison b c ≡ pos 1)
            → latest_comparison a c ≡ pos 1)
        × ((latest_comparison a b ≡ pos 0)
            → (latest_comparison b c ≡ pos 0)
            → latest_comparison a c ≡ pos 0)
        × (latest_comparison (record a { version = v }) (record b { version = w })
            ≡ latest_comparison a b)
  latest_comparison_order a b c v w = (
    swap_lem a b,
    λ h k. (later_iff a c).1 (LaterKey-trans a b c ((later_iff a b).0 h) ((later_iff b c).0 k)),
    λ h k.
        let m = (tie_iff a b).0 h in
        let n = (tie_iff b c).0 k in
        (tie_iff a c).1 (LaterKey-tie a b c m.0 n.0, LaterKey-tie c b a n.1 m.1),
    blind a b v w,
  )
