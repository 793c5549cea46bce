-- ===== src/Release/Withdrawal.antt =====
-- Withdraw of internal/domain/release.go.
use firmscout.Base.{◌≡◌, ◌≢◌, refl, true, false, arith, ◌↔◌, none}
use firmscout.Base.Text.{Str, Unicode, is_blank}
use firmscout.Base.Go.{Time, FloatOps, ok}
use firmscout.Release.{Release, withdraw, validate_release, eligible_for_latest, serveable}

module _ {Float : Type 0} ⦃F : FloatOps Float⦄ (u : Unicode) where
  marked_valid :
      (r : Release Float) (at : Time) (reason : Str)
      → validate_release u r ≡ none
      → at ≢ 0
      → validate_release u
          (record r { withdrawn = true; withdrawn_at = at; withdrawn_reason = reason })
        ≡ none
  unfolding validate_release
  marked_valid r at reason v n = ground arith

module _ {Float : Type 0} ⦃F : FloatOps Float⦄ (u : Unicode) (r q : Release Float) (at : Time)
    (reason : Str) where
  -- Withdraw succeeds exactly on a release that is not withdrawn, with a reason that is not blank, and
  -- then it changes the three fields of the withdrawal alone.
  withdraw_iff : (withdraw u r at reason ≡ ok q) ↔ (
      (r.withdrawn ≡ false)
      × (is_blank u reason ≡ false)
      × (q ≡ record r { withdrawn = true; withdrawn_at = at; withdrawn_reason = reason }))
  unfolding withdraw
  withdraw_iff = (λ e. ground arith, λ e. ground arith)

  -- Withdrawing a valid release at an instant that is not zero gives a valid release, which is neither served as
  -- current nor eligible for the latest-observed flag.
  pub withdraw-valid :
      validate_release u r ≡ none
      → at ≢ 0
      → withdraw u r at reason ≡ ok q
      → (validate_release u q ≡ none) × (serveable q ≡ false) × (eligible_for_latest q ≡ false)
  unfolding eligible_for_latest
  withdraw-valid v n e =
      let (_, _, p) = withdraw_iff.0 e in
      (rw p (marked_valid u r at reason v n), rw p refl, rw p refl)
