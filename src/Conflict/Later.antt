-- ===== src/Conflict/Later.antt =====
-- LaterObservation of internal/domain/conflict.go: the order by which a claim advances.
use firmscout.Base.{inl, inr, Bool-cases, Bool, ◌≡◌, ◌<◌, ◌⊎◌, ◌↔◌, true, false, arith}
use firmscout.Date.{known, instant, date_before}
use firmscout.Conflict.{SourceObservation, later_observation}

-- The dated claim is later than the undated one, then the later date, then the later observation.
abbrev LaterClaim : SourceObservation → SourceObservation → Type 0
LaterClaim a b =
    ((known a.release_date ≡ true) × (known b.release_date ≡ false))
    ⊎ (((known a.release_date ≡ true)
          × (known b.release_date ≡ true)
          × ((instant b.release_date.anchor < instant a.release_date.anchor)
              ⊎ ((instant b.release_date.anchor ≡ instant a.release_date.anchor)
                  × (b.observed_at < a.observed_at))))
        ⊎ ((known a.release_date ≡ false)
            × (known b.release_date ≡ false)
            × (b.observed_at < a.observed_at)))

later_observation_iff : (a b : SourceObservation) → (later_observation a b ≡ true) ↔ LaterClaim a b
unfolding later_observation date_before
later_observation_iff a b = ground arith

LaterClaim-trans : (a b c : SourceObservation) → LaterClaim a b → LaterClaim b c → LaterClaim a c
LaterClaim-trans a b c h k = ground arith

LaterClaim-irrefl : (a : SourceObservation) → ¬ LaterClaim a a
LaterClaim-irrefl a h = ground arith

negatively : (a b c : SourceObservation) → ¬ LaterClaim a b → ¬ LaterClaim b c → ¬ LaterClaim a c
negatively a b c h k m = ground arith

-- LaterObservation is a strict order in which "neither is later" is transitive too: no claim is later
-- than itself, later is transitive, and a claim not later than a second, which is not later than a
-- third, is not later than the third.
pub later_observation-order :
    (a b c : SourceObservation)
    → (later_observation a a ≡ false)
      × ((later_observation a b ≡ true)
          → (later_observation b c ≡ true)
          → later_observation a c ≡ true)
      × ((later_observation a b ≡ false)
          → (later_observation b c ≡ false)
          → later_observation a c ≡ false)
later_observation-order a b c =
    let ab = later_observation_iff a b in
    let bc = later_observation_iff b c in
    let ac = later_observation_iff a c in
    let aa = later_observation_iff a a in
    let irrefl = LaterClaim-irrefl a in
    (
      elim (Bool-cases (later_observation a a)) [ inl e ↦ absurd (irrefl (aa.0 e)) | inr e ↦ e ],
      λ h k. ac.1 (LaterClaim-trans a b c (ab.0 h) (bc.0 k)),
      λ h k. elim (Bool-cases (later_observation a c)) [
        | inl e ↦
            absurd (negatively a b c (λ l. no_way (ab.1 l) h) (λ l. no_way (bc.1 l) k) (ac.0 e))
        | inr e ↦ e
      ],
    )
  where
    no_way : {x : Bool} → x ≡ true → x ≡ false → ⊥
    no_way p q = cc
