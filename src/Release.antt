-- ===== src/Release.antt =====
-- internal/domain/release.go: published releases, their checks, their withdrawal, the mapping to
-- products and the order by which the latest observation is found. `Stable` and `Recommended` are
-- options: nil is none.
pub mod Latest
pub mod Withdrawal
use firmscout.Base.{
  Bool, true, false, not, ◌||◌, ◌&&◌, List, [], ◌∷◌, is_empty, Option, none, some, if◌then◌else◌,
}
use firmscout.Base.Int.{ℤ, pos, negsuc}
use firmscout.Base.Text.{Str, Unicode, is_blank}
use firmscout.Base.Go.{
  Time, is_zero, before, eqb, FloatOps, Error, invalid, Result, ok, err, first_error,
}
use firmscout.Version.{VersionString, is_zero_version}
use firmscout.Date.{PartialDate, known, date_before}
use firmscout.ReleaseType.{ReleaseType, unknown, advisory, valid_release_type, ReleaseType-discrete}
use firmscout.Candidate.{Applicability}

pub record ReleaseSource : Type 0 where
  pub url : Str
  pub kind : Str
  pub is_official : Bool

pub record ReleaseEvidence : Type 0 where
  pub excerpt : Str
  pub retrieved_at : Time

-- `provenance` and `citation` are the fields Source and Evidence.
pub record Release (Float : Type 0) : Type 0 where
  pub id : Str
  pub vendor_id : Str
  pub version : VersionString
  pub release_type : ReleaseType
  pub channel : Str
  pub release_date : PartialDate
  pub publication_date : PartialDate
  pub first_observed_at : Time
  pub last_verified_at : Time
  pub published_at : Time
  pub release_notes_url : Str
  pub stable : Option Bool
  pub recommended : Option Bool
  pub withdrawn : Bool
  pub withdrawn_at : Time
  pub withdrawn_reason : Str
  pub corrects_release_id : Str
  pub superseded_by_release_id : Str
  pub candidate_id : Str
  pub collector_run_id : Str
  pub evidence_id : Str
  pub source_confidence : Float
  pub approved_by : Str
  pub created_at : Time
  pub provenance : ReleaseSource
  pub citation : ReleaseEvidence

module _ {Float : Type 0} ⦃F : FloatOps Float⦄ (u : Unicode) where
  -- Release.Validate: the first failing check, or none
  unfoldable pub validate_release : Release Float → Option Error
  unfolding first_error ReleaseType-discrete
  validate_release r = first_error (
      (is_blank u r.vendor_id, invalid "release.vendor_id" "must be set")
      ∷ (is_zero_version r.version, invalid "release.version" "must not be empty")
      ∷ (
        not (valid_release_type r.release_type),
        invalid "release.release_type" "is not a known release type",
      )
      ∷ (
        eqb ReleaseType-discrete r.release_type unknown,
        invalid "release.release_type" "a published release must have a determined type",
      )
      ∷ (
        is_blank u r.evidence_id,
        invalid "release.evidence_id" "a published fact must cite evidence",
      )
      ∷ (
        r.withdrawn && is_zero r.withdrawn_at,
        invalid "release.withdrawn_at" "a withdrawn release must record when",
      )
      ∷ (
        not r.withdrawn && not (is_zero r.withdrawn_at),
        invalid "release.withdrawn_at" "set on a release that is not withdrawn",
      )
      ∷ (
        F.lt r.source_confidence (F.of_int (pos 0)) || F.lt (F.of_int (pos 1)) r.source_confidence,
        invalid "release.source_confidence" "must be between 0 and 1",
      )
      ∷ [])

module _ {Float : Type 0} where
  -- IsCorrection, Superseded and Serveable
  abbrev pub is_correction : Release Float → Bool
  is_correction r = not (is_empty r.corrects_release_id)

  abbrev pub is_superseded : Release Float → Bool
  is_superseded r = not (is_empty r.superseded_by_release_id)

  abbrev pub serveable : Release Float → Bool
  serveable r = not r.withdrawn

  unfoldable pub eligible_for_latest : Release Float → Bool
  unfolding ReleaseType-discrete
  eligible_for_latest r =
      if r.withdrawn then false else not (eqb ReleaseType-discrete r.release_type advisory)

  -- The second switch of LatestComparison
  unfoldable pub compare_observed : Release Float → Release Float → ℤ
  compare_observed a b =
      if before a.first_observed_at b.first_observed_at
      then negsuc 0
      else if before b.first_observed_at a.first_observed_at
      then pos 1
      else pos 0

  -- LatestComparison
  unfoldable pub latest_comparison : Release Float → Release Float → ℤ
  unfolding compare_observed
  latest_comparison a b =
      let a_known = known a.release_date in
      let b_known = known b.release_date in
      if a_known && not b_known
      then pos 1
      else if not a_known && b_known
      then negsuc 0
      else if a_known && b_known && date_before a.release_date b.release_date
      then negsuc 0
      else if a_known && b_known && date_before b.release_date a.release_date
      then pos 1
      else compare_observed a b

  -- Release.Withdraw
  unfoldable pub withdraw : Unicode → Release Float → Time → Str → Result (Release Float)
  withdraw u r at reason =
      if r.withdrawn
      then err (invalid "release.withdrawn" "release is already withdrawn")
      else if is_blank u reason
      then err (invalid "release.withdrawn_reason" "a withdrawal must record why")
      else ok (record r { withdrawn = true; withdrawn_at = at; withdrawn_reason = reason })

pub record ReleaseProductMapping : Type 0 where
  pub id : Str
  pub release_id : Str
  pub product_id : Str
  pub product_family_id : Str
  pub applicability : Applicability
  pub is_latest_observed : Bool
  pub created_at : Time

-- ReleaseProductMapping.Validate; `hasProduct == hasFamily` written out
unfoldable pub validate_mapping : Unicode → ReleaseProductMapping → Option Error
unfolding first_error
validate_mapping u m =
    let has_product = not (is_blank u m.product_id) in
    let has_family = not (is_blank u m.product_family_id) in
    first_error (
      (is_blank u m.release_id, invalid "release_mapping.release_id" "must be set")
      ∷ (
        (has_product && has_family) || (not has_product && not has_family),
        invalid "release_mapping.target" "must reference exactly one of product or family",
      )
      ∷ [])
