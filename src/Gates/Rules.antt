-- ===== src/Gates/Rules.antt =====
-- internal/domain/validation.go: what RunValidationGates finds at each of the ten gates.
use firmscout.Base.{
  Bool, true, false, not, ◌||◌, ◌&&◌, List, [], ◌∷◌, ◌++◌, is_empty, if◌then◌else◌,
}
use firmscout.Base.Int.{pos}
use firmscout.Base.Text.{Str, text, Unicode, is_blank, join}
use firmscout.Base.Go.{is_zero, before, add_time, FloatOps}
use firmscout.Version.{is_zero_version, Plausibility, suspicious, uncomparable, assess_transition}
use firmscout.Date.{
  known, instant, after_instant, date_string, DatePrecision, precision, exact_day, month_only,
  year_only, unknown,
}
use firmscout.Candidate.{CandidateRelease}
use firmscout.Gates.{
  product_identity, version_present, source_eligible, duplicate, date_valid, version_transition,
  evidence_retained, confidence_threshold, applicability, multi_source_agreement, passed, rejected,
  review_required, ValidationContext, Ruling, ruling,
}

abbrev precision_name : DatePrecision → Str
precision_name exact_day = text "exact_day"
precision_name month_only = text "month_only"
precision_name year_only = text "year_only"
precision_name unknown = text "unknown"
precision_name (DatePrecision.unlisted s) = s

abbrev needs_a_look : Plausibility → Bool
needs_a_look suspicious = true
needs_a_look uncomparable = true
needs_a_look _ = false

module _ {Float : Type 0} where
  -- 1. Product identity
  unfoldable pub rule_product : ValidationContext Float → Ruling
  rule_product x =
      if x.product_ambiguous
      then ruling product_identity review_required
          (text "the product name matches more than one catalogued product")
      else if not x.product_resolved
      then ruling product_identity rejected (text "no catalogued product matches this release")
      else ruling product_identity passed (text "resolved to a single product")

  -- 3. Source eligibility
  unfoldable pub rule_source : ValidationContext Float → Ruling
  rule_source x =
      if not x.is_eligible
      then ruling source_eligible rejected
          (text "source is not eligible for collection or is not active")
      else ruling source_eligible passed (text "source is active and permitted")

  -- 4. Exact duplicate
  unfoldable pub rule_duplicate : ValidationContext Float → Ruling
  rule_duplicate x =
      if not (is_empty x.duplicate_release_id)
      then ruling duplicate rejected (
          text "already published as "
          ++ (x.duplicate_release_id ++ text "; refreshing verification instead"))
      else ruling duplicate passed
          (text "no existing release with this product, version and channel")

  -- 5. Date validity
  unfoldable pub rule_date : CandidateRelease Float → ValidationContext Float → Ruling
  unfolding date_string add_time
  rule_date c x =
      if not (known c.release_date)
      then ruling date_valid passed (text "no release date published; stored as unknown precision")
      else if not (is_zero x.earliest_plausible_date)
          && before (instant c.release_date.anchor) x.earliest_plausible_date
      then ruling date_valid rejected
          (text "release date precedes the earliest plausible date for this vendor")
      else if after_instant c.release_date (add_time x.now x.future_date_tolerance)
      then ruling date_valid review_required
          (text "release date is further in the future than the tolerance allows")
      else ruling date_valid passed (
          text "release date "
          ++ (date_string c.release_date
              ++ (text " at " ++ (precision_name (precision c.release_date) ++ text " precision"))))

  -- 9. Applicability constraints
  unfoldable pub rule_applicability : ValidationContext Float → Ruling
  rule_applicability x =
      if not x.applicability_known
      then ruling applicability review_required
          (text "hardware revision or region is not recognised for this product")
      else ruling applicability passed
          (text "applicability constraints are consistent with the product")

  -- 10. Multi-source agreement
  unfoldable pub rule_agreement : ValidationContext Float → Ruling
  rule_agreement x =
      if not (is_empty x.conflicting_source_versions)
      then ruling multi_source_agreement review_required (
          text "other active sources report a different version: "
          ++ join (text ", ") x.conflicting_source_versions)
      else if not (is_empty x.outranked_source_versions)
      then ruling multi_source_agreement passed (
          text "a lower-authority source reports a different version ("
          ++ (join (text ", ") x.outranked_source_versions
              ++ text "); the higher-authority value stands"))
      else ruling multi_source_agreement passed (text "no disagreement among active sources")

module _ {Float : Type 0} (u : Unicode) where
  -- 2. Version present
  unfoldable pub rule_version : CandidateRelease Float → Ruling
  rule_version c =
      if is_zero_version c.version || is_blank u c.version.normalized
      then ruling version_present rejected (text "version is empty after normalisation")
      else ruling version_present passed (text "version present: " ++ c.version.raw)

  -- 6. Version transition plausibility
  unfoldable pub rule_transition : CandidateRelease Float → ValidationContext Float → Ruling
  unfolding assess_transition
  rule_transition c x =
      let pr = assess_transition u x.previous_version c.version in
      if needs_a_look pr.verdict
      then ruling version_transition review_required pr.reason
      else ruling version_transition passed pr.reason

  -- 7. Evidence retained
  unfoldable pub rule_evidence : CandidateRelease Float → ValidationContext Float → Ruling
  rule_evidence c x =
      if not x.evidence_present || is_blank u c.evidence_id
      then ruling evidence_retained rejected (text "no evidence artifact or excerpt was retained")
      else ruling evidence_retained passed (text "evidence retained")

module _ {Float : Type 0} ⦃F : FloatOps Float⦄ where
  -- DefaultConfidenceThreshold, and the threshold in force
  abbrev pub default_confidence_threshold : Float
  default_confidence_threshold = F.decimal 85 2

  unfoldable pub threshold_of : Float → Float
  threshold_of t = if F.le t (F.of_int (pos 0)) then default_confidence_threshold else t

  -- 8. Confidence threshold
  unfoldable pub rule_confidence : CandidateRelease Float → ValidationContext Float → Ruling
  unfolding threshold_of
  rule_confidence c x =
      if not x.source_official
      then ruling confidence_threshold review_required
          (text "source is not an official manufacturer source; human review required")
      else if F.lt c.confidence (threshold_of x.minimum_confidence)
      then ruling confidence_threshold review_required
          (text "confidence below the automatic publication threshold")
      else ruling confidence_threshold passed (text "confidence meets the threshold")

module _ {Float : Type 0} ⦃F : FloatOps Float⦄ (u : Unicode) where
  -- The rulings in the order in which the code makes them
  unfoldable pub rulings : CandidateRelease Float → ValidationContext Float → List Ruling
  unfolding rule_product rule_version rule_source rule_duplicate rule_date rule_transition
      rule_evidence rule_confidence rule_applicability rule_agreement
  rulings c x =
      rule_product x
      ∷ rule_version u c
      ∷ rule_source x
      ∷ rule_duplicate x
      ∷ rule_date c x
      ∷ rule_transition u c x
      ∷ rule_evidence u c x
      ∷ rule_confidence c x
      ∷ rule_applicability x
      ∷ rule_agreement x
      ∷ []
