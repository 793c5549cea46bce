-- ===== src/Ingest/Context.antt =====
-- internal/application/ingest.go: buildContext, which assembles what the gates are asked about.
use firmscout.Base.{
  Bool, true, false, not, ◌&&◌, ◌||◌, List, [], ◌∷◌, is_empty, Option, none, some, if◌then◌else◌,
}
use firmscout.Base.Text.{Str, Unicode, is_blank, str_eq}
use firmscout.Base.Go.{Time, Result, ok, err}
use firmscout.Source.{
  Source, QualityClass, official_manufacturer, compliance_permits_collection, is_active_or_degraded,
}
use firmscout.Version.{VersionString, no_version}
use firmscout.Date.{unknown_date}
use firmscout.Candidate.{CandidateRelease, ProductMatchStatus, unique, ambiguous, no_match}
use firmscout.Gates.{ValidationContext, GateOutcome, ValidationVerdict}
use firmscout.Release.{Release}
use firmscout.Conflict.{
  SourceObservation, ConflictVerdict, nothing_counted, assess_source_conflict, later_observation,
}
use firmscout.Ingest.{IngestPorts}
use firmscout.Ingest.Session.{M, ◌>>=◌, pure, lift, attempt, branch, is_not_found}

pub record ValidateResult : Type 0 where
  pub candidate_id : Str
  pub decision : GateOutcome
  pub reason : Str
  pub verdict : ValidationVerdict
  pub publication_enqueued : Bool
  pub review_item_id : Str
  pub conflict_id : Str

-- conflictAssessment; `previous` is none for the zero observation with HasPrevious false
pub record ConflictAssessment : Type 0 where
  pub subject : SourceObservation
  pub previous : Option SourceObservation
  pub observations : List SourceObservation
  pub assessed : ConflictVerdict
  pub recordable : Bool

abbrev pub no_quality : QualityClass
no_quality = QualityClass.unlisted []

abbrev pub no_observation : SourceObservation
no_observation = record {
  source_id = [];
  product_id = [];
  channel = [];
  raw_version = [];
  normalized_version = [];
  release_date = unknown_date;
  candidate_id = [];
  evidence_id = [];
  observed_at = 0;
  first_observed_at = 0;
  quality_class = no_quality;
  official = false;
  eligible = false;
}

-- the zero value
abbrev pub no_assessment : ConflictAssessment
no_assessment = record {
  subject = no_observation;
  previous = none;
  observations = [];
  assessed = nothing_counted;
  recordable = false;
}

-- What the resolution of the product gave
pub record Resolution : Type 0 where
  pub resolved : Bool
  pub is_ambiguous : Bool
  pub product : Str

abbrev pub resolution : Bool → Bool → Str → Resolution
resolution r a p = record { resolved = r; is_ambiguous = a; product = p }

-- `switch len(matches)`
abbrev pub by_matches : List Str → Resolution
by_matches [] = resolution false false []
by_matches (id ∷ []) = resolution true false id
by_matches (id ∷ other ∷ rest) = resolution false true []

abbrev is_official_class : QualityClass → Bool
is_official_class official_manufacturer = true
is_official_class _ = false

-- The loop that finds this source's stored observation
unfoldable pub own_observation : Str → List SourceObservation → Option SourceObservation
own_observation id [] = none
own_observation id (o ∷ os) =
    let later = own_observation id os in if str_eq o.source_id id then some o else later

abbrev pub or_now : Option SourceObservation → Time → Time
or_now none now = now
or_now (some o) now = o.first_observed_at

abbrev pub is_news : SourceObservation → Option SourceObservation → Bool
is_news subject none = true
is_news subject (some o) = later_observation subject o

module _ {Float : Type 0} where
  abbrev pub is_source_eligible : Source Float → Bool
  is_source_eligible src = compliance_permits_collection src && is_active_or_degraded src.health

  abbrev pub subject_of :
      CandidateRelease Float
      → Source Float
      → Str
      → Option SourceObservation
      → Time
      → SourceObservation
  subject_of c src product_id previous now = record {
    source_id = src.id;
    product_id = product_id;
    channel = c.applicability.channel;
    raw_version = c.version.raw;
    normalized_version = c.version.normalized;
    release_date = c.release_date;
    candidate_id = c.id;
    evidence_id = c.evidence_id;
    observed_at = now;
    first_observed_at = or_now previous now;
    quality_class = src.quality_class;
    official = src.official;
    eligible = is_source_eligible src;
  }

  -- The assessment, once the observations are loaded
  unfoldable pub assess :
      Unicode
      → CandidateRelease Float
      → Source Float
      → Str
      → Time
      → List SourceObservation
      → ConflictAssessment
  unfolding own_observation assess_source_conflict
  assess u c src product_id now observations =
      let previous = own_observation src.id observations in
      let subject = subject_of c src product_id previous now in
      record {
        subject = subject;
        previous = previous;
        observations = observations;
        assessed = assess_source_conflict u subject observations;
        recordable =
            is_source_eligible src
            && not (is_blank u subject.normalized_version)
            && is_news subject previous;
      }

  -- The previous version, from the answer of LatestForProduct
  abbrev pub previous_of : Result (Release Float) → Result VersionString
  previous_of (ok latest) = ok latest.version
  previous_of (err e) = if is_not_found e then ok no_version else err e

  module _ (u : Unicode) (P : IngestPorts Float) where
    abbrev pub match_by_hint :
        CandidateRelease Float → Source Float → M Float ValidateResult Resolution
    match_by_hint c src = branch (not (is_empty c.product_id)) (pure (resolution true false [])) (do
      matches ← lift (P.resolve_by_alias src.vendor_id c.product_match_hint)
      pure (by_matches matches))

    -- Product resolution
    abbrev pub resolve_product :
        ProductMatchStatus
        → CandidateRelease Float
        → Source Float
        → M Float ValidateResult Resolution
    resolve_product unique c src = pure (resolution (not (is_empty c.product_id)) false [])
    resolve_product ambiguous c src = pure (resolution false true [])
    resolve_product no_match c src = pure (resolution false false [])
    resolve_product ProductMatchStatus.unresolved c src = match_by_hint c src
    resolve_product (ProductMatchStatus.unlisted s) c src = match_by_hint c src

    -- The duplicate and the previous version of a product that is known
    abbrev pub history : CandidateRelease Float → M Float ValidateResult (Str × VersionString)
    history c =
        branch (not (is_empty c.product_id))
          (do
            duplicate ←
                lift (P.find_duplicate c.product_id c.version.normalized c.applicability.channel)
            answer ← attempt (λ log. P.latest_for_product log c.product_id c.applicability.channel)
            previous ← lift (previous_of answer)
            pure (duplicate, previous))
          (pure ([], no_version))

    unfoldable pub context_of :
        CandidateRelease Float
        → Source Float
        → Resolution
        → Str
        → VersionString
        → ConflictVerdict
        → ValidationContext Float
    context_of c src r duplicate previous v = record {
      now = P.now;
      product_resolved = r.resolved;
      product_ambiguous = r.is_ambiguous;
      resolved_product_id = r.product;
      source_health = src.health;
      is_eligible = is_source_eligible src;
      source_quality = src.quality_class;
      source_official = src.official && is_official_class src.quality_class;
      duplicate_release_id = duplicate;
      previous_version = previous;
      evidence_present = not (is_empty c.evidence_id);
      minimum_confidence = P.threshold;
      applicability_known = true;
      conflicting_source_versions = v.conflicting_versions;
      outranked_source_versions = v.outranked_versions;
      future_date_tolerance = P.future_date_tolerance;
      earliest_plausible_date = P.earliest_plausible_date;
    }

    -- What the other sources say, if there is a product to ask about
    abbrev pub assessment_of :
        CandidateRelease Float → Source Float → Str → M Float ValidateResult ConflictAssessment
    assessment_of c src product_id =
        branch (is_empty product_id || not P.has_conflicts) (pure no_assessment) (do
          observations ← lift (P.observations_for_product product_id c.applicability.channel)
          pure (assess u c src product_id P.now observations))

    unfoldable pub build_context :
        CandidateRelease Float
        → Source Float
        → M Float ValidateResult (ValidationContext Float × ConflictAssessment)
    unfolding context_of assess
    build_context c src = do
      r ← resolve_product c.product_match_status c src
      h ← history c
      a ← assessment_of c src (if is_empty c.product_id then r.product else c.product_id)
      pure (context_of c src r h.0 h.1 a.assessed, a)
