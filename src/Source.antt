-- ===== src/Source.antt =====
-- internal/domain/source.go: the vocabularies of a source, the source itself, its compliance rule,
-- the dispatch predicate and the health state machine.
-- A named string type is a data type with one constructor for each constant, and `unlisted` for
-- any other string.
pub mod Health
pub mod Dispatch
pub mod Due
use native.Mathlib.Decide.{ℕ_discrete}
use firmscout.Base.{
  ℕ, Bool, true, false, not, ◌&&◌, ◌||◌, List, [], ◌∷◌, Option, none, some, any, ltb, leb,
  if◌then◌else◌,
}
use firmscout.Base.Int.{ℤ, pos, ltb_ℤ}
use firmscout.Base.Text.{Str, text, Unicode, is_blank, has_prefix}
use firmscout.Base.Go.{
  Time, is_zero, before, eqb, FloatOps, Error, invalid, invalid_transition, Result, ok, err,
  first_error,
}
use firmscout.Slug.{valid_slug}
use firmscout.Base

pub data SourceType : Type 0 where
  rest_api graphql_api rss_atom xml_feed json_endpoint html_page : SourceType
  pdf_release_notes download_portal github_releases sitemap : SourceType
  authenticated_portal manual : SourceType
  unlisted : Str → SourceType

pub data PublicKind : Type 0 where
  html plain_text json xml pdf rss_atom_kind : PublicKind

-- PublicSourceKind
unfoldable pub public_source_kind : SourceType → PublicKind
public_source_kind rest_api = json
public_source_kind graphql_api = json
public_source_kind json_endpoint = json
public_source_kind github_releases = json
public_source_kind rss_atom = rss_atom_kind
public_source_kind xml_feed = xml
public_source_kind sitemap = xml
public_source_kind html_page = html
public_source_kind download_portal = html
public_source_kind authenticated_portal = html
public_source_kind pdf_release_notes = pdf
public_source_kind _ = plain_text

unfoldable pub valid_source_type : SourceType → Bool
valid_source_type (unlisted s) = false
valid_source_type _ = true

pub data QualityClass : Type 0 where
  official_manufacturer authorized_portal vendor_repository : QualityClass
  trusted_community unknown_third_party : QualityClass
  unlisted : Str → QualityClass

-- authorityRank with Authority: a missing key of the map reads as 0
unfoldable pub authority : QualityClass → ℕ
authority official_manufacturer = 50
authority authorized_portal = 40
authority vendor_repository = 30
authority trusted_community = 20
authority unknown_third_party = 10
authority (unlisted s) = 0

unfoldable pub valid_quality_class : QualityClass → Bool
valid_quality_class (unlisted s) = false
valid_quality_class _ = true

pub data RobotsPolicyStatus : Type 0 where
  robots_allowed robots_disallowed robots_unknown robots_not_applicable : RobotsPolicyStatus
  unlisted : Str → RobotsPolicyStatus

pub data TermsReviewStatus : Type 0 where
  terms_pending terms_approved terms_restricted terms_prohibited : TermsReviewStatus
  unlisted : Str → TermsReviewStatus

pub data SourceHealth : Type 0 where
  discovered pending_review active degraded rate_limited authentication_required : SourceHealth
  broken relocated disabled retired : SourceHealth
  unlisted : Str → SourceHealth

unfoldable pub SourceHealth-discrete : Discrete SourceHealth
SourceHealth-discrete = hlevel ℕ_discrete

-- sourceTransitions
unfoldable pub source_transitions : SourceHealth → List SourceHealth
source_transitions discovered = pending_review ∷ disabled ∷ retired ∷ []
source_transitions pending_review = active ∷ disabled ∷ retired ∷ []
source_transitions active =
    degraded ∷ rate_limited ∷ authentication_required ∷ broken ∷ relocated ∷ disabled ∷ retired ∷ []
source_transitions degraded =
    active ∷ broken ∷ rate_limited ∷ authentication_required ∷ relocated ∷ disabled ∷ retired ∷ []
source_transitions rate_limited = active ∷ degraded ∷ broken ∷ disabled ∷ retired ∷ []
source_transitions authentication_required = active ∷ disabled ∷ retired ∷ broken ∷ []
source_transitions broken = active ∷ degraded ∷ relocated ∷ disabled ∷ retired ∷ []
source_transitions relocated = active ∷ disabled ∷ retired ∷ []
source_transitions disabled = pending_review ∷ active ∷ retired ∷ []
source_transitions retired = []
source_transitions (unlisted s) = []

unfoldable pub valid_source_health : SourceHealth → Bool
valid_source_health (unlisted s) = false
valid_source_health _ = true

-- SourceHealth.CanTransitionTo
unfoldable pub can_transition_to : SourceHealth → SourceHealth → Bool
unfolding source_transitions SourceHealth-discrete
can_transition_to h next =
    any (λ allowed. eqb SourceHealth-discrete allowed next) (source_transitions h)

pub data CheckOutcome : Type 0 where
  unchanged changed unavailable unauthorized rate_limited redirected parser_failed : CheckOutcome
  suspicious_content manual_review_required : CheckOutcome
  unlisted : Str → CheckOutcome

pub data ChangeSignal : Type 0 where
  webhook feed api_cursor etag last_modified conditional_get sitemap_lastmod : ChangeSignal
  section_hash content_hash full_compare : ChangeSignal
  unlisted : Str → ChangeSignal

pub record NormalizeConfig : Type 0 where
  pub section_selector : Str
  pub strip : List Str

-- The fields that the modelled code reads or writes.
pub record Source (Float : Type 0) : Type 0 where
  pub id : Str
  pub vendor_id : Str
  pub product_id : Str
  pub product_family_id : Str
  pub slug : Str
  pub source_type : SourceType
  pub url : Str
  pub official : Bool
  pub quality_class : QualityClass
  pub robots_policy_status : RobotsPolicyStatus
  pub terms_review_status : TermsReviewStatus
  pub enabled : Bool
  pub expected_content_type : Str
  pub check_frequency_seconds : ℤ
  pub normalize : NormalizeConfig
  pub etag : Str
  pub last_modified_value : Str
  pub normalized_content_hash : Str
  pub last_checked_at : Time
  pub last_changed_at : Time
  pub last_success_at : Time
  pub next_check_at : Time
  pub consecutive_failures : ℕ
  pub consecutive_unchanged : ℕ
  pub retry_after_until : Time
  pub health : SourceHealth
  pub confidence : Float

module _ {Float : Type 0} ⦃F : FloatOps Float⦄ (u : Unicode) where
  -- Source.Validate: the first failing check, or none
  unfoldable pub validate : Source Float → Option Error
  unfolding first_error is_blank has_prefix valid_slug valid_source_type
  validate s = first_error (
      (is_blank u s.vendor_id, invalid "source.vendor_id" "must be set")
      ∷ (not (valid_slug s.slug), invalid "source.slug" "must be a lowercase kebab-case identifier")
      ∷ (not (valid_source_type s.source_type), invalid "source.source_type" "is not known")
      ∷ (is_blank u s.url, invalid "source.url" "must not be empty")
      ∷ (
        not (has_prefix s.url (text "http://")) && not (has_prefix s.url (text "https://")),
        invalid "source.url" "must use http or https",
      )
      ∷ (
        not (Base.is_empty s.product_id) && not (Base.is_empty s.product_family_id),
        invalid "source.scope" "a source targets a product or a family, never both",
      )
      ∷ (not (valid_quality_class s.quality_class), invalid "source.quality_class" "is not known")
      ∷ (not (valid_source_health s.health), invalid "source.health" "is not a known health state")
      ∷ (
        ltb_ℤ s.check_frequency_seconds (pos 60),
        invalid "source.check_frequency_seconds" "must be at least 60",
      )
      ∷ (
        F.lt s.confidence (F.of_int (pos 0)) || F.lt (F.of_int (pos 1)) s.confidence,
        invalid "source.confidence" "must be between 0 and 1",
      )
      ∷ [])

-- `string(status)`
abbrev pub robots_name : RobotsPolicyStatus → Str
robots_name robots_allowed = text "allowed"
robots_name robots_disallowed = text "disallowed"
robots_name robots_unknown = text "unknown"
robots_name robots_not_applicable = text "not_applicable"
robots_name (RobotsPolicyStatus.unlisted s) = s

abbrev pub terms_name : TermsReviewStatus → Str
terms_name terms_pending = text "pending"
terms_name terms_approved = text "approved"
terms_name terms_restricted = text "restricted"
terms_name terms_prohibited = text "prohibited"
terms_name (TermsReviewStatus.unlisted s) = s

abbrev pub robots_permit : RobotsPolicyStatus → Bool
robots_permit robots_allowed = true
robots_permit robots_not_applicable = true
robots_permit _ = false

abbrev pub terms_permit : TermsReviewStatus → Bool
terms_permit terms_approved = true
terms_permit terms_restricted = true
terms_permit _ = false

abbrev pub is_active_or_degraded : SourceHealth → Bool
is_active_or_degraded active = true
is_active_or_degraded degraded = true
is_active_or_degraded _ = false

module _ {Float : Type 0} where
  -- Source.CompliancePermitsCollection
  unfoldable pub compliance_permits_collection : Source Float → Bool
  compliance_permits_collection s =
      robots_permit s.robots_policy_status && terms_permit s.terms_review_status

  -- Source.Dispatchable
  unfoldable pub dispatchable : Source Float → Time → Bool
  unfolding compliance_permits_collection
  dispatchable s now =
      if not s.enabled
      then false
      else if not (is_active_or_degraded s.health)
      then false
      else if not (compliance_permits_collection s)
      then false
      else if not (is_zero s.retry_after_until) && before now s.retry_after_until
      then false
      else not (before now s.next_check_at)

  -- Source.TransitionHealth
  unfoldable pub transition_health : Source Float → SourceHealth → Result (Source Float)
  transition_health s next =
      if not (valid_source_health next)
      then err (invalid "source.health" "is not a known health state")
      else if eqb SourceHealth-discrete s.health next
      then ok s
      else if not (can_transition_to s.health next)
      then err (invalid_transition "source")
      else ok (record s { health = next })

abbrev pub broken_failure_threshold : ℕ
broken_failure_threshold = 3

abbrev recovers : SourceHealth → Bool
recovers degraded = true
recovers rate_limited = true
recovers broken = true
recovers _ = false

-- HealthForOutcome
unfoldable pub health_for_outcome : SourceHealth → CheckOutcome → ℕ → SourceHealth
health_for_outcome current unchanged n = if recovers current then active else current
health_for_outcome current changed n = if recovers current then active else current
health_for_outcome current unauthorized n = authentication_required
health_for_outcome current rate_limited n = rate_limited
health_for_outcome current redirected n = relocated
health_for_outcome current unavailable n =
    if leb broken_failure_threshold n then broken else degraded
health_for_outcome current parser_failed n =
    if leb broken_failure_threshold n then broken else degraded
health_for_outcome current suspicious_content n = degraded
health_for_outcome current manual_review_required n = degraded
health_for_outcome current (unlisted s) n = current
