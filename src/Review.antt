-- ===== src/Review.antt =====
-- internal/domain/review.go: the score of a review item and the band of its response time.
pub mod Bands
use firmscout.Base.{
  ℕ, zero, ◌+◌, Bool, true, false, not, ◌||◌, ◌&&◌, List, [], ◌∷◌, ◌++◌, if◌then◌else◌, ltb, leb,
}
use firmscout.Base.Int.{ℤ, pos, negsuc, pos_part, ltb_ℤ, leb_ℤ}
use firmscout.Base.Text.{Str, text, decimal}
use firmscout.Base.Go.{eqb, FloatOps}
use firmscout.Source.{
  QualityClass, official_manufacturer, authorized_portal, vendor_repository, trusted_community,
  unknown_third_party, authority,
}
use firmscout.ReleaseType.{ReleaseType, security_update, advisory}
use firmscout.Gates.{ValidationGate}

pub data SlaClass : Type 0 where
  urgent high standard low : SlaClass
  unlisted : Str → SlaClass

-- `string(class)`
abbrev pub sla_name : SlaClass → Str
sla_name urgent = text "urgent"
sla_name high = text "high"
sla_name standard = text "standard"
sla_name low = text "low"
sla_name (unlisted s) = s

unfoldable pub valid_sla_class : SlaClass → Bool
valid_sla_class (unlisted s) = false
valid_sla_class _ = true

pub record ReviewSignals (Float : Type 0) : Type 0 where
  pub gate : ValidationGate
  pub source_quality : QualityClass
  pub source_official : Bool
  pub confidence : Float
  pub product_popularity : ℤ
  pub product_security_critical : Bool
  pub release_type : ReleaseType
  pub conflict_unresolved : Bool

pub record ReviewPriority : Type 0 where
  pub score : ℕ
  pub sla : SlaClass
  pub reasons : List Str

abbrev pub review_score_base : ℕ
review_score_base = 100

abbrev pub review_score_security_critical : ℕ
review_score_security_critical = 150

abbrev pub review_score_unresolved_conflict : ℕ
review_score_unresolved_conflict = 100

abbrev pub review_score_security_release_type : ℕ
review_score_security_release_type = 50

abbrev pub review_popularity_cap : ℕ
review_popularity_cap = 100

abbrev pub review_confidence_weight : ℕ
review_confidence_weight = 100

abbrev pub review_high_popularity : ℕ
review_high_popularity = 50

abbrev quality_name : QualityClass → Str
quality_name official_manufacturer = text "official_manufacturer"
quality_name authorized_portal = text "authorized_portal"
quality_name vendor_repository = text "vendor_repository"
quality_name trusted_community = text "trusted_community"
quality_name unknown_third_party = text "unknown_third_party"
quality_name (QualityClass.unlisted s) = s

abbrev pub is_security_type : ReleaseType → Bool
is_security_type security_update = true
is_security_type advisory = true
is_security_type _ = false

abbrev security_type_name : ReleaseType → Str
security_type_name security_update = text "security_update"
security_type_name advisory = text "advisory"
security_type_name _ = []

unfoldable pub clamp_int : ℤ → ℤ → ℤ → ℤ
clamp_int n lo hi = if ltb_ℤ n lo then lo else if ltb_ℤ hi n then hi else n

-- "<what> (+<points>)"
unfoldable pub reason_for : Str → ℕ → Str
reason_for what points = what ++ (text " (+" ++ (decimal points ++ text ")"))

-- One term of the sum: its condition, its points and what its reason says.
pub record Term : Type 0 where
  pub applies : Bool
  pub points : ℕ
  pub says : Str

abbrev term : Bool → ℕ → Str → Term
term b n w = record { applies = b; points = n; says = w }

unfoldable pub add_term : Term → ReviewPriority → ReviewPriority
unfolding reason_for
add_term t p =
    if t.applies
    then record p {
      score = p.score + t.points;
      reasons = p.reasons ++ reason_for t.says t.points ∷ [];
    }
    else p

module _ {Float : Type 0} ⦃F : FloatOps Float⦄ where
  unfoldable pub clamp_unit : Float → Float
  clamp_unit f =
      if F.lt f (F.of_int (pos 0))
      then F.of_int (pos 0)
      else if F.lt (F.of_int (pos 1)) f
      then F.of_int (pos 1)
      else f

  -- `int(clampUnit(s.Confidence) * ReviewConfidenceWeight)`; the code adds it only if positive
  unfoldable pub confidence_points : Float → ℤ
  unfolding clamp_unit
  confidence_points c = F.to_int (F.mul (clamp_unit c) (F.of_int (pos review_confidence_weight)))

module _ {Float : Type 0} where
  unfoldable pub sla_for : ReviewSignals Float → SlaClass
  sla_for s =
      if s.product_security_critical
        && (s.conflict_unresolved || leb_ℤ (pos review_high_popularity) s.product_popularity)
      then urgent
      else if s.conflict_unresolved || s.product_security_critical
      then high
      else if leb (authority authorized_portal) (authority s.source_quality)
      then standard
      else low

abbrev pub base_priority : SlaClass → ReviewPriority
base_priority band = record {
  score = review_score_base;
  sla = band;
  reasons = reason_for (text "base priority") review_score_base ∷ [];
}

module _ {Float : Type 0} where
  abbrev pub authority_term : ReviewSignals Float → Term
  authority_term s =
      let rank = authority s.source_quality in
      term (ltb 0 rank) rank (text "source authority " ++ quality_name s.source_quality)

  unfoldable pub popularity_term : ReviewSignals Float → Term
  unfolding clamp_int
  popularity_term s =
      let pop = clamp_int s.product_popularity (pos 0) (pos review_popularity_cap) in
      term (ltb_ℤ (pos 0) pop) (pos_part pop) (text "product popularity")

  abbrev pub critical_term : ReviewSignals Float → Term
  critical_term s =
      term s.product_security_critical review_score_security_critical
        (text "security-critical product")

  abbrev pub conflict_term : ReviewSignals Float → Term
  conflict_term s =
      term s.conflict_unresolved review_score_unresolved_conflict
        (text "unresolved multi-source conflict")

  abbrev pub type_term : ReviewSignals Float → Term
  type_term s =
      term (is_security_type s.release_type) review_score_security_release_type
        (text "security-related release type " ++ security_type_name s.release_type)

module _ {Float : Type 0} ⦃F : FloatOps Float⦄ where
  unfoldable pub confidence_term : ReviewSignals Float → Term
  unfolding confidence_points
  confidence_term s =
      let conf = confidence_points s.confidence in
      term (ltb_ℤ (pos 0) conf) (pos_part conf) (text "extraction confidence")

  -- ScoreReview
  unfoldable pub score_review : ReviewSignals Float → ReviewPriority
  unfolding add_term sla_for confidence_term popularity_term
  score_review s = add_term (type_term s) (
      add_term (conflict_term s) (
        add_term (critical_term s) (
          add_term (popularity_term s) (
            add_term (confidence_term s)
              (add_term (authority_term s) (base_priority (sla_for s)))))))
