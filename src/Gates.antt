-- ===== src/Gates.antt =====
-- internal/domain/validation.go: the ten validation gates and their order, the outcomes, and the
-- context and the verdict of RunValidationGates.
pub mod Rules
pub mod Run
pub mod Verdict
pub mod Publish
use native.Mathlib.Decide.{ℕ_discrete}
use firmscout.Base.{
  ◌+◌, ℕ, Bool, true, false, not, ◌||◌, ◌&&◌, List, [], ◌∷◌, ◌++◌, is_empty, if◌then◌else◌, map,
}
use firmscout.Base.Int.{pos}
use firmscout.Base.Text.{Str, text, Unicode, is_blank, join}
use firmscout.Base.Go.{Time, Duration, is_zero, before, add_time, eqb, FloatOps}
use firmscout.Source.{SourceHealth, QualityClass}
use firmscout.Version.{
  VersionString, is_zero_version, Plausibility, suspicious, uncomparable, PlausibilityReport,
  assess_transition,
}
use firmscout.Date.{
  PartialDate, known, instant, after_instant, date_string, DatePrecision, precision, exact_day,
  month_only, year_only, unknown,
}
use firmscout.Candidate.{CandidateRelease}

pub data ValidationGate : Type 0 where
  product_identity version_present source_eligible duplicate date_valid : ValidationGate
  version_transition evidence_retained confidence_threshold : ValidationGate
  applicability multi_source_agreement : ValidationGate
  unlisted : Str → ValidationGate

unfoldable pub ValidationGate-discrete : Discrete ValidationGate
ValidationGate-discrete = hlevel ℕ_discrete

abbrev pub gate_name : ValidationGate → Str
gate_name product_identity = text "product_identity"
gate_name version_present = text "version_present"
gate_name source_eligible = text "source_eligible"
gate_name duplicate = text "duplicate"
gate_name date_valid = text "date_valid"
gate_name version_transition = text "version_transition"
gate_name evidence_retained = text "evidence_retained"
gate_name confidence_threshold = text "confidence_threshold"
gate_name applicability = text "applicability"
gate_name multi_source_agreement = text "multi_source_agreement"
gate_name (unlisted s) = s

unfoldable pub gate_order : List ValidationGate
gate_order =
    product_identity ∷ version_present ∷ source_eligible ∷ duplicate ∷ date_valid
    ∷ version_transition ∷ evidence_retained ∷ confidence_threshold ∷ applicability
    ∷ multi_source_agreement ∷ []

-- GateIndex: the position from 1 in the running order, and 0 for no gate
unfoldable pub index_from : ℕ → List ValidationGate → ValidationGate → ℕ
index_from n [] g = 0
index_from n (x ∷ xs) g =
    let later = index_from (n + 1) xs g in if eqb ValidationGate-discrete x g then n else later

unfoldable pub gate_index : ValidationGate → ℕ
unfolding index_from gate_order
gate_index g = index_from 1 gate_order g

pub data GateOutcome : Type 0 where
  passed rejected review_required skipped : GateOutcome
  unlisted : Str → GateOutcome

unfoldable pub GateOutcome-discrete : Discrete GateOutcome
GateOutcome-discrete = hlevel ℕ_discrete

pub record GateResult : Type 0 where
  pub gate : ValidationGate
  pub order : ℕ
  pub outcome : GateOutcome
  pub detail : Str
  pub evaluated_by : Str
  pub evaluated_at : Time

pub record ValidationVerdict : Type 0 where
  pub results : List GateResult
  pub decision : GateOutcome
  pub reason : Str

unfoldable pub publishable : ValidationVerdict → Bool
publishable v = eqb GateOutcome-discrete v.decision passed

-- `is_eligible` is SourceEligible and `minimum_confidence` is ConfidenceThreshold: gates have those
-- names here.
pub record ValidationContext (Float : Type 0) : Type 0 where
  pub now : Time
  pub product_resolved : Bool
  pub product_ambiguous : Bool
  pub resolved_product_id : Str
  pub source_health : SourceHealth
  pub is_eligible : Bool
  pub source_quality : QualityClass
  pub source_official : Bool
  pub duplicate_release_id : Str
  pub previous_version : VersionString
  pub evidence_present : Bool
  pub minimum_confidence : Float
  pub applicability_known : Bool
  pub conflicting_source_versions : List Str
  pub outranked_source_versions : List Str
  pub future_date_tolerance : Duration
  pub earliest_plausible_date : Time

-- A gate with the outcome and the detail that its branch passes to `record`.
pub record Ruling : Type 0 where
  pub rules : ValidationGate
  pub gives : GateOutcome
  pub says : Str

abbrev pub ruling : ValidationGate → GateOutcome → Str → Ruling
ruling g o d = record { rules = g; gives = o; says = d }
