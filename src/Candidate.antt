-- ===== src/Candidate.antt =====
-- internal/domain/candidate.go: the candidate release, its state machine, its checks and the key
-- by which repeated observations are recognised. SHA-256 in hexadecimal, cut to 16 bytes, is the
-- parameter `digest`.
pub mod Lifecycle
pub mod Path
use native.Mathlib.Decide.{ℕ_discrete}
use firmscout.Base.{
  Bool, true, false, not, ◌||◌, ◌&&◌, List, [], ◌∷◌, any, is_empty, Option, none, some,
  if◌then◌else◌,
}
use firmscout.Base.Int.{pos}
use firmscout.Base.Text.{Str, text, Unicode, is_blank, lower, trim_space, join}
use firmscout.Base.Go.{
  Time, eqb, FloatOps, Error, invalid, invalid_transition, Result, ok, err, first_error,
}
use firmscout.Version.{VersionString, is_zero_version}
use firmscout.Date.{PartialDate, precision, valid_date_precision}
use firmscout.ReleaseType.{ReleaseType, valid_release_type}

pub data CandidateState : Type 0 where
  discovered extracted normalized validation_pending validated : CandidateState
  human_review_required rejected published superseded : CandidateState
  unlisted : Str → CandidateState

unfoldable pub CandidateState-discrete : Discrete CandidateState
CandidateState-discrete = hlevel ℕ_discrete

-- `string(state)`
abbrev pub state_name : CandidateState → Str
state_name discovered = text "discovered"
state_name extracted = text "extracted"
state_name normalized = text "normalized"
state_name validation_pending = text "validation_pending"
state_name validated = text "validated"
state_name human_review_required = text "human_review_required"
state_name rejected = text "rejected"
state_name published = text "published"
state_name superseded = text "superseded"
state_name (unlisted s) = s

-- candidateTransitions
unfoldable pub candidate_transitions : CandidateState → List CandidateState
candidate_transitions discovered = extracted ∷ rejected ∷ []
candidate_transitions extracted = normalized ∷ rejected ∷ human_review_required ∷ []
candidate_transitions normalized = validation_pending ∷ rejected ∷ human_review_required ∷ []
candidate_transitions validation_pending = validated ∷ rejected ∷ human_review_required ∷ []
candidate_transitions validated = published ∷ rejected ∷ human_review_required ∷ []
candidate_transitions human_review_required = validated ∷ rejected ∷ published ∷ []
candidate_transitions rejected = human_review_required ∷ []
candidate_transitions published = superseded ∷ []
candidate_transitions superseded = []
candidate_transitions (unlisted s) = []

unfoldable pub valid_candidate_state : CandidateState → Bool
valid_candidate_state (unlisted s) = false
valid_candidate_state _ = true

-- CandidateState.CanTransitionTo and Terminal
unfoldable pub can_move : CandidateState → CandidateState → Bool
unfolding candidate_transitions CandidateState-discrete
can_move s next =
    any (λ allowed. eqb CandidateState-discrete allowed next) (candidate_transitions s)

unfoldable pub terminal : CandidateState → Bool
unfolding candidate_transitions
terminal s = is_empty (candidate_transitions s)

pub data ProductMatchStatus : Type 0 where
  unresolved unique ambiguous no_match : ProductMatchStatus
  unlisted : Str → ProductMatchStatus

pub record Applicability : Type 0 where
  pub hardware_revision : Str
  pub region : Str
  pub channel : Str
  pub deployment_mode : Str
  pub note : Str

pub record CandidateRelease (Float : Type 0) : Type 0 where
  pub id : Str
  pub source_id : Str
  pub collector_run_id : Str
  pub evidence_id : Str
  pub product_id : Str
  pub product_family_id : Str
  pub product_match_hint : Str
  pub product_match_status : ProductMatchStatus
  pub version : VersionString
  pub release_type : ReleaseType
  pub proposed_release_type : ReleaseType
  pub applicability : Applicability
  pub release_date : PartialDate
  pub publication_date : PartialDate
  pub release_notes_url : Str
  pub confidence : Float
  pub dedupe_key : Str
  pub state : CandidateState
  pub rejection_reason : Str
  pub published_release_id : Str
  pub discovered_at : Time
  pub updated_at : Time

-- `t == ""`
abbrev no_type : ReleaseType → Bool
no_type (package.firmscout.ReleaseType.unlisted []) = true
no_type _ = false

module _ {Float : Type 0} ⦃F : FloatOps Float⦄ (u : Unicode) where
  -- CandidateRelease.Validate: the first failing check, or none
  unfoldable pub validate_candidate : CandidateRelease Float → Option Error
  unfolding first_error is_blank is_zero_version valid_release_type valid_date_precision
      valid_candidate_state
  validate_candidate c = first_error (
      (is_blank u c.source_id, invalid "candidate.source_id" "must be set")
      ∷ (is_zero_version c.version, invalid "candidate.version" "must not be empty")
      ∷ (
        not (no_type c.release_type) && not (valid_release_type c.release_type),
        invalid "candidate.release_type" "is not a known release type",
      )
      ∷ (
        not (valid_date_precision (precision c.release_date)),
        invalid "candidate.release_date_precision" "unknown precision",
      )
      ∷ (
        F.lt c.confidence (F.of_int (pos 0)) || F.lt (F.of_int (pos 1)) c.confidence,
        invalid "candidate.confidence" "must be between 0 and 1",
      )
      ∷ (
        not (valid_candidate_state c.state),
        invalid "candidate.state" "is not a known candidate state",
      )
      ∷ (is_blank u c.dedupe_key, invalid "candidate.dedupe_key" "must be set")
      ∷ [])

module _ {Float : Type 0} where
  -- CandidateRelease.TransitionTo
  unfoldable pub transition_to :
      CandidateRelease Float → CandidateState → Result (CandidateRelease Float)
  transition_to c next =
      if not (valid_candidate_state next)
      then err (invalid "candidate.state" "is not a known candidate state")
      else if eqb CandidateState-discrete c.state next
      then ok c
      else if not (can_move c.state next)
      then err (invalid_transition "candidate_release")
      else ok (record c { state = next })

-- ComputeDedupeKey
unfoldable pub compute_dedupe_key :
    Unicode → (Str → Str) → Str → VersionString → Applicability → Str
unfolding lower trim_space join
compute_dedupe_key u digest hint v app = digest (
    join (0x1f ∷ []) (
      lower u (trim_space u hint)
      ∷ v.normalized
      ∷ lower u (trim_space u app.channel)
      ∷ lower u (trim_space u app.hardware_revision)
      ∷ lower u (trim_space u app.region)
      ∷ lower u (trim_space u app.deployment_mode)
      ∷ []))
