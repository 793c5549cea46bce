-- ===== src/Evidence.antt =====
-- internal/domain/evidence.go: the provenance of a fact, its checks, and the cut of an excerpt. The
-- bytes of a cut that are no whole code point are dropped by the code one at a time; here the
-- code points are taken while they fit.
pub mod Excerpt
use firmscout.Base.{
  ℕ, ◌+◌, ◌-◌, Bool, true, false, not, ◌&&◌, ◌||◌, List, [], ◌∷◌, ◌++◌, is_empty, Option, none,
  some, if◌then◌else◌, ltb, leb,
}
use firmscout.Base.Int.{pos}
use firmscout.Base.Text.{Str, text, Unicode, is_blank, trim_space, byte_len, rune_len}
use firmscout.Base.Go.{Time, is_zero, FloatOps, Error, invalid, first_error}
use firmscout.Source.{SourceType}

pub data DiscoveryMethod : Type 0 where
  deterministic ai_assisted manual community : DiscoveryMethod
  unlisted : Str → DiscoveryMethod

unfoldable pub valid_discovery_method : DiscoveryMethod → Bool
valid_discovery_method (unlisted s) = false
valid_discovery_method _ = true

abbrev pub is_ai_assisted : DiscoveryMethod → Bool
is_ai_assisted ai_assisted = true
is_ai_assisted _ = false

pub record Evidence (Float : Type 0) : Type 0 where
  pub id : Str
  pub source_id : Str
  pub source_url : Str
  pub source_type : SourceType
  pub official : Bool
  pub retrieved_at : Time
  pub artifact_id : Str
  pub content_hash : Str
  pub excerpt : Str
  pub raw_value : Str
  pub normalized_value : Str
  pub collector_id : Str
  pub collector_version : Str
  pub discovery_method : DiscoveryMethod
  pub ai_model_id : Str
  pub ai_prompt_version : Str
  pub confidence : Float
  pub created_at : Time

abbrev pub max_excerpt_length : ℕ
max_excerpt_length = 4000

module _ {Float : Type 0} ⦃F : FloatOps Float⦄ (u : Unicode) where
  -- Evidence.Validate: the first failing check, or none
  unfoldable pub validate_evidence : Evidence Float → Option Error
  unfolding first_error
  validate_evidence e = first_error (
      (is_blank u e.source_url, invalid "evidence.source_url" "must not be empty")
      ∷ (is_zero e.retrieved_at, invalid "evidence.retrieved_at" "must be set")
      ∷ (
        is_blank u e.excerpt,
        invalid "evidence.excerpt"
            "must not be empty; a fact without a quotable source is not evidence",
      )
      ∷ (
        ltb max_excerpt_length (byte_len e.excerpt),
        invalid "evidence.excerpt" "exceeds the maximum excerpt length",
      )
      ∷ (
        not (valid_discovery_method e.discovery_method),
        invalid "evidence.discovery_method" "is not a known discovery method",
      )
      ∷ (
        is_ai_assisted e.discovery_method && is_blank u e.ai_model_id,
        invalid "evidence.ai_model_id" "required when the discovery method is ai_assisted",
      )
      ∷ (
        is_ai_assisted e.discovery_method && is_blank u e.ai_prompt_version,
        invalid "evidence.ai_prompt_version" "required when the discovery method is ai_assisted",
      )
      ∷ (
        F.lt e.confidence (F.of_int (pos 0)) || F.lt (F.of_int (pos 1)) e.confidence,
        invalid "evidence.confidence" "must be between 0 and 1",
      )
      ∷ [])

-- The longest run of whole code points within a number of bytes
unfoldable pub take_bytes : ℕ → Str → Str
take_bytes budget [] = []
take_bytes budget (c ∷ s) =
    let rest = take_bytes (budget - rune_len c) s in
    if leb (rune_len c) budget then c ∷ rest else []

abbrev pub ellipsis : Str
ellipsis = 0x2026 ∷ []

unfoldable pub truncate_excerpt : Unicode → Str → Str
unfolding take_bytes
truncate_excerpt u s =
    let trimmed = trim_space u s in
    if leb (byte_len trimmed) max_excerpt_length
    then trimmed
    else take_bytes (max_excerpt_length - byte_len ellipsis) trimmed ++ ellipsis
