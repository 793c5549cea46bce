-- ===== src/Conflict.antt =====
-- internal/domain/conflict.go: what one source claims against the others. sort.Strings is an insertion sort by code points, whose order is the one of UTF-8.
pub mod Row
pub mod SortedSet
pub mod Assess
pub mod Order
pub mod Later
use native.Mathlib.Decide.{ℕ_discrete}
use firmscout.Base.{
  ℕ, Bool, true, false, not, ◌||◌, ◌&&◌, List, [], ◌∷◌, ◌++◌, is_empty, if◌then◌else◌, any, ltb,
  ◌==◌, length, Option, none, some,
}
use firmscout.Base.Text.{Str, text, Unicode, is_blank, join, str_eq}
use firmscout.Base.Go.{Time, is_zero, before, eqb, Error, invalid, Result, ok, err, first_error}
use firmscout.Source.{QualityClass, authority, valid_quality_class}
use firmscout.Date.{PartialDate, known, date_before, precision, valid_date_precision}

pub data ConflictState : Type 0 where
  open_conflict resolved : ConflictState
  unlisted : Str → ConflictState

unfoldable pub valid_conflict_state : ConflictState → Bool
valid_conflict_state (unlisted s) = false
valid_conflict_state _ = true

pub record SourceObservation : Type 0 where
  pub source_id : Str
  pub product_id : Str
  pub channel : Str
  pub raw_version : Str
  pub normalized_version : Str
  pub release_date : PartialDate
  pub candidate_id : Str
  pub evidence_id : Str
  pub observed_at : Time
  pub first_observed_at : Time
  pub quality_class : QualityClass
  pub official : Bool
  pub eligible : Bool

-- `q == ""`
abbrev no_class : QualityClass → Bool
no_class (QualityClass.unlisted []) = true
no_class _ = false

-- SourceObservation.Validate
unfoldable pub validate_observation : Unicode → SourceObservation → Option Error
unfolding first_error
validate_observation u o = first_error (
    (is_blank u o.source_id, invalid "source_observation.source_id" "must be set")
    ∷ (
      is_blank u o.product_id,
      invalid "source_observation.product_id"
          "an observation attributed to no product is not evidence of anything",
    )
    ∷ (is_blank u o.raw_version, invalid "source_observation.raw_version" "must not be empty")
    ∷ (
      is_blank u o.normalized_version,
      invalid "source_observation.normalized_version" "must not be blank",
    )
    ∷ (
      not (no_class o.quality_class) && not (valid_quality_class o.quality_class),
      invalid "source_observation.quality_class" "is not a known quality class",
    )
    ∷ (
      not (valid_date_precision (precision o.release_date)),
      invalid "source_observation.release_date_precision" "unknown precision",
    )
    ∷ (
      is_zero o.observed_at,
      invalid "source_observation.observed_at" "must record when the claim was seen",
    )
    ∷ [])

-- LaterObservation
unfoldable pub later_observation : SourceObservation → SourceObservation → Bool
later_observation a b =
    let a_known = known a.release_date in
    let b_known = known b.release_date in
    if a_known && not b_known
    then true
    else if not a_known && b_known
    then false
    else if a_known && b_known && date_before b.release_date a.release_date
    then true
    else if a_known && b_known && date_before a.release_date b.release_date
    then false
    else before b.observed_at a.observed_at

-- `<` on strings
unfoldable pub str_lt : Str → Str → Bool
str_lt s [] = false
str_lt [] (b ∷ t) = true
str_lt (a ∷ s) (b ∷ t) = ltb a b || ((a == b) && str_lt s t)

unfoldable pub insert : Str → List Str → List Str
unfolding str_lt
insert s [] = s ∷ []
insert s (x ∷ xs) = let later = insert s xs in if str_lt s x then s ∷ x ∷ xs else x ∷ later

unfoldable pub sort : List Str → List Str
unfolding insert
sort [] = []
sort (s ∷ xs) = insert s (sort xs)

abbrev pub elem : Str → List Str → Bool
elem s xs = any (λ x. str_eq x s) xs

-- The loop of sortedSet with the keys of its map `seen`
unfoldable pub distinct : Unicode → List Str → List Str → List Str
distinct u seen [] = []
distinct u seen (s ∷ xs) =
    let skipped = distinct u seen xs in
    let rest = distinct u (s ∷ seen) xs in if is_blank u s || elem s seen then skipped else s ∷ rest

unfoldable pub sorted_set : Unicode → List Str → List Str
unfolding sort distinct
sorted_set u xs = sort (distinct u [] xs)

unfoldable pub merge_participants : Unicode → Str → List Str → List Str
unfolding sorted_set
merge_participants u own others = sorted_set u (own ∷ others)

pub data ConflictStatus : Type 0 where
  no_conflict outranked unresolved : ConflictStatus

pub record ConflictVerdict : Type 0 where
  pub status : ConflictStatus
  pub conflicting_versions : List Str
  pub conflicting_source_ids : List Str
  pub outranked_versions : List Str
  pub outranked_source_ids : List Str
  pub authority_rank : ℕ
  pub reason : Str

-- The guards of the loop: whether another source's claim counts against the subject's.
unfoldable pub dissents : Unicode → SourceObservation → SourceObservation → Bool
dissents u subject o =
    if not o.eligible
    then false
    else if is_empty o.source_id || str_eq o.source_id subject.source_id
    then false
    else if is_blank u o.normalized_version
    then false
    else not (str_eq o.normalized_version subject.normalized_version)

-- The body of the loop after its guards
abbrev count : SourceObservation → ConflictVerdict → SourceObservation → ConflictVerdict
count subject v o =
    let r = authority o.quality_class in
    if ltb r (authority subject.quality_class)
    then record v {
      outranked_versions = v.outranked_versions ++ o.normalized_version ∷ [];
      outranked_source_ids = v.outranked_source_ids ++ o.source_id ∷ [];
    }
    else record v {
      conflicting_versions = v.conflicting_versions ++ o.normalized_version ∷ [];
      conflicting_source_ids = v.conflicting_source_ids ++ o.source_id ∷ [];
      authority_rank = if ltb v.authority_rank r then r else v.authority_rank;
    }

unfoldable pub assess_loop :
    Unicode → SourceObservation → List SourceObservation → ConflictVerdict → ConflictVerdict
unfolding dissents
assess_loop u subject [] v = v
assess_loop u subject (o ∷ os) v =
    let skipped = assess_loop u subject os v in
    let counted = assess_loop u subject os (count subject v o) in
    if dissents u subject o then counted else skipped

abbrev pub nothing_counted : ConflictVerdict
nothing_counted = record {
  status = no_conflict;
  conflicting_versions = [];
  conflicting_source_ids = [];
  outranked_versions = [];
  outranked_source_ids = [];
  authority_rank = 0;
  reason = [];
}

-- The sets, and then the status
unfoldable pub sort_sets : Unicode → ConflictVerdict → ConflictVerdict
sort_sets u v = record v {
  conflicting_versions = sorted_set u v.conflicting_versions;
  conflicting_source_ids = sorted_set u v.conflicting_source_ids;
  outranked_versions = sorted_set u v.outranked_versions;
  outranked_source_ids = sorted_set u v.outranked_source_ids;
}

unfoldable pub conclude : SourceObservation → ConflictVerdict → ConflictVerdict
conclude subject v =
    if not (is_empty v.conflicting_versions)
    then record v {
      status = unresolved;
      reason =
          text "sources FirmScout does not outrank report "
          ++ (join (text ", ") v.conflicting_versions
              ++ (text " where this source reports " ++ subject.normalized_version));
    }
    else if not (is_empty v.outranked_versions)
    then record v {
      status = outranked;
      reason =
          text "lower-authority sources report "
          ++ (join (text ", ") v.outranked_versions
              ++ (text "; the higher-authority value "
                  ++ (subject.normalized_version ++ text " stands")));
    }
    else record v {
      status = no_conflict;
      reason = text "no eligible source reports a different version";
    }

-- AssessSourceConflict
unfoldable pub assess_source_conflict :
    Unicode → SourceObservation → List SourceObservation → ConflictVerdict
unfolding assess_loop sort_sets conclude
assess_source_conflict u subject others =
    conclude subject (sort_sets u (assess_loop u subject others nothing_counted))
