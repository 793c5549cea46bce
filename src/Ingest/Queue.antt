-- ===== src/Ingest/Queue.antt =====
-- internal/application/ingest.go: the parts of routeToReview that call no port: the kind and the
-- payload of a review item, whether its subject is still in dispute, and how it is updated.
use firmscout.Base.{
  Bool, true, false, not, ◌||◌, List, [], ◌∷◌, ◌++◌, is_empty, Option, none, some, if◌then◌else◌,
}
use firmscout.Base.Text.{Str, text, Unicode, join, str_eq}
use firmscout.Base.Go.{Result, ok, err}
use firmscout.Candidate.{CandidateRelease}
use firmscout.Gates.{
  GateResult, GateOutcome, review_required, ValidationGate, product_identity, version_transition,
  multi_source_agreement, ValidationVerdict, gate_name,
}
use firmscout.Conflict.{SourceObservation, merge_participants}
use firmscout.Ingest.{ReviewItem}
use firmscout.Ingest.Session.{is_not_found}
use firmscout.Ingest.Context.{ConflictAssessment}
use firmscout.Ingest.Reconcile.{ConflictOutcome}

abbrev pub asks_review : GateOutcome → Bool
asks_review review_required = true
asks_review _ = false

abbrev pub asks_or_rejects : GateOutcome → Bool
asks_or_rejects review_required = true
asks_or_rejects GateOutcome.rejected = true
asks_or_rejects _ = false

abbrev kind_of_gate : ValidationGate → Str
kind_of_gate product_identity = text "product_match_ambiguous"
kind_of_gate version_transition = text "candidate_implausible_transition"
kind_of_gate multi_source_agreement = text "multi_source_conflict"
kind_of_gate _ = text "candidate_low_confidence"

-- reviewKindFor, over the results
unfoldable pub review_kind_for : List GateResult → Str
review_kind_for [] = text "candidate_low_confidence"
review_kind_for (r ∷ rs) =
    let later_kind = review_kind_for rs in
    if asks_review r.outcome then kind_of_gate r.gate else later_kind

-- failingGate, over the results; the empty name for none
unfoldable pub failing_gate : List GateResult → ValidationGate
failing_gate [] = ValidationGate.unlisted []
failing_gate (r ∷ rs) =
    let later_gate = failing_gate rs in if asks_or_rejects r.outcome then r.gate else later_gate

-- The loop of disputingCandidateIDs
unfoldable pub disputing_ids : Str → List SourceObservation → List Str
disputing_ids source_id [] = []
disputing_ids source_id (o ∷ os) =
    let rest = disputing_ids source_id os in
    if str_eq o.source_id source_id || not o.eligible then rest else o.candidate_id ∷ rest

unfoldable pub disputing_candidate_ids : Unicode → ConflictAssessment → List Str
unfolding disputing_ids merge_participants
disputing_candidate_ids u a =
    merge_participants u a.subject.candidate_id (disputing_ids a.subject.source_id a.observations)

abbrev entry_unless_empty : Str → Str → List (Str × Str)
entry_unless_empty key [] = []
entry_unless_empty key (c ∷ v) = (key, c ∷ v) ∷ []

abbrev candidates_entry : List Str → List (Str × Str)
candidates_entry [] = []
candidates_entry (id ∷ ids) = (text "conflict_candidates", join (text ",") (id ∷ ids)) ∷ []

-- reviewPayload
unfoldable pub review_payload :
    Unicode → ValidationVerdict → ConflictOutcome → ConflictAssessment → List (Str × Str)
unfolding failing_gate disputing_candidate_ids
review_payload u v outcome a =
    entry_unless_empty (text "failing_gate") (gate_name (failing_gate v.results))
    ++ (if is_empty outcome.conflict_id
        then []
        else (text "conflict_id", outcome.conflict_id)
          ∷ (
            text "conflict_versions",
            join (text ",")
                (merge_participants u a.subject.normalized_version a.assessed.conflicting_versions),
          )
          ∷ (
            text "conflict_sources",
            join (text ",")
                (merge_participants u a.subject.source_id a.assessed.conflicting_source_ids),
          )
          ∷ candidates_entry (disputing_candidate_ids u a))

abbrev pub is_candidate_item : ReviewItem → Bool
is_candidate_item item = str_eq item.subject_type (text "candidate_release")

-- The loop of stillInDispute
unfoldable pub names_claim : Str → Str → List SourceObservation → Bool
names_claim source_id subject_id [] = false
names_claim source_id subject_id (o ∷ os) =
    let rest = names_claim source_id subject_id os in
    if str_eq o.source_id source_id || not o.eligible || is_empty o.candidate_id
    then rest
    else if str_eq o.candidate_id subject_id
    then true
    else rest

unfoldable pub still_in_dispute :
    {Float : Type 0} → ReviewItem → ReviewItem → CandidateRelease Float → ConflictAssessment → Bool
unfolding names_claim
still_in_dispute item desired c a =
    if not (is_candidate_item item)
    then not (is_candidate_item desired)
    else if str_eq item.subject_id c.id
    then true
    else names_claim c.source_id item.subject_id a.observations

-- The fields that follow the desired item; `repoint` is what is done where the subject moves.
abbrev pub describe : ReviewItem → ReviewItem → ReviewItem
describe existing desired = record existing {
  vendor_id = desired.vendor_id;
  product_id = desired.product_id;
  detail = desired.detail;
  payload = desired.payload;
  priority_score = desired.priority_score;
  sla_class = desired.sla_class;
}

abbrev pub repoint : ReviewItem → ReviewItem → ReviewItem
repoint existing desired = record existing {
  kind = desired.kind;
  subject_type = desired.subject_type;
  subject_id = desired.subject_id;
  title = desired.title;
}

-- The item to keep, and the candidate that it no longer names
pub record Target : Type 0 where
  pub target_item : ReviewItem
  pub superseded : Str

abbrev pub target : ReviewItem → Str → Target
target item s = record { target_item = item; superseded = s }

abbrev pub waits : ReviewItem → Bool
waits item = str_eq item.state (text "open") || str_eq item.state (text "in_progress")

abbrev pub optional : {A : Type 0} → Result A → Result (Option A)
optional (ok a) = ok (some a)
optional (err e) = if is_not_found e then ok none else err e
