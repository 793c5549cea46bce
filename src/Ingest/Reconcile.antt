-- ===== src/Ingest/Reconcile.antt =====
-- internal/application/ingest.go: reconcileConflict and refreshSummary.
use firmscout.Base.{Bool, true, false, not, ◌||◌, List, [], ◌∷◌, is_empty, if◌then◌else◌}
use firmscout.Base.Text.{Str, text, Unicode, join}
use firmscout.Base.Go.{Result, ok, err}
use firmscout.Event.{Event, new_event, with, source_conflict_detected, source_conflict_resolved}
use firmscout.Conflict.{
  open_conflict, ConflictStatus, unresolved, merge_participants, validate_observation,
}
use firmscout.Conflict.Row.{SourceConflict, validate_conflict}
use firmscout.Ingest.{
  IngestPorts, record_observation, upsert_open_conflict, close_open_conflict, refresh_summary,
}
use firmscout.Ingest.Session.{
  Session, M, ◌>>=◌, ◌>>◌, pure, require, asks, branch, later, is_not_found, call, draw,
}
use firmscout.Ingest.Context.{ValidateResult, ConflictAssessment}

pub record ConflictOutcome : Type 0 where
  pub conflict_id : Str
  pub opened : Bool
  pub existing_review_item_id : Str

abbrev pub no_outcome : ConflictOutcome
no_outcome = record { conflict_id = []; opened = false; existing_review_item_id = [] }

abbrev pub is_unresolved : ConflictStatus → Bool
is_unresolved unresolved = true
is_unresolved _ = false

module _ {Float : Type 0} (u : Unicode) (P : IngestPorts Float) where
  -- refreshSummary: a missing row is no error
  abbrev pub forgive :
      Result (Unit {0}) × Session Float ValidateResult
      → Result (Unit {0}) × Session Float ValidateResult
  forgive (ok a, s) = (ok a, s)
  forgive (err e, s) = (if is_not_found e then ok tt else err e, s)

  abbrev pub summary : Str → M Float ValidateResult (Unit {0})
  summary product_id s = forgive (call P (refresh_summary product_id) s)

  unfoldable pub conflict_of : Str → ConflictAssessment → SourceConflict
  unfolding merge_participants
  conflict_of id a = record {
    id = id;
    product_id = a.subject.product_id;
    channel = a.subject.channel;
    state = open_conflict;
    rank = a.assessed.authority_rank;
    versions = merge_participants u a.subject.normalized_version a.assessed.conflicting_versions;
    source_ids = merge_participants u a.subject.source_id a.assessed.conflicting_source_ids;
    review_item_id = [];
    detected_at = P.now;
    last_seen_at = P.now;
    resolved_at = 0;
    resolved_by = [];
    resolution = [];
  }

  unfoldable pub detected_event : SourceConflict → Str → Event
  unfolding new_event with
  detected_event conflict id =
      with
        (with
          (with (new_event source_conflict_detected P.now (text "product") conflict.product_id)
            (text "channel") conflict.channel)
          (text "conflict_id") id)
        (text "versions") (join (text ", ") conflict.versions)

  unfoldable pub settled_event : ConflictAssessment → Str → Event
  unfolding new_event with
  settled_event a how =
      with
        (with (new_event source_conflict_resolved P.now (text "product") a.subject.product_id)
          (text "channel") a.subject.channel)
        (text "resolution") how

  abbrev pub record_subject : ConflictAssessment → M Float ValidateResult (Unit {0})
  record_subject a =
      branch a.recordable
        (do require (validate_observation u a.subject); call P (record_observation a.subject))
        (pure tt)

  -- A disagreement: the conflict is opened, or seen again.
  unfoldable pub open_or_refresh : ConflictAssessment → M Float ValidateResult ConflictOutcome
  unfolding conflict_of
  open_or_refresh a = do
    id ← draw P (text "cfl")
    let conflict = conflict_of id a
    require (validate_conflict u conflict)
    r ← asks (upsert_open_conflict conflict) (λ log. P.upserted_conflict log conflict)
    let outcome : ConflictOutcome = record {
      conflict_id = r.0;
      opened = r.2;
      existing_review_item_id = r.1;
    }
    branch (not r.2) (pure outcome)
        (do later (detected_event conflict r.0); summary conflict.product_id; pure outcome)

  abbrev pub how_settled : List Str → Str
  how_settled [] = text "sources agree"
  how_settled (v ∷ vs) = text "resolved by source authority"

  -- No disagreement: an open conflict is closed.
  unfoldable pub close_conflict : ConflictAssessment → M Float ValidateResult ConflictOutcome
  close_conflict a = do
    let how = how_settled a.assessed.outranked_versions
    closed ←
        asks (close_open_conflict a.subject.product_id a.subject.channel how)
          (λ log. P.closed_conflict log a.subject.product_id a.subject.channel how)
    branch (not closed) (pure no_outcome)
        (do later (settled_event a how); summary a.subject.product_id; pure no_outcome)

  unfoldable pub reconcile_conflict : ConflictAssessment → M Float ValidateResult ConflictOutcome
  unfolding open_or_refresh close_conflict
  reconcile_conflict a =
      branch (not P.has_conflicts || is_empty a.subject.product_id) (pure no_outcome) (do
        record_subject a
        branch (not a.subject.eligible) (pure no_outcome)
            (branch (is_unresolved a.assessed.status) (open_or_refresh a) (close_conflict a)))
