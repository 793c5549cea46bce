-- ===== src/Ingest/Route.antt =====
-- internal/application/ingest.go: routeToReview and what it calls, from the item that a run would
-- file to the candidate that the queue stops naming.
use firmscout.Base.{
  Bool, true, false, not, ◌||◌, [], ◌++◌, is_empty, Option, none, some, if◌then◌else◌,
}
use firmscout.Base.Text.{Str, text, Unicode, join, str_eq}
use firmscout.Base.Go.{FloatOps, Result, ok, err}
use firmscout.Event.{Event, new_event, with, candidate_rejected}
use firmscout.Source.{Source}
use firmscout.Candidate.{CandidateRelease, CandidateState, human_review_required, transition_to}
use firmscout.Gates.{ValidationVerdict}
use firmscout.Conflict.{merge_participants}
use firmscout.Review.{ReviewSignals, score_review, sla_name}
use firmscout.Ingest.{
  ℤ, IngestPorts, Product, ReviewItem, create_review, retarget_review, link_review_item,
  update_state,
}
use firmscout.Ingest.Session.{M, ◌>>=◌, ◌>>◌, pure, lift, attempt, branch, later, call, draw}
use firmscout.Ingest.Queue.{
  asks_review, review_kind_for, failing_gate, review_payload, is_candidate_item, still_in_dispute,
  describe, repoint, Target, target, waits, optional,
}
use firmscout.Ingest.Publish.{effective_release_type}
use firmscout.Ingest.Context.{ValidateResult, ConflictAssessment}
use firmscout.Ingest.Reconcile.{ConflictOutcome, is_unresolved}

module _ {Float : Type 0} where
  -- reviewSignals, from the answer of Products.GetByID, which is read only for a known product
  unfoldable pub review_signals :
      CandidateRelease Float
      → Source Float
      → ValidationVerdict
      → Bool
      → Result Product
      → ReviewSignals Float
  unfolding failing_gate effective_release_type
  review_signals c src v conflicted answer =
      let facts : Product =
        (if is_empty c.product_id
          then record { popularity_score = ℤ.pos 0; security_critical = false }
          else elim answer [
            | ok p ↦ p
            | err e ↦ record { popularity_score = ℤ.pos 0; security_critical = false }
          ]) in
      record {
        gate = failing_gate v.results;
        source_quality = src.quality_class;
        source_official = src.official;
        confidence = c.confidence;
        product_popularity = facts.popularity_score;
        product_security_critical = facts.security_critical;
        release_type = effective_release_type c;
        conflict_unresolved = conflicted;
      }

  module _ ⦃F : FloatOps Float⦄ (u : Unicode) (P : IngestPorts Float) where
    -- The item for a candidate whose own fate waits for a decision
    unfoldable pub candidate_item :
        CandidateRelease Float
        → Source Float
        → ValidationVerdict
        → ConflictAssessment
        → ConflictOutcome
        → ReviewItem
    unfolding review_signals review_payload review_kind_for score_review
    candidate_item c src v a outcome =
        let priority =
          score_review (
            review_signals c src v (is_unresolved a.assessed.status)
              (P.get_product c.product_id)) in
        record {
          id = [];
          kind = review_kind_for v.results;
          subject_type = text "candidate_release";
          subject_id = c.id;
          vendor_id = src.vendor_id;
          product_id = c.product_id;
          title = text "Candidate " ++ (c.version.raw ++ text " needs review");
          detail = v.reason;
          payload = review_payload u v outcome a;
          priority_score = priority.score;
          sla_class = sla_name priority.sla;
          state = text "open";
          created_at = P.now;
        }

    -- desiredReviewItem
    unfoldable pub desired_review_item :
        CandidateRelease Float
        → Source Float
        → ValidationVerdict
        → ConflictAssessment
        → ConflictOutcome
        → ReviewItem
    unfolding candidate_item
    desired_review_item c src v a outcome =
        if asks_review v.decision
        then candidate_item c src v a outcome
        else record (candidate_item c src v a outcome) {
          kind = text "multi_source_conflict";
          subject_type = text "source_conflict";
          subject_id = outcome.conflict_id;
          title =
              text "Sources disagree about "
              ++ join (text " and ") (
                  merge_participants u a.subject.normalized_version
                    a.assessed.conflicting_versions);
          detail = a.assessed.reason;
        }

    -- openReviewItemForSubject
    abbrev pub open_for_subject : ReviewItem → M Float ValidateResult (Option ReviewItem)
    open_for_subject desired = do
      answer ← attempt (λ log. P.find_open_by_subject log desired.subject_type desired.subject_id)
      lift (optional answer)

    abbrev pub linked_or_subject :
        ReviewItem → Option ReviewItem → M Float ValidateResult (Option ReviewItem)
    linked_or_subject desired none = open_for_subject desired
    linked_or_subject desired (some item) =
        branch (waits item) (pure (some item)) (open_for_subject desired)

    -- openReviewItemFor
    unfoldable pub open_review_item_for :
        ConflictOutcome → ReviewItem → M Float ValidateResult (Option ReviewItem)
    open_review_item_for outcome desired =
        branch (is_empty outcome.existing_review_item_id) (open_for_subject desired) (do
          answer ← attempt (λ log. P.get_review_item log outcome.existing_review_item_id)
          linked ← lift (optional answer)
          linked_or_subject desired linked)

    -- linkReviewItem
    abbrev pub link : ConflictOutcome → Str → M Float ValidateResult (Unit {0})
    link outcome item_id =
        branch (is_empty outcome.conflict_id || str_eq outcome.existing_review_item_id item_id)
          (pure tt) (call P (link_review_item outcome.conflict_id item_id))

    abbrev pub moved_target : ReviewItem → ReviewItem → Target
    moved_target existing desired =
        target (repoint existing desired)
          (if is_candidate_item existing then existing.subject_id else [])

    abbrev pub by_replacement : ReviewItem → ReviewItem → Option ReviewItem → Target
    by_replacement existing desired none = moved_target existing desired
    by_replacement existing desired (some r) =
        if not (str_eq r.id existing.id) then target r [] else moved_target existing desired

    -- Whether the item keeps its subject, moves to the desired one, or gives way to another item
    unfoldable pub choose_target :
        ReviewItem
        → ReviewItem
        → CandidateRelease Float
        → ConflictAssessment
        → M Float ValidateResult Target
    unfolding still_in_dispute
    choose_target existing desired c a =
        branch (still_in_dispute existing desired c a) (pure (target existing [])) (do
          replacement ← open_for_subject desired
          pure (by_replacement existing desired replacement))

    abbrev superseded_reason : Str → Str
    superseded_reason item_id =
        text "its source no longer reports this version; review item "
        ++ (item_id ++ text " now tracks the current disagreement")

    unfoldable pub superseded_event : Str → Str → Event
    unfolding new_event with
    superseded_event candidate_id item_id =
        with (new_event candidate_rejected P.now (text "candidate") candidate_id) (text "reason")
          (superseded_reason item_id)

    abbrev pub waits_for_review : CandidateState → Bool
    waits_for_review human_review_required = true
    waits_for_review _ = false

    abbrev pub release_loaded :
        Str → Str → Option (CandidateRelease Float) → M Float ValidateResult (Unit {0})
    release_loaded candidate_id item_id none = pure tt
    release_loaded candidate_id item_id (some c) =
        branch (not (waits_for_review c.state)) (pure tt) (do
          d ← lift (transition_to c CandidateState.rejected)
          call P (update_state candidate_id CandidateState.rejected (superseded_reason item_id))
          later (superseded_event candidate_id item_id))

    -- releaseSuperseded
    unfoldable pub release_superseded : Str → Str → M Float ValidateResult (Unit {0})
    release_superseded candidate_id item_id = branch (is_empty candidate_id) (pure tt) (do
      answer ← attempt (λ log. P.get_candidate log candidate_id)
      c ← lift (optional answer)
      release_loaded candidate_id item_id c)

    -- A new item
    abbrev pub file_item : ReviewItem → ConflictOutcome → M Float ValidateResult Str
    file_item desired outcome = do
      id ← draw P (text "rev")
      call P (create_review (record desired { id = id }))
      link outcome id
      pure id

    -- The item that is there
    abbrev pub update_item :
        ReviewItem
        → ReviewItem
        → CandidateRelease Float
        → ConflictAssessment
        → ConflictOutcome
        → M Float ValidateResult Str
    update_item existing desired c a outcome = do
      t ← choose_target existing desired c a
      let item = describe t.target_item desired
      call P (retarget_review item)
      link outcome item.id
      release_superseded t.superseded item.id
      pure item.id

    abbrev pub file_or_update :
        Option ReviewItem
        → ReviewItem
        → CandidateRelease Float
        → ConflictAssessment
        → ConflictOutcome
        → M Float ValidateResult Str
    file_or_update none desired c a outcome = file_item desired outcome
    file_or_update (some existing) desired c a outcome = update_item existing desired c a outcome

    -- routeToReview
    unfoldable pub route_to_review :
        CandidateRelease Float
        → Source Float
        → ValidationVerdict
        → ConflictAssessment
        → ConflictOutcome
        → M Float ValidateResult Str
    unfolding desired_review_item open_review_item_for choose_target release_superseded
    route_to_review c src v a outcome = do
      let desired = desired_review_item c src v a outcome
      existing ← open_review_item_for outcome desired
      file_or_update existing desired c a outcome
