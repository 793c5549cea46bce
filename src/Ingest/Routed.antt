-- ===== src/Ingest/Routed.antt =====
-- internal/application/ingest.go: reconcileConflict and routeToReview send no event, ask for no
-- job and set nothing of the result.
use firmscout.Base.{refl, Option, none, some}
use firmscout.Base.Text.{Str, Unicode}
use firmscout.Base.Go.{Result, ok, err, FloatOps}
use firmscout.Source.{Source}
use firmscout.Candidate.{CandidateRelease}
use firmscout.Gates.{ValidationVerdict}
use firmscout.Ingest.{IngestPorts, ReviewItem, refresh_summary}
use firmscout.Ingest.Session.{Session, call}
use firmscout.Ingest.Context.{ValidateResult, ConflictAssessment}
use firmscout.Ingest.Reconcile.{
  ConflictOutcome, summary, forgive, open_or_refresh, close_conflict, reconcile_conflict,
}
use firmscout.Ingest.Route.{
  open_for_subject, link, release_loaded, release_superseded, choose_target, open_review_item_for,
  linked_or_subject, file_or_update, route_to_review,
}
use firmscout.Ingest.Steady.{Same, Steady, steady_rules, call-Steady}

module _ {Float : Type 0} (u : Unicode) (P : IngestPorts Float) where
  forgive-Same :
      (s : Session Float ValidateResult) (r : Result (Unit {0}) × Session Float ValidateResult)
      → Same s r.1
      → Same s (forgive u P r).1
  forgive-Same s (ok a, t) h = h
  forgive-Same s (err e, t) h = h

  summary-Steady : (id : Str) → Steady (summary u P id)
  summary-Steady id = record {
    keeps = λ s.
        forgive-Same s (call P (refresh_summary id) s)
          ((call-Steady P (refresh_summary id) refl).keeps s);
  }

  open_or_refresh-Steady : (a : ConflictAssessment) → Steady (open_or_refresh u P a)
  unfolding open_or_refresh
  open_or_refresh-Steady a = search (steady_rules, summary-Steady) depth 20

  close_conflict-Steady : (a : ConflictAssessment) → Steady (close_conflict u P a)
  unfolding close_conflict
  close_conflict-Steady a = search (steady_rules, summary-Steady) depth 20

  pub reconcile_conflict-Steady : (a : ConflictAssessment) → Steady (reconcile_conflict u P a)
  unfolding reconcile_conflict
  reconcile_conflict-Steady a = search (steady_rules, open_or_refresh-Steady, close_conflict-Steady)

module _ {Float : Type 0} ⦃F : FloatOps Float⦄ (u : Unicode) (P : IngestPorts Float) where
  release_loaded-Steady :
      (id item_id : Str) (c : Option (CandidateRelease Float))
      → Steady (release_loaded u P id item_id c)
  release_loaded-Steady id item_id none = search steady_rules
  release_loaded-Steady id item_id (some c) = search steady_rules depth 20

  release_superseded-Steady : (id item_id : Str) → Steady (release_superseded u P id item_id)
  unfolding release_superseded
  release_superseded-Steady id item_id = search (steady_rules, release_loaded-Steady) depth 20

  open_for_subject-Steady : (desired : ReviewItem) → Steady (open_for_subject u P desired)
  open_for_subject-Steady desired = search steady_rules depth 20

  linked_or_subject-Steady :
      (desired : ReviewItem) (o : Option ReviewItem) → Steady (linked_or_subject u P desired o)
  linked_or_subject-Steady desired none = open_for_subject-Steady desired
  linked_or_subject-Steady desired (some item) =
      search (steady_rules, open_for_subject-Steady) depth 20

  open_review_item_for-Steady :
      (outcome : ConflictOutcome) (desired : ReviewItem)
      → Steady (open_review_item_for u P outcome desired)
  unfolding open_review_item_for
  open_review_item_for-Steady outcome desired =
      search (steady_rules, open_for_subject-Steady, linked_or_subject-Steady) depth 20

  choose_target-Steady :
      (existing desired : ReviewItem) (c : CandidateRelease Float) (a : ConflictAssessment)
      → Steady (choose_target u P existing desired c a)
  unfolding choose_target
  choose_target-Steady existing desired c a =
      search (steady_rules, open_for_subject-Steady) depth 20

  link-Steady : (outcome : ConflictOutcome) (id : Str) → Steady (link u P outcome id)
  link-Steady outcome id = search steady_rules depth 20

  file_or_update-Steady :
      (o : Option ReviewItem) (desired : ReviewItem) (c : CandidateRelease Float)
      (a : ConflictAssessment) (outcome : ConflictOutcome)
      → Steady (file_or_update u P o desired c a outcome)
  file_or_update-Steady none desired c a outcome = search (steady_rules, link-Steady) depth 20
  file_or_update-Steady (some existing) desired c a outcome =
      search (steady_rules, link-Steady, choose_target-Steady, release_superseded-Steady) depth 30

  pub route_to_review-Steady :
      (c : CandidateRelease Float) (src : Source Float) (v : ValidationVerdict)
      (a : ConflictAssessment) (outcome : ConflictOutcome)
      → Steady (route_to_review u P c src v a outcome)
  unfolding route_to_review
  route_to_review-Steady c src v a outcome =
      search (steady_rules, open_review_item_for-Steady, file_or_update-Steady) depth 20
