-- ===== src/Ingest/Validate.antt =====
-- internal/application/ingest.go: ValidateCandidate.Execute, with `transition` over the port that
-- stores each state.
use firmscout.Base.{true, false, not, ◌&&◌, ◌||◌, List, [], ◌∷◌, ◌++◌, is_empty}
use firmscout.Base.Text.{Str, text, Unicode}
use firmscout.Base.Go.{Time, FloatOps}
use firmscout.Event.{
  Event, new_event, with, candidate_validated, candidate_rejected, human_review_requested,
}
use firmscout.Source.{Source}
use firmscout.Candidate.{
  CandidateRelease, CandidateState, validated, human_review_required, unique, transition_to,
}
use firmscout.Candidate.Path.{path_to}
use firmscout.Gates.{GateOutcome, passed, review_required, ValidationContext, ValidationVerdict}
use firmscout.Gates.Run.{run_validation_gates}
use firmscout.CheckSource.Ports.{Job}
use firmscout.Ingest.{
  IngestPorts, set_resolved_product, record_validation, touch_verified, update_state, enqueue,
}
use firmscout.Ingest.Session.{
  M, ◌>>=◌, ◌>>◌, pure, lift, reads, branch, later, set_out, call, draw, announce, within,
}
use firmscout.Ingest.Context.{ValidateResult, ConflictAssessment, build_context}
use firmscout.Ingest.Reconcile.{ConflictOutcome, reconcile_conflict}
use firmscout.Ingest.Route.{route_to_review}
use firmscout.Ingest.Queue.{asks_review}

abbrev pub no_validation : ValidateResult
no_validation = record {
  candidate_id = [];
  decision = GateOutcome.unlisted [];
  reason = [];
  verdict = record { results = []; decision = GateOutcome.unlisted []; reason = [] };
  publication_enqueued = false;
  review_item_id = [];
  conflict_id = [];
}

-- The three cases of the switch on the decision
pub data Course : Type 0 where
  publish review reject : Course

abbrev pub course_of : GateOutcome → Course
course_of passed = publish
course_of review_required = review
course_of _ = reject

abbrev pub course_state : Course → CandidateState
course_state publish = validated
course_state review = human_review_required
course_state reject = CandidateState.rejected

unfoldable pub publication_job : Str → Str → Time → Job
publication_job job_id id now = record {
  id = job_id;
  kind = text "publication.requested";
  idempotency_key = text "publish:" ++ id;
  payload = (text "candidate_id", id) ∷ [];
  run_after = now;
}

module _ {Float : Type 0} (P : IngestPorts Float) where
  -- transition along the path: the candidate at its end
  unfoldable pub walk_states :
      List CandidateState
      → Str
      → CandidateRelease Float
      → M Float ValidateResult (CandidateRelease Float)
  walk_states [] why c = pure c
  walk_states (step ∷ steps) why c = do
    d ← lift (transition_to c step)
    call P (update_state c.id step why)
    walk_states steps why d

  unfoldable pub course_event : Course → Str → Str → Event
  unfolding new_event with
  course_event publish id why = new_event candidate_validated P.now (text "candidate") id
  course_event review id why =
      with (new_event human_review_requested P.now (text "candidate") id) (text "reason") why
  course_event reject id why =
      with (new_event candidate_rejected P.now (text "candidate") id) (text "reason") why

  abbrev pub course_reason : Course → Str → Str
  course_reason publish why = []
  course_reason review why = why
  course_reason reject why = why

  abbrev pub enqueue_publication : Course → Str → M Float ValidateResult (Unit {0})
  enqueue_publication publish id = do
    job_id ← draw P (text "job")
    call P (enqueue (publication_job job_id id P.now))
    set_out (λ o. record o { publication_enqueued = true })
  enqueue_publication review id = pure tt
  enqueue_publication reject id = pure tt

  -- One case of the switch: the walk, its event if there was a step, and the job of a publication
  unfoldable pub follow_course :
      Course → CandidateRelease Float → Str → M Float ValidateResult (CandidateRelease Float)
  unfolding walk_states course_event publication_job
  follow_course course c why = do
    let steps = path_to c.state (course_state course)
    d ← walk_states steps (course_reason course why) c
    branch (not (is_empty steps)) (later (course_event course c.id why)) (pure tt)
    enqueue_publication course c.id
    pure d

  -- A product that was resolved from the hint is settled on the candidate.
  abbrev pub settle_product :
      ValidationContext Float
      → CandidateRelease Float
      → M Float ValidateResult (CandidateRelease Float)
  settle_product x c =
      branch (is_empty c.product_id && not (is_empty x.resolved_product_id))
        (do
          call P (set_resolved_product c.id x.resolved_product_id)
          pure (record c { product_id = x.resolved_product_id; product_match_status = unique }))
        (pure c)

  abbrev pub refresh_duplicate : ValidationContext Float → M Float ValidateResult (Unit {0})
  refresh_duplicate x =
      branch (not (is_empty x.duplicate_release_id))
        (call P (touch_verified x.duplicate_release_id)) (pure tt)

module _ {Float : Type 0} ⦃F : FloatOps Float⦄ (u : Unicode) (P : IngestPorts Float) where
  abbrev pub route_if_needed :
      CandidateRelease Float
      → Source Float
      → ValidationVerdict
      → ConflictAssessment
      → ConflictOutcome
      → M Float ValidateResult (Unit {0})
  route_if_needed c src v a outcome =
      branch (asks_review v.decision || not (is_empty outcome.conflict_id))
        (do
          item_id ← route_to_review u P c src v a outcome
          set_out (λ o. record o { review_item_id = item_id }))
        (pure tt)

  -- The body of the unit of work
  unfoldable pub validate_writes :
      CandidateRelease Float
      → Source Float
      → ValidationContext Float
      → ConflictAssessment
      → ValidationVerdict
      → M Float ValidateResult (Unit {0})
  unfolding follow_course
  validate_writes c src x a v = do
    c' ← settle_product P x c
    call P (record_validation c'.id v.results)
    outcome ← reconcile_conflict u P a
    set_out (λ o. record o { conflict_id = outcome.conflict_id })
    refresh_duplicate P x
    d ← follow_course P (course_of v.decision) c' v.reason
    route_if_needed d src v a outcome

  -- The events kept back, after the commit
  abbrev pub announce_list : List Event → M Float ValidateResult (Unit {0})
  announce_list [] = pure tt
  announce_list (e ∷ es) = announce P (e ∷ es)

  abbrev pub announce_pending : M Float ValidateResult (Unit {0})
  announce_pending s = announce_list s.pending s

  abbrev pub verdict_result : CandidateRelease Float → ValidationVerdict → ValidateResult
  verdict_result c v = record {
    candidate_id = c.id;
    decision = v.decision;
    reason = v.reason;
    verdict = v;
    publication_enqueued = false;
    review_item_id = [];
    conflict_id = [];
  }

  -- Execute, once the candidate and its source are loaded
  unfoldable pub validate_loaded :
      CandidateRelease Float → Source Float → M Float ValidateResult (Unit {0})
  unfolding validate_writes
  validate_loaded c src = do
    r ← build_context u P c src
    let v = run_validation_gates u c r.0
    set_out (λ o. verdict_result c v)
    within P (validate_writes c src r.0 r.1 v)
    announce_pending

  -- ValidateCandidate.Execute; the result is the session's `out`
  unfoldable pub validate_candidate_job : Str → M Float ValidateResult (Unit {0})
  unfolding validate_loaded
  validate_candidate_job id = do
    c ← reads (λ log. P.get_candidate log id)
    src ← lift (P.get_source c.source_id)
    validate_loaded c src
