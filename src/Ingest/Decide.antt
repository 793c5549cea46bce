-- ===== src/Ingest/Decide.antt =====
-- internal/application/review.go: a reviewer accepts or rejects an item, in one unit of work. The
-- use case that publishes is the one of Ingest.Publish, which joins that unit.
use firmscout.Base.{
  Bool, true, false, not, ◌&&◌, ◌||◌, List, [], ◌∷◌, ◌++◌, is_empty, none, some, if◌then◌else◌,
}
use firmscout.Base.Text.{Str, text, Unicode, is_blank, trim_space, str_eq}
use firmscout.Base.Go.{Time, FloatOps, invalid, conflict, Result, ok, err}
use firmscout.Event.{Event, new_event, with, attribute, review_item_resolved}
use firmscout.Candidate.{CandidateRelease, rejected, transition_to, state_name}
use firmscout.Ingest.{
  IngestPorts, ReviewItem, AuditEvent, resolve_review, update_state, resolve_conflict,
  refresh_summary, record_audit,
}
use firmscout.Ingest.Session.{
  Session, M, ◌>>=◌, ◌>>◌, pure, fail, lift, reads, attempt, branch, nested, set_out, call, draw,
  announce, within,
}
use firmscout.Ingest.Publish.{no_publication, publish_release}

pub record ReviewDecisionInput : Type 0 where
  pub item_id : Str
  pub actor : Str
  pub is_authenticated : Bool
  pub reason : Str
  pub request_id : Str
  pub trace_id : Str

pub record ReviewDecisionResult : Type 0 where
  pub item_id : Str
  pub subject_type : Str
  pub subject_id : Str
  pub decision : Str
  pub release_id : Str
  pub is_published : Bool
  pub conflict_id : Str
  pub decided_at : Time

abbrev pub no_decision : ReviewDecisionResult
no_decision = record {
  item_id = [];
  subject_type = [];
  subject_id = [];
  decision = [];
  release_id = [];
  is_published = false;
  conflict_id = [];
  decided_at = 0;
}

pub data Decision : Type 0 where
  accept reject : Decision

abbrev pub decision_name : Decision → Str
decision_name accept = text "accepted"
decision_name reject = text "rejected"

abbrev pub is_candidate_subject : ReviewItem → Bool
is_candidate_subject item = str_eq item.subject_type (text "candidate_release")

-- `m[key]`, the empty text if it is missing
abbrev pub value_at : Str → List (Str × Str) → Str
value_at key m = elim (attribute key m) [ none ↦ [] | some v ↦ v ]

abbrev pub is_closed : ReviewItem → Bool
is_closed item = str_eq item.state (text "resolved") || str_eq item.state (text "dismissed")

unfoldable pub state_or_open : Unicode → Str → Str
state_or_open u s = if is_blank u s then text "open" else s

unfoldable pub audit_action_for : Decision → Str
audit_action_for accept = text "review.accepted"
audit_action_for reject = text "review.rejected"

module _ {Float : Type 0} where
  abbrev pub known_state : Result (CandidateRelease Float) → Str
  known_state (ok c) = state_name c.state
  known_state (err e) = []

  module _ ⦃F : FloatOps Float⦄ (u : Unicode) (P : IngestPorts Float) (now : Time)
      (input : ReviewDecisionInput) (decision : Decision) where
    abbrev pub resolution : Str
    resolution = decision_name decision ++ (text ": " ++ trim_space u input.reason)

    -- candidateState
    abbrev pub candidate_state : ReviewItem → M Float ReviewDecisionResult Str
    candidate_state item =
        branch (is_candidate_subject item)
          (do r ← attempt (λ log. P.get_candidate log item.subject_id); pure (known_state r))
          (pure [])

    -- What happens to the candidate: the name of its state afterwards
    unfoldable pub decide_candidate : Decision → ReviewItem → M Float ReviewDecisionResult Str
    decide_candidate accept item = do
      r ← nested no_publication (publish_release u P item.subject_id)
      set_out (λ o. record o { release_id = r.1.release_id; is_published = r.1.is_published })
      pure (text "published")
    decide_candidate reject item = do
      c ← reads (λ log. P.get_candidate log item.subject_id)
      d ← lift (transition_to c rejected)
      call P (update_state c.id rejected resolution)
      pure (text "rejected")

    abbrev pub summary_again : Bool → ReviewItem → M Float ReviewDecisionResult (Unit {0})
    summary_again true item = call P (refresh_summary item.product_id)
    summary_again false item = pure tt

    unfoldable pub decide_conflict : ReviewItem → M Float ReviewDecisionResult (Unit {0})
    decide_conflict item =
        let id = value_at (text "conflict_id") item.payload in
        branch (not (is_empty id) && P.has_conflicts)
          (do
            call P (resolve_conflict id resolution input.actor)
            set_out (λ o. record o { conflict_id = id })
            summary_again (P.has_releases && not (is_empty item.product_id)) item)
          (pure tt)

    unfoldable pub audit_of : Str → ReviewItem → Str → Str → Str → AuditEvent
    unfolding state_or_open audit_action_for
    audit_of id item before_state after_state release_id = record {
      id = id;
      actor_type = text "human";
      actor_id = input.actor;
      actor_authenticated = input.is_authenticated;
      action = audit_action_for decision;
      subject_type = text "review_item";
      subject_id = item.id;
      before_state =
          (text "review_state", state_or_open u item.state)
          ∷ (text "candidate_state", before_state)
          ∷ [];
      after_state =
          (text "review_state", text "resolved")
          ∷ (text "candidate_state", after_state)
          ∷ (text "release_id", release_id)
          ∷ [];
      reason = trim_space u input.reason;
      request_id = input.request_id;
      trace_id = input.trace_id;
      occurred_at = now;
    }

    abbrev pub result_so_far : M Float ReviewDecisionResult ReviewDecisionResult
    result_so_far s = (ok s.out, s)

    -- The body of the unit of work
    unfoldable pub decide_writes : ReviewItem → Str → M Float ReviewDecisionResult (Unit {0})
    unfolding decide_candidate decide_conflict audit_of
    decide_writes item before_state = do
      call P (resolve_review item.id resolution input.actor)
      after_state ←
          branch (is_candidate_subject item) (decide_candidate decision item) (pure before_state)
      decide_conflict item
      o ← result_so_far
      id ← draw P (text "aud")
      call P (record_audit (audit_of id item before_state after_state o.release_id))

    unfoldable pub resolved_event : ReviewItem → Event
    unfolding new_event with
    resolved_event item =
        with
          (with (new_event review_item_resolved now (text "review_item") item.id) (text "decision")
            (decision_name decision))
          (text "kind") item.kind

    abbrev pub started : ReviewItem → ReviewDecisionResult
    started item = record {
      item_id = item.id;
      subject_type = item.subject_type;
      subject_id = item.subject_id;
      decision = decision_name decision;
      release_id = [];
      is_published = false;
      conflict_id = [];
      decided_at = now;
    }

    abbrev pub reset :
        Result (Unit {0}) × Session Float ReviewDecisionResult
        → Result (Unit {0}) × Session Float ReviewDecisionResult
    reset (ok a, s) = (ok a, s)
    reset (err e, s) = (err e, record s { out = no_decision })

    -- `return ReviewDecisionResult{}, err`
    abbrev pub or_nothing :
        M Float ReviewDecisionResult (Unit {0}) → M Float ReviewDecisionResult (Unit {0})
    or_nothing m s = reset (m s)

    -- decide, the body of Accept and Reject
    unfoldable pub decide : M Float ReviewDecisionResult (Unit {0})
    unfolding decide_writes resolved_event
    decide = branch (is_blank u input.actor) (fail (invalid "review decision" "needs an actor")) (
        branch (is_blank u input.reason) (fail (invalid "review decision" "needs a reason")) (do
          item ← reads (λ log. P.get_review_item log input.item_id)
          branch (is_closed item) (fail conflict) (do
            set_out (λ o. started item)
            before_state ← candidate_state item
            or_nothing (within P (decide_writes item before_state))
            announce P (resolved_event item ∷ []))))
