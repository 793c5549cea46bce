-- ===== src/Examples/Pipeline.antt =====
-- Examples of the ingestion use cases: an extraction, a validation, a publication, a decision.
use firmscout.Base.{◌*◌, ◌≡◌, ◌⊎◌, refl, true, false, List, [], ◌∷◌, ◌++◌, none, some, Option}
use firmscout.Base.Int.{ℤ, pos}
use firmscout.Base.Text.{str_eq, is_blank, text, ascii, decimal}
use firmscout.Base.Go.{hour, Error, not_found, port_failed, ok, err}
use firmscout.Event.{attribute}
use firmscout.Candidate.{
  CandidateRelease, valid_candidate_state, CandidateState-discrete, can_move, transition_to,
  CandidateState, discovered, extracted, validated, human_review_required,
}
use firmscout.Date.{unknown_date}
use firmscout.Ingest.{Effect, record_audit, IngestPorts, Collector, ReviewItem}
use firmscout.Ingest.Session.{within, fresh_session}
use firmscout.ReleaseType.{valid_release_type}
use firmscout.Release.{validate_release, validate_mapping, eligible_for_latest}
use firmscout.Ingest.Publish.{
  no_publication, publish_release, release_of, becomes_latest, mapping_of, publish_writes,
}
use firmscout.Ingest.Published.{Nothing, Publication, publish_release-Publication}
use firmscout.Ingest.Extract.{no_extraction, record_extracted}
use firmscout.Ingest.Extracted.{Counted, Traced}
use firmscout.Ingest.ExtractedAll.{record_extracted-Traced}
use firmscout.Ingest.Validate.{no_validation, validate_candidate_job}
use firmscout.Ingest.Validated
use firmscout.Ingest.Validated.{validate_candidate_job-log}
use firmscout.Ingest.Decide.{ReviewDecisionInput, no_decision, reject, decide, is_closed}
use firmscout.Ingest.Decided
use firmscout.Ingest.Decided.{decide-log}
use firmscout.Ingest.Premature.{Premature, decide-Undone}
use firmscout.Examples.Numbers.{whole}
use firmscout.Examples.Sources.{page}
use firmscout.Examples.Catalogue.{candidate_in}
use firmscout.Source.{Source, compliance_permits_collection}
use firmscout.Gates.Run.{run_validation_gates}
use firmscout.Ingest.Reconcile.{reconcile_conflict}
use firmscout.Conflict.{validate_observation}
use firmscout.Version.{is_zero_version}
use firmscout.Candidate.Path.{path_to}
use firmscout.Source.{valid_quality_class}
use firmscout.Date.{known}
use firmscout.Ingest.Context.{build_context}
use firmscout.Date.{valid_date_precision}

abbrev item : ReviewItem
item = record {
  id = text "r";
  kind = text "candidate_low_confidence";
  subject_type = text "candidate_release";
  subject_id = text "c";
  vendor_id = text "mikrotik";
  product_id = text "routeros";
  title = [];
  detail = [];
  payload = [];
  priority_score = 0;
  sla_class = text "low";
  state = text "open";
  created_at = 0;
}

abbrev collector : Collector ℤ
collector = record {
  id = text "html";
  version = text "1";
  extract = λ src artifact. ok (candidate_in discovered ∷ []);
}

-- Ports with a candidate in a state, a commit that may fail and answers to the writes.
abbrev ports : CandidateState → Option Error → (Effect ℤ → Option Error) → IngestPorts ℤ
ports state commit answer = record {
  now = 18_000_000 * hour;
  new_id = λ prefix n. prefix ++ decimal n;
  get_candidate = λ log id. ok (candidate_in state);
  get_source = λ id. ok (page id 40);
  get_product = λ id. err not_found;
  resolve_by_alias = λ vendor hint. ok [];
  find_duplicate = λ product version channel. ok [];
  latest_for_product = λ log product channel. err not_found;
  observations_for_product = λ product channel. ok [];
  get_review_item = λ log id. ok item;
  find_open_by_subject = λ log type id. err not_found;
  collector_for = λ src. ok collector;
  read_artifact = λ id. ok (text "7.2");
  upserted_candidate = λ log c. ok (c.id, true);
  upserted_conflict = λ log c. ok (c.id, [], true);
  closed_conflict = λ log product channel how. ok false;
  answer = λ log e. answer e;
  publish = λ es. none;
  error_text = λ e. [];
  begin = none;
  commit = λ log. commit;
  has_conflicts = true;
  has_releases = true;
  threshold = pos 1;
  future_date_tolerance = pos (48 * hour);
  earliest_plausible_date = 0;
}

abbrev no_error : Effect ℤ → Option Error
no_error e = none

abbrev no_audit : Effect ℤ → Option Error
no_audit (record_audit a) = some (port_failed "audit")
no_audit _ = none

abbrev lost : Error
lost = port_failed "commit"

abbrev input : ReviewDecisionInput
input = record {
  item_id = text "r";
  actor = text "ada";
  is_authenticated = false;
  reason = text "checked";
  request_id = [];
  trace_id = [];
}

publish_release-Publication_example :
    Nothing ascii (ports validated none no_error) (text "c") (fresh_session no_publication) (
      publish_release ascii
        (ports validated none no_error)
        (text "c")
        (fresh_session no_publication))
    ⊎ Publication ascii (ports validated none no_error) (text "c") (fresh_session no_publication) (
        publish_release ascii
          (ports validated none no_error)
          (text "c")
          (fresh_session no_publication))
publish_release-Publication_example =
    publish_release-Publication ascii (ports validated none no_error) (text "c")
      (fresh_session no_publication) refl

record_extracted-Traced_example :
    Counted
      (record_extracted ascii
        (λ s. s)
        (ports discovered none no_error)
        (page (text "a") 40)
        collector
        (text "f")
        (ok (candidate_in discovered ∷ []))
        (fresh_session no_extraction)).1.out
    × ((w : List (Effect ℤ)) × ((record_extracted ascii
            (λ s. s)
            (ports discovered none no_error)
            (page (text "a") 40)
            collector
            (text "f")
            (ok (candidate_in discovered ∷ []))
            (fresh_session no_extraction)).1.log
          ≡ [] ++ w)
        × Traced ascii w)
record_extracted-Traced_example =
    record_extracted-Traced ascii (λ s. s) (ports discovered none no_error) (page (text "a") 40)
      collector (text "f") (ok (candidate_in discovered ∷ [])) (fresh_session no_extraction) refl

decide-log_example :
    ((decide ascii
        (ports human_review_required none no_audit)
        5
        input
        reject
        (fresh_session no_decision)).1.log
      ≡ [])
    ⊎ ((i : ReviewItem) × ((ports human_review_required none no_audit).get_review_item [] (text "r")
          ≡ ok i)
        × (is_closed i ≡ false)
        × Decided.Announcing ascii
            (ports human_review_required none no_audit)
            5
            input
            reject
            (port_failed "audit")
            i
            (fresh_session no_decision)
            (decide ascii
              (ports human_review_required none no_audit)
              5
              input
              reject
              (fresh_session no_decision)).1.log)
unfolding decide text is_blank str_eq transition_to within valid_candidate_state
    CandidateState-discrete can_move attribute
decide-log_example =
    decide-log ascii (ports human_review_required none no_audit) 5 input reject
      (fresh_session no_decision) (port_failed "audit") refl refl

decide-Undone_example :
    Premature ascii
      (ports human_review_required (some lost) no_error)
      5
      input
      item
      (fresh_session no_decision)
unfolding is_blank text str_eq publish_release compliance_permits_collection validate_release
    release_of is_zero_version valid_release_type becomes_latest eligible_for_latest
    validate_mapping mapping_of decimal within publish_writes
decide-Undone_example =
    decide-Undone ascii (ports human_review_required (some lost) no_error) 5 input item
      (fresh_session no_decision) refl refl (λ w. (lost, refl)) refl refl refl refl refl refl refl
      refl

-- The same ports with a candidate without a release date
abbrev plain_ports : Option Error → IngestPorts ℤ
plain_ports commit = record (ports extracted commit no_error) {
  get_candidate = λ log id. ok (record (candidate_in extracted) { release_date = unknown_date });
}

validate_candidate_job-log_example :
    ((validate_candidate_job ascii
        (plain_ports (some lost))
        (text "c")
        (fresh_session no_validation)).1.announced
      ≡ [])
    × (((validate_candidate_job ascii
            (plain_ports (some lost))
            (text "c")
            (fresh_session no_validation)).1.log
          ≡ [])
        ⊎ ((c : CandidateRelease ℤ) × (src : Source ℤ) × ((plain_ports (some lost)).get_candidate []
                (text "c")
              ≡ ok c)
            × ((plain_ports (some lost)).get_source c.source_id ≡ ok src)
            × Validated.Announcing ascii
                (plain_ports (some lost))
                lost
                c
                src
                (fresh_session no_validation)
                (validate_candidate_job ascii
                  (plain_ports (some lost))
                  (text "c")
                  (fresh_session no_validation)).1.log))
unfolding validate_candidate_job text CandidateState-discrete compliance_permits_collection
    run_validation_gates reconcile_conflict transition_to can_move validate_observation
    valid_candidate_state is_zero_version path_to is_blank valid_quality_class known build_context
    valid_date_precision within
validate_candidate_job-log_example =
    validate_candidate_job-log ascii (plain_ports (some lost)) (text "c")
      (fresh_session no_validation) lost refl refl
