-- ===== src/Ingest/Publish.antt =====
-- internal/application/ingest.go: PublishRelease.Execute, with effectiveReleaseType and boolString.
use firmscout.Base.{Bool, true, false, not, [], ◌∷◌, ◌++◌, is_empty, none, if◌then◌else◌}
use firmscout.Base.Int.{pos, ltb_ℤ}
use firmscout.Base.Text.{Str, text, Unicode}
use firmscout.Base.Go.{
  Time, is_zero, FloatOps, invalid, invalid_transition, not_permitted, Result, ok, err,
}
use firmscout.Source.{terms_name, robots_name, Source, compliance_permits_collection}
use firmscout.ReleaseType.{type_name, ReleaseType, unknown}
use firmscout.Event.{Event, new_event, with, release_published}
use firmscout.Candidate.{
  CandidateRelease, CandidateState, validated, human_review_required, published,
}
use firmscout.Release.{
  Release, ReleaseProductMapping, validate_release, validate_mapping, eligible_for_latest,
  latest_comparison,
}
use firmscout.Ingest.{
  IngestPorts, clear_latest_flag, insert_release, update_state, set_published_release,
  refresh_summary,
}
use firmscout.Ingest.Session.{
  attempt, branch, M, ◌>>=◌, ◌>>◌, pure, fail, lift, require, reads, set_out, is_not_found, call,
  draw, announce, within,
}

pub record PublishResult : Type 0 where
  pub release_id : Str
  pub published_candidate : Str
  pub published_product : Str
  pub published_version : Str
  pub is_published : Bool
  pub reason : Str

abbrev pub no_publication : PublishResult
no_publication = record {
  release_id = [];
  published_candidate = [];
  published_product = [];
  published_version = [];
  is_published = false;
  reason = [];
}

-- `t != "" && t != domain.ReleaseTypeUnknown`
abbrev is_determined : ReleaseType → Bool
is_determined unknown = false
is_determined (ReleaseType.unlisted []) = false
is_determined _ = true

unfoldable pub effective_release_type : {Float : Type 0} → CandidateRelease Float → ReleaseType
effective_release_type c =
    if is_determined c.release_type
    then c.release_type
    else if is_determined c.proposed_release_type
    then c.proposed_release_type
    else c.release_type

abbrev pub bool_string : Bool → Str
bool_string true = text "true"
bool_string false = text "false"

-- `c.State != validated && c.State != human_review_required`, the other way round
abbrev pub may_publish : CandidateState → Bool
may_publish validated = true
may_publish human_review_required = true
may_publish _ = false

abbrev pub is_published_state : CandidateState → Bool
is_published_state published = true
is_published_state _ = false

module _ {Float : Type 0} where
  unfoldable pub release_of : Str → Source Float → CandidateRelease Float → Time → Release Float
  unfolding effective_release_type
  release_of id src c now = record {
    id = id;
    vendor_id = src.vendor_id;
    version = c.version;
    release_type = effective_release_type c;
    channel = c.applicability.channel;
    release_date = c.release_date;
    publication_date = c.publication_date;
    first_observed_at = if is_zero c.discovered_at then now else c.discovered_at;
    last_verified_at = now;
    published_at = now;
    release_notes_url = c.release_notes_url;
    stable = none;
    recommended = none;
    withdrawn = false;
    withdrawn_at = 0;
    withdrawn_reason = [];
    corrects_release_id = [];
    superseded_by_release_id = [];
    candidate_id = c.id;
    collector_run_id = c.collector_run_id;
    evidence_id = c.evidence_id;
    source_confidence = c.confidence;
    approved_by = [];
    created_at = now;
    provenance = record { url = []; kind = []; is_official = false };
    citation = record { excerpt = []; retrieved_at = 0 };
  }

  unfoldable pub mapping_of :
      Str → Str → CandidateRelease Float → Bool → Time → ReleaseProductMapping
  mapping_of id release_id c latest now = record {
    id = id;
    release_id = release_id;
    product_id = c.product_id;
    product_family_id = [];
    applicability = c.applicability;
    is_latest_observed = latest;
    created_at = now;
  }

  -- The switch that decides IsLatestObserved: the answer of LatestForProduct is read only for a
  -- release that may be the latest.
  abbrev pub compare_latest : Release Float → Result (Release Float) → Result Bool
  compare_latest rel (ok latest) = ok (ltb_ℤ (pos 0) (latest_comparison rel latest))
  compare_latest rel (err e) = if is_not_found e then ok true else err e

  unfoldable pub becomes_latest : Release Float → Result (Release Float) → Result Bool
  becomes_latest rel latest =
      if not (eligible_for_latest rel) then ok false else compare_latest rel latest

  abbrev pub named : CandidateRelease Float → PublishResult → PublishResult
  named c o = record o {
    published_candidate = c.id;
    published_product = c.product_id;
    published_version = c.version.raw;
  }

  module _ ⦃F : FloatOps Float⦄ (u : Unicode) (P : IngestPorts Float) where
    abbrev pub flag_cleared : CandidateRelease Float → Bool → M Float PublishResult (Unit {0})
    flag_cleared c true = call P (clear_latest_flag c.product_id c.applicability.channel)
    flag_cleared c false = pure tt

    -- The writes of the unit of work
    unfoldable pub publish_writes :
        CandidateRelease Float
        → Release Float
        → ReleaseProductMapping
        → M Float PublishResult (Unit {0})
    publish_writes c rel mapping = do
      flag_cleared c mapping.is_latest_observed
      call P (insert_release rel mapping)
      call P (update_state c.id published [])
      call P (set_published_release c.id rel.id)
      call P (refresh_summary c.product_id)

    unfoldable pub published_event : CandidateRelease Float → Release Float → Bool → Event
    unfolding new_event with
    published_event c rel latest =
        with
          (with
            (with
              (with (new_event release_published P.now (text "release") rel.id) (text "product_id")
                c.product_id)
              (text "version") rel.version.raw)
            (text "release_type") (type_name rel.release_type))
          (text "latest") (bool_string latest)

    -- Execute from the compliance gate on
    unfoldable pub publish_from :
        Source Float → CandidateRelease Float → M Float PublishResult (Unit {0})
    publish_from src c = do
      release_id ← draw P (text "rel")
      let rel = release_of release_id src c P.now
      require (validate_release u rel)
      mapping_id ← draw P (text "rpm")
      answer ← attempt (λ log. P.latest_for_product log c.product_id c.applicability.channel)
      latest ← lift (becomes_latest rel answer)
      let mapping = mapping_of mapping_id release_id c latest P.now
      require (validate_mapping u mapping)
      within P (publish_writes c rel mapping)
      announce P (published_event c rel latest ∷ [])
      set_out (λ o. record o { release_id = release_id; is_published = true })

    abbrev pub not_any_more : Source Float → PublishResult → PublishResult
    not_any_more src o = record o {
      reason =
          text "source "
          ++ (src.id
              ++ (text " may no longer be published from: robots policy "
                  ++ (robots_name src.robots_policy_status
                      ++ (text ", terms review " ++ terms_name src.terms_review_status))));
    }

    unfoldable pub publish_loaded : CandidateRelease Float → M Float PublishResult (Unit {0})
    unfolding publish_from
    publish_loaded c =
        branch (is_published_state c.state)
          (set_out (λ o. record o {
            release_id = c.published_release_id;
            is_published = false;
            reason = text "candidate was already published";
          }))
          (branch (not (may_publish c.state)) (fail (invalid_transition "candidate")) (
            branch (is_empty c.product_id) (fail (invalid "candidate" "has no resolved product"))
              (do
                src ← lift (P.get_source c.source_id)
                branch (not (compliance_permits_collection src))
                    (do set_out (not_any_more src); fail not_permitted) (publish_from src c))))

    -- PublishRelease.Execute; the result is the session's `out`
    unfoldable pub publish_release : Str → M Float PublishResult (Unit {0})
    unfolding publish_loaded
    publish_release id = do
      c ← reads (λ log. P.get_candidate log id)
      set_out (named c)
      publish_loaded c
