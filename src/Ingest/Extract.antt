-- ===== src/Ingest/Extract.antt =====
-- internal/application/ingest.go: ExtractCandidates.Execute. The collector is a parameter that gives
-- candidates or an error; the SHA-256 of a dedupe key is the parameter `digest`.
use firmscout.Base.{
  ℕ, ◌+◌, Bool, true, false, not, List, [], ◌∷◌, ◌++◌, is_empty, length, if◌then◌else◌,
}
use firmscout.Base.Text.{Str, text, Unicode, is_blank}
use firmscout.Base.Go.{Time, FloatOps, Error, Result, ok, err}
use firmscout.Source.{Source}
use firmscout.Event.{Event, new_event, with, candidate_created, collector_failed}
use firmscout.Evidence.{Evidence, deterministic, validate_evidence, truncate_excerpt}
use firmscout.Candidate.{
  CandidateRelease, CandidateState, discovered, extracted, transition_to, validate_candidate,
  compute_dedupe_key,
}
use firmscout.CheckSource.Ports.{Job}
use firmscout.Ingest.{IngestPorts, Artifact, Collector, insert_evidence, upsert_candidate, enqueue}
use firmscout.Ingest.Session.{
  M, ◌>>=◌, ◌>>◌, pure, fail, lift, require, asks, dropping, set_out, call, draw, announce,
}

pub record ExtractResult : Type 0 where
  pub source_id : Str
  pub collector_id : Str
  pub extracted_count : ℕ
  pub new_candidates : ℕ
  pub duplicates : ℕ
  pub candidate_ids : List Str

abbrev pub no_extraction : ExtractResult
no_extraction = record {
  source_id = [];
  collector_id = [];
  extracted_count = 0;
  new_candidates = 0;
  duplicates = 0;
  candidate_ids = [];
}

-- firstNonEmpty of two values
unfoldable pub first_non_empty : Unicode → Str → Str → Str
first_non_empty u a b = if not (is_blank u a) then a else if not (is_blank u b) then b else []

-- `c.State == ""`
abbrev pub initial_state : CandidateState → CandidateState
initial_state (CandidateState.unlisted []) = discovered
initial_state s = s

module _ {Float : Type 0} (u : Unicode) where
  -- The evidence of a candidate: a richer excerpt comes in its evidence_id.
  unfoldable pub evidence_of :
      Str → Time → Source Float → Collector Float → Str → CandidateRelease Float → Evidence Float
  unfolding first_non_empty
  evidence_of id now src collector artifact_id c = record {
    id = id;
    source_id = src.id;
    source_url = src.url;
    source_type = src.source_type;
    official = src.official;
    retrieved_at = now;
    artifact_id = artifact_id;
    content_hash = [];
    excerpt =
        if not (is_empty c.evidence_id)
        then truncate_excerpt u c.evidence_id
        else truncate_excerpt u (first_non_empty u c.product_match_hint c.version.raw);
    raw_value = c.version.raw;
    normalized_value = c.version.normalized;
    collector_id = collector.id;
    collector_version = collector.version;
    discovery_method = deterministic;
    ai_model_id = [];
    ai_prompt_version = [];
    confidence = c.confidence;
    created_at = now;
  }

  -- The candidate as it is stored, before its transition
  unfoldable pub prepared :
      (Str → Str)
      → Str
      → Str
      → Time
      → Source Float
      → CandidateRelease Float
      → CandidateRelease Float
  prepared digest id evidence_id now src c = record c {
    id = id;
    source_id = src.id;
    evidence_id = evidence_id;
    discovered_at = now;
    updated_at = now;
    state = initial_state c.state;
    dedupe_key =
        if is_empty c.dedupe_key
        then compute_dedupe_key u digest c.product_match_hint c.version c.applicability
        else c.dedupe_key;
  }

abbrev pub add_id : Str → ExtractResult → ExtractResult
add_id id o = record o { candidate_ids = o.candidate_ids ++ (id ∷ []) }

abbrev pub count_new : ExtractResult → ExtractResult
count_new o = record o { new_candidates = o.new_candidates + 1 }

abbrev pub count_duplicate : ExtractResult → ExtractResult
count_duplicate o = record o { duplicates = o.duplicates + 1 }

unfoldable pub validation_job : Str → Str → Time → Job
validation_job job_id id now = record {
  id = job_id;
  kind = text "validation.requested";
  idempotency_key = text "validate:" ++ id;
  payload = (text "candidate_id", id) ∷ [];
  run_after = now;
}

module _ {Float : Type 0} ⦃F : FloatOps Float⦄ (u : Unicode) (digest : Str → Str)
    (P : IngestPorts Float) where
  unfoldable pub created_event : Source Float → Str → CandidateRelease Float → Event
  unfolding new_event with
  created_event src id c =
      with
        (with (new_event candidate_created P.now (text "candidate") id) (text "source_id") src.id)
        (text "version") c.version.raw

  -- After the upsert
  abbrev pub created_or_not :
      Source Float → CandidateRelease Float → Str → Bool → M Float ExtractResult (Unit {0})
  created_or_not src c id true = do
    set_out count_new
    announce P (created_event src id c ∷ [])
    job_id ← draw P (text "job")
    call P (enqueue (validation_job job_id id P.now))
  created_or_not src c id false = set_out count_duplicate

  abbrev pub store : Source Float → CandidateRelease Float → M Float ExtractResult (Unit {0})
  store src c = do
    r ← asks (upsert_candidate c) (λ log. P.upserted_candidate log c)
    set_out (add_id r.0)
    created_or_not src c r.0 r.1

  -- The body of the loop
  unfoldable pub record_candidate :
      Source Float
      → Collector Float
      → Str
      → CandidateRelease Float
      → M Float ExtractResult (Unit {0})
  record_candidate src collector artifact_id c = do
    evidence_id ← draw P (text "evd")
    let ev = evidence_of u evidence_id P.now src collector artifact_id c
    require (validate_evidence u ev)
    call P (insert_evidence ev)
    id ← draw P (text "cnd")
    c' ← lift (transition_to (prepared u digest id evidence_id P.now src c) extracted)
    require (validate_candidate u c')
    store src c'

  unfoldable pub record_candidates :
      Source Float
      → Collector Float
      → Str
      → List (CandidateRelease Float)
      → M Float ExtractResult (Unit {0})
  record_candidates src collector artifact_id [] = pure tt
  record_candidates src collector artifact_id (c ∷ cs) =
      record_candidate src collector artifact_id c >> record_candidates src collector artifact_id cs

  unfoldable pub failed_event : Source Float → Collector Float → Error → Event
  unfolding new_event with
  failed_event src collector e =
      with
        (with (new_event collector_failed P.now (text "source") src.id) (text "collector_id")
          collector.id)
        (text "error") (P.error_text e)

  abbrev pub record_extracted :
      Source Float
      → Collector Float
      → Str
      → Result (List (CandidateRelease Float))
      → M Float ExtractResult (Unit {0})
  record_extracted src collector artifact_id (err e) = do
    (λ s. dropping (announce P (failed_event src collector e ∷ []) s))
    fail e
  record_extracted src collector artifact_id (ok cs) = do
    set_out (λ o. record o {
      source_id = src.id;
      collector_id = collector.id;
      extracted_count = length cs;
    })
    record_candidates src collector artifact_id cs

  -- ExtractCandidates.Execute
  unfoldable pub extract_candidates : Str → Str → M Float ExtractResult (Unit {0})
  extract_candidates source_id artifact_id = do
    src ← lift (P.get_source source_id)
    collector ← lift (P.collector_for src)
    content ← lift (P.read_artifact artifact_id)
    let artifact : Artifact = record {
      id = artifact_id;
      source_id = src.id;
      content_type = src.expected_content_type;
      body = content;
      retrieved_at = P.now;
      url = src.url;
    }
    record_extracted src collector artifact_id (collector.extract src artifact)
