-- ===== src/CheckSource/Execute.antt =====
-- internal/application/checksource.go: Execute, from the compliance rule to the extraction job.
use firmscout.Base.{true, not, ◌&&◌, List, [], ◌∷◌, ◌++◌, none, some, if◌then◌else◌, is_empty}
use firmscout.Base.Text.{Str, text}
use firmscout.Base.Go.{FloatOps, not_permitted, ok, err}
use firmscout.Source.{
  CheckOutcome, manual_review_required, ChangeSignal, Source, compliance_permits_collection,
}
use firmscout.CheckSource.Ports.{
  SourceCheck, Job, CheckSourceResult, Effect, fetched, updated_state, recorded_check, published,
  enqueued, Ports, Run,
}
use firmscout.CheckSource.Outcome.{is_changed, empty_result, apply_outcome}
use firmscout.CheckSource.Content.{fetch_request, examine}
use firmscout.CheckSource.Events.{emitted_events}

module _ {Float : Type 0} where
  unfoldable pub extraction_job : Ports Float → Source Float → SourceCheck → Job
  extraction_job P s check = record {
    id = P.new_id (text "job");
    kind = text "extraction.requested";
    idempotency_key = text "extract:" ++ (s.id ++ (text ":" ++ check.normalized_content_hash));
    payload =
        (text "source_id", s.id)
        ∷ (text "artifact_id", check.artifact_id)
        ∷ (text "check_id", check.id)
        ∷ [];
    run_after = P.now;
  }

  -- the calls of a phase, then the rest of the run
  abbrev pub after : List (Effect Float) → Run Float → Run Float
  after calls r = record r { log = calls ++ r.log }

  -- The end of Execute: extraction is asked for if there is an artifact to extract from.
  unfoldable pub request_extraction :
      Ports Float → Source Float → SourceCheck → CheckSourceResult → Run Float
  request_extraction P s check out =
      let job = extraction_job P s check in
      if is_changed check.outcome && not (is_empty check.artifact_id)
      then elim (P.enqueue job) [
        | some e ↦ record { result = out; error = some e; log = enqueued job ∷ [] }
        | none ↦ record {
          result = record out { extraction_enqueued = true; outcome = check.outcome };
          error = none;
          log = enqueued job ∷ [];
        }
      ]
      else record { result = record out { outcome = check.outcome }; error = none; log = [] }

  unfoldable pub record_and_emit :
      Ports Float → Source Float → SourceCheck → CheckSourceResult → Run Float
  record_and_emit P s check out =
      let events = emitted_events s check P.now in
      elim (P.record_check check) [
        | some e ↦ record { result = out; error = some e; log = recorded_check check ∷ [] }
        | none ↦ elim (P.publish events) [
          | some e ↦ record {
            result = out;
            error = some e;
            log = recorded_check check ∷ published events ∷ [];
          }
          | none ↦
              after (recorded_check check ∷ published events ∷ [])
                (request_extraction P s check out)
        ]
      ]

module _ {Float : Type 0} ⦃F : FloatOps Float⦄ where
  unfoldable pub save_state :
      Ports Float → Source Float → SourceCheck → CheckSourceResult → Run Float
  save_state P s check out =
      let t = apply_outcome P.policy check P.now s in
      elim (P.update_check_state t) [
        | some e ↦ record { result = out; error = some e; log = updated_state t ∷ [] }
        | none ↦
            after (updated_state t ∷ [])
              (record_and_emit P t check (record out { next_check_at = t.next_check_at }))
      ]

  -- Execute once the source is loaded. GetByID returns the source of the identifier asked for, so
  -- the identifier in the result of a refusal is the source's own.
  unfoldable pub check_source : Ports Float → Source Float → Run Float
  check_source P s =
      if not (compliance_permits_collection s)
      then record {
        result =
            empty_result s.id manual_review_required (ChangeSignal.unlisted [])
              (text "compliance status does not permit collection");
        error = some not_permitted;
        log = [];
      }
      else (let request = fetch_request P s in
          let (res, fetch_error) = P.fetch request in
          let x = examine P s res fetch_error in
          elim x.error [
            | some e ↦ record { result = x.result; error = some e; log = fetched request ∷ x.calls }
            | none ↦ after (fetched request ∷ x.calls) (save_state P s x.check x.result)
          ])

  -- CheckSource.Execute
  unfoldable pub execute : Ports Float → Str → Run Float
  execute P id = elim (P.get_source id) [
    | err e ↦ record {
      result = empty_result [] (CheckOutcome.unlisted []) (ChangeSignal.unlisted []) [];
      error = some e;
      log = [];
    }
    | ok s ↦ check_source P s
  ]
