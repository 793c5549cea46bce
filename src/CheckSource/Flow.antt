-- ===== src/CheckSource/Flow.antt =====
-- internal/application/checksource.go: what Execute examines, and what it does not read.
use firmscout.Base.{◌≡◌, refl}
use firmscout.Base.Text.{Str}
use firmscout.Base.Go.{Duration, FloatOps}
use firmscout.Source.{Source}
use firmscout.CheckSource.Ports.{FetchRequest, Ports}
use firmscout.CheckSource.Content.{
  Examined, fetch_request, fetched_check, examine, compare_content, store_content,
}
use firmscout.CheckSource.Execute.{
  check_source, execute, extraction_job, request_extraction, record_and_emit, save_state,
}

module _ {Float : Type 0} ⦃F : FloatOps Float⦄ where
  abbrev pub examined : Ports Float → Source Float → Examined Float
  examined P s = let (res, fetch_error) = P.fetch (fetch_request P s) in examine P s res fetch_error

  -- The Retry-After that the fetcher reports changes nothing: neither the calls that Execute
  -- makes, the state that it saves among them, nor its result.
  pub execute_ignores_retry_after :
      (P : Ports Float) (id : Str) (wait : FetchRequest → Duration)
      → let Q = record P {
        fetch = λ r. (record (P.fetch r).0 { retry_after = wait r }, (P.fetch r).1);
      } in
        execute Q id ≡ execute P id
  unfolding execute check_source save_state record_and_emit request_extraction extraction_job
      fetch_request examine compare_content store_content fetched_check
  execute_ignores_retry_after P id wait = refl
