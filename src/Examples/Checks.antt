-- ===== src/Examples/Checks.antt =====
-- Examples of checks: a source whose page has changed, one whose page has not, and outages.
use firmscout.Base.{
  ◌+◌, ◌*◌, ◌≡◌, inl, inr, refl, true, false, List, [], ◌∷◌, length, arith, none, is_empty, leb,
  if◌then◌else◌,
}
use firmscout.Base.Int.{ℤ, pos}
use firmscout.Base.Text.{str_eq, text, Str}
use firmscout.Base.Go.{Time, second, hour, ok}
use firmscout.Source.{
  Source, changed, unchanged, unavailable, broken, degraded, full_compare, dispatchable,
  compliance_permits_collection, broken_failure_threshold,
}
use firmscout.CheckSource.Ports.{
  FetchResult, SourceCheck, Job, Ports, fetched, updated_state, recorded_check, published,
}
use firmscout.CheckSource.Outcome.{apply_outcome}
use firmscout.CheckSource.Content.{
  fetched_check, store_content, compare_content, examine, fetch_request, is_same_hash,
}
use firmscout.CheckSource.Events.{emitted_events}
use firmscout.CheckSource.Execute.{check_source, execute, extraction_job}
use firmscout.CheckSource.Flow.{examined, execute_ignores_retry_after}
use firmscout.CheckSource.Fetches.{OneFetch, execute_fetches}
use firmscout.CheckSource.Extraction.{check_source_same_section}
use firmscout.CheckSource.Outages.{run_checks, run_checks_failing}
use firmscout.CheckSource.Politeness.{apply_outcome_spacing}
use firmscout.Examples.Numbers.{whole, whole-FractionLaw}
use firmscout.Examples.Sources.{page, example_policy, example_policy-IsSpacing}

abbrev fetched_page : FetchResult
fetched_page = record {
  outcome = changed;
  change_signal = full_compare;
  status_code = pos 200;
  etag = text "e2";
  last_modified = [];
  content_type = text "text/html";
  body = text "7.1";
  bytes_read = pos 3;
  redirect_location = [];
  off_registered_host = false;
  retry_after = pos 0;
}

-- Ports that answer every call without an error; the page's hash is `hash`.
abbrev ports : Str → Ports ℤ
ports hash = record {
  now = 2000 * hour;
  finished = 2000 * hour + 5;
  get_source = λ id. ok (page id 40);
  fetch = λ r. (fetched_page, none);
  normalize = λ content_type body selector strip. inr hash;
  digest = λ body. hash;
  put_artifact = λ content_type body hash. ok (text "artifact-1", true);
  update_check_state = λ s. none;
  record_check = λ c. none;
  publish = λ events. none;
  enqueue = λ j. none;
  new_id = λ prefix. prefix;
  policy = example_policy;
  user_agent = text "FirmScout";
  max_bytes = pos 1000;
  timeout = pos (30 * second);
}

abbrev example_page : Source ℤ
example_page = page (text "a") 40

execute_fetches_example :
    (s : Source ℤ) × ((ports (text "h2")).get_source (text "a") ≡ ok s)
    × (compliance_permits_collection s ≡ true)
    × OneFetch (fetch_request (ports (text "h2")) s) (execute (ports (text "h2")) (text "a")).log
unfolding execute check_source examine compare_content store_content fetched_check is_same_hash text
    str_eq compliance_permits_collection
execute_fetches_example =
    execute_fetches (ports (text "h2")) (text "a")
      (fetched (fetch_request (ports (text "h2")) example_page)) (inl refl)

execute_ignores_retry_after_example :
    execute
      record (ports (text "h2")) {
        fetch = λ r. (record fetched_page { retry_after = pos (9 * hour) }, none);
      }
      (text "a")
    ≡ execute (ports (text "h2")) (text "a")
execute_ignores_retry_after_example =
    execute_ignores_retry_after (ports (text "h2")) (text "a") (λ r. pos (9 * hour))

abbrev example_job : Job
example_job =
    extraction_job (ports (text "h2"))
      (apply_outcome example_policy (examined (ports (text "h2")) example_page).check (2000 * hour)
        example_page)
      (examined (ports (text "h2")) example_page).check

abbrev failing_check : SourceCheck
failing_check = record {
  id = text "check";
  source_id = text "a";
  started_at = 0;
  finished_at = 1;
  outcome = unavailable;
  change_signal = full_compare;
  http_status = pos 503;
  response_etag = [];
  response_last_modified = [];
  redirect_location = [];
  normalized_content_hash = [];
  artifact_id = [];
  bytes_fetched = pos 0;
  error_message = [];
}

abbrev two_failures : List (SourceCheck × Time)
two_failures = (failing_check, 50) ∷ (failing_check, 60) ∷ []

run_checks_failing_example :
    let t = run_checks example_policy two_failures example_page in
    let n = 0 + length two_failures in
    (t.consecutive_failures ≡ n)
    × (t.health ≡ (if leb broken_failure_threshold n then broken else degraded))
run_checks_failing_example =
    run_checks_failing example_policy (failing_check, 50) ((failing_check, 60) ∷ []) example_page
      refl (refl, (refl, tt))

apply_outcome_spacing_example :
    dispatchable
      (apply_outcome example_policy failing_check (2000 * hour) example_page)
      (2000 * hour + 1)
    ≡ false
apply_outcome_spacing_example =
    apply_outcome_spacing whole-FractionLaw example_policy failing_check (2000 * hour)
      (2000 * hour + 1) example_page example_policy-IsSpacing (omega arith)

no_change : is_same_hash (text "h1") example_page ≡ true
unfolding is_same_hash text str_eq
no_change = refl

has_body : is_empty (text "7.1") ≡ false
unfolding text
has_body = refl

permitted : compliance_permits_collection example_page ≡ true
unfolding compliance_permits_collection
permitted = refl

check_source_same_section_example :
    let P = ports (text "h1") in
    let x = examined P example_page in
    let t = apply_outcome P.policy x.check P.now example_page in
    ((check_source P example_page).log
      ≡ fetched (fetch_request P example_page)
        ∷ updated_state t
        ∷ recorded_check x.check
        ∷ published (emitted_events t x.check P.now)
        ∷ [])
    × (x.check.outcome ≡ unchanged)
    × (t.consecutive_unchanged ≡ 0 + 1)
    × (t.consecutive_failures ≡ 0)
    × (t.normalized_content_hash ≡ text "h1")
    × (t.last_changed_at ≡ 0)
check_source_same_section_example =
    check_source_same_section (ports (text "h1")) example_page (text "h1") permitted refl refl
      has_body refl no_change refl refl refl
