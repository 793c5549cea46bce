-- ===== src/CheckSource/Extraction.antt =====
-- When a check asks for extraction, and the check whose monitored section did not change.
use firmscout.Base.{◌+◌, ◌≡◌, refl, inr, true, false, [], ◌∷◌, none, is_empty, arith}
use firmscout.Base.Text.{Str}
use firmscout.Base.Go.{FloatOps}
use firmscout.Source.{Source, compliance_permits_collection, unchanged}
use firmscout.CheckSource.Ports.{
  CheckSourceResult, SourceCheck, fetched, updated_state, recorded_check, published, Ports,
}
use firmscout.CheckSource.Outcome.{is_changed, apply_outcome}
use firmscout.CheckSource.Content.{
  fetch_request, fetched_check, examine, compare_content, is_same_hash,
}
use firmscout.CheckSource.Events.{emitted_events}
use firmscout.CheckSource.Execute.{check_source, request_extraction, record_and_emit, save_state}
use firmscout.CheckSource.State.{apply_outcome_unchanged}
use firmscout.CheckSource.Flow.{examined}

module _ {Float : Type 0} ⦃F : FloatOps Float⦄ where
  save_clean :
      (P : Ports Float) (s : Source Float) (c : SourceCheck) (out : CheckSourceResult)
      → let t = apply_outcome P.policy c P.now s in
        c.outcome ≡ unchanged
        → P.update_check_state t ≡ none
        → P.record_check c ≡ none
        → P.publish (emitted_events t c P.now) ≡ none
        → (save_state P s c out).log
          ≡ updated_state t ∷ recorded_check c ∷ published (emitted_events t c P.now) ∷ []
  unfolding save_state record_and_emit request_extraction
  save_clean P s c out o u r p = ground arith

  same_section :
      (P : Ports Float) (s : Source Float) (hash : Str)
      → let res = (P.fetch (fetch_request P s)).0 in
        (P.fetch (fetch_request P s)).1 ≡ none
        → is_changed res.outcome ≡ true
        → is_empty res.body ≡ false
        → P.normalize res.content_type res.body s.normalize.section_selector s.normalize.strip
          ≡ inr hash
        → is_same_hash hash s ≡ true
        → let x = examined P s in (x.error ≡ none) × (x.calls ≡ []) × (x.check.outcome ≡ unchanged)
  unfolding examine fetched_check compare_content
  same_section P s hash f c b n h = rw (f, c, b, n, h, compare_content) (refl, refl, refl)

  -- A fetch that reports a change, with a body whose normalised hash is the stored, non-empty one,
  -- counts as an unchanged check of a source that compliance permits: where the ports report no
  -- error, the calls are the fetch, the new state, the check and its events, with nothing stored
  -- and no job; the new state has one more unchanged check, no failure, and the same hash and
  -- time of the last change.
  pub check_source_same_section :
      (P : Ports Float) (s : Source Float) (hash : Str)
      → compliance_permits_collection s ≡ true
      → let res = (P.fetch (fetch_request P s)).0 in
        (P.fetch (fetch_request P s)).1 ≡ none
        → is_changed res.outcome ≡ true
        → is_empty res.body ≡ false
        → P.normalize res.content_type res.body s.normalize.section_selector s.normalize.strip
          ≡ inr hash
        → is_same_hash hash s ≡ true
        → let x = examined P s in
          let t = apply_outcome P.policy x.check P.now s in
          P.update_check_state t ≡ none
          → P.record_check x.check ≡ none
          → P.publish (emitted_events t x.check P.now) ≡ none
          → ((check_source P s).log
              ≡ fetched (fetch_request P s)
                ∷ updated_state t
                ∷ recorded_check x.check
                ∷ published (emitted_events t x.check P.now)
                ∷ [])
            × (x.check.outcome ≡ unchanged)
            × (t.consecutive_unchanged ≡ s.consecutive_unchanged + 1)
            × (t.consecutive_failures ≡ 0)
            × (t.normalized_content_hash ≡ s.normalized_content_hash)
            × (t.last_changed_at ≡ s.last_changed_at)
  unfolding check_source
  check_source_same_section P s hash permitted fetch_ok change body normal same updated recorded
        sent =
      let (no_error, no_calls, same_outcome) =
        same_section P s hash fetch_ok change body normal same in
      let x = examined P s in
      let counted = apply_outcome_unchanged P.policy x.check P.now s same_outcome in
      (
        rw
            (
              permitted,
              no_error,
              no_calls,
              save_clean P s x.check x.result same_outcome updated recorded sent,
            )
            refl,
        same_outcome,
        counted.0,
        counted.1,
        counted.2,
        counted.3,
      )
