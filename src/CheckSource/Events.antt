-- ===== src/CheckSource/Events.antt =====
-- internal/application/checksource.go: emitEvents.
use firmscout.Base.{List, [], ◌∷◌, if◌then◌else◌}
use firmscout.Base.Text.{Str, text}
use firmscout.Base.Go.{Time}
use firmscout.Source.{
  CheckOutcome, changed, unchanged, unavailable, parser_failed, manual_review_required,
  ChangeSignal, section_hash, SourceHealth, Source,
}
use firmscout.Event.{
  Event, new_event, with, source_checked, source_changed, source_unchanged, source_failed,
  source_broken,
}
use firmscout.CheckSource.Ports.{SourceCheck}
use firmscout.CheckSource.Outcome.{is_broken}

unfoldable pub outcome_name : CheckOutcome → Str
outcome_name unchanged = text "unchanged"
outcome_name changed = text "changed"
outcome_name unavailable = text "unavailable"
outcome_name CheckOutcome.unauthorized = text "unauthorized"
outcome_name CheckOutcome.rate_limited = text "rate_limited"
outcome_name CheckOutcome.redirected = text "redirected"
outcome_name parser_failed = text "parser_failed"
outcome_name CheckOutcome.suspicious_content = text "suspicious_content"
outcome_name manual_review_required = text "manual_review_required"
outcome_name (CheckOutcome.unlisted s) = s

unfoldable pub signal_name : ChangeSignal → Str
signal_name ChangeSignal.webhook = text "webhook"
signal_name ChangeSignal.feed = text "feed"
signal_name ChangeSignal.api_cursor = text "api_cursor"
signal_name ChangeSignal.etag = text "etag"
signal_name ChangeSignal.last_modified = text "last_modified"
signal_name ChangeSignal.conditional_get = text "conditional_get"
signal_name ChangeSignal.sitemap_lastmod = text "sitemap_lastmod"
signal_name section_hash = text "section_hash"
signal_name ChangeSignal.content_hash = text "content_hash"
signal_name ChangeSignal.full_compare = text "full_compare"
signal_name (ChangeSignal.unlisted s) = s

-- The events of emitEvents after the first.
unfoldable pub outcome_events : CheckOutcome → SourceHealth → Time → Str → List Event
outcome_events changed health now id = new_event source_changed now (text "source") id ∷ []
outcome_events unchanged health now id = new_event source_unchanged now (text "source") id ∷ []
outcome_events o health now id =
    with (new_event source_failed now (text "source") id) (text "outcome") (outcome_name o)
    ∷ (if is_broken health then new_event source_broken now (text "source") id ∷ [] else [])

module _ {Float : Type 0} where
  unfoldable pub emitted_events : Source Float → SourceCheck → Time → List Event
  emitted_events s check now =
      with
        (with (new_event source_checked now (text "source") s.id) (text "outcome")
          (outcome_name check.outcome))
        (text "change_signal") (signal_name check.change_signal)
      ∷ outcome_events check.outcome s.health now s.id
