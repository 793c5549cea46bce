-- ===== src/CheckSource/Outcome.antt =====
-- internal/application/checksource.go: applyOutcome, the new state of a source after a check.
use firmscout.Base.{zero, suc, ◌*◌, ◌+◌, ◌-◌, Bool, true, false, not, [], if◌then◌else◌, is_empty}
use firmscout.Base.Int.{ℤ, pos, negsuc}
use firmscout.Base.Text.{Str}
use firmscout.Base.Go.{Time, Duration, second, eqb, FloatOps, ok, err}
use firmscout.Source.{
  CheckOutcome, changed, unchanged, ChangeSignal, SourceHealth, broken, SourceHealth-discrete,
  Source, transition_health, health_for_outcome,
}
use firmscout.Schedule.{SchedulingPolicy, ScheduleInput, next_interval}
use firmscout.CheckSource.Ports.{SourceCheck, CheckSourceResult}

-- The zero value of CheckOutcome is the empty string.
abbrev pub is_unset : CheckOutcome → Bool
is_unset (CheckOutcome.unlisted []) = true
is_unset _ = false

abbrev pub is_changed : CheckOutcome → Bool
is_changed changed = true
is_changed _ = false

abbrev pub is_broken : SourceHealth → Bool
is_broken broken = true
is_broken _ = false

-- `time.Duration(n) * time.Second`, without its wrap-around past 292 years
unfoldable pub seconds : ℤ → Duration
seconds (pos n) = pos (n * second)
seconds (negsuc n) = negsuc (suc n * second - 1)

abbrev pub empty_result : Str → CheckOutcome → ChangeSignal → Str → CheckSourceResult
empty_result id outcome signal reason = record {
  source_id = id;
  outcome = outcome;
  change_signal = signal;
  artifact_id = [];
  content_hash = [];
  next_check_at = zero;
  reason = reason;
  extraction_enqueued = false;
}

module _ {Float : Type 0} where
  -- The counters and change-detection fields, by the outcome: the switch of applyOutcome.
  unfoldable pub count_outcome : CheckOutcome → SourceCheck → Time → Source Float → Source Float
  count_outcome unchanged check now s = record s {
    consecutive_unchanged = s.consecutive_unchanged + 1;
    consecutive_failures = 0;
    last_success_at = now;
    etag = if is_empty check.response_etag then s.etag else check.response_etag;
    last_modified_value =
        if is_empty check.response_last_modified
        then s.last_modified_value
        else check.response_last_modified;
  }
  count_outcome changed check now s = record s {
    consecutive_unchanged = 0;
    consecutive_failures = 0;
    last_success_at = now;
    last_changed_at = now;
    etag = check.response_etag;
    last_modified_value = check.response_last_modified;
    normalized_content_hash =
        if is_empty check.normalized_content_hash
        then s.normalized_content_hash
        else check.normalized_content_hash;
  }
  count_outcome _ check now s = record s { consecutive_failures = s.consecutive_failures + 1 }

  -- `_ = src.TransitionHealth(nextHealth)`: an edge that does not exist leaves the source
  unfoldable pub try_transition : Source Float → SourceHealth → Source Float
  try_transition s next = elim (transition_health s next) [ ok t ↦ t | err e ↦ s ]

  unfoldable pub move_health : CheckOutcome → Source Float → Source Float
  unfolding try_transition
  move_health o s =
      let next = health_for_outcome s.health o s.consecutive_failures in
      if not (eqb SourceHealth-discrete next s.health) then try_transition s next else s

module _ {Float : Type 0} ⦃F : FloatOps Float⦄ where
  abbrev pub schedule_input :
      SchedulingPolicy Float → CheckOutcome → Time → Source Float → ScheduleInput Float
  schedule_input policy o now s = record {
    policy = policy;
    now = now;
    outcome = o;
    health = s.health;
    consecutive_unchanged = s.consecutive_unchanged;
    consecutive_failures = s.consecutive_failures;
    last_changed_at = s.last_changed_at;
    product_end_of_life = false;
    security_critical = false;
    popular = false;
    freshness_floor = pos zero;
    retry_after = pos zero;
    configured_interval = seconds s.check_frequency_seconds;
  }

  -- applyOutcome, up to its call of UpdateCheckState
  unfoldable pub apply_outcome :
      SchedulingPolicy Float → SourceCheck → Time → Source Float → Source Float
  unfolding count_outcome move_health
  apply_outcome policy check now s =
      let counted = count_outcome check.outcome check now (record s { last_checked_at = now }) in
      let moved = move_health check.outcome counted in
      record moved {
        next_check_at = (next_interval (schedule_input policy check.outcome now moved)).next_at;
      }
