-- ===== src/Schedule.antt =====
-- internal/domain/scheduling.go: when a source is checked next. Durations are signed nanoseconds,
-- the factors are float64; the reasons are the texts of the source.
pub mod Bounds
pub mod Backoff
pub mod Spacing
use firmscout.Base.{
  ℕ, zero, ◌*◌, ◌+◌, Bool, true, false, not, ◌&&◌, ◌||◌, ◌++◌, ltb, leb, if◌then◌else◌,
}
use firmscout.Base.Int.{ℤ, pos, negsuc, ltb_ℤ, leb_ℤ}
use firmscout.Base.Text.{Str, text}
use firmscout.Base.Go.{Time, Duration, second, minute, hour, is_zero, add_time, sub_time, FloatOps}
use firmscout.Source.{
  CheckOutcome, changed, unavailable, parser_failed, SourceHealth, broken, authentication_required,
}

pub record SchedulingPolicy (Float : Type 0) : Type 0 where
  pub min_interval : Duration
  pub max_interval : Duration
  pub base_interval : Duration
  pub recent_change_interval : Duration
  pub recent_change_window : Duration
  pub unchanged_backoff_factor : Float
  pub failure_backoff_factor : Float
  pub eol_multiplier : Float
  pub popular_floor : Duration
  pub jitter_fraction : Float

pub record ScheduleInput (Float : Type 0) : Type 0 where
  pub policy : SchedulingPolicy Float
  pub now : Time
  pub outcome : CheckOutcome
  pub health : SourceHealth
  pub consecutive_unchanged : ℕ
  pub consecutive_failures : ℕ
  pub last_changed_at : Time
  pub product_end_of_life : Bool
  pub security_critical : Bool
  pub popular : Bool
  pub freshness_floor : Duration
  pub retry_after : Duration
  pub configured_interval : Duration

pub record ScheduleDecision : Type 0 where
  pub interval : Duration
  pub next_at : Time
  pub reason : Str

unfoldable pub max_int : ℕ → ℕ → ℕ
max_int a b = if ltb b a then a else b

abbrev pub is_rate_limited : CheckOutcome → Bool
is_rate_limited CheckOutcome.rate_limited = true
is_rate_limited _ = false

abbrev pub is_failing : SourceHealth → CheckOutcome → Bool
is_failing broken o = true
is_failing h unavailable = true
is_failing h parser_failed = true
is_failing h o = false

abbrev pub needs_credentials : SourceHealth → Bool
needs_credentials authentication_required = true
needs_credentials _ = false

abbrev pub is_changed : CheckOutcome → Bool
is_changed changed = true
is_changed _ = false

-- the exponent of `scale`, held between 1 and 24
unfoldable pub bounded_steps : ℕ → ℕ
bounded_steps steps =
    let at_least_one = if ltb steps 1 then 1 else steps in
    if ltb 24 at_least_one then 24 else at_least_one

module _ {Float : Type 0} ⦃F : FloatOps Float⦄ where
  -- DefaultSchedulingPolicy
  unfoldable pub default_scheduling_policy : SchedulingPolicy Float
  default_scheduling_policy = record {
    min_interval = pos (15 * minute);
    max_interval = pos (30 * (24 * hour));
    base_interval = pos (24 * hour);
    recent_change_interval = pos (6 * hour);
    recent_change_window = pos (72 * hour);
    unchanged_backoff_factor = F.decimal 135 2;
    failure_backoff_factor = F.decimal 20 1;
    eol_multiplier = F.decimal 70 1;
    popular_floor = pos (6 * hour);
    jitter_fraction = F.decimal 10 2;
  }

  -- the product is converted back to an int64
  unfoldable pub scale : Duration → Float → ℕ → Duration
  scale base factor steps = F.to_int (F.mul (F.of_int base) (F.pow factor (bounded_steps steps)))

  unfoldable pub clamp_interval : SchedulingPolicy Float → Duration → Duration
  clamp_interval p interval =
      let raised = if ltb_ℤ interval p.min_interval then p.min_interval else interval in
      if ltb_ℤ p.max_interval raised then p.max_interval else raised

  -- every caller passes `jitter = true`
  unfoldable pub finalize : SchedulingPolicy Float → Duration → Time → Str → ScheduleDecision
  unfolding clamp_interval
  finalize p interval now reason =
      let kept = clamp_interval p interval in
      let next = add_time now kept in
      record {
        interval = kept;
        next_at =
            if F.lt (F.of_int (pos zero)) p.jitter_fraction
            then add_time next
                (F.to_int (F.mul (F.mul (F.of_int kept) p.jitter_fraction) (F.decimal 5 1)))
            else next;
        reason = reason;
      }

  -- `p` and `base` as NextInterval sets them
  unfoldable pub effective_policy : ScheduleInput Float → SchedulingPolicy Float
  effective_policy i =
      if leb_ℤ i.policy.min_interval (pos zero) then default_scheduling_policy else i.policy

  unfoldable pub effective_base : ScheduleInput Float → Duration
  unfolding effective_policy
  effective_base i =
      if leb_ℤ i.configured_interval (pos zero)
      then (effective_policy i).base_interval
      else i.configured_interval

  -- What follows the switch: the end-of-life stretch, then the three floors.
  unfoldable pub apply_floors : ScheduleInput Float → Duration → Str → ScheduleDecision
  apply_floors i interval reason =
      let p = effective_policy i in
      let base = effective_base i in
      let stretched =
        if i.product_end_of_life
        then F.to_int (F.mul (F.of_int interval) p.eol_multiplier)
        else interval in
      let r1 =
        if i.product_end_of_life
        then reason ++ text "; product is end-of-life so checking far less often"
        else reason in
      let secure = i.security_critical && ltb_ℤ base stretched in
      let held = if secure then base else stretched in
      let r2 =
        if secure then r1 ++ text "; security-critical product holds the base cadence" else r1 in
      let popular = i.popular && ltb_ℤ p.popular_floor held in
      let tightened = if popular then p.popular_floor else held in
      let r3 =
        if popular then r2 ++ text "; frequently requested product holds a tighter floor" else r2 in
      let fresh = ltb_ℤ (pos zero) i.freshness_floor && ltb_ℤ i.freshness_floor tightened in
      finalize p (if fresh then i.freshness_floor else tightened) i.now
        (if fresh then r3 ++ text "; paid freshness commitment applies" else r3)

  -- NextInterval
  unfoldable pub next_interval : ScheduleInput Float → ScheduleDecision
  next_interval i =
      let p = effective_policy i in
      let base = effective_base i in
      if ltb_ℤ (pos zero) i.retry_after
      then finalize p i.retry_after i.now (text "honouring the vendor's Retry-After instruction")
      else if is_rate_limited i.outcome
      then finalize p (scale base p.failure_backoff_factor (max_int i.consecutive_failures 1)) i.now
          (text "rate limited; backing off and lowering the base cadence")
      else if is_failing i.health i.outcome
      then apply_floors i (scale base p.failure_backoff_factor (max_int i.consecutive_failures 1))
          (text "recent failures; exponential backoff with jitter")
      else if needs_credentials i.health
      then finalize p p.max_interval i.now (
          text
            "source requires credentials FirmScout does not have; checking rarely pending review")
      else if is_changed i.outcome
      then apply_floors i p.recent_change_interval
          (text "source just changed; vendors publish in clusters")
      else if not (is_zero i.last_changed_at)
          && ltb_ℤ (sub_time i.now i.last_changed_at) p.recent_change_window
      then apply_floors i p.recent_change_interval
          (text "inside the accelerated window after a recent change")
      else if ltb zero i.consecutive_unchanged
      then apply_floors i (scale base p.unchanged_backoff_factor i.consecutive_unchanged)
          (text "no change observed recently; gradually backing off")
      else apply_floors i base (text "configured base cadence")
