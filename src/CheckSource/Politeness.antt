-- ===== src/CheckSource/Politeness.antt =====
-- The spacing of the checks of one source, from the scheduling policy to the dispatch rule.
use firmscout.Base.{ap, zero, ◌+◌, ◌<◌, ◌≡◌, true, false, arith}
use firmscout.Base.Int.{pos, ltb_ℤ, pos_part}
use firmscout.Base.Go.{Time, FloatOps}
use firmscout.Source.{Source, dispatchable}
use firmscout.Schedule.{SchedulingPolicy, ScheduleInput, effective_policy}
use firmscout.Schedule.Spacing.{FractionLaw, IsSpacing, next_interval-Spaced}
use firmscout.CheckSource.Ports.{SourceCheck}
use firmscout.CheckSource.Outcome.{move_health, count_outcome, apply_outcome, schedule_input}

module _ {Float : Type 0} ⦃F : FloatOps Float⦄ where
  early : (s : Source Float) (t : Time) → t < s.next_check_at → dispatchable s t ≡ false
  unfolding dispatchable
  early s t h = ground arith

  positive_policy :
      (i : ScheduleInput Float)
      → ltb_ℤ (pos zero) i.policy.min_interval ≡ true
      → effective_policy i ≡ i.policy
  unfolding effective_policy
  positive_policy i h = ground arith

  -- After a check, whatever its outcome, the source is not dispatchable before MinInterval has
  -- passed, under FractionLaw on float64 and a policy with bounds in order, a positive MinInterval
  -- and a jitter fraction of at most 1.
  pub apply_outcome_spacing :
      (law : FractionLaw F) (policy : SchedulingPolicy Float) (c : SourceCheck) (now later : Time)
      (s : Source Float)
      → IsSpacing F policy
      → later < now + pos_part policy.min_interval
      → dispatchable (apply_outcome policy c now s) later ≡ false
  unfolding apply_outcome
  apply_outcome_spacing law policy c now later s h soon =
      let moved =
        move_health c.outcome
          (count_outcome c.outcome c now (record s { last_checked_at = now })) in
      let i = schedule_input policy c.outcome now moved in
      let min_kept =
        ap (λ (p : SchedulingPolicy Float). pos_part p.min_interval)
          (positive_policy i h.positive) in
      early (apply_outcome policy c now s) later
        (omega (arith, soon, min_kept, (next_interval-Spaced law i h).apart))
