-- ===== src/Schedule/Bounds.antt =====
-- The bounds of the interval that NextInterval returns, whatever rule applied.
use firmscout.Base.{Bool, true, false, if◌then◌else◌, arith}
use firmscout.Base.Int.{◌≤ℤ◌}
use firmscout.Base.Go.{Duration, Time, FloatOps}
use firmscout.Base.Text.{Str}
use firmscout.Schedule.{
  SchedulingPolicy, ScheduleInput, ScheduleDecision, clamp_interval, finalize, effective_policy,
  apply_floors, next_interval, default_scheduling_policy,
}

-- A policy whose bounds are in order.
abbrev pub IsOrdered : {Float : Type 0} → SchedulingPolicy Float → Type 0
IsOrdered p = p.min_interval ≤ℤ p.max_interval

-- The interval of a decision lies between the policy's bounds.
pub record InBounds {Float : Type 0} (p : SchedulingPolicy Float) (d : ScheduleDecision)
    : Type 0 where
  pub at_least : p.min_interval ≤ℤ d.interval
  pub at_most : d.interval ≤ℤ p.max_interval

default_policy-IsOrdered :
    {Float : Type 0} (F : FloatOps Float) → IsOrdered (default_scheduling_policy ⦃F = F⦄)
unfolding default_scheduling_policy
default_policy-IsOrdered F = omega arith

module _ {Float : Type 0} ⦃F : FloatOps Float⦄ where
  pub effective_policy-IsOrdered :
      (i : ScheduleInput Float) → IsOrdered i.policy → IsOrdered (effective_policy i)
  unfolding effective_policy
  effective_policy-IsOrdered i h = ground (arith, default_policy-IsOrdered F)

  finalize-InBounds :
      (p : SchedulingPolicy Float) (i : Duration) (now : Time) (r : Str)
      → IsOrdered p
      → InBounds p (finalize p i now r)
  unfolding finalize clamp_interval
  finalize-InBounds p i now r h = record { at_least = ground arith; at_most = ground arith }

  apply_floors-InBounds :
      (i : ScheduleInput Float) (d : Duration) (r : Str)
      → IsOrdered (effective_policy i)
      → InBounds (effective_policy i) (apply_floors i d r)
  unfolding apply_floors
  apply_floors-InBounds i d r h = finalize-InBounds (effective_policy i) _ _ _ h

  InBounds-if :
      (p : SchedulingPolicy Float) (b : Bool) (x y : ScheduleDecision)
      → InBounds p x
      → InBounds p y
      → InBounds p (if b then x else y)
  InBounds-if p true x y hx hy = hx
  InBounds-if p false x y hx hy = hy

  ruleset in_bounds = (InBounds-if, finalize-InBounds, apply_floors-InBounds)

  -- Whatever rule decides, the interval lies between the bounds of the policy in force, if the
  -- given policy's bounds are in order.
  pub next_interval-InBounds :
      (i : ScheduleInput Float)
      → IsOrdered i.policy
      → InBounds (effective_policy i) (next_interval i)
  unfolding next_interval
  next_interval-InBounds i h =
      let ordered = effective_policy-IsOrdered i h in search in_bounds depth 12
