-- ===== src/Schedule/Spacing.antt =====
-- The next check lies at least MinInterval ahead, jitter included.
use firmscout.Base.{
  ℕ, zero, ◌+◌, ◌≤◌, ◌≡◌, Bool, true, false, arith, if◌then◌else◌, Bool-cases, inl, inr,
}
use firmscout.Base.Int.{leb_ℤ, pos, ltb_ℤ, pos_part}
use firmscout.Base.Go.{Duration, Time, FloatOps, add_time}
use firmscout.Base.Text.{Str}
use firmscout.Schedule.{
  SchedulingPolicy, ScheduleInput, ScheduleDecision, clamp_interval, finalize, effective_policy,
  apply_floors, next_interval, default_scheduling_policy,
}
use firmscout.Schedule.Bounds.{IsOrdered}

-- What the jitter needs of float64: a non-negative duration times a fraction up to 1, halved,
-- converts to a non-negative duration.
pub record FractionLaw {Float : Type 0} (F : FloatOps Float) : Type 0 where
  pub fraction :
      (n : ℕ) (f : Float)
      → F.lt (F.of_int (pos zero)) f ≡ true
      → F.le f (F.of_int (pos 1)) ≡ true
      → (m : ℕ) × (F.to_int (F.mul (F.mul (F.of_int (pos n)) f) (F.decimal 5 1)) ≡ pos m)
  -- the constant 0.10
  pub tenth : F.le (F.decimal 10 2) (F.of_int (pos 1)) ≡ true

-- A policy that spaces checks out: bounds in order, a positive MinInterval, a fraction up to 1.
pub record IsSpacing {Float : Type 0} (F : FloatOps Float) (p : SchedulingPolicy Float)
    : Type 0 where
  pub ordered : IsOrdered p
  pub positive : ltb_ℤ (pos zero) p.min_interval ≡ true
  pub fraction_at_most_one : F.le p.jitter_fraction (F.of_int (pos 1)) ≡ true

-- The decision lies at least MinInterval after `now`.
pub record Spaced {Float : Type 0} (p : SchedulingPolicy Float) (now : Time) (d : ScheduleDecision)
    : Type 0 where
  pub apart : now + pos_part p.min_interval ≤ d.next_at

sum : (t : Time) (n : ℕ) → add_time t (pos n) ≡ t + n
unfolding add_time
sum t n = ground arith

module _ {Float : Type 0} ⦃F : FloatOps Float⦄ (law : FractionLaw F) where
  default_policy-IsSpacing : IsSpacing F default_scheduling_policy
  unfolding default_scheduling_policy
  default_policy-IsSpacing = record {
    ordered = omega arith;
    positive = ground arith;
    fraction_at_most_one = law.tenth;
  }

  effective_policy-IsSpacing :
      (i : ScheduleInput Float) → IsSpacing F i.policy → IsSpacing F (effective_policy i)
  unfolding effective_policy
  effective_policy-IsSpacing i h = elim (Bool-cases (leb_ℤ i.policy.min_interval (pos zero))) [
    | inl e ↦ rw e default_policy-IsSpacing
    | inr e ↦ rw e h
  ]

  clamp_positive :
      (p : SchedulingPolicy Float) (d : Duration)
      → IsSpacing F p
      → (n : ℕ) × (clamp_interval p d ≡ pos n) × (pos_part p.min_interval ≤ n)
  unfolding clamp_interval
  clamp_positive p d h = (
    pos_part (clamp_interval p d),
    ground (arith, h.ordered, h.positive),
    ground (arith, h.ordered, h.positive),
  )

  finalize-Spaced :
      (p : SchedulingPolicy Float) (d : Duration) (now : Time) (r : Str)
      → IsSpacing F p
      → Spaced p now (finalize p d now r)
  unfolding finalize
  finalize-Spaced p d now r h =
      let (n, e, low) = clamp_positive p d h in
      elim (Bool-cases (F.lt (F.of_int (pos zero)) p.jitter_fraction)) [
        | inr none_added ↦ record { apart = rw (none_added, e) (omega (arith, low, sum now n)) }
        | inl added ↦
            let (m, j) = law.fraction n p.jitter_fraction added h.fraction_at_most_one in
            record {
              apart =
                  rw (added, e, j) (omega (arith, low, sum now n, sum (add_time now (pos n)) m));
            }
      ]

  apply_floors-Spaced :
      (i : ScheduleInput Float) (d : Duration) (r : Str)
      → IsSpacing F (effective_policy i)
      → Spaced (effective_policy i) i.now (apply_floors i d r)
  unfolding apply_floors
  apply_floors-Spaced i d r h = finalize-Spaced (effective_policy i) _ i.now _ h

  Spaced-if :
      (p : SchedulingPolicy Float) (now : Time) (b : Bool) (x y : ScheduleDecision)
      → Spaced p now x
      → Spaced p now y
      → Spaced p now (if b then x else y)
  Spaced-if p now true x y hx hy = hx
  Spaced-if p now false x y hx hy = hy

  ruleset spaced_rules = (Spaced-if, finalize-Spaced, apply_floors-Spaced)

  -- Under FractionLaw on float64, and a policy with bounds in order, a positive MinInterval and a
  -- jitter fraction of at most 1, whatever rule decides, the next check is at least MinInterval of
  -- the policy in force after now.
  pub next_interval-Spaced :
      (i : ScheduleInput Float)
      → IsSpacing F i.policy
      → Spaced (effective_policy i) i.now (next_interval i)
  unfolding next_interval
  next_interval-Spaced i h =
      let spacing = effective_policy-IsSpacing i h in search spaced_rules depth 12
