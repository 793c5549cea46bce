-- ===== src/Schedule/Backoff.antt =====
-- internal/domain/scheduling.go: two rules of NextInterval, the freshness commitment and the
-- exponential backoff with the conversion of its product to an int64.
use firmscout.Base.{
  if◌then◌else◌, ℕ, zero, ◌*◌, ◌^◌, ◌-◌, ◌≡◌, ◌≤◌, ◌<◌, ◌⊎◌, inl, inr, Bool, true, false, arith,
}
use firmscout.Base.Int.{pos, negsuc, ◌≤ℤ◌, ltb_ℤ, int64_bound}
use firmscout.Base.Go.{Duration, FloatOps}
use firmscout.Base.Text.{Str}
use firmscout.Schedule.{
  SchedulingPolicy, ScheduleInput, ScheduleDecision, max_int, is_rate_limited, is_failing,
  needs_credentials, clamp_interval, finalize, effective_policy, effective_base, apply_floors,
  next_interval, scale, bounded_steps,
}
use firmscout.Schedule.Bounds.{IsOrdered, effective_policy-IsOrdered}

-- What the backoff needs of float64: whole numbers `exact n`, the product with a power of 2.0,
-- and the conversion to int64, which on amd64 gives the least int64 for a value out of range.
pub record ExactDoubling {Float : Type 0} (F : FloatOps Float) : Type 0 where
  pub exact : ℕ → Float
  pub of_int_exact : (n : ℕ) → n < 2 ^ 53 → F.of_int (pos n) ≡ exact n
  pub mul_pow :
      (n k : ℕ)
      → n < 2 ^ 53
      → k ≤ 24
      → F.mul (exact n) (F.pow (F.decimal 20 1) k) ≡ exact (n * 2 ^ k)
  pub to_int_in_range :
      (n k : ℕ)
      → n < 2 ^ 53
      → n * 2 ^ k < int64_bound
      → F.to_int (exact (n * 2 ^ k)) ≡ pos (n * 2 ^ k)
  pub to_int_overflow : (n : ℕ) → int64_bound ≤ n → F.to_int (exact n) ≡ negsuc (int64_bound - 1)

bounded_steps_id : (k : ℕ) → 1 ≤ k → k ≤ 24 → bounded_steps k ≡ k
unfolding bounded_steps
bounded_steps_id k lo hi = ground arith

module _ {Float : Type 0} ⦃F : FloatOps Float⦄ where
  clamp_interval_cases :
      (p : SchedulingPolicy Float) (d : Duration)
      → IsOrdered p
      → (d ≤ℤ p.max_interval → d ≤ℤ clamp_interval p d)
        × (ltb_ℤ p.max_interval d ≡ true → clamp_interval p d ≡ p.max_interval)
        × (ltb_ℤ d p.min_interval ≡ true → clamp_interval p d ≡ p.min_interval)
  unfolding clamp_interval
  clamp_interval_cases p d h = (λ k. ground arith, λ k. ground arith, λ k. ground arith)

  apply_floors-freshness :
      (i : ScheduleInput Float) (d : Duration) (r : Str)
      → IsOrdered (effective_policy i)
      → ltb_ℤ (pos zero) i.freshness_floor ≡ true
      → let chosen = (apply_floors i d r).interval in
        (chosen ≤ℤ i.freshness_floor) ⊎ (chosen ≡ (effective_policy i).min_interval)
  unfolding apply_floors finalize clamp_interval
  apply_floors-freshness i d r h f = ground arith

  record MeetsFreshness (i : ScheduleInput Float) (d : ScheduleDecision) : Type 0 where
    meets : (d.interval ≤ℤ i.freshness_floor) ⊎ (d.interval ≡ (effective_policy i).min_interval)

  MeetsFreshness-if :
      (i : ScheduleInput Float) (b : Bool) (x y : ScheduleDecision)
      → MeetsFreshness i x
      → MeetsFreshness i y
      → MeetsFreshness i (if b then x else y)
  MeetsFreshness-if i true x y hx hy = hx
  MeetsFreshness-if i false x y hx hy = hy

  apply_floors-MeetsFreshness :
      (i : ScheduleInput Float) (d : Duration) (r : Str)
      → IsOrdered (effective_policy i)
      → ltb_ℤ (pos zero) i.freshness_floor ≡ true
      → MeetsFreshness i (apply_floors i d r)
  apply_floors-MeetsFreshness i d r h f = record { meets = apply_floors-freshness i d r h f }

  MeetsFreshness-if_skipped :
      (i : ScheduleInput Float) (b : Bool) (x y : ScheduleDecision)
      → b ≡ false
      → MeetsFreshness i y
      → MeetsFreshness i (if b then x else y)
  MeetsFreshness-if_skipped i b x y e h = rw e h

  ruleset freshness_rules =
      (MeetsFreshness-if, MeetsFreshness-if_skipped, apply_floors-MeetsFreshness)

  next_interval-MeetsFreshness :
      (i : ScheduleInput Float)
      → IsOrdered (effective_policy i)
      → ltb_ℤ (pos zero) i.retry_after ≡ false
      → is_rate_limited i.outcome ≡ false
      → (is_failing i.health i.outcome ≡ true) ⊎ (needs_credentials i.health ≡ false)
      → ltb_ℤ (pos zero) i.freshness_floor ≡ true
      → MeetsFreshness i (next_interval i)
  unfolding next_interval
  next_interval-MeetsFreshness i h r l (inl failing) f = rw (r, l, failing) (search freshness_rules)
  next_interval-MeetsFreshness i h r l (inr known) f = rw (r, l) (search freshness_rules depth 12)

  -- Under a policy with bounds in order, where neither a positive Retry-After nor a rate limit
  -- decides, and the source is failing or needs no credentials, a positive freshness commitment
  -- holds: the interval is at most the commitment, or it is MinInterval.
  pub next_interval-freshness :
      (i : ScheduleInput Float)
      → IsOrdered i.policy
      → ltb_ℤ (pos zero) i.retry_after ≡ false
      → is_rate_limited i.outcome ≡ false
      → (is_failing i.health i.outcome ≡ true) ⊎ (needs_credentials i.health ≡ false)
      → ltb_ℤ (pos zero) i.freshness_floor ≡ true
      → let d = (next_interval i).interval in
        (d ≤ℤ i.freshness_floor) ⊎ (d ≡ (effective_policy i).min_interval)
  next_interval-freshness i h r l c f =
      (next_interval-MeetsFreshness i (effective_policy-IsOrdered i h) r l c f).meets

  -- A failing source at the k-th failure, k up to 24, waits base * 2^k while that fits an int64.
  scale_in_range :
      (X : ExactDoubling F) (n k : ℕ)
      → 1 ≤ k
      → k ≤ 24
      → n < 2 ^ 53
      → n * 2 ^ k < int64_bound
      → scale (pos n) (F.decimal 20 1) k ≡ pos (n * 2 ^ k)
  unfolding scale
  scale_in_range X n k lo hi h room =
      rw (bounded_steps_id k lo hi, X.of_int_exact n h, X.mul_pow n k h hi, scale)
        (X.to_int_in_range n k h room)

  scale_overflow :
      (X : ExactDoubling F) (n k : ℕ)
      → 1 ≤ k
      → k ≤ 24
      → n < 2 ^ 53
      → int64_bound ≤ n * 2 ^ k
      → scale (pos n) (F.decimal 20 1) k ≡ negsuc (int64_bound - 1)
  unfolding scale
  scale_overflow X n k lo hi h past =
      rw (bounded_steps_id k lo hi, X.of_int_exact n h, X.mul_pow n k h hi, scale)
        (X.to_int_overflow (n * 2 ^ k) past)

  -- After a rate limit, without a Retry-After, the wait is base * 2^failures, held between the
  -- policy's bounds, while that fits an int64; past that the product is no longer an int64 and the
  -- wait falls back to MinInterval. Here ExactDoubling holds of float64, the policy's bounds are
  -- in order, its failure factor is 2.0, there are 1 to 24 failures, base is below 2^53 ns, and
  -- MinInterval is positive.
  pub next_interval-backoff :
      (X : ExactDoubling F) (i : ScheduleInput Float) (n : ℕ)
      → IsOrdered i.policy
      → ltb_ℤ (pos zero) i.retry_after ≡ false
      → is_rate_limited i.outcome ≡ true
      → (effective_policy i).failure_backoff_factor ≡ F.decimal 20 1
      → effective_base i ≡ pos n
      → n < 2 ^ 53
      → 1 ≤ i.consecutive_failures
      → i.consecutive_failures ≤ 24
      → ltb_ℤ (pos zero) (effective_policy i).min_interval ≡ true
      → let p = effective_policy i in
        let d = (next_interval i).interval in
        (n * 2 ^ i.consecutive_failures < int64_bound
          → d ≡ clamp_interval p (pos (n * 2 ^ i.consecutive_failures)))
        × (int64_bound ≤ n * 2 ^ i.consecutive_failures → d ≡ p.min_interval)
  unfolding next_interval finalize
  next_interval-backoff X i n h r l f b small lo hi m =
      let k = i.consecutive_failures in
      let once : max_int k 1 ≡ k = unfold max_int in ground arith in
      let low : ltb_ℤ (negsuc (int64_bound - 1)) (effective_policy i).min_interval ≡ true =
        ground arith in
      rw (r, l, f, b, once)
        (
          λ room. rw (scale_in_range X n k lo hi small room),
          λ past. rw (scale_overflow X n k lo hi small past) (
              (clamp_interval_cases (effective_policy i) (negsuc (int64_bound - 1))
                  (effective_policy-IsOrdered i h)).2
                low),
        )
