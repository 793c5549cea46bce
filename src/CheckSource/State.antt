-- ===== src/CheckSource/State.antt =====
-- What applyOutcome does to a source: the health it ends in, the failure streak, and what no
-- sequence of checks changes.
use firmscout.Base.{ℕ, ◌+◌, ◌≡◌, refl, ◌∙◌, ap, true, arith}
use firmscout.Base.Go.{Time, FloatOps}
use firmscout.Source.{
  SourceHealth, active, CheckOutcome, unchanged, Source, is_active_or_degraded, transition_health,
  valid_source_health, health_for_outcome,
}
use firmscout.Source.Health.{outcome_edge}
use firmscout.Schedule.{SchedulingPolicy}
use firmscout.CheckSource.Ports.{SourceCheck}
use firmscout.CheckSource.Outcome.{count_outcome, move_health, apply_outcome}

-- What a check leaves alone: the registry's fields, compliance and the Retry-After hold.
pub record SameRegistration {Float : Type 0} (s t : Source Float) : Type 0 where
  pub id_kept : t.id ≡ s.id
  pub url_kept : t.url ≡ s.url
  pub enabled_kept : t.enabled ≡ s.enabled
  pub robots_kept : t.robots_policy_status ≡ s.robots_policy_status
  pub terms_kept : t.terms_review_status ≡ s.terms_review_status
  pub retry_after_kept : t.retry_after_until ≡ s.retry_after_until

outcome_health_listed :
    (h : SourceHealth) (o : CheckOutcome) (n : ℕ)
    → is_active_or_degraded h ≡ true
    → valid_source_health (health_for_outcome h o n) ≡ true
unfolding valid_source_health health_for_outcome
outcome_health_listed active o n e = ground arith
outcome_health_listed h o n e = ground arith

module _ {Float : Type 0} where
  move_health_cases :
      (o : CheckOutcome) (s : Source Float)
      → move_health o s ≡ record s { health = (move_health o s).health }
  unfolding move_health transition_health
  move_health_cases o s = ground arith

  move_health_lem :
      (o : CheckOutcome) (s : Source Float)
      → is_active_or_degraded s.health ≡ true
      → move_health o s ≡ record s { health = health_for_outcome s.health o s.consecutive_failures }
  unfolding move_health transition_health
  move_health_lem o s e = ground (
    arith,
    outcome_edge s.health o s.consecutive_failures e,
    outcome_health_listed s.health o s.consecutive_failures e,
  )

  count_outcome-SameRegistration :
      (o : CheckOutcome) (c : SourceCheck) (now : Time) (s : Source Float)
      → SameRegistration s (count_outcome o c now s)
  unfolding count_outcome
  count_outcome-SameRegistration unchanged c now s = assumption refl
  count_outcome-SameRegistration _ c now s = assumption refl

  count_outcome_health :
      (o : CheckOutcome) (c : SourceCheck) (now : Time) (s : Source Float)
      → (count_outcome o c now s).health ≡ s.health
  unfolding count_outcome
  count_outcome_health unchanged c now s = refl
  count_outcome_health _ c now s = refl

module _ {Float : Type 0} ⦃F : FloatOps Float⦄ where
  apply_outcome-SameRegistration :
      (policy : SchedulingPolicy Float) (c : SourceCheck) (now : Time) (s : Source Float)
      → SameRegistration s (apply_outcome policy c now s)
  unfolding apply_outcome
  apply_outcome-SameRegistration policy c now s =
      let counted = count_outcome c.outcome c now (record s { last_checked_at = now }) in
      let kept =
        count_outcome-SameRegistration c.outcome c now (record s { last_checked_at = now }) in
      let moved = move_health_cases c.outcome counted in
      record {
        id_kept = ap (λ (t : Source Float). t.id) moved ∙ kept.id_kept;
        url_kept = ap (λ (t : Source Float). t.url) moved ∙ kept.url_kept;
        enabled_kept = ap (λ (t : Source Float). t.enabled) moved ∙ kept.enabled_kept;
        robots_kept = ap (λ (t : Source Float). t.robots_policy_status) moved ∙ kept.robots_kept;
        terms_kept = ap (λ (t : Source Float). t.terms_review_status) moved ∙ kept.terms_kept;
        retry_after_kept =
            ap (λ (t : Source Float). t.retry_after_until) moved ∙ kept.retry_after_kept;
      }

  -- A check of an active or degraded source always moves it to the health that HealthForOutcome
  -- names for the new failure count.
  pub apply_outcome_health :
      (policy : SchedulingPolicy Float) (c : SourceCheck) (now : Time) (s : Source Float)
      → is_active_or_degraded s.health ≡ true
      → let t = apply_outcome policy c now s in
        t.health ≡ health_for_outcome s.health c.outcome t.consecutive_failures
  unfolding apply_outcome
  apply_outcome_health policy c now s e =
      let counted = count_outcome c.outcome c now (record s { last_checked_at = now }) in
      let same = count_outcome_health c.outcome c now (record s { last_checked_at = now }) in
      let moved = move_health_lem c.outcome counted (ap is_active_or_degraded same ∙ e) in
      cc (
        ap (λ (t : Source Float). t.health) moved,
        ap (λ (t : Source Float). t.consecutive_failures) moved,
        same,
      )

  count_unchanged :
      (c : SourceCheck) (now : Time) (s : Source Float) (o : CheckOutcome)
      → o ≡ unchanged
      → let t = count_outcome o c now s in
        (t.consecutive_unchanged ≡ s.consecutive_unchanged + 1)
        × (t.consecutive_failures ≡ 0)
        × (t.normalized_content_hash ≡ s.normalized_content_hash)
        × (t.last_changed_at ≡ s.last_changed_at)
  unfolding count_outcome
  count_unchanged c now s unchanged e = (refl, refl, refl, refl)
  count_unchanged c now s o e = cc

  -- An unchanged check: one more in the streak, no failure, and the change-detection state kept.
  pub apply_outcome_unchanged :
      (policy : SchedulingPolicy Float) (c : SourceCheck) (now : Time) (s : Source Float)
      → c.outcome ≡ unchanged
      → let t = apply_outcome policy c now s in
        (t.consecutive_unchanged ≡ s.consecutive_unchanged + 1)
        × (t.consecutive_failures ≡ 0)
        × (t.normalized_content_hash ≡ s.normalized_content_hash)
        × (t.last_changed_at ≡ s.last_changed_at)
  unfolding apply_outcome
  apply_outcome_unchanged policy c now s e =
      let s₁ = record s { last_checked_at = now } in
      let moved = move_health_cases c.outcome (count_outcome c.outcome c now s₁) in
      let counted = count_unchanged c now s₁ c.outcome e in
      (
        ap (λ (t : Source Float). t.consecutive_unchanged) moved ∙ counted.0,
        ap (λ (t : Source Float). t.consecutive_failures) moved ∙ counted.1,
        ap (λ (t : Source Float). t.normalized_content_hash) moved ∙ counted.2,
        ap (λ (t : Source Float). t.last_changed_at) moved ∙ counted.3,
      )
