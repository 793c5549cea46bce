-- ===== src/Source/Health.antt =====
-- The health state machine of internal/domain/source.go: what TransitionHealth does on every
-- branch, and how the outcome of a check moves a source.
use firmscout.Base.{ℕ, ◌≡◌, ◌⊎◌, true, arith, ◌↔◌}
use firmscout.Base.Go.{ok}
use firmscout.Source.{
  SourceHealth, active, CheckOutcome, Source, source_transitions, valid_source_health,
  can_transition_to, SourceHealth-discrete, transition_health, is_active_or_degraded,
  health_for_outcome,
}

module _ {Float : Type 0} where
  -- TransitionHealth succeeds exactly on a declared target that is the present state or joined to
  -- it by an edge, and then it changes the health alone.
  pub transition_health_iff :
      (s t : Source Float) (next : SourceHealth)
      → (transition_health s next ≡ ok t) ↔ (
          (valid_source_health next ≡ true)
          × ((s.health ≡ next) ⊎ (can_transition_to s.health next ≡ true))
          × (t ≡ record s { health = next }))
  unfolding transition_health
  transition_health_iff s t next = (λ e. ground arith, λ e. ground arith)

-- The health that a check leads to is the present one or joined to it by an edge, if the source
-- was active or degraded.
pub outcome_edge :
    (h : SourceHealth) (o : CheckOutcome) (n : ℕ)
    → is_active_or_degraded h ≡ true
    → (health_for_outcome h o n ≡ h) ⊎ (can_transition_to h (health_for_outcome h o n) ≡ true)
unfolding health_for_outcome can_transition_to source_transitions SourceHealth-discrete
outcome_edge active o n e = ground arith
outcome_edge h o n e = ground arith
