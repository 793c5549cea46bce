-- ===== src/CheckSource/Outages.antt =====
-- internal/application/checksource.go: runs of checks, and the failure streak that breaks a source.
use firmscout.Base.{
  ℕ, ◌+◌, ◌≡◌, refl, ap, ◌∙◌, ◌⊎◌, Bool, true, false, List, [], ◌∷◌, All, length, arith, leb,
  if◌then◌else◌,
}
use firmscout.Base.Go.{Time, FloatOps}
use firmscout.Source.{
  SourceHealth, active, degraded, broken, CheckOutcome, unavailable, parser_failed, Source,
  transition_health, can_transition_to, valid_source_health, SourceHealth-discrete,
  source_transitions, health_for_outcome, broken_failure_threshold,
}
use firmscout.Schedule.{SchedulingPolicy}
use firmscout.CheckSource.Ports.{SourceCheck}
use firmscout.CheckSource.Outcome.{count_outcome, move_health, apply_outcome}

abbrev pub is_failure : CheckOutcome → Bool
is_failure unavailable = true
is_failure parser_failed = true
is_failure _ = false

abbrev is_checkable : SourceHealth → Bool
is_checkable active = true
is_checkable degraded = true
is_checkable broken = true
is_checkable _ = false

abbrev health_at : ℕ → SourceHealth
health_at n = if leb broken_failure_threshold n then broken else degraded

failure_edge :
    (h : SourceHealth) (n : ℕ)
    → is_checkable h ≡ true
    → (health_at n ≡ h) ⊎ (can_transition_to h (health_at n) ≡ true)
unfolding can_transition_to source_transitions SourceHealth-discrete
failure_edge active n e = ground arith
failure_edge h n e = ground arith

failure_health :
    (h : SourceHealth) (o : CheckOutcome) (n : ℕ)
    → is_failure o ≡ true
    → health_for_outcome h o n ≡ health_at n
unfolding health_for_outcome
failure_health h unavailable n e = refl
failure_health h parser_failed n e = refl
failure_health h o n e = cc

health_at_listed :
    (n : ℕ) → (valid_source_health (health_at n) ≡ true) × (is_checkable (health_at n) ≡ true)
unfolding valid_source_health
health_at_listed n = ground arith

module _ {Float : Type 0} where
  failure_move :
      (o : CheckOutcome) (s : Source Float)
      → is_checkable s.health ≡ true
      → is_failure o ≡ true
      → move_health o s ≡ record s { health = health_at s.consecutive_failures }
  unfolding move_health transition_health
  failure_move o s h f = rw (failure_health s.health o s.consecutive_failures f) (
      ground (
        arith,
        failure_edge s.health s.consecutive_failures h,
        (health_at_listed s.consecutive_failures).0,
      ))

  failure_count :
      (o : CheckOutcome) (c : SourceCheck) (now : Time) (s : Source Float)
      → is_failure o ≡ true
      → ((count_outcome o c now s).consecutive_failures ≡ s.consecutive_failures + 1)
        × ((count_outcome o c now s).health ≡ s.health)
  unfolding count_outcome
  failure_count unavailable c now s e = (refl, refl)
  failure_count parser_failed c now s e = (refl, refl)
  failure_count o c now s e = cc

-- `run_checks`: the state after a sequence of checks, each with its instant.
module _ {Float : Type 0} ⦃F : FloatOps Float⦄ where
  unfoldable pub run_checks :
      SchedulingPolicy Float → List (SourceCheck × Time) → Source Float → Source Float
  run_checks policy [] s = s
  run_checks policy ((c, now) ∷ rest) s = run_checks policy rest (apply_outcome policy c now s)

  failure_step :
      (policy : SchedulingPolicy Float) (c : SourceCheck) (now : Time) (s : Source Float)
      → is_checkable s.health ≡ true
      → is_failure c.outcome ≡ true
      → let t = apply_outcome policy c now s in
        (t.consecutive_failures ≡ s.consecutive_failures + 1)
        × (t.health ≡ health_at (s.consecutive_failures + 1))
  unfolding apply_outcome
  failure_step policy c now s h f =
      let s₁ = record s { last_checked_at = now } in
      let counted = count_outcome c.outcome c now s₁ in
      let (count, same) = failure_count c.outcome c now s₁ f in
      let moved = failure_move c.outcome counted (ap is_checkable same ∙ h) f in
      (
        ap (λ (t : Source Float). t.consecutive_failures) moved ∙ count,
        ap (λ (t : Source Float). t.health) moved ∙ ap health_at count,
      )

  -- A run of n + 1 checks that all end in `unavailable` or `parser_failed`, of a source that is
  -- active, degraded or broken, adds n + 1 to its failures, and leaves it broken if they are
  -- three or more by then, degraded if they are fewer.
  pub run_checks_failing :
      (policy : SchedulingPolicy Float) (c : SourceCheck × Time) (cs : List (SourceCheck × Time))
      (s : Source Float)
      → is_checkable s.health ≡ true
      → All (λ (d : SourceCheck × Time). is_failure d.0.outcome ≡ true) (c ∷ cs)
      → let t = run_checks policy (c ∷ cs) s in
        let n = s.consecutive_failures + length (c ∷ cs) in
        (t.consecutive_failures ≡ n)
        × (t.health ≡ (if leb broken_failure_threshold n then broken else degraded))
  unfolding run_checks
  run_checks_failing policy (c, now) [] s h (f, _) = failure_step policy c now s h f
  run_checks_failing policy (c, now) (d ∷ ds) s h (f, fs) =
      let s' = apply_outcome policy c now s in
      let (count, health) = failure_step policy c now s h f in
      let (later, end) =
        run_checks_failing policy d ds s'
          (ap is_checkable health ∙ (health_at_listed (s.consecutive_failures + 1)).1) fs in
      let total : s'.consecutive_failures + length (d ∷ ds)
          ≡ s.consecutive_failures + length ((c, now) ∷ d ∷ ds) =
        omega (arith, count) in
      (later ∙ total, end ∙ ap health_at total)
