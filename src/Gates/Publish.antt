-- ===== src/Gates/Publish.antt =====
-- When RunValidationGates lets a candidate be published without a human.
use firmscout.Base.{◌∙◌, sym, ◌≡◌, ◌≤◌, refl, ◌⊎◌, true, false, arith, ◌↔◌, [], List, ◌∷◌, is_empty}
use firmscout.Base.Go.{FloatOps, add_time}
use firmscout.Base.Text.{Unicode, is_blank}
use firmscout.Candidate.{CandidateRelease}
use firmscout.Version.{plausible, identical, is_zero_version, assess_transition}
use firmscout.Date.{after_instant, known, instant}
use firmscout.Gates.{ValidationVerdict, passed, ValidationContext, publishable, Ruling}
use firmscout.Gates.Rules.{
  rulings, rule_product, rule_version, rule_source, rule_duplicate, rule_date, rule_transition,
  rule_evidence, rule_confidence, rule_applicability, rule_agreement, threshold_of,
}
use firmscout.Gates.Run.{run_validation_gates}
use firmscout.Gates.Verdict.{
  AllRule, strictest, run_validation_gates_lem, rulings-AllRule, one_more,
}

is_empty_iff {ℓ} : {A : Type ℓ} (xs : List A) → (is_empty xs ≡ true) ↔ (xs ≡ [])
is_empty_iff [] = (λ _. refl, λ _. refl)
is_empty_iff (x ∷ xs) = (λ e. cc, λ e. cc)

-- Everything that publication without a human needs: what each of the ten gates demands.
pub record Sound {Float : Type 0} ⦃F : FloatOps Float⦄ (u : Unicode) (c : CandidateRelease Float)
    (x : ValidationContext Float) : Type 0 where
  pub one_product : (x.product_ambiguous ≡ false) × (x.product_resolved ≡ true)
  pub has_version : (is_zero_version c.version ≡ false) × (is_blank u c.version.normalized ≡ false)
  pub may_collect : x.is_eligible ≡ true
  pub is_new : x.duplicate_release_id ≡ []
  pub is_dated :
      (known c.release_date ≡ false)
      ⊎ (((x.earliest_plausible_date ≡ 0)
            ⊎ (x.earliest_plausible_date ≤ instant c.release_date.anchor))
          × (instant c.release_date.anchor ≤ add_time x.now x.future_date_tolerance))
  pub follows :
      ((assess_transition u x.previous_version c.version).verdict ≡ plausible)
      ⊎ ((assess_transition u x.previous_version c.version).verdict ≡ identical)
  pub has_evidence : (x.evidence_present ≡ true) × (is_blank u c.evidence_id ≡ false)
  pub is_confident :
      (x.source_official ≡ true) × (F.lt c.confidence (threshold_of x.minimum_confidence) ≡ false)
  pub applies : x.applicability_known ≡ true
  pub undisputed : x.conflicting_source_versions ≡ []

abbrev Passes : List Ruling → Type 0
Passes [] = Unit
Passes (r ∷ rs) = (r.gives ≡ passed) × Passes rs

all_pass : (rs : List Ruling) → AllRule rs → (strictest rs ≡ passed) ↔ Passes rs
unfolding strictest
all_pass [] a = (λ _. tt, λ _. refl)
all_pass (r ∷ rs) (one_more h a) = let ih = all_pass rs a in ground arith

module _ {Float : Type 0} ⦃F : FloatOps Float⦄ (u : Unicode) (c : CandidateRelease Float)
    (x : ValidationContext Float) where
  product_passes :
      ((rule_product x).gives ≡ passed)
      ↔ ((x.product_ambiguous ≡ false) × (x.product_resolved ≡ true))
  unfolding rule_product
  product_passes = ground arith

  version_passes :
      ((rule_version u c).gives ≡ passed)
      ↔ ((is_zero_version c.version ≡ false) × (is_blank u c.version.normalized ≡ false))
  unfolding rule_version
  version_passes = ground arith

  source_passes : ((rule_source x).gives ≡ passed) ↔ (x.is_eligible ≡ true)
  unfolding rule_source
  source_passes = ground arith

  duplicate_passes : ((rule_duplicate x).gives ≡ passed) ↔ (x.duplicate_release_id ≡ [])
  unfolding rule_duplicate
  duplicate_passes = let e = is_empty_iff x.duplicate_release_id in ground arith

  date_passes : ((rule_date c x).gives ≡ passed) ↔ (
      (known c.release_date ≡ false)
      ⊎ (((x.earliest_plausible_date ≡ 0)
            ⊎ (x.earliest_plausible_date ≤ instant c.release_date.anchor))
          × (instant c.release_date.anchor ≤ add_time x.now x.future_date_tolerance)))
  unfolding rule_date after_instant
  date_passes = ground arith

  transition_passes : ((rule_transition u c x).gives ≡ passed) ↔ (
      ((assess_transition u x.previous_version c.version).verdict ≡ plausible)
      ⊎ ((assess_transition u x.previous_version c.version).verdict ≡ identical))
  unfolding rule_transition
  transition_passes = ground arith

  evidence_passes :
      ((rule_evidence u c x).gives ≡ passed)
      ↔ ((x.evidence_present ≡ true) × (is_blank u c.evidence_id ≡ false))
  unfolding rule_evidence
  evidence_passes = ground arith

  confidence_passes : ((rule_confidence c x).gives ≡ passed) ↔ (
      (x.source_official ≡ true) × (F.lt c.confidence (threshold_of x.minimum_confidence) ≡ false))
  unfolding rule_confidence
  confidence_passes = ground arith

  applicability_passes : ((rule_applicability x).gives ≡ passed) ↔ (x.applicability_known ≡ true)
  unfolding rule_applicability
  applicability_passes = ground arith

  agreement_passes : ((rule_agreement x).gives ≡ passed) ↔ (x.conflicting_source_versions ≡ [])
  unfolding rule_agreement
  agreement_passes = let e = is_empty_iff x.conflicting_source_versions in ground arith

  publishable_passed : (v : ValidationVerdict) → publishable v ≡ true → v.decision ≡ passed
  unfolding publishable
  publishable_passed v e = ground arith

  passed_publishable : (v : ValidationVerdict) → v.decision ≡ passed → publishable v ≡ true
  unfolding publishable
  passed_publishable v e = ground arith

  Sound-iff : Passes (rulings u c x) ↔ Sound u c x
  unfolding rulings
  Sound-iff = (
    λ (a, (b, (d, (e, (f, (g, (h, (i, (j, (k, _)))))))))). record {
      one_product = product_passes.0 a;
      has_version = version_passes.0 b;
      may_collect = source_passes.0 d;
      is_new = duplicate_passes.0 e;
      is_dated = date_passes.0 f;
      follows = transition_passes.0 g;
      has_evidence = evidence_passes.0 h;
      is_confident = confidence_passes.0 i;
      applies = applicability_passes.0 j;
      undisputed = agreement_passes.0 k;
    },
    λ s. (
      product_passes.1 s.one_product,
      (
        version_passes.1 s.has_version,
        (
          source_passes.1 s.may_collect,
          (
            duplicate_passes.1 s.is_new,
            (
              date_passes.1 s.is_dated,
              (
                transition_passes.1 s.follows,
                (
                  evidence_passes.1 s.has_evidence,
                  (
                    confidence_passes.1 s.is_confident,
                    (applicability_passes.1 s.applies, (agreement_passes.1 s.undisputed, tt)),
                  ),
                ),
              ),
            ),
          ),
        ),
      ),
    ),
  )

  -- RunValidationGates finds a candidate publishable exactly when each of the ten conditions holds.
  pub run_validation_gates-publishable_iff :
      (publishable (run_validation_gates u c x) ≡ true) ↔ Sound u c x
  run_validation_gates-publishable_iff =
      let strict = (run_validation_gates_lem u c x).1 in
      let every = all_pass (rulings u c x) (rulings-AllRule u c x) in
      (
        λ e. Sound-iff.0 (every.0 (sym strict ∙ publishable_passed (run_validation_gates u c x) e)),
        λ s. passed_publishable (run_validation_gates u c x) (strict ∙ every.1 (Sound-iff.1 s)),
      )
