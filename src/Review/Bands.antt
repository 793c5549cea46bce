-- ===== src/Review/Bands.antt =====
-- ScoreReview of internal/domain/review.go: the bounds of the score, and when an item is urgent.
use firmscout.Base.{◌<◌, ℕ, ◌+◌, ◌≤◌, ◌≡◌, ◌⊎◌, ◌↔◌, true, false, arith}
use firmscout.Base.Int.{pos_part, ℤ, pos, ◌≤ℤ◌}
use firmscout.Base.Go.{FloatOps}
use firmscout.Source.{authority, QualityClass, authorized_portal}
use firmscout.Review.{
  authority_term, critical_term, conflict_term, type_term, popularity_term, Term, confidence_term,
  base_priority, SlaClass, ReviewSignals, ReviewPriority, score_review, add_term, confidence_points,
  clamp_int, clamp_unit, sla_for, urgent, standard, low,
}

-- What the confidence term needs of float64: 0 and 1 compare as numbers, and a value neither below 0 nor
-- above 1 (NaN included) times 100 converts to at most 100.
pub record UnitLaw {Float : Type 0} (F : FloatOps Float) : Type 0 where
  pub zero_zero : F.lt (F.of_int (pos 0)) (F.of_int (pos 0)) ≡ false
  pub one_zero : F.lt (F.of_int (pos 1)) (F.of_int (pos 0)) ≡ false
  pub one_one : F.lt (F.of_int (pos 1)) (F.of_int (pos 1)) ≡ false
  pub percent :
      (f : Float)
      → F.lt f (F.of_int (pos 0)) ≡ false
      → F.lt (F.of_int (pos 1)) f ≡ false
      → F.to_int (F.mul f (F.of_int (pos 100))) ≤ℤ pos 100

authority_le : (q : QualityClass) → authority q ≤ 50
unfolding authority
authority_le q = ground arith

record Within (hi : ℕ) (p : ReviewPriority) : Type 0 where
  lower : 100 ≤ p.score
  upper : p.score ≤ hi

self : (k : ℕ) → k ≤ k
self k = omega arith

-- A term of at most `k` points raises the upper bound by `k` and keeps the lower one.
raise :
    (t : Term) (k : ℕ) {p : ReviewPriority} {hi : ℕ}
    → t.points ≤ k
    → Within hi p
    → Within (hi + k) (add_term t p)
unfolding add_term
raise t k h i =
    let lo = i.lower in let up = i.upper in record { lower = ground arith; upper = ground arith }

base_Within : (band : SlaClass) → Within 100 (base_priority band)
base_Within band = record { lower = omega arith; upper = omega arith }

clamp_le : (n : ℤ) → pos_part (clamp_int n (pos 0) (pos 100)) ≤ 100
unfolding clamp_int
clamp_le n = ground arith

module _ {Float : Type 0} ⦃F : FloatOps Float⦄ where
  confidence_le : UnitLaw F → (c : Float) → pos_part (confidence_points c) ≤ 100
  unfolding confidence_points clamp_unit
  confidence_le law c =
      let z = law.percent (F.of_int (pos 0)) law.zero_zero law.one_zero in
      let o = law.percent (F.of_int (pos 1)) law.one_zero law.one_one in
      let p = law.percent c in ground arith

  -- Under the law on float64, the score lies between 100 and 650.
  pub score_review-bounds :
      UnitLaw F
      → (s : ReviewSignals Float) → (100 ≤ (score_review s).score) × ((score_review s).score ≤ 650)
  unfolding score_review confidence_term popularity_term
  score_review-bounds law s =
      let w : Within 650 (score_review s) = raise (type_term s) 50 (self 50) (
        raise (conflict_term s) 100 (self 100) (
          raise (critical_term s) 150 (self 150) (
            raise (popularity_term s) 100 (clamp_le s.product_popularity) (
              raise (confidence_term s) 100 (confidence_le law s.confidence) (
                raise (authority_term s) 50 (authority_le s.source_quality)
                  (base_Within (sla_for s))))))) in
      (w.lower, w.upper)

  -- An item is urgent exactly if its product is security-critical and either its conflict is
  -- unresolved or the popularity is at least 50. Without either of the first two signals it is
  -- standard exactly from the rank of an authorized portal on, and low exactly below it; with one of
  -- them it is neither.
  pub score_review-sla :
      (s : ReviewSignals Float)
      → (((score_review s).sla ≡ urgent) ↔ (
          (s.product_security_critical ≡ true)
          × ((s.conflict_unresolved ≡ true) ⊎ (pos 50 ≤ℤ s.product_popularity))))
        × (((score_review s).sla ≡ standard) ↔ (
            (s.product_security_critical ≡ false)
            × (s.conflict_unresolved ≡ false)
            × (authority authorized_portal ≤ authority s.source_quality)))
        × (((score_review s).sla ≡ low) ↔ (
            (s.product_security_critical ≡ false)
            × (s.conflict_unresolved ≡ false)
            × (authority s.source_quality < authority authorized_portal)))
  unfolding score_review sla_for add_term
  score_review-sla s = (ground arith, ground arith, ground arith)
