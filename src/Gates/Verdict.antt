-- ===== src/Gates/Verdict.antt =====
-- What RunValidationGates decides, and which results it records.
use firmscout.Base.{
  append-nil, append_assoc, sym, Bool, ◌≡◌, ◌≢◌, refl, ◌⊎◌, inl, any, arith, List, [], ◌∷◌, ◌++◌,
  map, if◌then◌else◌,
}
use firmscout.Base.Go.{Time, eqb, FloatOps}
use firmscout.Base.Text.{Unicode}
use firmscout.Candidate.{CandidateRelease}
use firmscout.Gates.{
  GateOutcome, passed, rejected, review_required, GateOutcome-discrete, Ruling, ValidationVerdict,
  ValidationContext,
}
use firmscout.Gates.Rules.{
  rule_date, rule_transition, rule_product, rule_version, rule_applicability, rule_duplicate,
  rule_evidence, rule_agreement, rule_confidence, rule_source, rulings,
}
use firmscout.Gates.Run.{record_gate, run_rulings, run_validation_gates, result_of, no_results}

abbrev gives_any : GateOutcome → List Ruling → Bool
gives_any o rs = any (λ r. eqb GateOutcome-discrete r.gives o) rs

-- Each gate passes, rejects or asks for review.
abbrev IsRuling : Ruling → Type 0
IsRuling r = (r.gives ≡ passed) ⊎ ((r.gives ≡ rejected) ⊎ (r.gives ≡ review_required))

pub data AllRule : List Ruling → Type 0 where
  none_left : AllRule []
  one_more : {r : Ruling} {rs : List Ruling} → IsRuling r → AllRule rs → AllRule (r ∷ rs)

-- The rulings up to the first rejection, that one included.
unfoldable pub up_to_rejection : List Ruling → List Ruling
up_to_rejection [] = []
up_to_rejection (r ∷ rs) =
    let rest = up_to_rejection rs in
    if eqb GateOutcome-discrete r.gives rejected then r ∷ [] else r ∷ rest

-- The strictest outcome among the rulings.
unfoldable pub strictest : List Ruling → GateOutcome
strictest rs =
    if gives_any rejected rs
    then rejected
    else if gives_any review_required rs
    then review_required
    else passed

run_rulings_results :
    (now : Time) (v : ValidationVerdict) (rs : List Ruling)
    → (run_rulings now v rs).results ≡ v.results ++ map (result_of now) (up_to_rejection rs)
unfolding run_rulings record_gate up_to_rejection
run_rulings_results now v [] = sym (append-nil v.results)
run_rulings_results now v (r ∷ rs) =
    let ih = run_rulings_results now (record_gate now v r) rs in
    let assoc =
      append_assoc v.results (result_of now r ∷ []) (map (result_of now) (up_to_rejection rs)) in
    ground arith

run_rulings_decision :
    (now : Time) (v : ValidationVerdict) (rs : List Ruling)
    → AllRule rs
    → (v.decision ≡ passed) ⊎ (v.decision ≡ review_required)
    → (run_rulings now v rs).decision ≡ (
        if gives_any rejected rs
        then rejected
        else if gives_any review_required rs
        then review_required
        else v.decision)
unfolding run_rulings record_gate
run_rulings_decision now v [] a d = refl
run_rulings_decision now v (r ∷ rs) (one_more h a) d =
    let keep : (r.gives ≢ rejected)
        → ((record_gate now v r).decision ≡ passed)
          ⊎ ((record_gate now v r).decision ≡ review_required) =
      λ n. ground arith in
    let ih : (r.gives ≢ rejected)
        → (run_rulings now (record_gate now v r) rs).decision ≡ (
            if gives_any rejected rs
            then rejected
            else if gives_any review_required rs
            then review_required
            else (record_gate now v r).decision) =
      λ n. run_rulings_decision now (record_gate now v r) rs a (keep n) in
    ground arith

module _ {Float : Type 0} ⦃F : FloatOps Float⦄ (u : Unicode) (c : CandidateRelease Float)
    (x : ValidationContext Float) where
  pub rulings-AllRule : AllRule (rulings u c x)
  unfolding rulings rule_product rule_version rule_source rule_duplicate rule_date rule_transition
      rule_evidence rule_confidence rule_applicability rule_agreement
  rulings-AllRule = one_more (ground arith) (
      one_more (ground arith) (
        one_more (ground arith) (
          one_more (ground arith) (
            one_more (ground arith) (
              one_more (ground arith) (
                one_more (ground arith) (
                  one_more (ground arith)
                    (one_more (ground arith) (one_more (ground arith) none_left)))))))))

  -- The results are those of the rulings, in their order, up to the first rejection, and the
  -- decision is the strictest outcome among all ten rulings: rejected, else review required, else
  -- passed.
  pub run_validation_gates_lem :
      ((run_validation_gates u c x).results
        ≡ map (result_of x.now) (up_to_rejection (rulings u c x)))
      × ((run_validation_gates u c x).decision ≡ strictest (rulings u c x))
  unfolding run_validation_gates strictest
  run_validation_gates_lem = (
    run_rulings_results x.now no_results (rulings u c x),
    run_rulings_decision x.now no_results (rulings u c x) rulings-AllRule (inl refl),
  )
