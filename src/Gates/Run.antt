-- ===== src/Gates/Run.antt =====
-- internal/domain/validation.go: RunValidationGates, its closure record and its short circuit.
use firmscout.Base.{not, ◌||◌, ◌&&◌, List, [], ◌∷◌, ◌++◌, if◌then◌else◌}
use firmscout.Base.Text.{text, Unicode}
use firmscout.Base.Go.{Time, eqb, FloatOps}
use firmscout.Candidate.{CandidateRelease}
use firmscout.Gates.{
  gate_name, gate_index, passed, rejected, review_required, GateOutcome-discrete, GateResult,
  ValidationVerdict, ValidationContext, Ruling,
}
use firmscout.Gates.Rules.{rulings}

abbrev pub result_of : Time → Ruling → GateResult
result_of now r = record {
  gate = r.rules;
  order = gate_index r.rules;
  outcome = r.gives;
  detail = r.says;
  evaluated_by = text "deterministic";
  evaluated_at = now;
}

-- The closure `record`: the verdict so far with one more result
unfoldable pub record_gate : Time → ValidationVerdict → Ruling → ValidationVerdict
unfolding gate_index GateOutcome-discrete
record_gate now v r =
    let decides =
      eqb GateOutcome-discrete r.gives rejected
      || (eqb GateOutcome-discrete r.gives review_required
          && not (eqb GateOutcome-discrete v.decision rejected)) in
    record {
      results = v.results ++ result_of now r ∷ [];
      decision = if decides then r.gives else v.decision;
      reason = if decides then gate_name r.rules ++ (text ": " ++ r.says) else v.reason;
    }

abbrev pub no_results : ValidationVerdict
no_results = record { results = []; decision = passed; reason = text "all gates passed" }

-- The gates in turn: a rejection returns at once.
unfoldable pub run_rulings : Time → ValidationVerdict → List Ruling → ValidationVerdict
unfolding record_gate
run_rulings now v [] = v
run_rulings now v (r ∷ rs) =
    let rest = run_rulings now (record_gate now v r) rs in
    if eqb GateOutcome-discrete r.gives rejected then record_gate now v r else rest

module _ {Float : Type 0} ⦃F : FloatOps Float⦄ (u : Unicode) where
  unfoldable pub run_validation_gates :
      CandidateRelease Float → ValidationContext Float → ValidationVerdict
  unfolding run_rulings rulings
  run_validation_gates c x = run_rulings x.now no_results (rulings u c x)
