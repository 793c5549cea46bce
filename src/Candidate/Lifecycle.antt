-- ===== src/Candidate/Lifecycle.antt =====
-- The candidate state machine of internal/domain/candidate.go: what TransitionTo does on every
-- branch, and how a candidate comes to be published.
use firmscout.Base.{subst, sym, ◌≡◌, ◌≢◌, ◌⊎◌, inl, inr, true, arith, ◌↔◌}
use firmscout.Base.Go.{ok}
use firmscout.Candidate.{
  CandidateState, published, superseded, validated, human_review_required, CandidateRelease,
  candidate_transitions, valid_candidate_state, can_move, CandidateState-discrete, transition_to,
}

-- The states that a candidate goes through, the last one first.
pub data Trace (s : CandidateState) : CandidateState → Type 0 where
  here : Trace s s
  step : {a b : CandidateState} → Trace s a → can_move a b ≡ true → Trace s b

-- A state among those that a trace goes through.
abbrev pub Visits :
    {s : CandidateState} → CandidateState → {b : CandidateState} → Trace s b → Type 0
Visits {s} x here = x ≡ s
Visits {s} x (step {a} {b} t e) = (x ≡ b) ⊎ Visits x t

into_published :
    (a : CandidateState)
    → can_move a published ≡ true
    → (a ≡ validated) ⊎ (a ≡ human_review_required)
unfolding can_move candidate_transitions CandidateState-discrete
into_published a e = ground arith

into_superseded : (a : CandidateState) → can_move a superseded ≡ true → a ≡ published
unfolding can_move candidate_transitions CandidateState-discrete
into_superseded a e = ground arith

top : {s a x : CandidateState} (t : Trace s a) → a ≡ x → Visits x t
top here q = sym q
top (step t e) q = inl (sym q)

abbrev pub Final : CandidateState → Type 0
Final b = (b ≡ published) ⊎ (b ≡ superseded)

-- Every trace along edges of the machine that ends at `published` or `superseded`, from a state that
-- is neither, goes through `validated` or `human_review_required`.
pub Trace-Visits :
    {s b : CandidateState} (t : Trace s b)
    → s ≢ published
    → s ≢ superseded
    → Final b
    → Visits validated t ⊎ Visits human_review_required t
Trace-Visits here n m f = ground arith
Trace-Visits {s} {b} (step {a} t e) n m (inl p) =
    elim (into_published a (subst (λ x. can_move a x ≡ true) p e)) [
      | inl q ↦ inl (inr (top t q))
      | inr q ↦ inr (inr (top t q))
    ]
Trace-Visits {s} {b} (step {a} t e) n m (inr p) =
    elim (Trace-Visits t n m (inl (into_superseded a (subst (λ x. can_move a x ≡ true) p e)))) [
      | inl v ↦ inl (inr v)
      | inr v ↦ inr (inr v)
    ]

module _ {Float : Type 0} where
  -- TransitionTo succeeds exactly on a declared target that is the present state or joined to it by an
  -- edge, and then it changes the state alone.
  pub transition_to_iff :
      (c d : CandidateRelease Float) (next : CandidateState)
      → (transition_to c next ≡ ok d) ↔ (
          (valid_candidate_state next ≡ true)
          × ((c.state ≡ next) ⊎ (can_move c.state next ≡ true))
          × (d ≡ record c { state = next }))
  unfolding transition_to
  transition_to_iff c d next = (λ e. ground arith, λ e. ground arith)
