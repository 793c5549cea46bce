-- ===== src/Candidate/Path.antt =====
-- internal/application/ingest.go: pathTo, and the walk of ValidateCandidate.transition along it.
-- The port that stores a state is a test of the calls that fail.
use firmscout.Base.{
  append_assoc, ◌∙◌, sym, append-nil, subst, Bool, true, false, not, List, [], ◌∷◌, Option, none,
  some, if◌then◌else◌, is_empty, ◌≡◌, refl, arith, ◌⊎◌, ◌++◌,
}
use firmscout.Base.Go.{eqb, Error, port_failed, ok, err}
use firmscout.Candidate.{
  CandidateState, normalized, validation_pending, validated, rejected, human_review_required,
  extracted, CandidateRelease, candidate_transitions, valid_candidate_state, can_move,
  CandidateState-discrete, transition_to,
}

-- The loop of pathTo over its chain
unfoldable pub follow : List CandidateState → CandidateState → List CandidateState
follow [] cur = []
follow (step ∷ chain) cur =
    let stay = follow chain cur in
    let move = follow chain step in
    if eqb CandidateState-discrete cur step
    then stay
    else if can_move cur step
    then step ∷ move
    else stay

unfoldable pub path_to : CandidateState → CandidateState → List CandidateState
unfolding follow
path_to from to =
    if eqb CandidateState-discrete from to
    then []
    else if can_move from to
    then to ∷ []
    else follow (normalized ∷ validation_pending ∷ to ∷ []) from

-- What a walk leaves: the candidate in memory, the states stored, and the error if it stopped.
pub record Walk (Float : Type 0) : Type 0 where
  pub candidate : CandidateRelease Float
  pub stored : List CandidateState
  pub failure : Option Error

abbrev pub walked :
    {Float : Type 0} → CandidateRelease Float → List CandidateState → Option Error → Walk Float
walked c stored e = record { candidate = c; stored = stored; failure = e }

module _ {Float : Type 0} (store_fails : CandidateState → Bool) where
  unfoldable pub walk :
      List CandidateState → List CandidateState → CandidateRelease Float → Walk Float
  unfolding transition_to
  walk [] stored c = walked c stored none
  walk (step ∷ steps) stored c = elim (transition_to c step) [
    | err e ↦ walked c stored (some e)
    | ok d ↦
        let rest = walk steps (stored ++ step ∷ []) d in
        if store_fails step
        then walked d stored (some (port_failed "update candidate state"))
        else rest
  ]

  -- transition: it reports a move if the path has a step and no call failed
  unfoldable pub transition : CandidateRelease Float → CandidateState → Walk Float × Bool
  unfolding walk path_to
  transition c to =
      let w = walk (path_to c.state to) [] c in
      (w, elim w.failure [ none ↦ not (is_empty (path_to c.state to)) | some e ↦ false ])

-- A chain of edges of the machine from one state to another.
pub data Chain : CandidateState → List CandidateState → CandidateState → Type 0 where
  done : {s : CandidateState} → Chain s [] s
  edge :
      {s a b : CandidateState} {l : List CandidateState}
      → can_move s a ≡ true
      → Chain a l b
      → Chain s (a ∷ l) b

abbrev last_of : CandidateState → List CandidateState → CandidateState
last_of s [] = s
last_of s (a ∷ l) = last_of a l

abbrev Route : CandidateState → List CandidateState → Type 0
Route s l = Chain s l (last_of s l)

if-Route :
    (s : CandidateState) {x y : List CandidateState} (b : Bool)
    → (b ≡ true → Route s x)
    → (b ≡ false → Route s y)
    → Route s (if b then x else y)
if-Route s true f g = f refl
if-Route s false f g = g refl

follow-Route : (l : List CandidateState) (s : CandidateState) → Route s (follow l s)
unfolding follow
follow-Route [] s = done
follow-Route (a ∷ l) s =
    if-Route s (eqb CandidateState-discrete s a) (λ _. follow-Route l s)
      (λ _. if-Route s (can_move s a) (λ e. edge e (follow-Route l a)) (λ _. follow-Route l s))

path_to-Route : (s t : CandidateState) → Route s (path_to s t)
unfolding path_to
path_to-Route s t =
    if-Route s (eqb CandidateState-discrete s t) (λ _. done)
      (λ _.
        if-Route s (can_move s t) (λ e. edge e done)
          (λ _. follow-Route (normalized ∷ validation_pending ∷ t ∷ []) s))

can_move-valid : (s t : CandidateState) → can_move s t ≡ true → valid_candidate_state t ≡ true
unfolding can_move candidate_transitions CandidateState-discrete valid_candidate_state
can_move-valid s t e = ground arith

module _ {Float : Type 0} (store_fails : CandidateState → Bool) where
  -- One step along an edge.
  step_lem :
      (c : CandidateRelease Float) (s a : CandidateState)
      → c.state ≡ s
      → can_move s a ≡ true
      → transition_to c a ≡ ok (record c { state = a })
  unfolding transition_to
  step_lem c s a p e =
      let v = can_move-valid s a e in
      let m = subst (λ x. can_move x a ≡ true) (sym p) e in ground arith

  walk_step :
      (c : CandidateRelease Float) (a : CandidateState) (l : List CandidateState)
      (acc : List CandidateState)
      → transition_to c a ≡ ok (record c { state = a })
      → store_fails a ≡ false
      → walk store_fails (a ∷ l) acc c ≡ walk store_fails l (acc ++ a ∷ []) (record c { state = a })
  unfolding walk
  walk_step c a l acc e f = rw (walk, e, f) refl

  -- A walk along a chain, where no call of the port fails.
  walk-Chain :
      (c : CandidateRelease Float) {s : CandidateState} {l : List CandidateState}
      {b : CandidateState} (acc : List CandidateState)
      → Chain s l b
      → c.state ≡ s
      → ((a : CandidateState) → store_fails a ≡ false)
      → walk store_fails l acc c ≡ walked (record c { state = b }) (acc ++ l) none
  unfolding walk
  walk-Chain c {s} acc done p stores = rw (append-nil, ← p) refl
  walk-Chain c {s} acc (edge {a} {l} e ch) p stores =
      walk_step c a l acc (step_lem c s a p e) (stores a)
      ∙ rw (append_assoc) at (walk-Chain (record c { state = a }) (acc ++ a ∷ []) ch refl stores)

  -- Where no call of the port fails, ValidateCandidate.transition makes exactly the steps of the
  -- path, with no error, and leaves the candidate in the state at its end.
  transition_lem :
      (c : CandidateRelease Float) (to : CandidateState)
      → ((a : CandidateState) → store_fails a ≡ false)
      → (transition store_fails c to).0
        ≡ walked
            (record c { state = last_of c.state (path_to c.state to) })
            (path_to c.state to)
            none
  unfolding transition
  transition_lem c to stores = walk-Chain c [] (path_to-Route c.state to) refl stores

-- The states in which a candidate waits for validation or review.
abbrev pub Waiting : CandidateState → Type 0
Waiting s =
    (s ≡ extracted)
    ⊎ ((s ≡ normalized)
        ⊎ ((s ≡ validation_pending) ⊎ ((s ≡ validated) ⊎ (s ≡ human_review_required))))

-- The states that a verdict sends a candidate to.
abbrev pub Target : CandidateState → Type 0
Target t = (t ≡ validated) ⊎ ((t ≡ rejected) ⊎ (t ≡ human_review_required))

arrives : (s t : CandidateState) → Waiting s → Target t → last_of s (path_to s t) ≡ t
unfolding path_to follow CandidateState-discrete can_move candidate_transitions
arrives s t w g = ground arith

module _ {Float : Type 0} (store_fails : CandidateState → Bool) where
  -- Where a candidate waits for validation or review, the target is one that a verdict has, and no
  -- call of the port fails, ValidateCandidate.transition leaves the candidate at the target, having
  -- stored the states of a chain of edges from the old state to the target, and reports no error.
  pub transition_arrives :
      (c : CandidateRelease Float) (to : CandidateState)
      → Waiting c.state
      → Target to
      → ((a : CandidateState) → store_fails a ≡ false)
      → ((transition store_fails c to).0
          ≡ walked (record c { state = to }) (path_to c.state to) none)
        × Chain c.state (path_to c.state to) to
  transition_arrives c to w g stores =
      let p = arrives c.state to w g in
      (
        subst
            (λ x.
              (transition store_fails c to).0
              ≡ walked (record c { state = x }) (path_to c.state to) none)
            p (transition_lem store_fails c to stores),
        subst (λ x. Chain c.state (path_to c.state to) x) p (path_to-Route c.state to),
      )
