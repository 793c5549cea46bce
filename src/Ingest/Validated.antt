-- ===== src/Ingest/Validated.antt =====
-- internal/application/ingest.go: what ValidateCandidate.Execute leaves where it fails.
use firmscout.Base.{
  subst, none, true, false, List, [], ◌∷◌, some, ◌≡◌, ◌⊎◌, inl, inr, refl, sym, ap, ◌∙◌,
  Option-cases,
}
use firmscout.Base.Text.{Str, Unicode}
use firmscout.Base.Go.{Error, Result, ok, err, FloatOps}
use firmscout.Source.{Source}
use firmscout.Event.{Event}
use firmscout.Candidate.{CandidateRelease}
use firmscout.Gates.{ValidationContext}
use firmscout.Gates.Run.{run_validation_gates}
use firmscout.Ingest.{Effect, IngestPorts}
use firmscout.Ingest.Session.{Session, M, after, ◌>>◌, set_out, within}
use firmscout.Ingest.Context.{ValidateResult, ConflictAssessment, build_context}
use firmscout.Ingest.Validate.{
  validate_writes, validate_loaded, validate_candidate_job, announce_pending, announce_list,
  verdict_result,
}
use firmscout.Ingest.ReadOnly.{build_context-ReadOnly}
use firmscout.Ingest.Granted.{validate_writes-Asks}
use firmscout.Ingest.Units.{within-ok, within-announced, Result-cases, within-log}

module _ {Float : Type 0} ⦃F : FloatOps Float⦄ (u : Unicode) (P : IngestPorts Float) where
  abbrev pub Run : Type 0
  Run = Result (Unit {0}) × Session Float ValidateResult

  announced-pending :
      (es : List Event) (s : Session Float ValidateResult) (e : Error)
      → (announce_list u P es s).0 ≡ err e
      → ((announce_list u P es s).1.announced ≡ s.announced)
        × ((announce_list u P es s).1.log ≡ s.log)
        × (P.publish es ≡ some e)
  announced-pending [] s e h = absurd (cc)
  announced-pending (x ∷ xs) s e h = elim (Option-cases (P.publish (x ∷ xs))) [
    | inl q ↦ absurd (let k = rw q at h in cc)
    | inr (y, q) ↦ let k = rw q at h in rw q (refl, refl, cc)
  ]

  -- The body of a unit of work went through and was committed, its writes are all there, and the
  -- events that it kept back could not be sent.
  abbrev pub Unsent :
      Error
      → M Float ValidateResult (Unit {0})
      → Session Float ValidateResult
      → List (Effect Float)
      → Type 0
  Unsent e m s log =
      let t = m (record s { in_unit = true }) in
      (t.0 ≡ ok tt) × (P.commit t.1.log ≡ none) × (log ≡ t.1.log) × (P.publish t.1.pending ≡ some e)

  -- From the unit of work on
  unit-failed :
      (m : M Float ValidateResult (Unit {0})) (s : Session Float ValidateResult) (e : Error)
      → s.in_unit ≡ false
      → ((t : Session Float ValidateResult) → (m t).1.announced ≡ t.announced)
      → ((within P m >> announce_pending u P) s).0 ≡ err e
      → ((within P m >> announce_pending u P) s).1.announced ≡ s.announced
        × ((((within P m >> announce_pending u P) s).1.log ≡ s.log)
            ⊎ Unsent e m s ((within P m >> announce_pending u P) s).1.log)
  unit-failed m s e out quiet h =
      let r = within P m s in
      let rest = λ (x : Run). after x (λ _. announce_pending u P) in
      let sent = within-announced P m s out (quiet (record s { in_unit = true })) in
      elim (Result-cases r.0) [
        | inr (x, q) ↦
            let whole : r ≡ (err x, r.1) = λ i. (q i, r.1) in
            (
              ap (λ (y : Run). (rest y).1.announced) whole ∙ sent,
              inl (ap (λ (y : Run). (rest y).1.log) whole ∙ within-log P m s x out q),
            )
        | inl (a, q) ↦
            let whole : r ≡ (ok a, r.1) = λ i. (q i, r.1) in
            let (fine, same, taken) = within-ok P m s a out q in
            let k =
              announced-pending r.1.pending r.1 e (sym (ap (λ (y : Run). (rest y).0) whole) ∙ h) in
            let kept = ap (λ (y : Session Float ValidateResult). y.pending) same in
            let logged = ap (λ (y : Session Float ValidateResult). y.log) same in
            (
              ap (λ (y : Run). (rest y).1.announced) whole ∙ k.0 ∙ sent,
              inr (
                fine,
                taken,
                ap (λ (y : Run). (rest y).1.log) whole ∙ k.1 ∙ logged,
                ap P.publish (sym kept) ∙ k.2,
              ),
            )
      ]

  -- The rest of a validation, once the candidate, its source and the context are there.
  abbrev pub rest_of :
      CandidateRelease Float
      → Source Float
      → ValidationContext Float × ConflictAssessment
      → M Float ValidateResult (Unit {0})
  rest_of c src r =
      set_out (λ o. verdict_result u P c (run_validation_gates u c r.0))
      >> (within P (validate_writes u P c src r.0 r.1 (run_validation_gates u c r.0))
          >> announce_pending u P)

  -- All the writes of a validation were committed, and only its events could not be sent.
  abbrev pub Announcing :
      Error
      → CandidateRelease Float
      → Source Float
      → Session Float ValidateResult
      → List (Effect Float)
      → Type 0
  Announcing e c src s log =
      (x : ValidationContext Float) × (a : ConflictAssessment) × (build_context u P c src s
        ≡ (ok (x, a), s))
      × (let v = run_validation_gates u c x in
          Unsent e (validate_writes u P c src x a v) (record s { out = verdict_result u P c v })
            log)

  pub loaded-run :
      (c : CandidateRelease Float) (src : Source Float) (s : Session Float ValidateResult)
      → ((e : Error) × (validate_loaded u P c src s ≡ (err e, s)))
        ⊎ ((r : ValidationContext Float × ConflictAssessment) × (build_context u P c src s
              ≡ (ok r, s))
            × (validate_loaded u P c src s ≡ rest_of c src r s))
  unfolding validate_loaded
  loaded-run c src s =
      let same = (build_context-ReadOnly u P c src).unchanged s in
      let b = build_context u P c src s in
      elim (Result-cases b.0) [
        | inr (e, q) ↦
            let whole : b ≡ (err e, s) = λ i. (q i, same i) in
            inl (e, ap (λ x. after x (rest_of c src)) whole)
        | inl (r, q) ↦
            let whole : b ≡ (ok r, s) = λ i. (q i, same i) in
            inr (r, whole, ap (λ x. after x (rest_of c src)) whole)
      ]

  loaded-failed :
      (c : CandidateRelease Float) (src : Source Float) (s : Session Float ValidateResult)
      (e : Error)
      → s.in_unit ≡ false
      → (validate_loaded u P c src s).0 ≡ err e
      → ((validate_loaded u P c src s).1.announced ≡ s.announced)
        × (((validate_loaded u P c src s).1.log ≡ s.log)
            ⊎ Announcing e c src s (validate_loaded u P c src s).1.log)
  loaded-failed c src s e out h = elim (loaded-run c src s) [
    | inl (x, q) ↦ (ap (λ (y : Run). y.1.announced) q, inl (ap (λ (y : Run). y.1.log) q))
    | inr (r, built, q) ↦
        let v = run_validation_gates u c r.0 in
        let t = record s { out = verdict_result u P c v } in
        let quiet = (validate_writes-Asks u P c src r.0 r.1 v).quiet in
        let (a, l) =
          unit-failed (validate_writes u P c src r.0 r.1 v) t e out quiet
            (sym (ap (λ (y : Run). y.0) q) ∙ h) in
        (
          ap (λ (y : Run). y.1.announced) q ∙ a,
          elim l [
            | inl k ↦ inl (ap (λ (y : Run). y.1.log) q ∙ k)
            | inr (fine, taken, log, lost) ↦
                inr (r.0, r.1, built, (fine, taken, ap (λ (y : Run). y.1.log) q ∙ log, lost))
          ],
        )
  ]

  -- A validation in a unit of its own that fails sends no event, and leaves every write undone; or
  -- all the writes of the loaded candidate's validation went through and were committed, and only the
  -- events that they kept back could not be sent.
  pub validate_candidate_job-log :
      (id : Str) (s : Session Float ValidateResult) (e : Error)
      → s.in_unit ≡ false
      → (validate_candidate_job u P id s).0 ≡ err e
      → ((validate_candidate_job u P id s).1.announced ≡ s.announced)
        × (((validate_candidate_job u P id s).1.log ≡ s.log)
            ⊎ ((c : CandidateRelease Float) × (src : Source Float) × (P.get_candidate s.log id
                  ≡ ok c)
                × (P.get_source c.source_id ≡ ok src)
                × Announcing e c src s (validate_candidate_job u P id s).1.log))
  unfolding validate_candidate_job
  validate_candidate_job-log id s e out h = elim (Result-cases (P.get_candidate s.log id)) [
    | inr (x, q) ↦ rw q (refl, inl refl)
    | inl (c, q) ↦ elim (Result-cases (P.get_source c.source_id)) [
      | inr (x, q') ↦ rw (q, q') (refl, inl refl)
      | inl (src, q') ↦
          let run : validate_candidate_job u P id s ≡ validate_loaded u P c src s =
            rw (q, q') refl in
          let (quiet, left) = loaded-failed c src s e out (sym (ap (λ (y : Run). y.0) run) ∙ h) in
          (
            ap (λ (y : Run). y.1.announced) run ∙ quiet,
            elim left [
              | inl k ↦ inl (ap (λ (y : Run). y.1.log) run ∙ k)
              | inr k ↦ inr (
                c,
                src,
                q,
                q',
                subst (Announcing e c src s) (sym (ap (λ (y : Run). y.1.log) run)) k,
              )
            ],
          )
    ]
  ]
