-- ===== src/Ingest/Extracted.antt =====
-- internal/application/ingest.go: in which order ExtractCandidates.Execute writes, and what it
-- counts.
use firmscout.Base.{
  ℕ, ◌+◌, true, false, List, [], ◌∷◌, ◌++◌, length, length-append, none, ◌≡◌, ◌⊎◌, inl, inr, refl,
  ap, ◌∙◌, arith, Option-cases, append_assoc,
}
use firmscout.Base.Text.{Str, text, Unicode}
use firmscout.Base.Go.{Error, Result, ok, err, FloatOps}
use firmscout.Source.{Source}
use firmscout.Evidence.{Evidence, validate_evidence}
use firmscout.Candidate.{CandidateRelease, extracted, validate_candidate}
use firmscout.CheckSource.Ports.{Job}
use firmscout.Ingest.{Effect, IngestPorts, insert_evidence, upsert_candidate, enqueue}
use firmscout.Ingest.Session.{Session}
use firmscout.Ingest.Extract.{ExtractResult, store, created_event, validation_job}
use firmscout.Ingest.Units.{Result-cases}

-- Every candidate of the result is counted once, as new or as a duplicate.
abbrev pub Counted : ExtractResult → Type 0
Counted o = o.new_candidates + o.duplicates ≡ length o.candidate_ids

abbrev pub Run : Type 0 → Type 0
Run Float = Result (Unit {0}) × Session Float ExtractResult

count_one :
    (new duplicate : ℕ) (ids : List Str) (id : Str)
    → new + duplicate ≡ length ids
    → (new + 1 + duplicate ≡ length (ids ++ (id ∷ [])))
      × (new + (duplicate + 1) ≡ length (ids ++ (id ∷ [])))
count_one new duplicate ids id h = let n = length-append ids (id ∷ []) in (omega arith, omega arith)

module _ {Float : Type 0} ⦃F : FloatOps Float⦄ (u : Unicode) where
  -- The candidate cites the evidence, and both pass their checks.
  pub record Cites (ev : Evidence Float) (c : CandidateRelease Float) : Type 0 where
    pub sound : validate_evidence u ev ≡ none
    pub valid : validate_candidate u c ≡ none
    pub cited : c.evidence_id ≡ ev.id
    pub state_extracted : c.state ≡ extracted

  -- The writes of the loop: evidence before each candidate, and a job for a new one.
  pub data Traced : List (Effect Float) → Type 0 where
    nothing : Traced []
    unused :
        {ev : Evidence Float} → validate_evidence u ev ≡ none → Traced (insert_evidence ev ∷ [])
    kept :
        {ev : Evidence Float} {c : CandidateRelease Float} {w : List (Effect Float)}
        → Cites ev c
        → Traced w
        → Traced (insert_evidence ev ∷ upsert_candidate c ∷ w)
    queued :
        {ev : Evidence Float} {c : CandidateRelease Float} {job : Job} {w : List (Effect Float)}
        → Cites ev c
        → Traced w
        → Traced (insert_evidence ev ∷ upsert_candidate c ∷ enqueue job ∷ w)

  -- One candidate: its writes, which others may follow if it succeeded, and its count.
  abbrev pub Recorded : List (Effect Float) → ExtractResult → Run Float → Type 0
  Recorded l o r =
      (Counted o → Counted r.1.out)
      × (r.1.out.extracted_count ≡ o.extracted_count)
      × (((r.0 ≡ ok tt)
            × (length r.1.out.candidate_ids ≡ length o.candidate_ids + 1)
            × ((w : List (Effect Float)) × (r.1.log ≡ l ++ w)
                × ((w' : List (Effect Float)) → Traced w' → Traced (w ++ w'))))
          ⊎ (((e : Error) × (r.0 ≡ err e))
              × ((w : List (Effect Float)) × (r.1.log ≡ l ++ w) × Traced w)))

  module _ (digest : Str → Str) (P : IngestPorts Float) where
    pub store-Recorded :
        (src : Source Float) (c : CandidateRelease Float) (ev : Evidence Float)
        (l : List (Effect Float)) (s : Session Float ExtractResult)
        → Cites ev c
        → s.log ≡ l ++ (insert_evidence ev ∷ [])
        → Recorded l s.out (store u digest P src c s)
    store-Recorded src c ev l s cites e =
        let up = s.log ++ (upsert_candidate c ∷ []) in
        let two : up ≡ l ++ (insert_evidence ev ∷ upsert_candidate c ∷ []) =
          ap (λ x. x ++ (upsert_candidate c ∷ [])) e
          ∙ append_assoc l (insert_evidence ev ∷ []) (upsert_candidate c ∷ []) in
        let new = λ (id : Str) (h : Counted s.out).
          (count_one s.out.new_candidates s.out.duplicates s.out.candidate_ids id h).0 in
        elim (Result-cases (P.upserted_candidate s.log c)) [
          | inr (x, q) ↦
              rw q (λ h. h, refl, inr ((x, refl), (insert_evidence ev ∷ [], e, unused cites.sound)))
          | inl ((id, true), q) ↦
              elim (Option-cases (P.publish (created_event u digest P src id c ∷ []))) [
                | inr (x, n) ↦
                    rw (q, n)
                      (
                        new id,
                        refl,
                        inr (
                          (x, refl),
                          (insert_evidence ev ∷ upsert_candidate c ∷ [], two, kept cites nothing),
                        ),
                      )
                | inl n ↦
                    let job = validation_job (P.new_id (text "job") s.drawn) id P.now in
                    elim (Option-cases (P.answer up (enqueue job))) [
                      | inr (x, k) ↦
                          rw (q, n, k)
                            (
                              new id,
                              refl,
                              inr (
                                (x, refl),
                                (
                                  insert_evidence ev ∷ upsert_candidate c ∷ [],
                                  two,
                                  kept cites nothing,
                                ),
                              ),
                            )
                      | inl k ↦
                          rw (q, n, k)
                            (
                              new id,
                              refl,
                              inl (
                                refl,
                                length-append s.out.candidate_ids (id ∷ []),
                                (
                                  insert_evidence ev ∷ upsert_candidate c ∷ enqueue job ∷ [],
                                  ap (λ y. y ++ (enqueue job ∷ [])) two
                                      ∙ append_assoc l
                                          (insert_evidence ev ∷ upsert_candidate c ∷ [])
                                          (enqueue job ∷ []),
                                  λ w' t. queued cites t,
                                ),
                              ),
                            )
                    ]
              ]
          | inl ((id, false), q) ↦ rw q (
            λ h. (count_one s.out.new_candidates s.out.duplicates s.out.candidate_ids id h).1,
            refl,
            inl (
              refl,
              length-append s.out.candidate_ids (id ∷ []),
              (insert_evidence ev ∷ upsert_candidate c ∷ [], two, λ w' t. kept cites t),
            ),
          )
        ]
