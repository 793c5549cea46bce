-- ===== src/Ingest/ExtractedAll.antt =====
-- internal/application/ingest.go: the loop of ExtractCandidates.Execute over the candidates of a
-- collector.
use firmscout.Base.{
  ℕ, ◌+◌, List, [], ◌∷◌, ◌++◌, length, none, ◌≡◌, inl, inr, refl, sym, ap, ◌∙◌, arith, Option-cases,
  append_assoc, append-nil,
}
use firmscout.Base.Text.{Str, text, Unicode}
use firmscout.Base.Go.{Error, Result, ok, err, FloatOps, eqb_iff}
use firmscout.Source.{Source}
use firmscout.Evidence.{validate_evidence}
use firmscout.Candidate.{
  CandidateRelease, CandidateState-discrete, extracted, validate_candidate, transition_to,
}
use firmscout.Ingest.{Effect, IngestPorts, Collector, insert_evidence}
use firmscout.Ingest.Session.{Session, after, ◌>>◌}
use firmscout.Ingest.Extract.{
  failed_event, ExtractResult, no_extraction, evidence_of, prepared, record_candidate,
  record_candidates, record_extracted,
}
use firmscout.Ingest.Extracted.{
  Cites, Traced, nothing, unused, Counted, Run, Recorded, store-Recorded,
}
use firmscout.Ingest.Units.{Result-cases}

transition_to-extracted :
    {Float : Type 0} (c d : CandidateRelease Float)
    → transition_to c extracted ≡ ok d
    → (d.state ≡ extracted) × (d.evidence_id ≡ c.evidence_id)
unfolding transition_to
transition_to-extracted c d h = ground (arith, eqb_iff CandidateState-discrete c.state extracted)

module _ {Float : Type 0} ⦃F : FloatOps Float⦄ (u : Unicode) (digest : Str → Str)
    (P : IngestPorts Float) (src : Source Float) (collector : Collector Float)
    (artifact_id : Str) where
  cites :
      (c c' : CandidateRelease Float) (evidence_id id : Str)
      → validate_evidence u (evidence_of u evidence_id P.now src collector artifact_id c) ≡ none
      → validate_candidate u c' ≡ none
      → transition_to (prepared u digest id evidence_id P.now src c) extracted ≡ ok c'
      → Cites u (evidence_of u evidence_id P.now src collector artifact_id c) c'
  unfolding evidence_of prepared
  cites c c' evidence_id id sound v t =
      let k = transition_to-extracted (prepared u digest id evidence_id P.now src c) c' t in
      record { sound = sound; valid = v; cited = k.1; state_extracted = k.0 }

  record_candidate-Recorded :
      (c : CandidateRelease Float) (s : Session Float ExtractResult)
      → Recorded u s.log s.out (record_candidate u digest P src collector artifact_id c s)
  unfolding record_candidate
  record_candidate-Recorded c s =
      let evidence_id = P.new_id (text "evd") s.drawn in
      let ev = evidence_of u evidence_id P.now src collector artifact_id c in
      let id = P.new_id (text "cnd") (s.drawn + 1) in
      let p = prepared u digest id evidence_id P.now src c in
      let one = s.log ++ (insert_evidence ev ∷ []) in
      let none_yet = sym (append-nil s.log) in
      elim (Option-cases (validate_evidence u ev)) [
        | inr (e, q) ↦ rw q (λ h. h, refl, inr ((e, refl), ([], none_yet, nothing)))
        | inl sound ↦ elim (Option-cases (P.answer s.log (insert_evidence ev))) [
          | inr (e, q) ↦ rw (sound, q) (λ h. h, refl, inr ((e, refl), ([], none_yet, nothing)))
          | inl q ↦ elim (Result-cases (transition_to p extracted)) [
            | inr (e, t) ↦
                rw (sound, q, t)
                  (λ h. h, refl, inr ((e, refl), (insert_evidence ev ∷ [], refl, unused sound)))
            | inl (c', t) ↦ elim (Option-cases (validate_candidate u c')) [
              | inr (e, v) ↦
                  rw (sound, q, t, v)
                    (λ h. h, refl, inr ((e, refl), (insert_evidence ev ∷ [], refl, unused sound)))
              | inl v ↦
                  rw (sound, q, t, v)
                    (store-Recorded u digest P src c' ev s.log
                      (record s { log = one; drawn = s.drawn + 1 + 1 })
                      (cites c c' evidence_id id sound v t) refl)
            ]
          ]
        ]
      ]

  -- The loop: all its writes, its counts, and one candidate of the result for each that was given.
  abbrev pub Extraction : ℕ → List (Effect Float) → ExtractResult → Run Float → Type 0
  Extraction n l o r =
      (Counted o → Counted r.1.out)
      × ((w : List (Effect Float)) × (r.1.log ≡ l ++ w) × Traced u w)
      × (r.1.out.extracted_count ≡ o.extracted_count)
      × (r.0 ≡ ok tt → length r.1.out.candidate_ids ≡ length o.candidate_ids + n)

  pub record_candidates-Extraction :
      (cs : List (CandidateRelease Float)) (s : Session Float ExtractResult)
      → Extraction
          (length cs)
          s.log
          s.out
          (record_candidates u digest P src collector artifact_id cs s)
  unfolding record_candidates
  record_candidates-Extraction [] s =
      (λ h. h, ([], sym (append-nil s.log), nothing), refl, λ h. omega arith)
  record_candidates-Extraction (c ∷ cs) s =
      let first = record_candidate u digest P src collector artifact_id c s in
      let (counted, total, ends) = record_candidate-Recorded c s in
      let rest = record_candidates-Extraction cs first.1 in
      elim ends [
        | inl (fine, n, (w, log, more)) ↦
            let run : (record_candidate u digest P src collector artifact_id c
                    >> record_candidates u digest P src collector artifact_id cs)
                  s
                ≡ record_candidates u digest P src collector artifact_id cs first.1 =
              ap
                (λ (x : Result (Unit {0})).
                  after (x, first.1)
                    (λ _. record_candidates u digest P src collector artifact_id cs))
                fine in
            let (counted', (w', log', t'), total', all) = rest in
            rw run (
              λ h. counted' (counted h),
              (w ++ w', log' ∙ ap (λ x. x ++ w') log ∙ append_assoc s.log w w', more w' t'),
              total' ∙ total,
              λ h. let k = all h in omega arith,
            )
        | inr ((e, failed), (w, log, t)) ↦
            let run : (record_candidate u digest P src collector artifact_id c
                    >> record_candidates u digest P src collector artifact_id cs)
                  s
                ≡ (err e, first.1) =
              ap
                (λ (x : Result (Unit {0})).
                  after (x, first.1)
                    (λ _. record_candidates u digest P src collector artifact_id cs))
                failed in
            rw run (counted, (w, log, t), total, λ h. absurd (cc))
      ]

  failed-run :
      (e : Error) (s : Session Float ExtractResult)
      → let r = record_extracted u digest P src collector artifact_id (err e) s in
        (r.0 ≡ err e) × (r.1.log ≡ s.log) × (r.1.out ≡ s.out)
  failed-run e s = elim (Option-cases (P.publish (failed_event u digest P src collector e ∷ []))) [
    | inl n ↦ rw n (refl, refl, refl)
    | inr (x, n) ↦ rw n (refl, refl, refl)
  ]

  abbrev begun : ℕ → ExtractResult → ExtractResult
  begun n o = record o { source_id = src.id; collector_id = collector.id; extracted_count = n }

  -- ExtractCandidates, from the collector's answer on: whatever fails, each candidate in the log
  -- stands directly after the evidence that it cites, which passed its checks as the candidate did,
  -- in the state `extracted`; a job follows only a candidate. And each candidate of the result is
  -- counted once, as new or as a duplicate.
  pub record_extracted-Traced :
      (answer : Result (List (CandidateRelease Float))) (s : Session Float ExtractResult)
      → s.out ≡ no_extraction
      → Counted (record_extracted u digest P src collector artifact_id answer s).1.out
        × ((w : List (Effect Float)) × ((record_extracted u digest P src collector artifact_id
                answer s).1.log
              ≡ s.log ++ w)
            × Traced u w)
  record_extracted-Traced (err e) s start =
      let (failed, log, out) = failed-run e s in
      (rw (out, start) (omega arith), ([], log ∙ sym (append-nil s.log), nothing))
  record_extracted-Traced (ok cs) s start =
      let (counted, writes, total, all) =
        record_candidates-Extraction cs (record s { out = begun (length cs) s.out }) in
      (counted (rw start (omega arith)), writes)

  -- An extraction that succeeds has put every candidate of the collector into the result.
  pub record_extracted_all :
      (answer : Result (List (CandidateRelease Float))) (s : Session Float ExtractResult)
      → s.out ≡ no_extraction
      → (record_extracted u digest P src collector artifact_id answer s).0 ≡ ok tt
      → (cs : List (CandidateRelease Float)) × (answer ≡ ok cs)
        × ((record_extracted u digest P src collector artifact_id answer s).1.out.extracted_count
            ≡ length cs)
        × (length
              (record_extracted u digest P src collector artifact_id answer s).1.out.candidate_ids
            ≡ length cs)
  record_extracted_all (err e) s start h = absurd (let k = (failed-run e s).0 in cc)
  record_extracted_all (ok cs) s start h =
      let (counted, writes, total, all) =
        record_candidates-Extraction cs (record s { out = begun (length cs) s.out }) in
      let n : length s.out.candidate_ids ≡ 0 = rw start (refl) in
      (cs, refl, total, let k = all h in omega arith)
