-- ===== src/Ingest/Granted.antt =====
-- internal/application/ingest.go: the writes of ValidateCandidate ask for a publication as the course
-- of the verdict says, and send no event.
use firmscout.Base.{
  Bool-cases, ◌&&◌, ap, sym, subst, append-nil, Bool, true, false, not, List, [], ◌∷◌, is_empty,
  ◌≡◌, inl, inr, refl, Option-cases,
}
use firmscout.Base.Text.{Str, text, Unicode}
use firmscout.Base.Go.{FloatOps, Result, ok, err}
use firmscout.Source.{Source}
use firmscout.Candidate.{CandidateRelease, CandidateState}
use firmscout.Candidate.Path.{path_to}
use firmscout.Gates.{ValidationVerdict, ValidationContext}
use firmscout.CheckSource.Ports.{Job}
use firmscout.Ingest.{IngestPorts, enqueue, set_resolved_product}
use firmscout.Ingest.Jobs.{jobs, jobs-append}
use firmscout.Ingest.Session.{M, ◌>>◌, pure, set_out, branch, later}
use firmscout.Ingest.Context.{ValidateResult, ConflictAssessment}
use firmscout.Ingest.Reconcile.{ConflictOutcome, reconcile_conflict}
use firmscout.Ingest.Validate.{
  Course, publish, review, reject, course_of, walk_states, follow_course, enqueue_publication,
  settle_product, refresh_duplicate, route_if_needed, validate_writes, publication_job,
  course_event, course_reason, course_state,
}
use firmscout.Ingest.Steady.{
  Steady, steady_rules, call-Steady, branch-Steady, pure-Steady, later-Steady,
}
use firmscout.Ingest.Routed.{reconcile_conflict-Steady, route_to_review-Steady}
use firmscout.Ingest.Asking.{Mild, Steady-Mild, >>=-Mild, Asks, Gives, Mild-Asks, Asks-Mild}

abbrev pub is_publish : Course → Bool
is_publish publish = true
is_publish _ = false

module _ {Float : Type 0} (P : IngestPorts Float) where
  walk_states-Steady :
      (steps : List CandidateState) (why : Str) (c : CandidateRelease Float)
      → Steady (walk_states P steps why c)
  unfolding walk_states
  walk_states-Steady [] why c = search steady_rules
  walk_states-Steady (step ∷ steps) why c =
      search (steady_rules, λ (d : CandidateRelease Float). walk_states-Steady steps why d) depth 20

  settle_product-Steady :
      (x : ValidationContext Float) (c : CandidateRelease Float) → Steady (settle_product P x c)
  settle_product-Steady x c = search steady_rules depth 20

  refresh_duplicate-Steady : (x : ValidationContext Float) → Steady (refresh_duplicate P x)
  refresh_duplicate-Steady x = search steady_rules depth 20

  pub branch-Mild :
      {A : Type 0} (b : Bool) (m n : M Float ValidateResult A)
      → Mild m
      → Mild n
      → Mild (branch b m n)
  branch-Mild true m n h k = record { leaves = λ s. h.leaves s }
  branch-Mild false m n h k = record { leaves = λ s. k.leaves s }

  -- The jobs of a run that asks for a publication of the candidate, or of one that does not
  abbrev pub Publications : Bool → Str → List Job → Type 0
  Publications true id w = (job_id : Str) × (w ≡ publication_job job_id id P.now ∷ [])
  Publications false id w = w ≡ []

  -- The job of a publication, and the flag: only for a candidate that passed
  enqueue-Asks :
      (course : Course) (id : Str) (d : CandidateRelease Float)
      → Asks
          (is_publish course)
          (Publications (is_publish course) id)
          (enqueue_publication P course id >> pure d)
  enqueue-Asks publish id d = record {
    quiet = λ s.
        let job = publication_job (P.new_id (text "job") s.drawn) id P.now in
        elim (Option-cases (P.answer s.log (enqueue job))) [
          | inl q ↦ rw q refl
          | inr (x, q) ↦ rw q refl
        ];
    asks = λ s a fresh e.
        let job = publication_job (P.new_id (text "job") s.drawn) id P.now in
        elim (Option-cases (P.answer s.log (enqueue job))) [
          | inl q ↦ rw q (
            refl,
            refl,
            refl,
            (job ∷ [], jobs-append s.log (enqueue job ∷ []), (P.new_id (text "job") s.drawn, refl)),
          )
          | inr (x, q) ↦ absurd (let k = rw q at e in cc)
        ];
  }
  enqueue-Asks review id d = record {
    quiet = λ s. refl;
    asks = λ s a fresh e. (refl, refl, fresh, ([], sym (append-nil (jobs s.log)), refl));
  }
  enqueue-Asks reject id d = record {
    quiet = λ s. refl;
    asks = λ s a fresh e. (refl, refl, fresh, ([], sym (append-nil (jobs s.log)), refl));
  }

  follow_course-Asks :
      (course : Course) (c : CandidateRelease Float) (why : Str)
      → Asks
          (is_publish course)
          (Publications (is_publish course) c.id)
          (follow_course P course c why)
  unfolding follow_course
  follow_course-Asks course c why =
      let steps = path_to c.state (course_state course) in
      let event = later (course_event P course c.id why) in
      let J = Publications (is_publish course) c.id in
      Mild-Asks (is_publish course) J (walk_states P steps (course_reason P course why) c) _
        (Steady-Mild _ (walk_states-Steady steps (course_reason P course why) c))
        (λ d _.
          Mild-Asks (is_publish course) J (branch (not (is_empty steps)) event (pure tt))
            (λ _. enqueue_publication P course c.id >> pure d)
            (Steady-Mild _ (
              branch-Steady (not (is_empty steps)) event (pure tt) (later-Steady _)
                (pure-Steady tt)))
            (λ _ _. enqueue-Asks course c.id d))

module _ {Float : Type 0} ⦃F : FloatOps Float⦄ (u : Unicode) (P : IngestPorts Float) where
  set-Mild :
      (f : ValidateResult → ValidateResult)
      → ((o : ValidateResult)
          → ((f o).verdict ≡ o.verdict) × ((f o).publication_enqueued ≡ o.publication_enqueued))
      → Mild {Float = Float} (set_out f)
  set-Mild f h = record { leaves = λ s. (refl, (h s.out).0, (h s.out).1, refl) }

  route_if_needed-Mild :
      (c : CandidateRelease Float) (src : Source Float) (v : ValidationVerdict)
      (a : ConflictAssessment) (outcome : ConflictOutcome)
      → Mild (route_if_needed u P c src v a outcome)
  route_if_needed-Mild c src v a outcome =
      branch-Mild P _ _ _
        (>>=-Mild _ _ (Steady-Mild _ (route_to_review-Steady u P c src v a outcome))
          (λ id. set-Mild (λ o. record o { review_item_id = id }) (λ o. (refl, refl))))
        (Steady-Mild _ (pure-Steady tt))

  abbrev id_of : Result (CandidateRelease Float) → Str
  id_of (ok c) = c.id
  id_of (err e) = []

  settle_product_id :
      (x : ValidationContext Float) (c c' : CandidateRelease Float)
      → Gives (settle_product P x c) c'
      → c'.id ≡ c.id
  settle_product_id x c c' (s, e) =
      elim (Bool-cases (is_empty c.product_id && not (is_empty x.resolved_product_id))) [
        | inr n ↦ let k = rw n at e in ap id_of (sym k)
        | inl y ↦
            let write = set_resolved_product c.id x.resolved_product_id in
            elim (Option-cases (P.answer s.log write)) [
              | inl q ↦ let k = rw (y, q) at e in ap id_of (sym k)
              | inr (z, q) ↦ absurd (let k = rw (y, q) at e in cc)
            ]
      ]

  pub validate_writes-Asks :
      (c : CandidateRelease Float) (src : Source Float) (x : ValidationContext Float)
      (a : ConflictAssessment) (v : ValidationVerdict)
      → let b = is_publish (course_of v.decision) in
        Asks b (Publications P b c.id) (validate_writes u P c src x a v)
  unfolding validate_writes
  validate_writes-Asks c src x a v =
      let b = is_publish (course_of v.decision) in
      let J = Publications P b c.id in
      Mild-Asks b J (settle_product P x c) _ (Steady-Mild _ (settle_product-Steady P x c))
        (λ c' given. Mild-Asks b J _ _ (Steady-Mild _ (call-Steady P _ refl)) (λ _ _.
          Mild-Asks b J (reconcile_conflict u P a) _
            (Steady-Mild _ (reconcile_conflict-Steady u P a))
            (λ outcome _.
              Mild-Asks b J (set_out (λ o. record o { conflict_id = outcome.conflict_id })) _
                (set-Mild (λ o. record o { conflict_id = outcome.conflict_id }) (λ o. (refl, refl)))
                (λ _ _.
                  Mild-Asks b J (refresh_duplicate P x) _
                    (Steady-Mild _ (refresh_duplicate-Steady P x))
                    (λ _ _.
                      Asks-Mild b J (follow_course P (course_of v.decision) c' v.reason)
                        (λ d. route_if_needed u P d src v a outcome)
                        (subst
                          (λ id.
                            Asks b (Publications P b id)
                              (follow_course P (course_of v.decision) c' v.reason))
                          (settle_product_id x c c' given)
                          (follow_course-Asks P (course_of v.decision) c' v.reason))
                        (λ d. route_if_needed-Mild d src v a outcome))))))
