-- ===== src/Ingest/Decided.antt =====
-- internal/application/review.go: what a reviewer's decision leaves where it fails.
use firmscout.Base.{
  none, true, false, List, [], ◌∷◌, some, ◌≡◌, ◌⊎◌, inl, inr, refl, sym, ap, ◌∙◌, Option-cases,
  Bool-cases,
}
use firmscout.Base.Text.{Str, Unicode, is_blank}
use firmscout.Base.Go.{Time, Error, Result, ok, err, FloatOps}
use firmscout.Event.{Event}
use firmscout.Ingest.{Effect, IngestPorts, ReviewItem}
use firmscout.Ingest.Session.{Session, M, after, ◌>>◌, within, announce}
use firmscout.Ingest.Decide.{
  ReviewDecisionInput, ReviewDecisionResult, Decision, is_candidate_subject, is_closed,
  candidate_state, decide_writes, resolved_event, decide, or_nothing, reset, known_state, started,
}
use firmscout.Ingest.Units.{within-ok, Result-cases, within-log}

module _ {Float : Type 0} ⦃F : FloatOps Float⦄ (u : Unicode) (P : IngestPorts Float) (now : Time)
    (input : ReviewDecisionInput) (decision : Decision) where
  abbrev Run : Type 0
  Run = Result (Unit {0}) × Session Float ReviewDecisionResult

  candidate_state_lem :
      (item : ReviewItem) (s : Session Float ReviewDecisionResult)
      → (x : Str) × (candidate_state u P now input decision item s ≡ (ok x, s))
  candidate_state_lem item s = elim (Bool-cases (is_candidate_subject item)) [
    | inl e ↦ (known_state (P.get_candidate s.log item.subject_id), rw e refl)
    | inr e ↦ ([], rw e refl)
  ]

  -- The body of a unit of work went through and was committed, its writes are all there, and the
  -- events could not be sent.
  abbrev pub Unsent :
      Error
      → M Float ReviewDecisionResult (Unit {0})
      → List Event
      → Session Float ReviewDecisionResult
      → List (Effect Float)
      → Type 0
  Unsent e m es s log =
      let t = m (record s { in_unit = true }) in
      (t.0 ≡ ok tt) × (P.commit t.1.log ≡ none) × (log ≡ t.1.log) × (P.publish es ≡ some e)

  -- From the unit of work on
  unit-log :
      (m : M Float ReviewDecisionResult (Unit {0})) (es : List Event)
      (s : Session Float ReviewDecisionResult) (e : Error)
      → s.in_unit ≡ false
      → ((or_nothing u P now input decision (within P m) >> announce P es) s).0 ≡ err e
      → (((or_nothing u P now input decision (within P m) >> announce P es) s).1.log ≡ s.log)
        ⊎ Unsent e m es s
            ((or_nothing u P now input decision (within P m) >> announce P es) s).1.log
  unit-log m es s e out h =
      let r = within P m s in
      let rest = λ (x : Run). after (reset u P now input decision x) (λ _. announce P es) in
      elim (Result-cases r.0) [
        | inr (x, q) ↦
            let whole : r ≡ (err x, r.1) = λ i. (q i, r.1) in
            inl (ap (λ (y : Run). (rest y).1.log) whole ∙ within-log P m s x out q)
        | inl (a, q) ↦
            let whole : r ≡ (ok a, r.1) = λ i. (q i, r.1) in
            let (fine, same, taken) = within-ok P m s a out q in
            elim (Option-cases (P.publish es)) [
              | inl n ↦
                  let sent : (rest (ok a, r.1)).0 ≡ ok tt = rw n refl in
                  absurd (let k = sym (ap (λ (y : Run). (rest y).0) whole) ∙ h in cc)
              | inr (x, n) ↦
                  let failed : (rest (ok a, r.1)).0 ≡ err x = rw n refl in
                  let still : (rest (ok a, r.1)).1.log ≡ r.1.log = rw n refl in
                  let k = sym (ap (λ (y : Run). (rest y).0) whole) ∙ h in
                  inr (
                    fine,
                    taken,
                    ap (λ (y : Run). (rest y).1.log) whole
                        ∙ still
                        ∙ ap (λ (y : Session Float ReviewDecisionResult). y.log) same,
                    rw n (cc),
                  )
            ]
      ]

  -- What is left of a decision on an open item, by a named actor with a reason.
  pub decide-unit :
      (s : Session Float ReviewDecisionResult) (item : ReviewItem)
      → is_blank u input.actor ≡ false
      → is_blank u input.reason ≡ false
      → P.get_review_item s.log input.item_id ≡ ok item
      → is_closed item ≡ false
      → (x : Str) × (decide u P now input decision s
          ≡ (or_nothing u P now input decision
                  (within P (decide_writes u P now input decision item x))
                >> announce P (resolved_event u P now input decision item ∷ []))
              (record s { out = started u P now input decision item }))
  unfolding decide
  decide-unit s item a b q d =
      let s' = record s { out = started u P now input decision item } in
      let (x, c) = candidate_state_lem item s' in
      (
        x,
        rw (a, b, q, d)
            (ap
              (λ (r : Result Str × Session Float ReviewDecisionResult). after r (λ y.
                or_nothing u P now input decision
                  (within P (decide_writes u P now input decision item y))
                >> announce P (resolved_event u P now input decision item ∷ [])))
              c),
      )

  -- All the writes of the decision on an item were committed, and only its event could not be sent.
  abbrev pub Announcing :
      Error → ReviewItem → Session Float ReviewDecisionResult → List (Effect Float) → Type 0
  Announcing e item s log =
      (x : Str) × Unsent e (decide_writes u P now input decision item x)
        (resolved_event u P now input decision item ∷ [])
        (record s { out = started u P now input decision item }) log

  -- A decision in a unit of its own that fails leaves every write undone, those of the publication
  -- inside it too; or the item it loaded was open, all its writes went through and were committed,
  -- and only the event that announces the decision could not be sent.
  pub decide-log :
      (s : Session Float ReviewDecisionResult) (e : Error)
      → s.in_unit ≡ false
      → (decide u P now input decision s).0 ≡ err e
      → ((decide u P now input decision s).1.log ≡ s.log)
        ⊎ ((item : ReviewItem) × (P.get_review_item s.log input.item_id ≡ ok item)
            × (is_closed item ≡ false)
            × Announcing e item s (decide u P now input decision s).1.log)
  unfolding decide
  decide-log s e out h = elim (Bool-cases (is_blank u input.actor)) [
    | inl a ↦ rw a (inl refl)
    | inr a ↦ elim (Bool-cases (is_blank u input.reason)) [
      | inl b ↦ rw (a, b) (inl refl)
      | inr b ↦ elim (Result-cases (P.get_review_item s.log input.item_id)) [
        | inr (x, q) ↦ rw (a, b, q) (inl refl)
        | inl (item, q) ↦ elim (Bool-cases (is_closed item)) [
          | inl d ↦ rw (a, b, q, d) (inl refl)
          | inr d ↦
              (let (x, run) = decide-unit s item a b q d in
                let s' = record s { out = started u P now input decision item } in
                let es = resolved_event u P now input decision item ∷ [] in
                let logged = ap (λ (r : Run). r.1.log) run in
                elim (unit-log (decide_writes u P now input decision item x) es s' e out
                  (sym (ap (λ (r : Run). r.0) run) ∙ h)) [
                    | inl l ↦ inl (logged ∙ l)
                    | inr (fine, taken, log, lost) ↦
                        inr (item, q, d, (x, (fine, taken, logged ∙ log, lost)))
                  ])
        ]
      ]
    ]
  ]
