-- ===== src/Ingest/Units.antt =====
-- internal/application/ingest.go and internal/adapters/postgres/db.go: what a unit of work leaves
-- in the log.
use firmscout.Base.{
  true, false, List, [], ◌∷◌, ◌++◌, Option, none, some, ◌≡◌, ◌⊎◌, inl, inr, refl, sym, ap, ◌∙◌,
  Option-cases, append_assoc, append-nil,
}
use firmscout.Base.Go.{Error, Result, ok, err}
use firmscout.Ingest.{Effect, IngestPorts}
use firmscout.Ingest.Session.{
  Session, M, after, ◌>>◌, pure, call, unless_error, within, finish, begun, commit_or_not, entered,
}

pub Result-cases {ℓ} :
    {A : Type ℓ} (r : Result A) → ((a : A) × (r ≡ ok a)) ⊎ ((e : Error) × (r ≡ err e))
Result-cases (ok a) = inl (a, refl)
Result-cases (err e) = inr (e, refl)

module _ {Float Out : Type 0} where
  abbrev pub with_log : Session Float Out → List (Effect Float) → Session Float Out
  with_log s l = record s { log = l }

  -- The calls write `w` if all succeed, and change nothing but the log in any case.
  abbrev pub Writes : List (Effect Float) → M Float Out (Unit {0}) → Type 0
  Writes w m =
      (s : Session Float Out)
      → (m s ≡ (ok tt, with_log s (s.log ++ w)))
        ⊎ ((e : Error) × (l : List (Effect Float)) × (m s ≡ (err e, with_log s l)))

  pub pure-Writes : Writes [] (pure tt)
  pure-Writes s = inl (λ i. (ok tt, with_log s (sym (append-nil s.log) i)))

  pub >>-Writes :
      (w w' : List (Effect Float)) (m k : M Float Out (Unit {0}))
      → Writes w m
      → Writes w' k
      → Writes (w ++ w') (m >> k)
  >>-Writes w w' m k hm hk s = elim (hm s) [
    | inl e ↦
        let run : (m >> k) s ≡ k (with_log s (s.log ++ w)) = ap (λ r. after r (λ _. k)) e in
        elim (hk (with_log s (s.log ++ w))) [
          | inl e' ↦ inl (run ∙ e' ∙ λ i. (ok tt, with_log s (append_assoc s.log w w' i)))
          | inr (x, l, e') ↦ inr (x, l, run ∙ e')
        ]
    | inr (x, l, e) ↦ inr (x, l, ap (λ r. after r (λ _. k)) e)
  ]

  module _ (P : IngestPorts Float) where
    pub call-Writes : (e : Effect Float) → Writes (e ∷ []) (call P e)
    call-Writes e s = elim (Option-cases (P.answer s.log e)) [
      | inl q ↦ inl (ap (λ o. unless_error e tt o s) q)
      | inr (x, q) ↦ inr (x, s.log, ap (λ o. unless_error e tt o s) q)
    ]

    commit-log :
        {A : Type 0} (before s : Session Float Out) (a : A) (o : Option Error) (e : Error)
        → (commit_or_not P before a s o).0 ≡ err e
        → (commit_or_not P before a s o).1.log ≡ before.log
    commit-log before s a none e h = absurd (cc)
    commit-log before s a (some x) e h = refl

    finish-log :
        {A : Type 0} (before : Session Float Out) (r : Result A × Session Float Out) (e : Error)
        → (finish P before r).0 ≡ err e
        → (finish P before r).1.log ≡ before.log
    finish-log before (ok a, s) e h = commit-log before s a (P.commit s.log) e h
    finish-log before (err x, s) e h = refl

    begun-log :
        {A : Type 0} (m : M Float Out A) (s : Session Float Out) (o : Option Error) (e : Error)
        → (begun P m o s).0 ≡ err e
        → (begun P m o s).1.log ≡ s.log
    begun-log m s none e h = finish-log s (m (record s { in_unit = true })) e h
    begun-log m s (some x) e h = refl

    -- A unit of work that is not inside another keeps no write of what failed.
    pub within-log :
        {A : Type 0} (m : M Float Out A) (s : Session Float Out) (e : Error)
        → s.in_unit ≡ false
        → (within P m s).0 ≡ err e
        → (within P m s).1.log ≡ s.log
    unfolding within
    within-log {A} m s e out h =
        let run : within P m s ≡ begun P m P.begin s = ap (λ b. entered P m b s) out in
        ap (λ (r : Result A × Session Float Out). r.1.log) run
        ∙ begun-log m s P.begin e (sym (ap (λ (r : Result A × Session Float Out). r.0) run) ∙ h)

    outside : (s : Session Float Out) → s.in_unit ≡ false → record s { in_unit = false } ≡ s
    outside s h = λ i. record s { in_unit = sym h i }

    -- All the writes of a unit are kept, or none.
    pub within-Writes :
        (w : List (Effect Float)) (m : M Float Out (Unit {0})) (s : Session Float Out)
        → Writes w m
        → s.in_unit ≡ false
        → (within P m s ≡ (ok tt, with_log s (s.log ++ w)))
          ⊎ ((e : Error) × (within P m s ≡ (err e, s)))
    unfolding within
    within-Writes w m s h out =
        let inner = record s { in_unit = true } in
        let run : within P m s ≡ begun P m P.begin s = ap (λ b. entered P m b s) out in
        let back = outside s out in
        elim (Option-cases P.begin) [
          | inr (x, q) ↦ inr (x, run ∙ ap (λ o. begun P m o s) q)
          | inl q ↦
              let started : within P m s ≡ finish P s (m inner) = run ∙ ap (λ o. begun P m o s) q in
              elim (h inner) [
                | inr (x, l, e) ↦ inr (
                  x,
                  started ∙ ap (finish P s) e ∙ ap (λ (t : Session Float Out). (err x, t)) back,
                )
                | inl e ↦
                    let written = started ∙ ap (finish P s) e in
                    let end =
                      λ (o : Option Error). commit_or_not P s tt (with_log inner (s.log ++ w)) o in
                    elim (Option-cases (P.commit (s.log ++ w))) [
                      | inl c ↦ inl (
                          written
                          ∙ ap end c
                          ∙ ap (λ (t : Session Float Out). (ok tt, with_log t (s.log ++ w))) back)
                      | inr (x, c) ↦
                          inr (
                            x,
                            written ∙ ap end c ∙ ap (λ (t : Session Float Out). (err x, t)) back,
                          )
                    ]
              ]
        ]

    -- A unit that succeeds has done what its body did, its body succeeded, and it was committed.
    finish-ok :
        {A : Type 0} (before : Session Float Out) (r : Result A × Session Float Out) (a : A)
        → (finish P before r).0 ≡ ok a
        → (r.0 ≡ ok a)
          × ((finish P before r).1 ≡ record r.1 { in_unit = false })
          × (P.commit r.1.log ≡ none)
    finish-ok before (ok b, t) a h = elim (Option-cases (P.commit t.log)) [
      | inl q ↦ (
        sym (ap (λ (o : Option Error). (commit_or_not P before b t o).0) q) ∙ h,
        ap (λ (o : Option Error). (commit_or_not P before b t o).1) q,
        q,
      )
      | inr (x, q) ↦
          absurd
            (let k = sym (ap (λ (o : Option Error). (commit_or_not P before b t o).0) q) ∙ h in cc)
    ]
    finish-ok before (err e, t) a h = absurd (cc)

    finish-announced :
        {A : Type 0} (before : Session Float Out) (r : Result A × Session Float Out)
        → (finish P before r).1.announced ≡ r.1.announced
    finish-announced before (ok b, t) = elim (Option-cases (P.commit t.log)) [
      | inl q ↦ ap (λ (o : Option Error). (commit_or_not P before b t o).1.announced) q
      | inr (x, q) ↦ ap (λ (o : Option Error). (commit_or_not P before b t o).1.announced) q
    ]
    finish-announced before (err e, t) = refl

    pub within-ok :
        {A : Type 0} (m : M Float Out A) (s : Session Float Out) (a : A)
        → s.in_unit ≡ false
        → (within P m s).0 ≡ ok a
        → ((m (record s { in_unit = true })).0 ≡ ok a)
          × ((within P m s).1 ≡ record (m (record s { in_unit = true })).1 { in_unit = false })
          × (P.commit (m (record s { in_unit = true })).1.log ≡ none)
    unfolding within
    within-ok {A} m s a out h =
        let run : within P m s ≡ begun P m P.begin s = ap (λ b. entered P m b s) out in
        elim (Option-cases P.begin) [
          | inr (x, q) ↦ absurd (
              let k =
                sym
                  (ap (λ (r : Result A × Session Float Out). r.0) (run ∙ ap (λ o. begun P m o s) q))
                ∙ h in
              cc)
          | inl q ↦
              let started : within P m s ≡ finish P s (m (record s { in_unit = true })) =
                run ∙ ap (λ o. begun P m o s) q in
              let (fine, same, taken) =
                finish-ok s (m (record s { in_unit = true })) a
                  (sym (ap (λ (r : Result A × Session Float Out). r.0) started) ∙ h) in
              (fine, ap (λ (r : Result A × Session Float Out). r.1) started ∙ same, taken)
        ]

    -- The events of a unit are those of its body, however it ends.
    pub within-announced :
        {A : Type 0} (m : M Float Out A) (s : Session Float Out)
        → s.in_unit ≡ false
        → (m (record s { in_unit = true })).1.announced ≡ s.announced
        → (within P m s).1.announced ≡ s.announced
    unfolding within
    within-announced {A} m s out h =
        let run : within P m s ≡ begun P m P.begin s = ap (λ b. entered P m b s) out in
        ap (λ (r : Result A × Session Float Out). r.1.announced) run ∙ elim (Option-cases P.begin) [
          | inr (x, q) ↦ ap (λ o. (begun P m o s).1.announced) q
          | inl q ↦
              ap (λ o. (begun P m o s).1.announced) q
              ∙ finish-announced s (m (record s { in_unit = true }))
              ∙ h
        ]
