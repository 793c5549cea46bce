-- ===== src/Ingest/Announced.antt =====
-- internal/application/ingest.go: the event of a publication that runs inside the unit of work of
-- another use case.
use firmscout.Base.{
  ◌+◌, subst, Bool, true, false, [], ◌∷◌, ◌++◌, is_empty, ◌≡◌, inl, inr, refl, sym, ap, ◌∙◌,
  Option-cases, Bool-cases,
}
use firmscout.Base.Text.{Str, text, Unicode}
use firmscout.Base.Go.{ok, FloatOps}
use firmscout.Source.{Source, compliance_permits_collection}
use firmscout.Candidate.{CandidateRelease}
use firmscout.Release.{Release, ReleaseProductMapping, validate_release, validate_mapping}
use firmscout.Ingest.{IngestPorts}
use firmscout.Ingest.Session.{set_out, Session, after, entered, ◌>>◌, within, announce}
use firmscout.Ingest.Publish.{
  is_published_state, named, PublishResult, publish_writes, release_of, mapping_of, becomes_latest,
  published_event, publish_from, publish_loaded, publish_release, may_publish,
}
use firmscout.Ingest.Published.{Run, publish_writes-Writes}
use firmscout.Ingest.Units.{Result-cases}

module _ {Float : Type 0} ⦃F : FloatOps Float⦄ (u : Unicode) (P : IngestPorts Float) where
  -- One event more has gone out, that of the release that was published, and the candidate could be
  -- published.
  abbrev pub Announced : Str → Session Float PublishResult → Run u P → Type 0
  Announced id s r =
      (c : CandidateRelease Float) × (rel : Release Float) × (latest : Bool) × (P.get_candidate
          s.log id
        ≡ ok c)
      × (may_publish c.state ≡ true)
      × (r.1.out.release_id ≡ rel.id)
      × (r.1.announced ≡ s.announced ++ (published_event u P c rel latest ∷ []))

  -- What follows from a run that succeeds and reports a publication
  abbrev Told : Type 0 → Run u P → Type 0
  Told A r = r.0 ≡ ok tt → r.1.out.is_published ≡ true → A

  -- From the unit of work on, inside another
  told :
      (c : CandidateRelease Float) (rel : Release Float) (mapping : ReleaseProductMapping)
      (s : Session Float PublishResult)
      → s.in_unit ≡ true
      → let r : Run u P =
          (within P (publish_writes u P c rel mapping)
              >> (announce P (published_event u P c rel mapping.is_latest_observed ∷ [])
                  >> set_out (λ o. record o { release_id = rel.id; is_published = true })))
            s in
        Told
          ((r.1.out.release_id ≡ rel.id)
            × (r.1.announced
                ≡ s.announced ++ (published_event u P c rel mapping.is_latest_observed ∷ [])))
          r
  unfolding within
  told c rel mapping s inside =
      let es = published_event u P c rel mapping.is_latest_observed ∷ [] in
      let m = publish_writes u P c rel mapping in
      let end = λ (x : Run u P). after x (λ _.
        announce P es >> set_out (λ o. record o { release_id = rel.id; is_published = true })) in
      let Good = λ (r : Run u P).
        Told ((r.1.out.release_id ≡ rel.id) × (r.1.announced ≡ s.announced ++ es)) r in
      let run : within P m s ≡ m s = ap (λ b. entered P m b s) inside in
      elim (publish_writes-Writes u P c rel mapping s) [
        | inr (e, l, q) ↦ subst (λ x. Good (end x)) (sym (run ∙ q)) (λ h. absurd (cc))
        | inl q ↦
            subst (λ x. Good (end x)) (sym (run ∙ q))
              (elim (Option-cases (P.publish es)) [
                | inl n ↦ rw n (λ h k. (refl, refl))
                | inr (e, n) ↦ rw n (λ h. absurd (cc))
              ])
      ]

  from-source-Announced :
      (id : Str) (c : CandidateRelease Float) (src : Source Float) (s : Session Float PublishResult)
      → s.in_unit ≡ true
      → P.get_candidate s.log id ≡ ok c
      → may_publish c.state ≡ true
      → Told (Announced id s (publish_from u P src c s)) (publish_from u P src c s)
  unfolding publish_from mapping_of release_of
  from-source-Announced id c src s inside loaded may =
      let rid = P.new_id (text "rel") s.drawn in
      let rel = release_of rid src c P.now in
      let mid = P.new_id (text "rpm") (s.drawn + 1) in
      let s' = record s { drawn = s.drawn + 1 + 1 } in
      elim (Option-cases (validate_release u rel)) [
        | inr (e, q) ↦ rw q (λ h. absurd (cc))
        | inl valid ↦
            elim (Result-cases (
              becomes_latest rel
                (P.latest_for_product s.log c.product_id c.applicability.channel))) [
                  | inr (e, q) ↦ rw (valid, q) (λ h. absurd (cc))
                  | inl (latest, flag) ↦
                      let mapping = mapping_of mid rid c latest P.now in
                      elim (Option-cases (validate_mapping u mapping)) [
                        | inr (e, q) ↦ rw (valid, flag, q) (λ h. absurd (cc))
                        | inl valid_mapping ↦
                            rw (valid, flag, valid_mapping)
                              (λ h k.
                                let (named, sent) = told c rel mapping s' inside h k in
                                (c, rel, latest, loaded, may, named, sent))
                      ]
                ]
      ]

  from-candidate-Announced :
      (id : Str) (c : CandidateRelease Float) (s : Session Float PublishResult)
      → s.in_unit ≡ true
      → s.out.is_published ≡ false
      → P.get_candidate s.log id ≡ ok c
      → Told (Announced id s (publish_loaded u P c s)) (publish_loaded u P c s)
  unfolding publish_loaded
  from-candidate-Announced id c s inside none_yet loaded =
      elim (Bool-cases (is_published_state c.state)) [
        | inl e ↦ rw e (λ h k. absurd (cc))
        | inr e ↦ elim (Bool-cases (may_publish c.state)) [
          | inr m ↦ rw (e, m) (λ h. absurd (cc))
          | inl m ↦ elim (Bool-cases (is_empty c.product_id)) [
            | inl p ↦ rw (e, m, p) (λ h. absurd (cc))
            | inr p ↦ elim (Result-cases (P.get_source c.source_id)) [
              | inr (x, q) ↦ rw (e, m, p, q) (λ h. absurd (cc))
              | inl (src, q) ↦ elim (Bool-cases (compliance_permits_collection src)) [
                | inr k ↦ rw (e, m, p, q, k) (λ h. absurd (cc))
                | inl k ↦ rw (e, m, p, q, k) (from-source-Announced id c src s inside loaded m)
              ]
            ]
          ]
        ]
      ]

  -- PublishRelease inside an open unit of work that succeeds and reports a release as published has
  -- announced it.
  pub publish_release-Announced :
      (id : Str) (s : Session Float PublishResult)
      → s.in_unit ≡ true
      → s.out.is_published ≡ false
      → (publish_release u P id s).0 ≡ ok tt
      → (publish_release u P id s).1.out.is_published ≡ true
      → Announced id s (publish_release u P id s)
  unfolding publish_release publish_loaded
  publish_release-Announced id s inside none_yet = elim (Result-cases (P.get_candidate s.log id)) [
    | inr (e, q) ↦ rw q (λ h. absurd (cc))
    | inl (c, loaded) ↦
        let s' = record s { out = named c s.out } in
        let run : publish_release u P id s ≡ publish_loaded u P c s' = rw loaded refl in
        subst (λ (r : Run u P). Told (Announced id s r) r) (sym run)
          (from-candidate-Announced id c s' inside none_yet loaded)
  ]
