-- ===== src/Ingest/Published.antt =====
-- internal/application/ingest.go: what PublishRelease.Execute writes and announces, and when.
use firmscout.Base.{
  subst, sym, ◌+◌, Bool, true, false, List, [], ◌∷◌, ◌++◌, is_empty, none, ◌≡◌, ◌⊎◌, inl, inr, refl,
  sym, Option-cases, Bool-cases,
}
use firmscout.Base.Text.{Str, text, Unicode}
use firmscout.Base.Go.{not_permitted, invalid, invalid_transition, Error, Result, ok, err, FloatOps}
use firmscout.Source.{Source, compliance_permits_collection}
use firmscout.Candidate.{CandidateRelease, published}
use firmscout.Release.{Release, ReleaseProductMapping, validate_release, validate_mapping}
use firmscout.Ingest.{
  Effect, IngestPorts, clear_latest_flag, insert_release, update_state, set_published_release,
  refresh_summary,
}
use firmscout.Ingest.Session.{set_out, Session, ◌>>◌, within, announce}
use firmscout.Ingest.Publish.{
  is_published_state, named, PublishResult, publish_writes, flag_cleared, release_of, mapping_of,
  becomes_latest, published_event, publish_from, publish_loaded, publish_release, may_publish,
}
use firmscout.Ingest.Units.{
  Result-cases, Writes, call-Writes, >>-Writes, pure-Writes, within-Writes,
}

module _ {Float : Type 0} where
  abbrev flag_writes : CandidateRelease Float → Bool → List (Effect Float)
  flag_writes c true = clear_latest_flag c.product_id c.applicability.channel ∷ []
  flag_writes c false = []

  -- The writes of a publication, in order.
  abbrev pub publication :
      CandidateRelease Float → Release Float → ReleaseProductMapping → List (Effect Float)
  publication c rel mapping =
      flag_writes c mapping.is_latest_observed
      ++ (insert_release rel mapping
          ∷ update_state c.id published []
          ∷ set_published_release c.id rel.id
          ∷ refresh_summary c.product_id
          ∷ [])

  module _ ⦃F : FloatOps Float⦄ (u : Unicode) (P : IngestPorts Float) where
    flag-Writes :
        (c : CandidateRelease Float) (b : Bool) → Writes (flag_writes c b) (flag_cleared u P c b)
    flag-Writes c true = call-Writes P (clear_latest_flag c.product_id c.applicability.channel)
    flag-Writes c false = pure-Writes

    pub publish_writes-Writes :
        (c : CandidateRelease Float) (rel : Release Float) (mapping : ReleaseProductMapping)
        → Writes (publication c rel mapping) (publish_writes u P c rel mapping)
    unfolding publish_writes
    publish_writes-Writes c rel mapping =
        let a = insert_release rel mapping in
        let b = update_state c.id published [] in
        let d = set_published_release c.id rel.id in
        let e = refresh_summary c.product_id in
        >>-Writes (flag_writes c mapping.is_latest_observed) (a ∷ b ∷ d ∷ e ∷ []) _ _
          (flag-Writes c mapping.is_latest_observed)
          (>>-Writes (a ∷ []) (b ∷ d ∷ e ∷ []) _ _ (call-Writes P a) (
            >>-Writes (b ∷ []) (d ∷ e ∷ []) _ _ (call-Writes P b)
              (>>-Writes (d ∷ []) (e ∷ []) _ _ (call-Writes P d) (call-Writes P e))))

    -- What has to hold of a publication.
    pub record IsCleared (log : List (Effect Float)) (id : Str) (c : CandidateRelease Float)
        (src : Source Float) (rel : Release Float) (mapping : ReleaseProductMapping) : Type 0 where
      pub loaded : P.get_candidate log id ≡ ok c
      pub may : may_publish c.state ≡ true
      pub resolved : is_empty c.product_id ≡ false
      pub source : P.get_source c.source_id ≡ ok src
      pub permitted : compliance_permits_collection src ≡ true
      pub of_candidate : rel ≡ release_of rel.id src c P.now
      pub of_release : mapping ≡ mapping_of mapping.id rel.id c mapping.is_latest_observed P.now
      pub valid : validate_release u rel ≡ none
      pub flag :
          becomes_latest rel (P.latest_for_product log c.product_id c.applicability.channel)
          ≡ ok mapping.is_latest_observed
      pub valid_mapping : validate_mapping u mapping ≡ none

    abbrev pub Run : Type 0
    Run = Result (Unit {0}) × Session Float PublishResult

    -- An error, or a candidate that is published already.
    abbrev pub Idle : Str → Session Float PublishResult → Run → Type 0
    Idle id s r =
        ((e : Error) × (r.0 ≡ err e))
        ⊎ ((c : CandidateRelease Float) × (P.get_candidate s.log id ≡ ok c)
            × (is_published_state c.state ≡ true))

    abbrev pub Nothing : Str → Session Float PublishResult → Run → Type 0
    Nothing id s r = (r.1.log ≡ s.log) × (r.1.announced ≡ s.announced) × Idle id s r

    -- All the writes, and the event if no error came of sending it.
    abbrev pub Everything :
        Session Float PublishResult
        → CandidateRelease Float
        → Release Float
        → ReleaseProductMapping
        → Run
        → Type 0
    Everything s c rel mapping r =
        (r.1.log ≡ s.log ++ publication c rel mapping)
        × (((e : Error) × (r.0 ≡ err e) × (r.1.announced ≡ s.announced))
            ⊎ ((r.0 ≡ ok tt)
                × (r.1.announced
                    ≡ s.announced ++ (published_event u P c rel mapping.is_latest_observed ∷ []))))

    -- From the unit of work on
    committed :
        (id : Str) (c : CandidateRelease Float) (rel : Release Float)
        (mapping : ReleaseProductMapping) (f : PublishResult → PublishResult)
        (s : Session Float PublishResult)
        → s.in_unit ≡ false
        → let r : Run =
            (within P (publish_writes u P c rel mapping)
                >> (announce P (published_event u P c rel mapping.is_latest_observed ∷ [])
                    >> set_out f))
              s in
          Nothing id s r ⊎ Everything s c rel mapping r
    committed id c rel mapping f s out =
        let es = published_event u P c rel mapping.is_latest_observed ∷ [] in
        elim (within-Writes P (publication c rel mapping) (publish_writes u P c rel mapping) s
          (publish_writes-Writes c rel mapping) out) [
            | inr (e, q) ↦ rw q (inl (refl, refl, inl (e, refl)))
            | inl q ↦ elim (Option-cases (P.publish es)) [
              | inl n ↦ rw (q, n) (inr (refl, inr (refl, refl)))
              | inr (e, n) ↦ rw (q, n) (inr (refl, inl (e, refl, refl)))
            ]
          ]

    -- A publication: what was cleared for it, and all of its writes.
    abbrev pub Publication : Str → Session Float PublishResult → Run → Type 0
    Publication id s r =
        (c : CandidateRelease Float) × (src : Source Float) × (rel : Release Float)
        × (mapping : ReleaseProductMapping) × IsCleared s.log id c src rel mapping
        × Everything s c rel mapping r

    from-source :
        (id : Str) (c : CandidateRelease Float) (src : Source Float)
        (s : Session Float PublishResult)
        → s.in_unit ≡ false
        → P.get_candidate s.log id ≡ ok c
        → may_publish c.state ≡ true
        → is_empty c.product_id ≡ false
        → P.get_source c.source_id ≡ ok src
        → compliance_permits_collection src ≡ true
        → Nothing id s (publish_from u P src c s) ⊎ Publication id s (publish_from u P src c s)
    unfolding publish_from mapping_of release_of
    from-source id c src s out loaded may resolved source permitted =
        let rid = P.new_id (text "rel") s.drawn in
        let rel = release_of rid src c P.now in
        let mid = P.new_id (text "rpm") (s.drawn + 1) in
        let s' = record s { drawn = s.drawn + 1 + 1 } in
        elim (Option-cases (validate_release u rel)) [
          | inr (e, q) ↦ rw q (inl (refl, refl, inl (e, refl)))
          | inl valid ↦
              elim (Result-cases (
                becomes_latest rel
                  (P.latest_for_product s.log c.product_id c.applicability.channel))) [
                    | inr (e, q) ↦ rw (valid, q) (inl (refl, refl, inl (e, refl)))
                    | inl (latest, flag) ↦
                        let mapping = mapping_of mid rid c latest P.now in
                        elim (Option-cases (validate_mapping u mapping)) [
                          | inr (e, q) ↦ rw (valid, flag, q) (inl (refl, refl, inl (e, refl)))
                          | inl valid_mapping ↦
                              rw (valid, flag, valid_mapping)
                                (elim (committed id c rel mapping
                                  (λ o. record o { release_id = rid; is_published = true }) s'
                                  out) [
                                    | inl n ↦ inl n
                                    | inr e ↦ inr (
                                      c,
                                      src,
                                      rel,
                                      mapping,
                                      record {
                                        loaded = loaded;
                                        may = may;
                                        resolved = resolved;
                                        source = source;
                                        permitted = permitted;
                                        of_candidate = refl;
                                        of_release = refl;
                                        valid = valid;
                                        flag = flag;
                                        valid_mapping = valid_mapping;
                                      },
                                      e,
                                    )
                                  ])
                        ]
                  ]
        ]

    from-candidate :
        (id : Str) (c : CandidateRelease Float) (s : Session Float PublishResult)
        → s.in_unit ≡ false
        → P.get_candidate s.log id ≡ ok c
        → Nothing id s (publish_loaded u P c s) ⊎ Publication id s (publish_loaded u P c s)
    unfolding publish_loaded
    from-candidate id c s out loaded = elim (Bool-cases (is_published_state c.state)) [
      | inl e ↦ rw e (inl (refl, refl, inr (c, loaded, e)))
      | inr e ↦ elim (Bool-cases (may_publish c.state)) [
        | inr m ↦ rw (e, m) (inl (refl, refl, inl (invalid_transition "candidate", refl)))
        | inl m ↦ elim (Bool-cases (is_empty c.product_id)) [
          | inl p ↦
              rw (e, m, p)
                (inl (refl, refl, inl (invalid "candidate" "has no resolved product", refl)))
          | inr p ↦ elim (Result-cases (P.get_source c.source_id)) [
            | inr (x, q) ↦ rw (e, m, p, q) (inl (refl, refl, inl (x, refl)))
            | inl (src, q) ↦ elim (Bool-cases (compliance_permits_collection src)) [
              | inr k ↦ rw (e, m, p, q, k) (inl (refl, refl, inl (not_permitted, refl)))
              | inl k ↦ rw (e, m, p, q, k) (from-source id c src s out loaded m p q k)
            ]
          ]
        ]
      ]
    ]

    -- PublishRelease, in its own unit of work, leaves no write and sends no event, and this only on
    -- an error or for a candidate that is published already; or it makes all the writes of a
    -- publication in order and then announces it, which is all that can still fail. What it
    -- publishes is the release and the mapping built of the loaded candidate, which is validated or
    -- under review and has a product; its source may be collected from; both pass their checks;
    -- and the flag of the latest release is what `becomes_latest` makes of the present one.
    pub publish_release-Publication :
        (id : Str) (s : Session Float PublishResult)
        → s.in_unit ≡ false
        → Nothing id s (publish_release u P id s) ⊎ Publication id s (publish_release u P id s)
    unfolding publish_release publish_loaded
    publish_release-Publication id s out = elim (Result-cases (P.get_candidate s.log id)) [
      | inr (e, q) ↦ rw q (inl (refl, refl, inl (e, refl)))
      | inl (c, loaded) ↦
          let s' = record s { out = named c s.out } in
          let run : publish_release u P id s ≡ publish_loaded u P c s' = rw loaded refl in
          subst (λ (r : Run). Nothing id s r ⊎ Publication id s r) (sym run)
            (from-candidate id c s' out loaded)
    ]
