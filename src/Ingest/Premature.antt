-- ===== src/Ingest/Premature.antt =====
-- internal/application/review.go: the event of the publication inside an accepted decision goes out
-- before the decision is committed.
use firmscout.Base.{
  subst, ◌+◌, Bool, true, false, not, ◌&&◌, List, [], ◌∷◌, ◌++◌, is_empty, none, some, ◌≡◌, inl,
  inr, refl, sym, ◌∙◌, Bool-cases,
}
use firmscout.Base.Text.{Str, text, Unicode, is_blank}
use firmscout.Base.Go.{Time, Error, Result, ok, err, FloatOps}
use firmscout.Event.{Event}
use firmscout.Ingest.{
  Effect, IngestPorts, ReviewItem, resolve_review, refresh_summary, record_audit, resolve_conflict,
}
use firmscout.Ingest.Session.{Session, M, after, ◌>>◌, ◌>>=◌, call, draw, within, announce, set_out}
use firmscout.Candidate.{CandidateRelease}
use firmscout.Release.{Release}
use firmscout.Ingest.Publish.{
  PublishResult, no_publication, publish_release, published_event, may_publish,
}
use firmscout.Ingest.Published.{Run}
use firmscout.Ingest.Announced.{publish_release-Announced}
use firmscout.Ingest.Decide.{
  ReviewDecisionInput, ReviewDecisionResult, accept, is_candidate_subject, is_closed, decide_writes,
  decide_candidate, decide_conflict, resolved_event, decide, reset, started, result_so_far,
  audit_of, resolution, summary_again, value_at,
}
use firmscout.Ingest.Units.{Result-cases}
use firmscout.Ingest.Decided.{decide-unit}
use firmscout.Ingest.Quiet.{Quiet, after-Quiet, call-Quiet, Undone, within-Undone}

module _ {Float : Type 0} ⦃F : FloatOps Float⦄ (u : Unicode) (P : IngestPorts Float) (now : Time)
    (input : ReviewDecisionInput) where
  summary-Quiet : (b : Bool) (item : ReviewItem) → Quiet (summary_again u P now input accept b item)
  summary-Quiet true item = call-Quiet P (refresh_summary item.product_id)
  summary-Quiet false item = λ s. refl

  decide_conflict-Quiet : (item : ReviewItem) → Quiet (decide_conflict u P now input accept item)
  unfolding decide_conflict
  decide_conflict-Quiet item s =
      let id = value_at (text "conflict_id") item.payload in
      let again = P.has_releases && not (is_empty item.product_id) in
      elim (Bool-cases (not (is_empty id) && P.has_conflicts)) [
        | inr e ↦ rw e refl
        | inl e ↦
            let write = resolve_conflict id (resolution u P now input accept) input.actor in
            rw e (
              after-Quiet (call P write s)
                (λ _.
                  set_out (λ o. record o { conflict_id = id })
                  >> summary_again u P now input accept again item)
                s.announced (call-Quiet P write s)
                (λ _ t.
                  summary-Quiet again item (record t { out = record t.out { conflict_id = id } })))
      ]

  -- What follows the publication in the unit of an accepted item
  abbrev audit_step : ReviewItem → Str → Str → M Float ReviewDecisionResult (Unit {0})
  audit_step item before_state after_state = do
    o ← result_so_far u P now input accept
    id ← draw P (text "aud")
    call P
        (record_audit (audit_of u P now input accept id item before_state after_state o.release_id))

  abbrev rest : ReviewItem → Str → Str → M Float ReviewDecisionResult (Unit {0})
  rest item before_state after_state =
      decide_conflict u P now input accept item >> audit_step item before_state after_state

  rest-Quiet : (item : ReviewItem) (x y : Str) → Quiet (rest item x y)
  rest-Quiet item x y s =
      after-Quiet (decide_conflict u P now input accept item s) (λ _. audit_step item x y)
        s.announced (decide_conflict-Quiet item s)
        (λ _ t.
          call-Quiet P
            (record_audit (
              audit_of u P now input accept (P.new_id (text "aud") t.drawn) item x y
                t.out.release_id))
            (record t { drawn = t.drawn + 1 }))

  -- The session in which the publication runs
  abbrev pub inside : ReviewItem → Session Float ReviewDecisionResult → Session Float PublishResult
  inside item s = record {
    log = s.log ++ (resolve_review item.id (resolution u P now input accept) input.actor ∷ []);
    announced = s.announced;
    drawn = s.drawn;
    in_unit = s.in_unit;
    pending = [];
    out = no_publication;
  }

  writes-announced :
      (item : ReviewItem) (x : Str) (s : Session Float ReviewDecisionResult)
      → is_candidate_subject item ≡ true
      → P.answer s.log (resolve_review item.id (resolution u P now input accept) input.actor) ≡ none
      → (decide_writes u P now input accept item x s).1.announced
        ≡ (publish_release u P item.subject_id (inside item s)).1.announced
  unfolding decide_writes decide_candidate
  writes-announced item x s c a =
      let r = publish_release u P item.subject_id (inside item s) in
      elim (Result-cases r.0) [
        | inr (e, q) ↦ rw (a, c, q) refl
        | inl (t, q) ↦
            rw (a, c, q)
              (rest-Quiet item x (text "published") (record {
                log = r.1.log;
                announced = r.1.announced;
                drawn = r.1.drawn;
                in_unit = r.1.in_unit;
                pending = s.pending;
                out = record s.out {
                  release_id = r.1.out.release_id;
                  is_published = r.1.out.is_published;
                };
              }))
      ]

  reset-Undone :
      (s : Session Float ReviewDecisionResult) (l es : List Event)
      (r : Result (Unit {0}) × Session Float ReviewDecisionResult)
      → Undone P s l r
      → Undone P s l (after (reset u P now input accept r) (λ _. announce P es))
  reset-Undone s l es (ok a, t) h = absurd (let (e, q) = h.0 in cc)
  reset-Undone s l es (err e, t) h = h

  -- The publication inside the decision
  abbrev pub publishing : ReviewItem → Session Float ReviewDecisionResult → Run u P
  publishing item s =
      publish_release u P item.subject_id (inside item (record s { in_unit = true }))

  -- The decision failed, no write of it stands, and yet the event of a published release is the one
  -- that has gone out.
  abbrev pub Premature : ReviewItem → Session Float ReviewDecisionResult → Type 0
  Premature item s =
      ((e : Error) × ((decide u P now input accept s).0 ≡ err e))
      × ((decide u P now input accept s).1.log ≡ s.log)
      × ((c : CandidateRelease Float) × (rel : Release Float) × (latest : Bool) × (P.get_candidate
              (inside item s).log item.subject_id
            ≡ ok c)
          × (may_publish c.state ≡ true)
          × (rel.id ≡ (publishing item s).1.out.release_id)
          × ((decide u P now input accept s).1.announced
              ≡ s.announced ++ (published_event u P c rel latest ∷ [])))

  -- A named actor accepts, with a reason, an open item on a candidate. Where the write that resolves
  -- the item is taken, the publication succeeds and reports the release as published, and the unit
  -- of the decision begins but cannot be committed, the decision fails and leaves no write; yet the
  -- event that announces that release, for the candidate of the item, has gone out, and no other.
  pub decide-Undone :
      (item : ReviewItem) (s : Session Float ReviewDecisionResult)
      → s.in_unit ≡ false
      → P.begin ≡ none
      → ((w : List (Effect Float)) → (e : Error) × (P.commit w ≡ some e))
      → is_blank u input.actor ≡ false
      → is_blank u input.reason ≡ false
      → P.get_review_item s.log input.item_id ≡ ok item
      → is_closed item ≡ false
      → is_candidate_subject item ≡ true
      → P.answer s.log (resolve_review item.id (resolution u P now input accept) input.actor) ≡ none
      → (publishing item s).0 ≡ ok tt
      → (publishing item s).1.out.is_published ≡ true
      → Premature item s
  decide-Undone item s out began fails a b q d c answered done told =
      let (x, run) = decide-unit u P now input accept s item a b q d in
      let s' = record s { out = started u P now input accept item } in
      let m = decide_writes u P now input accept item x in
      let l = (publishing item s).1.announced in
      let undone =
        within-Undone P m s' l out began fails
          (writes-announced item x (record s' { in_unit = true }) c answered) in
      let (failed, none_left, gone) =
        subst (Undone P s l) (sym run) (
          reset-Undone s l (resolved_event u P now input accept item ∷ []) (within P m s')
            undone) in
      let (cand, rel, latest, loaded, may, named, sent) =
        publish_release-Announced u P item.subject_id (inside item (record s { in_unit = true }))
          refl refl done told in
      (failed, none_left, (cand, rel, latest, loaded, may, sym named, gone ∙ sent))
