-- ===== src/CheckSource/Fetches.antt =====
-- internal/application/checksource.go: what Execute fetches, and when.
use firmscout.Base.{
  subst, sym, true, List, ◌∷◌, ◌++◌, Option, ◌≡◌, In, In-append, inl, inr, refl, arith, Bool-cases,
  Option-cases,
}
use firmscout.Base.Text.{Str}
use firmscout.Base.Go.{ok, FloatOps}
use firmscout.Source.{Source, compliance_permits_collection}
use firmscout.CheckSource.Ports.{
  CheckSourceResult, FetchResult, FetchRequest, SourceCheck, Effect, fetched, Ports,
}
use firmscout.CheckSource.Outcome.{apply_outcome}
use firmscout.CheckSource.Content.{fetch_request, examine, compare_content, store_content}
use firmscout.CheckSource.Execute.{
  check_source, execute, request_extraction, record_and_emit, save_state,
}
use firmscout.CheckSource.Flow.{examined}
use firmscout.Ingest.Units.{Result-cases}

module _ {Float : Type 0} where
  examine_no_fetch :
      (P : Ports Float) (s : Source Float) (res : FetchResult) (e : Option Str) (r : FetchRequest)
      → ¬ (In (fetched r) (examine P s res e).calls)
  unfolding examine compare_content store_content
  examine_no_fetch P s res e r h = ground arith

  request_no_fetch :
      (P : Ports Float) (s : Source Float) (c : SourceCheck) (out : CheckSourceResult)
      (r : FetchRequest)
      → ¬ (In (fetched r) (request_extraction P s c out).log)
  unfolding request_extraction
  request_no_fetch P s c out r h = ground arith

  record_no_fetch :
      (P : Ports Float) (s : Source Float) (c : SourceCheck) (out : CheckSourceResult)
      (r : FetchRequest)
      → ¬ (In (fetched r) (record_and_emit P s c out).log)
  unfolding record_and_emit
  record_no_fetch P s c out r h = ground (arith, request_no_fetch P s c out r)

module _ {Float : Type 0} ⦃F : FloatOps Float⦄ where
  save_no_fetch :
      (P : Ports Float) (s : Source Float) (c : SourceCheck) (out : CheckSourceResult)
      (r : FetchRequest)
      → ¬ (In (fetched r) (save_state P s c out).log)
  unfolding save_state
  save_no_fetch P s c out r h =
      let t = apply_outcome P.policy c P.now s in
      ground (arith, record_no_fetch P t c (record out { next_check_at = t.next_check_at }) r)

  -- The calls are one fetch of the request, then others.
  abbrev pub OneFetch : FetchRequest → List (Effect Float) → Type 0
  OneFetch request log =
      (rest : List (Effect Float)) × (log ≡ fetched request ∷ rest)
      × ((r : FetchRequest) → ¬ (In (fetched r) rest))

  permitted_fetch :
      (P : Ports Float) (s : Source Float)
      → compliance_permits_collection s ≡ true
      → OneFetch (fetch_request P s) (check_source P s).log
  unfolding check_source
  permitted_fetch P s e =
      let x = examined P s in
      let (res, fetch_error) = P.fetch (fetch_request P s) in
      elim (Option-cases x.error) [
        | inr (y, n) ↦ rw (e, n) (x.calls, refl, examine_no_fetch P s res fetch_error)
        | inl n ↦
            let saved = (save_state P s x.check x.result).log in
            rw (e, n)
              (
                x.calls ++ saved,
                refl,
                λ r h. elim (In-append (fetched r) x.calls saved h) [
                  | inl m ↦ examine_no_fetch P s res fetch_error r m
                  | inr m ↦ save_no_fetch P s x.check x.result r m
                ],
              )
      ]

  -- Execute makes a call on the outside, of whatever kind, only for a source that it has loaded and
  -- whose compliance permits collection; then its first call is the fetch of that source's request,
  -- and it makes no second fetch.
  pub execute_fetches :
      (P : Ports Float) (id : Str) (call : Effect Float)
      → In call (execute P id).log
      → (s : Source Float) × (P.get_source id ≡ ok s)
        × (compliance_permits_collection s ≡ true)
        × OneFetch (fetch_request P s) (execute P id).log
  unfolding execute check_source
  execute_fetches P id call h = elim (Result-cases (P.get_source id)) [
    | inr (x, q) ↦ absurd (rw (q, execute) at h)
    | inl (s, q) ↦ elim (Bool-cases (compliance_permits_collection s)) [
      | inr e ↦ absurd (rw (q, execute, e) at h)
      | inl e ↦
          let run : execute P id ≡ check_source P s = rw (q, execute) refl in
          let one = permitted_fetch P s e in
          (s, q, e, subst (λ r. OneFetch (fetch_request P s) r.log) (sym run) one)
    ]
  ]
