-- ===== src/Ingest/ReadOnly.antt =====
-- internal/application/ingest.go: buildContext reads and writes nothing.
use firmscout.Base.{Bool, true, false, List, ◌≡◌, refl, ◌∙◌}
use firmscout.Base.Go.{Result, ok, err}
use firmscout.Base.Text.{Str, Unicode}
use firmscout.Source.{Source}
use firmscout.Candidate.{CandidateRelease, ProductMatchStatus, unique, ambiguous, no_match}
use firmscout.Ingest.{Effect, IngestPorts}
use firmscout.Ingest.Session.{Session, M, after, ◌>>=◌, pure, lift, attempt, branch}
use firmscout.Ingest.Context.{build_context, resolve_product, match_by_hint, history, assessment_of}

module _ {Float Out : Type 0} where
  pub record ReadOnly {A : Type 0} (m : M Float Out A) : Type 0 where
    pub unchanged : (s : Session Float Out) → (m s).1 ≡ s

  after-unchanged :
      {A B : Type 0} (s : Session Float Out) (r : Result A × Session Float Out)
      (f : A → M Float Out B)
      → r.1 ≡ s
      → ((a : A) → ReadOnly (f a))
      → (after r f).1 ≡ s
  after-unchanged s (ok a, t) f h k = (k a).unchanged t ∙ h
  after-unchanged s (err e, t) f h k = h

  >>=-ReadOnly :
      {A B : Type 0} (m : M Float Out A) (f : A → M Float Out B)
      → ReadOnly m
      → ((a : A) → ReadOnly (f a))
      → ReadOnly (m >>= f)
  >>=-ReadOnly m f h k = record { unchanged = λ s. after-unchanged s (m s) f (h.unchanged s) k }

  branch-ReadOnly :
      {A : Type 0} (b : Bool) (m n : M Float Out A)
      → ReadOnly m
      → ReadOnly n
      → ReadOnly (branch b m n)
  branch-ReadOnly true m n h k = record { unchanged = λ s. h.unchanged s }
  branch-ReadOnly false m n h k = record { unchanged = λ s. k.unchanged s }

  pure-ReadOnly : {A : Type 0} (a : A) → ReadOnly (pure a)
  pure-ReadOnly a = record { unchanged = λ s. refl }

  lift-ReadOnly : {A : Type 0} (r : Result A) → ReadOnly (lift r)
  lift-ReadOnly r = record { unchanged = λ s. refl }

  attempt-ReadOnly : {A : Type 0} (f : List (Effect Float) → Result A) → ReadOnly (attempt f)
  attempt-ReadOnly f = record { unchanged = λ s. refl }

ruleset read_rules = (>>=-ReadOnly, branch-ReadOnly, pure-ReadOnly, lift-ReadOnly, attempt-ReadOnly)

module _ {Float : Type 0} (u : Unicode) (P : IngestPorts Float) where
  match_by_hint-ReadOnly :
      (c : CandidateRelease Float) (src : Source Float) → ReadOnly (match_by_hint u P c src)
  match_by_hint-ReadOnly c src = search read_rules depth 20

  resolve_product-ReadOnly :
      (m : ProductMatchStatus) (c : CandidateRelease Float) (src : Source Float)
      → ReadOnly (resolve_product u P m c src)
  resolve_product-ReadOnly unique c src = search read_rules
  resolve_product-ReadOnly ambiguous c src = search read_rules
  resolve_product-ReadOnly no_match c src = search read_rules
  resolve_product-ReadOnly ProductMatchStatus.unresolved c src = match_by_hint-ReadOnly c src
  resolve_product-ReadOnly (ProductMatchStatus.unlisted s) c src = match_by_hint-ReadOnly c src

  history-ReadOnly : (c : CandidateRelease Float) → ReadOnly (history u P c)
  history-ReadOnly c = search read_rules depth 20

  assessment_of-ReadOnly :
      (c : CandidateRelease Float) (src : Source Float) (id : Str)
      → ReadOnly (assessment_of u P c src id)
  assessment_of-ReadOnly c src id = search read_rules depth 20

  pub build_context-ReadOnly :
      (c : CandidateRelease Float) (src : Source Float) → ReadOnly (build_context u P c src)
  unfolding build_context
  build_context-ReadOnly c src =
      search (read_rules, resolve_product-ReadOnly, history-ReadOnly, assessment_of-ReadOnly) depth
        20
