-- ===== src/Ingest/Asking.antt =====
-- internal/application/ingest.go: parts of ValidateCandidate.Execute that ask for no publication,
-- and parts that do or do not as the decision says; none of them sends an event.
use firmscout.Base.{Bool, false, List, ◌++◌, ◌≡◌, refl, ap, ◌∙◌}
use firmscout.Base.Go.{Result, ok, err}
use firmscout.Event.{Event}
use firmscout.Ingest.Session.{Session, M, after, ◌>>◌, ◌>>=◌}
use firmscout.CheckSource.Ports.{Job}
use firmscout.Ingest.Jobs.{jobs}
use firmscout.Ingest.Context.{ValidateResult}
use firmscout.Ingest.Steady.{Steady}

module _ {Float : Type 0} where
  -- The events that went out, the verdict, whether a publication is asked for, and the jobs
  abbrev pub Alike : Session Float ValidateResult → Session Float ValidateResult → Type 0
  Alike s t =
      (t.announced ≡ s.announced)
      × (t.out.verdict ≡ s.out.verdict)
      × (t.out.publication_enqueued ≡ s.out.publication_enqueued)
      × (jobs t.log ≡ jobs s.log)

  pub record Mild {A : Type 0} (m : M Float ValidateResult A) : Type 0 where
    pub leaves : (s : Session Float ValidateResult) → Alike s (m s).1

  pub Steady-Mild : {A : Type 0} (m : M Float ValidateResult A) → Steady m → Mild m
  Steady-Mild m h = record {
    leaves = λ s.
        let (a, o, j) = h.keeps s in
        (
          a,
          ap (λ (x : ValidateResult). x.verdict) o,
          ap (λ (x : ValidateResult). x.publication_enqueued) o,
          j,
        );
  }

  after-Alike :
      {A B : Type 0} (s : Session Float ValidateResult)
      (r : Result A × Session Float ValidateResult) (f : A → M Float ValidateResult B)
      → Alike s r.1
      → ((a : A) → Mild (f a))
      → Alike s (after r f).1
  after-Alike s (ok a, t) f h k =
      let n = (k a).leaves t in (n.0 ∙ h.0, n.1 ∙ h.1, n.2 ∙ h.2, n.3 ∙ h.3)
  after-Alike s (err e, t) f h k = h

  pub >>=-Mild :
      {A B : Type 0} (m : M Float ValidateResult A) (f : A → M Float ValidateResult B)
      → Mild m
      → ((a : A) → Mild (f a))
      → Mild (m >>= f)
  >>=-Mild m f h k = record { leaves = λ s. after-Alike s (m s) f (h.leaves s) k }

  pub >>-Mild :
      {B : Type 0} (m : M Float ValidateResult (Unit {0})) (k : M Float ValidateResult B)
      → Mild m
      → Mild k
      → Mild (m >> k)
  >>-Mild m k h h' = record { leaves = λ s. after-Alike s (m s) (λ _. k) (h.leaves s) (λ _. h') }

  -- A value that the computation can give
  abbrev pub Gives : {A : Type 0} → M Float ValidateResult A → A → Type 0
  Gives m a = (s : Session Float ValidateResult) × ((m s).0 ≡ ok a)

  -- If it succeeds, the flag is `b`, the new jobs are as `J` says, and no event has gone out.
  abbrev pub Asked :
      Bool
      → (List Job → Type 0)
      → Session Float ValidateResult
      → Session Float ValidateResult
      → Type 0
  Asked b J s t =
      (t.announced ≡ s.announced)
      × (t.out.verdict ≡ s.out.verdict)
      × (t.out.publication_enqueued ≡ b)
      × ((w : List Job) × (jobs t.log ≡ jobs s.log ++ w) × J w)

  pub record Asks (b : Bool) (J : List Job → Type 0) {A : Type 0} (m : M Float ValidateResult A)
      : Type 0 where
    pub quiet : (s : Session Float ValidateResult) → (m s).1.announced ≡ s.announced
    pub asks :
        (s : Session Float ValidateResult) (a : A)
        → s.out.publication_enqueued ≡ false
        → (m s).0 ≡ ok a
        → Asked b J s (m s).1

  before-quiet :
      {A B : Type 0} (b : Bool) (J : List Job → Type 0) (l : List Event)
      (r : Result A × Session Float ValidateResult) (f : A → M Float ValidateResult B)
      → r.1.announced ≡ l
      → ((a : A) → r.0 ≡ ok a → Asks b J (f a))
      → (after r f).1.announced ≡ l
  before-quiet b J l (ok a, t) f h k = (k a refl).quiet t ∙ h
  before-quiet b J l (err e, t) f h k = h

  before-asks :
      {A B : Type 0} (b : Bool) (J : List Job → Type 0) (s : Session Float ValidateResult)
      (r : Result A × Session Float ValidateResult) (f : A → M Float ValidateResult B) (x : B)
      → Alike s r.1
      → ((a : A) → r.0 ≡ ok a → Asks b J (f a))
      → s.out.publication_enqueued ≡ false
      → (after r f).0 ≡ ok x
      → Asked b J s (after r f).1
  before-asks b J s (ok a, t) f x h k fresh e =
      let n = (k a refl).asks t x (h.2 ∙ fresh) e in
      let (w, q, j) = n.3 in (n.0 ∙ h.0, n.1 ∙ h.1, n.2, (w, q ∙ ap (λ l. l ++ w) h.3, j))
  before-asks b J s (err y, t) f x h k fresh e = absurd (cc)

  after-asks :
      {A B : Type 0} (b : Bool) (J : List Job → Type 0) (s : Session Float ValidateResult)
      (r : Result A × Session Float ValidateResult) (f : A → M Float ValidateResult B) (x : B)
      → ((a : A) → r.0 ≡ ok a → Asked b J s r.1)
      → ((a : A) → Mild (f a))
      → (after r f).0 ≡ ok x
      → Asked b J s (after r f).1
  after-asks b J s (ok a, t) f x h k e =
      let m = h a refl in
      let n = (k a).leaves t in
      let (w, q, j) = m.3 in (n.0 ∙ m.0, n.1 ∙ m.1, n.2 ∙ m.2, (w, n.3 ∙ q, j))
  after-asks b J s (err y, t) f x h k e = absurd (cc)

  after-quiet :
      {A B : Type 0} (l : List Event) (r : Result A × Session Float ValidateResult)
      (f : A → M Float ValidateResult B)
      → r.1.announced ≡ l
      → ((a : A) → Mild (f a))
      → (after r f).1.announced ≡ l
  after-quiet l (ok a, t) f h k = ((k a).leaves t).0 ∙ h
  after-quiet l (err e, t) f h k = h

  pub Mild-Asks :
      {A B : Type 0} (b : Bool) (J : List Job → Type 0) (m : M Float ValidateResult A)
      (f : A → M Float ValidateResult B)
      → Mild m
      → ((a : A) → Gives m a → Asks b J (f a))
      → Asks b J (m >>= f)
  Mild-Asks b J m f h k = record {
    quiet = λ s. before-quiet b J s.announced (m s) f (h.leaves s).0 (λ a q. k a (s, q));
    asks = λ s x fresh e. before-asks b J s (m s) f x (h.leaves s) (λ a q. k a (s, q)) fresh e;
  }

  pub Asks-Mild :
      {A B : Type 0} (b : Bool) (J : List Job → Type 0) (m : M Float ValidateResult A)
      (f : A → M Float ValidateResult B)
      → Asks b J m
      → ((a : A) → Mild (f a))
      → Asks b J (m >>= f)
  Asks-Mild b J m f h k = record {
    quiet = λ s. after-quiet s.announced (m s) f (h.quiet s) k;
    asks = λ s x fresh e. after-asks b J s (m s) f x (λ a q. h.asks s a fresh q) k e;
  }
