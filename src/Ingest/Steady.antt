-- ===== src/Ingest/Steady.antt =====
-- internal/application: the parts of the use cases that send no event, ask for no job and leave the
-- result alone.
use firmscout.Base.{Bool, true, false, List, [], Option, none, some, ◌≡◌, refl, ◌∙◌}
use firmscout.Base.Go.{Error, Result, ok, err}
use firmscout.Base.Text.{Str}
use firmscout.Event.{Event}
use firmscout.Ingest.{Effect, IngestPorts}
use firmscout.Ingest.Jobs.{job_of, jobs, jobs-call}
use firmscout.Ingest.Session.{
  Session, M, after, ◌>>◌, ◌>>=◌, pure, lift, require, attempt, asks, with_answer, branch, later,
  draw, call, unless_error,
}

module _ {Float Out : Type 0} where
  -- The events that went out, the result and the jobs asked for are as before.
  abbrev pub Same : Session Float Out → Session Float Out → Type 0
  Same s t = (t.announced ≡ s.announced) × (t.out ≡ s.out) × (jobs t.log ≡ jobs s.log)

  pub record Steady {A : Type 0} (m : M Float Out A) : Type 0 where
    pub keeps : (s : Session Float Out) → Same s (m s).1

  after-Same :
      {A B : Type 0} (s : Session Float Out) (r : Result A × Session Float Out)
      (f : A → M Float Out B)
      → Same s r.1
      → ((a : A) → Steady (f a))
      → Same s (after r f).1
  after-Same s (ok a, t) f h k = let n = (k a).keeps t in (n.0 ∙ h.0, n.1 ∙ h.1, n.2 ∙ h.2)
  after-Same s (err e, t) f h k = h

  pub >>=-Steady :
      {A B : Type 0} (m : M Float Out A) (f : A → M Float Out B)
      → Steady m
      → ((a : A) → Steady (f a))
      → Steady (m >>= f)
  >>=-Steady m f h k = record { keeps = λ s. after-Same s (m s) f (h.keeps s) k }

  pub >>-Steady :
      {B : Type 0} (m : M Float Out (Unit {0})) (k : M Float Out B)
      → Steady m
      → Steady k
      → Steady (m >> k)
  >>-Steady m k h h' = record { keeps = λ s. after-Same s (m s) (λ _. k) (h.keeps s) (λ _. h') }

  pub branch-Steady :
      {A : Type 0} (b : Bool) (m n : M Float Out A) → Steady m → Steady n → Steady (branch b m n)
  branch-Steady true m n h k = record { keeps = λ s. h.keeps s }
  branch-Steady false m n h k = record { keeps = λ s. k.keeps s }

  pub pure-Steady : {A : Type 0} (a : A) → Steady (pure a)
  pure-Steady a = record { keeps = λ s. (refl, refl, refl) }

  pub lift-Steady : {A : Type 0} (r : Result A) → Steady (lift r)
  lift-Steady r = record { keeps = λ s. (refl, refl, refl) }

  pub attempt-Steady : {A : Type 0} (f : List (Effect Float) → Result A) → Steady (attempt f)
  attempt-Steady f = record { keeps = λ s. (refl, refl, refl) }

  require-Same : (o : Option Error) (s : Session Float Out) → Same s (require o s).1
  require-Same none s = (refl, refl, refl)
  require-Same (some e) s = (refl, refl, refl)

  pub require-Steady : (o : Option Error) → Steady (require o)
  require-Steady o = record { keeps = require-Same o }

  pub later-Steady : (e : Event) → Steady (later e)
  later-Steady e = record { keeps = λ s. (refl, refl, refl) }

  answer-Same :
      {A : Type 0} (e : Effect Float) (r : Result A) (s : Session Float Out)
      → job_of e ≡ []
      → Same s (with_answer e r s).1
  answer-Same e (ok a) s h = (refl, refl, jobs-call s.log e h)
  answer-Same e (err x) s h = (refl, refl, refl)

  pub asks-Steady :
      {A : Type 0} (e : Effect Float) (f : List (Effect Float) → Result A)
      → job_of e ≡ []
      → Steady (asks e f)
  asks-Steady e f h = record { keeps = λ s. answer-Same e (f s.log) s h }

  call-Same :
      (e : Effect Float) (o : Option Error) (s : Session Float Out)
      → job_of e ≡ []
      → Same s (unless_error e tt o s).1
  call-Same e none s h = (refl, refl, jobs-call s.log e h)
  call-Same e (some x) s h = (refl, refl, refl)

  module _ (P : IngestPorts Float) where
    pub call-Steady : (e : Effect Float) → job_of e ≡ [] → Steady (call P e)
    call-Steady e h = record { keeps = λ s. call-Same e (P.answer s.log e) s h }

    pub draw-Steady : (prefix : Str) → Steady (draw P prefix)
    draw-Steady prefix = record { keeps = λ s. (refl, refl, refl) }

pub ruleset steady_rules = (
  >>=-Steady, >>-Steady, branch-Steady, pure-Steady, lift-Steady, attempt-Steady, require-Steady,
  later-Steady, asks-Steady, call-Steady, draw-Steady,
)
