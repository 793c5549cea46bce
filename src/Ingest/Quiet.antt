-- ===== src/Ingest/Quiet.antt =====
-- internal/application: the parts of the use cases that send no event, and a unit of work whose
-- commit fails.
use firmscout.Base.{subst, true, false, List, Option, none, some, ◌≡◌, refl, sym, ap, ◌∙◌}
use firmscout.Base.Go.{Error, Result, ok, err}
use firmscout.Event.{Event}
use firmscout.Ingest.{Effect, IngestPorts}
use firmscout.Ingest.Session.{Session, M, after, call, unless_error, within, finish, begun, entered}

module _ {Float Out : Type 0} where
  -- No event goes out, however it ends.
  abbrev pub Quiet : {A : Type 0} → M Float Out A → Type 0
  Quiet m = (s : Session Float Out) → (m s).1.announced ≡ s.announced

  pub after-Quiet :
      {A B : Type 0} (r : Result A × Session Float Out) (f : A → M Float Out B) (l : List Event)
      → r.1.announced ≡ l
      → ((a : A) → Quiet (f a))
      → (after r f).1.announced ≡ l
  after-Quiet (ok a, s) f l h k = k a s ∙ h
  after-Quiet (err e, s) f l h k = h

  module _ (P : IngestPorts Float) where
    unless-Quiet : (e : Effect Float) (o : Option Error) → Quiet (unless_error e tt o)
    unless-Quiet e none s = refl
    unless-Quiet e (some x) s = refl

    pub call-Quiet : (e : Effect Float) → Quiet (call P e)
    call-Quiet e s = unless-Quiet e (P.answer s.log e) s

    -- The events of a unit that cannot be committed have gone out all the same.
    abbrev pub Undone :
        {A : Type 0} → Session Float Out → List Event → Result A × Session Float Out → Type 0
    Undone s l r = ((e : Error) × (r.0 ≡ err e)) × (r.1.log ≡ s.log) × (r.1.announced ≡ l)

    finish-Undone :
        {A : Type 0} (s : Session Float Out) (l : List Event) (r : Result A × Session Float Out)
        → ((w : List (Effect Float)) → (e : Error) × (P.commit w ≡ some e))
        → r.1.announced ≡ l
        → Undone s l (finish P s r)
    finish-Undone s l (ok a, t) fails h = let (e, q) = fails t.log in rw q ((e, refl), refl, h)
    finish-Undone s l (err e, t) fails h = ((e, refl), refl, h)

    pub within-Undone :
        {A : Type 0} (m : M Float Out A) (s : Session Float Out) (l : List Event)
        → s.in_unit ≡ false
        → P.begin ≡ none
        → ((w : List (Effect Float)) → (e : Error) × (P.commit w ≡ some e))
        → (m (record s { in_unit = true })).1.announced ≡ l
        → Undone s l (within P m s)
    unfolding within
    within-Undone {A} m s l out began fails h =
        let run : within P m s ≡ finish P s (m (record s { in_unit = true })) =
          ap (λ b. entered P m b s) out ∙ ap (λ o. begun P m o s) began in
        subst (Undone s l) (sym run) (finish-Undone s l (m (record s { in_unit = true })) fails h)
