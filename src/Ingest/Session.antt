-- ===== src/Ingest/Session.antt =====
-- internal/application/ingest.go and review.go, internal/adapters/postgres/db.go: the computations of
-- the use cases, which pass on the writes, the events and the result so far, and the unit of work
-- (Within).
use firmscout.Base.{ℕ, ◌+◌, Bool, true, false, List, [], ◌∷◌, ◌++◌, Option, none, some}
use firmscout.Base.Text.{Str}
use firmscout.Base.Go.{Error, not_found, Result, ok, err}
use firmscout.Event.{Event}
use firmscout.Ingest.{Effect, IngestPorts}

-- The state of a use case: the writes that stand, the events that went out, the identifiers drawn,
-- whether a transaction is open, the events kept back, and the result so far.
pub record Session (Float Out : Type 0) : Type 0 where
  pub log : List (Effect Float)
  pub announced : List Event
  pub drawn : ℕ
  pub in_unit : Bool
  pub pending : List Event
  pub out : Out

abbrev pub fresh_session : {Float Out : Type 0} → Out → Session Float Out
fresh_session o = record {
  log = [];
  announced = [];
  drawn = 0;
  in_unit = false;
  pending = [];
  out = o;
}

abbrev pub M : Type 0 → Type 0 → Type 0 → Type 0
M Float Out A = Session Float Out → Result A × Session Float Out

abbrev pub after : {S A B : Type 0} → Result A × S → (A → S → Result B × S) → Result B × S
after (ok a, s) f = f a s
after (err e, s) f = (err e, s)

infixl 5 ◌>>=◌ ◌>>◌
abbrev pub ◌>>=◌ : {Float Out A B : Type 0} → M Float Out A → (A → M Float Out B) → M Float Out B
◌>>=◌ m f s = after (m s) f

abbrev pub ◌>>◌ : {Float Out B : Type 0} → M Float Out (Unit {0}) → M Float Out B → M Float Out B
◌>>◌ m k s = after (m s) (λ _. k)

abbrev pub is_not_found : Error → Bool
is_not_found not_found = true
is_not_found _ = false

module _ {Float Out : Type 0} where
  abbrev pub pure : {A : Type 0} → A → M Float Out A
  pure a s = (ok a, s)

  abbrev pub fail : {A : Type 0} → Error → M Float Out A
  fail e s = (err e, s)

  abbrev pub lift : {A : Type 0} → Result A → M Float Out A
  lift r s = (r, s)

  -- The answer of a call whose error the code looks at
  abbrev pub attempt : {A : Type 0} → (List (Effect Float) → Result A) → M Float Out (Result A)
  attempt f s = (ok (f s.log), s)

  -- `_ =` before a call: its error is dropped
  abbrev pub dropping :
      Result (Unit {0}) × Session Float Out → Result (Unit {0}) × Session Float Out
  dropping (ok a, s) = (ok a, s)
  dropping (err e, s) = (ok tt, s)

  -- A branch of the code
  abbrev pub branch : {A : Type 0} → Bool → M Float Out A → M Float Out A → M Float Out A
  branch true m n s = m s
  branch false m n s = n s

  -- Another use case run as a part of this one, with a result of its own
  abbrev pub nested : {A Out' : Type 0} → Out' → M Float Out' A → M Float Out (A × Out')
  nested o m s =
      let r = m (record {
        log = s.log;
        announced = s.announced;
        drawn = s.drawn;
        in_unit = s.in_unit;
        pending = [];
        out = o;
      }) in
      let back = record s {
        log = r.1.log;
        announced = r.1.announced;
        drawn = r.1.drawn;
        in_unit = r.1.in_unit;
      } in
      after (r.0, back) (λ a t. (ok (a, r.1.out), t))

  -- A check that gives an error or none
  abbrev pub require : Option Error → M Float Out (Unit {0})
  require none s = (ok tt, s)
  require (some e) s = (err e, s)

  abbrev pub reads : {A : Type 0} → (List (Effect Float) → Result A) → M Float Out A
  reads f s = (f s.log, s)

  abbrev pub set_out : (Out → Out) → M Float Out (Unit {0})
  set_out f s = (ok tt, record s { out = f s.out })

  abbrev pub later : Event → M Float Out (Unit {0})
  later e s = (ok tt, record s { pending = s.pending ++ (e ∷ []) })

  abbrev pub unless_error : {A : Type 0} → Effect Float → A → Option Error → M Float Out A
  unless_error e a none s = (ok a, record s { log = s.log ++ (e ∷ []) })
  unless_error e a (some x) s = (err x, s)

  abbrev pub with_answer : {A : Type 0} → Effect Float → Result A → M Float Out A
  with_answer e (ok a) s = (ok a, record s { log = s.log ++ (e ∷ []) })
  with_answer e (err x) s = (err x, s)

  -- A call that answers with a value: it is in the log if it did not fail.
  abbrev pub asks : {A : Type 0} → Effect Float → (List (Effect Float) → Result A) → M Float Out A
  asks e f s = with_answer e (f s.log) s

  module _ (P : IngestPorts Float) where
    abbrev pub call : Effect Float → M Float Out (Unit {0})
    call e s = unless_error e tt (P.answer s.log e) s

    abbrev pub draw : Str → M Float Out Str
    draw prefix s = (ok (P.new_id prefix s.drawn), record s { drawn = s.drawn + 1 })

    abbrev sent : List Event → Option Error → M Float Out (Unit {0})
    sent es none s = (ok tt, record s { announced = s.announced ++ es })
    sent es (some e) s = (err e, s)

    abbrev pub announce : List Event → M Float Out (Unit {0})
    announce es s = sent es (P.publish es) s

    -- The end of a transaction that was begun in `before`
    abbrev pub commit_or_not :
        {A : Type 0}
        → Session Float Out
        → A
        → Session Float Out
        → Option Error
        → Result A × Session Float Out
    commit_or_not before a s none = (ok a, record s { in_unit = false })
    commit_or_not before a s (some e) = (err e, record s { log = before.log; in_unit = false })

    abbrev pub finish :
        {A : Type 0}
        → Session Float Out
        → Result A × Session Float Out
        → Result A × Session Float Out
    finish before (ok a, s) = commit_or_not before a s (P.commit s.log)
    finish before (err e, s) = (err e, record s { log = before.log; in_unit = false })

    abbrev pub begun :
        {A : Type 0}
        → M Float Out A
        → Option Error
        → Session Float Out
        → Result A × Session Float Out
    begun m none s = finish s (m (record s { in_unit = true }))
    begun m (some e) s = (err e, s)

    abbrev pub entered :
        {A : Type 0} → M Float Out A → Bool → Session Float Out → Result A × Session Float Out
    entered m true s = m s
    entered m false s = begun m P.begin s

    -- DB.Within: a unit inside another joins it
    unfoldable pub within : {A : Type 0} → M Float Out A → M Float Out A
    within m s = entered m s.in_unit s
