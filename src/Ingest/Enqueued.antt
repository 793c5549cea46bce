-- ===== src/Ingest/Enqueued.antt =====
-- internal/application/ingest.go: when ValidateCandidate.Execute asks for a publication.
use firmscout.Base.{◌++◌, List, ◌≡◌}
use firmscout.Base.Text.{Str, Unicode}
use firmscout.Base.Go.{Result, FloatOps}
use firmscout.Source.{Source}
use firmscout.Event.{Event}
use firmscout.Gates.{publishable}
use firmscout.Ingest.{IngestPorts}
use firmscout.Ingest.Session.{Session}
use firmscout.Ingest.Context.{ValidateResult}
use firmscout.CheckSource.Ports.{Job}
use firmscout.Ingest.Jobs.{jobs}
use firmscout.Ingest.Granted.{Publications}

module _ {Float : Type 0} ⦃F : FloatOps Float⦄ (u : Unicode) (P : IngestPorts Float) where
  abbrev Run : Type 0
  Run = Result (Unit {0}) × Session Float ValidateResult

  -- The flag of the result is whether the verdict is publishable; and the jobs that were put into the
  -- queue are the one for the publication of this candidate if it is, and none if it is not.
  abbrev pub IsAsked : Str → Session Float ValidateResult → Session Float ValidateResult → Type 0
  IsAsked id s t =
      (t.out.publication_enqueued ≡ publishable t.out.verdict)
      × ((w : List Job) × (jobs t.log ≡ jobs s.log ++ w)
          × Publications P (publishable t.out.verdict) id w)
