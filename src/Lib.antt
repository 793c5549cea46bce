-- ===== src/Lib.antt =====
-- FirmScout: what the catalogue may read, when it reads it, and what it may publish.
--
-- The program watches the pages on which vendors announce firmware. A scheduler picks the sources
-- that are due (ListDispatchable), a check fetches one and compares its content (CheckSource), a
-- change leads to an extraction job (ExtractCandidates), its candidates pass ten gates
-- (ValidateCandidate, RunValidationGates), claims of several sources are compared
-- (AssessSourceConflict), and what passes becomes a release (PublishRelease) or a review item that a
-- human decides (DecideReviewItem). The modelled parts, by their files here and in the repository:
--
--   Source         internal/domain/source.go: vocabularies, Source.Validate, CompliancePermitsCollection,
--                  Dispatchable, TransitionHealth, HealthForOutcome. Source/Dispatch and Source/Due model
--                  ListDispatchable, nullTime and clampLimit of internal/adapters/postgres.
--   Schedule       internal/domain/scheduling.go: NextInterval, finalize, scale.
--   CheckSource    internal/application/checksource.go: Ports has the data and the ports of ports.go,
--                  Outcome applyOutcome, Content the fetch and the comparison, Events emitEvents,
--                  Execute the whole of Execute. A run gives its result, its error and the log of its
--                  calls in order.
--   Event          internal/domain/events.go
--   Version        internal/domain/version.go: normal forms, Tokens, AssessTransition
--   Date           internal/domain/partialdate.go, on civil dates; time.Date is `time_date`
--   ReleaseType    internal/domain/releasetype.go
--   Candidate      internal/domain/candidate.go; Candidate/Path models pathTo and
--                  ValidateCandidate.transition of internal/application/ingest.go
--   Gates          internal/domain/validation.go: Gates/Rules has one `rule_` for each gate, Gates/Run
--                  `run_rulings` for the loop
--   Conflict       internal/domain/conflict.go; Conflict/Row has SourceConflict
--   Release        internal/domain/release.go
--   Review         internal/domain/review.go
--   Slug           internal/domain/slug.go
--   Catalog        internal/domain/catalog.go
--   Evidence       internal/domain/evidence.go
--   Robots         internal/adapters/fetch/robots.go: selectGroup, allows and robotsPathMatch; Parse has
--                  parseRobots and productToken, Cache policyFor, fetch and Allowed
--   Guard          internal/adapters/fetch/ssrf.go: CheckIP and unwrapAddress; Special names the
--                  IPv6 blocks that it refuses; Address has CheckAddr,
--                  portAllowed and checkHostname
--   Ingest         the ports of internal/application/ports.go that the ingestion use cases call.
--                  Ingest/Session has Within of internal/adapters/postgres/db.go: a computation passes
--                  on a session, which holds the calls made so far, the events sent, the events kept
--                  back, the result so far, and whether a unit of work is open; one that fails drops
--                  the calls made inside it.
--                  Of internal/application/ingest.go, Ingest/Extract models ExtractCandidates,
--                  Ingest/Publish PublishRelease, and Ingest/Validate ValidateCandidate, with
--                  buildContext in Context, reconcileConflict in Reconcile, routeToReview in Queue and Route.
--                  Ingest/Decide models decide of internal/application/review.go.
--   Base           lists, numbers, text and Go's time; the errors of internal/domain/errors.go
--   Examples       each theorem at a concrete input
--
-- A named string type is a data type with a constructor for each constant and `unlisted` for any other
-- string. A string is its list of code points. A time is the nanoseconds since Go's zero time, and no
-- earlier one occurs; a duration is a signed number of nanoseconds, whose int64 range is written out
-- where the code depends on it. A counter is a natural number. A validation error keeps its field and
-- the fixed part of its message.
--
-- Parameters, with what the code relies on as named hypotheses: the tables of package unicode (Unicode,
-- IsUnicode), the parsers of package net and strconv (in Guard/Address and Robots/Parse), float64 and
-- package math (FloatOps; ExactDoubling, FractionLaw and UnitLaw state what a theorem needs), SHA-256,
-- and the ports of the use cases, which are records of their answers. Every loop of the model is
-- structural, but for decimal digits and the carry of days into months, whose rounds are one more than
-- the number, or the number of days, and each round takes at least one off.
--
-- Not modelled: the registry use cases, the read-only queries, ParsePartialDate, ValidateURL and the
-- redirects of the fetcher; and as I/O or third-party code the HTTP client and API, the SQL of the
-- repositories, HTML normalisation, collectors, telemetry, the programs and the web pages.
pub mod Base
pub mod Slug
pub mod Guard
pub mod Catalog
pub mod Source
pub mod Robots
pub mod Schedule
pub mod Event
pub mod Evidence
pub mod CheckSource
pub mod Version
pub mod Date
pub mod ReleaseType
pub mod Candidate
pub mod Gates
pub mod Conflict
pub mod Release
pub mod Review
pub mod Ingest
pub mod Examples
