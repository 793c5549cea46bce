-- ===== src/Ingest.antt =====
-- internal/application/ingest.go and review.go: what the extraction, validation, publication and
-- review use cases ask of their ports. A call that only writes is an `Effect`, kept in the log in
-- order; a rollback takes the writes of its unit out of the log again. Events are no writes:
-- internal/platform/wire.go sends them to the log stream, which no rollback reaches, so they are
-- kept apart. An error is the one that the port gave, without the
-- words that fmt.Errorf puts before it.
pub mod Session
pub mod Extract
pub mod Extracted
pub mod ExtractedAll
pub mod Publish
pub mod Units
pub mod Quiet
pub mod Published
pub mod Announced
pub mod Context
pub mod Reconcile
pub mod Queue
pub mod Route
pub mod Validate
pub mod Jobs
pub mod Steady
pub mod Routed
pub mod ReadOnly
pub mod Asking
pub mod Granted
pub mod Validated
pub mod Enqueued
pub mod Decide
pub mod Decided
pub mod Premature
use firmscout.Base.{ℕ, ◌+◌, Bool, true, false, List, [], ◌∷◌, ◌++◌, Option, none, some}
use firmscout.Base.Int.{ℤ}
use firmscout.Base.Text.{Str}
use firmscout.Base.Go.{Time, Duration, Error, not_found, Result, ok, err}
use firmscout.Source.{Source}
use firmscout.CheckSource.Ports.{Job}
use firmscout.Event.{Event}
use firmscout.Evidence.{Evidence}
use firmscout.Candidate.{CandidateRelease, CandidateState}
use firmscout.Gates.{GateResult}
use firmscout.Conflict.{SourceObservation}
use firmscout.Conflict.Row.{SourceConflict}
use firmscout.Release.{Release, ReleaseProductMapping}

pub record ReviewItem : Type 0 where
  pub id : Str
  pub kind : Str
  pub subject_type : Str
  pub subject_id : Str
  pub vendor_id : Str
  pub product_id : Str
  pub title : Str
  pub detail : Str
  pub payload : List (Str × Str)
  pub priority_score : ℕ
  pub sla_class : Str
  pub state : Str
  pub created_at : Time

-- AuditEvent, whose maps are association lists
pub record AuditEvent : Type 0 where
  pub id : Str
  pub actor_type : Str
  pub actor_id : Str
  pub actor_authenticated : Bool
  pub action : Str
  pub subject_type : Str
  pub subject_id : Str
  pub before_state : List (Str × Str)
  pub after_state : List (Str × Str)
  pub reason : Str
  pub request_id : Str
  pub trace_id : Str
  pub occurred_at : Time

pub data Effect (Float : Type 0) : Type 0 where
  insert_evidence : Evidence Float → Effect Float
  upsert_candidate : CandidateRelease Float → Effect Float
  set_resolved_product : Str → Str → Effect Float
  record_validation : Str → List GateResult → Effect Float
  -- the candidate, its state and the reason
  update_state : Str → CandidateState → Str → Effect Float
  set_published_release : Str → Str → Effect Float
  record_observation : SourceObservation → Effect Float
  upsert_open_conflict : SourceConflict → Effect Float
  -- the product, the channel and the resolution
  close_open_conflict : Str → Str → Str → Effect Float
  resolve_conflict : Str → Str → Str → Effect Float
  link_review_item : Str → Str → Effect Float
  touch_verified : Str → Effect Float
  clear_latest_flag : Str → Str → Effect Float
  insert_release : Release Float → ReleaseProductMapping → Effect Float
  refresh_summary : Str → Effect Float
  create_review : ReviewItem → Effect Float
  retarget_review : ReviewItem → Effect Float
  -- the item, the resolution and who decided
  resolve_review : Str → Str → Str → Effect Float
  record_audit : AuditEvent → Effect Float
  enqueue : Job → Effect Float

pub record Artifact : Type 0 where
  pub id : Str
  pub source_id : Str
  pub content_type : Str
  pub body : Str
  pub retrieved_at : Time
  pub url : Str

pub record Collector (Float : Type 0) : Type 0 where
  pub id : Str
  pub version : Str
  pub extract : Source Float → Artifact → Result (List (CandidateRelease Float))

pub record Product : Type 0 where
  pub popularity_score : ℤ
  pub security_critical : Bool

-- What the ports answer. A read inside a unit of work may see what the unit has written, so it is
-- given the log; so may the answer to a write, which is an error or none.
pub record IngestPorts (Float : Type 0) : Type 0 where
  pub now : Time
  -- the n-th identifier with a prefix
  pub new_id : Str → ℕ → Str
  pub get_candidate : List (Effect Float) → Str → Result (CandidateRelease Float)
  pub get_source : Str → Result (Source Float)
  pub get_product : Str → Result Product
  pub resolve_by_alias : Str → Str → Result (List Str)
  pub find_duplicate : Str → Str → Str → Result Str
  pub latest_for_product : List (Effect Float) → Str → Str → Result (Release Float)
  pub observations_for_product : Str → Str → Result (List SourceObservation)
  pub get_review_item : List (Effect Float) → Str → Result ReviewItem
  pub find_open_by_subject : List (Effect Float) → Str → Str → Result ReviewItem
  pub collector_for : Source Float → Result (Collector Float)
  pub read_artifact : Str → Result Str
  -- the id of the stored candidate, and whether it was created
  pub upserted_candidate : List (Effect Float) → CandidateRelease Float → Result (Str × Bool)
  -- the id and the review item of the stored conflict, and whether it was created
  pub upserted_conflict : List (Effect Float) → SourceConflict → Result (Str × Str × Bool)
  pub closed_conflict : List (Effect Float) → Str → Str → Str → Result Bool
  pub answer : List (Effect Float) → Effect Float → Option Error
  pub publish : List Event → Option Error
  -- `err.Error()`
  pub error_text : Error → Str
  -- beginning a transaction, and committing it
  pub begin : Option Error
  pub commit : List (Effect Float) → Option Error
  -- `deps.Conflicts != nil`, and `deps.Releases != nil` in ReviewDeps
  pub has_conflicts : Bool
  pub has_releases : Bool
  -- the configuration in IngestDeps, after `defaults`
  pub threshold : Float
  pub future_date_tolerance : Duration
  pub earliest_plausible_date : Time
