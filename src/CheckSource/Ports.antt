-- ===== src/CheckSource/Ports.antt =====
-- internal/application/checksource.go and ports.go: the data of a check, and the ports that it calls.
use firmscout.Base.{Bool, List, Option, ◌⊎◌}
use firmscout.Base.Int.{ℤ}
use firmscout.Base.Text.{Str}
use firmscout.Base.Go.{Time, Duration, Error, Result}
use firmscout.Source.{CheckOutcome, ChangeSignal, Source}
use firmscout.Schedule.{SchedulingPolicy}
use firmscout.Event.{Event}

pub record FetchRequest : Type 0 where
  pub url : Str
  pub etag : Str
  pub last_modified : Str
  pub expected_content_type : Str
  pub max_bytes : ℤ
  pub timeout : Duration
  pub user_agent : Str
  pub respect_robots : Bool

pub record FetchResult : Type 0 where
  pub outcome : CheckOutcome
  pub change_signal : ChangeSignal
  pub status_code : ℤ
  pub etag : Str
  pub last_modified : Str
  pub content_type : Str
  pub body : Str
  pub bytes_read : ℤ
  pub redirect_location : Str
  pub off_registered_host : Bool
  pub retry_after : Duration

pub record SourceCheck : Type 0 where
  pub id : Str
  pub source_id : Str
  pub started_at : Time
  pub finished_at : Time
  pub outcome : CheckOutcome
  pub change_signal : ChangeSignal
  pub http_status : ℤ
  pub response_etag : Str
  pub response_last_modified : Str
  pub redirect_location : Str
  pub normalized_content_hash : Str
  pub artifact_id : Str
  pub bytes_fetched : ℤ
  pub error_message : Str

pub record Job : Type 0 where
  pub id : Str
  pub kind : Str
  pub idempotency_key : Str
  pub payload : List (Str × Str)
  pub run_after : Time

pub record CheckSourceResult : Type 0 where
  pub source_id : Str
  pub outcome : CheckOutcome
  pub change_signal : ChangeSignal
  pub artifact_id : Str
  pub content_hash : Str
  pub next_check_at : Time
  pub reason : Str
  pub extraction_enqueued : Bool

-- A call on the outside.
pub data Effect (Float : Type 0) : Type 0 where
  fetched : FetchRequest → Effect Float
  stored_artifact : Str → Effect Float
  touched_artifact : Str → Effect Float
  updated_state : Source Float → Effect Float
  recorded_check : SourceCheck → Effect Float
  published : List Event → Effect Float
  enqueued : Job → Effect Float

-- What the ports answer. An error is `some`; an error's text is a string where the code keeps it.
pub record Ports (Float : Type 0) : Type 0 where
  pub now : Time
  pub finished : Time
  pub get_source : Str → Result (Source Float)
  pub fetch : FetchRequest → FetchResult × Option Str
  -- the hash, or the error's text
  pub normalize : Str → Str → Str → List Str → Str ⊎ Str
  -- hex(sha256(body))
  pub digest : Str → Str
  pub put_artifact : Str → Str → Str → Result (Str × Bool)
  pub update_check_state : Source Float → Option Error
  pub record_check : SourceCheck → Option Error
  pub publish : List Event → Option Error
  pub enqueue : Job → Option Error
  pub new_id : Str → Str
  -- the configuration in CheckSourceDeps
  pub policy : SchedulingPolicy Float
  pub user_agent : Str
  pub max_bytes : ℤ
  pub timeout : Duration

-- What Execute returns, with the calls that it made.
pub record Run (Float : Type 0) : Type 0 where
  pub result : CheckSourceResult
  pub error : Option Error
  pub log : List (Effect Float)
