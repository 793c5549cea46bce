-- ===== src/CheckSource/Content.antt =====
-- internal/application/checksource.go: what Execute makes of a fetch, and of changed content.
use firmscout.Base.{
  zero, ◌*◌, Bool, true, not, ◌&&◌, List, [], ◌∷◌, ◌++◌, Option, none, some, inl, inr,
  if◌then◌else◌, is_empty,
}
use firmscout.Base.Int.{pos, leb_ℤ}
use firmscout.Base.Text.{Str, text, str_eq}
use firmscout.Base.Go.{second, Error, ok, err}
use firmscout.Source.{unchanged, unavailable, parser_failed, section_hash, Source}
use firmscout.CheckSource.Ports.{
  FetchRequest, FetchResult, SourceCheck, CheckSourceResult, Effect, stored_artifact,
  touched_artifact, Ports,
}
use firmscout.CheckSource.Outcome.{is_unset, is_changed, empty_result}

-- What the fetch and the comparison of its content come to.
pub record Examined (Float : Type 0) : Type 0 where
  pub check : SourceCheck
  pub result : CheckSourceResult
  pub error : Option Error
  pub calls : List (Effect Float)

module _ {Float : Type 0} where
  unfoldable pub fetch_request : Ports Float → Source Float → FetchRequest
  fetch_request P s = record {
    url = s.url;
    etag = s.etag;
    last_modified = s.last_modified_value;
    expected_content_type = s.expected_content_type;
    max_bytes = if leb_ℤ P.max_bytes (pos zero) then pos 8_388_608 else P.max_bytes;
    timeout = if leb_ℤ P.timeout (pos zero) then pos (30 * second) else P.timeout;
    user_agent = P.user_agent;
    respect_robots = true;
  }

  -- The check as the fetch leaves it; a fetch error without an outcome is `unavailable`.
  unfoldable pub fetched_check : Ports Float → Source Float → FetchResult → Option Str → SourceCheck
  fetched_check P s res fetch_error = record {
    id = P.new_id (text "chk");
    source_id = s.id;
    started_at = P.now;
    finished_at = P.finished;
    outcome = elim fetch_error [
      | none ↦ res.outcome
      | some m ↦ if is_unset res.outcome then unavailable else res.outcome
    ];
    change_signal = res.change_signal;
    http_status = res.status_code;
    response_etag = res.etag;
    response_last_modified = res.last_modified;
    redirect_location = res.redirect_location;
    normalized_content_hash = [];
    artifact_id = [];
    bytes_fetched = res.bytes_read;
    error_message = elim fetch_error [ none ↦ [] | some m ↦ m ];
  }

  -- A new hash: the raw body is stored, and touched if it was there.
  unfoldable pub store_content :
      Ports Float → FetchResult → SourceCheck → CheckSourceResult → Examined Float
  store_content P res check out =
      let raw_hash = P.digest res.body in
      elim (P.put_artifact raw_hash res.content_type res.body) [
        | err e ↦ record {
          check = check;
          result = out;
          error = some e;
          calls = stored_artifact raw_hash ∷ [];
        }
        | ok (id, created) ↦ record {
          check = record check { artifact_id = id };
          result = record out { artifact_id = id; reason = text "monitored section changed" };
          error = none;
          calls = stored_artifact raw_hash ∷ (if created then [] else touched_artifact id ∷ []);
        }
      ]

  unfoldable pub is_same_hash : Str → Source Float → Bool
  is_same_hash hash s = not (is_empty hash) && str_eq hash s.normalized_content_hash

  -- A changed body is normalised, and its hash compared with the last one.
  unfoldable pub compare_content :
      Ports Float → Source Float → FetchResult → SourceCheck → CheckSourceResult → Examined Float
  unfolding store_content is_same_hash
  compare_content P s res check out =
      elim (P.normalize res.content_type res.body s.normalize.section_selector s.normalize.strip) [
        | inl message ↦ record {
          check = record check { outcome = parser_failed; error_message = message };
          result = record out {
            outcome = parser_failed;
            reason = text "normalisation failed: " ++ message;
          };
          error = none;
          calls = [];
        }
        | inr hash ↦
            if is_same_hash hash s
            then record {
              check = record check {
                normalized_content_hash = hash;
                outcome = unchanged;
                change_signal = section_hash;
              };
              result = record out {
                content_hash = hash;
                outcome = unchanged;
                change_signal = section_hash;
                reason = text "content changed but the monitored section did not";
              };
              error = none;
              calls = [];
            }
            else store_content P res (record check { normalized_content_hash = hash })
                (record out { content_hash = hash })
      ]

  unfoldable pub examine : Ports Float → Source Float → FetchResult → Option Str → Examined Float
  unfolding compare_content fetched_check
  examine P s res fetch_error =
      let check = fetched_check P s res fetch_error in
      let out = empty_result s.id check.outcome check.change_signal [] in
      if is_changed check.outcome && not (is_empty res.body)
      then compare_content P s res check out
      else record { check = check; result = out; error = none; calls = [] }
