-- ===== src/Examples/Sources.antt =====
-- Examples of sources, of their health, and of the scheduler.
use firmscout.Base.{
  inr, ◌<◌, ◌^◌, ℕ, ◌*◌, ◌≤◌, ◌≡◌, ◌≢◌, ◌⊎◌, refl, true, false, List, [], ◌∷◌, length, In, arith,
}
use firmscout.Base.Int.{◌≤ℤ◌, ℤ, pos, int64_bound}
use firmscout.Base.Text.{text, Str}
use firmscout.Base.Go.{Time, hour, minute}
use firmscout.Source.{
  CheckOutcome, unchanged, Source, active, disabled, retired, html_page, official_manufacturer,
  robots_allowed, terms_approved, dispatchable, valid_source_health,
}
use firmscout.Source.Dispatch.{list_dispatchable, clamp_limit}
use firmscout.Source.Due.{list_dispatchable_lem}
use firmscout.Schedule.{
  effective_base, SchedulingPolicy, ScheduleInput, next_interval, clamp_interval, effective_policy,
}
use firmscout.Schedule.Bounds.{InBounds, next_interval-InBounds}
use firmscout.Schedule.Backoff.{next_interval-backoff, next_interval-freshness}
use firmscout.Schedule.Spacing.{IsSpacing, Spaced, next_interval-Spaced}
use firmscout.Examples.Numbers.{whole, whole-ExactDoubling, whole-FractionLaw}

abbrev pub page : Str → Time → Source ℤ
page id next = record {
  id = id;
  vendor_id = text "mikrotik";
  product_id = text "routeros";
  product_family_id = [];
  slug = text "routeros-changelog";
  source_type = html_page;
  url = text "https://example.com/changelog";
  official = true;
  quality_class = official_manufacturer;
  robots_policy_status = robots_allowed;
  terms_review_status = terms_approved;
  enabled = true;
  expected_content_type = text "text/html";
  check_frequency_seconds = pos 3600;
  normalize = record { section_selector = []; strip = [] };
  etag = [];
  last_modified_value = [];
  normalized_content_hash = text "h1";
  last_checked_at = 0;
  last_changed_at = 0;
  last_success_at = 0;
  next_check_at = next;
  consecutive_failures = 0;
  consecutive_unchanged = 0;
  retry_after_until = 0;
  health = active;
  confidence = pos 1;
}

abbrev two_pages : List (Source ℤ)
two_pages = page (text "b") 50 ∷ page (text "a") 40 ∷ []

list_dispatchable_lem_example :
    let due = list_dispatchable two_pages 45 (pos 1) in
    (length due ≤ clamp_limit (pos 1) 100 1000)
    × ((s : Source ℤ) → In s due → In s two_pages × (dispatchable s 45 ≡ true))
    × ((s : Source ℤ)
        → In s two_pages
        → dispatchable s 45 ≡ true
        → In s due ⊎ ((t : Source ℤ) → In t due → t.next_check_at ≤ s.next_check_at))
list_dispatchable_lem_example = list_dispatchable_lem two_pages 45 (pos 1)

declared : valid_source_health disabled ≡ true
unfolding valid_source_health
declared = refl

not_retired : disabled ≢ retired
not_retired e = cc

-- A source that is rate limited for the k-th time, base a day.
abbrev pub limited : ℕ → ScheduleInput ℤ
limited k = record {
  policy = record {
    min_interval = pos (15 * minute);
    max_interval = pos (30 * (24 * hour));
    base_interval = pos (24 * hour);
    recent_change_interval = pos (6 * hour);
    recent_change_window = pos (72 * hour);
    unchanged_backoff_factor = pos 1;
    failure_backoff_factor = pos 2;
    eol_multiplier = pos 7;
    popular_floor = pos (6 * hour);
    jitter_fraction = pos 0;
  };
  now = 1000 * hour;
  outcome = CheckOutcome.rate_limited;
  health = active;
  consecutive_unchanged = 0;
  consecutive_failures = k;
  last_changed_at = 0;
  product_end_of_life = false;
  security_critical = false;
  popular = false;
  freshness_floor = pos 0;
  retry_after = pos 0;
  configured_interval = pos 0;
}

abbrev told_to_wait : ScheduleInput ℤ
told_to_wait = record (limited 1) { retry_after = pos (60 * (24 * hour)) }

abbrev promised : ScheduleInput ℤ
promised = record (limited 0) { outcome = unchanged; freshness_floor = pos (2 * hour) }

next_interval-InBounds_example : InBounds (effective_policy (limited 3)) (next_interval (limited 3))
next_interval-InBounds_example = next_interval-InBounds (limited 3) (omega arith)

-- 24 hours times 2^17 is past int64.
next_interval-backoff_example :
    let p = effective_policy (limited 17) in
    let d = (next_interval (limited 17)).interval in
    ((24 * hour) * 2 ^ 17 < int64_bound → d ≡ clamp_interval p (pos ((24 * hour) * 2 ^ 17)))
    × (int64_bound ≤ (24 * hour) * 2 ^ 17 → d ≡ p.min_interval)
unfolding effective_policy effective_base
next_interval-backoff_example =
    next_interval-backoff whole-ExactDoubling (limited 17) (24 * hour) (omega arith) refl refl refl
      refl (omega arith) (omega arith) (omega arith) refl

next_interval-freshness_example :
    ((next_interval promised).interval ≤ℤ pos (2 * hour))
    ⊎ ((next_interval promised).interval ≡ (effective_policy promised).min_interval)
next_interval-freshness_example =
    next_interval-freshness promised (omega arith) refl refl (inr refl) refl

abbrev pub example_policy : SchedulingPolicy ℤ
example_policy = (limited 0).policy

pub example_policy-IsSpacing : IsSpacing whole example_policy
example_policy-IsSpacing = record {
  ordered = omega arith;
  positive = refl;
  fraction_at_most_one = refl;
}

next_interval-Spaced_example :
    Spaced (effective_policy (limited 3)) (1000 * hour) (next_interval (limited 3))
next_interval-Spaced_example =
    next_interval-Spaced whole-FractionLaw (limited 3) example_policy-IsSpacing
