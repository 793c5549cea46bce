-- ===== src/Source/Dispatch.antt =====
-- The dispatch rule twice: domain.Source.Dispatchable, and the query of
-- internal/adapters/postgres/source_repo.go (ListDispatchable) over the rows of the table.
use firmscout.Base.{
  filter_by, sort_by, ℕ, zero, ◌≡◌, ◌⊎◌, Bool, true, false, ◌&&◌, List, Option, none, some, arith,
  leb, if◌then◌else◌, take,
}
use firmscout.Base.Int.{ℤ, pos, leb_ℤ, ltb_ℤ, pos_part}
use firmscout.Base.Go.{Time, is_zero}
use firmscout.Source.{
  Source, dispatchable, compliance_permits_collection, is_active_or_degraded, SourceHealth, active,
  degraded, robots_permit, terms_permit,
}

-- nullTime: the zero time is written as NULL
unfoldable pub null_time : Time → Option Time
null_time t = if is_zero t then none else some t

-- clampLimit
unfoldable pub clamp_limit : ℤ → ℕ → ℕ → ℕ
clamp_limit limit fallback most =
    if leb_ℤ limit (pos zero)
    then fallback
    else if ltb_ℤ (pos most) limit
    then most
    else pos_part limit

-- The two `IN` lists of a status column.
abbrev health_in_list : SourceHealth → Bool
health_in_list active = true
health_in_list degraded = true
health_in_list _ = false

module _ {Float : Type 0} where
  -- the WHERE clause at one row
  unfoldable pub matches_where : Time → Source Float → Bool
  unfolding null_time
  matches_where now row =
      row.enabled
      && health_in_list row.health
      && robots_permit row.robots_policy_status
      && terms_permit row.terms_review_status
      && leb row.next_check_at now
      && elim (null_time row.retry_after_until) [ none ↦ true | some t ↦ leb t now ]

  -- the query, `ORDER BY next_check_at` by insertion, and its LIMIT
  unfoldable pub select_due : Time → List (Source Float) → List (Source Float)
  select_due now rows = sort_by (λ s. s.next_check_at) (filter_by (matches_where now) rows)

  unfoldable pub list_dispatchable : List (Source Float) → Time → ℤ → List (Source Float)
  list_dispatchable rows now limit = take (clamp_limit limit 100 1000) (select_due now rows)

  -- The WHERE clause of the query and Dispatchable agree on every source at every instant.
  pub matches_where-dispatchable :
      (s : Source Float) (now : Time) → matches_where now s ≡ dispatchable s now
  unfolding matches_where dispatchable
  matches_where-dispatchable s now = ground arith

  -- A source that is disabled, whose compliance forbids collection, or that is neither active nor
  -- degraded is not dispatchable at any instant.
  pub dispatchable-blocked :
      (s : Source Float) (now : Time)
      → ((s.enabled ≡ false)
          ⊎ ((compliance_permits_collection s ≡ false) ⊎ (is_active_or_degraded s.health ≡ false)))
      → dispatchable s now ≡ false
  unfolding dispatchable
  dispatchable-blocked s now h = ground arith
