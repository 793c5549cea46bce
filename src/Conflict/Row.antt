-- ===== src/Conflict/Row.antt =====
-- internal/domain/conflict.go: SourceConflict with Validate and Resolve.
use firmscout.Base.{
  ℕ, Bool, true, false, not, ◌&&◌, List, [], ◌∷◌, if◌then◌else◌, ltb, length, Option,
}
use firmscout.Base.Text.{Str, Unicode, is_blank}
use firmscout.Base.Go.{Time, is_zero, Error, invalid, Result, ok, err, first_error}
use firmscout.Conflict.{ConflictState, open_conflict, resolved, valid_conflict_state, sorted_set}

-- `rank` is AuthorityRank.
pub record SourceConflict : Type 0 where
  pub id : Str
  pub product_id : Str
  pub channel : Str
  pub state : ConflictState
  pub rank : ℕ
  pub versions : List Str
  pub source_ids : List Str
  pub review_item_id : Str
  pub detected_at : Time
  pub last_seen_at : Time
  pub resolved_at : Time
  pub resolved_by : Str
  pub resolution : Str

abbrev pub is_open : ConflictState → Bool
is_open open_conflict = true
is_open _ = false

abbrev pub is_resolved : ConflictState → Bool
is_resolved resolved = true
is_resolved _ = false

-- SourceConflict.Validate
unfoldable pub validate_conflict : Unicode → SourceConflict → Option Error
unfolding first_error sorted_set valid_conflict_state
validate_conflict u c = first_error (
    (is_blank u c.product_id, invalid "source_conflict.product_id" "must be set")
    ∷ (
      not (valid_conflict_state c.state),
      invalid "source_conflict.state" "is not a known conflict state",
    )
    ∷ (
      is_open c.state && ltb (length (sorted_set u c.versions)) 2,
      invalid "source_conflict.versions" "an open conflict needs at least two distinct versions",
    )
    ∷ (
      is_open c.state && ltb (length (sorted_set u c.source_ids)) 2,
      invalid "source_conflict.source_ids" "an open conflict needs at least two distinct sources",
    )
    ∷ (
      is_open c.state && not (is_zero c.resolved_at),
      invalid "source_conflict.resolved_at" "set on a conflict that is still open",
    )
    ∷ (
      is_resolved c.state && is_zero c.resolved_at,
      invalid "source_conflict.resolved_at" "a resolved conflict must record when",
    )
    ∷ (
      is_zero c.detected_at,
      invalid "source_conflict.detected_at" "must record when the disagreement was found",
    )
    ∷ [])

-- SourceConflict.Resolve
unfoldable pub resolve : Unicode → SourceConflict → Time → Str → Str → Result SourceConflict
resolve u c at by_whom what =
    if is_resolved c.state
    then err (invalid "source_conflict.state" "conflict is already resolved")
    else if is_blank u by_whom
    then err (invalid "source_conflict.resolved_by" "a resolution must record who decided")
    else if is_blank u what
    then err (invalid "source_conflict.resolution" "a resolution must record what was decided")
    else ok
        (record c { state = resolved; resolved_at = at; resolved_by = by_whom; resolution = what })
