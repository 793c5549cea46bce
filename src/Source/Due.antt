-- ===== src/Source/Due.antt =====
-- What ListDispatchable returns: membership, order and number of the sources that fall due.
use firmscout.Base.{
  ◌≤◌, ◌≡◌, ◌⊎◌, ◌↔◌, inl, inr, true, List, length, In, filter_by, In-filter_by, In-sort_by,
  In-take, In-take_or_drop, length-take-le, sort_by-IsSorted, IsSorted, take_before_drop,
}
use firmscout.Base.Int.{ℤ}
use firmscout.Base.Go.{Time}
use firmscout.Source.{Source, dispatchable}
use firmscout.Source.Dispatch.{
  clamp_limit, matches_where, select_due, list_dispatchable, matches_where-dispatchable,
}

module _ {Float : Type 0} where
  In-select_due :
      (now : Time) (s : Source Float) (rows : List (Source Float))
      → In s (select_due now rows) ↔ (In s rows × (dispatchable s now ≡ true))
  unfolding select_due
  In-select_due now s rows =
      let due = λ (r : Source Float). r.next_check_at in
      let kept = In-filter_by (matches_where now) s rows in
      let sorted = In-sort_by due s (filter_by (matches_where now) rows) in
      let same = matches_where-dispatchable s now in
      (
        λ h. let (m, t) = kept.0 (sorted.0 h) in (m, rw (← same) t),
        λ h. sorted.1 (kept.1 (h.0, rw same h.1)),
      )

  -- ListDispatchable returns at most the clamped limit of sources, all of them rows of the table
  -- that Dispatchable admits; a dispatchable row is returned too, unless every returned source was
  -- due no later than it.
  pub list_dispatchable_lem :
      (rows : List (Source Float)) (now : Time) (limit : ℤ)
      → let due = list_dispatchable rows now limit in
        (length due ≤ clamp_limit limit 100 1000)
        × ((s : Source Float) → In s due → In s rows × (dispatchable s now ≡ true))
        × ((s : Source Float)
            → In s rows
            → dispatchable s now ≡ true
            → In s due ⊎ ((t : Source Float) → In t due → t.next_check_at ≤ s.next_check_at))
  unfolding list_dispatchable
  list_dispatchable_lem rows now limit =
      let n = clamp_limit limit 100 1000 in
      let all = select_due now rows in
      (
        length-take-le n all,
        λ s m. (In-select_due now s rows).0 (In-take n s all m),
        λ s m d. elim (In-take_or_drop n s all ((In-select_due now s rows).1 (m, d))) [
          | inl kept ↦ inl kept
          | inr cut ↦ inr (λ t k.
              take_before_drop (λ (r : Source Float). r.next_check_at) n t s all (sorted now rows) k
                cut)
        ],
      )
    where
      sorted :
          (now : Time) (rows : List (Source Float))
          → IsSorted (λ (r : Source Float). r.next_check_at) (select_due now rows)
      sorted now rows =
          unfold select_due in
          sort_by-IsSorted (λ r. r.next_check_at) (filter_by (matches_where now) rows)
