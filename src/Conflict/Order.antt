-- ===== src/Conflict/Order.antt =====
-- The verdict of AssessSourceConflict (internal/domain/conflict.go): its status, its versions and
-- its independence of the order in which the claims were read.
use firmscout.Base.{
  ℕ, Bool, ◌≡◌, ◌≤◌, refl, ◌⊎◌, inl, inr, true, false, arith, ◌↔◌, List, [], ◌∷◌, Bool-cases, In,
  sym, ap, ◌∙◌, map, filter_by, In-filter_by, is_empty,
}
use firmscout.Base.Text.{Str, Unicode}
use firmscout.Conflict.{
  count, SourceObservation, ConflictVerdict, no_conflict, outranked, unresolved, assess_loop,
  nothing_counted, sort_sets, conclude, assess_source_conflict, sorted_set,
}
use firmscout.Conflict.SortedSet.{sorted_set_same}
use firmscout.Conflict.Assess.{
  In-map, loop_lists, loop_rank, reported_iff, Conflicting-iff, Outranked-iff, Conflicting,
  Outranked, Dissents, is_conflicting, is_outranked, nonempty_iff,
}

flip_iff : {Q : Type 0} (b : Bool) → (b ≡ false) ↔ Q → (b ≡ true) ↔ ¬ Q
flip_iff b e = let c = Bool-cases b in (λ h q. ground arith, λ n. ground arith)

module _ (u : Unicode) (subject : SourceObservation) (others : List SourceObservation) where
  verdict_lists :
      ((assess_source_conflict u subject others).conflicting_versions
        ≡ sorted_set u
            (map (λ o. o.normalized_version) (filter_by (is_conflicting u subject) others)))
      × ((assess_source_conflict u subject others).outranked_versions
          ≡ sorted_set u
              (map (λ o. o.normalized_version) (filter_by (is_outranked u subject) others)))
  unfolding assess_source_conflict conclude sort_sets
  verdict_lists = let l = loop_lists u subject others in ground arith

  -- The versions that a verdict names as conflicting are those of the dissenting claims that the
  -- subject does not outrank, and as outranked those of the dissenting claims that it does.
  pub assess_source_conflict_versions :
      (a : Str)
      → (In a (assess_source_conflict u subject others).conflicting_versions ↔ (
          (o : SourceObservation) × In o others
          × Conflicting u subject o
          × (o.normalized_version ≡ a)))
        × (In a (assess_source_conflict u subject others).outranked_versions ↔ (
            (o : SourceObservation) × In o others
            × Outranked u subject o
            × (o.normalized_version ≡ a)))
  assess_source_conflict_versions a =
      let l = verdict_lists in
      (
        rw (← l.0) at (
            reported_iff u subject (is_conflicting u subject) (Conflicting u subject)
              (Conflicting-iff u subject) (λ o c. c.0.worded) a others),
        rw (← l.1) at (
            reported_iff u subject (is_outranked u subject) (Outranked u subject)
              (Outranked-iff u subject) (λ o c. c.0.worded) a others),
      )

  -- Whether a reported set is empty.
  some-Conflicting :
      (is_empty (assess_source_conflict u subject others).conflicting_versions ≡ false)
      ↔ ((o : SourceObservation) × In o others × Conflicting u subject o)
  some-Conflicting =
      let n = nonempty_iff (assess_source_conflict u subject others).conflicting_versions in
      (
        λ h.
            let (a, m) = n.0 h in
            let (o, i, c, q) = (assess_source_conflict_versions a).0.0 m in (o, i, c),
        λ (o, i, c). n.1 (
          o.normalized_version,
          (assess_source_conflict_versions o.normalized_version).0.1 (o, i, c, refl),
        ),
      )

  some-Outranked :
      (is_empty (assess_source_conflict u subject others).outranked_versions ≡ false)
      ↔ ((o : SourceObservation) × In o others × Outranked u subject o)
  some-Outranked =
      let n = nonempty_iff (assess_source_conflict u subject others).outranked_versions in
      (
        λ h.
            let (a, m) = n.0 h in
            let (o, i, c, q) = (assess_source_conflict_versions a).1.0 m in (o, i, c),
        λ (o, i, c). n.1 (
          o.normalized_version,
          (assess_source_conflict_versions o.normalized_version).1.1 (o, i, c, refl),
        ),
      )

  status_iff :
      let w = assess_source_conflict u subject others in
      ((w.status ≡ unresolved) ↔ (is_empty w.conflicting_versions ≡ false))
      × ((w.status ≡ outranked)
          ↔ ((is_empty w.conflicting_versions ≡ true) × (is_empty w.outranked_versions ≡ false)))
      × ((w.status ≡ no_conflict)
          ↔ ((is_empty w.conflicting_versions ≡ true) × (is_empty w.outranked_versions ≡ true)))
  unfolding assess_source_conflict conclude
  status_iff = (ground arith, ground arith, ground arith)

  -- A dissenting claim is outranked or it is not.
  Dissents-either :
      (o : SourceObservation)
      → Dissents u subject o
      → Conflicting u subject o ⊎ Outranked u subject o
  Dissents-either o d = ground arith

  -- The status is `unresolved` exactly if some dissenting claim is not outranked by the subject,
  -- `outranked` exactly if there is none such but some claim dissents, and `no_conflict` exactly if no claim
  -- dissents.
  pub assess_source_conflict_status :
      (((assess_source_conflict u subject others).status ≡ unresolved)
        ↔ ((o : SourceObservation) × In o others × Conflicting u subject o))
      × (((assess_source_conflict u subject others).status ≡ outranked) ↔ (
          ((o : SourceObservation) → In o others → ¬ Conflicting u subject o)
          × ((o : SourceObservation) × In o others × Outranked u subject o)))
      × (((assess_source_conflict u subject others).status ≡ no_conflict)
          ↔ ((o : SourceObservation) → In o others → ¬ Dissents u subject o))
  assess_source_conflict_status =
      let (a, b, c) = status_iff in
      let none_conflicting =
        flip_iff (is_empty (assess_source_conflict u subject others).conflicting_versions)
          some-Conflicting in
      let none_outranked =
        flip_iff (is_empty (assess_source_conflict u subject others).outranked_versions)
          some-Outranked in
      (
        (λ h. some-Conflicting.0 (a.0 h), λ h. a.1 (some-Conflicting.1 h)),
        (
          λ h. let (n, s) = b.0 h in (λ o i k. none_conflicting.0 n (o, i, k), some-Outranked.0 s),
          λ (n, s). b.1 (none_conflicting.1 (λ (o, i, k). n o i k), some-Outranked.1 s),
        ),
        (
          λ h o i d.
              let (n, m) = c.0 h in
              elim (Dissents-either o d) [
                | inl k ↦ none_conflicting.0 n (o, i, k)
                | inr k ↦ none_outranked.0 m (o, i, k)
              ],
          λ n. c.1 (
            none_conflicting.1 (λ (o, i, k). n o i k.0),
            none_outranked.1 (λ (o, i, k). n o i k.0),
          ),
        ),
      )

antisym : {m n : ℕ} → m ≤ n → n ≤ m → m ≡ n
antisym h k = omega arith

-- The same claims, in whatever order and however often each was read.
abbrev pub SameClaims : List SourceObservation → List SourceObservation → Type 0
SameClaims xs ys = (o : SourceObservation) → In o xs ↔ In o ys

module _ (u : Unicode) (subject : SourceObservation) where
  loop_kept :
      (os : List SourceObservation) (v : ConflictVerdict)
      → ((assess_loop u subject os v).status ≡ v.status)
        × ((assess_loop u subject os v).reason ≡ v.reason)
  unfolding assess_loop
  loop_kept [] v = (refl, refl)
  loop_kept (o ∷ os) v =
      let skip = loop_kept os v in let keep = loop_kept os (count subject v o) in ground arith

  same_set :
      (p : SourceObservation → Bool) (f : SourceObservation → Str) (xs ys : List SourceObservation)
      → SameClaims xs ys
      → sorted_set u (map f (filter_by p xs)) ≡ sorted_set u (map f (filter_by p ys))
  same_set p f xs ys e =
      sorted_set_same u (map f (filter_by p xs)) (map f (filter_by p ys))
        (λ a. (one_way xs ys (λ o. (e o).0) a, one_way ys xs (λ o. (e o).1) a))
    where
      one_way :
          (xs ys : List SourceObservation)
          → ((o : SourceObservation) → In o xs → In o ys)
          → (a : Str) → In a (map f (filter_by p xs))
          → In a (map f (filter_by p ys))
      one_way xs ys e a m =
          let (o, i, q) = (In-map f a (filter_by p xs)).0 m in
          let (j, t) = (In-filter_by p o xs).0 i in
          (In-map f a (filter_by p ys)).1 (o, (In-filter_by p o ys).1 (e o j, t), q)

  rank_le :
      (xs ys : List SourceObservation)
      → ((o : SourceObservation) → In o xs → In o ys)
      → (assess_loop u subject xs nothing_counted).authority_rank
        ≤ (assess_loop u subject ys nothing_counted).authority_rank
  rank_le xs ys e =
      let n = (assess_loop u subject ys nothing_counted).authority_rank in
      let (k, all) = (loop_rank u subject ys nothing_counted n).0 (omega arith) in
      (loop_rank u subject xs nothing_counted n).1 (k, λ o m c. all o (e o m) c)

  sets_same :
      (v w : ConflictVerdict)
      → v.status ≡ w.status
      → v.reason ≡ w.reason
      → v.authority_rank ≡ w.authority_rank
      → sorted_set u v.conflicting_versions ≡ sorted_set u w.conflicting_versions
      → sorted_set u v.conflicting_source_ids ≡ sorted_set u w.conflicting_source_ids
      → sorted_set u v.outranked_versions ≡ sorted_set u w.outranked_versions
      → sorted_set u v.outranked_source_ids ≡ sorted_set u w.outranked_source_ids
      → sort_sets u v ≡ sort_sets u w
  unfolding sort_sets
  sets_same v w a b c d e f g = cc

  -- The verdict depends on which claims were read, not on the order in which they were.
  pub assess_source_conflict_same :
      (xs ys : List SourceObservation)
      → SameClaims xs ys
      → assess_source_conflict u subject xs ≡ assess_source_conflict u subject ys
  unfolding assess_source_conflict sort_sets
  assess_source_conflict_same xs ys e =
      let l = loop_lists u subject xs in
      let l' = loop_lists u subject ys in
      let k = loop_kept xs nothing_counted in
      let k' = loop_kept ys nothing_counted in
      let ranks = antisym (rank_le xs ys (λ o. (e o).0)) (rank_le ys xs (λ o. (e o).1)) in
      let same =
        λ (p : SourceObservation → Bool) (f : SourceObservation → Str). same_set p f xs ys e in
      ap (conclude subject) (
        sets_same (assess_loop u subject xs nothing_counted)
          (assess_loop u subject ys nothing_counted) (k.0 ∙ sym k'.0) (k.1 ∙ sym k'.1) ranks
          (ap (sorted_set u) l.0
            ∙ (same (is_conflicting u subject) (λ o. o.normalized_version)
                ∙ ap (sorted_set u) (sym l'.0)))
          (ap (sorted_set u) l.1
            ∙ (same (is_conflicting u subject) (λ o. o.source_id) ∙ ap (sorted_set u) (sym l'.1)))
          (ap (sorted_set u) l.2
            ∙ (same (is_outranked u subject) (λ o. o.normalized_version)
                ∙ ap (sorted_set u) (sym l'.2)))
          (ap (sorted_set u) l.3
            ∙ (same (is_outranked u subject) (λ o. o.source_id) ∙ ap (sorted_set u) (sym l'.3))))
