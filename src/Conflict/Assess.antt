-- ===== src/Conflict/Assess.antt =====
-- AssessSourceConflict of internal/domain/conflict.go: which claims it counts, and what its status
-- says about them.
use firmscout.Base.{
  ℕ, Bool, ◌≡◌, ◌≢◌, ◌≤◌, ◌<◌, refl, inl, inr, true, false, ◌&&◌, not, arith, ◌↔◌, List, [], ◌∷◌,
  ◌++◌, if◌then◌else◌, In, sym, ap, ◌∙◌, subst, ltb, map, append-nil, append_assoc, filter_by,
  In-filter_by, is_empty,
}
use firmscout.Base.Text.{Str, Unicode, is_blank, str_eq_iff}
use firmscout.Source.{authority}
use firmscout.Conflict.{
  SourceObservation, ConflictVerdict, dissents, count, assess_loop, nothing_counted, sorted_set,
}
use firmscout.Conflict.SortedSet.{In-sorted_set}

pub In-map :
    {A : Type 0} {B : Type 0} (f : A → B) (b : B) (xs : List A)
    → In b (map f xs) ↔ ((a : A) × In a xs × (f a ≡ b))
In-map f b [] = (λ h. absurd h, λ (a, m, q). absurd m)
In-map f b (x ∷ xs) =
    let ih = In-map f b xs in
    (
      λ h. elim h [ inl q ↦ (x, inl refl, q) | inr m ↦ let (a, n, q) = ih.0 m in (a, inr n, q) ],
      λ (a, m, q). elim m [ inl p ↦ inl (ap f p ∙ q) | inr n ↦ inr (ih.1 (a, n, q)) ],
    )

module _ (u : Unicode) (subject : SourceObservation) where
  -- The claims that count and stand below the subject on the ladder, and those that do not.
  abbrev pub below : SourceObservation → Bool
  below o = ltb (authority o.quality_class) (authority subject.quality_class)

  abbrev pub is_outranked : SourceObservation → Bool
  is_outranked o = dissents u subject o && below o

  abbrev pub is_conflicting : SourceObservation → Bool
  is_conflicting o = dissents u subject o && not (below o)

  loop_list :
      (get : ConflictVerdict → List Str) (p : SourceObservation → Bool)
      (f : SourceObservation → Str)
      → ((v : ConflictVerdict) (o : SourceObservation)
          → get (count subject v o) ≡ (if p o then get v ++ f o ∷ [] else get v))
      → (os : List SourceObservation) (v : ConflictVerdict)
      → get (assess_loop u subject os v)
        ≡ get v ++ map f (filter_by (λ o. dissents u subject o && p o) os)
  unfolding assess_loop filter_by
  loop_list get p f h [] v = sym (append-nil (get v))
  loop_list get p f h (o ∷ os) v =
      let skip = loop_list get p f h os v in
      let keep = loop_list get p f h os (count subject v o) in
      let step = h v o in
      let assoc =
        append_assoc (get v) (f o ∷ []) (map f (filter_by (λ o. dissents u subject o && p o) os)) in
      ground arith

  pub loop_lists :
      (os : List SourceObservation)
      → ((assess_loop u subject os nothing_counted).conflicting_versions
          ≡ map (λ o. o.normalized_version) (filter_by is_conflicting os))
        × ((assess_loop u subject os nothing_counted).conflicting_source_ids
            ≡ map (λ o. o.source_id) (filter_by is_conflicting os))
        × ((assess_loop u subject os nothing_counted).outranked_versions
            ≡ map (λ o. o.normalized_version) (filter_by is_outranked os))
        × ((assess_loop u subject os nothing_counted).outranked_source_ids
            ≡ map (λ o. o.source_id) (filter_by is_outranked os))
  loop_lists os = (
    loop_list (λ v. v.conflicting_versions) (λ o. not (below o)) (λ o. o.normalized_version)
        (λ v o. ground arith) os nothing_counted,
    loop_list (λ v. v.conflicting_source_ids) (λ o. not (below o)) (λ o. o.source_id)
        (λ v o. ground arith) os nothing_counted,
    loop_list (λ v. v.outranked_versions) below (λ o. o.normalized_version) (λ v o. ground arith) os
        nothing_counted,
    loop_list (λ v. v.outranked_source_ids) below (λ o. o.source_id) (λ v o. ground arith) os
        nothing_counted,
  )

  -- One round of the loop.
  abbrev round : ConflictVerdict → SourceObservation → ConflictVerdict
  round v o = if dissents u subject o then count subject v o else v

  loop_round :
      (o : SourceObservation) (os : List SourceObservation) (v : ConflictVerdict)
      → assess_loop u subject (o ∷ os) v ≡ assess_loop u subject os (round v o)
  unfolding assess_loop
  loop_round o os v = ground arith

  round_rank :
      (v : ConflictVerdict) (o : SourceObservation) (n : ℕ)
      → ((round v o).authority_rank ≤ n)
        ↔ ((v.authority_rank ≤ n) × (is_conflicting o ≡ true → authority o.quality_class ≤ n))
  round_rank v o n = (λ h. ground arith, λ h. ground arith)

  abbrev AllBelow : List SourceObservation → ℕ → Type 0
  AllBelow os n =
      (o : SourceObservation) → In o os → is_conflicting o ≡ true → authority o.quality_class ≤ n

  -- The highest authority among the conflicting claims.
  pub loop_rank :
      (os : List SourceObservation) (v : ConflictVerdict) (n : ℕ)
      → ((assess_loop u subject os v).authority_rank ≤ n) ↔ ((v.authority_rank ≤ n) × AllBelow os n)
  unfolding assess_loop
  loop_rank [] v n = (λ h. (h, λ o m e. absurd m), λ h. h.0)
  loop_rank (o ∷ os) v n =
      let step = round_rank v o n in
      let ih = loop_rank os (round v o) n in
      rw (loop_round o os v) (
        λ h.
            let (k, all) = ih.0 h in
            let (below_v, first) = step.0 k in
            (
              below_v,
              λ o' m. elim m [
                | inl q ↦
                    subst (λ z. is_conflicting z ≡ true → authority z.quality_class ≤ n) q first
                | inr m' ↦ all o' m'
              ],
            ),
        λ (k, all). ih.1 (step.1 (k, all o (inl refl)), λ o' m. all o' (inr m)),
      )

-- `o` is the claim of another source that FirmScout may read, and names another version.
pub record Dissents (u : Unicode) (subject o : SourceObservation) : Type 0 where
  pub readable : o.eligible ≡ true
  pub named : o.source_id ≢ []
  pub other_source : o.source_id ≢ subject.source_id
  pub worded : is_blank u o.normalized_version ≡ false
  pub other_version : o.normalized_version ≢ subject.normalized_version

Str_empty : (s : Str) → (is_empty s ≡ true) ↔ (s ≡ [])
Str_empty [] = (λ _. refl, λ _. refl)
Str_empty (c ∷ s) = (λ e. cc, λ e. cc)

dissents_iff : (u : Unicode) (s o : SourceObservation) → (dissents u s o ≡ true) ↔ Dissents u s o
unfolding dissents
dissents_iff u s o =
    let i = str_eq_iff o.source_id s.source_id in
    let v = str_eq_iff o.normalized_version s.normalized_version in
    let n = Str_empty o.source_id in
    (
      λ h. record {
        readable = ground arith;
        named = ground arith;
        other_source = ground arith;
        worded = ground arith;
        other_version = ground arith;
      },
      λ d.
          let a = d.readable in
          let b = d.named in
          let c = d.other_source in let e = d.worded in let f = d.other_version in ground arith,
    )

pub nonempty_iff : {A : Type 0} (xs : List A) → (is_empty xs ≡ false) ↔ ((a : A) × In a xs)
nonempty_iff [] = (λ h. cc, λ h. absurd h.1)
nonempty_iff (x ∷ xs) = (λ h. (x, inl refl), λ h. refl)

module _ (u : Unicode) (subject : SourceObservation) where
  -- A dissenting claim that the subject does not outrank, and one that it does.
  abbrev pub Conflicting : SourceObservation → Type 0
  Conflicting o =
      Dissents u subject o × (authority subject.quality_class ≤ authority o.quality_class)

  abbrev pub Outranked : SourceObservation → Type 0
  Outranked o = Dissents u subject o × (authority o.quality_class < authority subject.quality_class)

  pub Conflicting-iff :
      (o : SourceObservation) → (is_conflicting u subject o ≡ true) ↔ Conflicting o
  Conflicting-iff o = let d = dissents_iff u subject o in ground arith

  pub Outranked-iff : (o : SourceObservation) → (is_outranked u subject o ≡ true) ↔ Outranked o
  Outranked-iff o = let d = dissents_iff u subject o in ground arith

  -- The elements of a set that the verdict reports.
  pub reported_iff :
      (p : SourceObservation → Bool) (P : SourceObservation → Type 0)
      → ((o : SourceObservation) → (p o ≡ true) ↔ P o)
      → ((o : SourceObservation) → P o → is_blank u o.normalized_version ≡ false)
      → (a : Str) (os : List SourceObservation)
      → In a (sorted_set u (map (λ o. o.normalized_version) (filter_by p os)))
        ↔ ((o : SourceObservation) × In o os × P o × (o.normalized_version ≡ a))
  reported_iff p P e w a os =
      let s = In-sorted_set u a (map (λ o. o.normalized_version) (filter_by p os)) in
      let m = In-map (λ o. o.normalized_version) a (filter_by p os) in
      (
        λ h.
            let (o, k, q) = m.0 (s.0 h).0 in
            let (i, t) = (In-filter_by p o os).0 k in (o, i, (e o).0 t, q),
        λ (o, i, t, q). s.1 (
          m.1 (o, (In-filter_by p o os).1 (i, (e o).1 t), q),
          subst (λ z. is_blank u z ≡ false) q (w o t),
        ),
      )
