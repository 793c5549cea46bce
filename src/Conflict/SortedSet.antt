-- ===== src/Conflict/SortedSet.antt =====
-- sortedSet of internal/domain/conflict.go: its elements, its order, and that two lists of the same
-- strings give the same result.
use firmscout.Base.{
  ℕ, ◌≡◌, ◌≢◌, refl, ◌⊎◌, inl, inr, true, false, ◌||◌, arith, ◌↔◌, List, [], ◌∷◌, Bool-cases, All,
  In, sym, subst,
}
use firmscout.Base.Text.{Str, Unicode, is_blank, str_eq_iff}
use firmscout.Conflict.{str_lt, insert, sort, distinct, sorted_set, elem}

abbrev Lt : Str → Str → Type 0
Lt s t = str_lt s t ≡ true

nothing_before : (r : Str) → Lt r [] → ⊥
unfolding str_lt
nothing_before [] h = cc
nothing_before (a ∷ r) h = cc

cons_apart : (a b : ℕ) (s t : Str) → (a ∷ s) ≢ (b ∷ t) → (a ≡ b) → s ≢ t
cons_apart a b s t n p q = n (cc)

Lt_trans : (r s t : Str) → Lt r s → Lt s t → Lt r t
unfolding str_lt
Lt_trans r s [] h k = cc
Lt_trans r [] (c ∷ t) h k = absurd (nothing_before r h)
Lt_trans [] (b ∷ s) (c ∷ t) h k = refl
Lt_trans (a ∷ r) (b ∷ s) (c ∷ t) h k = let ih = Lt_trans r s t in ground arith

Lt_irrefl : (s : Str) → str_lt s s ≡ false
unfolding str_lt
Lt_irrefl [] = refl
Lt_irrefl (a ∷ s) = let ih = Lt_irrefl s in ground arith

-- Of two different strings one is before the other.
Lt_total : (s t : Str) → str_lt s t ≡ false → s ≢ t → Lt t s
unfolding str_lt
Lt_total [] [] h n = absurd (n refl)
Lt_total (a ∷ s) [] h n = refl
Lt_total [] (b ∷ t) h n = cc
Lt_total (a ∷ s) (b ∷ t) h n =
    let ih = Lt_total s t in let apart = cons_apart a b s t n in ground arith

abbrev pub IsStrict : List Str → Type 0
IsStrict [] = Unit
IsStrict (s ∷ xs) = All (Lt s) xs × IsStrict xs

In-insert : (a s : Str) (xs : List Str) → In a (insert s xs) ↔ ((s ≡ a) ⊎ In a xs)
unfolding insert
In-insert a s [] = (λ h. h, λ h. h)
In-insert a s (x ∷ xs) =
    let ih = In-insert a s xs in
    elim (Bool-cases (str_lt s x)) [
      | inl e ↦ rw e (λ h. h, λ h. h)
      | inr e ↦ rw e (
        λ h. elim h [
          | inl q ↦ inr (inl q)
          | inr m ↦ elim (ih.0 m) [ inl q ↦ inl q | inr k ↦ inr (inr k) ]
        ],
        λ h. elim h [
          | inl q ↦ inr (ih.1 (inl q))
          | inr m ↦ elim m [ inl q ↦ inl q | inr k ↦ inr (ih.1 (inr k)) ]
        ],
      )
    ]

In-sort : (a : Str) (xs : List Str) → In a (sort xs) ↔ In a xs
unfolding sort
In-sort a [] = (λ h. h, λ h. h)
In-sort a (s ∷ xs) =
    let ih = In-sort a xs in
    let step = In-insert a s (sort xs) in
    (
      λ h. elim (step.0 h) [ inl q ↦ inl q | inr m ↦ inr (ih.0 m) ],
      λ h. elim h [ inl q ↦ step.1 (inl q) | inr m ↦ step.1 (inr (ih.1 m)) ],
    )

All-later : (s t : Str) (xs : List Str) → Lt s t → All (Lt t) xs → All (Lt s) xs
All-later s t [] h k = tt
All-later s t (x ∷ xs) h (k, ks) = (Lt_trans s t x h k, All-later s t xs h ks)

insert-All : (r s : Str) (xs : List Str) → Lt r s → All (Lt r) xs → All (Lt r) (insert s xs)
unfolding insert
insert-All r s [] h k = (h, tt)
insert-All r s (x ∷ xs) h (k, ks) =
    let ih = insert-All r s xs h ks in
    elim (Bool-cases (str_lt s x)) [ inl e ↦ rw e (h, (k, ks)) | inr e ↦ rw e (k, ih) ]

insert-IsStrict : (s : Str) (xs : List Str) → ¬ In s xs → IsStrict xs → IsStrict (insert s xs)
unfolding insert
insert-IsStrict s [] n h = (tt, tt)
insert-IsStrict s (x ∷ xs) n (h, hs) =
    let ih = insert-IsStrict s xs (λ m. n (inr m)) hs in
    elim (Bool-cases (str_lt s x)) [
      | inl e ↦ rw e ((e, All-later s x xs e h), (h, hs))
      | inr e ↦ rw e (insert-All x s xs (Lt_total s x e (λ p. n (inl (sym p)))) h, ih)
    ]

elem_iff : (s : Str) (xs : List Str) → (elem s xs ≡ true) ↔ In s xs
elem_iff s [] = (λ h. cc, λ h. absurd h)
elem_iff s (x ∷ xs) = let ih = elem_iff s xs in let same = str_eq_iff x s in ground arith

seen_before : (s : Str) (seen : List Str) → elem s (s ∷ seen) ≡ false → ⊥
seen_before s seen e = let same = str_eq_iff s s in ground arith

module _ (u : Unicode) where
  In-distinct :
      (a : Str) (seen xs : List Str)
      → In a (distinct u seen xs) ↔ (In a xs × (is_blank u a ≡ false) × (elem a seen ≡ false))
  unfolding distinct
  In-distinct a seen [] = (λ h. absurd h, λ h. absurd h.0)
  In-distinct a seen (s ∷ xs) =
      let skip = In-distinct a seen xs in
      let keep = In-distinct a (s ∷ seen) xs in
      let same = str_eq_iff s a in let found = elem_iff a seen in ground arith

  distinct-IsStrict : (seen xs : List Str) → IsStrict (sort (distinct u seen xs))
  unfolding distinct sort
  distinct-IsStrict seen [] = tt
  distinct-IsStrict seen (s ∷ xs) =
      let fresh = In-distinct s (s ∷ seen) xs in
      let ih = distinct-IsStrict (s ∷ seen) xs in
      elim (Bool-cases (is_blank u s || elem s seen)) [
        | inl e ↦ rw e (distinct-IsStrict seen xs)
        | inr e ↦ rw e (
            insert-IsStrict s (sort (distinct u (s ∷ seen) xs))
              (λ m. seen_before s seen (fresh.0 ((In-sort s (distinct u (s ∷ seen) xs)).0 m)).2) ih)
      ]

  pub In-sorted_set :
      (a : Str) (xs : List Str) → In a (sorted_set u xs) ↔ (In a xs × (is_blank u a ≡ false))
  unfolding sorted_set
  In-sorted_set a xs =
      let s = In-sort a (distinct u [] xs) in
      let d = In-distinct a [] xs in
      (λ h. let (m, b, _) = d.0 (s.0 h) in (m, b), λ (m, b). s.1 (d.1 (m, b, refl)))

  pub sorted_set-IsStrict : (xs : List Str) → IsStrict (sorted_set u xs)
  unfolding sorted_set
  sorted_set-IsStrict xs = distinct-IsStrict [] xs

not_before : (s : Str) → Lt s s → ⊥
not_before s h = let irrefl = Lt_irrefl s in cc_absurd irrefl h
  where
    cc_absurd : str_lt s s ≡ false → str_lt s s ≡ true → ⊥
    cc_absurd p q = ground arith

abbrev pub SameElements : List Str → List Str → Type 0
SameElements xs ys = (a : Str) → In a xs ↔ In a ys

All-In : (s a : Str) (xs : List Str) → All (Lt s) xs → In a xs → Lt s a
All-In s a [] h m = absurd m
All-In s a (x ∷ xs) (h, hs) (inl q) = subst (Lt s) q h
All-In s a (x ∷ xs) (h, hs) (inr m) = All-In s a xs hs m

same_heads :
    (x y : Str) (xs ys : List Str)
    → All (Lt x) xs
    → All (Lt y) ys
    → (y ≡ x) ⊎ In x ys
    → (x ≡ y) ⊎ In y xs
    → x ≡ y
same_heads x y xs ys h k (inl p) q = sym p
same_heads x y xs ys h k (inr m) (inl q) = q
same_heads x y xs ys h k (inr m) (inr n) =
    absurd (not_before x (Lt_trans x y x (All-In x y xs h n) (All-In y x ys k m)))

same_tails :
    (x : Str) (xs ys : List Str)
    → All (Lt x) xs
    → ((a : Str) → In a (x ∷ xs) → In a (x ∷ ys))
    → (a : Str) → In a xs
    → In a ys
same_tails x xs ys h e a m = elim (e a (inr m)) [
  | inl q ↦ absurd (not_before x (subst (Lt x) (sym q) (All-In x a xs h m)))
  | inr n ↦ n
]

-- A strictly sorted list is known by its elements.
IsStrict-unique : (xs ys : List Str) → IsStrict xs → IsStrict ys → SameElements xs ys → xs ≡ ys
IsStrict-unique [] [] h k e = refl
IsStrict-unique [] (y ∷ ys) h k e = absurd ((e y).1 (inl refl))
IsStrict-unique (x ∷ xs) [] h k e = absurd ((e x).0 (inl refl))
IsStrict-unique (x ∷ xs) (y ∷ ys) (h, hs) (k, ks) e =
    let p = same_heads x y xs ys h k ((e x).0 (inl refl)) ((e y).1 (inl refl)) in
    let go = same_tails x xs ys h (λ a m. subst (λ z. In a (z ∷ ys)) (sym p) ((e a).0 m)) in
    let back = same_tails y ys xs k (λ a m. subst (λ z. In a (z ∷ xs)) p ((e a).1 m)) in
    let rest = IsStrict-unique xs ys hs ks (λ a. (go a, back a)) in cc

-- Lists with the same strings have the same sorted set, whatever their order and repetitions.
pub sorted_set_same :
    (u : Unicode) (xs ys : List Str) → SameElements xs ys → sorted_set u xs ≡ sorted_set u ys
sorted_set_same u xs ys e =
    IsStrict-unique (sorted_set u xs) (sorted_set u ys) (sorted_set-IsStrict u xs)
      (sorted_set-IsStrict u ys)
      (λ a.
        let l = In-sorted_set u a xs in
        let r = In-sorted_set u a ys in
        (
          λ m. let (n, b) = l.0 m in r.1 ((e a).0 n, b),
          λ m. let (n, b) = r.0 m in l.1 ((e a).1 n, b),
        ))
