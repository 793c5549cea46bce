-- ===== src/Base/Sort.antt =====
-- Filtering by a Boolean test and sorting by a number, with the lemmas on membership and order.
use firmscout.Base.Tests.{leb, if◌then◌else◌, Bool-cases, leb→le}
use firmscout.Base.Lists.{length, take, drop, All, In}
use Prim.Native.Nat.{ℕ, zero, suc, ◌≤◌}
use mathlib.Core.Path.{◌≡◌}
use mathlib.Core.Logic.{◌⊎◌, ◌↔◌, inl, inr}
use mathlib.Core.Bool.{Bool, true}
use mathlib.Core.List.{List, [], ◌∷◌}
use native.Mathlib.Omega.{arith}

module _ {A : Type 0} where
  unfoldable pub filter_by : (A → Bool) → List A → List A
  filter_by p [] = []
  filter_by p (x ∷ xs) = let rest = filter_by p xs in if p x then x ∷ rest else rest

  pub In-filter_by :
      (p : A → Bool) (a : A) (xs : List A) → In a (filter_by p xs) ↔ (In a xs × (p a ≡ true))
  unfolding filter_by
  In-filter_by p a [] = (λ h. absurd h, λ h. absurd h.0)
  In-filter_by p a (x ∷ xs) =
      let ih = In-filter_by p a xs in
      elim (Bool-cases (p x)) [
        | inl e ↦ rw e (
          λ h. elim h [ inl q ↦ (inl q, cc) | inr m ↦ (inr (ih.0 m).0, (ih.0 m).1) ],
          λ h. elim h.0 [ inl q ↦ inl q | inr m ↦ inr (ih.1 (m, h.1)) ],
        )
        | inr e ↦ rw e (
          λ h. (inr (ih.0 h).0, (ih.0 h).1),
          λ h. elim h.0 [ inl q ↦ cc | inr m ↦ ih.1 (m, h.1) ],
        )
      ]

module _ {A : Type 0} where
  pub In-drop : (n : ℕ) (a : A) (xs : List A) → In a (drop n xs) → In a xs
  In-drop zero a xs m = m
  In-drop (suc n) a [] m = m
  In-drop (suc n) a (x ∷ xs) m = inr (In-drop n a xs m)

  pub In-take : (n : ℕ) (a : A) (xs : List A) → In a (take n xs) → In a xs
  In-take zero a xs m = absurd m
  In-take (suc n) a [] m = m
  In-take (suc n) a (x ∷ xs) (inl q) = inl q
  In-take (suc n) a (x ∷ xs) (inr m) = inr (In-take n a xs m)

  -- Every element is kept by `take` or cut off by it.
  pub In-take_or_drop :
      (n : ℕ) (a : A) (xs : List A) → In a xs → In a (take n xs) ⊎ In a (drop n xs)
  In-take_or_drop zero a xs m = inr m
  In-take_or_drop (suc n) a [] m = absurd m
  In-take_or_drop (suc n) a (x ∷ xs) (inl q) = inl (inl q)
  In-take_or_drop (suc n) a (x ∷ xs) (inr m) = elim (In-take_or_drop n a xs m) [
    | inl k ↦ inl (inr k)
    | inr k ↦ inr k
  ]

  pub length-take-le : (n : ℕ) (xs : List A) → length (take n xs) ≤ n
  length-take-le zero xs = omega arith
  length-take-le (suc n) [] = omega arith
  length-take-le (suc n) (x ∷ xs) = omega (arith, length-take-le n xs)

module _ {A : Type 0} (key : A → ℕ) where
  unfoldable pub insert_by : A → List A → List A
  insert_by a [] = a ∷ []
  insert_by a (x ∷ xs) =
      let later = insert_by a xs in if leb (key a) (key x) then a ∷ x ∷ xs else x ∷ later

  unfoldable pub sort_by : List A → List A
  unfolding insert_by
  sort_by [] = []
  sort_by (x ∷ xs) = insert_by x (sort_by xs)

  abbrev pub IsSorted : List A → Type 0
  IsSorted [] = Unit
  IsSorted (x ∷ xs) = All (λ y. key x ≤ key y) xs × IsSorted xs

  pub In-insert_by : (a x : A) (xs : List A) → In a (insert_by x xs) ↔ ((x ≡ a) ⊎ In a xs)
  unfolding insert_by
  In-insert_by a x [] = (λ h. h, λ h. h)
  In-insert_by a x (y ∷ ys) =
      let ih = In-insert_by a x ys in
      elim (Bool-cases (leb (key x) (key y))) [
        | inl e ↦ rw e (λ h. h, λ h. h)
        | inr e ↦ rw e (
          λ h. elim h [
            | inl q ↦ inr (inl q)
            | inr m ↦ elim (ih.0 m) [ inl q ↦ inl q | inr n ↦ inr (inr n) ]
          ],
          λ h. elim h [
            | inl q ↦ inr (ih.1 (inl q))
            | inr m ↦ elim m [ inl q ↦ inl q | inr n ↦ inr (ih.1 (inr n)) ]
          ],
        )
      ]

  pub In-sort_by : (a : A) (xs : List A) → In a (sort_by xs) ↔ In a xs
  unfolding sort_by
  In-sort_by a [] = (λ h. h, λ h. h)
  In-sort_by a (x ∷ xs) =
      let ih = In-sort_by a xs in
      let step = In-insert_by a x (sort_by xs) in
      (
        λ h. elim (step.0 h) [ inl q ↦ inl q | inr m ↦ inr (ih.0 m) ],
        λ h. elim h [ inl q ↦ step.1 (inl q) | inr m ↦ step.1 (inr (ih.1 m)) ],
      )

  at_least-All : (n m : ℕ) (ys : List A) → n ≤ m → All (λ y. m ≤ key y) ys → All (λ y. n ≤ key y) ys
  at_least-All n m [] h all = all
  at_least-All n m (y ∷ ys) h all = (omega arith, at_least-All n m ys h all.1)

  insert-All :
      (n : ℕ) (x : A) (ys : List A)
      → n ≤ key x
      → All (λ y. n ≤ key y) ys
      → All (λ y. n ≤ key y) (insert_by x ys)
  unfolding insert_by
  insert-All n x [] h all = (h, tt)
  insert-All n x (y ∷ ys) h all =
      let ih = insert-All n x ys h all.1 in
      elim (Bool-cases (leb (key x) (key y))) [ inl e ↦ rw e (h, all) | inr e ↦ rw e (all.0, ih) ]

  insert_by-IsSorted : (x : A) (xs : List A) → IsSorted xs → IsSorted (insert_by x xs)
  unfolding insert_by
  insert_by-IsSorted x [] h = (tt, tt)
  insert_by-IsSorted x (y ∷ ys) h =
      let ih = insert_by-IsSorted x ys h.1 in
      elim (Bool-cases (leb (key x) (key y))) [
        | inl e ↦
            let below = leb→le (key x) (key y) e in
            rw e ((below, at_least-All (key x) (key y) ys below h.0), h)
        | inr e ↦ rw e (insert-All (key y) x ys (ground arith) h.0, ih)
      ]

  pub sort_by-IsSorted : (xs : List A) → IsSorted (sort_by xs)
  unfolding sort_by
  sort_by-IsSorted [] = tt
  sort_by-IsSorted (x ∷ xs) = insert_by-IsSorted x (sort_by xs) (sort_by-IsSorted xs)

  All-at : (n : ℕ) (y : A) (ys : List A) → All (λ z. n ≤ key z) ys → In y ys → n ≤ key y
  All-at n y [] h m = absurd m
  All-at n y (z ∷ zs) h (inl q) = rw (← q) h.0
  All-at n y (z ∷ zs) h (inr m) = All-at n y zs h.1 m

  -- In a sorted list what is cut off by `take` comes no earlier than what is kept.
  pub take_before_drop :
      (n : ℕ) (x y : A) (xs : List A)
      → IsSorted xs
      → In x (take n xs)
      → In y (drop n xs)
      → key x ≤ key y
  take_before_drop zero x y xs h mx my = absurd mx
  take_before_drop (suc n) x y [] h mx my = absurd mx
  take_before_drop (suc n) x y (z ∷ zs) h (inl q) my =
      rw (← q) (All-at (key z) y zs h.0 (In-drop n y zs my))
  take_before_drop (suc n) x y (z ∷ zs) h (inr m) my = take_before_drop n x y zs h.1 m my
