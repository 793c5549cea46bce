-- ===== src/Robots/Split.antt =====
-- internal/adapters/fetch/robots.go: what prefixes, suffixes, places and pieces of strings are, for
-- the proofs on robotsPathMatch.
use firmscout.Base.{
  length, drop, length-append, ==_refl, Bool-cases, Option-cases, ℕ, zero, suc, ◌+◌, ◌-◌, ◌≤◌, true,
  some, [], ◌∷◌, ◌++◌, ◌≡◌, inl, inr, refl, sym, ap, ◌∙◌, arith,
}
use firmscout.Base.Text.{Str, str_eq_iff, str_eq_refl, has_prefix, has_suffix, index}

drop_nil : (n : ℕ) → drop {A = ℕ} n [] ≡ []
drop_nil zero = refl
drop_nil (suc n) = refl

pub drop-drop : (n m : ℕ) (s : Str) → drop (n + m) s ≡ drop m (drop n s)
drop-drop zero m s = ap (λ k. drop k s) (omega arith)
drop-drop (suc n) m [] = drop_nil (suc n + m) ∙ sym (drop_nil m)
drop-drop (suc n) m (c ∷ s) =
    rw (let e : suc n + m ≡ suc (n + m) = omega arith in e) (drop-drop n m s)

pub drop-append : (s t : Str) → drop (length s) (s ++ t) ≡ t
drop-append [] t = refl
drop-append (c ∷ s) t = drop-append s t

pub drop_split : (n : ℕ) (s : Str) → n ≤ length s → (u : Str) × (s ≡ u ++ drop n s) × (length u ≡ n)
drop_split zero s h = ([], refl, refl)
drop_split (suc n) [] h = absurd (omega arith)
drop_split (suc n) (c ∷ s) h =
    let (u, e, l) = drop_split n s (omega arith) in (c ∷ u, ap (λ t. c ∷ t) e, ap suc l)

pub has_prefix_sound : (s t : Str) → has_prefix s t ≡ true → s ≡ t ++ drop (length t) s
unfolding has_prefix
has_prefix_sound s [] h = refl
has_prefix_sound [] (b ∷ t) h = cc
has_prefix_sound (a ∷ s) (b ∷ t) h = ground (arith, has_prefix_sound s t)

pub has_prefix-append : (t v : Str) → has_prefix (t ++ v) t ≡ true
unfolding has_prefix
has_prefix-append [] v = refl
has_prefix-append (b ∷ t) v = rw (==_refl b) (has_prefix-append t v)

pub has_suffix_sound : (s t : Str) → has_suffix s t ≡ true → (u : Str) × (s ≡ u ++ t)
unfolding has_suffix
has_suffix_sound s t h =
    let (u, e, l) = drop_split (length s - length t) s (omega arith) in
    let same : drop (length s - length t) s ≡ t =
      (str_eq_iff (drop (length s - length t) s) t).0 (ground arith) in
    (u, e ∙ ap (λ x. u ++ x) same)

pub has_suffix-append : (u t : Str) → has_suffix (u ++ t) t ≡ true
unfolding has_suffix
has_suffix-append u t =
    let l = length-append u t in
    let n : length (u ++ t) - length t ≡ length u = omega arith in
    rw (n, drop-append u t, str_eq_refl t) (ground arith)

-- The first place at which `t` stands in `s`, or none.
pub index_sound :
    (s t : Str) (i : ℕ)
    → index s t ≡ some i
    → (u : Str) × (s ≡ u ++ (t ++ drop (i + length t) s)) × (length u ≡ i)
unfolding index
index_sound [] [] i h = ([], sym (drop_nil (i + 0)), ground arith)
index_sound [] (b ∷ t) i h = cc
index_sound (c ∷ s) t i h = elim (Bool-cases (has_prefix (c ∷ s) t)) [
  | inl e ↦
      let z : i ≡ 0 = ground arith in
      rw z ([], has_prefix_sound (c ∷ s) t e ∙ ap (λ n. t ++ drop n (c ∷ s)) (omega arith), refl)
  | inr e ↦ elim (Option-cases (index s t)) [
    | inl n ↦ absurd (ground arith)
    | inr (j, n) ↦
        let z : i ≡ suc j = ground arith in
        let (u, q, l) = index_sound s t j n in
        let r : suc j + length t ≡ suc (j + length t) = omega arith in
        rw (z, r) (c ∷ u, ap (λ x. c ∷ x) q, ap suc l)
  ]
]

-- Whatever place `t` has in a string, `index` finds one that is no later.
pub index_complete : (u t v : Str) → (i : ℕ) × (index (u ++ (t ++ v)) t ≡ some i) × (i ≤ length u)
unfolding index
index_complete [] [] [] = (0, refl, omega arith)
index_complete [] [] (c ∷ v) = (0, refl, omega arith)
index_complete [] (b ∷ t) v = (0, rw (has_prefix-append (b ∷ t) v) refl, omega arith)
index_complete (c ∷ u) t v = elim (Bool-cases (has_prefix (c ∷ (u ++ (t ++ v))) t)) [
  | inl e ↦ (0, rw e refl, omega arith)
  | inr e ↦ let (i, q, l) = index_complete u t v in (suc i, rw (e, q) refl, omega arith)
]

pub index_nil : (s : Str) → index s [] ≡ some 0
unfolding index has_prefix
index_nil [] = refl
index_nil (c ∷ s) = refl
