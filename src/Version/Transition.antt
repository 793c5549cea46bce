-- ===== src/Version/Transition.antt =====
-- When AssessTransition calls a transition plausible, identical, suspicious or uncomparable.
use firmscout.Base.{
  ℕ, ◌+◌, ◌≤◌, ◌<◌, ◌≡◌, refl, ◌≢◌, ◌⊎◌, inl, inr, Bool, true, false, ◌||◌, List, [], ◌∷◌, Option,
  none, some, arith, ltb, is_empty, Bool-cases,
}
use firmscout.Base.Int.{pos, ltb_ℤ, int64_bound}
use firmscout.Base.Text.{Str, Unicode, str_eq, str_eq_iff}
use firmscout.Version.{
  VersionString, Plausibility, plausible, identical, suspicious, uncomparable, tokens, skeleton,
  first_numeric, same_version, is_zero_version, compare_numbers, assess_transition, add_int64,
}

-- One of the versions has no number, or the leading number moves on by at most five.
abbrev pub StepsByFive : Option ℕ → Option ℕ → Type 0
StepsByFive pv vv =
    (pv ≡ none)
    ⊎ ((vv ≡ none)
        ⊎ ((pn : ℕ) × (vn : ℕ) × (pv ≡ some pn) × (vv ≡ some vn) × (pn ≤ vn) × (vn ≤ pn + 5)))

-- What each verdict says of two versions with the first one set.
abbrev pub Means : Unicode → VersionString → VersionString → Plausibility → Type 0
Means u prev v identical = prev.normalized ≡ v.normalized
Means u prev v uncomparable =
    (prev.normalized ≢ v.normalized)
    × ((tokens u prev ≡ [])
        ⊎ ((tokens u v ≡ []) ⊎ (skeleton (tokens u prev) ≢ skeleton (tokens u v))))
Means u prev v suspicious =
    (prev.normalized ≢ v.normalized)
    × (tokens u prev ≢ [])
    × (tokens u v ≢ [])
    × (skeleton (tokens u prev) ≡ skeleton (tokens u v))
    × (pn : ℕ) × (vn : ℕ) × (first_numeric (tokens u prev) ≡ some pn)
    × (first_numeric (tokens u v) ≡ some vn)
    × ((vn < pn) ⊎ ((pn + 5 < vn) ⊎ (int64_bound ≤ pn + 5)))
Means u prev v plausible =
    (prev.normalized ≢ v.normalized)
    × (tokens u prev ≢ [])
    × (tokens u v ≢ [])
    × (skeleton (tokens u prev) ≡ skeleton (tokens u v))
    × StepsByFive (first_numeric (tokens u prev)) (first_numeric (tokens u v))

-- The verdicts on the leading numbers.
compare_numbers_cases :
    (pv vv : Option ℕ)
    → (((compare_numbers pv vv).verdict ≡ plausible) × StepsByFive pv vv)
      ⊎ (((compare_numbers pv vv).verdict ≡ suspicious)
          × ((pn : ℕ) × (vn : ℕ) × (pv ≡ some pn)
              × (vv ≡ some vn)
              × ((vn < pn) ⊎ ((pn + 5 < vn) ⊎ (int64_bound ≤ pn + 5)))))
unfolding compare_numbers
compare_numbers_cases none vv = inl (refl, inl refl)
compare_numbers_cases (some pn) none = inl (refl, inr (inl refl))
compare_numbers_cases (some pn) (some vn) = elim (Bool-cases (ltb vn pn)) [
  | inl e ↦ inr (rw e refl, (pn, vn, refl, refl, inl (ground arith)))
  | inr e ↦ elim (Bool-cases (ltb_ℤ (add_int64 pn 5) (pos vn))) [
    | inl f ↦ inr (rw (e, f) refl, (pn, vn, refl, refl, inr (ground arith)))
    | inr f ↦ inl (rw (e, f) refl, inr (inr (pn, vn, refl, refl, ground arith, ground arith)))
  ]
]

different : (a b : Str) → str_eq a b ≡ false → a ≢ b
different a b e q = cc (e, (str_eq_iff a b).1 q)

is_empty-eq : {A : Type 0} (l : List A) → is_empty l ≡ true → l ≡ []
is_empty-eq [] e = refl
is_empty-eq (x ∷ l) e = cc

none_empty : {A : Type 0} (l k : List A) → (is_empty l || is_empty k) ≡ false → (l ≢ []) × (k ≢ [])
none_empty [] k e = absurd (cc)
none_empty (x ∷ l) [] e = absurd (cc)
none_empty (x ∷ l) (y ∷ k) e = (λ q. cc, λ q. cc)

or_cases : (a b : Bool) → (a || b) ≡ true → (a ≡ true) ⊎ (b ≡ true)
or_cases true b e = inl refl
or_cases false b e = inr e

-- Each verdict of AssessTransition on a set previous version means what it says. Identical: equal
-- normalised forms. The others have different ones. Uncomparable: a version without tokens, or no
-- common structure. Suspicious: tokens and a structure in common, and a leading number that fell or
-- jumped by more than five (or whose bound pn + 5 leaves int64). Plausible: tokens and a structure in
-- common, and a leading number that moved on by at most five, or no number in one of the versions.
pub assess_transition-Means :
    (u : Unicode) (prev v : VersionString)
    → is_zero_version prev ≡ false
    → Means u prev v (assess_transition u prev v).verdict
unfolding assess_transition same_version
assess_transition-Means u prev v set =
    let pt = tokens u prev in
    let vt = tokens u v in
    elim (Bool-cases (str_eq prev.normalized v.normalized)) [
      | inl e ↦ rw (set, e) ((str_eq_iff prev.normalized v.normalized).0 e)
      | inr e ↦
          let apart = different prev.normalized v.normalized e in
          elim (Bool-cases (is_empty pt || is_empty vt)) [
            | inl f ↦
                rw (set, e, f)
                  (
                    apart,
                    elim (or_cases (is_empty pt) (is_empty vt) f) [
                      | inl p ↦ inl (is_empty-eq pt p)
                      | inr q ↦ inr (inl (is_empty-eq vt q))
                    ],
                  )
            | inr f ↦ elim (Bool-cases (str_eq (skeleton pt) (skeleton vt))) [
              | inr g ↦
                  rw (set, e, f, g) (apart, inr (inr (different (skeleton pt) (skeleton vt) g)))
              | inl g ↦
                  let (some_p, some_v) = none_empty pt vt f in
                  let shape = (str_eq_iff (skeleton pt) (skeleton vt)).0 g in
                  elim (compare_numbers_cases (first_numeric pt) (first_numeric vt)) [
                    | inl (p, steps) ↦ rw (set, e, f, g, p) (apart, some_p, some_v, shape, steps)
                    | inr (p, (pn, vn, a, b, c)) ↦
                        rw (set, e, f, g, p) (apart, some_p, some_v, shape, pn, vn, a, b, c)
                  ]
            ]
          ]
    ]
