-- ===== src/Robots/Glob.antt =====
-- internal/adapters/fetch/robots.go: robotsPathMatch decides the language of its patterns.
use firmscout.Base.{
  length-append, length, drop, ◌==◌, if◌then◌else◌, ==_iff, ==_refl, Bool-cases, ℕ, ◌+◌, Bool, true,
  false, none, some, List, [], ◌∷◌, ◌++◌, ◌≡◌, ◌≢◌, ◌↔◌, inl, inr, refl, sym, ap, ◌∙◌, arith,
  append-nil,
}
use firmscout.Base.Text.{Str, has_prefix, has_suffix, split, put_first}
use firmscout.Robots.{segment_end, segments_end, match_from, drop_last, robots_path_match}
use firmscout.Robots.Split.{
  has_prefix_sound, has_prefix-append, has_suffix_sound, has_suffix-append, drop-append,
}
use firmscout.Robots.Floats.{Floats, ends_empty, settled, accept_sound, accept_complete}
use native.Mathlib.Nat.{zero-add}

-- A text belongs to a pattern: a star stands for any text, every other code point for itself.
abbrev pub Matches : Str → Str → Type 0
Matches [] s = s ≡ []
Matches (c ∷ p) s =
    if c == b'*'
    then ((u : Str) × (v : Str) × (s ≡ u ++ v) × Matches p v)
    else ((v : Str) × (s ≡ c ∷ v) × Matches p v)

-- The pattern without its final "$", or with a star after it if there is none.
abbrev pub whole_pattern : Str → Str
whole_pattern p = if has_suffix p (b'$' ∷ []) then drop_last p else p ++ (b'*' ∷ [])

-- The first segment stands at the start.
abbrev Pieces : Bool → List Str → Str → Type 0
Pieces a [] s = ⊥
Pieces a (seg ∷ segs) s = (v : Str) × (s ≡ seg ++ v) × Floats a segs v

abbrev tail_star : Bool → Str
tail_star true = []
tail_star false = b'*' ∷ []

Floats-Pieces_sound :
    (a : Bool) (segs : List Str) (s : Str)
    → (u : Str) × (v : Str) × (s ≡ u ++ v) × Pieces a segs v
    → Pieces a ([] ∷ segs) s
Floats-Pieces_sound a [] s (u, v, e, h) = absurd h
Floats-Pieces_sound a (seg ∷ segs) s (u, v, e, (w, q, h)) =
    (s, refl, (u, w, e ∙ ap (λ x. u ++ x) q, h))

Floats-Pieces_complete :
    (a : Bool) (seg : Str) (segs : List Str) (s : Str)
    → Pieces a ([] ∷ seg ∷ segs) s
    → (u : Str) × (v : Str) × (s ≡ u ++ v) × Pieces a (seg ∷ segs) v
Floats-Pieces_complete a seg segs s (x, e, (u, v, q, h)) = (u, seg ++ v, e ∙ q, (v, refl, h))

put_first-Pieces :
    (a : Bool) (c : ℕ) (segs : List Str) (s : Str)
    → Pieces a segs s
    → Pieces a (put_first c segs) (c ∷ s)
put_first-Pieces a c [] s h = absurd h
put_first-Pieces a c (seg ∷ segs) s (v, e, h) = (v, ap (λ x. c ∷ x) e, h)

put_first-Pieces_complete :
    (a : Bool) (c : ℕ) (seg : Str) (segs : List Str) (s : Str)
    → Pieces a (put_first c (seg ∷ segs)) s
    → (v : Str) × (s ≡ c ∷ v) × Pieces a (seg ∷ segs) v
put_first-Pieces_complete a c seg segs s (v, e, h) = (seg ++ v, e, (v, refl, h))

-- A string has at least one piece.
split-cons : (sep : ℕ) (p : Str) → (seg : Str) × (segs : List Str) × (split sep p ≡ seg ∷ segs)
unfolding split
split-cons sep [] = ([], [], refl)
split-cons sep (c ∷ p) = elim (Bool-cases (c == sep)) [
  | inl e ↦ ([], split sep p, rw e)
  | inr e ↦ let (seg, segs, q) = split-cons sep p in (c ∷ seg, segs, rw (e, q) refl)
]

Matches-Pieces : (a : Bool) (p s : Str) → Matches (p ++ tail_star a) s → Pieces a (split b'*' p) s
unfolding split
Matches-Pieces true [] s h = ([], h, refl)
Matches-Pieces false [] s h = (s, refl, tt)
Matches-Pieces a (c ∷ p) s h = elim (Bool-cases (c == b'*')) [
  | inl e ↦ rw e (
      let (u, v, q, m) = rw e at h in
      Floats-Pieces_sound a (split b'*' p) s (u, v, q, Matches-Pieces a p v m))
  | inr e ↦ rw e (
      let (v, q, m) = rw e at h in
      rw q (put_first-Pieces a c (split b'*' p) v (Matches-Pieces a p v m)))
]

Pieces-Matches : (a : Bool) (p s : Str) → Pieces a (split b'*' p) s → Matches (p ++ tail_star a) s
unfolding split
Pieces-Matches true [] s (v, e, h) = e ∙ h
Pieces-Matches false [] s (v, e, h) = (s, [], sym (append-nil s), refl)
Pieces-Matches a (c ∷ p) s h =
    let (seg, segs, q) = split-cons b'*' p in
    let ih = Pieces-Matches a p in
    elim (Bool-cases (c == b'*')) [
      | inl e ↦ rw e (
          let (u, v, r, m) = Floats-Pieces_complete a seg segs s (rw (e, q) at h) in
          (u, v, r, ih v (rw q m)))
      | inr e ↦ rw e (
          let (v, r, m) = put_first-Pieces_complete a c seg segs s (rw (e, q) at h) in
          (v, r, ih v (rw q m)))
    ]

-- Whether a text ends in a code point.
abbrev ends_with : ℕ → Str → Bool
ends_with c [] = false
ends_with c (d ∷ []) = d == c
ends_with c (d ∷ e ∷ s) = ends_with c (e ∷ s)

ends_with-append : (c : ℕ) (u : Str) → ends_with c (u ++ (c ∷ [])) ≡ true
ends_with-append c [] = ==_refl c
ends_with-append c (d ∷ []) = ==_refl c
ends_with-append c (d ∷ e ∷ u) = ends_with-append c (e ∷ u)

ends_with_sound : (c : ℕ) (s : Str) → ends_with c s ≡ true → (u : Str) × (s ≡ u ++ (c ∷ []))
ends_with_sound c [] h = absurd (cc)
ends_with_sound c (d ∷ []) h = ([], ap (λ x. x ∷ []) ((==_iff d c).0 h))
ends_with_sound c (d ∷ e ∷ s) h =
    let (u, q) = ends_with_sound c (e ∷ s) h in (d ∷ u, ap (λ x. d ∷ x) q)

Bool_ext : (a b : Bool) → (a ≡ true → b ≡ true) → (b ≡ true → a ≡ true) → a ≡ b
Bool_ext true b f g = sym (f refl)
Bool_ext false true f g = g refl
Bool_ext false false f g = refl

has_suffix-ends_with : (c : ℕ) (s : Str) → has_suffix s (c ∷ []) ≡ ends_with c s
has_suffix-ends_with c s =
    Bool_ext _ _
      (λ h. let (u, e) = has_suffix_sound s (c ∷ []) h in ap (ends_with c) e ∙ ends_with-append c u)
      (λ h.
        let (u, e) = ends_with_sound c s h in
        ap (λ x. has_suffix x (c ∷ [])) e ∙ has_suffix-append u (c ∷ []))

-- A text ends in the separator exactly if its last piece is empty and not its first.
abbrev last_empty : List Str → Bool
last_empty [] = false
last_empty (seg ∷ segs) = ends_empty segs

ends_empty-cons :
    (sep d : ℕ) (p seg : Str) (segs : List Str)
    → split sep (d ∷ p) ≡ seg ∷ segs
    → ends_empty (seg ∷ segs) ≡ ends_empty segs
unfolding split
ends_empty-cons sep d p seg (next ∷ rest) e = refl
ends_empty-cons sep d p (c ∷ seg) [] e = refl
ends_empty-cons sep d p [] [] e =
    let (seg, segs, q) = split-cons sep p in
    elim (Bool-cases (d == sep)) [ inl t ↦ cc (rw (t, q) at e) | inr f ↦ cc (rw (f, q) at e) ]

ends_with-split : (sep : ℕ) (p : Str) → ends_with sep p ≡ last_empty (split sep p)
unfolding split
ends_with-split sep [] = refl
ends_with-split sep (c ∷ []) = ground arith
ends_with-split sep (c ∷ d ∷ p) =
    let (seg, segs, q) = split-cons sep (d ∷ p) in
    let ih = ends_with-split sep (d ∷ p) in
    elim (Bool-cases (c == sep)) [
      | inl e ↦ rw (e, q) (ih ∙ ap last_empty q ∙ sym (ends_empty-cons sep d p seg segs q))
      | inr e ↦ rw (e, q) (ih ∙ ap last_empty q)
    ]

-- The first segment, then the loop.
module _ (a : Bool) (path : Str) (c : ℕ) (t : Str) (segs : List Str) where
  abbrev first_round : Bool → Bool
  first_round b =
      settled a path (ends_empty segs) (elim (if b then some (0 + length (c ∷ t)) else none) [
        | none ↦ none
        | some after ↦ segments_end a false path after segs
      ])

  first_round_lem :
      (b : Bool)
      → has_prefix path (c ∷ t) ≡ b
      → settled a path (ends_empty segs) (segments_end a true path 0 ((c ∷ t) ∷ segs))
        ≡ first_round b
  unfolding segments_end segment_end
  first_round_lem b e = ap first_round e

match-Pieces_sound :
    (a : Bool) (path seg : Str) (segs : List Str)
    → settled a path (ends_empty segs) (segments_end a true path 0 (seg ∷ segs)) ≡ true
    → Pieces a (seg ∷ segs) path
unfolding segments_end segment_end
match-Pieces_sound a path [] segs h = (path, refl, accept_sound a path 0 segs (omega arith) h)
match-Pieces_sound a path (c ∷ t) segs h = elim (Bool-cases (has_prefix path (c ∷ t))) [
  | inl e ↦
      let q = has_prefix_sound path (c ∷ t) e in
      let n = ap {A = Str} length q in
      let l = length-append (c ∷ t) (drop (length (c ∷ t)) path) in
      (
        drop (length (c ∷ t)) path,
        q,
        accept_sound a path (length (c ∷ t)) segs (omega arith)
            (rw zero-add at (sym (first_round_lem a path c t segs true e) ∙ h)),
      )
  | inr e ↦ cc (first_round_lem a path c t segs false e)
]

match-Pieces_complete :
    (a : Bool) (path seg : Str) (segs : List Str)
    → Pieces a (seg ∷ segs) path
    → settled a path (ends_empty segs) (segments_end a true path 0 (seg ∷ segs)) ≡ true
unfolding segments_end segment_end
match-Pieces_complete a path [] segs (v, e, h) =
    accept_complete a path 0 segs (omega arith) (rw (← e) at h)
match-Pieces_complete a path (c ∷ t) segs (v, e, h) =
    let p = ap (λ s. has_prefix s (c ∷ t)) e ∙ has_prefix-append (c ∷ t) v in
    let r : drop (length (c ∷ t)) path ≡ v =
      ap (λ s. drop (length (c ∷ t)) s) e ∙ drop-append (c ∷ t) v in
    let n = ap {A = Str} length e in
    let l = length-append (c ∷ t) v in
    first_round_lem a path c t segs true p
    ∙ rw zero-add (accept_complete a path (length (c ∷ t)) segs (omega arith) (rw r h))

match_from_iff :
    (a : Bool) (p path : Str) → (match_from a p path ≡ true) ↔ Matches (p ++ tail_star a) path
unfolding match_from
match_from_iff a p path =
    let (seg, segs, q) = split-cons b'*' p in
    let star : has_suffix p (b'*' ∷ []) ≡ ends_empty segs =
      has_suffix-ends_with b'*' p ∙ ends_with-split b'*' p ∙ ap last_empty q in
    let run : match_from a p path
        ≡ settled a path (ends_empty segs) (segments_end a true path 0 (seg ∷ segs)) =
      ap (λ b. settled a path b (segments_end a true path 0 (split b'*' p))) star
      ∙ ap (λ x. settled a path (ends_empty segs) (segments_end a true path 0 x)) q in
    (
      λ h. Pieces-Matches a p path (rw q (match-Pieces_sound a path seg segs (sym run ∙ h))),
      λ h. run ∙ match-Pieces_complete a path seg segs (rw q at (Matches-Pieces a p path h)),
    )

-- robotsPathMatch holds of a pattern and a path exactly if the pattern is not empty and the path
-- belongs to it: a star stands for any text, a final "$" is the end of the path and without it
-- anything may follow, and every other code point stands for itself.
pub robots_path_match-Matches :
    (p path : Str) → (robots_path_match p path ≡ true) ↔ ((p ≢ []) × Matches (whole_pattern p) path)
unfolding robots_path_match
robots_path_match-Matches [] path = (λ h. absurd (cc), λ h. absurd (h.0 refl))
robots_path_match-Matches (c ∷ s) path =
    let iff = λ (a : Bool) (p : Str). match_from_iff a p path in
    elim (Bool-cases (has_suffix (c ∷ s) (b'$' ∷ []))) [
      | inl e ↦ rw e (
        λ h. (λ n. cc, rw append-nil at ((iff true (drop_last (c ∷ s))).0 h)),
        λ h. (iff true (drop_last (c ∷ s))).1 (rw append-nil h.1),
      )
      | inr e ↦ rw e (λ h. (λ n. cc, (iff false (c ∷ s)).0 h), λ h. (iff false (c ∷ s)).1 h.1)
    ]
