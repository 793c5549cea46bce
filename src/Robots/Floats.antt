-- ===== src/Robots/Floats.antt =====
-- internal/adapters/fetch/robots.go: the loop of robotsPathMatch takes the first place of each
-- segment, and loses no match by it.
use firmscout.Base.{
  length, drop, length-append, length-drop, is_empty, ◌==◌, if◌then◌else◌, Option-cases, ℕ, zero,
  suc, ◌+◌, ◌-◌, ◌≤◌, Bool, true, false, not, ◌&&◌, Option, none, some, List, [], ◌∷◌, ◌++◌, ◌≡◌,
  inl, inr, refl, sym, ap, ◌∙◌, arith, append-nil, append_assoc,
}
use firmscout.Base.Text.{Str, has_suffix, index}
use firmscout.Robots.{segment_end, segments_end}
use firmscout.Robots.Split.{
  drop-drop, drop_split, has_suffix_sound, has_suffix-append, index_sound, index_complete,
}

-- What may follow the last segment: nothing if the pattern is anchored, else anything.
abbrev pub End : Bool → Str → Type 0
End true s = s ≡ []
End false s = Unit

-- The segments stand in the text in this order, with anything before each.
abbrev pub Floats : Bool → List Str → Str → Type 0
Floats a [] s = End a s
Floats a (seg ∷ segs) s = (u : Str) × (v : Str) × (s ≡ u ++ (seg ++ v)) × Floats a segs v

abbrev pub ends_empty : List Str → Bool
ends_empty [] = false
ends_empty (seg ∷ []) = is_empty seg
ends_empty (seg ∷ next ∷ rest) = ends_empty (next ∷ rest)

-- The loop from a position on, and the test after it.
abbrev pub settled : Bool → Str → Bool → Option ℕ → Bool
settled a path absorbs o = elim o [
  | none ↦ false
  | some q ↦ if a && not (q == length path) then absorbs else true
]

abbrev pub accept : Bool → Str → ℕ → List Str → Bool
accept a path at segs = settled a path (ends_empty segs) (segments_end a false path at segs)

pub drop-append_le : (n : ℕ) (s t : Str) → n ≤ length s → drop n (s ++ t) ≡ drop n s ++ t
drop-append_le zero s t h = refl
drop-append_le (suc n) [] t h = absurd (omega arith)
drop-append_le (suc n) (c ∷ s) t h = drop-append_le n s t (omega arith)

Floats-extend :
    (a : Bool) (u : Str) (seg : Str) (segs : List Str) (v : Str)
    → Floats a (seg ∷ segs) v
    → Floats a (seg ∷ segs) (u ++ v)
Floats-extend a u seg segs v (x, y, e, h) =
    (u ++ x, y, ap (λ z. u ++ z) e ∙ sym (append_assoc u x (seg ++ y)), h)

suffix_within :
    (path : Str) (at : ℕ) (t : Str)
    → length t ≤ length path - at
    → at ≤ length path
    → has_suffix path t ≡ true
    → (u : Str) × (drop at path ≡ u ++ t)
suffix_within path at t short within h =
    let (w, e) = has_suffix_sound path t h in
    let l = length-append w t in
    let m = ap length e in (drop at w, ap (λ s. drop at s) e ∙ drop-append_le at w t (omega arith))

-- What follows the place found for a segment.
after_place :
    (path : Str) (at i : ℕ) (t : Str)
    → at ≤ length path
    → index (drop at path) t ≡ some i
    → (u : Str) × (drop at path ≡ u ++ (t ++ drop (at + (i + length t)) path))
      × (at + (i + length t) ≤ length path)
after_place path at i t within h =
    let (u, e, l) = index_sound (drop at path) t i h in
    let k = length-drop at path in
    let n = ap length e in
    let o = length-append u (t ++ drop (i + length t) (drop at path)) in
    let p = length-append t (drop (i + length t) (drop at path)) in
    (u, e ∙ ap (λ s. u ++ (t ++ s)) (sym (drop-drop at (i + length t) path)), omega arith)

-- One round of the loop, at a segment that is not the last one.
step_some :
    (a : Bool) (path : Str) (at i : ℕ) (c : ℕ) (t next : Str) (rest : List Str)
    → index (drop at path) (c ∷ t) ≡ some i
    → accept a path at ((c ∷ t) ∷ next ∷ rest)
      ≡ accept a path (at + (i + length (c ∷ t))) (next ∷ rest)
unfolding segments_end segment_end
step_some true path at i c t next rest e = ground arith
step_some false path at i c t next rest e = ground arith

step_none :
    (a : Bool) (path : Str) (at : ℕ) (c : ℕ) (t next : Str) (rest : List Str)
    → index (drop at path) (c ∷ t) ≡ none
    → accept a path at ((c ∷ t) ∷ next ∷ rest) ≡ false
unfolding segments_end segment_end
step_none true path at c t next rest e = ground arith
step_none false path at c t next rest e = ground arith

empty-length : (s : Str) → length s ≡ 0 → s ≡ []
empty-length [] h = refl
empty-length (c ∷ s) h = absurd (omega arith)

pub accept_sound :
    (a : Bool) (path : Str) (at : ℕ) (segs : List Str)
    → at ≤ length path
    → accept a path at segs ≡ true
    → Floats a segs (drop at path)
unfolding segments_end segment_end
accept_sound true path at [] within h =
    empty-length (drop at path) (ground (arith, length-drop at path))
accept_sound false path at [] within h = tt
accept_sound true path at ([] ∷ []) within h =
    (drop at path, [], sym (append-nil (drop at path)), refl)
accept_sound false path at ([] ∷ []) within h = ([], drop at path, refl, tt)
accept_sound true path at ((c ∷ t) ∷ []) within h =
    let (u, e) = suffix_within path at (c ∷ t) (ground arith) within (ground arith) in
    (u, [], e ∙ ap (λ s. u ++ s) (sym (append-nil (c ∷ t))), refl)
accept_sound false path at ((c ∷ t) ∷ []) within h =
    elim (Option-cases (index (drop at path) (c ∷ t))) [
      | inl e ↦ absurd (ground arith)
      | inr (i, e) ↦
          let (u, q, _) = after_place path at i (c ∷ t) within e in
          (u, drop (at + (i + length (c ∷ t))) path, q, tt)
    ]
accept_sound a path at ([] ∷ next ∷ rest) within h =
    ([], drop at path, refl, accept_sound a path at (next ∷ rest) within h)
accept_sound a path at ((c ∷ t) ∷ next ∷ rest) within h =
    elim (Option-cases (index (drop at path) (c ∷ t))) [
      | inl e ↦ cc (step_none a path at c t next rest e)
      | inr (i, e) ↦
          let after = at + (i + length (c ∷ t)) in
          let (u, q, inside) = after_place path at i (c ∷ t) within e in
          (
            u,
            drop after path,
            q,
            accept_sound a path after (next ∷ rest) inside
                (sym (step_some a path at i c t next rest e) ∙ h),
          )
    ]

suffix_of_rest :
    (path : Str) (at : ℕ) (u t : Str)
    → at ≤ length path
    → drop at path ≡ u ++ (t ++ [])
    → has_suffix path t ≡ true
suffix_of_rest path at u t within e =
    let (w, q, _) = drop_split at path within in
    let whole : path ≡ (w ++ u) ++ t =
      q ∙ ap (λ s. w ++ s) (e ∙ ap (λ s. u ++ s) (append-nil t)) ∙ sym (append_assoc w u t) in
    ap (λ s. has_suffix s t) whole ∙ has_suffix-append (w ++ u) t

-- The first place of a segment leaves at least what any other place leaves.
rest_after_first :
    (path : Str) (at : ℕ) (u t v : Str) (seg : Str) (segs : List Str) (a : Bool)
    → at ≤ length path
    → drop at path ≡ u ++ (t ++ v)
    → Floats a (seg ∷ segs) v
    → (i : ℕ) × (index (drop at path) t ≡ some i)
      × Floats a (seg ∷ segs) (drop (at + (i + length t)) path)
rest_after_first path at u t v seg segs a within e h =
    let (i, q, le) = index_complete u t v in
    let n = i + length t in
    let l = length-append u t in
    let split : drop (at + n) path ≡ drop n (u ++ t) ++ v =
      drop-drop at n path
      ∙ ap (λ s. drop n s) (e ∙ sym (append_assoc u t v))
      ∙ drop-append_le n (u ++ t) v (omega arith) in
    (i, rw e q, rw split (Floats-extend a (drop n (u ++ t)) seg segs v h))

pub accept_complete :
    (a : Bool) (path : Str) (at : ℕ) (segs : List Str)
    → at ≤ length path
    → Floats a segs (drop at path)
    → accept a path at segs ≡ true
unfolding segments_end segment_end
accept_complete true path at [] within h =
    ground (arith, length-drop at path, ap {A = Str} length h)
accept_complete false path at [] within h = refl
accept_complete true path at ([] ∷ []) within h = ground arith
accept_complete false path at ([] ∷ []) within h = refl
accept_complete true path at ((c ∷ t) ∷ []) within (u, v, e, h) =
    let e' = e ∙ ap (λ s. u ++ ((c ∷ t) ++ s)) h in
    ground (
      arith,
      suffix_of_rest path at u (c ∷ t) within e',
      ap {A = Str} length e',
      length-drop at path,
      length-append u ((c ∷ t) ++ []),
      length-append t [],
    )
accept_complete false path at ((c ∷ t) ∷ []) within (u, v, e, h) =
    let (i, q, le) = index_complete u (c ∷ t) v in ground (arith, ap (λ s. index s (c ∷ t)) e)
accept_complete a path at ([] ∷ next ∷ rest) within (u, v, e, h) =
    accept_complete a path at (next ∷ rest) within (rw e (Floats-extend a u next rest v h))
accept_complete a path at ((c ∷ t) ∷ next ∷ rest) within (u, v, e, h) =
    let (i, q, h') = rest_after_first path at u (c ∷ t) v next rest a within e h in
    let (x, y, inside) = after_place path at i (c ∷ t) within q in
    step_some a path at i c t next rest q
    ∙ accept_complete a path (at + (i + length (c ∷ t))) (next ∷ rest) inside h'
