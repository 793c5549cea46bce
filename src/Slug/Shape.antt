-- ===== src/Slug/Shape.antt =====
-- Slugify of internal/domain/slug.go gives a slug that ValidSlug accepts, or nothing.
use firmscout.Base.{
  ℕ, Bool, true, false, not, ◌||◌, Option, none, some, [], ◌∷◌, ◌++◌, ◌==◌, ◌≡◌, refl, ◌⊎◌, inl,
  inr, arith, if◌then◌else◌, reverse, sym, ap, append-nil, ◌∙◌,
}
use mathlib.Core.List.{reverse-append, reverse-reverse}
use firmscout.Base.Text.{Str, Unicode, trim, trim_left, trim_space, lower}
use firmscout.Slug.{is_slug_char, matches_slug, valid_slug, slugify_loop, slugify}

-- The state of the automaton of the pattern after a text, if it has not failed.
unfoldable reads : Bool → Str → Option Bool
reads start [] = some start
reads true (c ∷ s) = let rest = reads false s in if is_slug_char c then rest else none
reads false (c ∷ s) =
    let rest = reads (not (is_slug_char c)) s in
    if is_slug_char c || (c == b'-') then rest else none

reads-matches : (start : Bool) (s : Str) → reads start s ≡ some false → matches_slug start s ≡ true
unfolding reads matches_slug
reads-matches true [] h = ground arith
reads-matches false [] h = refl
reads-matches true (c ∷ s) h = let ih = reads-matches false s in ground arith
reads-matches false (c ∷ s) h = let ih = reads-matches (not (is_slug_char c)) s in ground arith

reads-snoc :
    (start : Bool) (s : Str) (c : ℕ) (t : Bool)
    → reads start s ≡ some t
    → reads start (s ++ c ∷ []) ≡ reads t (c ∷ [])
unfolding reads
reads-snoc start [] c t h =
    ap (λ (b : Option Bool). elim b [ none ↦ none | some x ↦ reads x (c ∷ []) ]) h
reads-snoc true (x ∷ s) c t h = let ih = reads-snoc false s c t in ground arith
reads-snoc false (x ∷ s) c t h = let ih = reads-snoc (not (is_slug_char x)) s c t in ground arith

abbrev is_dash : ℕ → Bool
is_dash c = c == b'-'

-- A text that the pattern may end with ends in [a-z0-9].
ends-in-char :
    (start : Bool) (s : Str)
    → reads start s ≡ some false
    → ((s ≡ []) × (start ≡ false))
      ⊎ ((o : Str) × (c : ℕ) × (s ≡ o ++ c ∷ []) × (is_slug_char c ≡ true))
unfolding reads
ends-in-char start [] h = inl (refl, ground arith)
ends-in-char true (x ∷ s) h = elim (ends-in-char false s (ground arith)) [
  | inl (e, _) ↦ inr ([], x, ap (λ (t : Str). x ∷ t) e, ground arith)
  | inr (o, c, e, k) ↦ inr (x ∷ o, c, ap (λ (t : Str). x ∷ t) e, k)
]
ends-in-char false (x ∷ s) h = elim (ends-in-char (not (is_slug_char x)) s (ground arith)) [
  | inl (e, k) ↦ inr ([], x, ap (λ (t : Str). x ∷ t) e, ground arith)
  | inr (o, c, e, k) ↦ inr (x ∷ o, c, ap (λ (t : Str). x ∷ t) e, k)
]

no-dash : (c : ℕ) → is_slug_char c ≡ true → is_dash c ≡ false
no-dash c k = ground arith

trim_left-kept : (c : ℕ) (s : Str) → is_dash c ≡ false → trim_left is_dash (c ∷ s) ≡ c ∷ s
unfolding trim_left
trim_left-kept c s k = rw k refl

trim_left-cut : (s : Str) → trim_left is_dash (b'-' ∷ s) ≡ trim_left is_dash s
unfolding trim_left
trim_left-cut s = refl

head-kept : (s t : Str) → reads true s ≡ some false → trim_left is_dash (s ++ t) ≡ s ++ t
unfolding reads
head-kept [] t h = cc
head-kept (x ∷ s) t h = trim_left-kept x (s ++ t) (no-dash x (ground arith))

end-kept : (s : Str) → reads true s ≡ some false → trim_left is_dash (reverse s) ≡ reverse s
end-kept s h = elim (ends-in-char true s h) [
  | inl (e, k) ↦ cc
  | inr (o, c, e, k) ↦
      let back : reverse s ≡ c ∷ reverse o = ap reverse e ∙ reverse-append o (c ∷ []) in
      rw back (trim_left-kept c (reverse o) (no-dash c k))
]

trim_back :
    (s t : Str) → trim_left is_dash s ≡ t → trim is_dash s ≡ reverse (trim_left is_dash (reverse t))
unfolding trim
trim_back s t e = ap (λ (x : Str). reverse (trim_left is_dash (reverse x))) e

-- A text that starts and ends in [a-z0-9], with and without a dash after it, is trimmed to itself.
trim-kept : (s : Str) → reads true s ≡ some false → trim is_dash s ≡ s
trim-kept s h =
    trim_back s s (ap (trim_left is_dash) (sym (append-nil s)) ∙ (head-kept s [] h ∙ append-nil s))
    ∙ (ap (λ (x : Str). reverse x) (end-kept s h) ∙ reverse-reverse s)

trim-cut : (s : Str) → reads true s ≡ some false → trim is_dash (s ++ b'-' ∷ []) ≡ s
trim-cut s h =
    trim_back (s ++ b'-' ∷ []) (s ++ b'-' ∷ []) (head-kept s (b'-' ∷ []) h)
    ∙ (ap (λ (x : Str). reverse (trim_left is_dash x)) (reverse-append s (b'-' ∷ []))
        ∙ (ap (λ (x : Str). reverse x) (trim_left-cut (reverse s) ∙ end-kept s h)
            ∙ reverse-reverse s))

-- What the loop has written: nothing, a slug, or a slug and a dash, with `lastDash`.
data Written : Str → Bool → Type 0 where
  nothing : Written [] true
  slug_so_far : (s : Str) → reads true s ≡ some false → Written s false
  dash_after : (s : Str) → reads true s ≡ some false → Written (s ++ b'-' ∷ []) true

one_more : (t : Bool) (c : ℕ) → is_slug_char c ≡ true → reads t (c ∷ []) ≡ some false
unfolding reads
one_more true c k = ground arith
one_more false c k = ground arith

extend :
    (out : Str) (d : Bool) (c : ℕ)
    → Written out d
    → is_slug_char c ≡ true
    → Written (out ++ c ∷ []) false
unfolding reads
extend out d c nothing k = slug_so_far (c ∷ []) (one_more true c k)
extend out d c (slug_so_far s h) k =
    slug_so_far (s ++ c ∷ []) (reads-snoc true s c false h ∙ one_more false c k)
extend out d c (dash_after s h) k =
    slug_so_far ((s ++ b'-' ∷ []) ++ c ∷ [])
      (reads-snoc true (s ++ b'-' ∷ []) c true (reads-snoc true s b'-' false h) ∙ one_more true c k)

separate : (out : Str) (d : Bool) → Written out d → d ≡ false → Written (out ++ b'-' ∷ []) true
separate out d nothing e = cc
separate out d (slug_so_far s h) e = dash_after s h
separate out d (dash_after s h) e = cc

choose :
    (out : Str) (d : Bool) (c : ℕ) (kept dash : Bool)
    → (kept ≡ true → Written (out ++ c ∷ []) false)
    → (dash ≡ true → Written (out ++ b'-' ∷ []) true)
    → Written out d
    → Written
        (if kept then out ++ c ∷ [] else if dash then out ++ b'-' ∷ [] else out)
        (if kept then false else dash || d)
choose out d c true dash f g w = f refl
choose out d c false true f g w = g refl
choose out d c false false f g w = w

slugify_loop-Written :
    (u : Unicode) (s : Str) (out : Str) (d : Bool)
    → Written out d
    → (t : Bool) × Written (slugify_loop u out d s) t
unfolding slugify_loop
slugify_loop-Written u [] out d w = (d, w)
slugify_loop-Written u (c ∷ s) out d w =
    slugify_loop-Written u s _ _
      (choose out d c _ _ (extend out d c w) (λ e. separate out d w (ground arith)) w)

trimmed :
    (out : Str) (d : Bool)
    → Written out d
    → (reads true (trim is_dash out) ≡ some false) ⊎ (trim is_dash out ≡ [])
unfolding trim trim_left
trimmed out d nothing = inr refl
trimmed out d (slug_so_far s h) = inl (ap (reads true) (trim-kept s h) ∙ h)
trimmed out d (dash_after s h) = inl (ap (reads true) (trim-cut s h) ∙ h)

-- Slugify gives a slug that ValidSlug accepts, or the empty text, whatever the name.
pub slugify-valid_slug :
    (u : Unicode) (s : Str) → (valid_slug (slugify u s) ≡ true) ⊎ (slugify u s ≡ [])
unfolding slugify valid_slug
slugify-valid_slug u s =
    let (t, w) = slugify_loop-Written u (lower u (trim_space u s)) [] true nothing in
    elim (trimmed _ t w) [ inl h ↦ inl (reads-matches true _ h) | inr e ↦ inr e ]
