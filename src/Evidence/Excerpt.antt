-- ===== src/Evidence/Excerpt.antt =====
-- internal/domain/evidence.go: an excerpt that TruncateExcerpt has cut passes Evidence.Validate.
use firmscout.Base.{
  ◌<◌, ◌⊎◌, ℕ, ◌-◌, ◌≤◌, Bool, false, ◌&&◌, [], ◌∷◌, ◌++◌, is_empty, all, reverse, leb, ◌≡◌, refl,
  sym, ap, ◌∙◌, arith, Bool-cases, leb→le, inl, inr,
}
use mathlib.Core.List.{reverse-append}
use firmscout.Base.Text.{
  Str, Unicode, is_blank, trim_space, trim, trim_left, byte_len, byte_len-append, rune_len,
}
use firmscout.Evidence.{take_bytes, truncate_excerpt, max_excerpt_length, ellipsis}

byte_len-take_bytes : (n : ℕ) (s : Str) → byte_len (take_bytes n s) ≤ n
unfolding take_bytes byte_len
byte_len-take_bytes n [] = omega arith
byte_len-take_bytes n (c ∷ s) = ground (arith, byte_len-take_bytes (n - rune_len c) s)

is_empty-snoc : (s : Str) (c : ℕ) → is_empty (s ++ (c ∷ [])) ≡ false
is_empty-snoc [] c = refl
is_empty-snoc (d ∷ s) c = refl

nonempty : (s : Str) → 0 < byte_len s → is_empty s ≡ false
unfolding byte_len
nonempty [] h = absurd (omega arith)
nonempty (c ∷ s) h = refl

module _ (p : ℕ → Bool) where
  all-append : (s t : Str) → all p (s ++ t) ≡ (all p s && all p t)
  all-append [] t = refl
  all-append (c ∷ s) t = ground (arith, all-append s t)

  all-reverse : (s : Str) → all p (reverse s) ≡ all p s
  all-reverse [] = refl
  all-reverse (c ∷ s) =
      ap (all p) (reverse-append (c ∷ []) s)
      ∙ all-append (reverse s) (c ∷ [])
      ∙ ground (arith, all-reverse s)

  all-trim_left : (s : Str) → all p (trim_left p s) ≡ all p s
  unfolding trim_left
  all-trim_left [] = refl
  all-trim_left (c ∷ s) = ground (arith, all-trim_left s)

  -- What is left by trimming on the left is empty exactly if all of it would be cut.
  is_empty-trim_left : (s : Str) → is_empty (trim_left p s) ≡ all p s
  unfolding trim_left
  is_empty-trim_left [] = refl
  is_empty-trim_left (c ∷ s) = ground (arith, is_empty-trim_left s)

  is_empty-reverse : (s : Str) → is_empty (reverse s) ≡ is_empty s
  is_empty-reverse [] = refl
  is_empty-reverse (c ∷ s) = ap is_empty (reverse-append (c ∷ []) s) ∙ is_empty-snoc (reverse s) c

  all-trim : (s : Str) → all p (trim p s) ≡ all p s
  unfolding trim
  all-trim s =
      all-reverse (trim_left p (reverse (trim_left p s)))
      ∙ all-trim_left (reverse (trim_left p s))
      ∙ all-reverse (trim_left p s)
      ∙ all-trim_left s

  is_empty-trim : (s : Str) → is_empty (trim p s) ≡ all p s
  unfolding trim
  is_empty-trim s =
      is_empty-reverse (trim_left p (reverse (trim_left p s)))
      ∙ is_empty-trim_left (reverse (trim_left p s))
      ∙ all-reverse (trim_left p s)
      ∙ all-trim_left s

module _ (u : Unicode) where
  is_blank-all : (s : Str) → is_blank u s ≡ all u.is_space s
  unfolding is_blank trim_space
  is_blank-all s = is_empty-trim u.is_space s

  all-trim_space : (s : Str) → all u.is_space (trim_space u s) ≡ all u.is_space s
  unfolding trim_space
  all-trim_space s = all-trim u.is_space s

  ellipsis-bytes : byte_len ellipsis ≡ 3
  unfolding byte_len rune_len
  ellipsis-bytes = refl

  blank-trim_space : (s : Str) → is_blank u (trim_space u s) ≡ is_blank u s
  blank-trim_space s = is_blank-all (trim_space u s) ∙ all-trim_space s ∙ sym (is_blank-all s)

  -- A text that is long once it is trimmed is not blank.
  long-visible : (s : Str) → max_excerpt_length < byte_len (trim_space u s) → is_blank u s ≡ false
  unfolding is_blank
  long-visible s h = nonempty (trim_space u s) (omega arith)

  -- What TruncateExcerpt gives is at most 4,000 bytes long, and blank exactly if the text was: so a
  -- text that is not blank passes the two checks of Evidence.Validate on excerpts. It is the
  -- trimmed text whole, unless that is longer than the limit.
  pub truncate_excerpt_bounds :
      (s : Str)
      → u.is_space 0x2026 ≡ false
      → (byte_len (truncate_excerpt u s) ≤ max_excerpt_length)
        × (is_blank u (truncate_excerpt u s) ≡ is_blank u s)
        × ((truncate_excerpt u s ≡ trim_space u s)
            ⊎ (max_excerpt_length < byte_len (trim_space u s)))
  unfolding truncate_excerpt
  truncate_excerpt_bounds s no_space =
      elim (Bool-cases (leb (byte_len (trim_space u s)) max_excerpt_length)) [
        | inl e ↦
            rw e (
              leb→le (byte_len (trim_space u s)) max_excerpt_length e,
              blank-trim_space s,
              inl refl,
            )
        | inr e ↦
            let room = max_excerpt_length - byte_len ellipsis in
            let cut = take_bytes room (trim_space u s) in
            let bytes = byte_len-append cut ellipsis in
            let kept = byte_len-take_bytes room (trim_space u s) in
            let three = ellipsis-bytes in
            let long : max_excerpt_length < byte_len (trim_space u s) = ground arith in
            let visible : is_blank u (cut ++ ellipsis) ≡ false =
              is_blank-all (cut ++ ellipsis)
              ∙ all-append u.is_space cut ellipsis
              ∙ ground (arith, no_space) in
            rw e (omega arith, visible ∙ sym (long-visible s long), inr long)
      ]
