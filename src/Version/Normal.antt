-- ===== src/Version/Normal.antt =====
-- The normalised form of a version: lower case, with its words set one space apart.
use mathlib.Core.List.{map-append}
use mathlib.Core.Path.{ap₂}
use firmscout.Base.{
  ℕ, ◌≡◌, refl, sym, ap, ◌∙◌, true, false, List, [], ◌∷◌, ◌++◌, map, All, All-append, arith,
  is_empty, Bool-cases, inl, inr, append_assoc, append-nil,
}
use firmscout.Base.Text.{Str, text, join, lower, Unicode, IsUnicode}
use firmscout.Version.{close_field, fields_from, fields, default_normalize_version}

module _ (u : Unicode) where
  -- A character inside a word, with a property `P` of its own.
  abbrev Inside : (ℕ → Type 0) → ℕ → Type 0
  Inside P c = (u.is_space c ≡ false) × P c

  abbrev IsWord : (ℕ → Type 0) → Str → Type 0
  IsWord P w = (is_empty w ≡ false) × All (Inside P) w

  close_field-words :
      (P : ℕ → Type 0) (cur : Str) (rest : List Str)
      → All (Inside P) cur
      → All (IsWord P) rest
      → All (IsWord P) (close_field cur rest)
  unfolding close_field
  close_field-words P [] rest hc hr = hr
  close_field-words P (c ∷ s) rest hc hr = ((refl, hc), hr)

  fields_from-words :
      (P : ℕ → Type 0) (s cur : Str)
      → All (Inside P) cur
      → All P s
      → All (IsWord P) (fields_from u cur s)
  unfolding fields_from
  fields_from-words P [] cur hc hs = close_field-words P cur [] hc tt
  fields_from-words P (c ∷ s) cur hc hs =
      let cut = fields_from-words P s [] tt hs.1 in
      elim (Bool-cases (u.is_space c)) [
        | inl e ↦ rw e (close_field-words P cur (fields_from u [] s) hc cut)
        | inr e ↦ rw e (
            fields_from-words P s (cur ++ c ∷ [])
              (All-append (Inside P) cur (c ∷ []) hc ((e, hs.0), tt)) hs.1)
      ]

  fields_from-word :
      (P : ℕ → Type 0) (w cur s : Str)
      → All (Inside P) w
      → fields_from u cur (w ++ s) ≡ fields_from u (cur ++ w) s
  unfolding fields_from
  fields_from-word P [] cur s h = rw append-nil
  fields_from-word P (c ∷ w) cur s h =
      rw h.0.0 (fields_from-word P w (cur ++ c ∷ []) s h.1 ∙ rw append_assoc)

  close_field-word :
      (w : Str) (rest : List Str) → is_empty w ≡ false → close_field w rest ≡ w ∷ rest
  unfolding close_field
  close_field-word [] rest e = cc
  close_field-word (c ∷ w) rest e = refl

  fields_from-space :
      (w s : Str)
      → u.is_space b' ' ≡ true
      → is_empty w ≡ false
      → fields_from u w (b' ' ∷ s) ≡ w ∷ fields_from u [] s
  unfolding fields_from
  fields_from-space w s sp e = rw sp (close_field-word w (fields_from u [] s) e)

  fields-join :
      (P : ℕ → Type 0) (ws : List Str)
      → u.is_space b' ' ≡ true
      → All (IsWord P) ws
      → fields_from u [] (join (text " ") ws) ≡ ws
  unfolding join text
  fields-join P [] sp h = unfold fields_from close_field in refl
  fields-join P (w ∷ []) sp h =
      ap (λ (s : Str). fields_from u [] s) (sym (append-nil w))
      ∙ fields_from-word P w [] [] h.0.1
      ∙ (unfold fields_from in close_field-word w [] h.0.0)
  fields-join P (w ∷ v ∷ ws) sp h =
      let rest = join (text " ") (v ∷ ws) in
      fields_from-word P w [] (b' ' ∷ rest) h.0.1
      ∙ fields_from-space w rest sp h.0.0
      ∙ ap (λ (r : List Str). w ∷ r) (fields-join P (v ∷ ws) sp h.1)

  abbrev IsLow : ℕ → Type 0
  IsLow c = u.to_lower c ≡ c

  map-low : (w : Str) → All (Inside IsLow) w → map u.to_lower w ≡ w
  map-low [] h = refl
  map-low (c ∷ w) h = ap₂ (λ (d : ℕ) (v : Str). d ∷ v) h.0.1 (map-low w h.1)

  lower-join :
      (ws : List Str)
      → u.to_lower b' ' ≡ b' '
      → All (IsWord IsLow) ws
      → lower u (join (text " ") ws) ≡ join (text " ") ws
  unfolding join text lower
  lower-join [] sp h = refl
  lower-join (w ∷ []) sp h = map-low w h.0.1
  lower-join (w ∷ v ∷ ws) sp h =
      let rest = join (text " ") (v ∷ ws) in
      map-append u.to_lower w (b' ' ∷ rest)
      ∙ ap₂ (λ (a b : Str). a ++ b) (map-low w h.0.1)
          (ap₂ (λ (c : ℕ) (s : Str). c ∷ s) sp (lower-join (v ∷ ws) sp h.1))

  lower-IsLow : IsUnicode u → (s : Str) → All IsLow (lower u s)
  unfolding lower
  lower-IsLow laws [] = tt
  lower-IsLow laws (c ∷ s) = (laws.lower_idem c, lower-IsLow laws s)

  -- Normalising a normalised version changes nothing, given what package unicode documents.
  pub default_normalize_version_idem :
      IsUnicode u
      → (s : Str)
      → default_normalize_version u (default_normalize_version u s) ≡ default_normalize_version u s
  unfolding default_normalize_version fields
  default_normalize_version_idem laws s =
      let words = fields_from-words IsLow (lower u s) [] tt (lower-IsLow laws s) in
      let space : u.is_space b' ' ≡ true = laws.space_ascii b' ' (omega arith) in
      let low : u.to_lower b' ' ≡ b' ' = laws.lower_ascii b' ' (omega arith) in
      ap (λ (t : Str). join (text " ") (fields_from u [] t))
        (lower-join (fields_from u [] (lower u s)) low words)
      ∙ ap (λ (ws : List Str). join (text " ") ws)
          (fields-join IsLow (fields_from u [] (lower u s)) space words)
