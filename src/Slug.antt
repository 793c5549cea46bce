-- ===== src/Slug.antt =====
-- internal/domain/slug.go: the slug pattern, slugs from names, and the form by which aliases are
-- compared.
pub mod Shape
use firmscout.Base.{
  ◌++◌, if◌then◌else◌, is_empty, ℕ, Bool, true, false, not, ◌&&◌, ◌||◌, [], ◌∷◌, ◌==◌,
}
use firmscout.Base.Text.{Str, Unicode, trim, trim_space, lower, is_lower_ascii, is_digit_ascii}

-- The class [a-z0-9].
abbrev pub is_slug_char : ℕ → Bool
is_slug_char c = is_lower_ascii c || is_digit_ascii c

-- slugPattern, ^[a-z0-9]+(-[a-z0-9]+)*$, as the automaton that reads it: `start` is true where a
-- run of [a-z0-9] has to begin.
unfoldable pub matches_slug : Bool → Str → Bool
matches_slug start [] = not start
matches_slug true (c ∷ s) = is_slug_char c && matches_slug false s
matches_slug false (c ∷ s) =
    (is_slug_char c || (c == b'-')) && matches_slug (not (is_slug_char c)) s

-- ValidSlug
unfoldable pub valid_slug : Str → Bool
unfolding matches_slug
valid_slug s = matches_slug true s

-- The separators that Slugify turns into a dash
abbrev is_separator : Unicode → ℕ → Bool
is_separator u c =
    u.is_space c || (c == b'-') || (c == b'_') || (c == b'.') || (c == b'/') || (c == b'+')

-- The loop of Slugify: the text so far, and `lastDash`
unfoldable pub slugify_loop : Unicode → Str → Bool → Str → Str
slugify_loop u out last_dash [] = out
slugify_loop u out last_dash (c ∷ s) =
    let kept = is_slug_char c in
    let dash = not kept && is_separator u c && not last_dash && not (is_empty out) in
    slugify_loop u (if kept then out ++ c ∷ [] else if dash then out ++ b'-' ∷ [] else out)
      (if kept then false else dash || last_dash) s

unfoldable pub slugify : Unicode → Str → Str
unfolding slugify_loop
slugify u s = trim (λ c. c == b'-') (slugify_loop u [] true (lower u (trim_space u s)))

-- The loop of NormalizeAlias, with `lastSpace`
unfoldable pub alias_loop : Unicode → Str → Bool → Str → Str
alias_loop u out last_space [] = out
alias_loop u out last_space (c ∷ s) =
    let kept = u.is_letter c || u.is_digit c in
    let space = not kept && not last_space && not (is_empty out) in
    alias_loop u (if kept then out ++ c ∷ [] else if space then out ++ b' ' ∷ [] else out)
      (if kept then false else space || last_space) s

unfoldable pub normalize_alias : Unicode → Str → Str
unfolding alias_loop
normalize_alias u s = trim_space u (alias_loop u [] true (lower u (trim_space u s)))
