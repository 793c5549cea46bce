-- ===== src/Base/Text.antt =====
-- Go strings as lists of code points (a string is taken to be valid UTF-8), and what the source
-- uses of package strings. The tables of package unicode are a parameter, `Unicode`.
use Prim.Native.Nat.{zero, suc, ◌/◌, ◌%◌, ℕ, ◌+◌, ◌-◌, ◌<◌}
use Prim.Native.Char.{code}
use Prim.Native.String.{String}
use mathlib.Core.Path.{◌≡◌, refl}
use mathlib.Core.Logic.{◌↔◌}
use mathlib.Core.Bool.{Bool, true, false, ◌&&◌, ◌||◌}
use mathlib.Core.List.{List, [], ◌∷◌, ◌++◌, map, reverse}
use native.Mathlib.Omega.{arith}
use firmscout.Base.Tests.{ltb, leb, ◌==◌, if◌then◌else◌, ==_refl}
use firmscout.Base.Lists.{is_empty, length, drop}
use mathlib.Core.Option.{Option, none, some}

abbrev pub Str : Type 0
Str = List ℕ

-- A literal. It stays shut in proofs, and unfolds in tests.
unfoldable pub text : String → Str
text String.[] = []
text (String.◌∷◌ c s) = code c ∷ text s

-- The operator `==` on strings.
unfoldable pub str_eq : Str → Str → Bool
str_eq [] [] = true
str_eq (a ∷ s) (b ∷ t) = (a == b) && str_eq s t
str_eq _ _ = false

pub str_eq_sound : (s t : Str) → str_eq s t ≡ true → s ≡ t
unfolding str_eq
str_eq_sound [] [] h = refl
str_eq_sound [] (b ∷ t) h = cc
str_eq_sound (a ∷ s) [] h = cc
str_eq_sound (a ∷ s) (b ∷ t) h = ground (arith, str_eq_sound s t)

pub str_eq_refl : (s : Str) → str_eq s s ≡ true
unfolding str_eq
str_eq_refl [] = refl
str_eq_refl (a ∷ s) = rw (==_refl a) (str_eq_refl s)

pub str_eq_iff : (s t : Str) → (str_eq s t ≡ true) ↔ (s ≡ t)
str_eq_iff s t = (str_eq_sound s t, λ e. rw e (str_eq_refl t))

-- The bytes of a code point in UTF-8, and Go's `len` of a string.
unfoldable pub rune_len : ℕ → ℕ
rune_len c = if ltb c 0x80 then 1 else if ltb c 0x800 then 2 else if ltb c 0x10000 then 3 else 4

unfoldable pub byte_len : Str → ℕ
unfolding rune_len
byte_len [] = 0
byte_len (c ∷ s) = rune_len c + byte_len s

pub byte_len-append : (s t : Str) → byte_len (s ++ t) ≡ byte_len s + byte_len t
unfolding byte_len
byte_len-append [] t = omega arith
byte_len-append (c ∷ s) t = omega (arith, byte_len-append s t)

-- strings.HasPrefix
unfoldable pub has_prefix : Str → Str → Bool
has_prefix s [] = true
has_prefix [] (b ∷ t) = false
has_prefix (a ∷ s) (b ∷ t) = (a == b) && has_prefix s t

-- strings.HasSuffix
unfoldable pub has_suffix : Str → Str → Bool
unfolding str_eq
has_suffix s t = leb (length t) (length s) && str_eq (drop (length s - length t) s) t

-- strings.Index, none for -1
unfoldable pub index : Str → Str → Option ℕ
unfolding has_prefix
index [] t = if is_empty t then some 0 else none
index (c ∷ s) t =
    let later = index s t in
    if has_prefix (c ∷ s) t then some 0 else elim later [ none ↦ none | some i ↦ some (suc i) ]

-- A piece put before the first one
abbrev pub put_first : ℕ → List Str → List Str
put_first c [] = (c ∷ []) ∷ []
put_first c (piece ∷ rest) = (c ∷ piece) ∷ rest

-- strings.Split with a separator of one code point
unfoldable pub split : ℕ → Str → List Str
split sep [] = [] ∷ []
split sep (c ∷ s) = let rest = split sep s in if c == sep then [] ∷ rest else put_first c rest

-- What stands before and after the first place of a byte, by strings.IndexByte and slices
unfoldable pub cut_byte : ℕ → Str → Option (Str × Str)
cut_byte sep [] = none
cut_byte sep (c ∷ s) =
    let rest = cut_byte sep s in
    if c == sep then some ([], s) else elim rest [ none ↦ none | some (a, b) ↦ some (c ∷ a, b) ]

-- strings.Join
unfoldable pub join : Str → List Str → Str
join sep [] = []
join sep (s ∷ []) = s
join sep (s ∷ t ∷ ss) = s ++ (sep ++ join sep (t ∷ ss))

-- strconv.Itoa of a non-negative number; `n + 1` rounds are more than its digits
unfoldable pub decimal_loop : ℕ → ℕ → Str → Str
decimal_loop zero n acc = acc
decimal_loop (suc rounds) n acc =
    let rest = decimal_loop rounds (n / 10) ((n % 10 + b'0') ∷ acc) in
    if ltb n 10 then (n + b'0') ∷ acc else rest

unfoldable pub decimal : ℕ → Str
unfolding decimal_loop
decimal n = decimal_loop (n + 1) n []

-- strings.TrimLeftFunc, and strings.TrimFunc
unfoldable pub trim_left : (ℕ → Bool) → Str → Str
trim_left p [] = []
trim_left p (c ∷ s) = let rest = trim_left p s in if p c then rest else c ∷ s

unfoldable pub trim : (ℕ → Bool) → Str → Str
unfolding trim_left
trim p s = reverse (trim_left p (reverse (trim_left p s)))

-- The tables of package unicode that the source reads.
pub record Unicode : Type 0 where
  pub is_space : ℕ → Bool
  pub is_letter : ℕ → Bool
  pub is_digit : ℕ → Bool
  pub to_lower : ℕ → ℕ

abbrev pub is_lower_ascii : ℕ → Bool
is_lower_ascii c = leb b'a' c && leb c b'z'

abbrev pub is_upper_ascii : ℕ → Bool
is_upper_ascii c = leb b'A' c && leb c b'Z'

abbrev pub is_digit_ascii : ℕ → Bool
is_digit_ascii c = leb b'0' c && leb c b'9'

abbrev pub is_space_ascii : ℕ → Bool
is_space_ascii c = (leb 9 c && leb c 13) || (c == 32)

-- What package unicode documents: the tables below U+0080, the classes apart, and lower case
-- kept by lowering.
pub record IsUnicode (u : Unicode) : Type 0 where
  pub space_ascii : (c : ℕ) → c < 0x80 → u.is_space c ≡ is_space_ascii c
  pub digit_ascii : (c : ℕ) → c < 0x80 → u.is_digit c ≡ is_digit_ascii c
  pub letter_ascii : (c : ℕ) → c < 0x80 → u.is_letter c ≡ (is_lower_ascii c || is_upper_ascii c)
  pub lower_ascii : (c : ℕ) → c < 0x80 → u.to_lower c ≡ (if is_upper_ascii c then c + 32 else c)
  pub lower_idem : (c : ℕ) → u.to_lower (u.to_lower c) ≡ u.to_lower c
  pub space_lower : (c : ℕ) → u.is_space (u.to_lower c) ≡ u.is_space c

-- An instance: the tables of ASCII.
abbrev pub ascii : Unicode
ascii = record {
  is_space = is_space_ascii;
  is_letter = λ c. is_lower_ascii c || is_upper_ascii c;
  is_digit = is_digit_ascii;
  to_lower = λ c. if is_upper_ascii c then c + 32 else c;
}

pub ascii-IsUnicode : IsUnicode ascii
ascii-IsUnicode = record {
  space_ascii = λ c h. refl;
  digit_ascii = λ c h. refl;
  letter_ascii = λ c h. refl;
  lower_ascii = λ c h. refl;
  lower_idem = λ c. ground arith;
  space_lower = λ c. ground arith;
}

module _ (u : Unicode) where
  -- strings.TrimSpace and strings.ToLower
  unfoldable pub trim_space : Str → Str
  unfolding trim
  trim_space s = trim u.is_space s

  unfoldable pub lower : Str → Str
  lower s = map u.to_lower s

  -- `strings.TrimSpace(s) == ""`, by which the code tests that a field is not blank
  unfoldable pub is_blank : Str → Bool
  unfolding trim_space
  is_blank s = is_empty (trim_space s)
