-- ===== src/Version.antt =====
-- internal/domain/version.go: version strings as published and as compared, their tokens, and the
-- plausibility of a transition. There is no order on versions here either.
pub mod Normal
pub mod Tokens
pub mod Transition
use firmscout.Base.{
  ℕ, zero, suc, ◌+◌, ◌*◌, ◌-◌, Bool, true, false, not, ◌&&◌, ◌||◌, List, [], ◌∷◌, ◌++◌, Option,
  none, some, ltb, leb, ◌==◌, if◌then◌else◌, is_empty,
}
use firmscout.Base.Int.{ℤ, pos, negsuc, ltb_ℤ, int64_bound}
use firmscout.Base.Text.{
  decimal, Str, text, str_eq, Unicode, trim_space, lower, byte_len, join, is_digit_ascii,
}
use firmscout.Base.Go.{Error, invalid, Result, ok, err}

pub record VersionString : Type 0 where
  pub raw : Str
  pub normalized : Str

-- the zero value
abbrev pub no_version : VersionString
no_version = record { raw = []; normalized = [] }

-- strings.Fields: the maximal runs without spaces; `cur` is the run being read
unfoldable pub close_field : Str → List Str → List Str
close_field [] rest = rest
close_field (c ∷ s) rest = (c ∷ s) ∷ rest

unfoldable pub fields_from : Unicode → Str → Str → List Str
unfolding close_field
fields_from u cur [] = close_field cur []
fields_from u cur (c ∷ s) =
    let rest = fields_from u [] s in
    let longer = fields_from u (cur ++ c ∷ []) s in
    if u.is_space c then close_field cur rest else longer

unfoldable pub fields : Unicode → Str → List Str
unfolding fields_from
fields u s = fields_from u [] s

unfoldable pub default_normalize_version : Unicode → Str → Str
default_normalize_version u s = join (text " ") (fields u (lower u s))

unfoldable pub new_version_string : Unicode → Str → Result VersionString
new_version_string u raw =
    let trimmed = trim_space u raw in
    if is_empty trimmed
    then err (invalid "version" "must not be empty")
    else if ltb 200 (byte_len trimmed)
    then err (invalid "version" "exceeds 200 characters")
    else ok (record { raw = trimmed; normalized = default_normalize_version u trimmed })

abbrev with_normalized : Str → Result VersionString → Result VersionString
with_normalized n (err e) = err e
with_normalized n (ok v) =
    if is_empty n
    then err (invalid "normalized_version" "must not be empty")
    else ok (record v { normalized = n })

unfoldable pub new_version_string_with_normalized : Unicode → Str → Str → Result VersionString
unfolding new_version_string
new_version_string_with_normalized u raw normalized =
    with_normalized (trim_space u normalized) (new_version_string u raw)

-- VersionString.Equal and IsZero
unfoldable pub same_version : VersionString → VersionString → Bool
same_version v other = str_eq v.normalized other.normalized

unfoldable pub is_zero_version : VersionString → Bool
is_zero_version v = is_empty v.raw

pub record Token : Type 0 where
  pub content : Str
  pub numeric : Bool
  pub value : ℕ

-- strconv.ParseInt of a run of digits: an error on a digit outside ASCII, or past int64.
unfoldable pub digits_value : ℕ → Str → Option ℕ
digits_value acc [] = some acc
digits_value acc (c ∷ s) =
    let rest = digits_value (acc * 10 + (c - b'0')) s in if is_digit_ascii c then rest else none

unfoldable pub parse_int : Str → Option ℕ
unfolding digits_value
parse_int s = elim (digits_value 0 s) [
  | none ↦ none
  | some n ↦ if ltb n int64_bound then some n else none
]

-- A run that is no int64 is still a token, with no usable number.
unfoldable pub make_token : Str → Bool → Token
unfolding parse_int
make_token s false = record { content = s; numeric = false; value = 0 }
make_token s true = elim (parse_int s) [
  | none ↦ record { content = s; numeric = false; value = 0 }
  | some n ↦ record { content = s; numeric = true; value = n }
]

unfoldable pub flush : Str → Bool → List Token → List Token
flush [] numeric out = out
flush (c ∷ s) numeric out = out ++ make_token (c ∷ s) numeric ∷ []

-- The loop of Tokens: the run being read, whether it is numeric, and the tokens so far.
unfoldable pub tokens_loop : Unicode → Str → Bool → List Token → Str → List Token
tokens_loop u cur numeric out [] = flush cur numeric out
tokens_loop u cur numeric out (r ∷ s) =
    let digit = u.is_digit r in
    let letter = u.is_letter r in
    let joins = (digit && numeric) || (not digit && letter && not numeric) in
    tokens_loop u (if joins then cur ++ r ∷ [] else if digit || letter then r ∷ [] else []) digit
      (if joins then out else flush cur numeric out) s

-- VersionString.Tokens
unfoldable pub tokens : Unicode → VersionString → List Token
tokens u v = tokens_loop u [] false [] v.normalized

unfoldable pub skeleton : List Token → Str
skeleton [] = []
skeleton (t ∷ ts) = (if t.numeric then b'#' ∷ [] else t.content) ++ skeleton ts

unfoldable pub skeleton_display : List Token → Str
unfolding skeleton
skeleton_display ts = if is_empty (skeleton ts) then text "(empty)" else skeleton ts

unfoldable pub first_numeric : List Token → Option ℕ
first_numeric [] = none
first_numeric (t ∷ ts) = let rest = first_numeric ts in if t.numeric then some t.value else rest

pub data Plausibility : Type 0 where
  plausible identical suspicious uncomparable : Plausibility

pub record PlausibilityReport : Type 0 where
  pub verdict : Plausibility
  pub reason : Str

abbrev report : Plausibility → Str → PlausibilityReport
report v r = record { verdict = v; reason = r }

-- int64 addition of a small number, with its wrap-around
unfoldable pub add_int64 : ℕ → ℕ → ℤ
add_int64 a b =
    if ltb (a + b) int64_bound then pos (a + b) else negsuc (2 * int64_bound - 1 - (a + b))

unfoldable pub compare_numbers : Option ℕ → Option ℕ → PlausibilityReport
unfolding add_int64
compare_numbers none vn = report plausible (text "no numeric component to compare")
compare_numbers (some pn) none = report plausible (text "no numeric component to compare")
compare_numbers (some pn) (some vn) =
    if ltb vn pn
    then report suspicious (
        text "leading numeric component decreased from "
        ++ (decimal pn ++ (text " to " ++ decimal vn)))
    else if ltb_ℤ (add_int64 pn 5) (pos vn)
    then report suspicious (
        text "leading numeric component jumped from "
        ++ (decimal pn ++ (text " to " ++ decimal vn)))
    else report plausible (text "consistent with the previously observed version")

-- AssessTransition
unfoldable pub assess_transition : Unicode → VersionString → VersionString → PlausibilityReport
assess_transition u prev v =
    let pt = tokens u prev in
    let vt = tokens u v in
    if is_zero_version prev
    then report plausible (text "no previously observed version for this product and channel")
    else if same_version prev v
    then report identical (text "identical to the previously observed version")
    else if is_empty pt || is_empty vt
    then report uncomparable (text "one of the versions contains no recognisable tokens")
    else if not (str_eq (skeleton pt) (skeleton vt))
    then report uncomparable (
        text "version shape changed from "
        ++ (skeleton_display pt ++ (text " to " ++ skeleton_display vt)))
    else compare_numbers (first_numeric pt) (first_numeric vt)
