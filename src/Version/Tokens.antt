-- ===== src/Version/Tokens.antt =====
-- What the tokens of a version keep of it, and their bounds.
use firmscout.Base.{
  append_assoc, append-nil, ℕ, ◌<◌, ◌≡◌, refl, sym, ◌∙◌, Bool, true, false, not, ◌&&◌, ◌||◌, List,
  [], ◌∷◌, ◌++◌, All, All-append, arith, if◌then◌else◌, is_empty, filter_by,
}
use firmscout.Base.Int.{int64_bound}
use firmscout.Base.Text.{Str, Unicode}
use firmscout.Version.{VersionString, Token, parse_int, make_token, flush, tokens_loop, tokens}

-- The text of the tokens, one after the other.
pub contents : List Token → Str
contents [] = []
contents (t ∷ ts) = t.content ++ contents ts

contents-append : (xs ys : List Token) → contents (xs ++ ys) ≡ contents xs ++ contents ys
unfolding contents
contents-append [] ys = refl
contents-append (t ∷ ts) ys = simp (contents-append ts ys, append_assoc)

content-make_token : (s : Str) (numeric : Bool) → (make_token s numeric).content ≡ s
unfolding make_token
content-make_token s false = refl
content-make_token s true = ground arith

contents-flush :
    (cur : Str) (numeric : Bool) (out : List Token)
    → contents (flush cur numeric out) ≡ contents out ++ cur
unfolding flush contents
contents-flush [] numeric out = sym (append-nil (contents out))
contents-flush (c ∷ s) numeric out = simp (contents-append, content-make_token, append-nil)

-- One round of the loop, on the class of its character.
loop_step :
    (d l n : Bool) (r : ℕ) (cur : Str) (out : List Token) (rest : Str)
    → let joins = (d && n) || (not d && l && not n) in
      contents (if joins then out else flush cur n out)
        ++ ((if joins then cur ++ r ∷ [] else if d || l then r ∷ [] else []) ++ rest)
      ≡ contents out ++ (cur ++ (if d || l then r ∷ rest else rest))
loop_step true l true r cur out rest = simp append_assoc
loop_step true l false r cur out rest = simp (contents-flush, append_assoc)
loop_step false true true r cur out rest = simp (contents-flush, append_assoc)
loop_step false true false r cur out rest = simp append_assoc
loop_step false false n r cur out rest = simp (contents-flush, append_assoc)

module _ (u : Unicode) where
  abbrev pub is_token_char : ℕ → Bool
  is_token_char c = u.is_digit c || u.is_letter c

  contents-tokens_loop :
      (s cur : Str) (numeric : Bool) (out : List Token)
      → contents (tokens_loop u cur numeric out s)
        ≡ contents out ++ (cur ++ filter_by is_token_char s)
  unfolding tokens_loop filter_by
  contents-tokens_loop [] cur numeric out = rw append-nil (contents-flush cur numeric out)
  contents-tokens_loop (r ∷ s) cur numeric out =
      contents-tokens_loop s _ _ _
      ∙ loop_step (u.is_digit r) (u.is_letter r) numeric r cur out (filter_by is_token_char s)

  -- Nothing but separators is lost: the tokens, in order, hold the digits and letters of the
  -- normalised version.
  pub contents-tokens :
      (v : VersionString) → contents (tokens u v) ≡ filter_by is_token_char v.normalized
  unfolding tokens contents
  contents-tokens v = contents-tokens_loop v.normalized [] false []

-- A token has a text, and its number, if it has one, is an int64.
pub record IsToken (t : Token) : Type 0 where
  pub content_not_empty : is_empty t.content ≡ false
  pub value_fits : t.numeric ≡ true → t.value < int64_bound

make_token-IsToken : (c : ℕ) (s : Str) (numeric : Bool) → IsToken (make_token (c ∷ s) numeric)
unfolding make_token parse_int
make_token-IsToken c s false = record { content_not_empty = refl; value_fits = λ e. cc }
make_token-IsToken c s true = record {
  content_not_empty = ground arith;
  value_fits = λ e. ground arith;
}

flush-IsToken :
    (cur : Str) (numeric : Bool) (out : List Token)
    → All IsToken out
    → All IsToken (flush cur numeric out)
unfolding flush
flush-IsToken [] numeric out h = h
flush-IsToken (c ∷ s) numeric out h =
    All-append IsToken out (make_token (c ∷ s) numeric ∷ []) h (make_token-IsToken c s numeric, tt)

tokens_loop-IsToken :
    (u : Unicode) (s cur : Str) (numeric : Bool) (out : List Token)
    → All IsToken out
    → All IsToken (tokens_loop u cur numeric out s)
unfolding tokens_loop
tokens_loop-IsToken u [] cur numeric out h = flush-IsToken cur numeric out h
tokens_loop-IsToken u (r ∷ s) cur numeric out h =
    tokens_loop-IsToken u s _ _ _ (kept _ out _ h (flush-IsToken cur numeric out h))
  where
    kept :
        (b : Bool) (xs ys : List Token)
        → All IsToken xs
        → All IsToken ys
        → All IsToken (if b then xs else ys)
    kept true xs ys hx hy = hx
    kept false xs ys hx hy = hy

-- Every token of a version has a text, and its number, if it counts as numeric, fits an int64.
pub tokens-IsToken : (u : Unicode) (v : VersionString) → All IsToken (tokens u v)
unfolding tokens
tokens-IsToken u v = tokens_loop-IsToken u v.normalized [] false [] tt
