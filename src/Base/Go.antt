-- ===== src/Base/Go.antt =====
-- Go's time.Time, time.Duration and float64 as the source uses them, equality tests on enum types,
-- and the errors of internal/domain/errors.go.
use Prim.Native.Nat.{ℕ, ◌*◌, ◌-◌, min}
use Prim.Native.String.{String}
use mathlib.Core.Path.{◌≡◌}
use mathlib.Core.Logic.{◌↔◌}
use mathlib.Core.Bool.{Bool, true, false}
use mathlib.Core.Option.{Option, none, some}
use mathlib.Core.List.{List, [], ◌∷◌}
use native.Mathlib.Omega.{arith}
use firmscout.Base.Tests.{ltb, ◌==◌, if◌then◌else◌}
use firmscout.Base.Int.{ℤ, pos, negsuc, pos_part, sub_ℕ, ◌+ℤ◌, int64_bound}

-- An instant: nanoseconds since Go's zero time, 0001-01-01T00:00:00Z. No earlier instant occurs.
abbrev pub Time : Type 0
Time = ℕ

-- A duration: signed nanoseconds.
abbrev pub Duration : Type 0
Duration = ℤ

abbrev pub second : ℕ
second = 1_000_000_000

abbrev pub minute : ℕ
minute = 60 * second

abbrev pub hour : ℕ
hour = 60 * minute

-- IsZero, Before and After, Add, and Sub with its saturation
abbrev pub is_zero : Time → Bool
is_zero t = t == 0

abbrev pub before : Time → Time → Bool
before a b = ltb a b

unfoldable pub add_time : Time → Duration → Time
unfolding ◌+ℤ◌
add_time t d = pos_part (pos t +ℤ d)

unfoldable pub saturate : ℤ → ℤ
saturate (pos n) = pos (min n (int64_bound - 1))
saturate (negsuc n) = negsuc (min n (int64_bound - 1))

unfoldable pub sub_time : Time → Time → Duration
unfolding saturate
sub_time a b = saturate (sub_ℕ a b)

-- The equality test of a type with decidable equality.
abbrev pub eqb {ℓ} : {A : Type ℓ} → Discrete A → A → A → Bool
eqb dec a b = elim (dec a b) [ yes _ ↦ true | no _ ↦ false ]

pub eqb_iff {ℓ} : {A : Type ℓ} (dec : Discrete A) (a b : A) → (eqb dec a b ≡ true) ↔ (a ≡ b)
eqb_iff dec a b = ground arith

-- float64 is a parameter: the operations of the language and of package math that the source uses.
pub record FloatOps (Float : Type 0) : Type 0 where
  -- float64(n)
  pub of_int : ℤ → Float
  -- int64(f): truncation toward zero; what it gives out of range is the platform's
  pub to_int : Float → ℤ
  pub mul : Float → Float → Float
  -- math.Pow(f, float64(n))
  pub pow : Float → ℕ → Float
  -- `<` and `<=`, false where an operand is NaN
  pub lt : Float → Float → Bool
  pub le : Float → Float → Bool
  -- the constant n / 10^k
  pub decimal : ℕ → ℕ → Float

-- ValidationError with its field and the fixed part of its message, TransitionError with its
-- entity, and the sentinel errors that the modelled code wraps.
pub data Error : Type 0 where
  invalid : String → String → Error
  invalid_transition : String → Error
  not_permitted not_found conflict : Error
  -- the error of a port, wrapped with the text that says which call failed
  port_failed : String → Error

pub data Result {ℓ} (A : Type ℓ) : Type ℓ where
  ok : A → Result A
  err : Error → Result A

infixl 5 ◌>>=◌
abbrev pub ◌>>=◌ {ℓ κ} : {A : Type ℓ} {B : Type κ} → Result A → (A → Result B) → Result B
ok a >>= f = f a
err e >>= f = err e

-- The checks of a `Validate` method in order: each is a test that must fail and the error if it
-- holds.
unfoldable pub first_error : List (Bool × Error) → Option Error
first_error [] = none
first_error ((bad, e) ∷ rest) = let later = first_error rest in if bad then some e else later
