-- ===== src/Examples/Numbers.antt =====
-- An arithmetic that the examples run with: float64 replaced by the whole numbers. A constant is
-- cut to its whole part, and a conversion to int64 out of range gives the least int64.
use native.Mathlib.Numerals.{unary_clauses}
use firmscout.Base.{
  ◌<◌, ℕ, zero, suc, ◌+◌, ◌*◌, ◌-◌, ◌/◌, ◌^◌, ◌≡◌, refl, true, arith, ltb, if◌then◌else◌, ap,
}
use firmscout.Base.Int.{ℤ, pos, negsuc, ltb_ℤ, leb_ℤ, int64_bound}
use firmscout.Base.Go.{FloatOps}
use firmscout.Schedule.Backoff.{ExactDoubling}
use firmscout.Schedule.Spacing.{FractionLaw}
use firmscout.Review.Bands.{UnitLaw}

abbrev negative : ℕ → ℤ
negative zero = pos 0
negative (suc n) = negsuc n

abbrev times : ℤ → ℤ → ℤ
times (pos a) (pos b) = pos (a * b)
times (pos a) (negsuc b) = negative (a * (b + 1))
times (negsuc a) (pos b) = negative ((a + 1) * b)
times (negsuc a) (negsuc b) = pos ((a + 1) * (b + 1))

unfoldable pub power : ℤ → ℕ → ℤ
power a zero = pos 1
power a (suc k) = times a (power a k)

abbrev pub to_int64 : ℤ → ℤ
to_int64 (pos n) = if ltb n int64_bound then pos n else negsuc (int64_bound - 1)
to_int64 (negsuc n) = negsuc (if ltb n int64_bound then n else int64_bound - 1)

instance abbrev pub whole : FloatOps ℤ
whole = record {
  of_int = λ z. z;
  to_int = to_int64;
  mul = times;
  pow = power;
  lt = ltb_ℤ;
  le = leb_ℤ;
  decimal = λ n k. pos (n / 10 ^ k);
}

doubled : (k : ℕ) → 2 * 2 ^ k ≡ 2 ^ suc k
doubled k = let e : 2 ^ suc k ≡ 2 ^ k * 2 = simp unary_clauses in omega (arith, e)

power_two : (k : ℕ) → power (pos 2) k ≡ pos (2 ^ k)
unfolding power
power_two zero = refl
power_two (suc k) = rw (power_two k) (ap (λ (n : ℕ). pos n) (doubled k))

ltb_of : {m n : ℕ} → m < n → ltb m n ≡ true
ltb_of h = ground arith

-- The constant 0.5 is cut to 0.
none_left : (x : ℤ) → to_int64 (times x (pos 0)) ≡ pos 0
none_left (pos m) = let e : m * 0 ≡ 0 = omega arith in rw e refl
none_left (negsuc m) = let e : (m + 1) * 0 ≡ 0 = omega arith in rw e refl

pub whole-ExactDoubling : ExactDoubling whole
whole-ExactDoubling = record {
  exact = λ n. pos n;
  of_int_exact = λ n h. refl;
  mul_pow = λ n k h few. rw (power_two k) refl;
  to_int_in_range = λ n k h room. rw (ltb_of room) refl;
  to_int_overflow = λ n past. ground arith;
}

pub whole-FractionLaw : FractionLaw whole
whole-FractionLaw = record {
  fraction = λ n f lo hi. (0, none_left (times (pos n) f));
  tenth = refl;
}

pub whole-UnitLaw : UnitLaw whole
whole-UnitLaw = record {
  zero_zero = refl;
  one_zero = refl;
  one_one = refl;
  percent = λ f lo hi. ground arith;
}
