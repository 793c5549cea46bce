-- ===== src/Date/Anchor.antt =====
-- The constructors of PartialDate: which dates they accept, and where they anchor them.
use firmscout.Base.{
  sym, ap, ◌∙◌, subst, ℕ, zero, suc, ◌+◌, ◌*◌, ◌-◌, ◌/◌, ◌%◌, ◌≤◌, ◌≡◌, refl, ◌↔◌, ltb, ◌==◌, arith,
  if◌then◌else◌, Bool-cases, inl, inr,
}
use firmscout.Base.Go.{ok}
use firmscout.Date.{
  Civil, civil, days_in_month, carry_days, normal_day, time_date, PartialDate, partial_date,
  exact_day, month_only, year_only, new_exact_date, new_month_date, new_year_date,
}

-- A day of the calendar.
pub record IsDate (c : Civil) : Type 0 where
  pub month_in : (1 ≤ c.month) × (c.month ≤ 12)
  pub day_in : (1 ≤ c.day) × (c.day ≤ days_in_month c.year c.month)

-- The years that the constructors accept.
abbrev pub InYears : ℕ → Type 0
InYears y = (1970 ≤ y) × (y ≤ 2200)

pub days_in_month_bounds : (y m : ℕ) → (28 ≤ days_in_month y m) × (days_in_month y m ≤ 31)
unfolding days_in_month
days_in_month_bounds y m = ground arith

carry_days-fixed : (n y m d : ℕ) → d ≤ days_in_month y m → carry_days n y m d ≡ civil y m d
unfolding carry_days
carry_days-fixed zero y m d h = refl
carry_days-fixed (suc n) y m d h = ground arith

-- The days that carry_days makes are days of the calendar, given as many rounds as days.
carry_days-IsDate : (n y m d : ℕ) → d ≤ n → 1 ≤ d → 1 ≤ m → m ≤ 12 → IsDate (carry_days n y m d)
unfolding carry_days
carry_days-IsDate zero y m d h d1 m1 m2 = absurd (omega arith)
carry_days-IsDate (suc n) y m d h d1 m1 m2 = elim (Bool-cases (ltb (days_in_month y m) d)) [
  | inr fits ↦ rw fits (record { month_in = (m1, m2); day_in = (d1, ground arith) })
  | inl past ↦ rw past (
      carry_days-IsDate n (if m == 12 then y + 1 else y) (if m == 12 then 1 else m + 1)
        (d - days_in_month y m) (ground (arith, days_in_month_bounds y m)) (ground arith)
        (ground arith) (ground arith))
]

normal_day-IsDate : (y m d : ℕ) → 1 ≤ m → m ≤ 12 → IsDate (normal_day y m d)
unfolding normal_day
normal_day-IsDate y m zero m1 m2 = elim (Bool-cases (m == 1)) [
  | inl first ↦
      rw first (record { month_in = omega arith; day_in = unfold days_in_month in omega arith })
  | inr later ↦
      rw later (record {
        month_in = ground arith;
        day_in = ground (arith, days_in_month_bounds y (m - 1));
      })
]
normal_day-IsDate y m (suc d) m1 m2 =
    carry_days-IsDate (suc d) y m (suc d) (omega arith) (omega arith) m1 m2

time_date-IsDate : (y m d : ℕ) → IsDate (time_date y m d)
unfolding time_date
time_date-IsDate y m d =
    let months = y * 12 + m - 1 in
    normal_day-IsDate (months / 12) (months % 12 + 1) d (omega arith) (omega arith)

-- time.Date keeps a day of the calendar.
pub time_date-fixed : (y m d : ℕ) → IsDate (civil y m d) → time_date y m d ≡ civil y m d
unfolding time_date normal_day
time_date-fixed y m zero h = absurd (omega (arith, h.day_in))
time_date-fixed y m (suc d) h =
    let same_year : (y * 12 + m - 1) / 12 ≡ y = omega (arith, h.month_in) in
    let same_month : (y * 12 + m - 1) % 12 + 1 ≡ m = omega (arith, h.month_in) in
    rw (same_year, same_month) (carry_days-fixed (suc d) y m (suc d) h.day_in.1)

exact_inversion :
    (y m d : ℕ) (t : PartialDate)
    → new_exact_date y m d ≡ ok t
    → InYears y × (time_date y m d ≡ civil y m d) × (t ≡ partial_date (time_date y m d) exact_day)
unfolding new_exact_date
exact_inversion y m d t e = ground arith

exact_accepted :
    (y m d : ℕ)
    → InYears y
    → time_date y m d ≡ civil y m d
    → new_exact_date y m d ≡ ok (partial_date (time_date y m d) exact_day)
unfolding new_exact_date
exact_accepted y m d h e = ground arith

-- NewExactDate accepts exactly the days of the calendar in the years 1970 to 2200, and keeps
-- them.
pub new_exact_date_iff :
    (y m d : ℕ) (t : PartialDate)
    → (new_exact_date y m d ≡ ok t)
      ↔ (InYears y × IsDate (civil y m d) × (t ≡ partial_date (civil y m d) exact_day))
new_exact_date_iff y m d t = (
  λ e.
      let (years, kept, is) = exact_inversion y m d t e in
      (
        years,
        subst IsDate kept (time_date-IsDate y m d),
        is ∙ ap (λ (c : Civil). partial_date c exact_day) kept,
      ),
  λ h.
      let kept = time_date-fixed y m d h.1 in
      exact_accepted y m d h.0 kept
      ∙ ap (λ (c : Civil). ok (partial_date c exact_day)) kept
      ∙ ap (λ (p : PartialDate). ok p) (sym h.2),
)

january : (y : ℕ) → IsDate (civil y 1 1)
unfolding days_in_month
january y = record { month_in = omega arith; day_in = omega arith }

first_of_month : (y m : ℕ) → 1 ≤ m → m ≤ 12 → IsDate (civil y m 1)
first_of_month y m lo hi = record {
  month_in = (lo, hi);
  day_in = omega (arith, days_in_month_bounds y m);
}

-- NewMonthDate accepts exactly the months of the years 1970 to 2200, and anchors on day 1;
-- NewYearDate accepts exactly those years, and anchors on 1 January.
pub new_month_and_year_date_iff :
    (y m : ℕ) (t : PartialDate)
    → ((new_month_date y m ≡ ok t)
        ↔ (InYears y × ((1 ≤ m) × (m ≤ 12)) × (t ≡ partial_date (civil y m 1) month_only)))
      × ((new_year_date y ≡ ok t) ↔ (InYears y × (t ≡ partial_date (civil y 1 1) year_only)))
unfolding new_month_date new_year_date
new_month_and_year_date_iff y m t =
    let first = time_date-fixed y m 1 in
    let jan = time_date-fixed y 1 1 (january y) in
    (
      (
        λ e. ground (arith, first (first_of_month y m (ground arith) (ground arith))),
        λ h. ground (arith, first (first_of_month y m h.1.0 h.1.1)),
      ),
      (λ e. ground (arith, jan), λ h. ground (arith, jan)),
    )
