-- ===== src/Date/Period.antt =====
-- PeriodEnd of internal/domain/partialdate.go: with the anchor it encloses exactly the days that a
-- date may denote.
use firmscout.Base.{
  inl, inr, ◌==◌, ==_iff, Bool-cases, ◌⊎◌, ◌<◌, ℕ, ◌+◌, ◌-◌, ◌*◌, ◌/◌, ◌%◌, ◌≤◌, ◌≡◌, refl, false,
  arith,
}
use firmscout.Date.{
  Civil, civil, days_in_month, time_date, normal_day, DatePrecision, exact_day, month_only,
  year_only, partial_date, period_end,
}
use firmscout.Date.Anchor.{IsDate, days_in_month_bounds}

-- `c` is a day that a date of precision `p` with anchor `a` may denote.
abbrev pub MayBe : DatePrecision → Civil → Civil → Type 0
MayBe exact_day a c = c ≡ a
MayBe month_only a c = IsDate c × (c.year ≡ a.year) × (c.month ≡ a.month)
MayBe year_only a c = IsDate c × (c.year ≡ a.year)
MayBe _ a c = ⊥

-- The anchoring rule, which every constructor keeps.
abbrev pub IsAnchored : DatePrecision → Civil → Type 0
IsAnchored exact_day a = IsDate a
IsAnchored month_only a = IsDate a × (a.day ≡ 1)
IsAnchored year_only a = (1 ≤ a.year) × (a.month ≡ 1) × (a.day ≡ 1)
IsAnchored _ a = ⊥

-- No later day of the calendar, by year, month and day.
abbrev pub NoLater : Civil → Civil → Type 0
NoLater a b =
    (a.year < b.year)
    ⊎ ((a.year ≡ b.year) × ((a.month < b.month) ⊎ ((a.month ≡ b.month) × (a.day ≤ b.day))))

december : (y m : ℕ) → m ≡ 12 → time_date y (m + 1) 0 ≡ civil y m (days_in_month y m)
unfolding time_date normal_day days_in_month
december y m e =
    let year : (y * 12 + (m + 1) - 1) / 12 ≡ y + 1 = omega (arith, e) in
    let month : (y * 12 + (m + 1) - 1) % 12 ≡ 0 = omega (arith, e) in
    let before : y + 1 - 1 ≡ y = omega arith in rw (year, month, before, e) refl

inside : (y m : ℕ) → 1 ≤ m → normal_day y (m + 1) 0 ≡ civil y m (days_in_month y m)
unfolding normal_day
inside y m lo =
    let back : m + 1 - 1 ≡ m = omega arith in
    let later : (m + 1 == 1) ≡ false = ground arith in rw (later, back) refl

-- Day 0 of the month after.
month_end : (y m : ℕ) → 1 ≤ m → m ≤ 12 → time_date y (m + 1) 0 ≡ civil y m (days_in_month y m)
unfolding time_date normal_day
month_end y m lo hi = elim (Bool-cases (m == 12)) [
  | inl e ↦ december y m ((==_iff m 12).0 e)
  | inr e ↦
      let year : (y * 12 + (m + 1) - 1) / 12 ≡ y = ground arith in
      let month : (y * 12 + (m + 1) - 1) % 12 ≡ m = ground arith in rw (year, month) (inside y m lo)
]

year_end : (y : ℕ) → 1 ≤ y → time_date (y + 1) 1 0 ≡ civil y 12 31
unfolding time_date normal_day
year_end y h =
    let year : ((y + 1) * 12 + 1 - 1) / 12 ≡ y + 1 = omega arith in
    let month : ((y + 1) * 12 + 1 - 1) % 12 ≡ 0 = omega arith in
    let before : y + 1 - 1 ≡ y = omega arith in rw (year, month, before) refl

-- Every day that a date may denote lies between its anchor and PeriodEnd, both of which are such
-- days.
pub period_end_encloses :
    (p : DatePrecision) (a c : Civil)
    → IsAnchored p a
    → 1 ≤ a.year
    → MayBe p a c
    → NoLater a c
      × NoLater c (period_end (partial_date a p))
      × MayBe p a (period_end (partial_date a p))
unfolding period_end
period_end_encloses exact_day a c h one m = (ground arith, ground arith, refl)
period_end_encloses month_only a c h one m =
    let zeroth : a.day - 1 ≡ 0 = omega (arith, h.1) in
    let end = month_end a.year a.month h.0.month_in.0 h.0.month_in.1 in
    let days = days_in_month_bounds a.year a.month in
    let fits = m.0.day_in in
    rw (zeroth, end)
      (
        ground arith,
        ground arith,
        (record { month_in = h.0.month_in; day_in = (ground arith, ground arith) }, refl, refl),
      )
period_end_encloses year_only a c h one m =
    let zeroth : a.day - 1 ≡ 0 = omega (arith, h.2) in
    let end : time_date (a.year + 1) 1 0 ≡ civil a.year 12 31 = year_end a.year one in
    let fits = m.0.day_in in
    let months = m.0.month_in in
    let days = days_in_month_bounds c.year c.month in
    rw (zeroth, h.1, end)
      (
        ground arith,
        ground arith,
        (
          record {
            month_in = (omega arith, omega arith);
            day_in = (omega arith, unfold days_in_month in omega arith);
          },
          refl,
        ),
      )
period_end_encloses DatePrecision.unknown a c h one m = absurd h
period_end_encloses (DatePrecision.unlisted s) a c h one m = absurd h
