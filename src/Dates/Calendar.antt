-- ===== src/Dates/Calendar.antt =====
-- The conversion of a day against the Gregorian calendar, day by day.
use mathlib.Core.Path.{subst}
use my_template.Prelude.{
  ℕ, zero, suc, ap, ◌+◌, ◌-◌, ◌*◌, ◌/◌, ◌%◌, ◌<◌, ◌≡◌, refl, sym, ◌∙◌, ◌⊎◌, inl, inr, ◌==◌, Bool,
  true, ◌&&◌, ◌||◌, not, arith, ltb, leb, Bool-cases, if◌then◌else◌,
}
use my_template.Dates.{
  Civil, yoe_of, doy_of, m_of, d_of, civil_of, civil_date_from_days_since_epoch,
}

abbrev pub is_leap_year : ℕ → Bool
is_leap_year y = (y % 4 == 0) && (not (y % 100 == 0) || y % 400 == 0)

abbrev pub month_len : ℕ → ℕ → ℕ
month_len y m =
    if m == 2
    then (if is_leap_year y then 29 else 28)
    else if m == 4 || m == 6 || m == 9 || m == 11
    then 30
    else 31

-- The date of the next day.
abbrev pub next_day : Civil → Civil
next_day c =
    if ltb c.d (month_len c.y c.m)
    then record { y = c.y; m = c.m; d = suc c.d }
    else if c.m == 12
    then record { y = suc c.y; m = 1; d = 1 }
    else record { y = c.y; m = suc c.m; d = 1 }

-- The last day of the year that begins in March.
abbrev last : ℕ → ℕ
last yoe = if is_leap_year (suc yoe) then 365 else 364

year_step :
    (doe : ℕ)
    → suc doe < 146097
    → ((yoe_of (suc doe) ≡ yoe_of doe)
        × (doy_of (suc doe) (yoe_of (suc doe)) ≡ suc (doy_of doe (yoe_of doe)))
        × (doy_of doe (yoe_of doe) < last (yoe_of doe)))
      ⊎ ((yoe_of (suc doe) ≡ suc (yoe_of doe))
          × (doy_of (suc doe) (yoe_of (suc doe)) ≡ 0)
          × (doy_of doe (yoe_of doe) ≡ last (yoe_of doe)))
unfolding yoe_of doy_of
year_step doe lt = ground arith

all_below : ℕ → (ℕ → Bool) → Bool
all_below zero p = true
all_below (suc n) p = p n && all_below n p

all_below-lt : (n : ℕ) (p : ℕ → Bool) (i : ℕ) → all_below n p ≡ true → i < n → p i ≡ true
unfolding all_below
all_below-lt zero p i h lt = absurd (omega arith)
all_below-lt (suc n) p i h lt = elim (Bool-cases (i == n)) [
  | inl e ↦ ground (arith, ap p (same e))
  | inr e ↦ all_below-lt n p i (ground arith) (ground arith)
]
  where
    same : i == n ≡ true → i ≡ n
    same e = ground arith

-- Month and day of the next day, in a year that is long or not, up to its last day.
abbrev steps : ℕ → ℕ → Bool
steps february doy =
    let m = m_of doy in
    let d = d_of doy in
    let len =
      if m == 2 then february else if m == 4 || m == 6 || m == 9 || m == 11 then 30 else 31 in
    if ltb d len
    then m_of (suc doy) == m && d_of (suc doy) == suc d && not (m == 2 && leb len d)
    else if m == 12
    then m_of (suc doy) == 1 && d_of (suc doy) == 1
    else m_of (suc doy) == suc m && d_of (suc doy) == 1 && not (m == 2)

short_years : all_below 364 (steps 28) ≡ true
unfolding all_below m_of d_of
short_years = refl

long_years : all_below 365 (steps 29) ≡ true
unfolding all_below m_of d_of
long_years = refl

-- The date of month and day in a year that begins in March, the year `y` of that March.
abbrev dated : ℕ → ℕ → ℕ → Civil
dated y m d = record { y = if leb m 2 then suc y else y; m = m; d = d }

abbrev february : ℕ → ℕ
february y = if is_leap_year (suc y) then 29 else 28

-- The length that `steps` takes is that of the calendar.
len_of : ℕ → ℕ → ℕ
len_of feb m = if m == 2 then feb else if m == 4 || m == 6 || m == 9 || m == 11 then 30 else 31

len_of-month_len : (y m : ℕ) → month_len (if leb m 2 then suc y else y) m ≡ len_of (february y) m
unfolding len_of
len_of-month_len y m = elim (Bool-cases (m == 2)) [ inl e ↦ rw (e, two e) refl | inr e ↦ rw e refl ]
  where
    two : m == 2 ≡ true → leb m 2 ≡ true
    two e = ground arith

abbrev date : ℕ → ℕ → ℕ → Civil
date y m d = record { y = y; m = m; d = d }

same_date : (y y' m m' d d' : ℕ) → y ≡ y' → m ≡ m' → d ≡ d' → date y m d ≡ date y' m' d'
same_date y y' m m' d d' e f g = rw (e, f, g) refl

dated-next_day :
    (y m d m' d' : ℕ)
    → (if ltb d (len_of (february y) m)
        then m' == m && d' == suc d && not (m == 2 && leb (len_of (february y) m) d)
        else if m == 12
        then m' == 1 && d' == 1
        else m' == suc m && d' == 1 && not (m == 2))
      ≡ true
    → dated y m' d' ≡ next_day (dated y m d)
dated-next_day y m d m' d' h =
    rw (len_of-month_len y m) (elim (Bool-cases (ltb d (len_of (february y) m))) [
      | inl e ↦ rw e (same (ground arith) (ground arith))
      | inr e ↦ elim (Bool-cases (m == 12)) [
        | inl f ↦ rw (e, f) (same_date _ _ _ _ _ _ (ground arith) (ground arith) (ground arith))
        | inr f ↦ rw (e, f) (same_date _ _ _ _ _ _ (ground arith) (ground arith) (ground arith))
      ]
    ])
  where
    same :
        m' ≡ m
        → d' ≡ suc d
        → dated y m' d' ≡ record { y = if leb m 2 then suc y else y; m = m; d = suc d }
    same e f = rw (e, f) refl

year_days :
    (y yoe doy : ℕ)
    → is_leap_year (suc y) ≡ is_leap_year (suc yoe)
    → doy < last yoe
    → steps (february y) doy ≡ true
year_days y yoe doy same lt = rw same (elim (Bool-cases (is_leap_year (suc yoe))) [
  | inl e ↦ rw e (
      all_below-lt 365 (steps 29) doy long_years (subst (λ b. doy < (if b then 365 else 364)) e lt))
  | inr e ↦ rw e (
      all_below-lt 364 (steps 28) doy short_years
        (subst (λ b. doy < (if b then 365 else 364)) e lt))
])

leap_cycle : (era yoe : ℕ) → is_leap_year (suc (yoe + era * 400)) ≡ is_leap_year (suc yoe)
leap_cycle era yoe = rw (four, hundred, four_hundred) refl
  where
    four : suc (yoe + era * 400) % 4 ≡ suc yoe % 4
    four = omega arith

    hundred : suc (yoe + era * 400) % 100 ≡ suc yoe % 100
    hundred = omega arith

    four_hundred : suc (yoe + era * 400) % 400 ≡ suc yoe % 400
    four_hundred = omega arith

same_year :
    (era yoe doy : ℕ)
    → doy < last yoe
    → civil_of era yoe (suc doy) ≡ next_day (civil_of era yoe doy)
unfolding civil_of len_of
same_year era yoe doy lt =
    dated-next_day (yoe + era * 400) (m_of doy) (d_of doy) (m_of (suc doy)) (d_of (suc doy))
      (year_days (yoe + era * 400) yoe doy (leap_cycle era yoe) lt)

new_year : (era yoe : ℕ) → date (suc (yoe + era * 400)) 3 1 ≡ next_day (civil_of era yoe (last yoe))
unfolding civil_of m_of d_of
new_year era yoe = elim (Bool-cases (is_leap_year (suc yoe))) [
  | inl e ↦ rw (e, leap_cycle era yoe, e) refl
  | inr e ↦ rw (e, leap_cycle era yoe, e) refl
]

abbrev at : ℕ → ℕ → Civil
at era doe = civil_of era (yoe_of doe) (doy_of doe (yoe_of doe))

first_day : (era yoe : ℕ) → civil_of era (suc yoe) 0 ≡ date (suc (yoe + era * 400)) 3 1
unfolding civil_of m_of d_of
first_day era yoe = same_date _ _ _ _ _ _ (omega arith) refl refl

same_era : (era doe : ℕ) → suc doe < 146097 → at era (suc doe) ≡ next_day (at era doe)
same_era era doe lt = elim (year_step doe lt) [
  | inl (yoe, doy, before) ↦
      ap (λ y. civil_of era y (doy_of (suc doe) (yoe_of (suc doe)))) yoe
      ∙ ap (civil_of era (yoe_of doe)) doy
      ∙ same_year era (yoe_of doe) (doy_of doe (yoe_of doe)) before
  | inr (yoe, doy, ends) ↦
      ap (λ y. civil_of era y (doy_of (suc doe) (yoe_of (suc doe)))) yoe
      ∙ ap (civil_of era (suc (yoe_of doe))) doy
      ∙ first_day era (yoe_of doe)
      ∙ new_year era (yoe_of doe)
      ∙ ap (λ doy. next_day (civil_of era (yoe_of doe) doy)) (sym ends)
]

new_era : (era : ℕ) → at (suc era) 0 ≡ next_day (at era 146096)
unfolding yoe_of doy_of civil_of m_of d_of
new_era era = same_date _ _ _ _ _ _ (omega arith) refl refl ∙ new_year era 399

abbrev on : ℕ → Civil
on z = at (z / 146097) (z - z / 146097 * 146097)

on-next_day : (z : ℕ) → on (suc z) ≡ next_day (on z)
on-next_day z = elim (Bool-cases (ltb (suc (z - z / 146097 * 146097)) 146097)) [
  | inl e ↦
      moved (z / 146097) (suc (z - z / 146097 * 146097)) (ground arith) (ground arith)
      ∙ same_era (z / 146097) (z - z / 146097 * 146097) (ground arith)
  | inr e ↦
      moved (suc (z / 146097)) 0 (ground arith) (ground arith)
      ∙ new_era (z / 146097)
      ∙ ap (λ doe. next_day (at (z / 146097) doe)) (ground arith)
]
  where
    moved :
        (era doe : ℕ)
        → suc z / 146097 ≡ era
        → suc z - suc z / 146097 * 146097 ≡ doe
        → on (suc z) ≡ at era doe
    moved era doe e f = ap (λ d. at (suc z / 146097) d) f ∙ ap (λ q. at q doe) e

-- The first day is 1970-01-01, and the date of each day is that of the day before moved on by one day of
-- the Gregorian calendar.
pub civil_date_from_days_since_epoch-next_day :
    (days : ℕ)
    → (civil_date_from_days_since_epoch 0 ≡ record { y = 1970; m = 1; d = 1 })
      × (civil_date_from_days_since_epoch (suc days)
          ≡ next_day (civil_date_from_days_since_epoch days))
unfolding civil_date_from_days_since_epoch yoe_of doy_of civil_of m_of d_of
civil_date_from_days_since_epoch-next_day days = (refl, ap on shift ∙ on-next_day (days + 719468))
  where
    shift : suc days + 719468 ≡ suc (days + 719468)
    shift = omega arith
