-- ===== src/Dates.antt =====
-- The dates of apps/admin-template/core/src/db.rs and backup.rs, and of crates/banto-attachments: days
-- and seconds since 1970-01-01, which no call gives as negative.
mod Tests
pub mod Calendar
use my_template.Prelude.{
  ℕ, suc, ◌+◌, ◌-◌, ◌*◌, ◌/◌, ◌%◌, ◌≡◌, refl, String, ◌<>◌, if◌then◌else◌, ltb, leb, to_string,
  padded,
}

-- A date as the three variables at the end of the conversion.
pub record Civil : Type 0 where
  pub y : ℕ
  pub m : ℕ
  pub d : ℕ

-- The steps of the conversion, by the names of the source. `doe` is the day of the era, `yoe` its year.
unfoldable pub yoe_of : ℕ → ℕ
yoe_of doe = (doe - doe / 1460 + doe / 36524 - doe / 146096) / 365

unfoldable pub doy_of : ℕ → ℕ → ℕ
doy_of doe yoe = doe - (365 * yoe + yoe / 4 - yoe / 100)

-- The day of a year that begins with March, as month and day.
unfoldable pub m_of : ℕ → ℕ
m_of doy = let mp = (5 * doy + 2) / 153 in if ltb mp 10 then mp + 3 else mp - 9

unfoldable pub d_of : ℕ → ℕ
d_of doy = let mp = (5 * doy + 2) / 153 in doy - (153 * mp + 2) / 5 + 1

unfoldable pub civil_of : ℕ → ℕ → ℕ → Civil
unfolding m_of d_of
civil_of era yoe doy = record {
  y = let y = yoe + era * 400 in if leb (m_of doy) 2 then suc y else y;
  m = m_of doy;
  d = d_of doy;
}

unfoldable pub civil_date_from_days_since_epoch : ℕ → Civil
unfolding yoe_of doy_of civil_of
civil_date_from_days_since_epoch days =
    let z = days + 719468 in
    let era = z / 146097 in
    let doe = z - era * 146097 in let yoe = yoe_of doe in civil_of era yoe (doy_of doe yoe)

date_text : Civil → String
unfolding to_string padded
date_text date =
    padded 4 (to_string date.y)
    <> "-"
    <> padded 2 (to_string date.m)
    <> "-"
    <> padded 2 (to_string date.d)

unfoldable pub iso_date_from_days_since_epoch : ℕ → String
unfolding civil_date_from_days_since_epoch date_text
iso_date_from_days_since_epoch days = date_text (civil_date_from_days_since_epoch days)

time_text : ℕ → String
unfolding to_string padded
time_text secs_of_day =
    padded 2 (to_string (secs_of_day / 3600))
    <> ":"
    <> padded 2 (to_string (secs_of_day % 3600 / 60))
    <> ":"
    <> padded 2 (to_string (secs_of_day % 60))

-- A time as the seconds since the epoch; a time before it counts as the epoch itself.
unfoldable pub iso_datetime_from_system_time : ℕ → String
unfolding iso_date_from_days_since_epoch time_text
iso_datetime_from_system_time secs =
    iso_date_from_days_since_epoch (secs / 86400) <> " " <> time_text (secs % 86400)

-- crates/banto-attachments has a text of its own, with `T` and `Z`.
unfoldable pub iso_datetime_utc : ℕ → String
unfolding iso_date_from_days_since_epoch time_text
iso_datetime_utc secs =
    iso_date_from_days_since_epoch (secs / 86400) <> "T" <> time_text (secs % 86400) <> "Z"

iso_example : iso_datetime_from_system_time 1783036799 ≡ "2026-07-02 23:59:59"
unfolding iso_datetime_from_system_time
iso_example = refl
