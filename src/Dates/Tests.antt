-- ===== src/Dates/Tests.antt =====
-- The calendar at the leap day of the year 2000.
use my_template.Prelude.{◌≡◌, suc}
use my_template.Dates.{civil_date_from_days_since_epoch}
use my_template.Dates.Calendar.{next_day, civil_date_from_days_since_epoch-next_day}

civil_date_from_days_since_epoch-next_day_example :
    (civil_date_from_days_since_epoch 0 ≡ record { y = 1970; m = 1; d = 1 })
    × (civil_date_from_days_since_epoch (suc 11015)
        ≡ next_day (civil_date_from_days_since_epoch 11015))
civil_date_from_days_since_epoch-next_day_example = civil_date_from_days_since_epoch-next_day 11015
