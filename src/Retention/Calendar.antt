-- ===== src/Retention/Calendar.antt =====
-- The calendar that the GFS tiers of server/internal/backup/retention/service.go take from Go's
-- time package. An instant is the nanoseconds since 1970-01-01 UTC, and its location is taken to be
-- UTC: the source formats a time in the location that the value has, which the server writes as UTC.
-- A period key is the list of the numbers that its formatted text shows, so that two keys are equal
-- when the texts are.
use backup_x.Base.{
  ℕ, ◌+◌, ◌-◌, ◌*◌, ◌/◌, ◌%◌, Bool, ◌&&◌, ◌||◌, not, List, [], ◌∷◌, ltb, leb, ◌==◌, if◌then◌else◌,
}

abbrev pub day_nanos : ℕ
day_nanos = 86400 * 1000000000

-- The day of an instant.
unfoldable pub day_of : ℕ → ℕ
day_of t = t / day_nanos

pub record Date : Type 0 where
  pub year : ℕ
  pub month : ℕ
  pub day : ℕ
  -- The day of the year, from 0.
  pub year_day : ℕ

is_leap : ℕ → Bool
is_leap y = y % 4 == 0 && (not (y % 100 == 0) || y % 400 == 0)

-- The date of a day, by eras of 400 years that begin on a first of March.
unfoldable pub date_of_day : ℕ → Date
unfolding is_leap
date_of_day n =
    let z = n + 719468 in
    let era = z / 146097 in
    let doe = z % 146097 in
    let yoe = (doe + doe / 36524 - doe / 1460 - doe / 146096) / 365 in
    let doy = doe + yoe / 100 - 365 * yoe - yoe / 4 in
    let mp = (5 * doy + 2) / 153 in
    let m = if ltb mp 10 then mp + 3 else mp - 9 in
    let y = yoe + era * 400 + (if leb m 2 then 1 else 0) in
    record {
      year = y;
      month = m;
      day = doy + 1 - (153 * mp + 2) / 5;
      year_day = if leb m 2 then doy - 306 else doy + 59 + (if is_leap y then 1 else 0);
    }

-- t.Format("2006-01-02").
unfoldable pub day_key : ℕ → List ℕ
unfolding date_of_day day_of
day_key t = let d = date_of_day (day_of t) in d.year ∷ d.month ∷ d.day ∷ []

-- isoWeekKey: the year and week of the Thursday of the instant's week. 1970-01-01 was a Thursday.
unfoldable pub iso_week_key : ℕ → List ℕ
unfolding date_of_day day_of
iso_week_key t =
    let n = day_of t in
    let d = date_of_day (n + 3 - (n + 3) % 7) in d.year ∷ (d.year_day / 7 + 1) ∷ []

-- t.Format("2006-01").
unfoldable pub month_key : ℕ → List ℕ
unfolding date_of_day day_of
month_key t = let d = date_of_day (day_of t) in d.year ∷ d.month ∷ []

-- t.Format("2006").
unfoldable pub year_key : ℕ → List ℕ
unfolding date_of_day day_of
year_key t = (date_of_day (day_of t)).year ∷ []
