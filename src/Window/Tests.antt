-- ===== src/Window/Tests.antt =====
-- Configurations of maintenance windows (server/internal/backup/window.go).
use backup_x.Base.{◌≡◌, refl, ◌↔◌, true, [], ◌∷◌, none, some, arith, All, length}
use backup_x.Base.Text.{
  Text, codes, text_eq, trim_space, to_lower, cut_prefix, split_on, split_first,
}
use backup_x.Window.{
  MaintenanceWindow, digits_value, unsigned_value, atoi, clock_number, parse_hhmm, parse_time_range,
  lookup_token, parse_day_token, add_day, add_days, parse_field, parse_fields, window_of,
  parse_single_window, segments_of, parse_segments, parse_maintenance_windows, invalid_segment,
  validate_maintenance_windows, admits, admitted, is_within_window,
}
use backup_x.Window.Hours.{IsValid, on_arc, on_some_arc, is_within_window-eq-arc}
use backup_x.Window.Parse.{
  parse_maintenance_windows-IsValid, config_segments, validate-length-parse,
  parse_single_window_no_time,
}

-- Every night from 22:00 to 06:00.
abbrev night : MaintenanceWindow
night = record { days = []; start_minutes = 1320; end_minutes = 360 }

night-IsValid : All IsValid (night ∷ [])
night-IsValid = (record { start_valid = omega arith; end_valid = omega arith; days_valid = tt }, tt)

is_within_window-eq-arc_example : is_within_window 1 30 (night ∷ []) ≡ true
unfolding on_some_arc on_arc
is_within_window-eq-arc_example =
    is_within_window-eq-arc (night ∷ []) 1 30 (omega arith) night-IsValid

abbrev two_windows : Text
two_windows = codes "days=sat|Sun,time=00:00-23:59; time=22:00-06:00 ;"

parses :
    parse_maintenance_windows two_windows
    ≡ record { days = 6 ∷ 0 ∷ []; start_minutes = 0; end_minutes = 1439 } ∷ night ∷ []
unfolding parse_maintenance_windows parse_segments segments_of parse_single_window window_of
    parse_fields parse_field add_days add_day parse_day_token lookup_token parse_time_range
    parse_hhmm clock_number atoi unsigned_value digits_value text_eq trim_space to_lower cut_prefix
    split_on split_first
parses = refl

parse_maintenance_windows-IsValid_example : All IsValid (parse_maintenance_windows two_windows)
parse_maintenance_windows-IsValid_example = parse_maintenance_windows-IsValid two_windows

validate-length-parse_example :
    (validate_maintenance_windows two_windows ≡ none)
    ↔ (length (parse_maintenance_windows two_windows) ≡ length (config_segments two_windows))
validate-length-parse_example = validate-length-parse two_windows

-- The first part of the example `days=sat,sun;time=00:00-23:59` of the source's comment.
parse_single_window_no_time_example : parse_single_window (codes "days=sat,sun") ≡ none
unfolding split_on trim_space cut_prefix
parse_single_window_no_time_example =
    parse_single_window_no_time (codes "days=sat,sun") (refl, (refl, tt))

-- So that configuration is refused by the validation and admits every day without it.
comment_example :
    (validate_maintenance_windows (codes "days=sat,sun;time=00:00-23:59")
      ≡ some (codes "days=sat,sun"))
    × (parse_maintenance_windows (codes "days=sat,sun;time=00:00-23:59")
        ≡ record { days = []; start_minutes = 0; end_minutes = 1439 } ∷ [])
    × (is_within_window 3 100 (parse_maintenance_windows (codes "days=sat,sun;time=00:00-23:59"))
        ≡ true)
unfolding validate_maintenance_windows invalid_segment parse_maintenance_windows parse_segments
    segments_of parse_single_window window_of parse_fields parse_field add_days add_day
    parse_day_token lookup_token parse_time_range parse_hhmm clock_number atoi unsigned_value
    digits_value text_eq trim_space to_lower cut_prefix split_on split_first is_within_window
    admitted admits
comment_example = (refl, refl, refl)
