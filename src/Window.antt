-- ===== src/Window.antt =====
-- Maintenance windows (server/internal/backup/window.go): the parser of the configuration, its
-- validation, and the test whether an instant lies in a window.
--
-- The set of days is the list of its members. An instant is its minute of the day and its weekday,
-- 0 for Sunday.
pub mod Parse
pub mod Hours
mod Tests
use backup_x.Base.{
  ℕ, zero, suc, ◌+◌, ◌-◌, ◌*◌, ◌^◌, Bool, true, false, not, ◌&&◌, ◌||◌, List, [], ◌∷◌, ◌++◌, Option,
  none, some, ltb, leb, ◌==◌, if◌then◌else◌, contains,
}
use backup_x.Base.Int.{ℤ, pos, negsuc}
use backup_x.Base.Text.{
  Text, codes, text_eq, trim_space, to_lower, cut_prefix, split_on, split_first,
}

pub record MaintenanceWindow : Type 0 where
  pub days : List ℕ
  pub start_minutes : ℕ
  pub end_minutes : ℕ

-- The digits of a number, from the value of those before.
pub digits_value : ℕ → Text → Option ℕ
digits_value acc [] = some acc
digits_value acc (c ∷ cs) =
    let rest = digits_value (acc * 10 + (c - b'0')) cs in
    if leb b'0' c && leb c b'9' then rest else none

abbrev negate : ℕ → ℤ
negate zero = pos 0
negate (suc n) = negsuc n

-- One digit at least.
pub unsigned_value : Text → Option ℕ
unsigned_value [] = none
unsigned_value (c ∷ cs) = digits_value 0 (c ∷ cs)

-- strconv.Atoi on a 64-bit platform.
pub atoi : Text → Option ℤ
atoi [] = none
atoi (c ∷ cs) =
    if c == b'-'
    then elim (unsigned_value cs) [
      | none ↦ none
      | some n ↦ if leb n (2 ^ 63) then some (negate n) else none
    ]
    else elim (unsigned_value (if c == b'+' then cs else c ∷ cs)) [
      | none ↦ none
      | some n ↦ if ltb n (2 ^ 63) then some (pos n) else none
    ]

-- A number of the clock: atoi of the trimmed text, from 0 to `most`.
pub clock_number : ℕ → Text → Option ℕ
clock_number most t = elim (atoi (trim_space t)) [
  | none ↦ none
  | some (pos n) ↦ if leb n most then some n else none
  | some (negsuc n) ↦ none
]

abbrev two_parts : List Text → Option (Text × Text)
two_parts (a ∷ b ∷ []) = some (a, b)
two_parts _ = none

pub parse_hhmm : Text → Option ℕ
parse_hhmm value = elim (two_parts (split_on b':' (trim_space value))) [
  | none ↦ none
  | some (a, b) ↦ elim (clock_number 23 a) [
    | none ↦ none
    | some h ↦ elim (clock_number 59 b) [ none ↦ none | some m ↦ some (h * 60 + m) ]
  ]
]

pub parse_time_range : Text → Option (ℕ × ℕ)
parse_time_range value = elim (split_first b'-' value) [
  | none ↦ none
  | some (a, b) ↦ elim (parse_hhmm a) [
    | none ↦ none
    | some start ↦ elim (parse_hhmm b) [ none ↦ none | some end ↦ some (start, end) ]
  ]
]

-- dayTokens.
abbrev day_tokens : List (Text × ℕ)
day_tokens =
    (codes "sun", 0)
    ∷ (codes "sunday", 0)
    ∷ (codes "0", 0)
    ∷ (codes "mon", 1)
    ∷ (codes "monday", 1)
    ∷ (codes "1", 1)
    ∷ (codes "tue", 2)
    ∷ (codes "tuesday", 2)
    ∷ (codes "2", 2)
    ∷ (codes "wed", 3)
    ∷ (codes "wednesday", 3)
    ∷ (codes "3", 3)
    ∷ (codes "thu", 4)
    ∷ (codes "thursday", 4)
    ∷ (codes "4", 4)
    ∷ (codes "fri", 5)
    ∷ (codes "friday", 5)
    ∷ (codes "5", 5)
    ∷ (codes "sat", 6)
    ∷ (codes "saturday", 6)
    ∷ (codes "6", 6)
    ∷ []

pub lookup_token : Text → List (Text × ℕ) → Option ℕ
lookup_token t [] = none
lookup_token t ((k, d) ∷ rest) =
    let later = lookup_token t rest in if text_eq k t then some d else later

-- parseDayToken; none for its -1. The empty text is no token.
pub parse_day_token : Text → Option ℕ
parse_day_token value = lookup_token (to_lower (trim_space value)) day_tokens

-- `days[idx] = true`, when the token names a day.
pub add_day : List ℕ → Option ℕ → List ℕ
add_day days none = days
add_day days (some d) = if contains days d then days else days ++ d ∷ []

pub add_days : List ℕ → List Text → List ℕ
add_days days [] = days
add_days days (token ∷ tokens) = add_days (add_day days (parse_day_token (trim_space token))) tokens

-- One field of a segment, trimmed: the days and the time expression after it.
pub parse_field : List ℕ × Text → Text → List ℕ × Text
parse_field (days, time_expr) field = elim (cut_prefix (codes "days=") field) [
  | some part ↦ (add_days days (split_on b'|' part), time_expr)
  | none ↦ elim (cut_prefix (codes "time=") field) [
    | some part ↦ (days, part)
    | none ↦ (days, time_expr)
  ]
]

-- The loop over the fields of a segment. An empty field has neither prefix.
pub parse_fields : List ℕ × Text → List Text → List ℕ × Text
parse_fields found [] = found
parse_fields found (field ∷ fields) = parse_fields (parse_field found (trim_space field)) fields

-- The window of a segment's days and time expression.
pub window_of : List ℕ × Text → Option MaintenanceWindow
window_of (days, time_expr) = elim (parse_time_range (trim_space time_expr)) [
  | none ↦ none
  | some (start, end) ↦ some (record { days = days; start_minutes = start; end_minutes = end })
]

pub parse_single_window : Text → Option MaintenanceWindow
parse_single_window segment = window_of (parse_fields ([], []) (split_on b',' segment))

-- The segments that the parser and the validation look at: trimmed, and not empty.
pub segments_of : List Text → List Text
segments_of [] = []
segments_of (raw ∷ rest) = elim (trim_space raw) [
  | [] ↦ segments_of rest
  | c ∷ cs ↦ (c ∷ cs) ∷ segments_of rest
]

pub parse_segments : List Text → List MaintenanceWindow
parse_segments [] = []
parse_segments (segment ∷ rest) = elim (parse_single_window segment) [
  | none ↦ parse_segments rest
  | some w ↦ w ∷ parse_segments rest
]

pub parse_maintenance_windows : Text → List MaintenanceWindow
parse_maintenance_windows value = elim (trim_space value) [
  | [] ↦ []
  | c ∷ cs ↦ parse_segments (segments_of (split_on b';' (c ∷ cs)))
]

-- The first segment that is no window.
pub invalid_segment : List Text → Option Text
invalid_segment [] = none
invalid_segment (segment ∷ rest) = elim (parse_single_window segment) [
  | none ↦ some segment
  | some w ↦ invalid_segment rest
]

-- ValidateMaintenanceWindows: the segment that the error names.
pub validate_maintenance_windows : Text → Option Text
validate_maintenance_windows value = elim (trim_space value) [
  | [] ↦ none
  | c ∷ cs ↦ invalid_segment (segments_of (split_on b';' (c ∷ cs)))
]

abbrev no_days : List ℕ → Bool
no_days [] = true
no_days (d ∷ ds) = false

-- The body of the loop of IsWithinWindow: whether it returns true for this window.
pub admits : MaintenanceWindow → ℕ → ℕ → Bool
admits w weekday minutes =
    if not (no_days w.days) && not (contains w.days weekday)
    then false
    else if w.start_minutes == w.end_minutes
    then false
    else if ltb w.start_minutes w.end_minutes
    then leb w.start_minutes minutes && ltb minutes w.end_minutes
    else leb w.start_minutes minutes || ltb minutes w.end_minutes

pub admitted : List MaintenanceWindow → ℕ → ℕ → Bool
admitted [] weekday minutes = false
admitted (w ∷ ws) weekday minutes =
    let later = admitted ws weekday minutes in if admits w weekday minutes then true else later

abbrev no_windows : List MaintenanceWindow → Bool
no_windows [] = true
no_windows (w ∷ ws) = false

pub is_within_window : ℕ → ℕ → List MaintenanceWindow → Bool
is_within_window weekday minutes windows =
    if no_windows windows then true else admitted windows weekday minutes
