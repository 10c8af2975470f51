-- ===== src/Window/Parse.antt =====
-- What the parser of maintenance windows accepts (server/internal/backup/window.go).
use backup_x.Base.{
  ℕ, ◌≤◌, ◌<◌, ◌≡◌, refl, subst, ◌∙◌, ◌↔◌, inl, inr, List, [], ◌∷◌, ◌++◌, Option, none, some, arith,
  length, All, Bool-cases, Option-cases, contains,
}
use backup_x.Base.Text.{Text, codes, cut_prefix, trim_space, split_on, split_first}
use backup_x.Window.{
  MaintenanceWindow, clock_number, parse_hhmm, parse_time_range, lookup_token, day_tokens,
  parse_day_token, add_day, add_days, parse_field, parse_fields, window_of, parse_single_window,
  parse_segments, segments_of, parse_maintenance_windows, invalid_segment,
  validate_maintenance_windows, two_parts,
}
use backup_x.Window.Hours.{IsValid}

clock_number-le : (most : ℕ) (t : Text) (n : ℕ) → clock_number most t ≡ some n → n ≤ most
unfolding clock_number
clock_number-le most t n h = ground arith

parse_hhmm-lt : (t : Text) (n : ℕ) → parse_hhmm t ≡ some n → n < 1440
unfolding parse_hhmm
parse_hhmm-lt t n h = elim (Option-cases (two_parts (split_on b':' (trim_space t)))) [
  | inl e ↦ absurd (cc (rw (e, parse_hhmm) at h))
  | inr ((a, b), e) ↦ let h' = rw (e, parse_hhmm) at h in grind (arith, clock_number-le)
]

parse_time_range-lt :
    (t : Text) (start end : ℕ)
    → parse_time_range t ≡ some (start, end)
    → (start < 1440) × (end < 1440)
unfolding parse_time_range
parse_time_range-lt t start end h = elim (Option-cases (split_first b'-' t)) [
  | inl e ↦ absurd (cc (rw (e, parse_time_range) at h))
  | inr ((a, b), e) ↦ let h' = rw (e, parse_time_range) at h in grind (arith, parse_hhmm-lt)
]

abbrev IsDay : ℕ → Type 0
IsDay d = d < 7

lookup_token-IsDay :
    (t : Text) (table : List (Text × ℕ)) (d : ℕ)
    → All (λ (e : Text × ℕ). IsDay e.1) table
    → lookup_token t table ≡ some d
    → IsDay d
unfolding lookup_token
lookup_token-IsDay t [] d v h = ground arith
lookup_token-IsDay t ((k, x) ∷ table) d v h = ground (arith, lookup_token-IsDay t table d v.1)

parse_day_token-IsDay : (t : Text) (d : ℕ) → parse_day_token t ≡ some d → IsDay d
unfolding parse_day_token
parse_day_token-IsDay t d h = lookup_token-IsDay _ day_tokens d (omega arith) h

All-snoc : (d : ℕ) (days : List ℕ) → All IsDay days → IsDay d → All IsDay (days ++ d ∷ [])
All-snoc d [] v h = (h, tt)
All-snoc d (x ∷ days) v h = (v.0, All-snoc d days v.1 h)

add_day-IsDay :
    (days : List ℕ) (token : Option ℕ)
    → All IsDay days
    → ((d : ℕ) → token ≡ some d → IsDay d)
    → All IsDay (add_day days token)
unfolding add_day
add_day-IsDay days none v h = v
add_day-IsDay days (some d) v h = elim (Bool-cases (contains days d)) [
  | inl e ↦ rw e v
  | inr e ↦ rw e (All-snoc d days v (h d refl))
]

add_days-IsDay :
    (days : List ℕ) (tokens : List Text) → All IsDay days → All IsDay (add_days days tokens)
unfolding add_days
add_days-IsDay days [] v = v
add_days-IsDay days (token ∷ tokens) v =
    add_days-IsDay (add_day days (parse_day_token (trim_space token))) tokens (
      add_day-IsDay days (parse_day_token (trim_space token)) v
        (λ d e. parse_day_token-IsDay (trim_space token) d e))

parse_field-IsDay :
    (found : List ℕ × Text) (field : Text)
    → All IsDay found.0
    → All IsDay (parse_field found field).0
unfolding parse_field
parse_field-IsDay (days, time_expr) field v =
    go (cut_prefix (codes "days=") field) (cut_prefix (codes "time=") field)
  where
    go :
        (d t : Option Text)
        → All IsDay
            (elim d as (λ _. List ℕ × Text) [
              | some part ↦ (add_days days (split_on b'|' part), time_expr)
              | none ↦ elim t [ some part ↦ (days, part) | none ↦ (days, time_expr) ]
            ]).0
    go (some part) t = add_days-IsDay days (split_on b'|' part) v
    go none (some part) = v
    go none none = v

parse_fields-IsDay :
    (found : List ℕ × Text) (fields : List Text)
    → All IsDay found.0
    → All IsDay (parse_fields found fields).0
unfolding parse_fields
parse_fields-IsDay found [] v = v
parse_fields-IsDay found (field ∷ fields) v =
    parse_fields-IsDay (parse_field found (trim_space field)) fields
      (parse_field-IsDay found (trim_space field) v)

window_of-IsValid :
    (found : List ℕ × Text) (w : MaintenanceWindow)
    → All IsDay found.0
    → window_of found ≡ some w
    → IsValid w
unfolding window_of
window_of-IsValid (days, time_expr) w v h =
    elim (Option-cases (parse_time_range (trim_space time_expr))) [
      | inl e ↦ absurd (cc (rw (e, window_of) at h))
      | inr ((start, end), e) ↦
          let found_window : MaintenanceWindow = record {
            days = days;
            start_minutes = start;
            end_minutes = end;
          } in
          let same : found_window ≡ w = cc (rw (e, window_of) at h) in
          subst IsValid same (record {
            start_valid = (parse_time_range-lt _ start end e).0;
            end_valid = (parse_time_range-lt _ start end e).1;
            days_valid = v;
          })
    ]

parse_single_window-IsValid :
    (segment : Text) (w : MaintenanceWindow) → parse_single_window segment ≡ some w → IsValid w
unfolding parse_single_window
parse_single_window-IsValid segment w h =
    let fields = split_on b',' segment in
    window_of-IsValid (parse_fields ([], []) fields) w (parse_fields-IsDay ([], []) fields tt) h

parse_segments-IsValid : (segments : List Text) → All IsValid (parse_segments segments)
unfolding parse_segments
parse_segments-IsValid [] = tt
parse_segments-IsValid (segment ∷ rest) = elim (Option-cases (parse_single_window segment)) [
  | inl e ↦ rw (e, parse_segments) (parse_segments-IsValid rest)
  | inr (w, e) ↦
      rw (e, parse_segments) (parse_single_window-IsValid segment w e, parse_segments-IsValid rest)
]

-- Whatever the configuration says, the windows that are read from it have their hours on the clock
-- and their days in the week.
pub parse_maintenance_windows-IsValid :
    (value : Text) → All IsValid (parse_maintenance_windows value)
unfolding parse_maintenance_windows
parse_maintenance_windows-IsValid value = go (trim_space value)
  where
    go :
        (t : Text)
        → All IsValid (elim t as (λ _. List MaintenanceWindow) [
          | [] ↦ []
          | c ∷ cs ↦ parse_segments (segments_of (split_on b';' (c ∷ cs)))
        ])
    go [] = tt
    go (c ∷ cs) = parse_segments-IsValid (segments_of (split_on b';' (c ∷ cs)))

-- The segments of a configuration that say something.
pub config_segments : Text → List Text
config_segments value = elim (trim_space value) [
  | [] ↦ []
  | c ∷ cs ↦ segments_of (split_on b';' (c ∷ cs))
]

length-parse_segments-le :
    (segments : List Text) → length (parse_segments segments) ≤ length segments
unfolding parse_segments
length-parse_segments-le [] = omega arith
length-parse_segments-le (segment ∷ rest) = ground (arith, length-parse_segments-le rest)

invalid_segment-length :
    (segments : List Text)
    → (invalid_segment segments ≡ none) ↔ (length (parse_segments segments) ≡ length segments)
unfolding invalid_segment parse_segments
invalid_segment-length [] = (λ _. refl, λ _. refl)
invalid_segment-length (segment ∷ rest) = (
  λ e. ground (arith, invalid_segment-length rest),
  λ e. ground (arith, invalid_segment-length rest, length-parse_segments-le rest),
)

-- The validation accepts a configuration exactly when each of its segments that are not blank
-- becomes a window.
pub validate-length-parse :
    (value : Text)
    → (validate_maintenance_windows value ≡ none)
      ↔ (length (parse_maintenance_windows value) ≡ length (config_segments value))
unfolding validate_maintenance_windows parse_maintenance_windows config_segments
validate-length-parse value = go (trim_space value)
  where
    go :
        (t : Text)
        → ((elim t as (λ _. Option Text) [
          | [] ↦ none
          | c ∷ cs ↦ invalid_segment (segments_of (split_on b';' (c ∷ cs)))
        ])
            ≡ none)
          ↔ (length (elim t as (λ _. List MaintenanceWindow) [
            | [] ↦ []
            | c ∷ cs ↦ parse_segments (segments_of (split_on b';' (c ∷ cs)))
          ])
              ≡ length (elim t as (λ _. List Text) [
                | [] ↦ []
                | c ∷ cs ↦ segments_of (split_on b';' (c ∷ cs))
              ]))
    go [] = (λ _. refl, λ _. refl)
    go (c ∷ cs) = invalid_segment-length (segments_of (split_on b';' (c ∷ cs)))

-- No field of the segment, trimmed, begins with `time=`.
abbrev pub HasNoTime : List Text → Type 0
HasNoTime [] = Unit
HasNoTime (field ∷ fields) =
    (cut_prefix (codes "time=") (trim_space field) ≡ none) × HasNoTime fields

parse_field_no_time :
    (found : List ℕ × Text) (field : Text)
    → cut_prefix (codes "time=") field ≡ none
    → (parse_field found field).1 ≡ found.1
unfolding parse_field
parse_field_no_time (days, time_expr) field h = ground arith

parse_fields_no_time :
    (found : List ℕ × Text) (fields : List Text)
    → HasNoTime fields
    → (parse_fields found fields).1 ≡ found.1
unfolding parse_fields
parse_fields_no_time found [] h = refl
parse_fields_no_time found (field ∷ fields) h =
    parse_fields_no_time (parse_field found (trim_space field)) fields h.1
    ∙ parse_field_no_time found (trim_space field) h.0

window_of_no_time : (found : List ℕ × Text) → found.1 ≡ [] → window_of found ≡ none
unfolding window_of parse_time_range split_first trim_space
window_of_no_time (days, time_expr) h = rw h refl

-- A segment none of whose fields between commas begins with `time=`, once trimmed, is no window.
pub parse_single_window_no_time :
    (segment : Text) → HasNoTime (split_on b',' segment) → parse_single_window segment ≡ none
unfolding parse_single_window
parse_single_window_no_time segment h =
    window_of_no_time _ (parse_fields_no_time ([], []) (split_on b',' segment) h)
