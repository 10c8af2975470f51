-- ===== src/RateLimiter.antt =====
-- The limiter of the login attempts (server/internal/security/rate_limiter.go).
--
-- Each call runs under the limiter's lock; `now` is what time.Now() gives, in nanoseconds.
pub mod Bound
mod Tests
use backup_x.Base.{
  ℕ, ◌+◌, Bool, true, false, not, List, [], ◌∷◌, Option, none, some, ltb, leb, if◌then◌else◌,
  filter,
}
use backup_x.Base.Text.{Text, text_eq}

pub record RateEntry : Type 0 where
  pub count : ℕ
  pub window_end : ℕ

pub record LoginRateLimiter : Type 0 where
  pub limit : ℕ
  pub window : ℕ
  pub items : List (Text × RateEntry)

abbrev pub new_login_rate_limiter : ℕ → ℕ → LoginRateLimiter
new_login_rate_limiter limit window = record { limit = limit; window = window; items = [] }

pub lookup : Text → List (Text × RateEntry) → Option RateEntry
lookup key [] = none
lookup key ((k, e) ∷ items) = let rest = lookup key items in if text_eq k key then some e else rest

pub remove : Text → List (Text × RateEntry) → List (Text × RateEntry)
remove key items = filter (λ item. not (text_eq item.0 key)) items

pub store : Text → RateEntry → List (Text × RateEntry) → List (Text × RateEntry)
store key e items = (key, e) ∷ remove key items

-- The entry that Allow counts in: a new one for a new key or after the end of the window.
pub current_entry : ℕ → ℕ → Option RateEntry → RateEntry
current_entry window now none = record { count = 0; window_end = now + window }
current_entry window now (some e) =
    if ltb e.window_end now then record { count = 0; window_end = now + window } else e

pub allow : Text → ℕ → LoginRateLimiter → LoginRateLimiter × Bool
allow key now r =
    let entry = current_entry r.window now (lookup key r.items) in
    let counted = record entry { count = entry.count + 1 } in
    if leb r.limit entry.count
    then (record r { items = store key entry r.items }, false)
    else (record r { items = store key counted r.items }, true)

pub reset : Text → LoginRateLimiter → LoginRateLimiter
reset key r = record r { items = remove key r.items }
