-- ===== src/Window/Hours.antt =====
-- When a maintenance window admits an instant (IsWithinWindow in server/internal/backup/window.go),
-- against the hours as arcs of the clock.
use backup_x.Base.{
  ℕ, ◌+◌, ◌-◌, ◌%◌, ◌<◌, ◌≡◌, refl, Bool, false, ◌&&◌, ◌||◌, List, [], ◌∷◌, arith, ltb, contains,
  All,
}
use backup_x.Window.{MaintenanceWindow, admits, admitted, is_within_window, no_days, no_windows}

pub record IsValid (w : MaintenanceWindow) : Type 0 where
  pub start_valid : w.start_minutes < 1440
  pub end_valid : w.end_minutes < 1440
  pub days_valid : All (λ d. d < 7) w.days

-- The instant lies on the arc of the clock that begins at the start, on a day of the window.
unfoldable pub on_arc : MaintenanceWindow → ℕ → ℕ → Bool
on_arc w weekday minutes =
    (no_days w.days || contains w.days weekday)
    && ltb ((minutes + 1440 - w.start_minutes) % 1440)
        ((w.end_minutes + 1440 - w.start_minutes) % 1440)

admits-on_arc :
    (w : MaintenanceWindow) (weekday minutes : ℕ)
    → minutes < 1440
    → IsValid w
    → admits w weekday minutes ≡ on_arc w weekday minutes
unfolding admits on_arc
admits-on_arc w weekday minutes h v = ground arith

-- Some window has the instant on its arc.
unfoldable pub on_some_arc : List MaintenanceWindow → ℕ → ℕ → Bool
on_some_arc [] weekday minutes = false
on_some_arc (w ∷ ws) weekday minutes = on_arc w weekday minutes || on_some_arc ws weekday minutes

admitted-on_some_arc :
    (ws : List MaintenanceWindow) (weekday minutes : ℕ)
    → minutes < 1440
    → All IsValid ws
    → admitted ws weekday minutes ≡ on_some_arc ws weekday minutes
unfolding admitted on_some_arc
admitted-on_some_arc [] weekday minutes h v = refl
admitted-on_some_arc (w ∷ ws) weekday minutes h v =
    ground
      (arith, admits-on_arc w weekday minutes h v.0, admitted-on_some_arc ws weekday minutes h v.1)

-- For windows with hours on the clock, an instant is admitted exactly when there is no window, or
-- when it lies, on a day of some window, on the arc of the clock from the window's start round to
-- its end, which crosses midnight when the end is before the start and is empty when they are equal.
pub is_within_window-eq-arc :
    (ws : List MaintenanceWindow) (weekday minutes : ℕ)
    → minutes < 1440
    → All IsValid ws
    → is_within_window weekday minutes ws ≡ (no_windows ws || on_some_arc ws weekday minutes)
unfolding is_within_window
is_within_window-eq-arc ws weekday minutes h v =
    ground (arith, admitted-on_some_arc ws weekday minutes h v)
