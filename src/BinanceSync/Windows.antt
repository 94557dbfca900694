-- ===== src/BinanceSync/Windows.antt =====
-- `_iter_time_windows`. A time is a number of microseconds since the epoch, and the loop takes fuel:
-- `none` means that it ran out.
use portfolio_tracker_public.Prelude.{
  ℕ, zero, suc, ◌+◌, ◌-◌, List, [], ◌∷◌, Option, none, some, if◌then◌else◌, ltb, leb,
}

pub record Window : Type 0 where
  pub start_at : Option ℕ
  pub end_at : ℕ

-- `min(cursor + max_span, end_time)`
unfoldable pub window_end : ℕ → ℕ → ℕ → ℕ
window_end cursor end_time max_span =
    if ltb (cursor + max_span) end_time then cursor + max_span else end_time

abbrev pub window : ℕ → ℕ → Window
window start_at end_at = record { start_at = some start_at; end_at = end_at }

abbrev pub with_window : Window → Option (List Window) → Option (List Window)
with_window w none = none
with_window w (some ws) = some (w ∷ ws)

-- The `while` loop over the cursor.
unfoldable pub windows_from : ℕ → ℕ → ℕ → ℕ → Option (List Window)
windows_from zero cursor end_time max_span = none
windows_from (suc fuel) cursor end_time max_span =
    let stop = window_end cursor end_time max_span in
    let rest = windows_from fuel (stop + 1) end_time max_span in
    if ltb cursor end_time
    then if leb end_time stop
      then some (window cursor stop ∷ [])
      else with_window (window cursor stop) rest
    else some []

unfoldable pub iter_time_windows : Option ℕ → ℕ → ℕ → Option (List Window)
iter_time_windows none end_time max_span = some (record { start_at = none; end_at = end_time } ∷ [])
iter_time_windows (some start_time) end_time max_span =
    windows_from (suc (end_time - start_time)) start_time end_time max_span
