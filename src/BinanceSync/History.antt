-- ===== src/BinanceSync/History.antt =====
-- The history that the loops over windows and pages fetch from a service that answers in order.
use portfolio_tracker_public.Prelude.{
  ℕ, ◌<◌, ◌≡◌, List, [], ◌∷◌, Option, none, some, All, length, concat_map,
}
use portfolio_tracker_public.BinanceSync.Json.{Json, Fields, history_rows}
use portfolio_tracker_public.BinanceSync.Windows.{Window, iter_time_windows}
use portfolio_tracker_public.BinanceSync.Pages.{
  page_records, Collected, Fetched, Endpoint, append_unique_records, nothing_collected, windows_of,
  fetch_windows, fetch_offset_records, fetch_current_page_records,
}
use portfolio_tracker_public.BinanceSync.Pagination.{
  IsServed, pages_from, fetched_all, all_rows, fetch_windows-served,
}
use portfolio_tracker_public.BinanceSync.Unique.{firsts, append_unique_records-nothing}
use portfolio_tracker_public.BinanceSync.Tiling.{iter_time_windows_tile}

-- The pages of a window, up to the first that is not full.
abbrev pub asked_pages : Endpoint → (Window → ℕ → Json) → ℕ → Window → List Json
asked_pages e payloads fuel w = pages_from (payloads w) e.limit fuel 0

-- The pages that were asked for have all rows of each window, and what was fetched is the first record
-- of each fingerprint among those of the pages of all windows that lie in their window.
abbrev pub IsHistory :
    Endpoint
    → (Window → ℕ → Json)
    → (Window → List Fields)
    → ℕ
    → ℕ
    → ℕ
    → ℕ
    → Option Fetched
    → Type 0
IsHistory e payloads rows fuel start_time end_time max_span fetched =
    (ws : List Window) × (got : Collected) × (iter_time_windows (some start_time) end_time max_span
      ≡ some ws)
    × ((w : Window) → concat_map history_rows (asked_pages e payloads fuel w) ≡ rows w)
    × (fetched ≡ fetched_all got)
    × (got.records
        ≡ firsts
            (concat_map (λ w. concat_map (page_records e w) (asked_pages e payloads fuel w)) ws))

module _ (e : Endpoint) (first advance : ℕ) (payloads : Window → ℕ → Json)
    (rows : Window → List Fields) (served : IsServed e first advance payloads rows)
    (some_rows : 0 < e.limit) (fuel : ℕ) (enough : (w : Window) → length (rows w) < fuel) where
  All-enough : (ws : List Window) → All (λ w. length (rows w) < fuel) ws
  All-enough [] = tt
  All-enough (w ∷ ws) = (enough w, All-enough ws)

  IsHistory-windows :
      (start_time end_time max_span : ℕ)
      → IsHistory e payloads rows fuel start_time end_time max_span
          (elim (windows_of (some start_time) end_time (some max_span)) [
            | none ↦ none
            | some ws ↦ fetch_windows e first advance fuel ws nothing_collected
          ])
  unfolding windows_of
  IsHistory-windows start_time end_time max_span =
      let (ws, tiled, inside, once) = iter_time_windows_tile start_time end_time max_span in
      let all =
        concat_map (λ w. concat_map (page_records e w) (asked_pages e payloads fuel w)) ws in
      (
        ws,
        append_unique_records nothing_collected all,
        tiled,
        λ w. all_rows e first advance payloads rows served some_rows w fuel (enough w),
        rw tiled (
            fetch_windows-served e first advance payloads rows served some_rows fuel ws
              nothing_collected (All-enough ws)),
        append_unique_records-nothing all,
      )

-- If the exchange answers with the rows of a window in order, a positive limit of them at a time, and
-- the loop has more fuel than a window has rows, the fetch by offset ends without a warning. In each
-- window it asks for the pages up to the first that is not full, and these have all rows of the
-- window. Its records are the first of each fingerprint among those that the normalizer makes of these
-- pages and whose time is in the window of the page.
pub fetch_offset_records_all :
    (e : Endpoint) (payloads : Window → ℕ → Json) (rows : Window → List Fields)
    → IsServed e 0 e.limit payloads rows
    → 0 < e.limit
    → (fuel : ℕ) → ((w : Window) → length (rows w) < fuel)
    → (start_time end_time max_span : ℕ)
    → IsHistory e payloads rows fuel start_time end_time max_span
        (fetch_offset_records e fuel (some start_time) end_time (some max_span))
unfolding fetch_offset_records
fetch_offset_records_all e payloads rows served some_rows fuel enough =
    IsHistory-windows e 0 e.limit payloads rows served some_rows fuel enough

-- The same of the fetch by page numbers, which count from 1.
fetch_current_page_records_all :
    (e : Endpoint) (payloads : Window → ℕ → Json) (rows : Window → List Fields)
    → IsServed e 1 1 payloads rows
    → 0 < e.limit
    → (fuel : ℕ) → ((w : Window) → length (rows w) < fuel)
    → (start_time end_time max_span : ℕ)
    → IsHistory e payloads rows fuel start_time end_time max_span
        (fetch_current_page_records e fuel (some start_time) end_time (some max_span))
unfolding fetch_current_page_records
fetch_current_page_records_all e payloads rows served some_rows fuel enough =
    IsHistory-windows e 1 1 payloads rows served some_rows fuel enough
