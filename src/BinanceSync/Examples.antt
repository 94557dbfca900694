-- ===== src/BinanceSync/Examples.antt =====
-- Runs on a small history, where the exchange answers with two rows at a time.
use portfolio_tracker_public.Prelude.{
  ℕ, ◌+◌, ◌*◌, ◌≤◌, ◌<◌, ◌≡◌, refl, ap, String, List, [], ◌∷◌, some, string_eq, arith, All, take,
  drop, concat_map,
}
use portfolio_tracker_public.BinanceSync.Json.{
  Json, Fields, Items, scalar, array, object, no_items, item, no_fields, field, history_rows,
  dict_rows, get_field,
}
use portfolio_tracker_public.BinanceSync.Windows.{
  Window, window, iter_time_windows, windows_from, window_end,
}
use portfolio_tracker_public.BinanceSync.Tiling.{
  IsWindowOf, covering, iter_time_windows_tile, iter_time_windows_misses_end,
}
use portfolio_tracker_public.BinanceSync.Pages.{Transaction, page, Endpoint, fetch_offset_records}
use portfolio_tracker_public.BinanceSync.Pagination.{IsServed}
use portfolio_tracker_public.BinanceSync.History.{IsHistory, fetch_offset_records_all}

iter_time_windows_run : iter_time_windows (some 10) 25 9 ≡ some (window 10 19 ∷ window 20 25 ∷ [])
unfolding iter_time_windows windows_from window_end
iter_time_windows_run = refl

iter_time_windows_tile_example :
    (ws : List Window) × (iter_time_windows (some 10) 25 9 ≡ some ws)
    × All (IsWindowOf 10 25 9) ws
    × ((t : ℕ) → 10 ≤ t → t < 25 → covering t ws ≡ 1)
iter_time_windows_tile_example = iter_time_windows_tile 10 25 9

-- The interval is ten longer than its start, the span nine.
iter_time_windows_misses_end_run :
    (ws : List Window) × (iter_time_windows (some 10) 20 9 ≡ some ws) × (covering 20 ws ≡ 0)
iter_time_windows_misses_end_run = iter_time_windows_misses_end 10 9 1

abbrev row : String → Fields
row id = field "id" (scalar id) no_fields

abbrev sample_rows : List Fields
sample_rows = row "a" ∷ row "b" ∷ row "a" ∷ row "c" ∷ []

abbrev items_of : List Fields → Items
items_of [] = no_items
items_of (r ∷ rs) = item (object r) (items_of rs)

abbrev sample_records : Fields → List Transaction
sample_records fields =
    record {
      institution = "binance";
      tx_type = "deposit";
      timestamp = 12;
      fingerprint = elim (get_field fields "id") [ scalar id ↦ id | _ ↦ "" ];
      raw_data = object fields;
    }
    ∷ []

abbrev paged : Endpoint
paged = record {
  label = "deposits";
  fetch_page = λ start_time end_time limit offset.
      page (array (items_of (take limit (drop offset sample_rows))));
  normalize = λ payload. concat_map sample_records (history_rows payload);
  limit = 2;
}

dict_rows-items_of : (rs : List Fields) → dict_rows (items_of rs) ≡ rs
unfolding dict_rows
dict_rows-items_of [] = refl
dict_rows-items_of (r ∷ rs) = ap (λ ys. r ∷ ys) (dict_rows-items_of rs)

abbrev sample_payloads : Window → ℕ → Json
sample_payloads w k = array (items_of (take 2 (drop (k * 2) sample_rows)))

paged-IsServed : IsServed paged 0 2 sample_payloads (λ w. sample_rows)
unfolding history_rows
paged-IsServed = record {
  answers = λ w k.
      let e : 0 + k * 2 ≡ k * 2 = omega arith in
      ap (λ n. page (array (items_of (take 2 (drop n sample_rows))))) e;
  rows_of_pages = λ w k. dict_rows-items_of (take 2 (drop (k * 2) sample_rows));
}

fetch_offset_records_all_example :
    IsHistory paged sample_payloads
      (λ w. sample_rows)
      5
      10
      25
      9
      (fetch_offset_records paged 5 (some 10) 25 (some 9))
fetch_offset_records_all_example =
    fetch_offset_records_all paged sample_payloads (λ w. sample_rows) paged-IsServed (omega arith) 5
      (λ w. omega arith) 10 25 9
