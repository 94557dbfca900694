-- ===== src/BinanceSync/Pages.antt =====
-- `_filter_normalized_records`, `_append_unique_records`, `_fetch_offset_records`,
-- `_fetch_current_page_records` and `_fetch_single_window_records`. The call of the exchange, a
-- function that the callers hand in, and the way its rows are made into transactions are parameters.
-- A loop over the pages takes fuel: `none` means that it ran out.
use portfolio_tracker_public.Prelude.{
  ℕ, zero, suc, ◌+◌, String, ◌<>◌, List, [], ◌∷◌, ◌++◌, Option, none, some, Bool, true, ◌&&◌,
  string_eq, contains, if◌then◌else◌, ltb, leb, keep, length,
}
use portfolio_tracker_public.Performance.Period.{digits}
use portfolio_tracker_public.BinanceSync.Json.{Json, history_rows}
use portfolio_tracker_public.BinanceSync.Windows.{Window, iter_time_windows}

-- What is read of a transaction.
pub record Transaction : Type 0 where
  pub institution : String
  pub tx_type : String
  pub timestamp : ℕ
  pub fingerprint : String
  pub raw_data : Json

-- What a call of the exchange comes to: BinanceError with its message, or an answer.
pub data Answer : Type 0 where
  failed : String → Answer
  page : Json → Answer

abbrev pub is_not_before : Option ℕ → ℕ → Bool
is_not_before none time = true
is_not_before (some start_time) time = leb start_time time

unfoldable pub filter_normalized_records : List Transaction → Option ℕ → ℕ → List Transaction
filter_normalized_records records start_time end_time =
    keep (λ r. leb r.timestamp end_time && is_not_before start_time r.timestamp) records

-- The two collections that `_append_unique_records` adds to.
pub record Collected : Type 0 where
  pub records : List Transaction
  pub seen_fingerprints : List String

abbrev pub nothing_collected : Collected
nothing_collected = record { records = []; seen_fingerprints = [] }

unfoldable pub append_unique_record : Collected → Transaction → Collected
append_unique_record got r = if contains got.seen_fingerprints r.fingerprint then got else record {
  records = got.records ++ (r ∷ []);
  seen_fingerprints = r.fingerprint ∷ got.seen_fingerprints;
}

unfoldable pub append_unique_records : Collected → List Transaction → Collected
append_unique_records got [] = got
append_unique_records got (r ∷ rs) = append_unique_records (append_unique_record got r) rs

pub record Fetched : Type 0 where
  pub collected : Collected
  pub warning : Option String

-- The arguments that the three functions share.
pub record Endpoint : Type 0 where
  pub label : String
  pub fetch_page : Option ℕ → ℕ → ℕ → ℕ → Answer
  pub normalize : Json → List Transaction
  pub limit : ℕ

unfoldable pub windows_of : Option ℕ → ℕ → Option ℕ → Option (List Window)
windows_of start_time end_time none =
    some (record { start_at = start_time; end_at = end_time } ∷ [])
windows_of start_time end_time (some max_span) = iter_time_windows start_time end_time max_span

module _ (e : Endpoint) where
  unfoldable pub page_records : Window → Json → List Transaction
  page_records w payload = filter_normalized_records (e.normalize payload) w.start_at w.end_at

  -- The `while True` loop over the pages of a window: the position of the next page is further by
  -- `advance`.
  unfoldable pub fetch_pages : ℕ → ℕ → Window → ℕ → Collected → Option Fetched
  fetch_pages advance zero w position got = none
  fetch_pages advance (suc fuel) w position got =
      elim (e.fetch_page w.start_at w.end_at e.limit position) [
        | failed message ↦
            some (record { collected = got; warning = some (e.label <> (": " <> message)) })
        | page payload ↦
            let next = append_unique_records got (page_records w payload) in
            let rest = fetch_pages advance fuel w (position + advance) next in
            if ltb (length (history_rows payload)) e.limit
            then some (record { collected = next; warning = none })
            else rest
      ]

  -- The loop over the windows, which a warning ends.
  unfoldable pub fetch_windows : ℕ → ℕ → ℕ → List Window → Collected → Option Fetched
  fetch_windows first advance fuel [] got = some (record { collected = got; warning = none })
  fetch_windows first advance fuel (w ∷ ws) got = elim (fetch_pages advance fuel w first got) [
    | none ↦ none
    | some fetched ↦ elim fetched.warning [
      | some warning ↦ some fetched
      | none ↦ fetch_windows first advance fuel ws fetched.collected
    ]
  ]

  unfoldable pub fetch_offset_records : ℕ → Option ℕ → ℕ → Option ℕ → Option Fetched
  fetch_offset_records fuel start_time end_time max_span =
      elim (windows_of start_time end_time max_span) [
        | none ↦ none
        | some ws ↦ fetch_windows 0 e.limit fuel ws nothing_collected
      ]

  unfoldable pub fetch_current_page_records : ℕ → Option ℕ → ℕ → Option ℕ → Option Fetched
  fetch_current_page_records fuel start_time end_time max_span =
      elim (windows_of start_time end_time max_span) [
        | none ↦ none
        | some ws ↦ fetch_windows 1 1 fuel ws nothing_collected
      ]

  -- The calls of this function hand over no position; `fetch_page` is then called with 0.
  unfoldable pub fetch_single_windows : List Window → Collected → Fetched
  fetch_single_windows [] got = record { collected = got; warning = none }
  fetch_single_windows (w ∷ ws) got = elim (e.fetch_page w.start_at w.end_at e.limit 0) [
    | failed message ↦ record { collected = got; warning = some (e.label <> (": " <> message)) }
    | page payload ↦
        let next = append_unique_records got (page_records w payload) in
        let rest = fetch_single_windows ws next in
        if leb e.limit (length (history_rows payload))
        then record {
          collected = next;
          warning = some (
              e.label
              <> (": result hit page limit "
                  <> (digits e.limit e.limit <> "; additional rows may require a fresh export")));
        }
        else rest
  ]

  unfoldable pub fetch_single_window_records : Option ℕ → ℕ → Option ℕ → Option Fetched
  fetch_single_window_records start_time end_time max_span =
      elim (windows_of start_time end_time max_span) [
        | none ↦ none
        | some ws ↦ some (fetch_single_windows ws nothing_collected)
      ]
