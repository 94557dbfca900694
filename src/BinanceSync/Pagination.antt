-- ===== src/BinanceSync/Pagination.antt =====
-- The loop over the pages of a service that answers every page in order.
use mathlib.Core.Path.{subst}
use mathlib.Core.List.{append-nil}
use portfolio_tracker_public.Prelude.{
  ℕ, zero, suc, ◌+◌, ◌*◌, ◌≤◌, ◌<◌, ◌≡◌, refl, sym, ◌∙◌, ap, List, [], ◌∷◌, ◌++◌, Option, none,
  some, if◌then◌else◌, ltb, arith, All, Bool-cases, true, false, inl, inr, ltb→lt, ltb→ge, length,
  take, drop, take-append-drop, drop-drop, length-drop, length-take, take_short, concat_map,
}
use portfolio_tracker_public.BinanceSync.Json.{Json, Fields, history_rows}
use portfolio_tracker_public.BinanceSync.Windows.{Window}
use portfolio_tracker_public.BinanceSync.Pages.{
  Transaction, page, Collected, Fetched, Endpoint, append_unique_record, append_unique_records,
  page_records, fetch_pages, fetch_windows,
}

append_unique_records-append :
    (got : Collected) (xs ys : List Transaction)
    → append_unique_records got (xs ++ ys) ≡ append_unique_records (append_unique_records got xs) ys
unfolding append_unique_records
append_unique_records-append got [] ys = refl
append_unique_records-append got (x ∷ xs) ys =
    append_unique_records-append (append_unique_record got x) xs ys

-- A service that has a payload for the page at each position of a window: the rows of the payloads are
-- those of the window in order, `limit` at a time.
pub record IsServed (e : Endpoint) (first advance : ℕ) (payloads : Window → ℕ → Json)
    (rows : Window → List Fields) : Type 0 where
  pub answers :
      (w : Window) (k : ℕ)
      → e.fetch_page w.start_at w.end_at e.limit (first + k * advance) ≡ page (payloads w k)
  pub rows_of_pages :
      (w : Window) (k : ℕ)
      → history_rows (payloads w k) ≡ take e.limit (drop (k * e.limit) (rows w))

-- The payloads from the k-th one on, up to the first that is not full.
abbrev pub pages_from : (ℕ → Json) → ℕ → ℕ → ℕ → List Json
pages_from payloads limit zero k = []
pages_from payloads limit (suc fuel) k =
    let rest = pages_from payloads limit fuel (suc k) in
    payloads k ∷ (if ltb (length (history_rows (payloads k))) limit then [] else rest)

abbrev pub fetched_all : Collected → Option Fetched
fetched_all got = some (record { collected = got; warning = none })

module _ (e : Endpoint) (first advance : ℕ) (payloads : Window → ℕ → Json)
    (rows : Window → List Fields) (served : IsServed e first advance payloads rows)
    (some_rows : 0 < e.limit) where
  -- The rows from the k-th page on.
  abbrev left : Window → ℕ → List Fields
  left w k = drop (k * e.limit) (rows w)

  left_next : (w : Window) (k : ℕ) → left w (suc k) ≡ drop e.limit (left w k)
  left_next w k =
      let skip : suc k * e.limit ≡ k * e.limit + e.limit = omega arith in
      ap (λ n. drop n (rows w)) skip ∙ drop-drop (k * e.limit) e.limit (rows w)

  short_page :
      (w : Window) (k : ℕ)
      → ltb (length (history_rows (payloads w k))) e.limit ≡ true
      → history_rows (payloads w k) ≡ left w k
  short_page w k short =
      let page_rows = served.rows_of_pages w k in
      let fewer =
        subst (λ ys. length ys < e.limit) page_rows
          (ltb→lt (length (history_rows (payloads w k))) e.limit short) in
      page_rows ∙ take_short e.limit (left w k) fewer

  full_page :
      (w : Window) (k fuel : ℕ)
      → ltb (length (history_rows (payloads w k))) e.limit ≡ false
      → length (left w k) < suc fuel
      → length (left w (suc k)) < fuel
  full_page w k fuel full h =
      let enough =
        subst (λ ys. e.limit ≤ length ys) (served.rows_of_pages w k)
          (ltb→ge (length (history_rows (payloads w k))) e.limit full) in
      let shorter = length-drop e.limit (left w k) in
      let longer = length-take e.limit (left w k) in
      let fewer : length (drop e.limit (left w k)) < fuel = omega arith in
      subst (λ ys. length ys < fuel) (sym (left_next w k)) fewer

  -- The pages up to the first that is not full have all rows.
  pages_from-rows :
      (w : Window) (fuel k : ℕ)
      → length (left w k) < fuel
      → concat_map history_rows (pages_from (payloads w) e.limit fuel k) ≡ left w k
  pages_from-rows w zero k h = absurd (omega arith)
  pages_from-rows w (suc fuel) k h =
      elim (Bool-cases (ltb (length (history_rows (payloads w k))) e.limit)) [
        | inl short ↦ rw short (append-nil (history_rows (payloads w k)) ∙ short_page w k short)
        | inr full ↦ rw full (
            ap (λ ys. history_rows (payloads w k) ++ ys)
              (pages_from-rows w fuel (suc k) (full_page w k fuel full h) ∙ left_next w k)
            ∙ ap (λ ys. ys ++ drop e.limit (left w k)) (served.rows_of_pages w k)
            ∙ take-append-drop e.limit (left w k))
      ]

  pub all_rows :
      (w : Window) (fuel : ℕ)
      → length (rows w) < fuel
      → concat_map history_rows (pages_from (payloads w) e.limit fuel 0) ≡ rows w
  all_rows w fuel h =
      let none_skipped : 0 * e.limit ≡ 0 = omega arith in
      let whole : left w 0 ≡ rows w = ap (λ n. drop n (rows w)) none_skipped in
      pages_from-rows w fuel 0 (subst (λ ys. length ys < fuel) (sym whole) h) ∙ whole

  fetch_pages-page :
      (w : Window) (fuel position : ℕ) (got : Collected) (payload : Json)
      → e.fetch_page w.start_at w.end_at e.limit position ≡ page payload
      → fetch_pages e advance (suc fuel) w position got ≡ (
          if ltb (length (history_rows payload)) e.limit
          then fetched_all (append_unique_records got (page_records e w payload))
          else fetch_pages e advance fuel w
              (position + advance)
              (append_unique_records got (page_records e w payload)))
  unfolding fetch_pages
  fetch_pages-page w fuel position got payload answer = rw (fetch_pages, answer) refl

  fetch_pages-served :
      (w : Window) (fuel k : ℕ) (got : Collected)
      → length (left w k) < fuel
      → fetch_pages e advance fuel w (first + k * advance) got
        ≡ fetched_all (
            append_unique_records got
              (concat_map (page_records e w) (pages_from (payloads w) e.limit fuel k)))
  fetch_pages-served w zero k got h = absurd (omega arith)
  fetch_pages-served w (suc fuel) k got h =
      let mine = page_records e w (payloads w k) in
      let next = append_unique_records got mine in
      let answered =
        fetch_pages-page w fuel (first + k * advance) got (payloads w k) (served.answers w k) in
      elim (Bool-cases (ltb (length (history_rows (payloads w k))) e.limit)) [
        | inl short ↦
            answered
            ∙ rw short
                (ap (λ rs. fetched_all (append_unique_records got rs)) (sym (append-nil mine)))
        | inr full ↦
            let further : (first + k * advance) + advance ≡ first + suc k * advance = omega arith in
            answered
            ∙ rw full (
                ap (λ p. fetch_pages e advance fuel w p next) further
                ∙ fetch_pages-served w fuel (suc k) next (full_page w k fuel full h)
                ∙ ap fetched_all (sym (append_unique_records-append got mine _)))
      ]

  pub fetch_windows-served :
      (fuel : ℕ) (ws : List Window) (got : Collected)
      → All (λ w. length (rows w) < fuel) ws
      → fetch_windows e first advance fuel ws got
        ≡ fetched_all (
            append_unique_records got (
              concat_map
                (λ w. concat_map (page_records e w) (pages_from (payloads w) e.limit fuel 0))
                ws))
  unfolding fetch_windows append_unique_records
  fetch_windows-served fuel [] got h = refl
  fetch_windows-served fuel (w ∷ ws) got h =
      let start : first ≡ first + 0 * advance = omega arith in
      let none_skipped : 0 * e.limit ≡ 0 = omega arith in
      let whole : left w 0 ≡ rows w = ap (λ n. drop n (rows w)) none_skipped in
      let all =
        ap (λ p. fetch_pages e advance fuel w p got) start
        ∙ fetch_pages-served w fuel 0 got (subst (λ ys. length ys < fuel) (sym whole) h.0) in
      rw (fetch_windows, all)
        (fetch_windows-served fuel ws _ h.1
          ∙ ap fetched_all (
              sym (
                append_unique_records-append got
                  (concat_map (page_records e w) (pages_from (payloads w) e.limit fuel 0)) _)))
