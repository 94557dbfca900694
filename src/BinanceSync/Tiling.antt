-- ===== src/BinanceSync/Tiling.antt =====
-- The windows of an interval, and that the loop ends.
use portfolio_tracker_public.Prelude.{
  ℕ, zero, suc, ◌+◌, ◌-◌, ◌≤◌, ◌<◌, ◌≡◌, refl, ◌*◌, List, [], ◌∷◌, none, some, Bool, true, false,
  ◌&&◌, if◌then◌else◌, ltb, leb, arith, All, Bool-cases, inl, inr, ltb→lt, ltb→ge,
}
use portfolio_tracker_public.BinanceSync.Windows.{
  Window, window, window_end, windows_from, iter_time_windows,
}

abbrev pub covers : ℕ → Window → Bool
covers t w = elim w.start_at [ none ↦ leb t w.end_at | some start ↦ leb start t && leb t w.end_at ]

-- The number of windows that a time lies in.
abbrev pub covering : ℕ → List Window → ℕ
covering t [] = 0
covering t (w ∷ ws) = (if covers t w then 1 else 0) + covering t ws

-- A window of the interval that is no longer than the span.
abbrev pub IsWindowOf : ℕ → ℕ → ℕ → Window → Type 0
IsWindowOf start_time end_time max_span w =
    (s : ℕ) × (w.start_at ≡ some s)
    × (start_time ≤ s)
    × (s ≤ w.end_at)
    × (w.end_at ≤ end_time)
    × (w.end_at ≤ s + max_span)

-- What the loop gives from a cursor on.
pub record Tiles (start cursor end_time max_span : ℕ) (ws : List Window) : Type 0 where
  pub once : (t : ℕ) → cursor ≤ t → t < end_time → covering t ws ≡ 1
  pub outside : (t : ℕ) → t < cursor → covering t ws ≡ 0
  pub beyond : (t : ℕ) → end_time < t → covering t ws ≡ 0
  pub bounded : All (IsWindowOf start end_time max_span) ws

window_end-last :
    (cursor end_time max_span : ℕ)
    → ltb (cursor + max_span) end_time ≡ false
    → window_end cursor end_time max_span ≡ end_time
unfolding window_end
window_end-last cursor end_time max_span h = rw h refl

window_end-inner :
    (cursor end_time max_span : ℕ)
    → ltb (cursor + max_span) end_time ≡ true
    → window_end cursor end_time max_span ≡ cursor + max_span
unfolding window_end
window_end-inner cursor end_time max_span h = rw h refl

module _ (start end_time max_span : ℕ) where
  Tiles-last :
      (cursor : ℕ)
      → start ≤ cursor
      → cursor < end_time
      → end_time ≤ cursor + max_span
      → Tiles start cursor end_time max_span (window cursor end_time ∷ [])
  Tiles-last cursor s more last = record {
    once = λ t a b. ground arith;
    outside = λ t a. (ground arith);
    beyond = λ t a. (ground arith);
    bounded = ((cursor, refl, s, omega arith, omega arith, omega arith), tt);
  }

  Tiles-inner :
      (cursor : ℕ) (ws : List Window)
      → start ≤ cursor
      → cursor + max_span < end_time
      → Tiles start (cursor + max_span + 1) end_time max_span ws
      → Tiles start cursor end_time max_span (window cursor (cursor + max_span) ∷ ws)
  Tiles-inner cursor ws s inner tiles = record {
    once = λ t a b. elim (Bool-cases (ltb (cursor + max_span) t)) [
      | inr before ↦
          let le = ltb→ge (cursor + max_span) t before in
          let e = tiles.outside t (omega arith) in ground arith
      | inl after ↦
          let lt = ltb→lt (cursor + max_span) t after in
          let e = tiles.once t (omega arith) b in ground arith
    ];
    outside = λ t a. (let e = tiles.outside t (omega arith) in ground arith);
    beyond = λ t a. (let e = tiles.beyond t a in ground arith);
    bounded = ((cursor, refl, s, omega arith, omega arith, omega arith), tiles.bounded);
  }

  windows_from-Tiles :
      (fuel cursor : ℕ)
      → start ≤ cursor
      → end_time - cursor < fuel
      → (ws : List Window) × (windows_from fuel cursor end_time max_span ≡ some ws)
        × Tiles start cursor end_time max_span ws
  unfolding windows_from
  windows_from-Tiles zero cursor s h = absurd (omega arith)
  windows_from-Tiles (suc fuel) cursor s h = elim (Bool-cases (ltb cursor end_time)) [
    | inr done ↦ (
      [],
      rw done refl,
      let le = ltb→ge cursor end_time done in
          record {
            once = λ t a b. absurd (omega arith);
            outside = λ t a. refl;
            beyond = λ t a. refl;
            bounded = tt;
          },
    )
    | inl more ↦ elim (Bool-cases (ltb (cursor + max_span) end_time)) [
      | inr last ↦ (
        window cursor end_time ∷ [],
        rw (more, window_end-last cursor end_time max_span last) (ground arith),
        Tiles-last cursor s (ltb→lt cursor end_time more)
            (ltb→ge (cursor + max_span) end_time last),
      )
      | inl inner ↦
          let lt = ltb→lt (cursor + max_span) end_time inner in
          let (ws, e, tiles) =
            windows_from-Tiles fuel (cursor + max_span + 1) (omega arith) (omega arith) in
          (
            window cursor (cursor + max_span) ∷ ws,
            rw (more, window_end-inner cursor end_time max_span inner) (rw e (ground arith)),
            Tiles-inner cursor ws s lt tiles,
          )
    ]
  ]

-- For every interval with a start the loop ends with a list of windows: each starts and ends within
-- the interval and is no longer than the span, and every time from the start to before the end lies in
-- exactly one of them.
pub iter_time_windows_tile :
    (start_time end_time max_span : ℕ)
    → (ws : List Window) × (iter_time_windows (some start_time) end_time max_span ≡ some ws)
      × All (IsWindowOf start_time end_time max_span) ws
      × ((t : ℕ) → start_time ≤ t → t < end_time → covering t ws ≡ 1)
unfolding iter_time_windows
iter_time_windows_tile start_time end_time max_span =
    let (ws, e, tiles) =
      windows_from-Tiles start_time end_time max_span (suc (end_time - start_time)) start_time
        (omega arith) (omega arith) in
    (ws, e, tiles.bounded, tiles.once)

module _ (end_time max_span : ℕ) where
  windows_from_misses :
      (k fuel cursor : ℕ)
      → end_time ≡ cursor + k * (max_span + 1)
      → k < fuel
      → (ws : List Window) × (windows_from fuel cursor end_time max_span ≡ some ws)
        × (covering end_time ws ≡ 0)
  unfolding windows_from
  windows_from_misses k zero cursor e h = absurd (omega arith)
  windows_from_misses zero (suc fuel) cursor e h = ([], ground arith, refl)
  windows_from_misses (suc k) (suc fuel) cursor e h =
      let later : end_time ≡ (cursor + max_span + 1) + k * (max_span + 1) = omega arith in
      let more : ltb cursor end_time ≡ true = ground arith in
      let inner : ltb (cursor + max_span) end_time ≡ true = ground arith in
      let (ws, f, none_more) =
        windows_from_misses k fuel (cursor + max_span + 1) later (omega arith) in
      (
        window cursor (cursor + max_span) ∷ ws,
        rw (more, window_end-inner cursor end_time max_span inner) (rw f (ground arith)),
        ground arith,
      )

-- Where the interval is a whole number of spans, with a microsecond for each, the end of the interval
-- lies in none of its windows.
pub iter_time_windows_misses_end :
    (start_time max_span k : ℕ)
    → (ws : List Window) × (iter_time_windows
          (some start_time)
          (start_time + k * (max_span + 1))
          max_span
        ≡ some ws)
      × (covering (start_time + k * (max_span + 1)) ws ≡ 0)
unfolding iter_time_windows
iter_time_windows_misses_end start_time max_span k =
    windows_from_misses (start_time + k * (max_span + 1)) max_span k
      (suc (start_time + k * (max_span + 1) - start_time)) start_time refl (omega arith)
