-- ===== src/Examples/Windows.antt =====
-- An evening blackout of internal/dailywindow, on a clock that reads the nanoseconds of one zone.
use glovebox.Prelude.{
  ◌⊎◌, arith, refl, ℕ, ◌+◌, ◌*◌, ◌/◌, ◌%◌, ◌≤◌, ◌<◌, ◌≡◌, ◌↔◌, true, false, [], ◌∷◌, none, some,
}
use glovebox.DailyWindow.{
  Window, day_seconds, contains_second, covers, WindowSet, blocks_at, next_clear, minute,
  next_clear_horizon,
}
use glovebox.DailyWindow.Cover.{IsParsed, covers_iff}
use glovebox.DailyWindow.Search.{next_clear_lem}

abbrev utc : Unit {0} → ℕ → ℕ × ℕ × ℕ
utc loc t = (t / 3600000000000 % 24, t / 60000000000 % 60, t / 1000000000 % 60)

-- 00:00 to 00:05, and an instant two minutes into it.
abbrev early : WindowSet Unit
early = record { windows = record { start = 0; finish = 300 } ∷ []; loc = some tt }

abbrev now : ℕ
now = 120000000000

next_clear_lem_example :
    ((r : ℕ)
      → next_clear utc (early ∷ []) now minute ≡ some r
      → (now ≤ r)
        × (blocks_at utc (early ∷ []) r minute ≡ false)
        × ((r ≡ now)
            ⊎ ((blocks_at utc (early ∷ []) now minute ≡ true)
                × ((m : ℕ) × (r ≡ minute * m))
                × ((m : ℕ)
                    → now < minute * m
                    → minute * m < r
                    → blocks_at utc (early ∷ []) (minute * m) minute ≡ true))))
    × (next_clear utc (early ∷ []) now minute ≡ none
        → (blocks_at utc (early ∷ []) now minute ≡ true)
          × ((m : ℕ)
              → now < minute * m
              → minute * m < now + next_clear_horizon
              → blocks_at utc (early ∷ []) (minute * m) minute ≡ true))
next_clear_lem_example = next_clear_lem utc (early ∷ []) now minute

abbrev night : Window
night = record { start = 79200; finish = 7200 }

abbrev hour : Window
hour = record { start = 82800; finish = 0 }

night-IsParsed : IsParsed night
night-IsParsed = record {
  first = 1320;
  last = 120;
  starts = refl;
  ends = refl;
  first_within = omega arith;
  last_within = omega arith;
  differ = λ e. omega (arith, e);
}

hour-IsParsed : IsParsed hour
hour-IsParsed = record {
  first = 1380;
  last = 0;
  starts = refl;
  ends = refl;
  first_within = omega arith;
  last_within = omega arith;
  differ = λ e. omega (arith, e);
}

covers_iff_example : (covers night hour ≡ true) ↔ (
    (sec : ℕ)
    → sec < day_seconds
    → contains_second hour sec ≡ true
    → contains_second night sec ≡ true)
covers_iff_example = covers_iff night hour night-IsParsed hour-IsParsed
