-- ===== src/DailyWindow.antt =====
-- internal/dailywindow/dailywindow.go: daily windows on the wall clock of a zone, and whether a span
-- of time meets one. Instants and durations are nanoseconds, durations not negative; the wall clock of
-- a zone (time.Time.In, Clock) is a parameter. Reading and printing of windows is left out.
pub mod Search
pub mod Cover
use glovebox.Prelude.{
  ℕ, zero, suc, ◌==◌, ◌-◌, ◌%◌, ◌+◌, ◌*◌, ◌/◌, Bool, true, false, not, ◌&&◌, ◌||◌, List, [], ◌∷◌,
  ltb, leb, any, Option, none, some, if◌then◌else◌,
}

-- The span [start, finish) in seconds since midnight; one that starts later than it ends wraps.
pub record Window : Type 0 where
  pub start : ℕ
  pub finish : ℕ

unfoldable pub contains_second : Window → ℕ → Bool
contains_second w sec =
    if ltb w.start w.finish
    then leb w.start sec && ltb sec w.finish
    else leb w.start sec || ltb sec w.finish

abbrev pub day_seconds : ℕ
day_seconds = 86400

-- The loop of Covers from the second `sec` to the second `stop`, by minutes.
unfoldable pub covers_from : ℕ → Window → ℕ → ℕ → Bool
covers_from zero w sec stop = false
covers_from (suc fuel) w sec stop =
    let later = covers_from fuel w ((sec + 60) % day_seconds) stop in
    if sec == stop then true else if contains_second w sec then later else false

-- A day has 1440 minutes.
unfoldable pub covers : Window → Window → Bool
covers w other =
    covers_from 1440 w other.start other.finish
    && contains_second w ((other.finish + day_seconds - 1) % day_seconds)

-- Set; a nil location is none.
pub record WindowSet (Location : Type 0) : Type 0 where
  pub windows : List Window
  pub loc : Option Location

-- 15 * time.Second
abbrev pub block_step : ℕ
block_step = 15000000000

-- time.Minute
abbrev pub minute : ℕ
minute = 60000000000

-- 48 * time.Hour
abbrev pub next_clear_horizon : ℕ
next_clear_horizon = 172800000000000

module _ {Location : Type 0} (clock : Location → ℕ → ℕ × ℕ × ℕ) where
  unfoldable pub contains : WindowSet Location → ℕ → Bool
  contains s t = elim s.loc [
    | none ↦ false
    | some loc ↦
        let (h, m, sec) = clock loc t in
        any (λ w. contains_second w (h * 3600 + m * 60 + sec)) s.windows
  ]

  -- The loop of Set.BlocksAt from `d` on, and the last test. The fuel is the number of steps.
  unfoldable pub blocks_from : ℕ → WindowSet Location → ℕ → ℕ → ℕ → Bool
  blocks_from zero s t headroom d = contains s (t + headroom)
  blocks_from (suc fuel) s t headroom d =
      let later = blocks_from fuel s t headroom (d + block_step) in
      if ltb d headroom then contains s (t + d) || later else contains s (t + headroom)

  unfoldable pub set_blocks_at : WindowSet Location → ℕ → ℕ → Bool
  set_blocks_at s t headroom = blocks_from (suc (headroom / block_step)) s t headroom 0

  -- Schedule.BlocksAt
  unfoldable pub blocks_at : List (WindowSet Location) → ℕ → ℕ → Bool
  blocks_at sc t headroom = any (λ s. set_blocks_at s t headroom) sc

  -- The loop of NextClear: whole minutes before `end`.
  unfoldable pub next_clear_from : ℕ → List (WindowSet Location) → ℕ → ℕ → ℕ → Option ℕ
  next_clear_from zero sc headroom end next = none
  next_clear_from (suc fuel) sc headroom end next =
      let later = next_clear_from fuel sc headroom end (next + minute) in
      if ltb next end then (if not (blocks_at sc next headroom) then some next else later) else none

  -- Two days have 2880 minutes.
  unfoldable pub next_clear : List (WindowSet Location) → ℕ → ℕ → Option ℕ
  next_clear sc t headroom =
      let first = t / minute * minute + minute in
      let found = next_clear_from 2880 sc headroom (t + next_clear_horizon) first in
      if not (blocks_at sc t headroom) then some t else found
