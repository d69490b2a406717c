-- ===== src/DailyWindow/Cover.antt =====
-- Window.Covers of internal/dailywindow/dailywindow.go, which looks at a window minute by minute.
use glovebox.Prelude.{
  ℕ, zero, suc, ◌+◌, ◌-◌, ◌*◌, ◌/◌, ◌%◌, ◌<◌, ◌≡◌, ◌≢◌, ◌↔◌, refl, sym, ap, ◌∙◌, inl, inr, true,
  false, ◌==◌, &&_iff, arith, Bool-cases,
}
use glovebox.DailyWindow.{Window, day_seconds, contains_second, covers_from, covers}

-- The bounds are whole minutes of a day, and differ, as Parse has them.
pub record IsParsed (w : Window) : Type 0 where
  pub first : ℕ
  pub last : ℕ
  pub starts : w.start ≡ 60 * first
  pub ends : w.finish ≡ 60 * last
  pub first_within : first < 1440
  pub last_within : last < 1440
  pub differ : first ≢ last

-- A test carried along an equation of the seconds.
at : (w : Window) {a b : ℕ} → a ≡ b → contains_second w a ≡ true → contains_second w b ≡ true
at w e h = ap (contains_second w) (sym e) ∙ h

later : (m i : ℕ) → 60 * ((m + suc i) % 1440) ≡ 60 * (((m + 1) % 1440 + i) % 1440)
later m i = omega arith

shifted :
    (w : Window) (k m i : ℕ)
    → contains_second w (60 * m) ≡ true
    → i < suc k
    → ((j : ℕ) → j < k → contains_second w (60 * (((m + 1) % 1440 + j) % 1440)) ≡ true)
    → m < 1440
    → contains_second w (60 * ((m + i) % 1440)) ≡ true
shifted w k m zero c n rest l = at w (omega (arith, l)) c
shifted w k m (suc j) c n rest l = at w (sym (later m j)) (rest j (omega (arith, n)))

covers_from_iff :
    (fuel k m d : ℕ) (w : Window)
    → k < fuel
    → k < 1440
    → m < 1440
    → d ≡ (m + k) % 1440
    → (covers_from fuel w (60 * m) (60 * d) ≡ true)
      ↔ ((i : ℕ) → i < k → contains_second w (60 * ((m + i) % 1440)) ≡ true)
unfolding covers_from
covers_from_iff zero k m d w f h l e = absurd (omega (arith, f))
covers_from_iff (suc fuel) zero m d w f h l e =
    let q : (60 * m == 60 * d) ≡ true = ground (arith, e, l) in
    rw q (λ t i n. absurd (omega (arith, n)), λ t. refl)
covers_from_iff (suc fuel) (suc k) m d w f h l e =
    let q : (60 * m == 60 * d) ≡ false = ground (arith, e, l, h) in
    let next : (60 * m + 60) % day_seconds ≡ 60 * ((m + 1) % 1440) = omega (arith, l) in
    let ih =
      covers_from_iff fuel k ((m + 1) % 1440) d w (omega (arith, f)) (omega (arith, h))
        (omega arith) (omega (arith, e)) in
    let here : 60 * ((m + 0) % 1440) ≡ 60 * m = omega (arith, l) in
    elim (Bool-cases (contains_second w (60 * m))) [
      | inl c ↦
          rw (q, c, next)
            (
              λ t i n. shifted w k m i c n (ih.0 t) l,
              λ t. ih.1 (λ i n. at w (later m i) (t (suc i) (omega (arith, n)))),
            )
      | inr c ↦ rw (q, c) (λ t. cc, λ t. absurd (ground (arith, c, at w here (t 0 (omega arith)))))
    ]

minute_start :
    (w : Window) (v : IsParsed w) (sec : ℕ)
    → contains_second w (60 * (sec / 60)) ≡ contains_second w sec
unfolding contains_second
minute_start w v sec = ground (arith, v.starts, v.ends)

-- The minutes of a window, counted from its first.
steps : (c d : ℕ) → ℕ
steps c d = (d + 1440 - c) % 1440

minute_inside :
    (o : Window) (v : IsParsed o) (i : ℕ)
    → i < steps v.first v.last
    → contains_second o (60 * ((v.first + i) % 1440)) ≡ true
unfolding contains_second steps
minute_inside o v i n = ground (arith, v.starts, v.ends, v.first_within, v.last_within, n)

inside_minute :
    (o : Window) (v : IsParsed o) (sec : ℕ)
    → sec < day_seconds
    → contains_second o sec ≡ true
    → (sec / 60 + 1440 - v.first) % 1440 < steps v.first v.last
unfolding contains_second steps
inside_minute o v sec l h =
    ground (arith, v.starts, v.ends, v.first_within, v.last_within, v.differ)

last_inside :
    (o : Window) (v : IsParsed o)
    → contains_second o ((o.finish + day_seconds - 1) % day_seconds) ≡ true
unfolding contains_second
last_inside o v = ground (arith, v.starts, v.ends, v.first_within, v.last_within, v.differ)

same_minute :
    (o : Window) (v : IsParsed o) (sec : ℕ)
    → sec < day_seconds
    → 60 * ((v.first + (sec / 60 + 1440 - v.first) % 1440) % 1440) ≡ 60 * (sec / 60)
same_minute o v sec l = omega (arith, l, v.first_within)

steps_end : (o : Window) (v : IsParsed o) → v.last ≡ (v.first + steps v.first v.last) % 1440
unfolding steps
steps_end o v = omega (arith, v.first_within, v.last_within)

steps-lt : (c d : ℕ) → steps c d < 1440
unfolding steps
steps-lt c d = omega arith

-- For windows as Parse makes them, the one covers the other exactly when every second of a day that
-- the other contains is in the first: the loop by minutes misses none, and it ends within a day.
pub covers_iff :
    (w other : Window)
    → IsParsed w
    → IsParsed other
    → (covers w other ≡ true) ↔ (
        (sec : ℕ)
        → sec < day_seconds
        → contains_second other sec ≡ true
        → contains_second w sec ≡ true)
unfolding covers
covers_iff w o u v =
    let k = steps v.first v.last in
    let loop =
      covers_from_iff 1440 k v.first v.last w (steps-lt v.first v.last) (steps-lt v.first v.last)
        v.first_within (steps_end o v) in
    let bounds : covers_from 1440 w o.start o.finish
        ≡ covers_from 1440 w (60 * v.first) (60 * v.last) =
      rw (v.starts, v.ends) refl in
    (
      λ h sec l inside.
          let ran : covers_from 1440 w (60 * v.first) (60 * v.last) ≡ true =
            sym bounds ∙ ((&&_iff _ _).0 h).0 in
          let start = loop.0 ran _ (inside_minute o v sec l inside) in
          sym (minute_start w u sec) ∙ at w (same_minute o v sec l) start,
      λ h.
          let ran = bounds ∙ loop.1 (λ i n. h _ (omega arith) (minute_inside o v i n)) in
          rw ran (h _ (omega arith) (last_inside o v)),
    )
