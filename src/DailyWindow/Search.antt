-- ===== src/DailyWindow/Search.antt =====
-- The loops of internal/dailywindow/dailywindow.go: which instants BlocksAt looks at, and what
-- NextClear finds.
use glovebox.Prelude.{
  ℕ, zero, suc, ◌+◌, ◌*◌, ◌/◌, ◌≤◌, ◌<◌, ◌≡◌, ◌↔◌, ◌⊎◌, inl, inr, refl, sym, ap, ◌∙◌, true, false,
  List, ltb, arith, none, some, Bool-cases, some-injective,
}
use glovebox.DailyWindow.{
  WindowSet, block_step, minute, next_clear_horizon, contains, blocks_from, set_blocks_at,
  blocks_at, next_clear_from, next_clear,
}

-- An instant `d` after the start is looked at: each 15 seconds, and the end.
abbrev pub IsSample : ℕ → ℕ → Type 0
IsSample headroom d = ((i : ℕ) × (d ≡ block_step * i) × (d < headroom)) ⊎ (d ≡ headroom)

-- A sample from step `j` on.
abbrev SampleFrom : ℕ → ℕ → ℕ → Type 0
SampleFrom j headroom d =
    ((i : ℕ) × (d ≡ block_step * i) × (j ≤ i) × (d < headroom)) ⊎ (d ≡ headroom)

weaken : (j headroom d : ℕ) → SampleFrom (suc j) headroom d → SampleFrom j headroom d
weaken j headroom d (inl (i, e, k, l)) = inl (i, e, omega (arith, k), l)
weaken j headroom d (inr e) = inr e

first_or_later :
    (j headroom d : ℕ)
    → SampleFrom j headroom d
    → (d ≡ block_step * j) ⊎ SampleFrom (suc j) headroom d
first_or_later j headroom d (inr e) = inr (inr e)
first_or_later j headroom d (inl (i, e, k, l)) = elim (Bool-cases (ltb j i)) [
  | inl q ↦ inr (inl (i, e, ground (arith, q), l))
  | inr q ↦ inl (ground (arith, q, e, k))
]

of-IsSample : (headroom d : ℕ) → SampleFrom 0 headroom d → IsSample headroom d
of-IsSample headroom d (inl (i, e, k, l)) = inl (i, e, l)
of-IsSample headroom d (inr e) = inr e

to-IsSample : (headroom d : ℕ) → IsSample headroom d → SampleFrom 0 headroom d
to-IsSample headroom d (inl (i, e, l)) = inl (i, e, omega arith, l)
to-IsSample headroom d (inr e) = inr e

module _ {Location : Type 0} (clock : Location → ℕ → ℕ × ℕ × ℕ) where
  blocks_from_iff :
      (fuel j : ℕ) (s : WindowSet Location) (t headroom : ℕ)
      → headroom < block_step * (fuel + j)
      → (blocks_from clock fuel s t headroom (block_step * j) ≡ true)
        ↔ ((d : ℕ) × SampleFrom j headroom d × (contains clock s (t + d) ≡ true))
  unfolding blocks_from
  blocks_from_iff zero j s t headroom h = (
    λ e. (headroom, inr refl, e),
    λ r.
        let (d, sample, c) = r in
        elim sample [
          | inl (i, e, k, l) ↦ absurd (omega (arith, h, e, k, l))
          | inr e ↦ ap (λ x. contains clock s (t + x)) (sym e) ∙ c
        ],
  )
  blocks_from_iff (suc fuel) j s t headroom h =
      let next : block_step * j + block_step ≡ block_step * suc j = omega arith in
      let ih = blocks_from_iff fuel (suc j) s t headroom (omega (arith, h)) in
      elim (Bool-cases (ltb (block_step * j) headroom)) [
        | inl q ↦
            rw (q, next)
              (
                λ e. elim (Bool-cases (contains clock s (t + block_step * j))) [
                  | inl c ↦ (block_step * j, inl (j, refl, omega arith, ground (arith, q)), c)
                  | inr c ↦
                      let (d, sample, k) = ih.0 (ground (arith, e, c)) in
                      (d, weaken j headroom d sample, k)
                ],
                λ r.
                    let (d, sample, c) = r in
                    elim (first_or_later j headroom d sample) [
                      | inl e ↦
                          let c' : contains clock s (t + block_step * j) ≡ true =
                            ap (λ x. contains clock s (t + x)) (sym e) ∙ c in
                          rw c' refl
                      | inr later ↦ let k = ih.1 (d, later, c) in ground (arith, k)
                    ],
              )
        | inr q ↦ rw q (
          λ e. (headroom, inr refl, e),
          λ r.
              let (d, sample, c) = r in
              elim sample [
                | inl (i, e, k, l) ↦ absurd (ground (arith, q, e, k, l))
                | inr e ↦ ap (λ x. contains clock s (t + x)) (sym e) ∙ c
              ],
        )
      ]

  -- BlocksAt says that a set blocks exactly when one of the instants that lie whole steps of 15
  -- seconds after the start and before the end, or the end itself, is inside a window of it.
  set_blocks_at_iff :
      (s : WindowSet Location) (t headroom : ℕ)
      → (set_blocks_at clock s t headroom ≡ true)
        ↔ ((d : ℕ) × IsSample headroom d × (contains clock s (t + d) ≡ true))
  unfolding set_blocks_at
  set_blocks_at_iff s t headroom =
      let all_steps = blocks_from_iff (suc (headroom / block_step)) 0 s t headroom (omega arith) in
      (
        λ e. let (d, sample, c) = all_steps.0 e in (d, of-IsSample headroom d sample, c),
        λ r. let (d, sample, c) = r in all_steps.1 (d, to-IsSample headroom d sample, c),
      )

  from_next :
      (sc : List (WindowSet Location)) (headroom q m : ℕ)
      → blocks_at clock sc (minute * q) headroom ≡ true
      → q ≤ m
      → (suc q ≤ m → blocks_at clock sc (minute * m) headroom ≡ true)
      → blocks_at clock sc (minute * m) headroom ≡ true
  from_next sc headroom q m c l later = elim (Bool-cases (ltb q m)) [
    | inl e ↦ later (ground (arith, e))
    | inr e ↦
        let same : q ≡ m = ground (arith, e, l) in
        ap (λ x. blocks_at clock sc (minute * x) headroom) (sym same) ∙ c
  ]

  next_clear_from_lem :
      (fuel q : ℕ) (sc : List (WindowSet Location)) (headroom end : ℕ)
      → end ≤ minute * (fuel + q)
      → ((r : ℕ)
          → next_clear_from clock fuel sc headroom end (minute * q) ≡ some r
          → (minute * q ≤ r)
            × (r < end)
            × (blocks_at clock sc r headroom ≡ false)
            × ((m : ℕ) → q ≤ m → minute * m < r → blocks_at clock sc (minute * m) headroom ≡ true)
            × ((m : ℕ) × (r ≡ minute * m)))
        × (next_clear_from clock fuel sc headroom end (minute * q) ≡ none
            → (m : ℕ) → q ≤ m
            → minute * m < end
            → blocks_at clock sc (minute * m) headroom ≡ true)
  unfolding next_clear_from
  next_clear_from_lem zero q sc headroom end h =
      (λ r e. cc, λ e m k l. absurd (omega (arith, h, k, l)))
  next_clear_from_lem (suc fuel) q sc headroom end h =
      let next : minute * q + minute ≡ minute * suc q = omega arith in
      let ih = next_clear_from_lem fuel (suc q) sc headroom end (omega (arith, h)) in
      elim (Bool-cases (ltb (minute * q) end)) [
        | inr e ↦ rw e (λ r k. cc, λ k m l n. absurd (ground (arith, e, l, n)))
        | inl e ↦ elim (Bool-cases (blocks_at clock sc (minute * q) headroom)) [
          | inr c ↦
              rw (e, c)
                (
                  λ r k.
                      let same : minute * q ≡ r = some-injective k in
                      (
                        omega (arith, same),
                        ground (arith, e, same),
                        ap (λ x. blocks_at clock sc x headroom) (sym same) ∙ c,
                        λ m l n. absurd (omega (arith, same, l, n)),
                        (q, sym same),
                      ),
                  λ k. cc,
                )
          | inl c ↦
              rw (e, c, next)
                (
                  λ r k.
                      let (low, high, free, before, whole) = ih.0 r k in
                      (
                        omega (arith, low),
                        high,
                        free,
                        λ m l n. from_next sc headroom q m c l (λ l'. before m l' n),
                        whole,
                      ),
                  λ k m l n. from_next sc headroom q m c l (λ l'. ih.1 k m l' n),
                )
        ]
      ]

  -- The instant that NextClear returns is not before `t` and is not blocked; it is `t`, or `t` is
  -- blocked and it is the first whole minute after `t` that is not; when it finds none, `t` and every
  -- whole minute of the 48 hours after it are blocked.
  pub next_clear_lem :
      (sc : List (WindowSet Location)) (t headroom : ℕ)
      → ((r : ℕ)
          → next_clear clock sc t headroom ≡ some r
          → (t ≤ r)
            × (blocks_at clock sc r headroom ≡ false)
            × ((r ≡ t)
                ⊎ ((blocks_at clock sc t headroom ≡ true)
                    × ((m : ℕ) × (r ≡ minute * m))
                    × ((m : ℕ)
                        → t < minute * m
                        → minute * m < r
                        → blocks_at clock sc (minute * m) headroom ≡ true))))
        × (next_clear clock sc t headroom ≡ none
            → (blocks_at clock sc t headroom ≡ true)
              × ((m : ℕ)
                  → t < minute * m
                  → minute * m < t + next_clear_horizon
                  → blocks_at clock sc (minute * m) headroom ≡ true))
  unfolding next_clear
  next_clear_lem sc t headroom =
      let q = suc (t / minute) in
      let first : t / minute * minute + minute ≡ minute * suc (t / minute) = omega arith in
      let found =
        next_clear_from_lem 2880 (suc (t / minute)) sc headroom (t + next_clear_horizon)
          (omega arith) in
      elim (Bool-cases (blocks_at clock sc t headroom)) [
        | inr c ↦ rw c (
          λ r k.
              let same : t ≡ r = some-injective k in
              (
                omega (arith, same),
                ap (λ x. blocks_at clock sc x headroom) (sym same) ∙ c,
                inl (sym same),
              ),
          λ k. cc,
        )
        | inl c ↦
            rw (c, first)
              (
                λ r k.
                    let (low, high, free, before, whole) = found.0 r k in
                    (
                      omega (arith, low),
                      free,
                      inr (refl, whole, λ m l n. before m (omega (arith, l)) n),
                    ),
                λ k. (refl, λ m l n. found.1 k m (omega (arith, l)) n),
              )
      ]
