-- ===== src/LoginBroker/Deferral.antt =====
-- When a client whose login is deferred may come back: gate and deferred of
-- internal/loginbroker/broker.go, over NextClear of internal/dailywindow/dailywindow.go.
use mathlib.Core.Path.{subst}
use glovebox.Prelude.{
  ℕ, ◌+◌, ◌-◌, ◌≤◌, ◌≡◌, ◌≢◌, ◌⊎◌, inl, inr, refl, sym, ap, ◌∙◌, false, not, ◌&&◌, ltb, leb, ◌==◌,
  [], Option, none, some, arith, Bool-cases,
}
use glovebox.DailyWindow.{blocks_at}
use glovebox.DailyWindow.Search.{next_clear_lem}
use glovebox.LoginVault.{State, logins_on}
use glovebox.LoginBroker.Policy.{
  Broker, Response, Code, answer, defer_until, gate, last_login, deferred, budget_exhausted,
  blackout, min_interval, cooldown,
}

module _ {Session Location : Type 0} (b : Broker Session Location) where
  -- A deferral from a time that is not before `t`, or an answer that is none.
  abbrev IsDeferral : ℕ → Response → Type 0
  IsDeferral t r =
      ((c : Code) × (earliest : ℕ) × (t ≤ earliest) × (r ≡ defer_until b c earliest))
      ⊎ (r.outcome ≢ deferred)

  abbrev Holds : ℕ → Option Response → Type 0
  Holds t none = Unit
  Holds t (some r) = IsDeferral t r

  spent :
      (u : Option ℕ)
      → (record (answer b budget_exhausted none []) { retry_after = u }).outcome ≢ deferred
  unfolding answer
  spent u e = ground (arith, e)

  gate_deferrals : (t : ℕ) (s : State) (logged_in_at : ℕ) → Holds t (gate b t s logged_in_at)
  unfolding gate
  gate_deferrals t s logged_in_at = elim (Bool-cases (blocks_at b.clock b.windows t b.headroom)) [
    | inl q ↦ rw (Holds, q) (inl (blackout, t, omega arith, refl))
    | inr q ↦
        elim (Bool-cases
          (not (last_login b s logged_in_at == 0) && ltb t (last_login b s logged_in_at))) [
            | inl n ↦ rw (Holds, q, n) (inl (min_interval, t + b.interval, omega arith, refl))
            | inr n ↦
                elim (Bool-cases (
                  not (last_login b s logged_in_at == 0)
                  && ltb (t - last_login b s logged_in_at) b.interval)) [
                    | inl m ↦
                        rw (Holds, q, n, m)
                          (inl (
                            min_interval,
                            last_login b s logged_in_at + b.interval,
                            ground (arith, n, m),
                            refl,
                          ))
                    | inr m ↦ elim (Bool-cases (ltb t s.cooldown_until)) [
                      | inl k ↦ rw (Holds, q, n, m, k) (inl (cooldown, _, ground (arith, k), refl))
                      | inr k ↦ elim (Bool-cases (leb b.daily_budget (logins_on s (b.day_of t)))) [
                        | inl l ↦ rw (Holds, q, n, m, k, l) (inr (spent (some (b.next_midnight t))))
                        | inr l ↦ rw (Holds, q, n, m, k, l) tt
                      ]
                    ]
                  ]
          ]
  ]

  deferral_time :
      (c : Code) (earliest u : ℕ)
      → (defer_until b c earliest).retry_after ≡ some u
      → (earliest ≤ u) × (blocks_at b.clock b.windows u b.headroom ≡ false)
  unfolding defer_until answer
  deferral_time c earliest u e =
      let found = (next_clear_lem b.clock b.windows earliest b.headroom).0 u e in (found.0, found.1)

  -- When the gate defers a login at `t` and names a time to come back, that time is not before `t`, and
  -- no window blocks the headroom from it.
  pub gate_retry :
      (t : ℕ) (s : State) (logged_in_at u : ℕ) (r : Response)
      → gate b t s logged_in_at ≡ some r
      → r.outcome ≡ deferred
      → r.retry_after ≡ some u
      → (t ≤ u) × (blocks_at b.clock b.windows u b.headroom ≡ false)
  gate_retry t s logged_in_at u r h o e =
      elim (subst (Holds t) h (gate_deferrals t s logged_in_at)) [
        | inr n ↦ absurd (n o)
        | inl (c, earliest, after, same) ↦
            let found = deferral_time c earliest u (ap (λ x. x.retry_after) (sym same) ∙ e) in
            (omega (arith, after, found.0), found.1)
      ]
