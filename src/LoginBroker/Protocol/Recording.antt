-- ===== src/LoginBroker/Protocol/Recording.antt =====
-- The confirmation of a session and the records of how a login ended, under the watch of the login
-- protocol: confirm, failedLogin and loginFailed of internal/loginbroker/broker.go.
use mathlib.Core.Path.{ap₂}
use glovebox.Prelude.{
  [], ℕ, zero, suc, ◌+◌, ◌≡◌, ◌≢◌, ◌⊎◌, inl, inr, refl, sym, ap, ◌∙◌, In, if◌then◌else◌, false, not,
  ◌&&◌, leb, Bytes, codes, eq_bytes, eq_bytes_refl, Option, some, arith, Bool-cases,
}
use glovebox.LoginVault.{State, count_login, logins_on}
use glovebox.LoginBroker.Program.{
  ret, ◌>>=◌, ProbeState, ProbeResult, unknown, alive, dead, LoginError, login_not_submitted,
}
use glovebox.LoginBroker.Policy.{
  Broker, Response, Code, Outcome, refreshed, current, latched, failed, answer,
  consecutive_failures, credentials_rejected, login_failed,
}
use glovebox.LoginBroker.Writes.{commit}
use glovebox.LoginBroker.Logins.{
  confirm_from, confirm, set_latch, count_failure, note_failure, failed_login, note_rejection,
  login_did_fail,
}
use glovebox.LoginBroker.Protocol.{Watch, Obeys, Obeys-then, Obeys-weaken}
use glovebox.LoginBroker.Protocol.LoggingIn.{LoginFailure-cases}
use glovebox.LoginBroker.Protocol.Writing.{Kept, Kept-refl, Changes, From, Committed, commit-Obeys}

pub ProbeState-cases : (p : ProbeState) → (p ≡ alive) ⊎ (p ≡ unknown) ⊎ (p ≡ dead)
ProbeState-cases alive = inl refl
ProbeState-cases unknown = inr (inl refl)
ProbeState-cases dead = inr (inr refl)

-- What asking about a session leaves as it is.
abbrev pub Asked : Watch → Watch → Type 0
Asked g g' = (g'.stored ≡ g.stored) × (g'.submitted ≡ g.submitted) × (g'.seen ≡ g.seen)

module _ {Session Location : Type 0} (b : Broker Session Location) where
  abbrev pub Confirmed : Watch → Watch → ProbeResult → Type 0
  Confirmed g g' p = Asked g g' × (g'.probed ≡ some p.state)

  confirm_from-Obeys :
      (more : ℕ) (h g : Watch) (session : Session)
      → Asked h g
      → Obeys b (Confirmed h) g (confirm_from b more session)
  unfolding confirm_from ◌>>=◌
  confirm_from-Obeys zero h g session k = (tt, λ p _. (k, refl))
  confirm_from-Obeys (suc more) h g session k = (
    tt,
    λ p _. elim (ProbeState-cases p.state) [
      | inl q ↦ rw q (k, sym (ap some q))
      | inr (inl q) ↦ rw q (
        tt,
        λ go _. elim (Bool-cases go) [
          | inl n ↦ rw n (confirm_from-Obeys more h _ session k)
          | inr n ↦ rw n (k, sym (ap some q))
        ],
      )
      | inr (inr q) ↦ rw q (k, sym (ap some q))
    ],
  )

  pub confirm-Obeys : (g : Watch) (session : Session) → Obeys b (Confirmed g) g (confirm b session)
  unfolding confirm
  confirm-Obeys g session = confirm_from-Obeys 2 g g session (refl, refl, refl)

  -- The record has no login under way, and counts one login more on the day of its last one than the
  -- record `x` that it was made from.
  abbrev pub Counted : State → State → Type 0
  Counted x s =
      (s.attempt_started_at ≡ 0)
      × (s.request_login_at ≢ 0)
      × (logins_on s (b.day_of s.request_login_at)
          ≡ suc (logins_on x (b.day_of s.request_login_at)))

  pub count_login-Counted :
      (started : ℕ) (x s : State)
      → started ≢ 0
      → s.attempt_started_at ≡ 0
      → s.request_login_at ≡ started
      → s.login_day ≡ x.login_day
      → s.login_day_count ≡ x.login_day_count
      → Counted x (count_login (b.day_of started) s)
  unfolding count_login logins_on
  count_login-Counted started x s h a r d n =
      elim (Bool-cases (eq_bytes s.login_day (b.day_of started))) [
        | inl q ↦ rw (q, r, q, sym d, q) (a, h, ap suc n)
        | inr q ↦ rw (q, r, eq_bytes_refl (b.day_of started), sym d, q) (a, h, refl)
      ]

  abbrev Noted : (State → Type 0) → Watch → Watch → State → Type 0
  Noted Q g g' s = Kept g g' × (g'.stored ≡ g.stored) × Q s

  set_latch-Obeys :
      (g : Watch) (reason : Bytes) (x s : State)
      → Counted x s
      → Obeys b (Noted (Counted x) g) g (set_latch b reason s)
  unfolding set_latch ◌>>=◌ logins_on
  set_latch-Obeys g reason x s c = (tt, λ t _. (Kept-refl g, refl, c))

  pub count_failure-Obeys :
      (g : Watch) (x s : State) → Counted x s → Obeys b (Noted (Counted x) g) g (count_failure b s)
  unfolding count_failure logins_on
  count_failure-Obeys g x s c =
      elim (Bool-cases (leb b.max_failures (suc s.unconfirmed_count) && not s.blocked)) [
        | inl q ↦ rw q (
            set_latch-Obeys g (codes "consecutive_failures") x
              (record s { unconfirmed_count = suc s.unconfirmed_count }) c)
        | inr q ↦ rw q (Kept-refl g, refl, c)
      ]

  note_failure-Changes : (started : ℕ) → started ≢ 0 → Changes b Counted (note_failure b started)
  unfolding note_failure
  note_failure-Changes started h g s =
      count_failure-Obeys g s _ (count_login-Counted started s _ h refl refl refl refl)

  note_rejection-Changes :
      (started : ℕ) → started ≢ 0 → Changes b Counted (note_rejection b started)
  unfolding note_rejection
  note_rejection-Changes started h g s =
      set_latch-Obeys g _ s _ (count_login-Counted started s _ h refl refl refl refl)

  -- The record in memory is that which the store was seen to hold, but for its version.
  abbrev pub InMemory : Watch → State → State → Type 0
  InMemory g x s =
      In x g.seen × (s.login_day ≡ x.login_day) × (s.login_day_count ≡ x.login_day_count)

  pub InMemory-Counted : (g : Watch) (x s s' : State) → InMemory g x s → Counted s s' → Counted x s'
  unfolding logins_on
  InMemory-Counted g x s s' (i, d, n) (a, r, c) = (
    a,
    r,
    c ∙ ap suc (ap₂ (λ e k. if eq_bytes e (b.day_of s'.request_login_at) then k else 0) d n),
  )

  -- How a failed login ends.
  abbrev pub Recorded : Watch → Watch → Response → Type 0
  Recorded g g' r = Committed b Counted g g' × (r.outcome ≢ refreshed) × (r.outcome ≢ current)

  no_session :
      (o : Outcome) (c : Option Code) (d : Bytes)
      → o ≢ refreshed
      → o ≢ current
      → ((answer b o c d).outcome ≢ refreshed) × ((answer b o c d).outcome ≢ current)
  unfolding answer
  no_session o c d h k = (h, k)

  latched_session :
      (c : Option Code) (d : Bytes)
      → ((answer b latched c d).outcome ≢ refreshed) × ((answer b latched c d).outcome ≢ current)
  latched_session c d = no_session latched c d (λ h. ground (arith, h)) (λ h. ground (arith, h))

  failed_session :
      (c : Option Code) (d : Bytes)
      → ((answer b failed c d).outcome ≢ refreshed) × ((answer b failed c d).outcome ≢ current)
  failed_session c d = no_session failed c d (λ h. ground (arith, h)) (λ h. ground (arith, h))

  pub failed_login-Obeys :
      (g : Watch) (x s : State) (started : ℕ) (code : Code) (detail : Bytes)
      → started ≢ 0
      → InMemory g x s
      → Obeys b (Recorded g) g (failed_login b s started code detail)
  unfolding failed_login
  failed_login-Obeys g x s started code detail h i =
      Obeys-then b _ _ g (commit s (note_failure b started)) _
        (commit-Obeys b Counted (note_failure b started) g x s i.0
          (λ s' c. InMemory-Counted g x s s' i c) (note_failure-Changes started h))
        (λ g' r k. elim (Bool-cases ((r.0).blocked)) [
          | inl q ↦
              let shown = latched_session (some consecutive_failures) detail in
              rw q (k, shown.0, shown.1)
          | inr q ↦ let shown = failed_session (some code) detail in rw q (k, shown.0, shown.1)
        ])

  pub clear_attempt-Changes : (cool : State → State) → Changes b (λ x s. Unit) (λ x. ret (cool x))
  clear_attempt-Changes cool g s = (Kept-refl g, refl, tt)

  -- How a failed attempt ends: the record counts the login, if one was submitted.
  abbrev pub Failed : Watch → Watch → Response → Type 0
  Failed g g' r =
      Kept g g'
      × ((g.submitted ≡ false) ⊎ From b Counted g' ⊎ (g'.stored ≡ g.stored))
      × (r.outcome ≢ refreshed)
      × (r.outcome ≢ current)

  pub login_did_fail-Obeys :
      (g : Watch) (x s : State) (started : ℕ) (e : LoginError)
      → started ≢ 0
      → InMemory g x s
      → (g.submitted ≡ false) ⊎ (e.kind ≢ login_not_submitted)
      → Obeys b (Failed g) g (login_did_fail b s started e)
  unfolding login_did_fail ◌>>=◌
  login_did_fail-Obeys g x s started e h i d = elim (LoginFailure-cases e.kind) [
    | inl q ↦ rw q (
      tt,
      λ t _.
          Obeys-then b _ _ _ (commit s _) _
            (commit-Obeys b (λ x s. Unit) _ (record g { reading = some t }) x s i.0 (λ s' c. c)
              (clear_attempt-Changes
                (λ x. record x { attempt_started_at = 0; cooldown_until = t + b.cooldown_for })))
            (λ g' r k.
              let shown = failed_session (some Code.login_not_submitted) e.detail in
              (k.0, elim d [ inl u ↦ inl u | inr n ↦ absurd (n q) ], shown.0, shown.1)),
    )
    | inr (inl q) ↦ rw q (
        Obeys-weaken b _ _ g (failed_login b s started login_failed e.detail)
          (λ g' r k. ((k.0).0, inr ((k.0).1), k.1, k.2))
          (failed_login-Obeys g x s started login_failed e.detail h i))
    | inr (inr q) ↦ rw q (
        Obeys-then b _ _ g (commit s (note_rejection b started)) _
          (commit-Obeys b Counted (note_rejection b started) g x s i.0
            (λ s' c. InMemory-Counted g x s s' i c) (note_rejection-Changes started h))
          (λ g' r k.
            let shown = latched_session (some credentials_rejected) [] in
            (k.0, inr (k.1), shown.0, shown.1)))
  ]
