-- ===== src/LoginBroker/Protocol/LoggingIn.antt =====
-- The attempts to log in and the records of how they end, under the watch of the login protocol:
-- login, confirm, loginFailed and failedLogin of internal/loginbroker/broker.go.
use glovebox.Prelude.{
  ℕ, suc, In, ◌<◌, ◌≡◌, ◌≢◌, ◌⊎◌, inl, inr, refl, sym, ◌∙◌, true, false, ◌==◌, Option, none, some,
  arith, Bool-cases, Option-cases,
}
use glovebox.Prelude.Result.{Result-cases}
use glovebox.LoginVault.{State}
use glovebox.LoginBroker.Program.{
  Prog, ◌>>=◌, dead, LoginError, LoginFailure, login_unknown, login_not_submitted, login_rejected,
}
use glovebox.LoginBroker.Policy.{
  Broker, Response, gate, last_login, refreshed, current, defer_until, answer,
}
use glovebox.LoginBroker.Logins.{
  LoginEnd, made, failing, held, as_login_error, attempt_login, log_in,
}
use glovebox.LoginBroker.Protocol.{Watch, Obeys, MayLogin}

module _ {Session Location : Type 0} (b : Broker Session Location) where
  -- What the gate lets through, the policy allows.
  gate-MayLogin :
      (t : ℕ) (s : State) (logged_in_at : ℕ) → gate b t s logged_in_at ≡ none → MayLogin b t s
  unfolding gate last_login
  gate-MayLogin t s logged_in_at h = record {
    clear = ground arith;
    rested = elim (Bool-cases (s.request_login_at == 0)) [
      | inl e ↦ inl (ground (arith, e))
      | inr e ↦ inr (ground (arith, e, h))
    ];
    cooled = ground arith;
    affordable = ground arith;
  }

  -- The gate's answers carry no session.
  pub gate_outcome :
      (t : ℕ) (s : State) (logged_in_at : ℕ) (r : Response)
      → gate b t s logged_in_at ≡ some r
      → (r.outcome ≢ refreshed) × (r.outcome ≢ current)
  unfolding gate defer_until answer
  gate_outcome t s logged_in_at r h = (λ e. ground (arith, h, e), λ e. ground (arith, h, e))

pub LoginFailure-cases :
    (k : LoginFailure) → (k ≡ login_not_submitted) ⊎ (k ≡ login_unknown) ⊎ (k ≡ login_rejected)
LoginFailure-cases login_not_submitted = inl refl
LoginFailure-cases login_unknown = inr (inl refl)
LoginFailure-cases login_rejected = inr (inr refl)

-- The record `m` in memory is the one that the store holds, as far as the policy reads it; it says that
-- a login is starting, and the site accepts no session that was asked about.
module _ {Session Location : Type 0} (b : Broker Session Location) where
  abbrev pub Ready : Watch → State → Type 0
  Ready g m =
      (g.taken ≡ true)
      × ((t : ℕ) → MayLogin b t m → MayLogin b t g.offered)
      × (g.offered.attempt_started_at ≢ 0)
      × (g.offered.blocked ≡ false)
      × ((g.probed ≡ none) ⊎ (g.probed ≡ some dead))

  -- How the attempts end, on a store that did not change and was seen to hold its record.
  abbrev pub Ended : State → Watch → LoginEnd Session → Type 0
  Ended kept g (held r) =
      (g.stored ≡ kept)
      × (g.submitted ≡ false)
      × (r.outcome ≢ refreshed)
      × (r.outcome ≢ current)
      × In kept g.seen
  Ended kept g (failing e) =
      (g.stored ≡ kept) × ((g.submitted ≡ false) ⊎ (e.kind ≢ login_not_submitted)) × In kept g.seen
  Ended kept g (made x) = (g.stored ≡ kept) × (g.submitted ≡ true) × In kept g.seen

  unknown-submitted : login_unknown ≢ login_not_submitted
  unknown-submitted h = (ground arith)

  rejected-submitted : login_rejected ≢ login_not_submitted
  rejected-submitted h = (ground arith)

  attempt_login-Obeys :
      (kept : State) (g : Watch) (m : State) (logged_in_at : ℕ) (earlier : Option LoginError)
      (again : LoginError → Prog Session (LoginEnd Session))
      → Ready g m
      → g.attempts < 2
      → g.submitted ≡ false
      → g.stored ≡ kept
      → In kept g.seen
      → ((g' : Watch) (e : LoginError)
          → Ready g' m
          → g'.attempts ≡ suc g.attempts
          → g'.submitted ≡ false
          → g'.stored ≡ kept
          → In kept g'.seen
          → Obeys b (Ended kept) g' (again e))
      → Obeys b (Ended kept) g (attempt_login b m logged_in_at earlier again)
  unfolding attempt_login ◌>>=◌
  attempt_login-Obeys kept g m logged_in_at earlier again w few unsent same there next = (
    tt,
    λ t nonzero. elim (Option-cases (gate b t m logged_in_at)) [
      | inr (response, q) ↦
          let closed = gate_outcome b t m logged_in_at response q in
          elim (Option-cases earlier) [
            | inl n ↦ rw (q, n) (same, unsent, closed.0, closed.1, there)
            | inr (e, n) ↦ rw (q, n) (same, inl unsent, there)
          ]
      | inl q ↦ rw q (
        record {
          at = t;
          just_read = refl;
          policy = w.1 t (gate-MayLogin b t m logged_in_at q);
          known = w.0;
          marked = w.2;
          no_latch = w.3;
          few = few;
          first_submit = unsent;
          refused = w.4;
        },
        λ r _. elim (Result-cases r) [
          | inl (x, n) ↦ rw n (same, refl, inl (sym same))
          | inr (e, n) ↦ elim (LoginFailure-cases ((as_login_error e).kind)) [
            | inl k ↦ rw (n, k) (next _ (as_login_error e) w refl refl same (inl (sym same)))
            | inr (inl k) ↦
                rw (n, k) (same, inr (λ z. unknown-submitted (sym k ∙ z)), inl (sym same))
            | inr (inr k) ↦
                rw (n, k) (same, inr (λ z. rejected-submitted (sym k ∙ z)), inl (sym same))
          ]
        ],
      )
    ],
  )

  pub log_in-Obeys :
      (g : Watch) (m : State) (logged_in_at : ℕ)
      → Ready g m
      → g.attempts ≡ 0
      → g.submitted ≡ false
      → In g.stored g.seen
      → Obeys b (Ended g.stored) g (log_in b m logged_in_at)
  unfolding log_in ◌>>=◌
  log_in-Obeys g m logged_in_at w none_made unsent there =
      attempt_login-Obeys g.stored g m logged_in_at none _ w (omega arith) unsent refl there
        (λ g' e w' n u s i. (
          tt,
          λ go _. elim (Bool-cases go) [
            | inl q ↦ rw q (
                attempt_login-Obeys g.stored _ m logged_in_at (some e) _ w' (omega arith) u s i
                  (λ g'' e' w'' n' u' s' i'. (s', inl u', i')))
            | inr q ↦ rw q (s, inl u, i)
          ],
        ))
