-- ===== src/LoginBroker/Protocol/Answering.antt =====
-- From the start of a login to the answer, under the watch of the login protocol: steps 4 to 6 of
-- refresh of internal/loginbroker/broker.go.
use mathlib.Core.Path.{subst}
use glovebox.Prelude.{
  In, ℕ, ◌≡◌, ◌≢◌, ◌⊎◌, inl, inr, refl, sym, ap, ◌∙◌, true, false, Bytes, Option, none, some, arith,
}
use glovebox.Prelude.Result.{Result}
use glovebox.LoginVault.{State, logins_on}
use glovebox.LoginBroker.Program.{ret, ◌>>=◌, ProbeResult, dead, StoreError}
use glovebox.LoginBroker.Policy.{
  Broker, Response, Code, refreshed, current, answer, defer_until, login_unconfirmed,
}
use glovebox.LoginBroker.Writes.{commit}
use glovebox.LoginBroker.Logins.{
  LoginEnd, made, failing, held, log_in, login_did_fail, failed_login, confirm,
}
use glovebox.LoginBroker.Finish.{
  HeldSession, record_failure, note_success, end_confirm, finish, end_attempt, attempt,
}
use glovebox.LoginBroker.Protocol.{Watch, Obeys, Obeys-then, MayLogin}
use glovebox.LoginBroker.Protocol.Writing.{
  Kept, Kept-refl, Changes, commit-Obeys, AfterWrite, took, refused, From,
}
use glovebox.LoginBroker.Protocol.LoggingIn.{Ended, log_in-Obeys}
use glovebox.LoginBroker.Protocol.Recording.{
  ProbeState-cases, confirm-Obeys, InMemory, InMemory-Counted, Counted, count_login-Counted,
  failed_login-Obeys, login_did_fail-Obeys, clear_attempt-Changes, Recorded,
}
use glovebox.LoginBroker.Protocol.Answers.{
  Accounted, Accounted-commit, Final, no_session-Carries, quiet_answer, with_session-Obeys,
}

module _ {Session Location : Type 0} (b : Broker Session Location) where
  note_success-Changes :
      (started : ℕ) → started ≢ 0 → Changes b (Counted b) (λ x. ret (note_success b started x))
  note_success-Changes started h g s =
      (Kept-refl g, refl, count_login-Counted b started s _ h refl refl refl refl)

  -- An answer to a failed login.
  failure_answer :
      (g g' : Watch) (r : Response) (u : Option (HeldSession Session))
      → g.stored.attempt_started_at ≢ 0
      → Recorded b g g' r
      → Final b g' (r, u)
  failure_answer g g' r u m k = (
    (λ e. absurd (k.1 e), λ e. absurd (k.2 e)),
    no_session-Carries b r k.1 k.2,
    Accounted-commit b g g' k.0 m,
  )

  failed_end-Obeys :
      (g : Watch) (unsaved : Option (HeldSession Session)) (x s : State) (started : ℕ) (c : Code)
      (d : Bytes)
      → started ≢ 0
      → InMemory b g x s
      → g.stored.attempt_started_at ≢ 0
      → Obeys b (Final b) g (failed_login b s started c d >>= (λ r. ret (r, unsaved)))
  failed_end-Obeys g unsaved x s started c d h i m =
      Obeys-then b _ (Final b) g (failed_login b s started c d) _
        (failed_login-Obeys b g x s started c d h i) (λ g' r k. failure_answer g g' r unsaved m k)

  end_confirm-Obeys :
      (g : Watch) (unsaved : Option (HeldSession Session)) (x s : State) (started version : ℕ)
      (session : Session) (p : ProbeResult)
      → started ≢ 0
      → InMemory b g x s
      → g.stored.attempt_started_at ≢ 0
      → g.submitted ≡ true
      → g.probed ≡ some p.state
      → Obeys b (Final b) g (end_confirm b unsaved s started version session p)
  unfolding end_confirm ◌>>=◌
  end_confirm-Obeys g unsaved x s started version session p h i m sent probed =
      elim (ProbeState-cases p.state) [
        | inl q ↦
            rw (Obeys, q)
              (
                tt,
                λ t _.
                    Obeys-then b _ (Final b) (record g { reading = some t }) (commit s _) _
                      (commit-Obeys b (Counted b) _ (record g { reading = some t }) x s i.0
                        (λ s' c. InMemory-Counted b g x s s' i c) (note_success-Changes started h))
                      (λ g' r k.
                        with_session-Obeys b g' unsaved refreshed session t version true
                          (
                            λ e. ((k.0).2 ∙ sent, (k.0).0 ∙ probed ∙ ap some q),
                            λ e. ground (arith, e),
                          )
                          (Accounted-commit b (record g { reading = some t }) g' k m)),
              )
        | inr (inl q) ↦
            rw (Obeys, q) (failed_end-Obeys g unsaved x s started login_unconfirmed _ h i m)
        | inr (inr q) ↦
            rw (Obeys, q) (failed_end-Obeys g unsaved x s started login_unconfirmed _ h i m)
      ]

  finish-Obeys :
      (g : Watch) (unsaved : Option (HeldSession Session)) (x s : State) (started version : ℕ)
      (session : Session)
      → started ≢ 0
      → InMemory b g x s
      → g.stored.attempt_started_at ≢ 0
      → g.submitted ≡ true
      → Obeys b (Final b) g (finish b unsaved s started version session)
  unfolding finish
  finish-Obeys g unsaved x s started version session h i m sent =
      Obeys-then b _ (Final b) g (confirm b session) _ (confirm-Obeys b g session) (λ g' p k.
        end_confirm-Obeys g' unsaved x s started version session p h
          (subst (In x) (sym (k.0).2) i.0, i.1, i.2)
          (subst (λ x. x.attempt_started_at ≢ 0) (sym (k.0).0) m) ((k.0).1 ∙ sent) k.1)

  Accounted-failed :
      (kept : State) (g g' : Watch)
      → Kept g g'
      → (g.submitted ≡ false) ⊎ From b (Counted b) g' ⊎ (g'.stored ≡ g.stored)
      → g.stored ≡ kept
      → kept.attempt_started_at ≢ 0
      → Accounted b g'
  Accounted-failed kept g g' k (inl u) same m = inl (k.2 ∙ u)
  Accounted-failed kept g g' k (inr (inl c)) same m = inr (inl c)
  Accounted-failed kept g g' k (inr (inr s)) same m =
      inr (inr (subst (λ x. x.attempt_started_at ≢ 0) (sym (s ∙ same)) m))

  end_attempt-Obeys :
      (kept : State) (g : Watch) (unsaved : Option (HeldSession Session)) (s : State)
      (started version : ℕ) (end : LoginEnd Session)
      → started ≢ 0
      → kept.attempt_started_at ≢ 0
      → s.login_day ≡ kept.login_day
      → s.login_day_count ≡ kept.login_day_count
      → Ended b kept g end
      → Obeys b (Final b) g (end_attempt b unsaved s started version end)
  unfolding end_attempt
  end_attempt-Obeys kept g unsaved s started version (held r) h m y n e =
      Obeys-then b _ (Final b) g (commit s _) _
        (commit-Obeys b (λ x s. Unit) _ g kept s e.4 (λ s' c. c)
          (clear_attempt-Changes b (λ x. record x { attempt_started_at = 0 })))
        (λ g' p k. quiet_answer b g' r unsaved ((k.0).2 ∙ e.1) e.2 e.3)
  end_attempt-Obeys kept g unsaved s started version (failing x) h m y n e =
      Obeys-then b _ (Final b) g (login_did_fail b s started x) _
        (login_did_fail-Obeys b g kept s started x h (e.2, y, n) e.1)
        (λ g' r k. (
          (λ q. absurd (k.2 q), λ q. absurd (k.3 q)),
          no_session-Carries b r k.2 k.3,
          Accounted-failed kept g g' k.0 k.1 e.0 m,
        ))
  end_attempt-Obeys kept g unsaved s started version (made none) h m y n e =
      failed_end-Obeys g unsaved kept s started login_unconfirmed _ h (e.2, y, n)
        (subst (λ x. x.attempt_started_at ≢ 0) (sym e.0) m)
  end_attempt-Obeys kept g unsaved s started version (made (some fresh)) h m y n e =
      finish-Obeys g unsaved kept s started version fresh h (e.2, y, n)
        (subst (λ x. x.attempt_started_at ≢ 0) (sym e.0) m) e.1

  pub record_failure_outcome :
      (t : ℕ) (e : StoreError)
      → ((record_failure b t e).outcome ≢ refreshed) × ((record_failure b t e).outcome ≢ current)
  unfolding record_failure answer defer_until
  record_failure_outcome t e = (λ q. ground (arith, q), λ q. ground (arith, q))

  MayLogin-version :
      (t v : ℕ) (s : State) → MayLogin b t (record s { version = v }) → MayLogin b t s
  unfolding logins_on
  MayLogin-version t v s p = record {
    clear = p.clear;
    rested = p.rested;
    cooled = p.cooled;
    affordable = p.affordable;
  }

  -- Nothing was submitted, and the site accepts no session that was asked about.
  abbrev pub Fresh : Watch → Type 0
  Fresh g = (g.submitted ≡ false) × (g.attempts ≡ 0) × ((g.probed ≡ none) ⊎ (g.probed ≡ some dead))

  pub attempt-Obeys :
      (g g' : Watch) (unsaved : Option (HeldSession Session)) (s : State)
      (started logged_in_at version : ℕ) (r : Result StoreError State)
      → started ≢ 0
      → s.attempt_started_at ≡ started
      → s.blocked ≡ false
      → Fresh g
      → AfterWrite g s g' r
      → Obeys b (Final b) g' (attempt b unsaved started logged_in_at version r)
  unfolding attempt
  attempt-Obeys g g' unsaved s started logged_in_at version _ h a l f (k, took v o t x known i) =
      let m : s.attempt_started_at ≢ 0 = λ z. h (sym a ∙ z) in
      Obeys-then b _ (Final b) g' (log_in b (record s { version = v }) logged_in_at) _
        (log_in-Obeys b g' (record s { version = v }) logged_in_at
          (
            t,
            λ c p. subst (MayLogin b c) (sym o) (MayLogin-version c v s p),
            subst (λ y. y.attempt_started_at ≢ 0) (sym o) m,
            ap (λ y. y.blocked) o ∙ l,
            subst (λ y. (y ≡ none) ⊎ (y ≡ some dead)) (sym k.0) f.2,
          )
          (k.1 ∙ f.1) (k.2 ∙ f.0) (subst (λ y. In y g'.seen) (sym x) i))
        (λ g'' end e.
          end_attempt-Obeys g'.stored g'' unsaved _ started version end h
            (subst (λ y. y.attempt_started_at ≢ 0) (sym x) m) (ap (λ y. y.login_day) (sym x))
            (ap (λ y. y.login_day_count) (sym x)) e)
  attempt-Obeys g g' unsaved s started logged_in_at version _ h a l f (k, refused e o x c) =
      quiet_answer b g' (record_failure b started e) unsaved (k.2 ∙ f.0)
        (record_failure_outcome started e).0 (record_failure_outcome started e).1
