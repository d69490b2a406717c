-- ===== src/LoginBroker/Protocol/Deciding.antt =====
-- Whether a login is made, under the watch of the login protocol: steps 2 and 3 of refresh of
-- internal/loginbroker/broker.go.
use glovebox.Prelude.{
  ℕ, ◌≡◌, ◌≢◌, inl, inr, refl, Bool, false, Bytes, Option, none, some, arith, Bool-cases,
  Option-cases,
}
use glovebox.Prelude.Result.{Result-cases}
use glovebox.LoginVault.{State}
use glovebox.LoginBroker.Program.{◌>>=◌, unknown, alive, dead}
use glovebox.LoginBroker.Policy.{
  Broker, Code, Outcome, refreshed, current, answer, defer_until, gate, failed, inconclusive,
}
use glovebox.LoginBroker.Writes.{write_state_once}
use glovebox.LoginBroker.Finish.{Standing, HeldSession, Request, with_session}
use glovebox.LoginBroker.Refresh.{
  standing, start_login, consider_login, is_replaced, ask_site, check_session,
}
use glovebox.LoginBroker.Protocol.{Watch, Obeys, Obeys-then}
use glovebox.LoginBroker.Protocol.Writing.{write_state_once-Obeys}
use glovebox.LoginBroker.Protocol.LoggingIn.{gate_outcome}
use glovebox.LoginBroker.Protocol.Recording.{ProbeState-cases}
use glovebox.LoginBroker.Protocol.Answers.{Final, quiet_answer, with_session-Obeys}
use glovebox.LoginBroker.Protocol.Answering.{Fresh, attempt-Obeys}

module _ {Session Location : Type 0} (b : Broker Session Location) where
  -- An answer that carries no session.
  pub quiet :
      (g : Watch) (o : Outcome) (c : Option Code) (d : Bytes) (u : Option (HeldSession Session))
      → g.submitted ≡ false
      → o ≢ refreshed
      → o ≢ current
      → Final b g (answer b o c d, u)
  unfolding answer
  quiet g o c d u f n k = quiet_answer b g (answer b o c d) u f n k

  pub failing_answer :
      (g : Watch) (c : Option Code) (d : Bytes) (u : Option (HeldSession Session))
      → g.submitted ≡ false
      → Final b g (answer b failed c d, u)
  failing_answer g c d u f =
      quiet g failed c d u f (λ e. ground (arith, e)) (λ e. ground (arith, e))

  pub defer_until_outcome :
      (c : Code) (t : ℕ)
      → ((defer_until b c t).outcome ≢ refreshed) × ((defer_until b c t).outcome ≢ current)
  unfolding defer_until answer
  defer_until_outcome c t = (λ e. ground (arith, e), λ e. ground (arith, e))

  start_login-Obeys :
      (g : Watch) (unsaved : Option (HeldSession Session)) (s : State) (logged_in_at version : ℕ)
      → s.blocked ≡ false
      → Fresh b g
      → Obeys b (Final b) g (start_login b unsaved s logged_in_at version)
  unfolding start_login ◌>>=◌
  start_login-Obeys g unsaved s logged_in_at version l f = (
    tt,
    λ started nonzero.
        Obeys-then b _ (Final b) (record g { reading = some started }) (write_state_once _) _
          (write_state_once-Obeys b (record g { reading = some started }) _)
          (λ g' r k.
            attempt-Obeys b (record g { reading = some started }) g' unsaved _ started logged_in_at
              version r nonzero refl l f k),
  )

  consider_login-Obeys :
      (g : Watch) (unsaved : Option (HeldSession Session)) (s : State) (logged_in_at version : ℕ)
      → s.blocked ≡ false
      → Fresh b g
      → Obeys b (Final b) g (consider_login b unsaved s logged_in_at version)
  unfolding consider_login ◌>>=◌
  consider_login-Obeys g unsaved s logged_in_at version l f = (
    tt,
    λ t _. elim (Option-cases (gate b t s logged_in_at)) [
      | inr (r, q) ↦ rw q (
          quiet_answer b (record g { reading = some t }) r unsaved f.0
            (gate_outcome b t s logged_in_at r q).0 (gate_outcome b t s logged_in_at r q).1)
      | inl q ↦ rw q (
        tt,
        λ w _. elim (Result-cases w) [
          | inr (e, n) ↦
              rw n
                (start_login-Obeys (record g { reading = none }) unsaved s logged_in_at version l f)
          | inl (allowed, n) ↦ elim (Bool-cases allowed) [
            | inl a ↦
                rw (n, a)
                  (start_login-Obeys (record g { reading = none }) unsaved s logged_in_at version l
                    f)
            | inr a ↦ rw (n, a) (failing_answer (record g { reading = none }) _ _ unsaved f.0)
          ]
        ],
      )
    ],
  )

  kept_session-Obeys :
      (g : Watch) (unsaved : Option (HeldSession Session)) (session : Session)
      (logged_in_at version : ℕ) (needs_write : Bool)
      → g.submitted ≡ false
      → Obeys b
          (Final b)
          g
          (with_session b unsaved current session logged_in_at version needs_write)
  kept_session-Obeys g unsaved session logged_in_at version needs_write f =
      with_session-Obeys b g unsaved current session logged_in_at version needs_write
        (λ e. ground (arith, e), λ e. f) (inl f)

  ask_site-Obeys :
      (g : Watch) (unsaved : Option (HeldSession Session)) (s : State) (session : Session)
      (now : Standing Session)
      → s.blocked ≡ false
      → Fresh b g
      → Obeys b (Final b) g (ask_site b unsaved s session now)
  unfolding ask_site ◌>>=◌
  ask_site-Obeys g unsaved s session now l f = (
    tt,
    λ p _. elim (ProbeState-cases p.state) [
      | inl a ↦
          rw (Obeys, a)
            (kept_session-Obeys (record g { reading = none; probed = some alive }) unsaved session _
              _ _ f.0)
      | inr (inl a) ↦
          rw (Obeys, a)
            (quiet (record g { reading = none; probed = some unknown }) inconclusive _ _ unsaved f.0
              (λ e. ground (arith, e)) (λ e. ground (arith, e)))
      | inr (inr a) ↦
          rw (Obeys, a)
            (consider_login-Obeys (record g { reading = none; probed = some dead }) unsaved s _ _ l
              (f.0, f.1, inr refl))
    ],
  )

  pub check_session-Obeys :
      (g : Watch) (unsaved : Option (HeldSession Session)) (req : Request) (t : ℕ) (s : State)
      → s.blocked ≡ false
      → Fresh b g
      → Obeys b (Final b) g (check_session b unsaved req t s)
  unfolding check_session ◌>>=◌
  check_session-Obeys g unsaved req t s l f = (
    tt,
    λ r _. elim (Result-cases r) [
      | inr (e, q) ↦ rw q (failing_answer (record g { reading = none }) _ _ unsaved f.0)
      | inl (found, q) ↦ elim (Option-cases ((standing b unsaved found).session)) [
        | inl n ↦
            rw (q, Obeys, n) (consider_login-Obeys (record g { reading = none }) unsaved s _ _ l f)
        | inr (session, n) ↦
            elim (Bool-cases (is_replaced b req t session (standing b unsaved found))) [
              | inl m ↦
                  rw (q, Obeys, n, m)
                    (kept_session-Obeys (record g { reading = none }) unsaved session _ _ _ f.0)
              | inr m ↦
                  rw (q, Obeys, n, m)
                    (ask_site-Obeys (record g { reading = none }) unsaved s session
                      (standing b unsaved found) l f)
            ]
      ]
    ],
  )
