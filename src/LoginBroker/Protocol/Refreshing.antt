-- ===== src/LoginBroker/Protocol/Refreshing.antt =====
-- The whole request under the watch of the login protocol: refresh of
-- internal/loginbroker/broker.go, whatever the store, the driver and the clock answer.
use mathlib.Core.Path.{subst}
use glovebox.Prelude.{
  [], ℕ, ◌+◌, ◌≡◌, ◌≢◌, ◌⊎◌, inl, inr, refl, sym, ◌∙◌, ◌==◌, eq_bytes, Option, none, some, arith,
  Bool-cases, Option-cases, if◌then◌else◌, is_nil,
}
use glovebox.Prelude.Result.{Result, ok, err, Result-cases}
use glovebox.LoginVault.{State, empty_state, attempt_in_progress, attempt_fresh_for}
use glovebox.LoginBroker.Program.{◌>>=◌, read_state, dead, StoreError}
use glovebox.LoginBroker.Policy.{Broker, defer_until, latched, latch_code, login_in_progress}
use glovebox.LoginBroker.Writes.{write_state_once}
use glovebox.LoginBroker.Finish.{HeldSession, Request, record_failure}
use glovebox.LoginBroker.Refresh.{
  check_session, check_latch, settle_attempt, check_settled, settle_and_check, check_record,
  make_salt, open_record, refresh,
}
use glovebox.LoginBroker.Protocol.{Watch, after, Obeys, Obeys-then, start}
use glovebox.LoginBroker.Protocol.Writing.{Kept, write_state_once-Obeys, read_state-Kept}
use glovebox.LoginBroker.Protocol.Recording.{count_failure-Obeys, count_login-Counted}
use glovebox.LoginBroker.Protocol.Answers.{Final, quiet_answer}
use glovebox.LoginBroker.Protocol.Answering.{Fresh, record_failure_outcome}
use glovebox.LoginBroker.Protocol.Deciding.{
  check_session-Obeys, defer_until_outcome, failing_answer, quiet,
}

module _ {Session Location : Type 0} (b : Broker Session Location) where
  Fresh-Kept : (g g' : Watch) → Kept g g' → Fresh b g → Fresh b g'
  Fresh-Kept g g' k f =
      (k.2 ∙ f.0, k.1 ∙ f.1, subst (λ x. (x ≡ none) ⊎ (x ≡ some dead)) (sym k.0) f.2)

  check_latch-Obeys :
      (g : Watch) (unsaved : Option (HeldSession Session)) (req : Request) (t : ℕ) (s : State)
      → Fresh b g
      → Obeys b (Final b) g (check_latch b unsaved req t s)
  unfolding check_latch check_session
  check_latch-Obeys g unsaved req t s f = elim (Bool-cases (s.blocked)) [
    | inr q ↦ rw (Obeys, q) (check_session-Obeys b g unsaved req t s q f)
    | inl q ↦ elim (Bool-cases (eq_bytes s.credential_fingerprint (b.credentials s.salt))) [
      | inl n ↦
          rw (Obeys, q, n)
            (quiet b g latched (some (latch_code s.blocked_reason)) [] unsaved f.0
              (λ e. ground (arith, e)) (λ e. ground (arith, e)))
      | inr n ↦ rw (Obeys, q, n) (check_session-Obeys b g unsaved req t _ refl f)
    ]
  ]

  check_settled-Obeys :
      (g : Watch) (unsaved : Option (HeldSession Session)) (req : Request) (t : ℕ)
      (w : Result StoreError State)
      → Fresh b g
      → Obeys b (Final b) g (check_settled b unsaved req t w)
  unfolding check_settled
  check_settled-Obeys g unsaved req t (err e) f =
      quiet_answer b g (record_failure b t e) unsaved f.0 (record_failure_outcome b t e).0
        (record_failure_outcome b t e).1
  check_settled-Obeys g unsaved req t (ok s) f = check_latch-Obeys g unsaved req t s f

  settle_and_check-Obeys :
      (g : Watch) (unsaved : Option (HeldSession Session)) (req : Request) (t : ℕ) (s : State)
      → s.attempt_started_at ≢ 0
      → Fresh b g
      → Obeys b (Final b) g (settle_and_check b unsaved req t s)
  unfolding settle_and_check settle_attempt
  settle_and_check-Obeys g unsaved req t s h f =
      Obeys-then b _ (Final b) g (settle_attempt b s) _
        (count_failure-Obeys b g s _
          (count_login-Counted b s.attempt_started_at s _ h refl refl refl refl))
        (λ g' settled k.
          Obeys-then b _ (Final b) g' (write_state_once settled) _
            (write_state_once-Obeys b g' settled)
            (λ g'' w l.
              check_settled-Obeys g'' unsaved req t w
                (Fresh-Kept g' g'' l.0 (Fresh-Kept g g' k.0 f))))

  check_record-Obeys :
      (g : Watch) (unsaved : Option (HeldSession Session)) (req : Request) (s : State)
      → Fresh b g
      → Obeys b (Final b) g (check_record b unsaved req s)
  unfolding check_record ◌>>=◌
  check_record-Obeys g unsaved req s f = (
    tt,
    λ t _. elim (Bool-cases (attempt_in_progress s t)) [
      | inl q ↦
          rw (Obeys, q)
            (quiet_answer b (record g { reading = some t })
              (defer_until b login_in_progress (s.attempt_started_at + attempt_fresh_for)) unsaved
              f.0
              (defer_until_outcome b login_in_progress (s.attempt_started_at + attempt_fresh_for)).0
              (defer_until_outcome b login_in_progress
                (s.attempt_started_at + attempt_fresh_for)).1)
      | inr q ↦ elim (Bool-cases (s.attempt_started_at == 0)) [
        | inl n ↦
            rw (Obeys, q, n) (check_latch-Obeys (record g { reading = some t }) unsaved req t s f)
        | inr n ↦
            rw (Obeys, q, n)
              (settle_and_check-Obeys (record g { reading = some t }) unsaved req t s
                (λ z. ground (arith, n, z)) f)
      ]
    ],
  )

  make_salt-Obeys :
      (g : Watch) (unsaved : Option (HeldSession Session)) (req : Request) (s : State)
      → Fresh b g
      → Obeys b (Final b) g (make_salt b unsaved req s)
  unfolding make_salt ◌>>=◌
  make_salt-Obeys g unsaved req s f = (
    tt,
    λ r _. elim (Option-cases r) [
      | inl q ↦ rw q (failing_answer b (record g { reading = none }) _ _ unsaved f.0)
      | inr (salt, q) ↦ elim (Bool-cases (is_nil salt)) [
        | inl n ↦ rw (q, Obeys, n) (failing_answer b (record g { reading = none }) _ _ unsaved f.0)
        | inr n ↦
            rw (q, Obeys, n) (check_record-Obeys (record g { reading = none }) unsaved req _ f)
      ]
    ],
  )

  salted-Obeys :
      (g : Watch) (unsaved : Option (HeldSession Session)) (req : Request) (s : State)
      → Fresh b g
      → Obeys b
          (Final b)
          g
          (if is_nil s.salt then make_salt b unsaved req s else check_record b unsaved req s)
  salted-Obeys g unsaved req s f = elim (Bool-cases (is_nil s.salt)) [
    | inl q ↦ rw (Obeys, q) (make_salt-Obeys g unsaved req s f)
    | inr q ↦ rw (Obeys, q) (check_record-Obeys g unsaved req s f)
  ]

  open_record-Obeys :
      (g : Watch) (unsaved : Option (HeldSession Session)) (req : Request)
      → Fresh b g
      → Obeys b (Final b) g (open_record b unsaved req)
  unfolding open_record ◌>>=◌
  open_record-Obeys g unsaved req f = (
    tt,
    λ r _. elim (Result-cases r) [
      | inr (e, q) ↦ rw q (failing_answer b (record g { reading = none }) _ _ unsaved f.0)
      | inl (found, q) ↦ elim (Option-cases found) [
        | inl n ↦ rw (q, n) (salted-Obeys (record g { reading = none }) unsaved req empty_state f)
        | inr (s, n) ↦
            rw (q, n)
              (salted-Obeys (after {Session = Session} g read_state (ok (some s))) unsaved req s (
                Fresh-Kept g (after {Session = Session} g read_state (ok (some s)))
                  (read_state-Kept b g (ok (some s))) f))
      ]
    ],
  )

  pub refresh-Obeys :
      (unsaved : Option (HeldSession Session)) (req : Request)
      → Obeys b (Final b) start (refresh b unsaved req)
  unfolding refresh ◌>>=◌
  refresh-Obeys unsaved req = (
    tt,
    λ connected _. elim (Bool-cases connected) [
      | inl q ↦ rw q (open_record-Obeys start unsaved req (refl, refl, inl refl))
      | inr q ↦ rw q (failing_answer b start _ _ unsaved refl)
    ],
  )
