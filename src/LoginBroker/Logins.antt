-- ===== src/LoginBroker/Logins.antt =====
-- The logins of internal/loginbroker/broker.go: the attempts, the confirmation of a new session, and
-- what is recorded of a failure.
use glovebox.Prelude.{
  ℕ, zero, suc, ◌+◌, true, not, ◌&&◌, leb, [], Bytes, codes, Option, none, some, if◌then◌else◌,
}
use glovebox.Prelude.Result.{ok, err}
use glovebox.LoginVault.{State, count_login}
use glovebox.LoginBroker.Program.{
  Prog, ret, ask, ◌>>=◌, read_clock, login, probe, sleep, ProbeResult, unknown, LoginError,
  login_unknown, login_not_submitted, login_rejected,
}
use glovebox.LoginBroker.Policy.{
  Broker, Response, Code, answer, gate, retry_delay, confirm_delay, latched, failed,
  credentials_rejected, consecutive_failures, login_failed,
}
use glovebox.LoginBroker.Writes.{commit}

-- How the attempts end: a driver's session, if any, the error of the last attempt, or the answer of
-- the gate when it closed before the first.
pub data LoginEnd (Session : Type 0) : Type 0 where
  made : Option Session → LoginEnd Session
  failing : LoginError → LoginEnd Session
  held : Response → LoginEnd Session

-- asLoginError
unfoldable pub as_login_error : Option LoginError → LoginError
as_login_error none = record { kind = login_unknown; detail = codes "unclassified" }
as_login_error (some e) = e

module _ {Session Location : Type 0} (b : Broker Session Location) where
  -- One attempt: the gate on the clock as it is now, then the driver's Login; `again` follows a login
  -- that failed before the submit.
  unfoldable pub attempt_login :
      State
      → ℕ
      → Option LoginError
      → (LoginError → Prog Session (LoginEnd Session))
      → Prog Session (LoginEnd Session)
  attempt_login s logged_in_at earlier again = do
    t ← ask read_clock
    elim (gate b t s logged_in_at) [
      | some response ↦ ret (elim earlier [ none ↦ held response | some e ↦ failing e ])
      | none ↦ do
        r ← ask login
        elim r [
          | ok session ↦ ret (made session)
          | err e ↦ elim ((as_login_error e).kind) [
            | login_not_submitted ↦ again (as_login_error e)
            | _ ↦ ret (failing (as_login_error e))
          ]
        ]
    ]

  -- login, with maxLoginAttempts attempts: the second after a pause
  unfoldable pub log_in : State → ℕ → Prog Session (LoginEnd Session)
  log_in s logged_in_at = attempt_login s logged_in_at none (λ e. do
    go ← ask (sleep retry_delay)
    (if go
        then attempt_login s logged_in_at (some e) (λ e'. ret (failing e'))
        else ret (failing e)))

  -- The loop of confirm: `more` questions after this one.
  unfoldable pub confirm_from : ℕ → Session → Prog Session ProbeResult
  confirm_from zero session = ask (probe session)
  confirm_from (suc more) session = do
    p ← ask (probe session)
    elim p.state [
      | unknown ↦ do go ← ask (sleep confirm_delay); if go then confirm_from more session else ret p
      | _ ↦ ret p
    ]

  -- confirm, with confirmAttempts questions
  unfoldable pub confirm : Session → Prog Session ProbeResult
  confirm session = confirm_from 2 session

  unfoldable pub set_latch : Bytes → State → Prog Session State
  set_latch reason s = do
    t ← ask read_clock
    ret (record s { blocked = true; blocked_reason = reason; blocked_at = t })

  unfoldable pub count_failure : State → Prog Session State
  count_failure s =
      let counted = record s { unconfirmed_count = suc s.unconfirmed_count } in
      if leb b.max_failures (suc s.unconfirmed_count) && not s.blocked
      then set_latch (codes "consecutive_failures") counted
      else ret counted

  -- What failedLogin records: a login at `started` that failed.
  unfoldable pub note_failure : ℕ → State → Prog Session State
  note_failure started s = count_failure (
      count_login (b.day_of started)
        (record s { attempt_started_at = 0; request_login_at = started }))

  -- failedLogin
  unfoldable pub failed_login : State → ℕ → Code → Bytes → Prog Session Response
  failed_login s started code detail = do
    r ← commit s (note_failure started)
    ret (
        if (r.0).blocked
        then answer b latched (some consecutive_failures) detail
        else answer b failed (some code) detail)

  unfoldable pub note_rejection : ℕ → State → Prog Session State
  note_rejection started s = set_latch (codes "credentials_rejected") (
      count_login (b.day_of started)
        (record s { attempt_started_at = 0; request_login_at = started }))

  -- loginFailed
  unfoldable pub login_did_fail : State → ℕ → LoginError → Prog Session Response
  login_did_fail s started e = elim e.kind [
    | login_not_submitted ↦ do
      t ← ask read_clock
      r ←
          commit s
            (λ x. ret (record x { attempt_started_at = 0; cooldown_until = t + b.cooldown_for }))
      ret (answer b failed (some Code.login_not_submitted) e.detail)
    | login_rejected ↦ do
      r ← commit s (note_rejection started)
      ret (answer b latched (some credentials_rejected) [])
    | login_unknown ↦ failed_login s started login_failed e.detail
  ]
