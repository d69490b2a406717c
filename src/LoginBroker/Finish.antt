-- ===== src/LoginBroker/Finish.antt =====
-- From the decision to log in to the answer: steps 4 to 6 of refresh, and withSession, of
-- internal/loginbroker/broker.go. The session that could not be stored goes in and out; logs and
-- metrics are left out.
use glovebox.Prelude.{
  ◌++◌, ℕ, zero, suc, ◌+◌, Bool, true, false, not, ◌&&◌, ◌||◌, ltb, leb, ◌==◌, List, [], ◌∷◌, Bytes,
  codes, eq_bytes, Option, none, some, if◌then◌else◌, is_nil,
}
use glovebox.Prelude.Result.{Result, ok, err}
use glovebox.Journal.Fields.{put}
use glovebox.LoginVault.{State, count_login}
use glovebox.LoginBroker.Program.{
  Prog, ret, ask, ◌>>=◌, read_clock, state_name, ProbeResult, alive, StoreError, is_cas_mismatch,
  is_client_error,
}
use glovebox.LoginBroker.Policy
use glovebox.LoginBroker.Policy.{
  Broker, Response, Code, Outcome, answer, defer_until, gate, latch_code, recent_login, refreshed,
  current, latched, failed, inconclusive, login_in_progress, state_conflict, store_rejected,
  store_unavailable, internal, probe_inconclusive, login_unconfirmed, session_not_stored,
}
use glovebox.LoginBroker.Writes.{commit, WriteEnd, wrote, replaced, not_written, write_session}
use glovebox.LoginBroker.Logins.{
  LoginEnd, made, failing, held, log_in, login_did_fail, failed_login, confirm,
}

-- brokerapi.Request without the reason, which is only logged.
pub record Request : Type 0 where
  pub fingerprint : Bytes

-- heldSession
pub record HeldSession (Session : Type 0) : Type 0 where
  pub session : Session
  pub logged_in_at : ℕ

-- brokerapi.ShortFingerprint
unfoldable pub short_fingerprint : Bytes → Bytes
short_fingerprint full =
    if is_nil full || eq_bytes full (codes "none")
    then codes "none"
    else glovebox.Prelude.take 16 full

-- storeFailure's code
unfoldable pub store_code : StoreError → Code
store_code e = if is_client_error e then store_rejected else store_unavailable

-- The session to go on with: its time, and whether it still has to be stored.
pub record Standing (Session : Type 0) : Type 0 where
  pub session : Option Session
  pub logged_in_at : ℕ
  pub needs_write : Bool
  pub version : ℕ

-- An answer, and the session that is still not stored.
abbrev pub Answered : Type 0 → Type 0
Answered Session = Response × Option (HeldSession Session)

module _ {Session Location : Type 0} (b : Broker Session Location) where
  -- withSession after the write of the session.
  unfoldable pub end_write : Session → ℕ → Response → WriteEnd → Prog Session (Answered Session)
  end_write session logged_in_at response wrote = ret (response, none)
  end_write session logged_in_at response replaced =
      ret (answer b failed (some Code.superseded) [], none)
  end_write session logged_in_at response not_written = ret (
    record response { code = some session_not_stored },
    some (record { session = session; logged_in_at = logged_in_at }),
  )

  -- withSession
  unfoldable pub with_session :
      Option (HeldSession Session)
      → Outcome
      → Session
      → ℕ
      → ℕ
      → Bool
      → Prog Session (Answered Session)
  with_session unsaved outcome session logged_in_at version needs_write =
      elim (b.encode session logged_in_at) [
        | none ↦ ret (answer b failed (some internal) [], unsaved)
        | some encoded ↦
            let fields =
              if logged_in_at == 0
              then encoded
              else put encoded (codes "logged_in_at") (b.format_time logged_in_at) in
            let response : Response = record (answer b outcome none []) {
              session = fields;
              fingerprint = short_fingerprint (b.session_fingerprint session);
              logged_in_at = if logged_in_at == 0 then none else some logged_in_at;
            } in
            if is_nil encoded
            then ret (answer b failed (some internal) [], unsaved)
            else if not needs_write
            then ret (response, unsaved)
            else do
              end ← write_session session fields version
              end_write session logged_in_at response end
      ]

  -- recordFailure
  unfoldable pub record_failure : ℕ → StoreError → Response
  record_failure t e =
      if is_cas_mismatch e
      then defer_until b state_conflict (t + Policy.minute)
      else answer b failed (some (store_code e)) []

  -- What a confirmed login records.
  abbrev pub note_success : ℕ → State → State
  note_success started s = count_login (b.day_of started) (record s {
    attempt_started_at = 0;
    request_login_at = started;
    unconfirmed_count = 0;
    cooldown_until = 0;
  })

  -- Steps 5 and 6: the new session is confirmed, the outcome recorded, the session stored.
  unfoldable pub end_confirm :
      Option (HeldSession Session)
      → State
      → ℕ
      → ℕ
      → Session
      → ProbeResult
      → Prog Session (Answered Session)
  end_confirm unsaved s started version session p = elim p.state [
    | alive ↦ do
      t ← ask read_clock
      r ← commit s (λ x. ret (note_success started x))
      with_session unsaved refreshed session t version true
    | _ ↦ do
      response ←
          failed_login b s started login_unconfirmed
            (codes "probe_" ++ state_name p.state ++ codes ":" ++ p.reason)
      ret (response, unsaved)
  ]

  unfoldable pub finish :
      Option (HeldSession Session) → State → ℕ → ℕ → Session → Prog Session (Answered Session)
  finish unsaved s started version session = do
    p ← confirm b session
    end_confirm unsaved s started version session p

  -- What follows the attempts to log in.
  unfoldable pub end_attempt :
      Option (HeldSession Session)
      → State
      → ℕ
      → ℕ
      → LoginEnd Session
      → Prog Session (Answered Session)
  end_attempt unsaved s started version (held response) = do
    r ← commit s (λ x. ret (record x { attempt_started_at = 0 }))
    ret (response, unsaved)
  end_attempt unsaved s started version (failing e) = do
    response ← login_did_fail b s started e
    ret (response, unsaved)
  end_attempt unsaved s started version (made none) = do
    response ← failed_login b s started login_unconfirmed (codes "no_session")
    ret (response, unsaved)
  end_attempt unsaved s started version (made (some fresh)) = finish unsaved s started version fresh

  -- Step 4 once the write of the record that says that a login is starting has ended.
  unfoldable pub attempt :
      Option (HeldSession Session)
      → ℕ
      → ℕ
      → ℕ
      → Result StoreError State
      → Prog Session (Answered Session)
  attempt unsaved started logged_in_at version (err e) = ret (record_failure started e, unsaved)
  attempt unsaved started logged_in_at version (ok marked) = do
    end ← log_in b marked logged_in_at
    end_attempt unsaved marked started version end
