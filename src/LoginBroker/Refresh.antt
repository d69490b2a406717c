-- ===== src/LoginBroker/Refresh.antt =====
-- refresh of internal/loginbroker/broker.go: the record, the stored session, and whether a login may
-- be made.
use glovebox.Prelude.{
  Bool, ℕ, ◌+◌, true, false, not, ◌&&◌, ◌||◌, ltb, leb, ◌==◌, [], eq_bytes, Option, none, some,
  if◌then◌else◌, is_nil,
}
use glovebox.Prelude.Result.{Result, ok, err}
use glovebox.LoginVault.{State, empty_state, attempt_in_progress, attempt_fresh_for, count_login}
use glovebox.LoginBroker.Program.{
  Prog, ret, ask, ◌>>=◌, read_clock, connect, read_state, read_fields, can_write, new_salt, probe,
  unknown, alive, dead, StoreError, Stored,
}
use glovebox.LoginBroker.Policy.{
  Broker, answer, defer_until, gate, latch_code, recent_login, current, latched, failed,
  inconclusive, login_in_progress, store_rejected, store_unavailable, internal, probe_inconclusive,
}
use glovebox.LoginBroker.Writes.{write_state_once}
use glovebox.LoginBroker.Logins.{count_failure}
use glovebox.LoginBroker.Finish.{
  Answered, HeldSession, Request, Standing, attempt, record_failure, short_fingerprint, store_code,
  with_session,
}

module _ {Session Location : Type 0} (b : Broker Session Location) where
  -- Step 4: the record is written before the login, check-and-set.
  unfoldable pub start_login :
      Option (HeldSession Session) → State → ℕ → ℕ → Prog Session (Answered Session)
  start_login unsaved s logged_in_at version = do
    started ← ask read_clock
    w ←
        write_state_once
          (record s { credential_fingerprint = b.credentials s.salt; attempt_started_at = started })
    attempt b unsaved started logged_in_at version w

  -- Step 3 and the check of write access.
  unfoldable pub consider_login :
      Option (HeldSession Session) → State → ℕ → ℕ → Prog Session (Answered Session)
  consider_login unsaved s logged_in_at version = do
    t ← ask read_clock
    elim (gate b t s logged_in_at) [
      | some response ↦ ret (response, unsaved)
      | none ↦ do
        w ← ask can_write
        elim w [
          | err e ↦ start_login unsaved s logged_in_at version
          | ok allowed ↦
              if allowed
              then start_login unsaved s logged_in_at version
              else ret (answer b failed (some store_rejected) [], unsaved)
        ]
    ]

  -- The session of the store, unless this process holds a later one that never reached it.
  unfoldable pub standing : Option (HeldSession Session) → Stored → Standing Session
  standing unsaved found =
      let stored = if is_nil found.fields then none else b.decode found.fields in
      let from_store : Standing Session = record {
        session = stored;
        logged_in_at = found.logged_in_at;
        needs_write = false;
        version = found.version;
      } in
      elim unsaved [
        | none ↦ from_store
        | some u ↦
            if elim stored [ none ↦ true | some x ↦ false ] || ltb found.logged_in_at u.logged_in_at
            then record {
              session = some u.session;
              logged_in_at = u.logged_in_at;
              needs_write = true;
              version = found.version;
            }
            else from_store
      ]

  -- The caller asks about a session that was replaced moments before the time `t`.
  unfoldable pub is_replaced : Request → ℕ → Session → Standing Session → Bool
  is_replaced req t session now =
      not (eq_bytes (short_fingerprint (b.session_fingerprint session)) req.fingerprint)
      && not (now.logged_in_at == 0)
      && leb now.logged_in_at t
      && ltb t (now.logged_in_at + recent_login)

  -- The site is asked whether it still accepts the session.
  unfoldable pub ask_site :
      Option (HeldSession Session)
      → State
      → Session
      → Standing Session
      → Prog Session (Answered Session)
  ask_site unsaved s session now = do
    p ← ask (probe session)
    elim p.state [
      | alive ↦ with_session b unsaved current session now.logged_in_at now.version now.needs_write
      | unknown ↦ ret (answer b inconclusive (some probe_inconclusive) p.reason, unsaved)
      | dead ↦ consider_login unsaved s now.logged_in_at now.version
    ]

  -- Step 2, at the time `t` of step 1.
  unfoldable pub check_session :
      Option (HeldSession Session) → Request → ℕ → State → Prog Session (Answered Session)
  check_session unsaved req t s = do
    r ← ask read_fields
    elim r [
      | err e ↦ ret (answer b failed (some (store_code e)) [], unsaved)
      | ok found ↦
          let now = standing unsaved found in
          elim now.session [
            | none ↦ consider_login unsaved s now.logged_in_at now.version
            | some session ↦
                if is_replaced req t session now
                then with_session b unsaved current session now.logged_in_at now.version
                    now.needs_write
                else ask_site unsaved s session now
          ]
    ]

  -- The latch of step 1.
  unfoldable pub check_latch :
      Option (HeldSession Session) → Request → ℕ → State → Prog Session (Answered Session)
  check_latch unsaved req t s =
      if s.blocked
      then (if eq_bytes s.credential_fingerprint (b.credentials s.salt)
          then ret (answer b latched (some (latch_code s.blocked_reason)) [], unsaved)
          else check_session unsaved req t (record s {
            blocked = false;
            blocked_reason = [];
            blocked_at = 0;
            unconfirmed_count = 0;
          }))
      else check_session unsaved req t s

  -- The attempt of step 1 that never recorded its outcome counts as a failed login.
  unfoldable pub settle_attempt : State → Prog Session State
  settle_attempt s = count_failure b (
      count_login (b.day_of s.attempt_started_at)
        (record s { request_login_at = s.attempt_started_at; attempt_started_at = 0 }))

  -- Step 1 once the record has a salt.
  unfoldable pub check_settled :
      Option (HeldSession Session)
      → Request
      → ℕ
      → Result StoreError State
      → Prog Session (Answered Session)
  check_settled unsaved req t (err e) = ret (record_failure b t e, unsaved)
  check_settled unsaved req t (ok written) = check_latch unsaved req t written

  unfoldable pub settle_and_check :
      Option (HeldSession Session) → Request → ℕ → State → Prog Session (Answered Session)
  settle_and_check unsaved req t s = do
    settled ← settle_attempt s
    w ← write_state_once settled
    check_settled unsaved req t w

  unfoldable pub check_record :
      Option (HeldSession Session) → Request → State → Prog Session (Answered Session)
  check_record unsaved req s = do
    t ← ask read_clock
    (if attempt_in_progress s t
        then ret
            (defer_until b login_in_progress (s.attempt_started_at + attempt_fresh_for), unsaved)
        else if s.attempt_started_at == 0
        then check_latch unsaved req t s
        else settle_and_check unsaved req t s)

  unfoldable pub make_salt :
      Option (HeldSession Session) → Request → State → Prog Session (Answered Session)
  make_salt unsaved req s = do
    made_salt ← ask new_salt
    elim made_salt [
      | none ↦ ret (answer b failed (some internal) [], unsaved)
      | some salt ↦
          if is_nil salt
          then ret (answer b failed (some internal) [], unsaved)
          else check_record unsaved req (record s { salt = salt })
    ]

  -- Step 1, once the store is open.
  unfoldable pub open_record :
      Option (HeldSession Session) → Request → Prog Session (Answered Session)
  open_record unsaved req = do
    r ← ask read_state
    elim r [
      | err e ↦ ret (answer b failed (some (store_code e)) [], unsaved)
      | ok found ↦
          let s : State = elim found [ none ↦ empty_state | some x ↦ x ] in
          if is_nil s.salt then make_salt unsaved req s else check_record unsaved req s
    ]

  unfoldable pub refresh : Option (HeldSession Session) → Request → Prog Session (Answered Session)
  refresh unsaved req = do
    connected ← ask connect
    (if connected
        then open_record unsaved req
        else ret (answer b failed (some store_unavailable) [], unsaved))
