-- ===== src/LoginBroker/Writes.antt =====
-- The writes of internal/loginbroker/broker.go: the record, by WriteStateOnce of
-- internal/loginvault/loginvault.go, and the session.
use glovebox.Prelude.{
  ℕ, zero, suc, Bool, true, false, not, Bytes, Option, none, some, if◌then◌else◌,
}
use glovebox.Prelude.Result.{Result, ok, err}
use glovebox.Journal.Fields.{Assoc}
use glovebox.LoginVault.{State, same_record}
use glovebox.LoginBroker.Program.{
  Prog, ret, ask, ◌>>=◌, read_state, read_fields, write_state, write, probe, sleep, StoreError,
  is_cas_mismatch, is_client_error, alive,
}
use glovebox.LoginBroker.Policy.{write_delay}

module _ {Session : Type 0} where
  -- After a refused write that an earlier one may have made: whether the stored record is ours.
  unfoldable pub recognise : State → StoreError → Prog Session (Result StoreError State)
  recognise s e = do
    r ← ask read_state
    elim r [
      | err e' ↦ ret (err e)
      | ok found ↦ elim found [
        | none ↦ ret (err e)
        | some stored ↦
            if same_record stored s
            then ret (ok (record s { version = stored.version }))
            else ret (err e)
      ]
    ]

  -- One attempt of WriteStateOnce; `again` is what follows a transient failure. The record comes back
  -- with the version it was stored at.
  unfoldable pub attempt_write :
      Bool
      → State
      → (StoreError → Prog Session (Result StoreError State))
      → Prog Session (Result StoreError State)
  attempt_write uncertain s again = do
    r ← ask (write_state s)
    elim r [
      | ok v ↦ ret (ok (record s { version = v }))
      | err e ↦
          if is_cas_mismatch e
          then (if uncertain then recognise s e else ret (err e))
          else if is_client_error e
          then ret (err e)
          else again e
    ]

  -- The loop of WriteStateOnce: `more` attempts after this one.
  unfoldable pub write_state_from : ℕ → Bool → State → Prog Session (Result StoreError State)
  write_state_from zero uncertain s = attempt_write uncertain s (λ e. ret (err e))
  write_state_from (suc more) uncertain s = attempt_write uncertain s (λ e. do
    go ← ask (sleep write_delay)
    if go then write_state_from more true s else ret (err e))

  -- writeState, with writeAttempts attempts
  unfoldable pub write_state_once : State → Prog Session (Result StoreError State)
  write_state_once s = write_state_from 2 false s

  -- The end of commit after the second write.
  unfoldable pub commit_second :
      State → Result StoreError State → Prog Session (State × Option StoreError)
  commit_second changed (ok saved) = ret (saved, none)
  commit_second changed (err e) = ret (changed, some e)

  -- commit once the record was read again.
  unfoldable pub commit_reread :
      (State → Prog Session State)
      → State
      → StoreError
      → Result StoreError (Option State)
      → Prog Session (State × Option StoreError)
  commit_reread mutate changed e (err e') = ret (changed, some e)
  commit_reread mutate changed e (ok none) = ret (changed, some e)
  commit_reread mutate changed e (ok (some fresh)) = do
    again ← mutate fresh
    w ← write_state_once again
    commit_second changed w

  -- commit after the first write.
  unfoldable pub commit_first :
      (State → Prog Session State)
      → State
      → Result StoreError State
      → Prog Session (State × Option StoreError)
  commit_first mutate changed (ok saved) = ret (saved, none)
  commit_first mutate changed (err e) =
      if not (is_cas_mismatch e)
      then ret (changed, some e)
      else do r ← ask read_state; commit_reread mutate changed e r

  -- commit: the record as it stands in memory afterwards, and the error if it was not stored.
  unfoldable pub commit :
      State → (State → Prog Session State) → Prog Session (State × Option StoreError)
  commit state mutate = do
    changed ← mutate state
    r ← write_state_once changed
    commit_first mutate changed r

-- How writeSession ends.
pub data WriteEnd : Type 0 where
  wrote replaced not_written : WriteEnd

module _ {Session : Type 0} where
  -- One attempt of writeSession; `conflict` follows a first check-and-set mismatch, and `again` a
  -- transient failure.
  unfoldable pub attempt_session :
      Assoc Bytes
      → ℕ
      → (StoreError → Prog Session WriteEnd)
      → Prog Session WriteEnd
      → Prog Session WriteEnd
  attempt_session fields cas conflict again = do
    r ← ask (write fields cas)
    elim r [
      | ok u ↦ ret wrote
      | err e ↦
          if is_cas_mismatch e
          then conflict e
          else if is_client_error e
          then ret not_written
          else again
    ]

  abbrev pause : Prog Session WriteEnd → Prog Session WriteEnd
  pause next = do go ← ask (sleep write_delay); if go then next else ret not_written

  -- The loop once the other session was looked at: a mismatch is then an error like any other.
  unfoldable pub write_session_rest : ℕ → Assoc Bytes → ℕ → Prog Session WriteEnd
  write_session_rest zero fields cas =
      attempt_session fields cas (λ e. ret not_written) (ret not_written)
  write_session_rest (suc more) fields cas =
      attempt_session fields cas
        (λ e.
          if is_client_error e then ret not_written else pause (write_session_rest more fields cas))
        (pause (write_session_rest more fields cas))

  -- The check-and-set mismatch: the session of the other writer stays unless this one is alive.
  unfoldable pub resolve_conflict : Session → (ℕ → Prog Session WriteEnd) → Prog Session WriteEnd
  resolve_conflict session retry = do
    r ← ask read_fields
    elim r [
      | err e ↦ ret not_written
      | ok found ↦ do
        p ← ask (probe session)
        elim p.state [ alive ↦ retry found.version | _ ↦ ret replaced ]
    ]

  -- The loop of writeSession: `more` attempts after this one.
  unfoldable pub write_session_from : ℕ → Session → Assoc Bytes → ℕ → Prog Session WriteEnd
  write_session_from zero session fields cas =
      attempt_session fields cas (λ e. resolve_conflict session (write_session_rest 0 fields))
        (ret not_written)
  write_session_from (suc more) session fields cas =
      attempt_session fields cas
        (λ e. resolve_conflict session (write_session_rest (suc more) fields))
        (pause (write_session_from more session fields cas))

  -- writeSession, with writeAttempts attempts
  unfoldable pub write_session : Session → Assoc Bytes → ℕ → Prog Session WriteEnd
  write_session session fields cas = write_session_from 2 session fields cas
