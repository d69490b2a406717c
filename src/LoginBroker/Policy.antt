-- ===== src/LoginBroker/Policy.antt =====
-- The policy of internal/loginbroker/broker.go: the configuration, the answers, and the gate that
-- decides whether a login may start.
use glovebox.Prelude.{
  ℕ, ◌+◌, ◌-◌, Bool, true, false, not, ◌&&◌, ltb, leb, ◌==◌, List, [], Bytes, codes, eq_bytes,
  Option, none, some, if◌then◌else◌, is_nil,
}
use glovebox.Journal.Fields.{Assoc}
use glovebox.DailyWindow.{WindowSet, blocks_at, next_clear}
use glovebox.LoginVault.{State, logins_on}

-- Outcomes and codes of brokerapi.
pub data Outcome : Type 0 where
  refreshed current deferred budget_exhausted latched inconclusive failed : Outcome

pub data Code : Type 0 where
  blackout min_interval cooldown login_in_progress state_conflict credentials_rejected
        consecutive_failures :
      Code
  login_unconfirmed login_failed login_not_submitted store_unavailable store_rejected
        probe_inconclusive :
      Code
  internal superseded session_not_stored : Code

-- brokerapi.Response without the site's name, which is the driver's.
pub record Response : Type 0 where
  pub outcome : Outcome
  pub code : Option Code
  pub detail : Bytes
  pub retry_after : Option ℕ
  pub session : Assoc Bytes
  pub fingerprint : Bytes
  pub logged_in_at : Option ℕ

-- The outcomes that carry a session.
unfoldable pub carries_session : Outcome → Bool
carries_session refreshed = true
carries_session current = true
carries_session _ = false

-- HasSession
unfoldable pub has_session : Response → Bool
has_session r = carries_session r.outcome && not (is_nil r.session)

-- time.Minute and the constants that are durations, in nanoseconds. The counts of attempts are the
-- rounds of the loops.
abbrev pub minute : ℕ
minute = 60000000000

abbrev pub recent_login : ℕ
recent_login = 120000000000

abbrev pub retry_delay : ℕ
retry_delay = 10000000000

abbrev pub confirm_delay : ℕ
confirm_delay = 5000000000

abbrev pub write_delay : ℕ
write_delay = 5000000000

-- What a Broker holds that does not change, with the driver's methods that only compute, the calendar
-- of its zones, the digest of the credentials and the reduction of a driver's text to a token.
pub record Broker (Session Location : Type 0) : Type 0 where
  pub encode : Session → ℕ → Option (Assoc Bytes)
  pub decode : Assoc Bytes → Option Session
  pub session_fingerprint : Session → Bytes
  pub clock : Location → ℕ → ℕ × ℕ × ℕ
  pub windows : List (WindowSet Location)
  pub headroom : ℕ
  pub interval : ℕ
  pub max_failures : ℕ
  pub daily_budget : ℕ
  pub cooldown_for : ℕ
  pub day_of : ℕ → Bytes
  pub next_midnight : ℕ → ℕ
  pub credentials : Bytes → Bytes
  pub token : Bytes → Bytes
  pub format_time : ℕ → Bytes

module _ {Session Location : Type 0} (b : Broker Session Location) where
  unfoldable pub answer : Outcome → Option Code → Bytes → Response
  answer o c d = record {
    outcome = o;
    code = c;
    detail = b.token d;
    retry_after = none;
    session = [];
    fingerprint = [];
    logged_in_at = none;
  }

  -- deferred
  unfoldable pub defer_until : Code → ℕ → Response
  defer_until c earliest = record (answer deferred (some c) []) {
    retry_after = next_clear b.clock b.windows earliest b.headroom;
  }

  -- The later of the login of the record and the one that made the stored session.
  unfoldable pub last_login : State → ℕ → ℕ
  last_login s logged_in_at =
      if ltb s.request_login_at logged_in_at then logged_in_at else s.request_login_at

  -- gate: none when a login may start at `t`.
  unfoldable pub gate : ℕ → State → ℕ → Option Response
  gate t s logged_in_at =
      let last = last_login s logged_in_at in
      if blocks_at b.clock b.windows t b.headroom
      then some (defer_until blackout t)
      else if not (last == 0) && ltb t last
      then some (defer_until min_interval (t + b.interval))
      else if not (last == 0) && ltb (t - last) b.interval
      then some (defer_until min_interval (last + b.interval))
      else if ltb t s.cooldown_until
      then some (
          defer_until cooldown (
            if ltb (t + b.cooldown_for) s.cooldown_until
            then t + b.cooldown_for
            else s.cooldown_until))
      else if leb b.daily_budget (logins_on s (b.day_of t))
      then some
          (record (answer budget_exhausted none []) { retry_after = some (b.next_midnight t) })
      else none

-- latchCode
unfoldable pub latch_code : Bytes → Code
latch_code reason =
    if eq_bytes reason (codes "credentials_rejected")
    then credentials_rejected
    else consecutive_failures
