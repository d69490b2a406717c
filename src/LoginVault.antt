-- ===== src/LoginVault.antt =====
-- internal/loginvault/loginvault.go: the record of logins that the login workloads share. Times are
-- nanoseconds since the zero time, which is 0.
pub mod Stored
use glovebox.Prelude.{
  ℕ, suc, ◌+◌, ◌/◌, Bool, false, not, ◌&&◌, ◌||◌, ltb, ◌==◌, [], Bytes, eq_bytes, if◌then◌else◌,
}

pub record State : Type 0 where
  pub salt : Bytes
  pub blocked : Bool
  pub blocked_reason : Bytes
  pub blocked_at : ℕ
  pub credential_fingerprint : Bytes
  pub unconfirmed_count : ℕ
  pub served_request : Bytes
  pub request_login_at : ℕ
  pub attempt_started_at : ℕ
  pub cooldown_until : ℕ
  pub login_day : Bytes
  pub login_day_count : ℕ
  pub version : ℕ

-- &loginvault.State{}
abbrev pub empty_state : State
empty_state = record {
  salt = [];
  blocked = false;
  blocked_reason = [];
  blocked_at = 0;
  credential_fingerprint = [];
  unconfirmed_count = 0;
  served_request = [];
  request_login_at = 0;
  attempt_started_at = 0;
  cooldown_until = 0;
  login_day = [];
  login_day_count = 0;
  version = 0;
}

unfoldable pub same_time : ℕ → ℕ → Bool
same_time a b = (a / 1000000000 == b / 1000000000) || (a == 0 && b == 0)

-- SameRecord
unfoldable pub same_record : State → State → Bool
same_record s o =
    eq_bytes s.salt o.salt
    && ((s.blocked && o.blocked) || (not s.blocked && not o.blocked))
    && eq_bytes s.blocked_reason o.blocked_reason
    && same_time s.blocked_at o.blocked_at
    && eq_bytes s.credential_fingerprint o.credential_fingerprint
    && s.unconfirmed_count == o.unconfirmed_count
    && eq_bytes s.served_request o.served_request
    && same_time s.request_login_at o.request_login_at
    && same_time s.attempt_started_at o.attempt_started_at
    && same_time s.cooldown_until o.cooldown_until
    && eq_bytes s.login_day o.login_day
    && s.login_day_count == o.login_day_count

-- 10 * time.Minute
abbrev pub attempt_fresh_for : ℕ
attempt_fresh_for = 600000000000

unfoldable pub attempt_in_progress : State → ℕ → Bool
attempt_in_progress s now =
    not (s.attempt_started_at == 0)
    && ltb now (s.attempt_started_at + attempt_fresh_for)
    && ltb s.attempt_started_at (now + attempt_fresh_for)

unfoldable pub logins_on : State → Bytes → ℕ
logins_on s day = if eq_bytes s.login_day day then s.login_day_count else 0

unfoldable pub count_login : Bytes → State → State
count_login day s =
    if eq_bytes s.login_day day
    then record s { login_day_count = suc s.login_day_count }
    else record s { login_day = day; login_day_count = 1 }
