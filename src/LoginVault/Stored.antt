-- ===== src/LoginVault/Stored.antt =====
-- When two records of logins are stored alike: SameRecord of internal/loginvault/loginvault.go.
use glovebox.Prelude.{ℕ, ◌≡◌, ◌/◌, true, eq_bytes→eq, arith}
use glovebox.LoginVault.{State, same_time, same_record}

-- Times are stored to the second.
abbrev pub SameSecond : ℕ → ℕ → Type 0
SameSecond a b = a / 1000000000 ≡ b / 1000000000

-- Every field that is stored is the same; the version is not stored.
pub record SameStored (s o : State) : Type 0 where
  pub salt : s.salt ≡ o.salt
  pub blocked : s.blocked ≡ o.blocked
  pub blocked_reason : s.blocked_reason ≡ o.blocked_reason
  pub blocked_at : SameSecond s.blocked_at o.blocked_at
  pub credential_fingerprint : s.credential_fingerprint ≡ o.credential_fingerprint
  pub unconfirmed_count : s.unconfirmed_count ≡ o.unconfirmed_count
  pub served_request : s.served_request ≡ o.served_request
  pub request_login_at : SameSecond s.request_login_at o.request_login_at
  pub attempt_started_at : SameSecond s.attempt_started_at o.attempt_started_at
  pub cooldown_until : SameSecond s.cooldown_until o.cooldown_until
  pub login_day : s.login_day ≡ o.login_day
  pub login_day_count : s.login_day_count ≡ o.login_day_count

same_time-SameSecond : (a b : ℕ) → same_time a b ≡ true → SameSecond a b
unfolding same_time
same_time-SameSecond a b h = ground (arith, h)

pub same_record-SameStored : (s o : State) → same_record s o ≡ true → SameStored s o
unfolding same_record
same_record-SameStored s o h = record {
  salt = eq_bytes→eq s.salt o.salt (ground (arith, h));
  blocked = ground (arith, h);
  blocked_reason = eq_bytes→eq s.blocked_reason o.blocked_reason (ground (arith, h));
  blocked_at = same_time-SameSecond s.blocked_at o.blocked_at (ground (arith, h));
  credential_fingerprint =
      eq_bytes→eq s.credential_fingerprint o.credential_fingerprint (ground (arith, h));
  unconfirmed_count = ground (arith, h);
  served_request = eq_bytes→eq s.served_request o.served_request (ground (arith, h));
  request_login_at = same_time-SameSecond s.request_login_at o.request_login_at (ground (arith, h));
  attempt_started_at =
      same_time-SameSecond s.attempt_started_at o.attempt_started_at (ground (arith, h));
  cooldown_until = same_time-SameSecond s.cooldown_until o.cooldown_until (ground (arith, h));
  login_day = eq_bytes→eq s.login_day o.login_day (ground (arith, h));
  login_day_count = ground (arith, h);
}
