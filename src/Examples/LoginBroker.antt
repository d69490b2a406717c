-- ===== src/Examples/LoginBroker.antt =====
-- A site of internal/loginbroker that was never logged in to, on a driver whose sessions are numbers.
use glovebox.Prelude.{
  ◌/◌, ◌%◌, ◌*◌, arith, refl, ℕ, ◌≡◌, ◌≢◌, ◌≤◌, ◌+◌, true, false, suc, [], ◌∷◌, none, some, Option,
  codes, eq_bytes,
}
use glovebox.Prelude.Result.{Result, ok}
use glovebox.DailyWindow.{
  blocks_at, next_clear, set_blocks_at, contains, contains_second, next_clear_from, blocks_from,
}
use glovebox.LoginVault.{State, empty_state, attempt_in_progress, logins_on, count_login}
use glovebox.LoginBroker.Program.{Answer, Prog, ret, call, ◌>>=◌, login, alive}
use glovebox.LoginBroker.Policy.{
  Broker, Response, deferred, blackout, gate, last_login, defer_until, answer,
}
use glovebox.LoginBroker.Writes.{
  write_session, write_session_from, attempt_session, attempt_write, write_state_from,
  write_state_once, commit, commit_first,
}
use glovebox.LoginBroker.Logins.{attempt_login, log_in, confirm, confirm_from}
use glovebox.LoginBroker.Finish.{
  HeldSession, Request, Answered, attempt, end_attempt, finish, end_confirm, with_session,
  end_write,
}
use glovebox.LoginBroker.Refresh.{
  standing, refresh, open_record, make_salt, check_record, check_latch, check_session,
  consider_login, start_login,
}
use glovebox.LoginBroker.Protocol.{Watch, LoginAllowed, start}
use glovebox.LoginBroker.Deferral.{gate_retry}
use glovebox.LoginBroker.Protocol.Answers.{Honest, Accounted}
use glovebox.LoginBroker.Protocol.Runs.{
  Reaches, here, step, refresh-LoginAllowed, refresh-Honest, refresh-Accounted,
}

abbrev site : Broker ℕ (Unit {0})
site = record {
  encode = λ s t. some ((codes "cookie", codes "c") ∷ []);
  decode = λ f. none;
  session_fingerprint = λ s. codes "f";
  clock = λ l t. (t / 3600000000000 % 24, t / 60000000000 % 60, t / 1000000000 % 60);
  windows = [];
  headroom = 60000000000;
  interval = 300000000000;
  max_failures = 3;
  daily_budget = 4;
  cooldown_for = 60000000000;
  day_of = λ t. codes "day";
  next_midnight = λ t. t + 1;
  credentials = λ salt. codes "d";
  token = λ t. t;
  format_time = λ t. codes "t";
}

abbrev request : Request
request = record { fingerprint = [] }

-- The clock reads this after `n` seconds.
abbrev seconds : ℕ → ℕ
seconds n = suc n * 1000000000

reads : (n : ℕ) → seconds n ≢ 0
reads n e = omega (arith, e)

-- A request up to its login: the store has no record and no session, and takes the record.
to_login :
    (g : Watch) × (k : Answer {Session = ℕ} login → Prog ℕ (Answered ℕ)) × Reaches start
      (refresh site none request)
      g
      (call login k)
unfolding refresh open_record make_salt check_record check_latch check_session standing
    consider_login start_login attempt log_in attempt_login write_state_once write_state_from
    attempt_write ◌>>=◌ gate last_login attempt_in_progress logins_on eq_bytes blocks_at
to_login = (
  _,
  _,
  step true tt (
      step (ok none) tt (
        step (some (codes "salt")) tt (
          step (seconds 1) (reads 1) (
            step (ok (record { fields = []; logged_in_at = 0; version = 0 })) tt (
              step (seconds 2) (reads 2) (
                step (ok true) tt (
                  step (seconds 3) (reads 3)
                    (step (ok 1) tt (step (seconds 4) (reads 4) here))))))))),
)

refresh-LoginAllowed_example : LoginAllowed site to_login.0
refresh-LoginAllowed_example =
    refresh-LoginAllowed site none request to_login.0 to_login.1 to_login.2

-- The whole request: the login succeeds, the site accepts the session, both writes are taken.
to_answer :
    (g : Watch) × (r : Response) × (u : Option (HeldSession ℕ)) × Reaches start
      (refresh site none request)
      g
      (ret (r, u))
unfolding refresh open_record make_salt check_record check_latch check_session standing
    consider_login start_login attempt log_in attempt_login write_state_once write_state_from
    attempt_write ◌>>=◌ gate last_login attempt_in_progress logins_on eq_bytes blocks_at end_attempt
    finish confirm confirm_from end_confirm commit commit_first with_session write_session
    write_session_from attempt_session end_write count_login
to_answer = (
  _,
  _,
  _,
  step true tt (
      step (ok none) tt (
        step (some (codes "salt")) tt (
          step (seconds 1) (reads 1) (
            step (ok (record { fields = []; logged_in_at = 0; version = 0 })) tt (
              step (seconds 2) (reads 2) (
                step (ok true) tt (
                  step (seconds 3) (reads 3) (
                    step (ok 1) tt (
                      step (seconds 4) (reads 4) (
                        step (ok (some 7)) tt (
                          step (record { state = alive; reason = [] }) tt
                            (step (seconds 5) (reads 5)
                              (step (ok 2) tt (step (ok tt) tt here)))))))))))))),
)

refresh-Honest_example : Honest to_answer.0 (to_answer.1).outcome
refresh-Honest_example =
    refresh-Honest site none to_answer.2 request to_answer.0 to_answer.1 to_answer.3

refresh-Accounted_example : Accounted site to_answer.0
refresh-Accounted_example =
    refresh-Accounted site none to_answer.2 request to_answer.0 to_answer.1 to_answer.3

-- The record is written once more: the first answer was lost, the second says that it changed, and it
-- is recognised.
abbrev fresh : State
fresh = record empty_state { salt = codes "salt" }

-- A minute is blocked from midnight on, and the login is asked for within it.
abbrev quiet_site : Broker ℕ (Unit {0})
quiet_site = record site {
  windows = record { windows = record { start = 0; finish = 60 } ∷ []; loc = some tt } ∷ [];
}

quiet_answer : Response
quiet_answer = record (answer quiet_site deferred (some blackout) []) {
  retry_after = some 60000000000;
}

gate_retry_example :
    (seconds 9 ≤ 60000000000)
    × (blocks_at quiet_site.clock quiet_site.windows 60000000000 quiet_site.headroom ≡ false)
unfolding gate defer_until blocks_at set_blocks_at next_clear answer blocks_from contains
    contains_second next_clear_from
gate_retry_example = gate_retry quiet_site (seconds 9) empty_state 0 60000000000 _ refl refl refl
