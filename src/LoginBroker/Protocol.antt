-- ===== src/LoginBroker/Protocol.antt =====
-- The protocol that every login of the broker keeps, as a watcher of the calls of
-- internal/loginbroker/broker.go: what it remembers, and when it lets a login through.
pub mod Writing
pub mod LoggingIn
pub mod Recording
pub mod Storing
pub mod Answers
pub mod Answering
pub mod Deciding
pub mod Refreshing
pub mod Runs
use glovebox.Prelude.{
  ℕ, zero, suc, ◌+◌, ◌≤◌, ◌<◌, ◌≡◌, ◌≢◌, ◌⊎◌, Bool, true, false, not, ◌||◌, ◌&&◌, List, [], ◌∷◌,
  Option, none, some, if◌then◌else◌,
}
use glovebox.Prelude.Result.{Result, ok, err}
use glovebox.DailyWindow.{blocks_at}
use glovebox.LoginVault.{State, same_record, logins_on, empty_state}
use glovebox.LoginBroker.Program.{
  is_cas_mismatch, Call, Answer, Prog, ret, call, ◌>>=◌, connect, read_state, read_fields,
  can_write, read_clock, new_salt, login, write_state, write, probe, sleep, ProbeState, dead, alive,
  LoginFailure, login_unknown, login_not_submitted, login_rejected,
}
use glovebox.LoginBroker.Policy.{Broker}
use glovebox.LoginBroker.Logins.{as_login_error}

-- What the watcher remembers.
pub record Watch : Type 0 where
  -- The time, when the last call read the clock.
  pub reading : Option ℕ
  -- The record last given to the store, whether the store is known to hold it, and the last one that
  -- the store is known to have taken.
  pub offered : State
  pub taken : Bool
  pub stored : State
  -- The record that was read since the last write, and all those that the store is known to have held
  -- since the last call of Login, at that call included.
  pub read_back : Option State
  pub seen : List State
  -- The last answer about a session.
  pub probed : Option ProbeState
  -- The calls of Login, and whether one may have submitted the credentials.
  pub attempts : ℕ
  pub submitted : Bool
  -- Another writer changed the record since the last call of Login.
  pub conflict : Bool

abbrev pub start : Watch
start = record {
  reading = none;
  offered = empty_state;
  taken = false;
  stored = empty_state;
  read_back = none;
  seen = [];
  probed = none;
  attempts = 0;
  submitted = false;
  conflict = false;
}

abbrev was_submitted : LoginFailure → Bool
was_submitted login_not_submitted = false
was_submitted login_unknown = true
was_submitted login_rejected = true

-- The offered record turns out to be the stored one.
abbrev pub recognised : Watch → State → Watch
recognised g s =
    if same_record s g.offered
    then record g {
      reading = none;
      read_back = some s;
      taken = true;
      stored = g.offered;
      seen = g.offered ∷ s ∷ g.seen;
    }
    else record g { reading = none; read_back = some s; seen = s ∷ g.seen }

module _ {Session : Type 0} where
  abbrev pub after : Watch → (c : Call Session) → Answer c → Watch
  after g connect r = record g { reading = none }
  after g read_state (err e) = record g { reading = none }
  after g read_state (ok none) = record g { reading = none }
  after g read_state (ok (some s)) = recognised g s
  after g read_fields r = record g { reading = none }
  after g can_write r = record g { reading = none }
  after g read_clock t = record g { reading = some t }
  after g new_salt r = record g { reading = none }
  after g login (ok s) = record g {
    reading = none;
    attempts = suc g.attempts;
    submitted = true;
    conflict = false;
    seen = g.stored ∷ [];
  }
  after g login (err e) = record g {
    reading = none;
    attempts = suc g.attempts;
    submitted = was_submitted ((as_login_error e).kind);
    conflict = false;
    seen = g.stored ∷ [];
  }
  after g (write_state s) (ok v) = record g {
    reading = none;
    offered = s;
    taken = true;
    stored = s;
    read_back = none;
    seen = s ∷ g.seen;
  }
  after g (write_state s) (err e) = record g {
    reading = none;
    offered = s;
    read_back = none;
    taken = false;
    conflict = g.conflict || is_cas_mismatch e;
  }
  after g (write fields cas) r = record g { reading = none }
  after g (probe s) r = record g { reading = none; probed = some r.state }
  after g (sleep d) r = record g { reading = none }

  -- A clock does not read the zero time.
  abbrev pub Fits : (c : Call Session) → Answer c → Type 0
  Fits read_clock t = t ≢ 0
  Fits _ r = Unit

  module _ {Location : Type 0} (b : Broker Session Location) where
    -- The policy at time `t`: the whole span is clear of every window, the interval since the last
    -- recorded login has passed, no cooldown runs, the budget of the day is not spent.
    pub record MayLogin (t : ℕ) (s : State) : Type 0 where
      pub clear : blocks_at b.clock b.windows t b.headroom ≡ false
      pub rested : (s.request_login_at ≡ 0) ⊎ (s.request_login_at + b.interval ≤ t)
      pub cooled : s.cooldown_until ≤ t
      pub affordable : logins_on s (b.day_of t) < b.daily_budget

    -- When a login is let through: just after the clock was read, at a time when the policy allows it
    -- by the record that the store holds; that record says that a login is starting and has no latch;
    -- nothing was submitted yet, and the site accepts no session that was asked about.
    pub record LoginAllowed (g : Watch) : Type 0 where
      pub at : ℕ
      pub just_read : g.reading ≡ some at
      pub policy : MayLogin at g.offered
      pub known : g.taken ≡ true
      pub marked : g.offered.attempt_started_at ≢ 0
      pub no_latch : g.offered.blocked ≡ false
      pub few : g.attempts < 2
      pub first_submit : g.submitted ≡ false
      pub refused : (g.probed ≡ none) ⊎ (g.probed ≡ some dead)

    abbrev pub Allowed : Watch → Call Session → Type 0
    Allowed g login = LoginAllowed g
    Allowed g _ = Unit

    -- Whatever the calls answer, each one is allowed when it is made, and at the end the watch and the
    -- result are related by `P`.
    abbrev pub Obeys : {A : Type 0} → (Watch → A → Type 0) → Watch → Prog Session A → Type 0
    Obeys P g (ret a) = P g a
    Obeys P g (call c k) = Allowed g c × ((r : Answer c) → Fits c r → Obeys P (after g c r) (k r))

    pub Obeys-bind :
        {A B : Type 0} (P : Watch → B → Type 0) (f : A → Prog Session B) (g : Watch)
        (p : Prog Session A)
        → Obeys (λ g' a. Obeys P g' (f a)) g p
        → Obeys P g (p >>= f)
    unfolding ◌>>=◌
    Obeys-bind P f g (ret a) h = h
    Obeys-bind P f g (call c k) h = (h.0, λ r e. Obeys-bind P f (after g c r) (k r) (h.1 r e))

    pub Obeys-weaken :
        {A : Type 0} (P Q : Watch → A → Type 0) (g : Watch) (p : Prog Session A)
        → ((g' : Watch) (a : A) → P g' a → Q g' a)
        → Obeys P g p
        → Obeys Q g p
    Obeys-weaken P Q g (ret a) w h = w g a h
    Obeys-weaken P Q g (call c k) w h =
        (h.0, λ r e. Obeys-weaken P Q (after g c r) (k r) w (h.1 r e))

    -- One program after another.
    pub Obeys-then :
        {A B : Type 0} (P : Watch → A → Type 0) (Q : Watch → B → Type 0) (g : Watch)
        (p : Prog Session A) (f : A → Prog Session B)
        → Obeys P g p
        → ((g' : Watch) (a : A) → P g' a → Obeys Q g' (f a))
        → Obeys Q g (p >>= f)
    Obeys-then P Q g p f h k = Obeys-bind Q f g p (Obeys-weaken P _ g p k h)
