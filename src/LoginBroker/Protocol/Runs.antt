-- ===== src/LoginBroker/Protocol/Runs.antt =====
-- The runs of the request: refresh of internal/loginbroker/broker.go with a store, a driver and a
-- clock that answer as they like, one call after the other.
use glovebox.Prelude.{◌≡◌, Option}
use glovebox.Prelude.Result.{Result}
use glovebox.LoginBroker.Program.{Answer, Call, Prog, ret, call, login}
use glovebox.LoginBroker.Policy.{Broker, Response, has_session, carries_session}
use glovebox.LoginBroker.Finish.{HeldSession, Request, Answered}
use glovebox.LoginBroker.Refresh.{refresh}
use glovebox.LoginBroker.Protocol.{Watch, after, Fits, LoginAllowed, Obeys, start}
use glovebox.LoginBroker.Protocol.Answers.{Final, Honest, Accounted}
use glovebox.LoginBroker.Protocol.Refreshing.{refresh-Obeys}

-- From a watch and a program to a later watch and what is left of the program.
pub data Reaches {Session A : Type 0}
    : Watch → Prog Session A → Watch → Prog Session A → Type 0 where
  here : {g : Watch} {p : Prog Session A} → Reaches g p g p
  step :
      {g g' : Watch} {c : Call Session} {k : Answer c → Prog Session A} {p : Prog Session A}
      (r : Answer c)
      → Fits c r
      → Reaches (after g c r) (k r) g' p
      → Reaches g (call c k) g' p

module _ {Session Location A : Type 0} (b : Broker Session Location) (P : Watch → A → Type 0) where
  later-Obeys :
      (g g' : Watch) (p p' : Prog Session A) → Reaches g p g' p' → Obeys b P g p → Obeys b P g' p'
  later-Obeys g g' _ _ here h = h
  later-Obeys g g' _ p' (step {c = c} {k = k} r f w) h =
      later-Obeys (after g c r) g' (k r) p' w (h.1 r f)

module _ {Session Location : Type 0} (b : Broker Session Location) where
  -- However the store, the driver and the clock answer, when a run of a request calls Login the clock
  -- was just read, at a time at which the policy allows a login (no window in the headroom, the
  -- interval since the last recorded login over, no cooldown, budget left for the day) by the record
  -- that the store was last given and is known to hold; that record has no latch and says that a login
  -- is starting, fewer than two attempts were made, none of them submitted, and the site has accepted
  -- no session that was asked about.
  pub refresh-LoginAllowed :
      (unsaved : Option (HeldSession Session)) (req : Request) (g : Watch)
      (k : Answer {Session = Session} login → Prog Session (Answered Session))
      → Reaches start (refresh b unsaved req) g (call login k)
      → LoginAllowed b g
  refresh-LoginAllowed unsaved req g k w =
      (later-Obeys b (Final b) start g (refresh b unsaved req) (call login k) w
        (refresh-Obeys b unsaved req)).0

  -- When a run of a request ends with the answer that the session was refreshed, a login was submitted
  -- and the last answer of the site about a session was that it is alive; when it ends with the answer
  -- that the session is current, no login was submitted.
  pub refresh-Honest :
      (unsaved u : Option (HeldSession Session)) (req : Request) (g : Watch) (r : Response)
      → Reaches start (refresh b unsaved req) g (ret (r, u))
      → Honest g r.outcome
  refresh-Honest unsaved u req g r w =
      (later-Obeys b (Final b) start g (refresh b unsaved req) (ret (r, u)) w
        (refresh-Obeys b unsaved req)).0

  -- When a run of a request ends, the answer has a session exactly when it says refreshed or current.
  refresh-has_session :
      (unsaved u : Option (HeldSession Session)) (req : Request) (g : Watch) (r : Response)
      → Reaches start (refresh b unsaved req) g (ret (r, u))
      → has_session r ≡ carries_session r.outcome
  refresh-has_session unsaved u req g r w =
      (later-Obeys b (Final b) start g (refresh b unsaved req) (ret (r, u)) w
        (refresh-Obeys b unsaved req)).1

  -- When a run of a request ends and a login was submitted, the record that the store last took from it
  -- either has no login under way and counts, on the day of its last login, exactly one login more than a
  -- record that the store held when Login was called or since, or it still says that a login is under
  -- way.
  pub refresh-Accounted :
      (unsaved u : Option (HeldSession Session)) (req : Request) (g : Watch) (r : Response)
      → Reaches start (refresh b unsaved req) g (ret (r, u))
      → Accounted b g
  refresh-Accounted unsaved u req g r w =
      (later-Obeys b (Final b) start g (refresh b unsaved req) (ret (r, u)) w
        (refresh-Obeys b unsaved req)).2
