-- ===== src/LoginBroker/Program.antt =====
-- The programs of internal/loginbroker/broker.go: the interfaces Store and Driver and the clock as
-- calls with an answer each, and a program as a tree over the answers that may come.
use glovebox.Prelude.{ℕ, Bool, Bytes, codes, Option}
use glovebox.Prelude.Result.{Result}
use glovebox.Journal.Fields.{Assoc}
use glovebox.LoginVault.{State}

-- ProbeState
pub data ProbeState : Type 0 where
  unknown alive dead : ProbeState

-- String
abbrev pub state_name : ProbeState → Bytes
state_name alive = codes "alive"
state_name dead = codes "dead"
state_name unknown = codes "unknown"

pub record ProbeResult : Type 0 where
  pub state : ProbeState
  pub reason : Bytes

-- LoginFailure
pub data LoginFailure : Type 0 where
  login_unknown login_not_submitted login_rejected : LoginFailure

pub record LoginError : Type 0 where
  pub kind : LoginFailure
  pub detail : Bytes

-- A store's error, with what IsCASMismatch and IsClientError say of it.
pub data StoreError : Type 0 where
  store_error : (cas_mismatch client : Bool) → StoreError

abbrev pub is_cas_mismatch : StoreError → Bool
is_cas_mismatch (store_error cas_mismatch client) = cas_mismatch

abbrev pub is_client_error : StoreError → Bool
is_client_error (store_error cas_mismatch client) = client

-- The answer of ReadFields: the string fields, their time and version.
pub record Stored : Type 0 where
  pub fields : Assoc Bytes
  pub logged_in_at : ℕ
  pub version : ℕ

-- The calls of Store, Driver and the seams of Config.
pub data Call (Session : Type 0) : Type 0 where
  connect read_state read_fields can_write read_clock new_salt login : Call Session
  write_state : State → Call Session
  write : Assoc Bytes → ℕ → Call Session
  probe : Session → Call Session
  sleep : ℕ → Call Session

module _ {Session : Type 0} where
  -- What a call answers. An error of Login that is no LoginError is none.
  abbrev pub Answer : Call Session → Type 0
  Answer connect = Bool
  Answer read_state = Result StoreError (Option State)
  Answer read_fields = Result StoreError Stored
  Answer can_write = Result StoreError Bool
  Answer read_clock = ℕ
  Answer new_salt = Option Bytes
  Answer login = Result (Option LoginError) (Option Session)
  Answer (write_state s) = Result StoreError ℕ
  Answer (write fields cas) = Result StoreError (Unit {0})
  Answer (probe s) = ProbeResult
  Answer (sleep d) = Bool

pub data Prog (Session A : Type 0) : Type 0 where
  ret : A → Prog Session A
  call : (c : Call Session) → (Answer c → Prog Session A) → Prog Session A

infixl 5 ◌>>=◌
unfoldable pub ◌>>=◌ :
    {Session A B : Type 0} → Prog Session A → (A → Prog Session B) → Prog Session B
ret a >>= f = f a
call c k >>= f = call c (λ r. k r >>= f)

-- One call.
abbrev pub ask : {Session : Type 0} → (c : Call Session) → Prog Session (Answer c)
ask c = call c ret
