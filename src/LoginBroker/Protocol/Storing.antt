-- ===== src/LoginBroker/Protocol/Storing.antt =====
-- The write of a session under the watch of the login protocol: writeSession of
-- internal/loginbroker/broker.go.
use glovebox.Prelude.{
  ℕ, zero, suc, ◌≡◌, ◌⊎◌, inl, inr, refl, Bytes, some, Bool-cases, if◌then◌else◌,
}
use glovebox.Prelude.Result.{Result-cases}
use glovebox.Journal.Fields.{Assoc}
use glovebox.LoginBroker.Program.{
  Prog, ret, call, ◌>>=◌, sleep, alive, StoreError, is_cas_mismatch, is_client_error,
}
use glovebox.LoginBroker.Policy.{Broker, write_delay}
use glovebox.LoginBroker.Writes.{
  WriteEnd, replaced, not_written, attempt_session, write_session_rest, resolve_conflict,
  write_session_from, write_session,
}
use glovebox.LoginBroker.Protocol.{Watch, Obeys}
use glovebox.LoginBroker.Protocol.Recording.{ProbeState-cases, Asked}

-- The last answer about a session is the one before the write, or that the session is alive.
abbrev Fine : Watch → Watch → Type 0
Fine h g = Asked h g × ((g.probed ≡ h.probed) ⊎ (g.probed ≡ some alive))

-- The same, unless another session replaced this one.
abbrev pub SessionEnd : Watch → Watch → WriteEnd → Type 0
SessionEnd h g e = Asked h g × ((e ≡ replaced) ⊎ (g.probed ≡ h.probed) ⊎ (g.probed ≡ some alive))

ended : (h g : Watch) (e : WriteEnd) → Fine h g → SessionEnd h g e
ended h g e f = (f.0, inr (f.1))

module _ {Session Location : Type 0} (b : Broker Session Location) where
  attempt_session-Obeys :
      (h g : Watch) (fields : Assoc Bytes) (cas : ℕ) (conflict : StoreError → Prog Session WriteEnd)
      (again : Prog Session WriteEnd)
      → Fine h g
      → ((g' : Watch) (e : StoreError) → Fine h g' → Obeys b (SessionEnd h) g' (conflict e))
      → ((g' : Watch) → Fine h g' → Obeys b (SessionEnd h) g' again)
      → Obeys b (SessionEnd h) g (attempt_session fields cas conflict again)
  unfolding attempt_session ◌>>=◌
  attempt_session-Obeys h g fields cas conflict again f c n = (
    tt,
    λ r _. elim (Result-cases r) [
      | inl (u, q) ↦ rw q (f.0, inr (f.1))
      | inr (e, q) ↦ elim (Bool-cases (is_cas_mismatch e)) [
        | inl m ↦ rw (q, m) (c _ e f)
        | inr m ↦ elim (Bool-cases (is_client_error e)) [
          | inl k ↦ rw (q, m, k) (f.0, inr (f.1))
          | inr k ↦ rw (q, m, k) (n _ f)
        ]
      ]
    ],
  )

  -- A pause before the next attempt.
  pause-Obeys :
      (h g : Watch) (next : Prog Session WriteEnd)
      → Fine h g
      → ((g' : Watch) → Fine h g' → Obeys b (SessionEnd h) g' next)
      → Obeys b
          (SessionEnd h)
          g
          (call (sleep write_delay) (λ go. if go then next else ret not_written))
  pause-Obeys h g next f n =
      (tt, λ go _. elim (Bool-cases go) [ inl q ↦ rw q (n _ f) | inr q ↦ rw q (f.0, inr (f.1)) ])

  write_session_rest-Obeys :
      (more : ℕ) (h g : Watch) (fields : Assoc Bytes) (cas : ℕ)
      → Fine h g
      → Obeys b (SessionEnd h) g (write_session_rest more fields cas)
  unfolding write_session_rest ◌>>=◌
  write_session_rest-Obeys zero h g fields cas f =
      attempt_session-Obeys h g fields cas _ _ f (λ g' e f'. ended h g' not_written f')
        (λ g' f'. ended h g' not_written f')
  write_session_rest-Obeys (suc more) h g fields cas f =
      attempt_session-Obeys h g fields cas _ _ f
        (λ g' e f'. elim (Bool-cases (is_client_error e)) [
          | inl q ↦ rw q (ended h g' not_written f')
          | inr q ↦ rw q (
              pause-Obeys h g' _ f' (λ g'' f''. write_session_rest-Obeys more h g'' fields cas f''))
        ])
        (λ g' f'.
          pause-Obeys h g' _ f' (λ g'' f''. write_session_rest-Obeys more h g'' fields cas f''))

  resolve_conflict-Obeys :
      (h g : Watch) (session : Session) (retry : ℕ → Prog Session WriteEnd)
      → Fine h g
      → ((g' : Watch) (cas : ℕ) → Fine h g' → Obeys b (SessionEnd h) g' (retry cas))
      → Obeys b (SessionEnd h) g (resolve_conflict session retry)
  unfolding resolve_conflict ◌>>=◌
  resolve_conflict-Obeys h g session retry f n = (
    tt,
    λ r _. elim (Result-cases r) [
      | inr (e, q) ↦ rw q (f.0, inr (f.1))
      | inl (found, q) ↦ rw q (
        tt,
        λ p _. elim (ProbeState-cases p.state) [
          | inl s ↦ rw s (n _ found.version (f.0, inr refl))
          | inr (inl s) ↦ rw s (f.0, inl refl)
          | inr (inr s) ↦ rw s (f.0, inl refl)
        ],
      )
    ],
  )

  write_session_from-Obeys :
      (more : ℕ) (h g : Watch) (session : Session) (fields : Assoc Bytes) (cas : ℕ)
      → Fine h g
      → Obeys b (SessionEnd h) g (write_session_from more session fields cas)
  unfolding write_session_from ◌>>=◌
  write_session_from-Obeys zero h g session fields cas f =
      attempt_session-Obeys h g fields cas _ _ f
        (λ g' e f'.
          resolve_conflict-Obeys h g' session _ f'
            (λ g'' v f''. write_session_rest-Obeys 0 h g'' fields v f''))
        (λ g' f'. ended h g' not_written f')
  write_session_from-Obeys (suc more) h g session fields cas f =
      attempt_session-Obeys h g fields cas _ _ f
        (λ g' e f'.
          resolve_conflict-Obeys h g' session _ f'
            (λ g'' v f''. write_session_rest-Obeys (suc more) h g'' fields v f''))
        (λ g' f'.
          pause-Obeys h g' _ f'
            (λ g'' f''. write_session_from-Obeys more h g'' session fields cas f''))

  pub write_session-Obeys :
      (g : Watch) (session : Session) (fields : Assoc Bytes) (cas : ℕ)
      → Obeys b (SessionEnd g) g (write_session session fields cas)
  unfolding write_session
  write_session-Obeys g session fields cas =
      write_session_from-Obeys 2 g g session fields cas ((refl, refl, refl), inl refl)
