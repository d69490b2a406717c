-- ===== src/LoginBroker/Protocol/Answers.antt =====
-- What the answer to a request promises, and the answers that carry a session: withSession of
-- internal/loginbroker/broker.go.
use mathlib.Core.Path.{subst}
use glovebox.Prelude.{
  In, [], ◌∷◌, ◌==◌, ◌&&◌, eq_bytes, ℕ, ◌≡◌, ◌≢◌, ◌⊎◌, inl, inr, refl, sym, ◌∙◌, Bool, true, false,
  not, Bytes, codes, Option, none, some, arith, Bool-cases, Option-cases, if◌then◌else◌, is_nil,
}
use glovebox.Journal.Fields.{Assoc, put}
use glovebox.LoginBroker.Program.{alive}
use glovebox.LoginBroker.Policy.{
  Broker, Response, Code, Outcome, refreshed, current, answer, failed, deferred, budget_exhausted,
  latched, inconclusive, carries_session, has_session,
}
use glovebox.LoginBroker.Writes.{WriteEnd, wrote, replaced, not_written, write_session}
use glovebox.LoginBroker.Finish.{HeldSession, Answered, end_write, with_session}
use glovebox.LoginBroker.Protocol.{Watch, Obeys, Obeys-then}
use glovebox.LoginBroker.Protocol.Writing.{From, Committed}
use glovebox.LoginBroker.Protocol.Recording.{Asked, Counted}
use glovebox.LoginBroker.Protocol.Storing.{SessionEnd, write_session-Obeys}

-- A session is only answered as refreshed when a login was submitted and the site accepts the session,
-- and as current when none was.
abbrev pub Honest : Watch → Outcome → Type 0
Honest g o =
    (o ≡ refreshed → (g.submitted ≡ true) × (g.probed ≡ some alive))
    × (o ≡ current → g.submitted ≡ false)

no_session-outcome : (o : Outcome) → o ≢ refreshed → o ≢ current → carries_session o ≡ false
unfolding carries_session
no_session-outcome refreshed h k = absurd (h refl)
no_session-outcome current h k = absurd (k refl)
no_session-outcome deferred h k = refl
no_session-outcome budget_exhausted h k = refl
no_session-outcome latched h k = refl
no_session-outcome inconclusive h k = refl
no_session-outcome failed h k = refl

and_true : (c : Bool) → (c && true) ≡ c
and_true true = refl
and_true false = refl

put_there : (m : Assoc Bytes) (k v : Bytes) → is_nil (put m k v) ≡ false
unfolding put
put_there [] k v = refl
put_there ((j, w) ∷ m) k v = elim (Bool-cases (eq_bytes j k)) [
  | inl q ↦ rw q refl
  | inr q ↦ rw q refl
]

carried :
    (h g : Watch) (o : Outcome) (end : WriteEnd)
    → Honest h o
    → end ≢ replaced
    → SessionEnd h g end
    → Honest g o
carried h g o end k n (s, inl e) = absurd (n e)
carried h g o end k n (s, inr (inl p)) = (λ e. (s.1 ∙ (k.0 e).0, p ∙ (k.0 e).1), λ e. s.1 ∙ k.1 e)
carried h g o end k n (s, inr (inr p)) = (λ e. (s.1 ∙ (k.0 e).0, p), λ e. s.1 ∙ k.1 e)

module _ {Session Location : Type 0} (b : Broker Session Location) where
  -- A login that was submitted is accounted for: the record that the store last took counts one login
  -- more than one that it held since, or it still says that a login is under way.
  abbrev pub Accounted : Watch → Type 0
  Accounted g = (g.submitted ≡ false) ⊎ From b (Counted b) g ⊎ (g.stored.attempt_started_at ≢ 0)

  -- The answer has a session exactly when its outcome is one of the two that carry one.
  abbrev pub Carries : Response → Type 0
  Carries r = has_session r ≡ carries_session r.outcome

  pub no_session-Carries : (r : Response) → r.outcome ≢ refreshed → r.outcome ≢ current → Carries r
  unfolding has_session
  no_session-Carries r h k = rw (no_session-outcome r.outcome h k) refl

  session-Carries : (r : Response) → is_nil r.session ≡ false → Carries r
  unfolding has_session
  session-Carries r h = rw h (and_true (carries_session r.outcome))

  abbrev pub Final : Watch → Answered Session → Type 0
  Final g a = Honest g (a.0).outcome × Carries (a.0) × Accounted g

  pub quiet_answer :
      (g : Watch) (r : Response) (u : Option (HeldSession Session))
      → g.submitted ≡ false
      → r.outcome ≢ refreshed
      → r.outcome ≢ current
      → Final g (r, u)
  quiet_answer g r u unsent h k =
      ((λ e. absurd (h e), λ e. unsent), no_session-Carries r h k, inl unsent)

  failed_answer :
      (g : Watch) (c : Code) (u : Option (HeldSession Session))
      → Accounted g
      → Final g (answer b failed (some c) [], u)
  unfolding answer
  failed_answer g c u k = (
    (λ e. ground (arith, e), λ e. ground (arith, e)),
    no_session-Carries (answer b failed (some c) []) (λ e. ground (arith, e))
        (λ e. ground (arith, e)),
    k,
  )

  pub Accounted-commit :
      (g g' : Watch) → Committed b (Counted b) g g' → g.stored.attempt_started_at ≢ 0 → Accounted g'
  Accounted-commit g g' (k, inl c) m = inr (inl c)
  Accounted-commit g g' (k, inr s) m = inr (inr (subst (λ x. x.attempt_started_at ≢ 0) (sym s) m))

  Accounted-Asked : (g g' : Watch) → Asked g g' → Accounted g → Accounted g'
  Accounted-Asked g g' (t, s, c) (inl u) = inl (s ∙ u)
  Accounted-Asked g g' (t, s, c) (inr (inl (x, i, n))) =
      inr (inl (x, subst (In x) (sym c) i, subst (Counted b x) (sym t) n))
  Accounted-Asked g g' (t, s, c) (inr (inr n)) =
      inr (inr (subst (λ x. x.attempt_started_at ≢ 0) (sym t) n))

  end_write-Obeys :
      (h g : Watch) (session : Session) (logged_in_at : ℕ) (r : Response) (end : WriteEnd)
      → Honest h r.outcome
      → is_nil r.session ≡ false
      → Accounted g
      → SessionEnd h g end
      → Obeys b Final g (end_write b session logged_in_at r end)
  unfolding end_write
  end_write-Obeys h g session logged_in_at r wrote k c a e =
      (carried h g r.outcome wrote k (λ z. ground (arith, z)) e, session-Carries r c, a)
  end_write-Obeys h g session logged_in_at r replaced k c a e =
      failed_answer g Code.superseded none a
  end_write-Obeys h g session logged_in_at r not_written k c a e =
      (carried h g r.outcome not_written k (λ z. ground (arith, z)) e, session-Carries _ c, a)

  -- The fields that are stored and answered.
  fields_there :
      (encoded : Assoc Bytes) (logged_in_at : ℕ)
      → is_nil encoded ≡ false
      → is_nil (
          if logged_in_at == 0
          then encoded
          else put encoded (codes "logged_in_at") (b.format_time logged_in_at))
        ≡ false
  fields_there encoded logged_in_at n = elim (Bool-cases (logged_in_at == 0)) [
    | inl q ↦ rw q n
    | inr q ↦ rw q (put_there encoded (codes "logged_in_at") (b.format_time logged_in_at))
  ]

  pub with_session-Obeys :
      (g : Watch) (unsaved : Option (HeldSession Session)) (o : Outcome) (session : Session)
      (logged_in_at version : ℕ) (needs_write : Bool)
      → Honest g o
      → Accounted g
      → Obeys b Final g (with_session b unsaved o session logged_in_at version needs_write)
  unfolding with_session answer
  with_session-Obeys g unsaved o session logged_in_at version needs_write k a =
      elim (Option-cases (b.encode session logged_in_at)) [
        | inl q ↦ rw (Obeys, q) (failed_answer g Code.internal unsaved a)
        | inr (encoded, q) ↦ elim (Bool-cases (is_nil encoded)) [
          | inl n ↦ rw (Obeys, q, n) (failed_answer g Code.internal unsaved a)
          | inr n ↦ elim (Bool-cases (not needs_write)) [
            | inl w ↦
                rw (Obeys, q, n, w) (k, session-Carries _ (fields_there encoded logged_in_at n), a)
            | inr w ↦
                rw (Obeys, q, n, w)
                  (Obeys-then b _ Final g (write_session session _ version) _
                    (write_session-Obeys b g session _ version)
                    (λ g' end e.
                      end_write-Obeys g g' session logged_in_at _ end k
                        (fields_there encoded logged_in_at n) (Accounted-Asked g g' e.0 a) e))
          ]
        ]
      ]
