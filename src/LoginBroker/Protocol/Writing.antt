-- ===== src/LoginBroker/Protocol/Writing.antt =====
-- The writes of the record, under the watch of the login protocol: writeState and commit of
-- internal/loginbroker/broker.go.
use glovebox.Prelude.{
  ℕ, zero, suc, In, ◌≡◌, ◌⊎◌, inl, inr, refl, sym, ◌∙◌, Bool, true, false, ◌||◌, Option, none, some,
  Bool-cases, Option-cases,
}
use glovebox.Prelude.Result.{Result, ok, err, Result-cases}
use mathlib.Core.Path.{subst}
use glovebox.LoginVault.{State, same_record}
use glovebox.LoginVault.Stored.{SameStored, same_record-SameStored}
use glovebox.LoginBroker.Program.{
  Answer, Prog, ◌>>=◌, read_state, StoreError, is_cas_mismatch, is_client_error,
}
use glovebox.LoginBroker.Policy.{Broker}
use glovebox.LoginBroker.Writes.{
  recognise, attempt_write, write_state_from, write_state_once, commit, commit_first, commit_reread,
  commit_second,
}
use glovebox.LoginBroker.Protocol.{Watch, after, Obeys, Obeys-then}

-- What no write of the record touches; a noticed conflict stays noticed, and what was seen, seen.
abbrev pub Kept : Watch → Watch → Type 0
Kept g g' =
    (g'.probed ≡ g.probed)
    × (g'.attempts ≡ g.attempts)
    × (g'.submitted ≡ g.submitted)
    × (g.conflict ≡ true → g'.conflict ≡ true)
    × ((x : State) → In x g.seen → In x g'.seen)

pub Kept-refl : (g : Watch) → Kept g g
Kept-refl g = (refl, refl, refl, λ c. c, λ x m. m)

pub Kept-trans : (f g h : Watch) → Kept f g → Kept g h → Kept f h
Kept-trans f g h k l = (l.0 ∙ k.0, l.1 ∙ k.1, l.2 ∙ k.2, λ c. l.3 (k.3 c), λ x m. l.4 x (k.4 x m))

-- The last write was taken at once; or the record was read back, every stored field as it was offered.
abbrev pub Known : Watch → State → Type 0
Known g s = (g.read_back ≡ none) ⊎ ((x : State) × (g.read_back ≡ some x) × SameStored x s)

-- How a write of `s` ends: the store holds the record, or keeps what it held; and a check-and-set
-- mismatch was noticed.
pub data Wrote (g : Watch) (s : State) (g' : Watch) : Result StoreError State → Type 0 where
  took :
      (v : ℕ)
      → g'.offered ≡ s
      → g'.taken ≡ true
      → g'.stored ≡ s
      → Known g' s
      → In s g'.seen
      → Wrote g s g' (ok (record s { version = v }))
  refused :
      (e : StoreError)
      → g'.offered ≡ s
      → g'.stored ≡ g.stored
      → ((is_cas_mismatch e ≡ false) ⊎ (g'.conflict ≡ true))
      → Wrote g s g' (err e)

abbrev pub AfterWrite : Watch → State → Watch → Result StoreError State → Type 0
AfterWrite g s g' r = Kept g g' × Wrote g s g' r

or_left : (a c : Bool) → a ≡ true → (a || c) ≡ true
or_left a c h = rw h refl

or_true : (a : Bool) → (a || true) ≡ true
or_true true = refl
or_true false = refl

-- A refused write adds to what was noticed.
refusal : (h g : Watch) (c : Bool) → Kept h g → Kept h (record g { conflict = g.conflict || c })
refusal h g c k = (k.0, k.1, k.2, λ n. or_left g.conflict c (k.3 n), k.4)

module _ {Session Location : Type 0} (b : Broker Session Location) where
  recognise-Obeys :
      (h g : Watch) (e : StoreError)
      → Kept h g
      → g.stored ≡ h.stored
      → g.conflict ≡ true
      → Obeys b (AfterWrite h g.offered) g (recognise g.offered e)
  unfolding recognise ◌>>=◌
  recognise-Obeys h g e k t c = (
    tt,
    λ r _. elim (Result-cases r) [
      | inr (e', q) ↦ rw q (k, refused e refl t (inr c))
      | inl (found, q) ↦ elim (Option-cases found) [
        | inl n ↦ rw (q, n) (k, refused e refl t (inr c))
        | inr (held, n) ↦ elim (Bool-cases (same_record held g.offered)) [
          | inl same ↦
              let known = inr (held, refl, same_record-SameStored held g.offered same) in
              rw (q, n, same)
                (
                  (k.0, k.1, k.2, k.3, λ x m. inr (inr (k.4 x m))),
                  took held.version refl refl refl known (inl refl),
                )
          | inr same ↦
              rw (q, n, same) ((k.0, k.1, k.2, k.3, λ x m. inr (k.4 x m)), refused e refl t (inr c))
        ]
      ]
    ],
  )

  -- An attempt after writes that changed nothing; `again` is only run with the store unchanged.
  attempt_write-Obeys :
      (h g : Watch) (uncertain : Bool) (s : State)
      (again : StoreError → Prog Session (Result StoreError State))
      → Kept h g
      → g.stored ≡ h.stored
      → ((g' : Watch) (e : StoreError)
          → Kept h g'
          → g'.offered ≡ s
          → g'.stored ≡ h.stored
          → is_cas_mismatch e ≡ false
          → Obeys b (AfterWrite h s) g' (again e))
      → Obeys b (AfterWrite h s) g (attempt_write uncertain s again)
  unfolding attempt_write ◌>>=◌
  attempt_write-Obeys h g uncertain s again k t next = (
    tt,
    λ r _. elim (Result-cases r) [
      | inl (v, q) ↦
          rw q (
            (k.0, k.1, k.2, k.3, λ x m. inr (k.4 x m)),
            took v refl refl refl (inl refl) (inl refl),
          )
      | inr (e, q) ↦ elim (Bool-cases (is_cas_mismatch e)) [
        | inl cas ↦ elim (Bool-cases uncertain) [
          | inl u ↦
              rw (q, cas, u) (recognise-Obeys h _ e (refusal h g true k) t (or_true g.conflict))
          | inr u ↦ rw (q, cas, u) (refusal h g true k, refused e refl t (inr (or_true g.conflict)))
        ]
        | inr cas ↦ elim (Bool-cases (is_client_error e)) [
          | inl c ↦ rw (q, cas, c) (refusal h g false k, refused e refl t (inl cas))
          | inr c ↦ rw (q, cas, c) (next _ e (refusal h g false k) refl t cas)
        ]
      ]
    ],
  )

  write_state_from-Obeys :
      (more : ℕ) (h g : Watch) (uncertain : Bool) (s : State)
      → Kept h g
      → g.stored ≡ h.stored
      → Obeys b (AfterWrite h s) g (write_state_from more uncertain s)
  unfolding write_state_from ◌>>=◌
  write_state_from-Obeys zero h g uncertain s k t =
      attempt_write-Obeys h g uncertain s _ k t (λ g' e k' o t' c. (k', refused e o t' (inl c)))
  write_state_from-Obeys (suc more) h g uncertain s k t =
      attempt_write-Obeys h g uncertain s _ k t (λ g' e k' o t' c. (
        tt,
        λ go _. elim (Bool-cases go) [
          | inl q ↦ rw q (write_state_from-Obeys more h _ true s k' t')
          | inr q ↦ rw q (k', refused e o t' (inl c))
        ],
      ))

  pub write_state_once-Obeys :
      (g : Watch) (s : State) → Obeys b (AfterWrite g s) g (write_state_once s)
  unfolding write_state_once
  write_state_once-Obeys g s = write_state_from-Obeys 2 g g false s (Kept-refl g) refl

  -- A change of the record in memory: it may read the clock, and what it makes of a record is related
  -- to it by `Q`.
  abbrev pub Changes : (State → State → Type 0) → (State → Prog Session State) → Type 0
  Changes Q mutate =
      (g : Watch) (s : State)
      → Obeys b (λ g' s'. Kept g g' × (g'.stored ≡ g.stored) × Q s s') g (mutate s)

  -- The record that the store last took was made from one that it held since the last login.
  abbrev pub From : (State → State → Type 0) → Watch → Type 0
  From Q g = (x : State) × In x g.seen × Q x g.stored

  -- How commit ends: the store took a record that was made from one that it held, or nothing.
  abbrev pub Committed : (State → State → Type 0) → Watch → Watch → Type 0
  Committed Q g g' = Kept g g' × (From Q g' ⊎ (g'.stored ≡ g.stored))

  Committed-later :
      (Q : State → State → Type 0) (h g g' : Watch)
      → Committed Q h g
      → Kept g g'
      → g'.stored ≡ g.stored
      → Committed Q h g'
  Committed-later Q h g g' (k, inl (x, m, q)) l s =
      (Kept-trans h g g' k l, inl (x, l.4 x m, subst (Q x) (sym s) q))
  Committed-later Q h g g' (k, inr t) l s = (Kept-trans h g g' k l, inr (s ∙ t))

  Committed-taken :
      (Q : State → State → Type 0) (h g g' : Watch) (x s : State)
      → Kept h g
      → Kept g g'
      → In x g.seen
      → Q x s
      → g'.stored ≡ s
      → Committed Q h g'
  Committed-taken Q h g g' x s k l m q e =
      (Kept-trans h g g' k l, inl (x, l.4 x m, subst (Q x) (sym e) q))

  pub read_state-Kept :
      (g : Watch) (r : Answer {Session = Session} read_state)
      → Kept g (after {Session = Session} g read_state r)
  read_state-Kept g (err e) = Kept-refl g
  read_state-Kept g (ok none) = Kept-refl g
  read_state-Kept g (ok (some s)) = elim (Bool-cases (same_record s g.offered)) [
    | inl q ↦ rw q (refl, refl, refl, λ c. c, λ x m. inr (inr m))
    | inr q ↦ rw q (refl, refl, refl, λ c. c, λ x m. inr m)
  ]

  -- A record that was read was seen.
  abbrev Seen : Watch → Result StoreError (Option State) → Type 0
  Seen g (err e) = Unit
  Seen g (ok none) = Unit
  Seen g (ok (some s)) = In s g.seen

  read_state-Seen :
      (g : Watch) (r : Answer {Session = Session} read_state)
      → Seen (after {Session = Session} g read_state r) r
  read_state-Seen g (err e) = tt
  read_state-Seen g (ok none) = tt
  read_state-Seen g (ok (some s)) = elim (Bool-cases (same_record s g.offered)) [
    | inl q ↦ rw q (inr (inl refl))
    | inr q ↦ rw q (inl refl)
  ]

  read_state-stored :
      (g : Watch) (r : Answer {Session = Session} read_state)
      → ((after {Session = Session} g read_state r).stored ≡ g.stored)
        ⊎ ((after {Session = Session} g read_state r).stored ≡ g.offered)
  read_state-stored g (err e) = inl refl
  read_state-stored g (ok none) = inl refl
  read_state-stored g (ok (some s)) = elim (Bool-cases (same_record s g.offered)) [
    | inl q ↦ rw q (inr refl)
    | inr q ↦ rw q (inl refl)
  ]

  commit_second-Obeys :
      (Q : State → State → Type 0) (h g g' : Watch) (x changed again : State)
      (r : Result StoreError State)
      → In x g.seen
      → Q x again
      → Committed Q h g
      → AfterWrite g again g' r
      → Obeys b (λ g'' a. Committed Q h g'') g' (commit_second changed r)
  unfolding commit_second
  commit_second-Obeys Q h g g' x changed again _ m q k (l, took v o t s n i) =
      Committed-taken Q h g g' x again k.0 l m q s
  commit_second-Obeys Q h g g' x changed again _ m q k (l, refused e o s d) =
      Committed-later Q h g g' k l s

  commit_reread-Obeys :
      (Q : State → State → Type 0) (mutate : State → Prog Session State) (h g : Watch)
      (changed : State) (e : StoreError) (r : Result StoreError (Option State))
      → Changes Q mutate
      → Committed Q h g
      → Seen g r
      → Obeys b (λ g'' a. Committed Q h g'') g (commit_reread mutate changed e r)
  unfolding commit_reread
  commit_reread-Obeys Q mutate h g changed e (err e') m k i = k
  commit_reread-Obeys Q mutate h g changed e (ok none) m k i = k
  commit_reread-Obeys Q mutate h g changed e (ok (some fresh)) m k i =
      Obeys-then b _ _ g (mutate fresh) _ (m g fresh) (λ g1 again p.
        Obeys-then b _ _ g1 (write_state_once again) _ (write_state_once-Obeys g1 again) (λ g2 w h2.
          commit_second-Obeys Q h g1 g2 fresh changed again w ((p.0).4 fresh i) p.2
            (Committed-later Q h g g1 k p.0 p.1) h2))

  commit_first-Obeys :
      (Q : State → State → Type 0) (mutate : State → Prog Session State) (h g g' : Watch)
      (x changed : State) (r : Result StoreError State)
      → Changes Q mutate
      → In x g.seen
      → Q x changed
      → Kept h g
      → g.stored ≡ h.stored
      → AfterWrite g changed g' r
      → Obeys b (λ g'' a. Committed Q h g'') g' (commit_first mutate changed r)
  unfolding commit_first ◌>>=◌
  commit_first-Obeys Q mutate h g g' x changed _ m i q k t (l, took v o a s n j) =
      Committed-taken Q h g g' x changed k l i q s
  commit_first-Obeys Q mutate h g g' x changed _ m i q k t (l, refused e o s d) =
      elim (Bool-cases (is_cas_mismatch e)) [
        | inr n ↦ rw n (Kept-trans h g g' k l, inr (s ∙ t))
        | inl n ↦ rw n (
          tt,
          λ r _.
              let g'' = after {Session = Session} g' read_state r in
              let same = read_state-Kept g' r in
              let settled : Committed Q h g'' = elim (read_state-stored g' r) [
                | inl u ↦ Committed-later Q h g' g'' (Kept-trans h g g' k l, inr (s ∙ t)) same u
                | inr u ↦
                    Committed-taken Q h g' g'' x changed (Kept-trans h g g' k l) same (l.4 x i) q
                      (u ∙ o)
              ] in
              commit_reread-Obeys Q mutate h g'' changed e r m settled (read_state-Seen g' r),
        )
      ]

  -- A record in memory that was made from `x`, which the store held.
  pub commit-Obeys :
      (Q : State → State → Type 0) (mutate : State → Prog Session State) (g : Watch) (x s : State)
      → In x g.seen
      → ((s' : State) → Q s s' → Q x s')
      → Changes Q mutate
      → Obeys b (λ g' r. Committed Q g g') g (commit s mutate)
  unfolding commit
  commit-Obeys Q mutate g x s i same m = Obeys-then b _ _ g (mutate s) _ (m g s) (λ g1 changed p.
      Obeys-then b _ _ g1 (write_state_once changed) _ (write_state_once-Obeys g1 changed)
        (λ g2 r h2.
          commit_first-Obeys Q mutate g g1 g2 x changed r m ((p.0).4 x i) (same changed p.2) p.0 p.1
            h2))
