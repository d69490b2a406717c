-- ===== src/Prelude/Members.antt =====
-- Membership by recursion, and the Boolean tests that decide it.
use mathlib.Core.Path.{◌≡◌, refl, sym, ap, subst}
use mathlib.Core.Logic.{◌⊎◌, inl, inr, ◌↔◌}
use mathlib.Core.Bool.{Bool, true}
use mathlib.Core.List.{List, [], ◌∷◌, ◌++◌}
use native.Mathlib.Omega.{arith}
use glovebox.Prelude.Tests.{Bool-cases}
use glovebox.Prelude.Lists.{any, In, All}
use glovebox.Prelude.Text.{Bytes, eq_bytes, eq_bytes→eq, eq→eq_bytes}

module _ {A : Type 0} where
  pub any_sound : (p : A → Bool) (xs : List A) → any p xs ≡ true → (x : A) × In x xs × (p x ≡ true)
  any_sound p [] h = absurd (ground arith)
  any_sound p (x ∷ xs) h = elim (Bool-cases (p x)) [
    | inl e ↦ (x, inl refl, e)
    | inr e ↦
        let t : (y : A) × In y xs × (p y ≡ true) = any_sound p xs (ground arith) in
        (t.0, inr t.1, t.2)
  ]

  pub any_complete : (p : A → Bool) (xs : List A) (x : A) → In x xs → p x ≡ true → any p xs ≡ true
  any_complete p [] x h e = elim h [ ]
  any_complete p (y ∷ xs) x (inl q) e = ground (arith, ap p q)
  any_complete p (y ∷ xs) x (inr m) e = ground (arith, any_complete p xs x m e)

  pub In-append : (x : A) (xs ys : List A) → In x (xs ++ ys) → In x xs ⊎ In x ys
  In-append x [] ys h = inr h
  In-append x (y ∷ xs) ys (inl e) = inl (inl e)
  In-append x (y ∷ xs) ys (inr m) = elim (In-append x xs ys m) [
    | inl l ↦ inl (inr l)
    | inr r ↦ inr r
  ]

  pub In-append_left : (x : A) (xs ys : List A) → In x xs → In x (xs ++ ys)
  In-append_left x [] ys h = elim h [ ]
  In-append_left x (y ∷ xs) ys (inl e) = inl e
  In-append_left x (y ∷ xs) ys (inr m) = inr (In-append_left x xs ys m)

  pub In-append_right : (x : A) (xs ys : List A) → In x ys → In x (xs ++ ys)
  In-append_right x [] ys h = h
  In-append_right x (y ∷ xs) ys h = inr (In-append_right x xs ys h)

  pub All-In : (P : A → Type 0) (xs : List A) (x : A) → All P xs → In x xs → P x
  All-In P [] x h m = elim m [ ]
  All-In P (y ∷ xs) x h (inl e) = subst P (sym e) h.0
  All-In P (y ∷ xs) x h (inr m) = All-In P xs x h.1 m

-- slices.Contains(ts, n)
pub any_eq_iff : (n : Bytes) (ts : List Bytes) → (any (eq_bytes n) ts ≡ true) ↔ In n ts
any_eq_iff n [] = (λ h. cc, λ h. elim h [ ])
any_eq_iff n (t ∷ ts) = (
  λ h. elim (Bool-cases (eq_bytes n t)) [
    | inl e ↦ inl (eq_bytes→eq n t e)
    | inr e ↦ inr ((any_eq_iff n ts).0 (ground arith))
  ],
  λ h. elim h [
    | inl e ↦ ground (arith, eq→eq_bytes n t e)
    | inr m ↦ ground (arith, (any_eq_iff n ts).1 m)
  ],
)
