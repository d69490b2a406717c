-- ===== src/Prelude/Join.antt =====
-- Separated text: strings.Join with a one-byte separator, and when it can be taken apart again.
use Prim.Native.Nat.{ℕ}
use mathlib.Core.Path.{◌≡◌, refl, sym}
use mathlib.Core.Logic.{◌≢◌}
use mathlib.Core.List.{List, [], ◌∷◌, ◌++◌}
use glovebox.Prelude.Lists.{All}
use glovebox.Prelude.Text.{Bytes}

-- strings.Join(parts, sep)
unfoldable pub join : ℕ → List Bytes → Bytes
join c [] = []
join c (x ∷ []) = x
join c (x ∷ y ∷ r) = x ++ (c ∷ join c (y ∷ r))

-- The text does not hold the byte.
abbrev pub Lacks : ℕ → Bytes → Type 0
Lacks c = All (λ b. b ≢ c)

pub Lacks-append : (c : ℕ) (xs ys : Bytes) → Lacks c xs → Lacks c ys → Lacks c (xs ++ ys)
Lacks-append c [] ys h k = k
Lacks-append c (x ∷ xs) ys h k = (h.0, Lacks-append c xs ys h.1 k)

not-Lacks : (c : ℕ) (xs ys : Bytes) → Lacks c (xs ++ (c ∷ ys)) → ⊥
not-Lacks c [] ys h = h.0 refl
not-Lacks c (x ∷ xs) ys h = not-Lacks c xs ys h.1

-- Text without the separator is not text with it.
pub Lacks-ne : (c : ℕ) (xs ys zs : Bytes) → Lacks c xs → xs ≡ ys ++ (c ∷ zs) → ⊥
Lacks-ne c xs ys zs h e = not-Lacks c ys zs (rw e at h)

-- The first separator splits a text in one way only.
pub split_unique :
    (c : ℕ) (xs ys r s : Bytes)
    → Lacks c xs
    → Lacks c ys
    → xs ++ (c ∷ r) ≡ ys ++ (c ∷ s)
    → (xs ≡ ys) × (r ≡ s)
split_unique c [] [] r s h k e = (refl, cc)
split_unique c [] (y ∷ ys) r s h k e = absurd (k.0 (cc))
split_unique c (x ∷ xs) [] r s h k e = absurd (h.0 (cc))
split_unique c (x ∷ xs) (y ∷ ys) r s h k e =
    let t : (xs ≡ ys) × (r ≡ s) = split_unique c xs ys r s h.1 k.1 (cc) in (cc (t.0), t.1)

-- Parts that do not hold the separator can be read back from the joined text.
pub join_injective :
    (c : ℕ) (xs ys : List Bytes)
    → All (Lacks c) xs
    → All (Lacks c) ys
    → xs ≢ []
    → ys ≢ []
    → join c xs ≡ join c ys
    → xs ≡ ys
unfolding join
join_injective c [] ys h k n m e = absurd (n refl)
join_injective c (x ∷ xs) [] h k n m e = absurd (m refl)
join_injective c (x ∷ []) (y ∷ []) h k n m e = cc
join_injective c (x ∷ []) (y ∷ z ∷ ys) h k n m e = absurd (Lacks-ne c x y (join c (z ∷ ys)) h.0 e)
join_injective c (x ∷ w ∷ xs) (y ∷ []) h k n m e =
    absurd (Lacks-ne c y x (join c (w ∷ xs)) k.0 (sym e))
join_injective c (x ∷ w ∷ xs) (y ∷ z ∷ ys) h k n m e =
    let t : (x ≡ y) × (join c (w ∷ xs) ≡ join c (z ∷ ys)) = split_unique c x y _ _ h.0 k.0 e in
    cc (t.0, join_injective c (w ∷ xs) (z ∷ ys) h.1 k.1 (λ q. cc) (λ q. cc) t.1)
