-- ===== src/Journal/Fields/Laws.antt =====
-- Laws of the field maps, in the form of a test on the key, and of sorting.
use glovebox.Prelude.{
  ◌≡◌, ◌↔◌, ◌⊎◌, refl, sym, ◌∙◌, inl, inr, Bool, true, List, [], ◌∷◌, arith, In, Bytes, eq_bytes,
  eq_bytes_iff, eq_bytes_refl, eq_bytes→eq, eq→eq_bytes, none, some, lt_bytes, if◌then◌else◌,
  Bool-cases,
}
use mathlib.Core.Path.{subst}
use glovebox.Journal.Names.{RawMessage}
use glovebox.Journal.Fields.{
  Assoc, Fields, find, put, delete, insert_by, sort_by, map_keys, raw_equal, or_empty, keys,
  sort_strings,
}

module _ {V : Type 0} where
  pub find-put :
      (m : Assoc V) (k j : Bytes) (v : V)
      → find (put m k v) j ≡ (if eq_bytes k j then some v else find m j)
  unfolding find put
  find-put [] k j v = refl
  find-put ((i, w) ∷ m) k j v =
      ground (arith, eq_bytes_iff i k, eq_bytes_iff i j, eq_bytes_iff k j, find-put m k j v)

  pub find-delete :
      (m : Assoc V) (k j : Bytes) → find (delete m k) j ≡ (if eq_bytes k j then none else find m j)
  unfolding find delete
  find-delete [] k j = ground arith
  find-delete ((i, w) ∷ m) k j =
      ground (arith, eq_bytes_iff i k, eq_bytes_iff i j, eq_bytes_iff k j, find-delete m k j)

  -- A key that is found is one of the keys.
  pub find-In : (m : Assoc V) (k : Bytes) (v : V) → find m k ≡ some v → In k (map_keys m)
  unfolding find
  find-In [] k v h = cc
  find-In ((j, w) ∷ m) k v h = elim (Bool-cases (eq_bytes j k)) [
    | inl e ↦ inl (sym (eq_bytes→eq j k e))
    | inr e ↦ inr (find-In m k v (ground arith))
  ]

  pub In-find : (m : Assoc V) (k : Bytes) → In k (map_keys m) → (v : V) × (find m k ≡ some v)
  unfolding find
  In-find [] k h = absurd h
  In-find ((j, w) ∷ m) k h = elim (Bool-cases (eq_bytes j k)) [
    | inl e ↦ (w, ground arith)
    | inr e ↦ elim h [
      | inl q ↦ absurd (ground (arith, eq→eq_bytes j k (sym q)))
      | inr r ↦ let t = In-find m k r in (t.0, ground (arith, t.1))
    ]
  ]

module _ (less : Bytes → Bytes → Bool) where
  In-insert_by : (x y : Bytes) (ys : List Bytes) → In y (insert_by less x ys) ↔ ((y ≡ x) ⊎ In y ys)
  unfolding insert_by
  In-insert_by x y [] = (λ h. h, λ h. h)
  In-insert_by x y (z ∷ ys) = elim (Bool-cases (less z x)) [
    | inl e ↦
        let ih = In-insert_by x y ys in
        rw (e, insert_by)
          (
            λ h. elim h [
              | inl q ↦ inr (inl q)
              | inr m ↦ elim (ih.0 m) [ inl a ↦ inl a | inr b ↦ inr (inr b) ]
            ],
            λ h. elim h [
              | inl a ↦ inr (ih.1 (inl a))
              | inr (inl q) ↦ inl q
              | inr (inr b) ↦ inr (ih.1 (inr b))
            ],
          )
    | inr e ↦ rw (e, insert_by) (λ h. h, λ h. h)
  ]

  -- Sorting keeps the elements.
  pub In-sort_by : (y : Bytes) (xs : List Bytes) → In y (sort_by less xs) ↔ In y xs
  unfolding sort_by
  In-sort_by y [] = (λ h. h, λ h. h)
  In-sort_by y (x ∷ xs) =
      let ih = In-sort_by y xs in
      let step = In-insert_by x y (sort_by less xs) in
      (
        λ h. elim (step.0 h) [ inl q ↦ inl q | inr m ↦ inr (ih.0 m) ],
        λ h. elim h [ inl q ↦ step.1 (inl q) | inr m ↦ step.1 (inr (ih.1 m)) ],
      )

pub In-keys : (y : Bytes) (f : Fields) → In y (keys f) ↔ In y (map_keys f)
unfolding keys sort_strings
In-keys y f = In-sort_by lt_bytes y (map_keys f)

-- A Go map holds a key once.
abbrev pub IsMap : {V : Type 0} → Assoc V → Type 0
IsMap [] = Unit
IsMap ((k, v) ∷ m) = (find m k ≡ none) × IsMap m

module _ {V : Type 0} where
  pub put-IsMap : (m : Assoc V) (k : Bytes) (v : V) → IsMap m → IsMap (put m k v)
  unfolding put find
  put-IsMap [] k v h = (refl, tt)
  put-IsMap ((j, w) ∷ m) k v h = elim (Bool-cases (eq_bytes j k)) [
    | inl e ↦ rw (e, put) (subst (λ x. find m x ≡ none) (eq_bytes→eq j k e) h.0, h.1)
    | inr e ↦
        rw (e, put)
          (
            ground (arith, h.0, e, eq_bytes_iff j k, eq_bytes_iff k j, find-put m k j v),
            put-IsMap m k v h.1,
          )
  ]

  pub delete-IsMap : (m : Assoc V) (k : Bytes) → IsMap m → IsMap (delete m k)
  unfolding delete find
  delete-IsMap [] k h = tt
  delete-IsMap ((j, w) ∷ m) k h = elim (Bool-cases (eq_bytes j k)) [
    | inl e ↦ rw (e, delete) (delete-IsMap m k h.1)
    | inr e ↦ rw (e, delete) (ground (arith, h.0, find-delete m k j), delete-IsMap m k h.1)
  ]

pub raw_equal_refl : (a : RawMessage) → raw_equal a a ≡ true
unfolding raw_equal
raw_equal_refl none = eq_bytes_refl []
raw_equal_refl (some v) = eq_bytes_refl v

-- Equal values read as one byte string.
pub raw_equal_same : (a b : RawMessage) → raw_equal a b ≡ true → or_empty a ≡ or_empty b
unfolding raw_equal
raw_equal_same a b h = eq_bytes→eq _ _ h

-- Values equal to one value are equal.
pub raw_equal_euclid :
    (a b c : RawMessage) → raw_equal a b ≡ true → raw_equal a c ≡ true → raw_equal b c ≡ true
unfolding raw_equal
raw_equal_euclid a b c h k = eq→eq_bytes _ _ (sym (eq_bytes→eq _ _ h) ∙ eq_bytes→eq _ _ k)

pub raw_equal_sym : (a b : RawMessage) → raw_equal a b ≡ true → raw_equal b a ≡ true
raw_equal_sym a b h = raw_equal_euclid a b a h (raw_equal_refl a)
