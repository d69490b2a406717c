-- ===== src/Journal/Scope/Canonical.antt =====
-- The texts that Canonical of internal/journal/record/scope.go writes.
use glovebox.Prelude.{
  ℕ, suc, ◌≡◌, ◌≢◌, refl, sym, ◌∙◌, [], ◌∷◌, ◌++◌, append_assoc, append-nil, map, arith, Bytes, All,
}
use glovebox.Prelude.Join.{Lacks, Lacks-append, Lacks-ne, split_unique, join, join_injective}
use glovebox.Journal.Scope.{
  Scope, ScopePart, escape_byte, escape_scope_value, canonical_from, canonical,
}

-- An escaped text holds none of the characters that structure a canonical scope.
escape_byte-Lacks_slash : (b : ℕ) → Lacks b'/' (escape_byte b)
unfolding escape_byte
escape_byte-Lacks_slash b = ground arith

escape_byte-Lacks_equals : (b : ℕ) → Lacks b'=' (escape_byte b)
unfolding escape_byte
escape_byte-Lacks_equals b = ground arith

escape-Lacks_slash : (s : Bytes) → Lacks b'/' (escape_scope_value s)
unfolding escape_scope_value
escape-Lacks_slash [] = tt
escape-Lacks_slash (b ∷ s) =
    Lacks-append b'/' (escape_byte b) _ (escape_byte-Lacks_slash b) (escape-Lacks_slash s)

escape-Lacks_equals : (s : Bytes) → Lacks b'=' (escape_scope_value s)
unfolding escape_scope_value
escape-Lacks_equals [] = tt
escape-Lacks_equals (b ∷ s) =
    Lacks-append b'=' (escape_byte b) _ (escape_byte-Lacks_equals b) (escape-Lacks_equals s)

-- Two escaped texts that begin alike have the same first byte and the same rest.
escape_byte_step :
    (a b : ℕ) (s t : Bytes) → escape_byte a ++ s ≡ escape_byte b ++ t → (a ≡ b) × (s ≡ t)
unfolding escape_byte
escape_byte_step a b s t e = ground arith

escape_byte_ne_nil : (b : ℕ) (t : Bytes) → [] ≢ escape_byte b ++ t
unfolding escape_byte
escape_byte_ne_nil b t = ground arith

-- Escaping loses nothing.
pub escape_injective : (s t : Bytes) → escape_scope_value s ≡ escape_scope_value t → s ≡ t
unfolding escape_scope_value
escape_injective [] [] e = refl
escape_injective [] (b ∷ t) e = absurd (escape_byte_ne_nil b _ e)
escape_injective (a ∷ s) [] e = absurd (escape_byte_ne_nil a _ (sym e))
escape_injective (a ∷ s) (b ∷ t) e =
    let h = escape_byte_step a b (escape_scope_value s) (escape_scope_value t) e in
    cc (h.0, escape_injective s t h.1)

-- One part, as it is written.
part_text : ScopePart → Bytes
part_text p = escape_scope_value p.0 ++ (b'=' ∷ escape_scope_value p.1)

part_text_injective : (p q : ScopePart) → part_text p ≡ part_text q → p ≡ q
unfolding part_text
part_text_injective p q e =
    let h =
      split_unique b'=' (escape_scope_value p.0) (escape_scope_value q.0) (escape_scope_value p.1)
        (escape_scope_value q.1) (escape-Lacks_equals p.0) (escape-Lacks_equals q.0) e in
    cc (escape_injective p.0 q.0 h.0, escape_injective p.1 q.1 h.1)

part_text-Lacks_slash : (p : ScopePart) → Lacks b'/' (part_text p)
unfolding part_text
part_text-Lacks_slash p =
    Lacks-append b'/' (escape_scope_value p.0) _ (escape-Lacks_slash p.0)
      (omega arith, escape-Lacks_slash p.1)

parts_lack_slash : (s : Scope) → All (Lacks b'/') (map part_text s)
parts_lack_slash [] = tt
parts_lack_slash (p ∷ s) = (part_text-Lacks_slash p, parts_lack_slash s)

part_texts_injective : (s t : Scope) → map part_text s ≡ map part_text t → s ≡ t
part_texts_injective [] [] e = refl
part_texts_injective [] (q ∷ t) e = cc
part_texts_injective (p ∷ s) [] e = cc
part_texts_injective (p ∷ s) (q ∷ t) e =
    cc (part_text_injective p q (cc), part_texts_injective s t (cc))

canonical_from-nil : (i : ℕ) → canonical_from i [] ≡ []
unfolding canonical_from
canonical_from-nil i = refl

-- One round of the loop.
canonical_from_first :
    (p : ScopePart) (s : Scope) → canonical_from 0 (p ∷ s) ≡ part_text p ++ canonical_from 1 s
unfolding canonical_from part_text
canonical_from_first p s = sym (append_assoc (escape_scope_value p.0) _ _)

canonical_from_later :
    (i : ℕ) (p : ScopePart) (s : Scope)
    → canonical_from (suc i) (p ∷ s) ≡ b'/' ∷ (part_text p ++ canonical_from (suc (suc i)) s)
unfolding canonical_from part_text
canonical_from_later i p s = ground (
  arith,
  append_assoc (escape_scope_value p.0) (b'=' ∷ escape_scope_value p.1)
      (canonical_from (suc (suc i)) s),
)

-- The loop writes a slash before every part but the first, so it is a join.
canonical_from-join :
    (i : ℕ) (p : ScopePart) (s : Scope)
    → canonical_from (suc i) (p ∷ s) ≡ b'/' ∷ join b'/' (map part_text (p ∷ s))
unfolding join
canonical_from-join i p [] = rw (canonical_from_later i p [], canonical_from-nil, append-nil)
canonical_from-join i p (q ∷ s) =
    rw (canonical_from_later i p (q ∷ s), canonical_from-join (suc i) q s)

canonical-join : (s : Scope) → canonical s ≡ join b'/' (map part_text s)
unfolding canonical join
canonical-join [] = refl
canonical-join (p ∷ []) = rw (canonical_from_first p [], canonical_from-nil, append-nil)
canonical-join (p ∷ q ∷ s) = rw (canonical_from_first p (q ∷ s), canonical_from-join 0 q s)

canonical-cons_ne_nil : (p : ScopePart) (s : Scope) → [] ≢ canonical (p ∷ s)
unfolding canonical part_text
canonical-cons_ne_nil p s e =
    Lacks-ne b'=' [] (escape_scope_value p.0) (escape_scope_value p.1 ++ canonical_from 1 s) tt (
      e
      ∙ canonical_from_first p s
      ∙ append_assoc (escape_scope_value p.0) (b'=' ∷ escape_scope_value p.1) (canonical_from 1 s))

-- Two scopes with the same canonical form are the same scope: the stored key never merges two
-- scopes, whatever their names and values hold.
pub canonical_injective : (s t : Scope) → canonical s ≡ canonical t → s ≡ t
unfolding canonical
canonical_injective [] [] e = refl
canonical_injective [] (q ∷ t) e = absurd (canonical-cons_ne_nil q t e)
canonical_injective (p ∷ s) [] e = absurd (canonical-cons_ne_nil p s (sym e))
canonical_injective (p ∷ s) (q ∷ t) e = part_texts_injective (p ∷ s) (q ∷ t) (
    join_injective b'/' _ _ (parts_lack_slash (p ∷ s)) (parts_lack_slash (q ∷ t)) (λ h. cc)
      (λ h. cc) (sym (canonical-join (p ∷ s)) ∙ e ∙ canonical-join (q ∷ t)))
