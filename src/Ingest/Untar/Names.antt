-- ===== src/Ingest/Untar/Names.antt =====
-- The names that internal/ingest/archives/untar.go accepts.
use glovebox.Prelude.{
  ℕ, ◌≡◌, ◌≢◌, ◌≤◌, refl, sym, ap, ◌∙◌, inl, inr, true, false, ◌||◌, ltb, ◌==◌, List, [], ◌∷◌, ◌++◌,
  All, any, arith, length, Bytes, codes, eq_bytes, eq→eq_bytes, has_prefix, has_prefix-append,
  Bool-cases,
}
use glovebox.Prelude.Join.{join, Lacks}
use glovebox.Prelude.Utf8.{is_utf8}
use glovebox.Ingest.Untar.{
  name_max, split_first, split, contains, valid_untar_name, has_path_traversal,
}

join-split_first :
    (c b : ℕ) (parts : List Bytes) → parts ≢ [] → join c (split_first b parts) ≡ b ∷ join c parts
unfolding join split_first
join-split_first c b [] h = absurd (h refl)
join-split_first c b (p ∷ []) h = refl
join-split_first c b (p ∷ q ∷ parts) h = refl

split_first_cons : (b : ℕ) (parts : List Bytes) → split_first b parts ≢ []
unfolding split_first
split_first_cons b [] h = cc
split_first_cons b (p ∷ parts) h = cc

join_cons : (c : ℕ) (parts : List Bytes) → parts ≢ [] → join c ([] ∷ parts) ≡ c ∷ join c parts
unfolding join
join_cons c [] h = absurd (h refl)
join_cons c (p ∷ parts) h = refl

split_cons : (c : ℕ) (s : Bytes) → split c s ≢ []
unfolding split split_first
split_cons c [] h = cc
split_cons c (b ∷ s) h = elim (Bool-cases (b == c)) [
  | inl e ↦ cc (rw (split, e) at h)
  | inr e ↦ split_first_cons b (split c s) (rw (split, e) at h)
]

split_head : (c b : ℕ) (s : Bytes) → (b == c) ≡ true → {t : Bytes} → t ≡ s → c ∷ t ≡ b ∷ s
split_head c b s e {t} q = let same : b ≡ c = ground (arith, e) in cc

-- A text is the join of its parts, none of which holds the separator.
join-split : (c : ℕ) (s : Bytes) → join c (split c s) ≡ s
unfolding split join
join-split c [] = refl
join-split c (b ∷ s) = elim (Bool-cases (b == c)) [
  | inl e ↦
      rw (split, e) (join_cons c (split c s) (split_cons c s) ∙ split_head c b s e (join-split c s))
  | inr e ↦
      rw (split, e)
        (join-split_first c b (split c s) (split_cons c s) ∙ ap (◌∷◌ b) (join-split c s))
]

Lacks-split_first :
    (c b : ℕ) (parts : List Bytes)
    → b ≢ c
    → All (Lacks c) parts
    → All (Lacks c) (split_first b parts)
unfolding split_first
Lacks-split_first c b [] n h = ((n, tt), tt)
Lacks-split_first c b (p ∷ parts) n h = ((n, h.0), h.1)

split-Lacks : (c : ℕ) (s : Bytes) → All (Lacks c) (split c s)
unfolding split split_first
split-Lacks c [] = (tt, tt)
split-Lacks c (b ∷ s) = elim (Bool-cases (b == c)) [
  | inl e ↦ rw (split, e) (tt, split-Lacks c s)
  | inr e ↦ rw (split, e) (Lacks-split_first c b (split c s) (ground (arith, e)) (split-Lacks c s))
]

contains_start : (s p : Bytes) → has_prefix s p ≡ true → contains s p ≡ true
unfolding contains has_prefix
contains_start [] [] h = refl
contains_start [] (c ∷ p) h = cc
contains_start (b ∷ s) p h = ground (arith, h)

contains_here : (p xs ys : Bytes) → contains (xs ++ (p ++ ys)) p ≡ true
unfolding contains
contains_here p [] ys = contains_start (p ++ ys) p (has_prefix-append p ys)
contains_here p (x ∷ xs) ys = ground (arith, contains_here p xs ys)

-- A text that does not contain another cannot be taken apart around it.
pub contains-append : (s p xs ys : Bytes) → contains s p ≡ false → s ≢ xs ++ (p ++ ys)
contains-append s p xs ys h e = let t : contains s p ≡ true = rw e (contains_here p xs ys) in cc

-- A component of a name: without a slash, of at most 255 bytes, and not "..".
abbrev pub SafeComponent : Bytes → Type 0
SafeComponent comp = Lacks b'/' comp × (length comp ≤ 255) × (comp ≢ codes "..")

-- A relative name: the components between its slashes are safe, no two slashes stand together, it has
-- no backslash, no control character and no drive, is valid UTF-8 and has at most 4096 bytes.
pub record SafeName (name : Bytes) : Type 0 where
  pub components : List Bytes
  pub joined : name ≡ join b'/' components
  pub safe : All SafeComponent components
  pub relative : (rest : Bytes) → name ≢ b'/' ∷ rest
  pub no_backslash : (xs ys : Bytes) → name ≢ xs ++ (codes "\\" ++ ys)
  pub no_empty : (xs ys : Bytes) → name ≢ xs ++ (codes "//" ++ ys)
  pub plain : any (λ c. ltb c 0x20 || c == 0x7f) name ≡ false
  pub decodes : is_utf8 name ≡ true
  pub short : length name ≤ 4096

All-SafeComponent :
    (parts : List Bytes)
    → All (Lacks b'/') parts
    → any (λ comp. ltb name_max (length comp)) parts ≡ false
    → any (λ comp. eq_bytes comp (codes "..")) parts ≡ false
    → All SafeComponent parts
All-SafeComponent [] l m d = tt
All-SafeComponent (p ∷ parts) l m d = (
  (l.0, ground (arith, m), λ e. ground (arith, d, eq→eq_bytes p (codes "..") e)),
  All-SafeComponent parts l.1 (ground (arith, m)) (ground (arith, d)),
)

slash_first : (name rest : Bytes) → has_prefix name (codes "/") ≡ false → name ≡ b'/' ∷ rest → ⊥
slash_first name rest h e =
    let t : has_prefix name (codes "/") ≡ true = rw e (has_prefix-append (codes "/") rest) in cc

-- What the two checks accept is safe.
pub accepted-SafeName :
    (name : Bytes) (typeflag : ℕ)
    → valid_untar_name name ≡ true
    → has_path_traversal name typeflag ≡ false
    → SafeName name
unfolding valid_untar_name has_path_traversal has_prefix
accepted-SafeName name typeflag v t = record {
  components = split b'/' name;
  joined = sym (join-split b'/' name);
  safe =
      All-SafeComponent (split b'/' name) (split-Lacks b'/' name) (ground (arith, v))
        (ground (arith, t));
  relative = λ rest e. slash_first name rest (ground (arith, t)) e;
  no_backslash = λ xs ys. contains-append name (codes "\\") xs ys (ground (arith, t));
  no_empty = λ xs ys. contains-append name (codes "//") xs ys (ground (arith, t));
  plain = ground (arith, v);
  decodes = ground (arith, v);
  short = ground (arith, v);
}
