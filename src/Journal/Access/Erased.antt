-- ===== src/Journal/Access/Erased.antt =====
-- Kept notes of an erased subject, in internal/journal/access/access.go: who still sees them.
use glovebox.Prelude.{
  ◌≡◌, ◌≢◌, ◌↔◌, refl, sym, ◌∙◌, ◌⊎◌, inl, inr, Bool, true, false, List, [], ◌∷◌, arith, In, All,
  All-In, any_sound, any_complete, ap, Bytes, eq_bytes, eq_bytes→eq, eq→eq_bytes, Bool-cases,
  has_prefix,
}
use glovebox.Prelude.Join.{Lacks, join_injective}
use glovebox.Journal.Names.{valid_token, valid_token-Lacks}
use glovebox.Journal.Names.{RawMessage}
use glovebox.Journal.Access.{
  Grant, is_erased, opens_kept, visible, old_value, reader_token, erased_author, erased_prefix,
}

-- The reader holds the author's grant for the kept note, or the one of the readers frozen with the
-- audience.
abbrev pub HoldsKept : List Grant → Bytes → List Bytes → Type 0
HoldsKept gs s aud =
    (g : Grant) × In g gs
    × (g.subject ≡ s)
    × ((g.token ≡ erased_author) ⊎ (g.token ≡ reader_token aud))

opens_kept_sound :
    (s : Bytes) (aud : List Bytes) (g : Grant)
    → opens_kept s aud g ≡ true
    → (g.subject ≡ s) × ((g.token ≡ erased_author) ⊎ (g.token ≡ reader_token aud))
unfolding opens_kept
opens_kept_sound s aud g h = (
  eq_bytes→eq g.subject s (ground arith),
  elim (Bool-cases (eq_bytes g.token erased_author)) [
    | inl e ↦ inl (eq_bytes→eq g.token erased_author e)
    | inr e ↦ inr (eq_bytes→eq g.token (reader_token aud) (ground arith))
  ],
)

opens_kept_complete :
    (s : Bytes) (aud : List Bytes) (g : Grant)
    → g.subject ≡ s
    → (g.token ≡ erased_author) ⊎ (g.token ≡ reader_token aud)
    → opens_kept s aud g ≡ true
unfolding opens_kept
opens_kept_complete s aud g e (inl a) =
    ground (arith, eq→eq_bytes g.subject s e, eq→eq_bytes g.token erased_author a)
opens_kept_complete s aud g e (inr r) =
    ground (arith, eq→eq_bytes g.subject s e, eq→eq_bytes g.token (reader_token aud) r)

-- A kept note is shown exactly to a holder of the author's grant for it or of the grant of the
-- readers frozen from the row's audience; "public" and roster grants do not count.
kept_visible_iff :
    (gs : List Grant) (s : Bytes) (aud : List Bytes)
    → is_erased s ≡ true
    → (visible gs s aud ≡ true) ↔ HoldsKept gs s aud
unfolding visible
kept_visible_iff gs s aud h = (
  λ v.
      let t = any_sound (opens_kept s aud) gs (ground arith) in
      let k = opens_kept_sound s aud t.0 t.2 in (t.0, t.1, k.0, k.1),
  λ t.
      ground
        (arith, any_complete (opens_kept s aud) gs t.0 t.1 (opens_kept_complete s aud t.0 t.2 t.3)),
)

-- An audience as it is stored: non-empty, of well-formed tokens.
abbrev pub IsAudience : List Bytes → Type 0
IsAudience aud = (aud ≢ []) × All (λ t. valid_token t ≡ true) aud

tokens_lack_comma : (ts : List Bytes) → All (λ t. valid_token t ≡ true) ts → All (Lacks b',') ts
tokens_lack_comma [] h = tt
tokens_lack_comma (t ∷ ts) h = (valid_token-Lacks t h.0, tokens_lack_comma ts h.1)

-- Two stored audiences with one frozen-reader token are one audience.
reader_token_injective :
    (a b : List Bytes) → IsAudience a → IsAudience b → reader_token a ≡ reader_token b → a ≡ b
unfolding reader_token
reader_token_injective a b h k e =
    join_injective b',' a b (tokens_lack_comma a h.1) (tokens_lack_comma b k.1) h.0 k.0 (cc)

-- A roster grant's token never begins like a frozen-reader grant's.
abbrev pub OfRoster : Grant → Type 0
OfRoster g = has_prefix g.token erased_prefix ≡ false

abbrev pub frozen_grant : Bytes → List Bytes → Grant
frozen_grant s frozen = record { subject = s; token = reader_token frozen }

reader_ne_author : (aud : List Bytes) → reader_token aud ≢ erased_author
unfolding reader_token
reader_ne_author aud e = ground arith

kept_token_prefix :
    (token : Bytes) (aud : List Bytes)
    → (token ≡ erased_author) ⊎ (token ≡ reader_token aud)
    → has_prefix token erased_prefix ≡ true
unfolding reader_token has_prefix
kept_token_prefix token aud (inl e) = rw e
kept_token_prefix token aud (inr e) = rw e

-- A reader frozen from one audience sees a row of the kept note exactly when the row's audience is
-- that audience, whatever else the roster grants.
pub frozen_reader_exact :
    (s : Bytes) (frozen aud : List Bytes) (roster : List Grant)
    → is_erased s ≡ true
    → IsAudience frozen
    → IsAudience aud
    → All OfRoster roster
    → (visible (frozen_grant s frozen ∷ roster) s aud ≡ true) ↔ (aud ≡ frozen)
frozen_reader_exact s frozen aud roster h f a r = (
  λ v.
      let t = (kept_visible_iff (frozen_grant s frozen ∷ roster) s aud h).0 v in
      let fits = kept_token_prefix t.0.token aud t.3 in
      elim t.1 [
        | inl e ↦ elim t.3 [
          | inl q ↦ absurd (reader_ne_author frozen (sym (ap (λ (g : Grant). g.token) e) ∙ q))
          | inr q ↦
              sym (reader_token_injective frozen aud f a (sym (ap (λ (g : Grant). g.token) e) ∙ q))
        ]
        | inr m ↦ absurd (ground (arith, fits, All-In OfRoster roster t.0 r m))
      ],
  λ e.
      (kept_visible_iff (frozen_grant s frozen ∷ roster) s aud h).1
        (frozen_grant s frozen, inl refl, refl, inr (ap reader_token (sym e))),
)

-- The author of a kept note is shown an old value across every change of audience, from an empty
-- audience too.
old_value_author :
    (gs : List Grant) (s : Bytes) (prev : List Bytes) (changed : Bool) (v : RawMessage)
    → is_erased s ≡ true
    → In (record { subject = s; token = erased_author }) gs
    → old_value gs s prev changed v ≡ v
unfolding old_value
old_value_author gs s prev changed v h m = ground (
  arith,
  (kept_visible_iff gs s prev h).1
      (record { subject = s; token = erased_author }, m, refl, inl refl),
)
