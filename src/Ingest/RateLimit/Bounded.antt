-- ===== src/Ingest/RateLimit/Bounded.antt =====
-- The memory of internal/ingest/auth/ratelimit.go stays bounded, and its map and its list agree.
use mathlib.Core.Path.{subst}
use glovebox.Prelude.{
  ℕ, suc, ◌≤◌, ◌<◌, ◌≡◌, ◌≢◌, inl, inr, refl, sym, ap, ◌∙◌, Bool, true, false, not, ◌&&◌, ◌||◌, leb,
  List, [], ◌∷◌, Bytes, some-injective, eq_bytes, eq_bytes_refl, eq_bytes→eq, length, none, some,
  arith, Bool-cases, Option-cases,
}
use glovebox.Ingest.RateLimit.{
  Bucket, RateLimiter, remove_key, has_key, has_bucket, lru_capacity, new_rate_limiter, find_bucket,
  remove_bucket, back, evict, ask_front, add_ip, allow_reject,
}

-- Two addresses that differ are not both equal to a third.
apart : (j k x : Bytes) → eq_bytes j k ≡ false → eq_bytes j x ≡ true → eq_bytes k x ≡ false
apart j k x h q = elim (Bool-cases (eq_bytes k x)) [
  | inr n ↦ n
  | inl n ↦
      let same : j ≡ k = eq_bytes→eq j x q ∙ sym (eq_bytes→eq k x n) in
      absurd (ground (arith, h, ap (eq_bytes j) same, eq_bytes_refl j))
]

keeps : (p q r : Bool) → (p ≡ true → r ≡ false) → (p || (q && not r)) ≡ ((p || q) && not r)
keeps true q r h = rw (h refl) refl
keeps false q r h = refl

or_true : (p : Bool) → (p || true) ≡ true
or_true true = refl
or_true false = refl

and_true : (c : Bool) → c ≡ (c && true)
and_true true = refl
and_true false = refl

has_key-remove_key :
    (x k : Bytes) (ks : List Bytes)
    → has_key x (remove_key k ks) ≡ (has_key x ks && not (eq_bytes k x))
unfolding has_key remove_key
has_key-remove_key x k [] = refl
has_key-remove_key x k (j ∷ ks) = elim (Bool-cases (eq_bytes j k)) [
  | inl q ↦ rw (q, has_key-remove_key x k ks, eq_bytes→eq j k q) (ground arith)
  | inr q ↦ rw q (
      rw (has_key-remove_key x k ks)
        (keeps (eq_bytes j x) (has_key x ks) (eq_bytes k x) (apart j k x q)))
]

not_self : (k : Bytes) (c : Bool) → (c && not (eq_bytes k k)) ≡ false
not_self k true = rw (eq_bytes_refl k) refl
not_self k false = refl

back_in :
    (k x : Bytes) (c : Bool)
    → (eq_bytes k x ≡ true → c ≡ true)
    → c ≡ (eq_bytes k x || (c && not (eq_bytes k x)))
back_in k x c h = elim (Bool-cases (eq_bytes k x)) [
  | inl q ↦ rw (q, h q) refl
  | inr q ↦ rw q (and_true c)
]

gone :
    (j k x : Bytes) (c : Bool)
    → j ≡ k
    → (eq_bytes j x ≡ true → c ≡ false)
    → c ≡ ((eq_bytes j x || c) && not (eq_bytes k x))
gone j k x c e h = elim (Bool-cases (eq_bytes j x)) [
  | inl q ↦ rw⁻¹ e (rw (q, h q) refl)
  | inr q ↦ rw⁻¹ e (rw q (and_true c))
]

module _ {Limiter : Type 0} where
  -- Every address has one element.
  abbrev pub Distinct : List (Bucket Limiter) → Type 0
  Distinct [] = Unit
  Distinct (b ∷ bs) = (has_bucket b.ip bs ≡ false) × Distinct bs

  has_bucket-remove_bucket :
      (x k : Bytes) (bs : List (Bucket Limiter))
      → Distinct bs
      → has_bucket x (remove_bucket k bs) ≡ (has_bucket x bs && not (eq_bytes k x))
  unfolding has_bucket remove_bucket
  has_bucket-remove_bucket x k [] d = refl
  has_bucket-remove_bucket x k (b ∷ bs) d = elim (Bool-cases (eq_bytes b.ip k)) [
    | inl q ↦ rw q (
        gone b.ip k x (has_bucket x bs) (eq_bytes→eq b.ip k q)
          (λ e. subst (λ z. has_bucket z bs ≡ false) (eq_bytes→eq b.ip x e) d.0))
    | inr q ↦ rw q (
        rw (has_bucket-remove_bucket x k bs d.1)
          (keeps (eq_bytes b.ip x) (has_bucket x bs) (eq_bytes k x) (apart b.ip k x q)))
  ]

  length-remove_bucket :
      (k : Bytes) (bs : List (Bucket Limiter))
      → has_bucket k bs ≡ true
      → suc (length (remove_bucket k bs)) ≡ length bs
  unfolding has_bucket remove_bucket
  length-remove_bucket k [] h = ground (arith, h)
  length-remove_bucket k (b ∷ bs) h = elim (Bool-cases (eq_bytes b.ip k)) [
    | inl q ↦ rw q refl
    | inr q ↦ rw q (omega (arith, length-remove_bucket k bs (ground (arith, h, q))))
  ]

  back_there :
      (b c : Bucket Limiter) (bs : List (Bucket Limiter))
      → back (b ∷ bs) ≡ some c
      → has_bucket c.ip (b ∷ bs) ≡ true
  unfolding back has_bucket
  back_there b c [] h =
      subst (λ z. (eq_bytes b.ip z.ip || false) ≡ true) (some-injective h)
        (rw (eq_bytes_refl b.ip) refl)
  back_there b c (d ∷ bs) h = rw (back_there d c bs h) (or_true (eq_bytes b.ip c.ip))

  Distinct-remove_bucket :
      (k : Bytes) (bs : List (Bucket Limiter)) → Distinct bs → Distinct (remove_bucket k bs)
  unfolding remove_bucket
  Distinct-remove_bucket k [] d = tt
  Distinct-remove_bucket k (b ∷ bs) d = elim (Bool-cases (eq_bytes b.ip k)) [
    | inl q ↦ rw q d.1
    | inr q ↦ rw q (
      has_bucket-remove_bucket b.ip k bs d.1 ∙ ap (λ z. z && not (eq_bytes k b.ip)) d.0,
      Distinct-remove_bucket k bs d.1,
    )
  ]

  -- The map and the list know the same addresses, each has one element, and there are at most
  -- `capacity`.
  pub record IsBounded (capacity : ℕ) (r : RateLimiter Limiter) : Type 0 where
    pub synced : (x : Bytes) → has_key x r.per_ip ≡ has_bucket x r.lru
    pub distinct : Distinct r.lru
    pub bounded : length r.lru ≤ capacity

  some_last : (b : Bucket Limiter) (bs : List (Bucket Limiter)) → back (b ∷ bs) ≢ none
  unfolding back
  some_last b [] h = cc
  some_last b (c ∷ bs) h = some_last c bs h

  back-has_bucket :
      (bs : List (Bucket Limiter)) (c : Bucket Limiter)
      → back bs ≡ some c
      → has_bucket c.ip bs ≡ true
  unfolding back
  back-has_bucket [] c h = cc
  back-has_bucket (b ∷ bs) c h = back_there b c bs h

  no_last : (bs : List (Bucket Limiter)) → back bs ≡ none → length bs ≡ 0
  no_last [] h = refl
  no_last (b ∷ bs) h = absurd (some_last b bs h)

  evict-IsBounded :
      (capacity : ℕ) (r : RateLimiter Limiter)
      → 0 < capacity
      → IsBounded capacity r
      → IsBounded capacity (evict capacity r) × (length (evict capacity r).lru < capacity)
  unfolding evict
  evict-IsBounded capacity r h w = elim (Bool-cases (leb capacity (length r.lru))) [
    | inr q ↦ rw q (w, ground (arith, q))
    | inl q ↦ elim (Option-cases (back r.lru)) [
      | inl n ↦ absurd (ground (arith, q, h, no_last r.lru n))
      | inr (old, n) ↦
          let less = length-remove_bucket old.ip r.lru (back-has_bucket r.lru old n) in
          rw (q, n)
            (
              record {
                synced = λ x.
                    has_key-remove_key x old.ip r.per_ip
                    ∙ ap (λ z. z && not (eq_bytes old.ip x)) (w.synced x)
                    ∙ sym (has_bucket-remove_bucket x old.ip r.lru w.distinct);
                distinct = Distinct-remove_bucket old.ip r.lru w.distinct;
                bounded = omega (arith, less, w.bounded);
              },
              omega (arith, less, w.bounded),
            )
    ]
  ]

  evict_unknown :
      (capacity : ℕ) (r : RateLimiter Limiter) (x : Bytes)
      → has_key x r.per_ip ≡ false
      → has_key x (evict capacity r).per_ip ≡ false
  unfolding evict
  evict_unknown capacity r x h = elim (Bool-cases (leb capacity (length r.lru))) [
    | inr q ↦ rw q h
    | inl q ↦ elim (Option-cases (back r.lru)) [
      | inl n ↦ rw (q, n) h
      | inr (old, n) ↦
          rw (q, n)
            (has_key-remove_key x old.ip r.per_ip ∙ ap (λ z. z && not (eq_bytes old.ip x)) h)
    ]
  ]

  find_some :
      (k : Bytes) (bs : List (Bucket Limiter)) → find_bucket k bs ≡ none → has_bucket k bs ≡ false
  unfolding find_bucket has_bucket
  find_some k [] h = refl
  find_some k (b ∷ bs) h = elim (Bool-cases (eq_bytes b.ip k)) [
    | inl q ↦ absurd (ground (arith, h, q))
    | inr q ↦ rw q (find_some k bs (ground (arith, h, q)))
  ]

  module _ (allow : ℕ → Limiter → Bool × Limiter) (fresh : Limiter) (capacity : ℕ) where
    add_ip-IsBounded :
        (now : ℕ) (ip : Bytes) (r : RateLimiter Limiter)
        → 0 < capacity
        → IsBounded capacity r
        → has_key ip r.per_ip ≡ false
        → IsBounded capacity (add_ip allow fresh capacity now ip r).1
    unfolding add_ip ask_front has_key has_bucket
    add_ip-IsBounded now ip r h w n =
        let room = evict-IsBounded capacity r h w in
        record {
          synced = λ x. ap (λ z. eq_bytes ip x || z) (room.0.synced x);
          distinct = (sym (room.0.synced ip) ∙ evict_unknown capacity r ip n, room.0.distinct);
          bounded = omega (arith, room.1);
        }

    allow_reject-IsBounded :
        (now : ℕ) (ip : Bytes) (r : RateLimiter Limiter)
        → 0 < capacity
        → IsBounded capacity r
        → IsBounded capacity (allow_reject allow fresh capacity now ip r).1
    unfolding allow_reject ask_front has_bucket
    allow_reject-IsBounded now ip r h w = elim (Bool-cases (not (allow now r.global).0)) [
      | inl q ↦ rw q (record { synced = w.synced; distinct = w.distinct; bounded = w.bounded })
      | inr q ↦ elim (Bool-cases (not (has_key ip r.per_ip))) [
        | inl n ↦
            rw (q, n)
              (add_ip-IsBounded now ip (record r { global = (allow now r.global).1 }) h
                (record { synced = w.synced; distinct = w.distinct; bounded = w.bounded })
                (ground (arith, n)))
        | inr n ↦ elim (Option-cases (find_bucket ip r.lru)) [
          | inl e ↦ absurd (ground (arith, n, w.synced ip, find_some ip r.lru e))
          | inr (limiter, e) ↦
              rw (q, n, e)
                (let there : has_bucket ip r.lru ≡ true = sym (w.synced ip) ∙ ground (arith, n) in
                  let fewer = length-remove_bucket ip r.lru there in
                  record {
                    synced = λ x.
                        w.synced x
                        ∙ back_in ip x (has_bucket x r.lru)
                            (λ z. subst (λ y. has_bucket y r.lru ≡ true) (eq_bytes→eq ip x z) there)
                        ∙ ap (λ z. eq_bytes ip x || z)
                            (sym (has_bucket-remove_bucket x ip r.lru w.distinct));
                    distinct = (
                      has_bucket-remove_bucket ip ip r.lru w.distinct
                          ∙ not_self ip (has_bucket ip r.lru),
                      Distinct-remove_bucket ip r.lru w.distinct,
                    );
                    bounded = omega (arith, fewer, w.bounded);
                  })
        ]
      ]
    ]

    -- Rejections one after the other, each with its time and its address.
    abbrev pub reject_all : List (ℕ × Bytes) → RateLimiter Limiter → RateLimiter Limiter
    reject_all [] r = r
    reject_all ((now, ip) ∷ rest) r = reject_all rest (allow_reject allow fresh capacity now ip r).1

    reject_all-IsBounded :
        (events : List (ℕ × Bytes)) (r : RateLimiter Limiter)
        → 0 < capacity
        → IsBounded capacity r
        → IsBounded capacity (reject_all events r)
    reject_all-IsBounded [] r h w = w
    reject_all-IsBounded ((now, ip) ∷ rest) r h w =
        reject_all-IsBounded rest (allow_reject allow fresh capacity now ip r).1 h
          (allow_reject-IsBounded now ip r h w)

module _ {Limiter : Type 0} (allow : ℕ → Limiter → Bool × Limiter) (fresh : Limiter) where
  -- Whatever the limiters answer and whatever capacity is configured, after any sequence of rejections
  -- the map and the list of a new limiter know the same addresses, each address has one element, and
  -- there are at most as many as the capacity, which is 1000 when none is configured.
  pub new_rate_limiter-IsBounded :
      (configured : ℕ) (global : Limiter) (events : List (ℕ × Bytes))
      → IsBounded
          (lru_capacity configured)
          (reject_all allow fresh (lru_capacity configured) events (new_rate_limiter global))
  unfolding lru_capacity has_key has_bucket
  new_rate_limiter-IsBounded configured global events =
      reject_all-IsBounded allow fresh (lru_capacity configured) events (new_rate_limiter global)
        (ground arith) (record { synced = λ x. refl; distinct = tt; bounded = omega arith })
