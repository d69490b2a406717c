-- ===== src/Ingest/RateLimit.antt =====
-- internal/ingest/auth/ratelimit.go: the rejections per address, in a bounded list with the latest in
-- front. A limiter of golang.org/x/time/rate is a parameter: `allow` is its Allow at a time, `fresh` a
-- new one. An element of the list is known by its address, which only one element has.
pub mod Bounded
use glovebox.Prelude.{
  ℕ, Bool, true, false, not, ◌&&◌, ◌||◌, leb, List, [], ◌∷◌, Bytes, eq_bytes, length, Option, none,
  some, if◌then◌else◌,
}

-- bucketEntry
pub record Bucket (Limiter : Type 0) : Type 0 where
  pub ip : Bytes
  pub limiter : Limiter

-- RateLimiter without its configuration: the keys of perIP, the list, and the global limiter.
pub record RateLimiter (Limiter : Type 0) : Type 0 where
  pub per_ip : List Bytes
  pub lru : List (Bucket Limiter)
  pub global : Limiter

-- delete(m, k)
unfoldable pub remove_key : Bytes → List Bytes → List Bytes
remove_key k [] = []
remove_key k (j ∷ ks) = let rest = remove_key k ks in if eq_bytes j k then rest else j ∷ rest

unfoldable pub has_key : Bytes → List Bytes → Bool
has_key k [] = false
has_key k (j ∷ ks) = eq_bytes j k || has_key k ks

-- The capacity that NewRateLimiter takes from the configuration; a negative one counts as zero.
unfoldable pub lru_capacity : ℕ → ℕ
lru_capacity configured = if leb configured 0 then 1000 else configured

-- NewRateLimiter, which panics unless the window and both limits are positive.
abbrev pub new_rate_limiter : {Limiter : Type 0} → Limiter → RateLimiter Limiter
new_rate_limiter global = record { per_ip = []; lru = []; global = global }

module _ {Limiter : Type 0} where
  unfoldable pub has_bucket : Bytes → List (Bucket Limiter) → Bool
  has_bucket k [] = false
  has_bucket k (b ∷ bs) = eq_bytes b.ip k || has_bucket k bs

  -- The limiter of an address.
  unfoldable pub find_bucket : Bytes → List (Bucket Limiter) → Option Limiter
  find_bucket k [] = none
  find_bucket k (b ∷ bs) =
      let rest = find_bucket k bs in if eq_bytes b.ip k then some b.limiter else rest

  unfoldable pub remove_bucket : Bytes → List (Bucket Limiter) → List (Bucket Limiter)
  remove_bucket k [] = []
  remove_bucket k (b ∷ bs) =
      let rest = remove_bucket k bs in if eq_bytes b.ip k then bs else b ∷ rest

  -- Back
  unfoldable pub back : List (Bucket Limiter) → Option (Bucket Limiter)
  back [] = none
  back (b ∷ []) = some b
  back (b ∷ c ∷ bs) = back (c ∷ bs)

  -- The eviction of the oldest address when the list is full.
  unfoldable pub evict : ℕ → RateLimiter Limiter → RateLimiter Limiter
  evict capacity r =
      if leb capacity (length r.lru)
      then elim (back r.lru) [
        | none ↦ r
        | some old ↦ record r {
          per_ip = remove_key old.ip r.per_ip;
          lru = remove_bucket old.ip r.lru;
        }
      ]
      else r

  module _ (allow : ℕ → Limiter → Bool × Limiter) (fresh : Limiter) (capacity : ℕ) where
    -- The limiter in front is asked.
    unfoldable pub ask_front :
        ℕ → Bytes → Limiter → RateLimiter Limiter → Bool × RateLimiter Limiter
    ask_front now ip limiter r = (
      (allow now limiter).0,
      record r { lru = record { ip = ip; limiter = (allow now limiter).1 } ∷ r.lru },
    )

    -- An address that is new.
    unfoldable pub add_ip : ℕ → Bytes → RateLimiter Limiter → Bool × RateLimiter Limiter
    add_ip now ip r =
        let room = evict capacity r in
        ask_front now ip fresh (record room { per_ip = ip ∷ room.per_ip })

    -- AllowReject
    unfoldable pub allow_reject : ℕ → Bytes → RateLimiter Limiter → Bool × RateLimiter Limiter
    allow_reject now ip r =
        let asked = record r { global = (allow now r.global).1 } in
        if not (allow now r.global).0
        then (false, asked)
        else if not (has_key ip r.per_ip)
        then add_ip now ip asked
        else elim (find_bucket ip r.lru) [
          | none ↦ (false, asked)
          | some limiter ↦ ask_front now ip limiter (record asked { lru = remove_bucket ip r.lru })
        ]
