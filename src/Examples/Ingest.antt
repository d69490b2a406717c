-- ===== src/Examples/Ingest.antt =====
-- Three callers and room for two, for internal/ingest/auth/ratelimit.go, with limiters that count.
use glovebox.Prelude.{ℕ, ◌-◌, ◌≡◌, refl, Bool, ltb, List, [], ◌∷◌, Bytes, codes, eq_bytes}
use glovebox.Ingest.RateLimit.{
  lru_capacity, new_rate_limiter, has_key, remove_key, find_bucket, remove_bucket, back, evict,
  ask_front, add_ip, allow_reject,
}
use glovebox.Ingest.RateLimit.Bounded.{IsBounded, reject_all, new_rate_limiter-IsBounded}

-- A limiter that holds tokens and gets none back.
abbrev allow : ℕ → ℕ → Bool × ℕ
allow now tokens = (ltb 0 tokens, tokens - 1)

abbrev events : List (ℕ × Bytes)
events = (1, codes "a") ∷ (2, codes "b") ∷ (3, codes "a") ∷ (4, codes "c") ∷ []

oldest_evicted :
    (reject_all allow 5 2 events (new_rate_limiter 100)).per_ip ≡ codes "c" ∷ codes "a" ∷ []
unfolding allow_reject add_ip ask_front evict back remove_bucket find_bucket remove_key has_key
    eq_bytes
oldest_evicted = refl

new_rate_limiter-IsBounded_example :
    IsBounded (lru_capacity 2) (reject_all allow 5 (lru_capacity 2) events (new_rate_limiter 100))
new_rate_limiter-IsBounded_example = new_rate_limiter-IsBounded allow 5 2 100 events
