-- ===== src/Limiter/Expiry.antt =====
-- limiter.py: `reconcile` on a token bucket whose key has expired since the admission check.
use switchyard_llm.Prelude.{ℕ, ◌≡◌, false, none, some, arith, ◌∙◌}
use switchyard_llm.Prelude.Int.{ℤ, ◌-ℤ◌, is_zero_ℤ, scale}
use switchyard_llm.Tenancy.{Tenant}
use switchyard_llm.Limiter.{Key, level_field, ts_field, Redis, level, token_key, check, reconcile}

-- The script errors on a token bucket with a level and no time, whatever the request bucket holds.
broken_bucket :
    (redis : Redis) (window : ℕ) (tenant : Tenant) (now : ℕ) (est d : ℤ) (s : redis.Store)
    → redis.hget (token_key redis window tenant) level_field s ≡ some d
    → redis.hget (token_key redis window tenant) ts_field s ≡ none
    → check redis window tenant now est s ≡ none
unfolding check level
broken_bucket redis window tenant now est d s p q = ground (arith, p, q)

-- When a token bucket expires between the check and `reconcile`, and the estimate was not exact,
-- `reconcile` leaves a bucket with a level and no time. From then on the script errors at every
-- check of the tenant, at every time; it writes nothing, so this does not change.
pub reconcile_after_expiry :
    (redis : Redis) (window : ℕ) (tenant : Tenant) (actual est : ℤ) (s : redis.Store)
    → is_zero_ℤ (est -ℤ actual) ≡ false
    → (now : ℕ) (next : ℤ)
    → check redis window tenant now next
        (reconcile redis window tenant actual est (redis.expired (token_key redis window tenant) s))
      ≡ none
unfolding reconcile
reconcile_after_expiry redis window tenant actual est s off now next =
    rw (off, reconcile)
      (broken_bucket redis window tenant now next (scale window (est -ℤ actual)) _
        (redis.hget-hincrby_new key level_field _ gone (redis.hget-expired key level_field s))
        (redis.hget-hincrby_field key level_field ts_field _ gone (λ e. cc)
          ∙ redis.hget-expired key ts_field s))
  where
    key : Key
    key = token_key redis window tenant

    gone : redis.Store
    gone = redis.expired key s
