-- ===== src/Limiter/Script.antt =====
-- limiter.py: what one admission check does to the two buckets.
use switchyard_llm.Prelude.{
  ltb→lt, ap, ◌↔◌, ℕ, ◌≡◌, ◌≢◌, refl, inl, inr, true, some, arith, ltb, Bool-cases, ◌∙◌,
  if◌then◌else◌,
}
use switchyard_llm.Prelude.Int.{ℤ, pos, ◌≤ℤ◌, ◌-ℤ◌, scale}
use switchyard_llm.Tenancy.{Tenant}
use switchyard_llm.Limiter.{
  requests, tokens, Key, Field, level_field, ts_field, Redis, Args, RateLimitResult, reply, level,
  save, charged, consume, script, request_key, token_key, check_args, check,
}

-- The level of a bucket and the time that it was read at.
pub record Holds (redis : Redis) (k : Key) (amount : ℤ) (now : ℕ) (s : redis.Store) : Type 0 where
  pub amount_is : redis.hget k level_field s ≡ some amount
  pub time_is : redis.hget k ts_field s ≡ some (pos now)

module _ (redis : Redis) where
  open redis use {Store, hget, hset, expire}

  level_ne_ts : ◌≢◌ {A = Field} level_field ts_field
  level_ne_ts e = cc

  pub save-Holds :
      (k : Key) (amount : ℤ) (now ttl : ℕ) (s : Store)
      → Holds redis k amount now (save redis k amount now ttl s)
  unfolding save
  save-Holds k amount now ttl s = elim (Bool-cases (ltb 0 ttl)) [
    | inl lives ↦
        rw (lives, save)
          (record {
            amount_is =
                redis.hget-expire k k level_field ttl _ (ltb→lt 0 ttl lives) ∙ written.amount_is;
            time_is = redis.hget-expire k k ts_field ttl _ (ltb→lt 0 ttl lives) ∙ written.time_is;
          })
    | inr stays ↦ rw (stays, save) written
  ]
    where
      written : Holds redis k amount now (hset k ts_field (pos now) (hset k level_field amount s))
      written = record {
        amount_is =
            redis.hget-hset_field k ts_field level_field (pos now) _ level_ne_ts
            ∙ redis.hget-hset_self k level_field amount s;
        time_is = redis.hget-hset_self k ts_field (pos now) _;
      }

  -- Saving one bucket leaves every other key alone.
  pub save_other :
      (k j : Key) (f : Field) (amount : ℤ) (now ttl : ℕ) (s : Store)
      → j ≢ k
      → hget j f (save redis k amount now ttl s) ≡ hget j f s
  unfolding save
  save_other k j f amount now ttl s ne = elim (Bool-cases (ltb 0 ttl)) [
    | inl lives ↦ rw (lives, save) (redis.hget-expire k j f ttl _ (ltb→lt 0 ttl lives) ∙ untouched)
    | inr stays ↦ rw (stays, save) untouched
  ]
    where
      untouched : hget j f (hset k ts_field (pos now) (hset k level_field amount s)) ≡ hget j f s
      untouched =
          redis.hget-hset_key k j ts_field f (pos now) _ ne
          ∙ redis.hget-hset_key k j level_field f amount s ne

  pub save_keeps-Holds :
      (k j : Key) (x amount : ℤ) (t now ttl : ℕ) (s : Store)
      → j ≢ k
      → Holds redis j x t s
      → Holds redis j x t (save redis k amount now ttl s)
  save_keeps-Holds k j x amount t now ttl s ne h = record {
    amount_is = save_other k j level_field amount now ttl s ne ∙ h.amount_is;
    time_is = save_other k j ts_field amount now ttl s ne ∙ h.time_is;
  }

  consume-Holds :
      (rkey tkey : Key) (a : Args) (rtok ttok : ℤ) (s : Store)
      → rkey ≢ tkey
      → let (result, s') = consume redis rkey tkey a rtok ttok s in
        Holds redis rkey (charged redis result.allowed rtok a.rcost) a.now s'
        × Holds redis tkey (charged redis result.allowed ttok a.tcost) a.now s'
  unfolding consume
  consume-Holds rkey tkey a rtok ttok s ne = (
    save_keeps-Holds tkey rkey _ _ a.now a.now a.ttl _ ne
        (save-Holds rkey (charged redis (reply a rtok ttok).allowed rtok a.rcost) a.now a.ttl s),
    save-Holds tkey (charged redis (reply a rtok ttok).allowed ttok a.tcost) a.now a.ttl _,
  )

reply_allowed :
    (a : Args) (rtok ttok : ℤ)
    → ((reply a rtok ttok).allowed ≡ true) ↔ ((a.rcost ≤ℤ rtok) × (a.tcost ≤ℤ ttok))
unfolding reply
reply_allowed a rtok ttok = (λ h. ground arith, λ h. ground arith)

module _ (redis : Redis) (window : ℕ) (tenant : Tenant) (now : ℕ) (est : ℤ) where
  open redis use {Store}

  abbrev a : Args
  a = check_args redis window tenant now est

  abbrev rkey : Key
  rkey = request_key redis window tenant

  abbrev tkey : Key
  tkey = token_key redis window tenant

  pub keys_differ : rkey ≢ tkey
  keys_differ e = let d : requests ≡ tokens = ap (λ (k : Key). k.dimension) e in cc

  -- The reply of a check, and the buckets after it.
  pub check-reply :
      (s : Store) (rtok ttok : ℤ)
      → level redis rkey now a.rcap a.rrate s ≡ some rtok
      → level redis tkey now a.tcap a.trate s ≡ some ttok
      → (s' : Store) × (check redis window tenant now est s ≡ some (reply a rtok ttok, s'))
        × Holds redis rkey (charged redis (reply a rtok ttok).allowed rtok (pos window)) now s'
        × Holds redis tkey
            (charged redis (reply a rtok ttok).allowed ttok (scale window est))
            now
            s'
  unfolding check consume
  check-reply s rtok ttok er et =
      let (hr, ht) = consume-Holds redis rkey tkey a rtok ttok s keys_differ in
      ((consume redis rkey tkey a rtok ttok s).1, rw (er, et, check, script) refl, hr, ht)

  -- A check reads both buckets at the same time and admits the request exactly if the request bucket
  -- holds one request and the token bucket the estimate. An admitted request is charged to both, a
  -- refused one to neither, and in both cases both buckets are left at the levels read, less the
  -- charge, with the time of the check.
  pub check_atomic :
      (s : Store) (rtok ttok : ℤ)
      → level redis rkey now a.rcap a.rrate s ≡ some rtok
      → level redis tkey now a.tcap a.trate s ≡ some ttok
      → (result : RateLimitResult) × (s' : Store) × (check redis window tenant now est s
          ≡ some (result, s'))
        × ((result.allowed ≡ true) ↔ ((pos window ≤ℤ rtok) × (scale window est ≤ℤ ttok)))
        × Holds redis rkey (if result.allowed then rtok -ℤ pos window else rtok) now s'
        × Holds redis tkey (if result.allowed then ttok -ℤ scale window est else ttok) now s'
  check_atomic s rtok ttok er et =
      let (s', e, hr, ht) = check-reply s rtok ttok er et in
      (reply a rtok ttok, s', e, reply_allowed a rtok ttok, hr, ht)
