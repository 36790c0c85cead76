-- ===== src/Limiter.antt =====
-- gateway/ratelimit/limiter.py: the two token buckets of a tenant, in Redis.
-- The clock's readings are whole ticks and the window is `window` ticks, and the level of a bucket
-- is counted in window-ths of a request or token, so that the rate `cap / window_s` is `cap` units a
-- tick and every number of the script is whole. Redis is the parameter `Redis`: the state of the
-- hashes under the commands that the script and `reconcile` use, with their documented effects. A
-- key is named by its tenant and dimension, which `rl:{id}:req` and `rl:{id}:tok` spell injectively.
pub mod Script
pub mod Refund
pub mod Rate
pub mod Expiry
pub mod Waiting
use switchyard_llm.Prelude.{
  ℕ, ◌+◌, ◌-◌, ◌*◌, ◌≡◌, ◌≢◌, String, Bool, true, false, ◌||◌, Option, none, some, ltb,
  if◌then◌else◌, ◌<◌,
}
use switchyard_llm.Prelude.Int.{ℤ, pos, pos_part, ◌+ℤ◌, ◌-ℤ◌, scale, min_ℤ, ltb_ℤ, is_zero_ℤ}
use switchyard_llm.Signals.{Fraction}
use switchyard_llm.Tenancy.{Tenant}

pub data Dimension : Type 0 where
  requests tokens : Dimension

pub record Key : Type 0 where
  pub tenant : String
  pub dimension : Dimension

-- The fields of a bucket's hash: `tokens` and `ts`.
pub data Field : Type 0 where
  level_field ts_field : Field

pub record Redis : Type 1 where
  pub Store : Type 0
  pub hget : Key → Field → Store → Option ℤ
  pub hset : Key → Field → ℤ → Store → Store
  pub hincrby : Key → Field → ℤ → Store → Store
  pub expire : Key → ℕ → Store → Store
  -- The key's time to live is over.
  pub expired : Key → Store → Store
  pub hget-hset_self : (k : Key) (f : Field) (v : ℤ) (s : Store) → hget k f (hset k f v s) ≡ some v
  pub hget-hset_field :
      (k : Key) (f g : Field) (v : ℤ) (s : Store) → g ≢ f → hget k g (hset k f v s) ≡ hget k g s
  pub hget-hset_key :
      (k j : Key) (f g : Field) (v : ℤ) (s : Store) → j ≢ k → hget j g (hset k f v s) ≡ hget j g s
  pub hget-hincrby_old :
      (k : Key) (f : Field) (v d : ℤ) (s : Store)
      → hget k f s ≡ some v
      → hget k f (hincrby k f d s) ≡ some (v +ℤ d)
  pub hget-hincrby_new :
      (k : Key) (f : Field) (d : ℤ) (s : Store)
      → hget k f s ≡ none
      → hget k f (hincrby k f d s) ≡ some d
  pub hget-hincrby_field :
      (k : Key) (f g : Field) (d : ℤ) (s : Store) → g ≢ f → hget k g (hincrby k f d s) ≡ hget k g s
  pub hget-hincrby_key :
      (k j : Key) (f g : Field) (d : ℤ) (s : Store)
      → j ≢ k
      → hget j g (hincrby k f d s) ≡ hget j g s
  pub hget-expire :
      (k j : Key) (f : Field) (ttl : ℕ) (s : Store)
      → 0 < ttl
      → hget j f (expire k ttl s) ≡ hget j f s
  pub hget-expired : (k : Key) (f : Field) (s : Store) → hget k f (expired k s) ≡ none

pub data Blocked : Type 0 where
  nothing by_requests by_tokens : Blocked

-- `RateLimitResult`; `retry_after` is in ticks.
pub record RateLimitResult : Type 0 where
  pub allowed : Bool
  pub retry_after : Fraction
  pub blocked_dimension : Blocked

-- ARGV of the script.
pub record Args : Type 0 where
  pub now : ℕ
  pub rcap : ℕ
  pub rrate : ℕ
  pub rcost : ℤ
  pub tcap : ℕ
  pub trate : ℕ
  pub tcost : ℤ
  pub ttl : ℕ

-- `local elapsed = now - ts; if elapsed < 0 then elapsed = 0 end`
abbrev pub elapsed : ℕ → ℤ → ℕ
elapsed now ts = pos_part (pos now -ℤ ts)

-- `math.min(cap, tokens + elapsed * rate)`
unfoldable pub refilled : ℕ → ℕ → ℕ → ℤ → ℤ → ℤ
refilled now cap rate amount ts = min_ℤ (pos cap) (amount +ℤ pos (elapsed now ts * rate))

-- `(cost - level) / rate`, and 0 where the rate is not positive.
unfoldable pub wait_for : ℤ → ℤ → ℕ → Fraction
wait_for cost level rate =
    if ltb 0 rate
    then record { num = pos_part (cost -ℤ level); den = rate }
    else record { num = 0; den = 1 }

unfoldable pub reply : Args → ℤ → ℤ → RateLimitResult
unfolding wait_for
reply a rtok ttok =
    if ltb_ℤ rtok a.rcost || ltb_ℤ ttok a.tcost
    then if ltb_ℤ ttok a.tcost
      then record {
        allowed = false;
        retry_after = wait_for a.tcost ttok a.trate;
        blocked_dimension = by_tokens;
      }
      else record {
        allowed = false;
        retry_after = wait_for a.rcost rtok a.rrate;
        blocked_dimension = by_requests;
      }
    else record {
      allowed = true;
      retry_after = record { num = 0; den = 1 };
      blocked_dimension = nothing;
    }

module _ (redis : Redis) where
  open redis use {Store, hget, hset, hincrby, expire}

  -- `level(key, cap, rate)`: `none` is the error of an arithmetic operation on a `ts` that is nil.
  unfoldable pub level : Key → ℕ → ℕ → ℕ → Store → Option ℤ
  level key now cap rate s = elim (hget key level_field s) [
    | none ↦ some (refilled now cap rate (pos cap) (pos now))
    | some amount ↦ elim (hget key ts_field s) [
      | none ↦ none
      | some ts ↦ some (refilled now cap rate amount ts)
    ]
  ]

  -- `HSET key tokens … ts …`, with the `EXPIRE` of a positive time to live.
  unfoldable pub save : Key → ℤ → ℕ → ℕ → Store → Store
  save key amount now ttl s =
      let s' = hset key ts_field (pos now) (hset key level_field amount s) in
      if ltb 0 ttl then expire key ttl s' else s'

  abbrev pub charged : Bool → ℤ → ℤ → ℤ
  charged allowed amount cost = if allowed then amount -ℤ cost else amount

  -- The script after both levels are read.
  unfoldable pub consume : Key → Key → Args → ℤ → ℤ → Store → RateLimitResult × Store
  unfolding reply save
  consume rkey tkey a rtok ttok s =
      let result = reply a rtok ttok in
      (
        result,
        save tkey (charged result.allowed ttok a.tcost) a.now a.ttl
            (save rkey (charged result.allowed rtok a.rcost) a.now a.ttl s),
      )

  -- The whole script; a script that errors has written nothing.
  unfoldable pub script : Key → Key → Args → Store → Option (RateLimitResult × Store)
  unfolding level consume
  script rkey tkey a s = elim (level rkey a.now a.rcap a.rrate s) [
    | none ↦ none
    | some rtok ↦ elim (level tkey a.now a.tcap a.trate s) [
      | none ↦ none
      | some ttok ↦ some (consume rkey tkey a rtok ttok s)
    ]
  ]

  module _ (window : ℕ) where
    abbrev pub request_key : Tenant → Key
    request_key tenant = record { tenant = tenant.id; dimension = requests }

    abbrev pub token_key : Tenant → Key
    token_key tenant = record { tenant = tenant.id; dimension = tokens }

    -- The capacities and costs in units, the rates in units a tick.
    abbrev pub check_args : Tenant → ℕ → ℤ → Args
    check_args tenant now estimated_tokens = record {
      now = now;
      rcap = tenant.requests_per_min * window;
      rrate = tenant.requests_per_min;
      rcost = pos window;
      tcap = tenant.tokens_per_min * window;
      trate = tenant.tokens_per_min;
      tcost = scale window estimated_tokens;
      ttl = window * 2;
    }

    unfoldable pub check : Tenant → ℕ → ℤ → Store → Option (RateLimitResult × Store)
    unfolding script
    check tenant now estimated_tokens s =
        script (request_key tenant) (token_key tenant) (check_args tenant now estimated_tokens) s

    unfoldable pub reconcile : Tenant → ℤ → ℤ → Store → Store
    reconcile tenant actual_tokens estimated_tokens s =
        let adjustment = estimated_tokens -ℤ actual_tokens in
        if is_zero_ℤ adjustment
        then s
        else hincrby (token_key tenant) level_field (scale window adjustment) s
