-- ===== src/Tests/Stores.antt =====
-- A Redis store and a vector index as concrete functions, with the laws that the development asks
-- for, and the limiter and the cache at concrete inputs.
use switchyard_llm.Prelude.{
  ℕ, ◌+◌, ◌-◌, ◌*◌, ◌≤◌, ◌≡◌, ◌≢◌, ◌↔◌, refl, string_eq, nat_eq, Bool, true, false, ◌&&◌, [], ◌∷◌,
  Option, none, some, arith, if◌then◌else◌, Bool-cases, inl, inr,
}
use switchyard_llm.Prelude.Int.{ℤ, pos, ◌+ℤ◌, ◌-ℤ◌, ◌≤ℤ◌, scale, min_ℤ}
use switchyard_llm.Tenancy.{Tenant}
use switchyard_llm.Limiter.{
  by_requests, Dimension, requests, tokens, Key, Field, level_field, ts_field, Redis,
  RateLimitResult, Blocked, check, reconcile, level, request_key, token_key, script, consume, save,
  reply, refilled, wait_for,
}
use switchyard_llm.Limiter.Script.{Holds, check_atomic}
use switchyard_llm.Limiter.Refund.{check_then_reconcile}
use switchyard_llm.Limiter.Rate.{checks, reconciles, serve, admitted_bounded}
use switchyard_llm.Limiter.Waiting.{retry_after_suffices}
use switchyard_llm.Limiter.Expiry.{reconcile_after_expiry}

abbrev pub dimension_beq : Dimension → Dimension → Bool
dimension_beq requests requests = true
dimension_beq requests tokens = false
dimension_beq tokens requests = false
dimension_beq tokens tokens = true

abbrev pub field_beq : Field → Field → Bool
field_beq level_field level_field = true
field_beq level_field ts_field = false
field_beq ts_field level_field = false
field_beq ts_field ts_field = true

abbrev pub key_beq : Key → Key → Bool
key_beq j k = string_eq.beq j.tenant k.tenant && dimension_beq j.dimension k.dimension

pub dimension_eq : (d e : Dimension) → dimension_beq d e ≡ true → d ≡ e
dimension_eq requests requests h = refl
dimension_eq requests tokens h = absurd (ground (arith, h))
dimension_eq tokens requests h = absurd (ground (arith, h))
dimension_eq tokens tokens h = refl

pub field_eq : (d e : Field) → field_beq d e ≡ true → d ≡ e
field_eq level_field level_field h = refl
field_eq level_field ts_field h = absurd (ground (arith, h))
field_eq ts_field level_field h = absurd (ground (arith, h))
field_eq ts_field ts_field h = refl

pub key_eq : (j k : Key) → key_beq j k ≡ true → j ≡ k
key_eq j k h =
    let p : j.tenant ≡ k.tenant = (string_eq.beq_iff j.tenant k.tenant).0 (ground (arith, h)) in
    let q : j.dimension ≡ k.dimension = dimension_eq j.dimension k.dimension (ground (arith, h)) in
    λ i. record { tenant = p i; dimension = q i }

pub dimension_self : (d : Dimension) → dimension_beq d d ≡ true
dimension_self requests = refl
dimension_self tokens = refl

pub field_self : (f : Field) → field_beq f f ≡ true
field_self level_field = refl
field_self ts_field = refl

pub key_self : (k : Key) → key_beq k k ≡ true
key_self k = ground (arith, string_eq.beq_iff k.tenant k.tenant, dimension_self k.dimension)

pub key_differ : (j k : Key) → j ≢ k → key_beq j k ≡ false
key_differ j k ne = elim (Bool-cases (key_beq j k)) [
  | inl same ↦ absurd (ne (key_eq j k same))
  | inr differ ↦ differ
]

pub field_differ : (f g : Field) → f ≢ g → field_beq f g ≡ false
field_differ f g ne = elim (Bool-cases (field_beq f g)) [
  | inl same ↦ absurd (ne (field_eq f g same))
  | inr differ ↦ differ
]

abbrev pub Table : Type 0
Table = Key → Field → Option ℤ

abbrev pub write : Key → Field → ℤ → Table → Table
write k f v t j g = if key_beq j k then (if field_beq g f then some v else t j g) else t j g

abbrev pub increased : ℤ → Option ℤ → ℤ
increased d none = d
increased d (some v) = v +ℤ d

abbrev pub table : Redis
table = record {
  Store = Table;
  hget = λ k f t. t k f;
  hset = write;
  hincrby = λ k f d t. write k f (increased d (t k f)) t;
  expire = λ k ttl t. t;
  expired = λ k t j g. if key_beq j k then none else t j g;
  hget-hset_self = λ k f v s. ground (arith, key_self k, field_self f);
  hget-hset_field = λ k f g v s ne. ground (arith, field_differ g f ne);
  hget-hset_key = λ k j f g v s ne. ground (arith, key_differ j k ne);
  hget-hincrby_old = λ k f v d s h. ground (arith, key_self k, field_self f, h);
  hget-hincrby_new = λ k f d s h. ground (arith, key_self k, field_self f, h);
  hget-hincrby_field = λ k f g d s ne. ground (arith, field_differ g f ne);
  hget-hincrby_key = λ k j f g d s ne. ground (arith, key_differ j k ne);
  hget-expire = λ k j f ttl s le. refl;
  hget-expired = λ k f s. ground (arith, key_self k);
}

abbrev pub acme : Tenant
acme = record { id = "acme"; requests_per_min = 2; tokens_per_min = 100 }

abbrev pub empty : Table
empty k f = none

-- A store with both buckets of a tenant.
abbrev pub filled : ℕ → ℕ → Table
filled r t k level_field = if dimension_beq k.dimension requests then some (pos r) else some (pos t)
filled r t k ts_field = some (pos 5)

check_atomic_example :
    (result : RateLimitResult) × (s' : Table) × (check table 60 acme 7 (pos 10) empty
      ≡ some (result, s'))
    × ((result.allowed ≡ true) ↔ ((pos 60 ≤ℤ pos 120) × (scale 60 (pos 10) ≤ℤ pos 6000)))
    × Holds table
        (request_key table 60 acme)
        (if result.allowed then pos 120 -ℤ pos 60 else pos 120)
        7
        s'
    × Holds table
        (token_key table 60 acme)
        (if result.allowed then pos 6000 -ℤ scale 60 (pos 10) else pos 6000)
        7
        s'
unfolding level refilled min_ℤ ◌+ℤ◌ ◌-ℤ◌
check_atomic_example = check_atomic table 60 acme 7 (pos 10) empty (pos 120) (pos 6000) refl refl

abbrev pub admitted_store : Table
admitted_store =
    write (record { tenant = "acme"; dimension = tokens }) ts_field (pos 7)
      (write (record { tenant = "acme"; dimension = tokens }) level_field (pos 5400)
        (write (record { tenant = "acme"; dimension = requests }) ts_field (pos 7)
          (write (record { tenant = "acme"; dimension = requests }) level_field (pos 60) empty)))

abbrev pub allowed_result : RateLimitResult
allowed_result = record {
  allowed = true;
  retry_after = record { num = 0; den = 1 };
  blocked_dimension = Blocked.nothing;
}

check_then_reconcile_example :
    let v = reconcile table 60 acme (pos 4) (pos 10) admitted_store in
    Holds table (token_key table 60 acme) (pos 6000 -ℤ scale 60 (pos 4)) 7 v
    × Holds table (request_key table 60 acme) (pos 120 -ℤ pos 60) 7 v
unfolding level refilled min_ℤ ◌+ℤ◌ ◌-ℤ◌ check script consume save reply scale wait_for
check_then_reconcile_example =
    check_then_reconcile table 60 acme 7 (pos 10) (pos 4) (pos 120) (pos 6000) empty admitted_store
      allowed_result refl refl refl refl

admitted_bounded_example :
    (n : ℕ) × (v : Table) × (serve table 60 acme
        (checks 6 (pos 10) ∷ reconciles (pos 4) (pos 10) ∷ checks 9 (pos 1) ∷ [])
        (filled 60 600)
      ≡ some (n, v))
    × (n * 60 ≤ 60 + 2 * (9 - 5))
admitted_bounded_example =
    admitted_bounded table 60 acme
      (checks 6 (pos 10) ∷ reconciles (pos 4) (pos 10) ∷ checks 9 (pos 1) ∷ []) (filled 60 600)
      (pos 60) (pos 600) 5 5 9 (record { amount_is = refl; time_is = refl })
      (record { amount_is = refl; time_is = refl }) (omega arith)
      (omega arith, (omega arith, omega arith))

reconcile_after_expiry_example :
    check table 60 acme 8 (pos 1) (
      reconcile table 60 acme
        (pos 4)
        (pos 10)
        (table.expired (token_key table 60 acme) (filled 60 600)))
    ≡ none
unfolding ◌-ℤ◌
reconcile_after_expiry_example =
    reconcile_after_expiry table 60 acme (pos 4) (pos 10) (filled 60 600) refl 8 (pos 1)

-- A store whose request bucket is empty.
abbrev drained_store : Table
drained_store =
    write (record { tenant = "acme"; dimension = tokens }) ts_field (pos 5)
      (write (record { tenant = "acme"; dimension = tokens }) level_field (pos 600)
        (write (record { tenant = "acme"; dimension = requests }) ts_field (pos 5)
          (write (record { tenant = "acme"; dimension = requests }) level_field (pos 10)
            (filled 10 600))))

abbrev refused_result : RateLimitResult
refused_result = record {
  allowed = false;
  retry_after = record { num = 50; den = 2 };
  blocked_dimension = by_requests;
}

retry_after_suffices_example :
    (again : RateLimitResult) × (v : Table) × (check table 60 acme 30 (pos 1) drained_store
      ≡ some (again, v))
    × (again.allowed ≡ true)
unfolding level refilled min_ℤ ◌+ℤ◌ ◌-ℤ◌ check script consume save reply scale wait_for
retry_after_suffices_example =
    retry_after_suffices table 60 acme 5 30 (pos 1) (filled 10 600) drained_store (pos 10) (pos 600)
      refused_result refl refl refl refl (omega arith) (omega arith)
