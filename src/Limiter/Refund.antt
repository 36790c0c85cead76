-- ===== src/Limiter/Refund.antt =====
-- limiter.py: `reconcile` against the charge of the admission check.
use switchyard_llm.Prelude.{
  ℕ, ◌+◌, ◌*◌, ◌≡◌, ◌≢◌, refl, inl, inr, ap, ◌∙◌, sym, subst, true, some, arith, Bool-cases,
}
use switchyard_llm.Prelude.Int.{
  ℤ, pos, negsuc, pos_part, neg_part, ◌+ℤ◌, ◌-ℤ◌, scale, int_laws, is_zero_ℤ, -ℤ_parts, +ℤ_parts,
  eq_of_parts,
}
use switchyard_llm.Tenancy.{Tenant}
use switchyard_llm.Limiter.{
  Key, Field, level_field, ts_field, Redis, RateLimitResult, level, charged, request_key, token_key,
  check, reconcile,
}
use switchyard_llm.Limiter.Script.{Holds, keys_differ, check_atomic}

pub some_eq {ℓ} : {A : Type ℓ} (x y : A) → some x ≡ some y → x ≡ y
some_eq x y e = cc

pub scale_parts :
    (k : ℕ) (x : ℤ) → pos_part (scale k x) + k * neg_part x ≡ neg_part (scale k x) + k * pos_part x
unfolding scale
scale_parts k x = ground arith

pub scale_sub : (k : ℕ) (x e c : ℤ) → (x -ℤ scale k e) +ℤ scale k (e -ℤ c) ≡ x -ℤ scale k c
scale_sub k x e c = omega (
  arith,
  eq_of_parts,
  +ℤ_parts (x -ℤ scale k e) (scale k (e -ℤ c)),
  -ℤ_parts x (scale k e),
  -ℤ_parts x (scale k c),
  scale_parts k e,
  scale_parts k c,
  scale_parts k (e -ℤ c),
  ap (λ (t : ℕ). k * t) (-ℤ_parts e c),
)

scale_zero : (k : ℕ) (x : ℤ) → is_zero_ℤ x ≡ true → scale k x ≡ pos 0
unfolding scale
scale_zero k (pos n) h = let z : n ≡ 0 = ground arith in rw z (ground arith)
scale_zero k (negsuc n) h = cc

module _ (redis : Redis) (window : ℕ) (tenant : Tenant) where
  open redis use {Store, hget}

  -- What `reconcile` does to a token bucket that exists, and to every other key.
  pub reconcile-Holds :
      (amount actual est : ℤ) (now : ℕ) (s : Store)
      → Holds redis (token_key redis window tenant) amount now s
      → Holds redis
          (token_key redis window tenant)
          (amount +ℤ scale window (est -ℤ actual))
          now
          (reconcile redis window tenant actual est s)
  unfolding reconcile
  reconcile-Holds amount actual est now s h = elim (Bool-cases (is_zero_ℤ (est -ℤ actual))) [
    | inl exact ↦
        rw (exact, reconcile)
          (record {
            amount_is =
                h.amount_is
                ∙ ap (λ (x : ℤ). some x) {x = amount}
                    (rw (scale_zero window (est -ℤ actual) exact) (omega int_laws));
            time_is = h.time_is;
          })
    | inr off ↦
        rw (off, reconcile)
          (record {
            amount_is = redis.hget-hincrby_old _ level_field amount _ s h.amount_is;
            time_is = redis.hget-hincrby_field _ level_field ts_field _ s (λ e. cc) ∙ h.time_is;
          })
  ]

  pub reconcile_other :
      (j : Key) (f : Field) (actual est : ℤ) (s : Store)
      → j ≢ token_key redis window tenant
      → hget j f (reconcile redis window tenant actual est s) ≡ hget j f s
  unfolding reconcile
  reconcile_other j f actual est s ne = elim (Bool-cases (is_zero_ℤ (est -ℤ actual))) [
    | inl exact ↦ rw (exact, reconcile) refl
    | inr off ↦ rw (off, reconcile) (redis.hget-hincrby_key _ j level_field f _ s ne)
  ]

  -- An admitted request that is reconciled leaves the token bucket charged with exactly the actual
  -- usage, whatever the estimate was, and the request bucket charged with one request. With an
  -- actual usage of 0 all tokens are refunded and the request stays charged.
  pub check_then_reconcile :
      (now : ℕ) (est actual rtok ttok : ℤ) (s s' : Store) (result : RateLimitResult)
      → level redis
          (request_key redis window tenant)
          now
          (tenant.requests_per_min * window)
          tenant.requests_per_min
          s
        ≡ some rtok
      → level redis
          (token_key redis window tenant)
          now
          (tenant.tokens_per_min * window)
          tenant.tokens_per_min
          s
        ≡ some ttok
      → check redis window tenant now est s ≡ some (result, s')
      → result.allowed ≡ true
      → let v = reconcile redis window tenant actual est s' in
        Holds redis (token_key redis window tenant) (ttok -ℤ scale window actual) now v
        × Holds redis (request_key redis window tenant) (rtok -ℤ pos window) now v
  check_then_reconcile now est actual rtok ttok s s' result er et ran admitted =
      let (result', t, e, allowed, hr, ht) =
        check_atomic redis window tenant now est s rtok ttok er et in
      let same : ◌≡◌ {A = RateLimitResult × Store} (result', t) (result, s') =
        some_eq _ _ (sym e ∙ ran) in
      let hr' : Holds redis (request_key redis window tenant) (charged redis true rtok (pos window))
          now s' =
        rw admitted at (
          subst
            (λ (x : RateLimitResult × Store).
              Holds redis (request_key redis window tenant)
                (charged redis x.0.allowed rtok (pos window)) now x.1)
            same hr) in
      let ht' : Holds redis (token_key redis window tenant)
          (charged redis true ttok (scale window est)) now s' =
        rw admitted at (
          subst
            (λ (x : RateLimitResult × Store).
              Holds redis (token_key redis window tenant)
                (charged redis x.0.allowed ttok (scale window est)) now x.1)
            same ht) in
      (
        rw (← scale_sub window ttok est actual)
            (reconcile-Holds (ttok -ℤ scale window est) actual est now s' ht'),
        record {
          amount_is = reconcile_other _ level_field actual est s' differ ∙ hr'.amount_is;
          time_is = reconcile_other _ ts_field actual est s' differ ∙ hr'.time_is;
        },
      )
    where
      differ : request_key redis window tenant ≢ token_key redis window tenant
      differ = keys_differ redis window tenant now est
